-- ===== src/Tests/Editing.antt =====
-- Inputs for the directories that hop remembers, and for the line editor.
use ru_shell.Base.{[], arith, codes, false, refl, some, true, ℕ, ◌∷◌, ◌≡◌}
use ru_shell.Shell.Hop.{HopNode, best_of, find_best_match, score, starts_with, strstr}
use ru_shell.Shell.Hop.Best.{BestOf, find_best_match-BestOf}
use ru_shell.Shell.History.{Editor, LoopEnd, Read, byte, edit_loop, typing}
use ru_shell.Shell.History.Editing.{edit_loop-Edits}
use ru_shell.Shell.History.Keys.{Edits}

abbrev src_dir : HopNode
src_dir = record { path = codes "/a/src"; freq = 2; last_visit = 9 }

abbrev lib_src_dir : HopNode
lib_src_dir = record { path = codes "/lib/src"; freq = 3; last_visit = 1 }

find_best_match-BestOf_example :
    BestOf
      (λ _. true)
      (codes "src")
      (src_dir ∷ lib_src_dir ∷ [])
      (find_best_match (λ _. true) (codes "src") (src_dir ∷ lib_src_dir ∷ []))
find_best_match-BestOf_example =
    find_best_match-BestOf (λ _. true) (codes "src") (src_dir ∷ lib_src_dir ∷ [])

-- It is the one with more visits.
find_best_match-runs :
    find_best_match (λ _. true) (codes "src") (src_dir ∷ lib_src_dir ∷ []) ≡ some lib_src_dir
unfolding find_best_match best_of strstr starts_with score
find_best_match-runs = refl

abbrev fresh : Editor
fresh = record { buf = []; hist_pos = 1; saved_current = []; got_sigint = false }

abbrev key : ℕ → Read
key c = record { sig = false; got = byte c }

fresh-Edits : Edits 8 (codes "ls" ∷ []) fresh
fresh-Edits = record { line_fits = omega arith; in_history = omega arith }

edit_loop-Edits_example :
    (o : LoopEnd) × (e : Editor) × (edit_loop 8
        (codes "ls" ∷ [])
        typing
        (key 27 ∷ key b'[' ∷ key b'A' ∷ key 10 ∷ [])
        fresh
      ≡ some (o, e))
    × Edits 8 (codes "ls" ∷ []) e
edit_loop-Edits_example =
    edit_loop-Edits 8 (codes "ls" ∷ []) typing (key 27 ∷ key b'[' ∷ key b'A' ∷ key 10 ∷ []) fresh
      (omega arith) fresh-Edits
