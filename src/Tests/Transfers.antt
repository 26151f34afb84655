-- ===== src/Tests/Transfers.antt =====
-- Inputs for pipes, memory and patterns.
use ru_shell.Base.{[], arith, codes, false, none, refl, some, true, ◌%◌, ◌-◌, ◌^◌, ◌↔◌, ◌∷◌, ◌≡◌}
use ru_shell.Kernel.Pipe.{Pipe, piperead, pipewrite}
use ru_shell.Kernel.Pipe.Queue.{IsPipe}
use ru_shell.Kernel.Pipe.Reading.{ReadCall, piperead-ReadCall}
use ru_shell.Kernel.Pipe.Transfer.{Writes, pipewrite-Writes}
use ru_shell.Kernel.Memory.{memmove}
use ru_shell.Kernel.Memory.Move.{Moved, memmove-Moved}
use ru_shell.User.Grep.{grep_match, match_from, matchhere, matchstar}
use ru_shell.User.Grep.Language.{Found, grep_match-Found}

-- A pipe with two bytes, whose counts are about to wrap.
abbrev two_bytes : Pipe
two_bytes = record {
  data_at = λ j. j % 256;
  nread = 2 ^ 32 - 1;
  nwrite = 1;
  readopen = true;
  writeopen = true;
}

two_bytes-IsPipe : IsPipe two_bytes
two_bytes-IsPipe = record {
  read_bound = omega arith;
  write_bound = omega arith;
  room = omega arith;
}

pipewrite-Writes_example :
    Writes
      (λ _. false)
      (some 65 ∷ none ∷ [])
      0
      two_bytes
      (pipewrite (λ _. false) (some 65 ∷ none ∷ []) 0 two_bytes).0
      (pipewrite (λ _. false) (some 65 ∷ none ∷ []) 0 two_bytes).1
pipewrite-Writes_example =
    pipewrite-Writes (λ _. false) (some 65 ∷ none ∷ []) 0 two_bytes two_bytes-IsPipe

piperead-ReadCall_example :
    ReadCall false
      (true ∷ true ∷ true ∷ [])
      two_bytes
      (piperead false (true ∷ true ∷ true ∷ []) two_bytes).0
      (piperead false (true ∷ true ∷ true ∷ []) two_bytes).1
      (piperead false (true ∷ true ∷ true ∷ []) two_bytes).2
piperead-ReadCall_example =
    piperead-ReadCall false (true ∷ true ∷ true ∷ []) two_bytes two_bytes-IsPipe

memmove-Moved_example : Moved 3 1 4 (λ a. a) (memmove 3 1 4 (λ a. a))
memmove-Moved_example = memmove-Moved 3 1 4 (λ a. a)

grep_match-Found_example :
    (grep_match (codes "a*b") (codes "caab") ≡ true) ↔ Found (codes "a*b") (codes "caab")
grep_match-Found_example = grep_match-Found (codes "a*b") (codes "caab")

-- It is found there, but not at the start.
grep_match-finds : grep_match (codes "a*b") (codes "caab") ≡ true
unfolding grep_match match_from matchhere matchstar
grep_match-finds = refl

grep_match-anchored : grep_match (codes "^a*b") (codes "caab") ≡ false
unfolding grep_match match_from matchhere matchstar
grep_match-anchored = refl
