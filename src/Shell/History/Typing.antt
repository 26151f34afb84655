-- ===== src/Shell/History/Typing.antt =====
-- A line typed to `history_read_line` of c-shell/src/history.c.
use ru_shell.Base.{
  List, Option, [], false, if◌then◌else◌, length, ltb, none, some, suc, take, zero, ℕ, ◌++◌, ◌+◌,
  ◌-◌, ◌<◌, ◌∷◌, ◌≤◌,
}
use ru_shell.Shell.Lexer.{Bytes}
use ru_shell.Shell.History.{
  Editor, LineEnd, LoopEnd, Read, byte, finish_line, line, max_hist, overrun,
}

abbrev pub key_of : ℕ → Read
key_of c = record { sig = false; got = byte c }

-- The keys of a line, and Enter.
abbrev pub typed : Bytes → List Read
typed [] = key_of 10 ∷ []
typed (c ∷ cs) = key_of c ∷ typed cs

abbrev pub Printable : Bytes → Type 0
Printable [] = Unit
Printable (c ∷ cs) = (32 ≤ c) × (c < 127) × Printable cs

-- The buffer behind the keys: those that find no room are dropped.
abbrev filled : ℕ → Bytes → Bytes → Bytes
filled bufsize buf [] = buf
filled bufsize buf (c ∷ cs) =
    let more = filled bufsize (buf ++ (c ∷ [])) cs in
    let same = filled bufsize buf cs in if ltb (length buf + 1) bufsize then more else same

module _ (bufsize : ℕ) (hs : List Bytes) (pos : ℕ) (saved : Bytes) where
  abbrev at_line : Bytes → Editor
  at_line buf = record { buf = buf; hist_pos = pos; saved_current = saved; got_sigint = false }

abbrev pub without_first : ℕ → List Bytes → List Bytes
without_first zero hs = hs
without_first (suc n) [] = []
without_first (suc n) (h ∷ hs) = without_first n hs

-- A line at the end of the history, of which the newest `max_hist` lines are kept; an empty line is
-- not put there.
abbrev pub remembered : Bytes → List Bytes → List Bytes
remembered [] hs = hs
remembered (c ∷ cs) hs = without_first (length hs + 1 - max_hist) (hs ++ (take 4095 (c ∷ cs) ∷ []))

-- What becomes of a typed line: it is returned with its newline and goes to the history, or the
-- newline and the NUL run over the buffer.
pub data TypedLine (bufsize : ℕ) (hs : List Bytes) (cs : Bytes) : LineEnd → Type 0 where
  returned :
      length cs + 1 < bufsize → TypedLine bufsize hs cs (line (cs ++ (10 ∷ [])) (remembered cs hs))
  overran : bufsize ≤ length cs + 1 → TypedLine bufsize hs cs overrun

abbrev pub TypedEnd : ℕ → List Bytes → Bytes → Option (LoopEnd × Editor) → Type 0
TypedEnd bufsize hs cs none = ⊥
TypedEnd bufsize hs cs (some (end, e)) = TypedLine bufsize hs cs (finish_line bufsize hs end e)
