-- ===== src/Shell/History/Editing.antt =====
-- What the line editor of c-shell/src/history.c keeps in bounds, and what not.
use ru_shell.Base.{
  Bool, Bool-cases, List, [], arith, false, inl, inr, leb, length, length-append, ltb, ltb→lt, refl,
  some, true, ℕ, ◌&&◌, ◌+◌, ◌<◌, ◌==◌, ◌||◌, ◌∷◌, ◌≡◌,
}
use ru_shell.Shell.Lexer.{Bytes}
use ru_shell.Shell.History.{
  Editor, Got, LoopEnd, Mode, Read, Step, after_read, again, arrow, arrow_read, byte, closed,
  edit_loop, edit_step, ends, escape, escape_read, goes, key_read, last_off, misread, plain_key,
  type_char, typing, waiting,
}
use ru_shell.Shell.History.Keys.{Edits, arrow_key-Edits, last_off_bound}

-- A step that stays in bounds.
abbrev GoodStep : ℕ → List Bytes → Step → Type 0
GoodStep bufsize hs (goes m e) = Edits bufsize hs e
GoodStep bufsize hs (ends o e) = Edits bufsize hs e
GoodStep bufsize hs misread = ⊥

type_char-Edits :
    (bufsize : ℕ) (hs : List Bytes) (c : ℕ) (e : Editor)
    → Edits bufsize hs e
    → Edits bufsize hs (type_char bufsize c e)
unfolding type_char
type_char-Edits bufsize hs c e v =
    elim (Bool-cases (leb 32 c && ltb c 127 && ltb (length e.buf + 1) bufsize)) [
      | inl x ↦
          let l = ltb→lt (length e.buf + 1) bufsize (third (leb 32 c) (ltb c 127) _ x) in
          rw (type_char, x)
            (record {
              line_fits = omega (arith, length-append e.buf (c ∷ []));
              in_history = v.in_history;
            })
      | inr x ↦ rw (type_char, x) v
    ]
  where
    third : (a b d : Bool) → (a && b && d) ≡ true → d ≡ true
    third a b d e = ground arith

plain_key-GoodStep :
    (bufsize : ℕ) (hs : List Bytes) (c : ℕ) (e : Editor)
    → Edits bufsize hs e
    → GoodStep bufsize hs (plain_key bufsize c e)
unfolding plain_key
plain_key-GoodStep bufsize hs c e v = elim (Bool-cases (c == 10 || c == 13)) [
  | inl x ↦ rw (plain_key, x) v
  | inr x ↦ elim (Bool-cases (c == 4 && length e.buf == 0)) [
    | inl y ↦ rw (plain_key, x, y) v
    | inr y ↦ elim (Bool-cases (c == 127 || c == 8)) [
      | inl z ↦ rw (plain_key, x, y, z) shorter
      | inr z ↦ elim (Bool-cases (c == 27)) [
        | inl w ↦ rw (plain_key, x, y, z, w) v
        | inr w ↦ rw (plain_key, x, y, z, w) (type_char-Edits bufsize hs c e v)
      ]
    ]
  ]
]
  where
    shorter : Edits bufsize hs (record e { buf = last_off e.buf })
    shorter = record {
      line_fits = let l = v.line_fits in let k = last_off_bound e.buf in omega arith;
      in_history = v.in_history;
    }

after_read-Edits :
    (bufsize : ℕ) (hs : List Bytes) (r : Read) (e : Editor)
    → Edits bufsize hs e
    → Edits bufsize hs (after_read r e)
after_read-Edits bufsize hs r e v = record { line_fits = v.line_fits; in_history = v.in_history }

key_read-GoodStep :
    (bufsize : ℕ) (hs : List Bytes) (g : Got) (e : Editor)
    → Edits bufsize hs e
    → GoodStep bufsize hs (key_read bufsize g e)
unfolding key_read
key_read-GoodStep bufsize hs (byte c) e v = plain_key-GoodStep bufsize hs c e v
key_read-GoodStep bufsize hs closed e v = v
key_read-GoodStep bufsize hs again e v = v

escape_read-GoodStep :
    (bufsize : ℕ) (hs : List Bytes) (g : Got) (e : Editor)
    → Edits bufsize hs e
    → GoodStep bufsize hs (escape_read g e)
unfolding escape_read
escape_read-GoodStep bufsize hs (byte c) e v = elim (Bool-cases (c == b'[')) [
  | inl x ↦ rw (escape_read, x) v
  | inr x ↦ rw (escape_read, x) v
]
escape_read-GoodStep bufsize hs closed e v = v
escape_read-GoodStep bufsize hs again e v = v

arrow_read-GoodStep :
    (bufsize : ℕ) (hs : List Bytes) (g : Got) (e : Editor)
    → 0 < bufsize
    → Edits bufsize hs e
    → GoodStep bufsize hs (arrow_read bufsize hs g e)
unfolding arrow_read
arrow_read-GoodStep bufsize hs (byte c) e b v =
    let (e1, x, w) = arrow_key-Edits bufsize hs c e b v in rw (arrow_read, x) w
arrow_read-GoodStep bufsize hs closed e b v = v
arrow_read-GoodStep bufsize hs again e b v = v

edit_step-GoodStep :
    (bufsize : ℕ) (hs : List Bytes) (m : Mode) (r : Read) (e : Editor)
    → 0 < bufsize
    → Edits bufsize hs e
    → GoodStep bufsize hs (edit_step bufsize hs m r e)
unfolding edit_step
edit_step-GoodStep bufsize hs typing r e b v = elim (Bool-cases (after_read r e).got_sigint) [
  | inl x ↦ rw (edit_step, x) (record { line_fits = b; in_history = v.in_history })
  | inr x ↦
      rw (edit_step, x)
        (key_read-GoodStep bufsize hs r.got (record e { got_sigint = false })
          (record { line_fits = v.line_fits; in_history = v.in_history }))
]
edit_step-GoodStep bufsize hs escape r e b v =
    escape_read-GoodStep bufsize hs r.got (after_read r e) (after_read-Edits bufsize hs r e v)
edit_step-GoodStep bufsize hs arrow r e b v =
    arrow_read-GoodStep bufsize hs r.got (after_read r e) b (after_read-Edits bufsize hs r e v)

-- Whatever is read, the loop of `history_read_line` does not read behind the history lines, and the
-- line that it edits fits the buffer with a NUL.
pub edit_loop-Edits :
    (bufsize : ℕ) (hs : List Bytes) (m : Mode) (rs : List Read) (e : Editor)
    → 0 < bufsize
    → Edits bufsize hs e
    → (o : LoopEnd) × (e1 : Editor) × (edit_loop bufsize hs m rs e ≡ some (o, e1))
      × Edits bufsize hs e1
unfolding edit_loop
edit_loop-Edits bufsize hs m [] e b v = (waiting, e, refl, v)
edit_loop-Edits bufsize hs m (r ∷ rs) e b v =
    go (edit_step bufsize hs m r e) refl (edit_step-GoodStep bufsize hs m r e b v)
      (λ m1 e1 w. edit_loop-Edits bufsize hs m1 rs e1 b w)
  where
    go :
        (s : Step)
        → edit_step bufsize hs m r e ≡ s
        → GoodStep bufsize hs s
        → ((m1 : Mode) (e1 : Editor)
            → Edits bufsize hs e1
            → (o : LoopEnd) × (e2 : Editor) × (edit_loop bufsize hs m1 rs e1 ≡ some (o, e2))
              × Edits bufsize hs e2)
        → (o : LoopEnd) × (e1 : Editor) × (edit_loop bufsize hs m (r ∷ rs) e ≡ some (o, e1))
          × Edits bufsize hs e1
    go (goes m1 e1) x w ih = let (o, e2, y, z) = ih m1 e1 w in (o, e2, rw (edit_loop, x) y, z)
    go (ends o e1) x w ih = (o, e1, rw (edit_loop, x) refl, w)
    go misread x w ih = absurd w
