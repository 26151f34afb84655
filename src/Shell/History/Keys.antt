-- ===== src/Shell/History/Keys.antt =====
-- The arrow keys of c-shell/src/history.c stay in the history.
use ru_shell.Base.{
  Bool-cases, List, Option, [], arith, false, get_elem?, if◌then◌else◌, inl, inr, length, ltb,
  ltb→lt, refl, some, suc, take_bound, zero, ℕ, ◌+◌, ◌-◌, ◌<◌, ◌==◌, ◌∷◌, ◌≡◌, ◌≤◌,
}
use ru_shell.Shell.Lexer.{Bytes}
use ru_shell.Shell.Jobs.{strncpy}
use ru_shell.Shell.History.{Editor, arrow_down, arrow_key, arrow_up, last_off, recall}

-- The line fits its buffer with a NUL, and the position is one of the history or behind it.
pub record Edits (bufsize : ℕ) (hs : List Bytes) (e : Editor) : Type 0 where
  pub line_fits : length e.buf < bufsize
  pub in_history : e.hist_pos ≤ length hs

strncpy_bound : (bufsize : ℕ) (s : Bytes) → 0 < bufsize → length (strncpy bufsize s) < bufsize
strncpy_bound bufsize s h = let l = take_bound (bufsize - 1) s in omega arith

pub last_off_bound : (s : Bytes) → length (last_off s) ≤ length s
last_off_bound [] = omega arith
last_off_bound (c ∷ []) = omega arith
last_off_bound (c ∷ d ∷ cs) = let l = last_off_bound (d ∷ cs) in omega arith

-- A read inside the history.
has_line : (hs : List Bytes) (i : ℕ) → i < length hs → (h : Bytes) × (get_elem? hs i ≡ some h)
has_line [] i l = absurd (omega arith)
has_line (h ∷ hs) zero l = (h, refl)
has_line (h ∷ hs) (suc i) l = has_line hs i (omega arith)

-- An editor that is there, and fits.
abbrev pub Good : ℕ → List Bytes → Option Editor → Type 0
Good bufsize hs o = (e : Editor) × (o ≡ some e) × Edits bufsize hs e

recall-Edits :
    (bufsize : ℕ) (hs : List Bytes) (pos : ℕ) (e : Editor)
    → 0 < bufsize
    → pos < length hs
    → Good bufsize hs (recall bufsize hs pos e)
unfolding recall
recall-Edits bufsize hs pos e b l =
    let (h, g) = has_line hs pos l in
    (
      record e { hist_pos = pos; buf = strncpy bufsize h },
      rw (recall, g) refl,
      record { line_fits = strncpy_bound bufsize h b; in_history = omega arith },
    )

arrow_up-Edits :
    (bufsize : ℕ) (hs : List Bytes) (e : Editor)
    → 0 < bufsize
    → Edits bufsize hs e
    → Good bufsize hs (arrow_up bufsize hs e)
unfolding arrow_up
arrow_up-Edits bufsize hs e b v = elim (Bool-cases (length hs == 0)) [
  | inl x ↦ (e, rw (arrow_up, x) refl, v)
  | inr x ↦ elim (Bool-cases (ltb 0 (stashed e).hist_pos)) [
    | inl y ↦
        let (e1, r, w) =
          recall-Edits bufsize hs ((stashed e).hist_pos - 1) (stashed e) b (back (ltb→lt 0 _ y)) in
        (e1, rw (arrow_up, x, y) r, w)
    | inr y ↦ (stashed e, rw (arrow_up, x, y) refl, same)
  ]
]
  where
    stashed : Editor → Editor
    stashed e =
        if e.hist_pos == length hs then record e { saved_current = strncpy 4096 e.buf } else e

    same : Edits bufsize hs (stashed e)
    same = elim (Bool-cases (e.hist_pos == length hs)) [
      | inl z ↦ rw z (record { line_fits = v.line_fits; in_history = v.in_history })
      | inr z ↦ rw z v
    ]

    back : 0 < (stashed e).hist_pos → (stashed e).hist_pos - 1 < length hs
    back l = let h = same.in_history in omega arith

arrow_down-Edits :
    (bufsize : ℕ) (hs : List Bytes) (e : Editor)
    → 0 < bufsize
    → Edits bufsize hs e
    → Good bufsize hs (arrow_down bufsize hs e)
unfolding arrow_down
arrow_down-Edits bufsize hs e b v = elim (Bool-cases (ltb e.hist_pos (length hs))) [
  | inl x ↦
      let l = ltb→lt e.hist_pos (length hs) x in
      elim (Bool-cases (e.hist_pos + 1 == length hs)) [
        | inl y ↦ (
          record e { hist_pos = e.hist_pos + 1; buf = strncpy bufsize e.saved_current },
          rw (arrow_down, x, y) refl,
          record { line_fits = strncpy_bound bufsize e.saved_current b; in_history = omega arith },
        )
        | inr y ↦
            let (e1, r, w) = recall-Edits bufsize hs (e.hist_pos + 1) e b (inside l y) in
            (e1, rw (arrow_down, x, y) r, w)
      ]
  | inr x ↦ (e, rw (arrow_down, x) refl, v)
]
  where
    inside :
        e.hist_pos < length hs → (e.hist_pos + 1 == length hs) ≡ false → e.hist_pos + 1 < length hs
    inside l y = apart (e.hist_pos) (length hs) l y
      where
        apart : (a b : ℕ) → a < b → (a + 1 == b) ≡ false → a + 1 < b
        apart a b l y = ground arith

pub arrow_key-Edits :
    (bufsize : ℕ) (hs : List Bytes) (c : ℕ) (e : Editor)
    → 0 < bufsize
    → Edits bufsize hs e
    → Good bufsize hs (arrow_key bufsize hs c e)
unfolding arrow_key
arrow_key-Edits bufsize hs c e b v = elim (Bool-cases (c == b'A')) [
  | inl x ↦ rw (arrow_key, x) (arrow_up-Edits bufsize hs e b v)
  | inr x ↦ elim (Bool-cases (c == b'B')) [
    | inl y ↦ rw (arrow_key, x, y) (arrow_down-Edits bufsize hs e b v)
    | inr y ↦ rw (arrow_key, x, y) (e, refl, v)
  ]
]
