-- ===== src/Shell/Lexer/Progress.antt =====
-- The loops of the lexer consume the line: no call of `lex_line` runs out of fuel.
use ru_shell.Base.{
  Bool, Bool-cases, Option, Option-cases, [], arith, false, inl, inr, length, none, refl, some, suc,
  true, zero, ℕ, ◌<◌, ◌==◌, ◌||◌, ◌∷◌, ◌≡◌, ◌≢◌, ◌≤◌,
}
use ru_shell.Shell.Lexer.{
  Buf, Bytes, Heap, LexResult, TokenList, TokenType, angle, append_then, buf_init, buf_push, eof,
  is_space, is_special, lex_line, lex_loop, lex_word, no_fuel, operator, push_word, read_double,
  read_double_escape, read_escape, read_single, read_word, tokenlist_append, tokenlist_init, ◌>>=◌,
}

abbrev pub Read : Type 0
Read = Option (Bytes × Buf × Heap)

-- The line left is no longer than `n`.
pub data AtMost (n : ℕ) : Read → Type 0 where
  refused : AtMost n none
  left : (r : Bytes × Buf × Heap) → length r.0 ≤ n → AtMost n (some r)

AtMost-suc : {n : ℕ} {r : Read} → AtMost n r → AtMost (suc n) r
AtMost-suc refused = refused
AtMost-suc (left r a) = left r (omega arith)

AtMost-elim :
    {n : ℕ} (t : Bool) (r s : Read)
    → AtMost n r
    → AtMost n s
    → AtMost n (elim t [ true ↦ r | false ↦ s ])
AtMost-elim true r s p q = p
AtMost-elim false r s p q = q

AtMost->>= :
    {n : ℕ} (m : Option (Buf × Heap)) (f : Buf × Heap → Read)
    → ((x : Buf × Heap) → AtMost n (f x))
    → AtMost n (m >>= f)
AtMost->>= none f k = refused
AtMost->>= (some x) f k = k x

mutual
  unfolding read_word

  read_word-AtMost : (l : Bytes) (b : Buf) (h : Heap) → AtMost (length l) (read_word l b h)
  read_word-AtMost [] b h = left _ (omega arith)
  read_word-AtMost (c ∷ cs) b h =
      AtMost-elim (is_space c || is_special c) _ _ (left _ (omega arith)) (
        AtMost-elim (c == b'\\') _ _ (AtMost-suc (read_escape-AtMost cs b h)) (
          AtMost-elim (c == b'"') _ _ (AtMost-suc (read_double-AtMost cs b h)) (
            AtMost-elim (c == b'\'') _ _ (AtMost-suc (read_single-AtMost cs b h))
              (AtMost->>= (buf_push b c h) _ (λ x. AtMost-suc (read_word-AtMost cs x.0 x.1))))))

  read_escape-AtMost : (l : Bytes) (b : Buf) (h : Heap) → AtMost (length l) (read_escape l b h)
  read_escape-AtMost [] b h = refused
  read_escape-AtMost (c ∷ cs) b h =
      AtMost->>= (buf_push b c h) _ (λ x. AtMost-suc (read_word-AtMost cs x.0 x.1))

  read_double-AtMost : (l : Bytes) (b : Buf) (h : Heap) → AtMost (length l) (read_double l b h)
  read_double-AtMost [] b h = refused
  read_double-AtMost (c ∷ cs) b h =
      AtMost-elim (c == b'"') _ _ (AtMost-suc (read_word-AtMost cs b h)) (
        AtMost-elim (c == b'\\') _ _ (AtMost-suc (read_double_escape-AtMost cs b h))
          (AtMost->>= (buf_push b c h) _ (λ x. AtMost-suc (read_double-AtMost cs x.0 x.1))))

  read_double_escape-AtMost :
      (l : Bytes) (b : Buf) (h : Heap) → AtMost (length l) (read_double_escape l b h)
  read_double_escape-AtMost [] b h = refused
  read_double_escape-AtMost (c ∷ cs) b h =
      AtMost-elim (c == b'"' || c == b'\\') _ _
        (AtMost->>= (buf_push b c h) _ (λ x. AtMost-suc (read_double-AtMost cs x.0 x.1)))
        (AtMost->>= (buf_push b b'\\' h) _ (λ x.
          AtMost->>= (buf_push x.0 c x.1) _ (λ y. AtMost-suc (read_double-AtMost cs y.0 y.1))))

  read_single-AtMost : (l : Bytes) (b : Buf) (h : Heap) → AtMost (length l) (read_single l b h)
  read_single-AtMost [] b h = refused
  read_single-AtMost (c ∷ cs) b h =
      AtMost-elim (c == b'\'') _ _ (AtMost-suc (read_word-AtMost cs b h))
        (AtMost->>= (buf_push b c h) _ (λ x. AtMost-suc (read_single-AtMost cs x.0 x.1)))

-- The loop of a word that begins with `c` takes it.
pub read_word-progress :
    (c : ℕ) (cs : Bytes) (b : Buf) (h : Heap)
    → (is_space c || is_special c) ≡ false
    → AtMost (length cs) (read_word (c ∷ cs) b h)
unfolding read_word
read_word-progress c cs b h e =
    rw (e, read_word)
      (AtMost-elim (c == b'\\') _ _ (read_escape-AtMost cs b h) (
        AtMost-elim (c == b'"') _ _ (read_double-AtMost cs b h) (
          AtMost-elim (c == b'\'') _ _ (read_single-AtMost cs b h)
            (AtMost->>= (buf_push b c h) _ (λ x. read_word-AtMost cs x.0 x.1)))))

pub operator-length :
    (c : ℕ) (cs : Bytes) {t : TokenType} {rest : Bytes}
    → operator c cs ≡ some (t, rest)
    → length rest ≤ length cs
unfolding operator angle
operator-length c [] e = ground arith
operator-length c (d ∷ ds) e = ground arith

pub operator-none : (c : ℕ) (cs : Bytes) → operator c cs ≡ none → is_special c ≡ false
unfolding operator is_special
operator-none c cs e = ground arith

append_then-ne :
    (out : TokenList) (t : TokenType) (v : Option Bytes) (h : Heap)
    (next : TokenList → Heap → LexResult)
    → ((out' : TokenList) (h' : Heap) → next out' h' ≢ no_fuel)
    → append_then out t v h next ≢ no_fuel
append_then-ne out t v h next k = elim (Option-cases (tokenlist_append out t v h)) [
  | inl e ↦ rw (e, append_then) (λ x. cc)
  | inr (p, e) ↦ rw (e, append_then) (k p.0 p.1)
]

push_word-ne :
    {n : ℕ} {r : Read} (next : Bytes → TokenList → Heap → LexResult) (out : TokenList)
    → AtMost n r
    → ((rest : Bytes) (out' : TokenList) (h' : Heap)
        → length rest ≤ n
        → next rest out' h' ≢ no_fuel)
    → push_word next out r ≢ no_fuel
unfolding push_word
push_word-ne next out refused k = λ x. cc
push_word-ne next out (left (rest, b, h) a) k =
    append_then-ne out _ b.contents h (next rest) (λ out' h'. k rest out' h' a)

lex_word-ne :
    (next : Bytes → TokenList → Heap → LexResult) (c : ℕ) (cs : Bytes) (out : TokenList) (h : Heap)
    → (is_space c || is_special c) ≡ false
    → ((rest : Bytes) (out' : TokenList) (h' : Heap)
        → length rest ≤ length cs
        → next rest out' h' ≢ no_fuel)
    → lex_word next (c ∷ cs) out h ≢ no_fuel
unfolding lex_word push_word buf_init
lex_word-ne next c cs out [] e k = push_word-ne next out (read_word-progress c cs _ _ e) k
lex_word-ne next c cs out (true ∷ h) e k = push_word-ne next out (read_word-progress c cs _ _ e) k
lex_word-ne next c cs out (false ∷ h) e k = λ x. cc

lex_loop-ne :
    (f : ℕ) (l : Bytes) (out : TokenList) (h : Heap) → length l < f → lex_loop f l out h ≢ no_fuel
unfolding lex_loop
lex_loop-ne zero l out h bound = absurd (omega arith)
lex_loop-ne (suc f) [] out h bound = append_then-ne out eof none h _ (λ out' h' x. cc)
lex_loop-ne (suc f) (c ∷ cs) out h bound = elim (Bool-cases (is_space c)) [
  | inl s ↦ rw (s, lex_loop) (lex_loop-ne f cs out h (omega arith))
  | inr s ↦ elim (Option-cases (operator c cs)) [
    | inl e ↦
        rw (s, e, lex_loop)
          (lex_word-ne (lex_loop f) c cs out h (rw (s, operator-none c cs e) refl)
            (λ rest out' h' a. lex_loop-ne f rest out' h' (omega arith)))
    | inr ((t, rest), e) ↦
        rw (s, e, lex_loop)
          (append_then-ne out t none h _
            (λ out' h'. lex_loop-ne f rest out' h' (omega (arith, operator-length c cs e))))
  ]
]

-- `lex_line` ends on every line, whatever the heap answers: the fuel of the model, one more than
-- the bytes of the line, never runs out.
pub lex_line_terminates : (l : Bytes) (h : Heap) → lex_line l h ≢ no_fuel
unfolding lex_line
lex_line_terminates l h = lex_loop-ne (suc (length l)) l tokenlist_init h (omega arith)
