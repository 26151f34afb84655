-- ===== src/Shell/Lexer/Quotes.antt =====
-- When a line is refused: exactly when a quote is left open or a backslash ends the line.
use ru_shell.Base.{
  Bool, Bool-cases, Option, Option-cases, [], arith, false, if◌then◌else◌, inl, inr, length, none,
  refl, some, subst, suc, sym, true, zero, ℕ, ◌++◌, ◌<◌, ◌==◌, ◌||◌, ◌↔◌, ◌∷◌, ◌≡◌, ◌≤◌,
}
use ru_shell.Shell.Lexer.{
  Buf, Bytes, Heap, LexResult, TokenList, TokenType, angle, buf_init, buf_push, is_space,
  is_special, lex_line, lex_loop, lex_word, lexed, operator, push_word, read_double,
  read_double_escape, read_escape, read_single, read_word, syntax_error, tokenlist_append,
  tokenlist_init, ◌>>=◌,
}
use ru_shell.Shell.Lexer.Progress.{AtMost, Read, operator-length, operator-none, read_word-progress}
use ru_shell.Shell.Lexer.Buffer.{Holds, buf_init-Holds, buf_push_succeeds, pushed, pushed-Holds}

-- Where a reader of the line stands: outside quotes, behind a backslash there, between double
-- quotes, behind a backslash there, between single quotes.
pub data Place : Type 0 where
  plain escaped double double_escaped single : Place

-- The place behind one more byte.
unfoldable pub move : Place → ℕ → Place
move plain c =
    if c == b'\\'
    then escaped
    else if c == b'"'
    then double
    else if c == b'\''
    then single
    else plain
move escaped c = plain
move double c = if c == b'"' then plain else if c == b'\\' then double_escaped else double
move double_escaped c = double
move single c = if c == b'\'' then plain else single

unfoldable pub is_plain : Place → Bool
is_plain plain = true
is_plain _ = false

-- The line ends outside quotes and not behind a backslash.
unfoldable pub is_closed : Place → Bytes → Bool
unfolding move is_plain
is_closed p [] = is_plain p
is_closed p (c ∷ cs) = is_closed (move p c) cs

-- A word with a heap that answers: refused if the line is not closed, else it ends in a place
-- outside quotes, with its bytes in the buffer.
pub data Agrees (closed : Bool) : Option (Bytes × Buf × Heap) → Type 0 where
  refused : closed ≡ false → Agrees closed none
  left :
      (rest d : Bytes) (b : Buf)
      → closed ≡ is_closed plain rest
      → Holds b d
      → Agrees closed (some (rest, b, []))

Agrees-elim :
    (t k : Bool) (r s : Option (Bytes × Buf × Heap))
    → (t ≡ true → Agrees k r)
    → (t ≡ false → Agrees k s)
    → Agrees k (elim t [ true ↦ r | false ↦ s ])
Agrees-elim true k r s p q = p refl
Agrees-elim false k r s p q = q refl

Agrees-push :
    (b : Buf) (d : Bytes) (c : ℕ) (k : Bool) (f : Buf × Heap → Option (Bytes × Buf × Heap))
    → Holds b d
    → (Holds (pushed b d c) (d ++ c ∷ []) → Agrees k (f (pushed b d c, [])))
    → Agrees k (buf_push b c [] >>= f)
Agrees-push b d c k f v g = rw (buf_push_succeeds b d c v) (g (pushed-Holds b d c v))

-- The same rest, read from a place that the byte before it leads to.
Agrees-at :
    {p q : Place} (cs : Bytes) {r : Option (Bytes × Buf × Heap)}
    → p ≡ q
    → Agrees (is_closed q cs) r
    → Agrees (is_closed p cs) r
Agrees-at cs {r} e a = subst (λ x. Agrees (is_closed x cs) r) (sym e) a

mutual
  unfolding read_word is_closed is_special is_space

  read_word-Agrees :
      (l d : Bytes) (b : Buf) → Holds b d → Agrees (is_closed plain l) (read_word l b [])
  read_word-Agrees [] d b v = left [] d b refl v
  read_word-Agrees (c ∷ cs) d b v =
      Agrees-elim (is_space c || is_special c) _ _ _ (λ _. left (c ∷ cs) d b refl v)
        λ _.
          Agrees-elim (c == b'\\') _ _ _
            (λ t. Agrees-at cs (ground arith) (read_escape-Agrees cs d b v))
            λ e.
              Agrees-elim (c == b'"') _ _ _
                (λ t. Agrees-at cs (ground arith) (read_double-Agrees cs d b v))
                λ q.
                  Agrees-elim (c == b'\'') _ _ _
                    (λ t. Agrees-at cs (ground arith) (read_single-Agrees cs d b v))
                    λ x.
                      Agrees-at cs (ground arith)
                        (Agrees-push b d c _ _ v (read_word-Agrees cs _ _))

  read_escape-Agrees :
      (l d : Bytes) (b : Buf) → Holds b d → Agrees (is_closed escaped l) (read_escape l b [])
  read_escape-Agrees [] d b v = refused refl
  read_escape-Agrees (c ∷ cs) d b v = Agrees-push b d c _ _ v (read_word-Agrees cs _ _)

  read_double-Agrees :
      (l d : Bytes) (b : Buf) → Holds b d → Agrees (is_closed double l) (read_double l b [])
  read_double-Agrees [] d b v = refused refl
  read_double-Agrees (c ∷ cs) d b v =
      Agrees-elim (c == b'"') _ _ _ (λ t. Agrees-at cs (ground arith) (read_word-Agrees cs d b v))
        λ q.
          Agrees-elim (c == b'\\') _ _ _
            (λ t. Agrees-at cs (ground arith) (read_double_escape-Agrees cs d b v))
            λ e. Agrees-at cs (ground arith) (Agrees-push b d c _ _ v (read_double-Agrees cs _ _))

  read_double_escape-Agrees :
      (l d : Bytes) (b : Buf)
      → Holds b d
      → Agrees (is_closed double_escaped l) (read_double_escape l b [])
  read_double_escape-Agrees [] d b v = refused refl
  read_double_escape-Agrees (c ∷ cs) d b v =
      Agrees-elim (c == b'"' || c == b'\\') _ _ _
        (λ _. Agrees-push b d c _ _ v (read_double-Agrees cs _ _))
        (λ _.
          Agrees-push b d b'\\' _ _ v λ v'. Agrees-push _ _ c _ _ v' (read_double-Agrees cs _ _))

  read_single-Agrees :
      (l d : Bytes) (b : Buf) → Holds b d → Agrees (is_closed single l) (read_single l b [])
  read_single-Agrees [] d b v = refused refl
  read_single-Agrees (c ∷ cs) d b v =
      Agrees-elim (c == b'\'') _ _ _ (λ t. Agrees-at cs (ground arith) (read_word-Agrees cs d b v))
        λ x. Agrees-at cs (ground arith) (Agrees-push b d c _ _ v (read_single-Agrees cs _ _))

-- A result of the lexer on a line that is closed, or not.
pub data Verdict (closed : Bool) : LexResult → Type 0 where
  bad : closed ≡ false → Verdict closed syntax_error
  good : (out : TokenList) → closed ≡ true → Verdict closed (lexed out)

push_word-Verdict :
    {n : ℕ} {k : Bool} {r : Read} (next : Bytes → TokenList → Heap → LexResult) (out : TokenList)
    → AtMost n r
    → Agrees k r
    → ((rest : Bytes) (out' : TokenList)
        → length rest ≤ n
        → Verdict (is_closed plain rest) (next rest out' []))
    → Verdict k (push_word next out r)
unfolding push_word tokenlist_append
push_word-Verdict next out a (refused e) k = bad e
push_word-Verdict next out (AtMost.left _ a) (Agrees.left rest d b e v) k = rw e (k rest _ a)

lex_word-Verdict :
    (next : Bytes → TokenList → Heap → LexResult) (c : ℕ) (cs : Bytes) (out : TokenList)
    → (is_space c || is_special c) ≡ false
    → ((rest : Bytes) (out' : TokenList)
        → length rest ≤ length cs
        → Verdict (is_closed plain rest) (next rest out' []))
    → Verdict (is_closed plain (c ∷ cs)) (lex_word next (c ∷ cs) out [])
unfolding lex_word buf_init
lex_word-Verdict next c cs out e k =
    push_word-Verdict next out (read_word-progress c cs _ [] e)
      (read_word-Agrees (c ∷ cs) [] _ (unfold buf_init in buf_init-Holds)) k

-- The bytes of an operator, and white space, leave a reader outside quotes.
operator-closed :
    (c : ℕ) (cs : Bytes) {t : TokenType} {rest : Bytes}
    → operator c cs ≡ some (t, rest)
    → is_closed plain (c ∷ cs) ≡ is_closed plain rest
unfolding operator angle is_closed
operator-closed c [] e = ground arith
operator-closed c (d ∷ ds) e = ground arith

space-closed :
    (c : ℕ) (cs : Bytes) → is_space c ≡ true → is_closed plain (c ∷ cs) ≡ is_closed plain cs
unfolding is_space is_closed
space-closed c cs e = ground arith

lex_loop-Verdict :
    (f : ℕ) (l : Bytes) (out : TokenList)
    → length l < f
    → Verdict (is_closed plain l) (lex_loop f l out [])
unfolding lex_loop tokenlist_append
lex_loop-Verdict zero l out bound = absurd (omega arith)
lex_loop-Verdict (suc f) [] out bound = good _ (unfold is_closed in refl)
lex_loop-Verdict (suc f) (c ∷ cs) out bound = elim (Bool-cases (is_space c)) [
  | inl s ↦ rw (s, lex_loop, space-closed c cs s) (lex_loop-Verdict f cs out (omega arith))
  | inr s ↦ elim (Option-cases (operator c cs)) [
    | inl e ↦
        rw (s, e, lex_loop)
          (lex_word-Verdict (lex_loop f) c cs out (rw (s, operator-none c cs e) refl)
            (λ rest out' a. lex_loop-Verdict f rest out' (omega arith)))
    | inr ((t, rest), e) ↦
        rw (s, e, lex_loop, operator-closed c cs e)
          (lex_loop-Verdict f rest _ (omega (arith, operator-length c cs e)))
  ]
]

lex_line-Verdict : (l : Bytes) → Verdict (is_closed plain l) (lex_line l [])
unfolding lex_line
lex_line-Verdict l = lex_loop-Verdict (suc (length l)) l tokenlist_init (omega arith)

Verdict-syntax_error : {k : Bool} {r : LexResult} → Verdict k r → (r ≡ syntax_error) ↔ (k ≡ false)
Verdict-syntax_error (bad e) = (λ _. e, λ _. refl)
Verdict-syntax_error (good out e) = (λ x. cc, λ x. cc)

-- With a heap that answers, `lex_line` refuses a line exactly when the line ends inside quotes or
-- behind a backslash that is outside quotes or between double quotes.
pub lex_line_refuses : (l : Bytes) → (lex_line l [] ≡ syntax_error) ↔ (is_closed plain l ≡ false)
lex_line_refuses l = Verdict-syntax_error (lex_line-Verdict l)
