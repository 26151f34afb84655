-- ===== src/Shell/Lexer/Shape.antt =====
-- What a lexed line looks like: words with their text, operators without, and one TOK_EOF behind.
use ru_shell.Base.{
  Bool, Bool-cases, List, Option, Option-cases, [], arith, false, inl, inr, length, length-append,
  none, refl, some, subst, suc, sym, true, zero, ℕ, ◌++◌, ◌+◌, ◌==◌, ◌||◌, ◌∷◌, ◌≡◌,
}
use ru_shell.Shell.Lexer.{
  Buf, Bytes, Heap, LexResult, Token, TokenList, TokenType, angle, append_then, buf_init, buf_push,
  eof, is_space, is_special, lex_line, lex_loop, lex_word, lexed, operator, push_word, read_double,
  read_double_escape, read_escape, read_single, read_word, tokenlist_append, tokenlist_init, word,
  ◌>>=◌,
}
use ru_shell.Shell.Lexer.Progress.{Read}

abbrev pub word_token : Bytes → Token
word_token w = record { type = word; value = some w }

abbrev pub plain_token : TokenType → Token
plain_token t = record { type = t; value = none }

abbrev pub is_operator : TokenType → Bool
is_operator word = false
is_operator eof = false
is_operator _ = true

-- A token other than TOK_EOF: a word has a text, and an operator has none.
pub data IsToken : Token → Type 0 where
  is_word : (w : Bytes) → IsToken (word_token w)
  is_op : (t : TokenType) → is_operator t ≡ true → IsToken (plain_token t)

pub data AreTokens : List Token → Type 0 where
  nil : AreTokens []
  cons : {t : Token} {ts : List Token} → IsToken t → AreTokens ts → AreTokens (t ∷ ts)

AreTokens-append : {ts us : List Token} → AreTokens ts → AreTokens us → AreTokens (ts ++ us)
AreTokens-append nil b = b
AreTokens-append (cons x a) b = cons x (AreTokens-append a b)

-- The list while it grows: well-formed tokens, and `count` counts them.
record IsOpen (l : TokenList) : Type 0 where
  tokens : AreTokens l.items
  counted : l.count ≡ length l.items

-- The list that is handed on.
pub record IsLexed (l : TokenList) : Type 0 where
  pub body : List Token
  pub tokens : AreTokens body
  pub items_are : l.items ≡ body ++ plain_token eof ∷ []
  pub counted : l.count ≡ length l.items

-- What the result is, if it is a list.
abbrev Shaped : LexResult → Type 0
Shaped (lexed l) = IsLexed l
Shaped _ = Unit

append_then-Shaped :
    (out : TokenList) (t : TokenType) (v : Option Bytes) (h : Heap)
    (next : TokenList → Heap → LexResult)
    → ((h' : Heap)
        → Shaped (
            next
              (record {
                items = out.items ++ record { type = t; value = v } ∷ [];
                count = out.count + 1;
              })
              h'))
    → Shaped (append_then out t v h next)
unfolding tokenlist_append
append_then-Shaped out t v [] next k = k []
append_then-Shaped out t v (true ∷ h) next k = k h
append_then-Shaped out t v (false ∷ h) next k = tt

IsOpen-append :
    (out : TokenList) (t : Token)
    → IsOpen out
    → IsToken t
    → IsOpen (record { items = out.items ++ t ∷ []; count = out.count + 1 })
IsOpen-append out t o x = record {
  tokens = AreTokens-append o.tokens (cons x nil);
  counted = omega (arith, o.counted, length-append out.items (t ∷ []));
}

-- The buffer that `read_word` returns is not NULL.
data Filled : Read → Type 0 where
  refused : Filled none
  filled : (l d : Bytes) (b : Buf) (h : Heap) → b.contents ≡ some d → Filled (some (l, b, h))

Filled-elim :
    (t : Bool) (r s : Read) → Filled r → Filled s → Filled (elim t [ true ↦ r | false ↦ s ])
Filled-elim true r s p q = p
Filled-elim false r s p q = q

buf_push_contents :
    (b b' : Buf) (c : ℕ) (h h' : Heap)
    → buf_push b c h ≡ some (b', h')
    → (d : Bytes) × (b'.contents ≡ some d)
unfolding buf_push
buf_push_contents b b' c h h' e = elim (Option-cases b.contents) [
  | inl x ↦ absurd (ground arith)
  | inr (d, x) ↦ (d ++ c ∷ [], ground arith)
]

-- A push needs a buffer, and keeps it.
Filled->>= :
    (b : Buf) (c : ℕ) (h : Heap) (f : Buf × Heap → Read)
    → ((d : Bytes) (b' : Buf) (h' : Heap) → b'.contents ≡ some d → Filled (f (b', h')))
    → Filled (buf_push b c h >>= f)
Filled->>= b c h f k = go (buf_push b c h) refl
  where
    go : (m : Option (Buf × Heap)) → buf_push b c h ≡ m → Filled (m >>= f)
    go none e = refused
    go (some (b', h')) e = let x = buf_push_contents b b' c h h' e in k x.0 b' h' x.1

mutual
  unfolding read_word

  read_word-Filled :
      (l : Bytes) (d : Bytes) (b : Buf) (h : Heap) → b.contents ≡ some d → Filled (read_word l b h)
  read_word-Filled [] d b h e = filled [] d b h e
  read_word-Filled (c ∷ cs) d b h e =
      Filled-elim (is_space c || is_special c) _ _ (filled (c ∷ cs) d b h e) (
        Filled-elim (c == b'\\') _ _ (read_escape-Filled cs d b h e) (
          Filled-elim (c == b'"') _ _ (read_double-Filled cs d b h e) (
            Filled-elim (c == b'\'') _ _ (read_single-Filled cs d b h e)
              (Filled->>= b c h _ (read_word-Filled cs)))))

  read_escape-Filled :
      (l : Bytes) (d : Bytes) (b : Buf) (h : Heap)
      → b.contents ≡ some d
      → Filled (read_escape l b h)
  read_escape-Filled [] d b h e = refused
  read_escape-Filled (c ∷ cs) d b h e = Filled->>= b c h _ (read_word-Filled cs)

  read_double-Filled :
      (l : Bytes) (d : Bytes) (b : Buf) (h : Heap)
      → b.contents ≡ some d
      → Filled (read_double l b h)
  read_double-Filled [] d b h e = refused
  read_double-Filled (c ∷ cs) d b h e = Filled-elim (c == b'"') _ _ (read_word-Filled cs d b h e) (
      Filled-elim (c == b'\\') _ _ (read_double_escape-Filled cs d b h e)
        (Filled->>= b c h _ (read_double-Filled cs)))

  read_double_escape-Filled :
      (l : Bytes) (d : Bytes) (b : Buf) (h : Heap)
      → b.contents ≡ some d
      → Filled (read_double_escape l b h)
  read_double_escape-Filled [] d b h e = refused
  read_double_escape-Filled (c ∷ cs) d b h e =
      Filled-elim (c == b'"' || c == b'\\') _ _ (Filled->>= b c h _ (read_double-Filled cs))
        (Filled->>= b b'\\' h _ (λ _ b' h' _. Filled->>= b' c h' _ (read_double-Filled cs)))

  read_single-Filled :
      (l : Bytes) (d : Bytes) (b : Buf) (h : Heap)
      → b.contents ≡ some d
      → Filled (read_single l b h)
  read_single-Filled [] d b h e = refused
  read_single-Filled (c ∷ cs) d b h e =
      Filled-elim (c == b'\'') _ _ (read_word-Filled cs d b h e)
        (Filled->>= b c h _ (read_single-Filled cs))

push_word-Shaped :
    {r : Read} (next : Bytes → TokenList → Heap → LexResult) (out : TokenList)
    → IsOpen out
    → Filled r
    → ((rest : Bytes) (out' : TokenList) (h' : Heap) → IsOpen out' → Shaped (next rest out' h'))
    → Shaped (push_word next out r)
unfolding push_word
push_word-Shaped next out o refused k = tt
push_word-Shaped next out o (filled rest d b h e) k =
    append_then-Shaped out word b.contents h (next rest) (λ h'. k rest _ h' (
      IsOpen-append out _ o
        (subst (λ v. IsToken (record { type = word; value = v })) (sym e) (is_word d))))

lex_word-Shaped :
    (next : Bytes → TokenList → Heap → LexResult) (l : Bytes) (out : TokenList) (h : Heap)
    → IsOpen out
    → ((rest : Bytes) (out' : TokenList) (h' : Heap) → IsOpen out' → Shaped (next rest out' h'))
    → Shaped (lex_word next l out h)
unfolding lex_word buf_init
lex_word-Shaped next l out [] o k = push_word-Shaped next out o (read_word-Filled l [] _ [] refl) k
lex_word-Shaped next l out (true ∷ h) o k =
    push_word-Shaped next out o (read_word-Filled l [] _ h refl) k
lex_word-Shaped next l out (false ∷ h) o k = tt

operator-is_operator :
    (c : ℕ) (cs : Bytes) {t : TokenType} {rest : Bytes}
    → operator c cs ≡ some (t, rest)
    → is_operator t ≡ true
unfolding operator angle
operator-is_operator c [] e = ground arith
operator-is_operator c (d ∷ ds) e = ground arith

lex_loop-Shaped :
    (f : ℕ) (l : Bytes) (out : TokenList) (h : Heap) → IsOpen out → Shaped (lex_loop f l out h)
unfolding lex_loop
lex_loop-Shaped zero l out h o = tt
lex_loop-Shaped (suc f) [] out h o = append_then-Shaped out eof none h _ λ h'. record {
  body = out.items;
  tokens = o.tokens;
  items_are = refl;
  counted = omega (arith, o.counted, length-append out.items (plain_token eof ∷ []));
}
lex_loop-Shaped (suc f) (c ∷ cs) out h o = elim (Bool-cases (is_space c)) [
  | inl s ↦ rw (s, lex_loop) (lex_loop-Shaped f cs out h o)
  | inr s ↦ elim (Option-cases (operator c cs)) [
    | inl e ↦ rw (s, e, lex_loop) (lex_word-Shaped _ (c ∷ cs) out h o (lex_loop-Shaped f))
    | inr ((t, rest), e) ↦
        rw (s, e, lex_loop)
          (append_then-Shaped out t none h _ λ h'.
            lex_loop-Shaped f rest _ h'
              (IsOpen-append out _ o (is_op t (operator-is_operator c cs e))))
  ]
]

-- Whatever the heap answers, a list that `lex_line` hands on holds words, each with a text that is
-- not NULL, and operators, each with a NULL, then one TOK_EOF; and `count` is its length.
pub lex_line-IsLexed :
    (l : Bytes) (h : Heap) {out : TokenList} → lex_line l h ≡ lexed out → IsLexed out
unfolding lex_line
lex_line-IsLexed l h e =
    subst Shaped e (
      lex_loop-Shaped (suc (length l)) l tokenlist_init h (record { tokens = nil; counted = refl }))
