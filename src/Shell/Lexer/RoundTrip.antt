-- ===== src/Shell/Lexer/RoundTrip.antt =====
-- A line printed from tokens, each word between double quotes, is lexed back to them.
use mathlib.Core.List.{append_assoc, append-nil}
use ru_shell.Base.{
  List, [], ap, arith, if◌then◌else◌, length, none, refl, some, suc, true, zero, ℕ, ◌++◌, ◌+◌, ◌<◌,
  ◌==◌, ◌||◌, ◌∙◌, ◌∷◌, ◌≡◌,
}
use ru_shell.Shell.Lexer.{
  Buf, Bytes, Token, TokenList, TokenType, amp, angle, buf_init, eof, gt, gtgt, is_space,
  is_special, lex_line, lex_loop, lex_word, lexed, lt, operator, pipe, push_word, read_double,
  read_word, semi, tokenlist_append, tokenlist_init, word,
}
use ru_shell.Shell.Lexer.Shape.{
  AreTokens, cons, is_op, is_operator, is_word, nil, plain_token, word_token,
}
use ru_shell.Shell.Lexer.Buffer.{Holds, buf_init-Holds, buf_push_succeeds, pushed, pushed-Holds}

-- A word between double quotes, with a backslash in front of `"` and `\`; then `rest`.
pub quoted : Bytes → Bytes → Bytes
quoted [] rest = b'"' ∷ rest
quoted (c ∷ cs) rest =
    if c == b'"' || c == b'\\' then b'\\' ∷ c ∷ quoted cs rest else c ∷ quoted cs rest

pub symbol : TokenType → Bytes → Bytes
symbol pipe rest = b'|' ∷ rest
symbol amp rest = b'&' ∷ rest
symbol semi rest = b';' ∷ rest
symbol lt rest = b'<' ∷ rest
symbol gt rest = b'>' ∷ rest
symbol gtgt rest = b'>' ∷ b'>' ∷ rest
symbol word rest = rest
symbol eof rest = rest

-- One token and a space.
pub show_token : Token → Bytes → Bytes
unfolding quoted symbol
show_token t rest = elim t.value [
  | none ↦ symbol t.type (b' ' ∷ rest)
  | some w ↦ b'"' ∷ quoted w (b' ' ∷ rest)
]

unfoldable pub show : List Token → Bytes
unfolding show_token
show [] = []
show (t ∷ ts) = show_token t (show ts)

-- The loop between double quotes reads a quoted word, and goes on behind it.
read_double-quoted :
    (w d rest : Bytes) (b : Buf)
    → Holds b d
    → (b' : Buf) × (read_double (quoted w rest) b [] ≡ read_word rest b' []) × Holds b' (d ++ w)
unfolding quoted read_word
read_double-quoted [] d rest b v = (b, refl, rw append-nil v)
read_double-quoted (c ∷ w) d rest b v =
    let (b', e, v') =
      read_double-quoted w (d ++ c ∷ []) rest (pushed b d c) (pushed-Holds b d c v) in
    (b', ground (arith, e, buf_push_succeeds b d c v), rw append_assoc at v')

-- The list with one more token.
abbrev with_token : TokenList → Token → TokenList
with_token out t = record { items = out.items ++ t ∷ []; count = out.count + 1 }

lex_loop-space :
    (f : ℕ) (rest : Bytes) (out : TokenList)
    → lex_loop (suc f) (b' ' ∷ rest) out [] ≡ lex_loop f rest out []
unfolding lex_loop is_space
lex_loop-space f rest out = refl

lex_loop-word :
    (f : ℕ) (w rest : Bytes) (out : TokenList)
    → lex_loop (suc (suc f)) (b'"' ∷ quoted w (b' ' ∷ rest)) out []
      ≡ lex_loop f rest (with_token out (word_token w)) []
unfolding lex_loop is_space is_special operator lex_word buf_init read_word tokenlist_append
lex_loop-word f w rest out =
    let (b', e, v) = read_double-quoted w [] (b' ' ∷ rest) _ (unfold buf_init in buf_init-Holds) in
    rw (e, v.contents_are, push_word)

lex_loop-symbol :
    (f : ℕ) (t : TokenType) (rest : Bytes) (out : TokenList)
    → is_operator t ≡ true
    → lex_loop (suc (suc f)) (symbol t (b' ' ∷ rest)) out []
      ≡ lex_loop f rest (with_token out (plain_token t)) []
unfolding lex_loop is_space is_special operator angle symbol tokenlist_append
lex_loop-symbol f word rest out e = cc
lex_loop-symbol f eof rest out e = cc
lex_loop-symbol f pipe rest out e = refl
lex_loop-symbol f amp rest out e = refl
lex_loop-symbol f semi rest out e = refl
lex_loop-symbol f lt rest out e = refl
lex_loop-symbol f gt rest out e = refl
lex_loop-symbol f gtgt rest out e = refl

-- The list with the tokens `ts` and TOK_EOF behind it.
abbrev closed_with : TokenList → List Token → TokenList
closed_with out ts = record {
  items = out.items ++ (ts ++ plain_token eof ∷ []);
  count = out.count + length ts + 1;
}

closed_with-cons :
    (out : TokenList) (t : Token) (ts : List Token)
    → closed_with (with_token out t) ts ≡ closed_with out (t ∷ ts)
closed_with-cons out t ts =
    ground (arith, append_assoc out.items (t ∷ []) (ts ++ plain_token eof ∷ []))

length-quoted : (w rest : Bytes) → length rest < length (quoted w rest)
unfolding quoted
length-quoted [] rest = omega arith
length-quoted (c ∷ w) rest = ground (arith, length-quoted w rest)

length-symbol :
    (t : TokenType) (rest : Bytes) → is_operator t ≡ true → length rest < length (symbol t rest)
unfolding symbol
length-symbol word rest e = cc
length-symbol eof rest e = cc
length-symbol _ rest e = omega arith

lex_loop-end : (f : ℕ) (out : TokenList) → lex_loop (suc f) [] out [] ≡ lexed (closed_with out [])
unfolding lex_loop tokenlist_append
lex_loop-end f out = ground arith

lex_loop-show :
    (f : ℕ) {ts : List Token} (out : TokenList)
    → AreTokens ts
    → length (show ts) < f
    → lex_loop f (show ts) out [] ≡ lexed (closed_with out ts)
unfolding show
lex_loop-show zero out a bound = absurd (omega arith)
lex_loop-show (suc f) out nil bound = lex_loop-end f out
lex_loop-show (suc zero) out (cons (is_word w) a) bound = absurd (omega arith)
lex_loop-show (suc zero) out (cons {ts} (is_op t e) a) bound =
    absurd (omega (arith, length-symbol t (b' ' ∷ show ts) e))
lex_loop-show (suc (suc f)) out (cons {ts} (is_word w) a) bound =
    lex_loop-word f w (show ts) out
    ∙ lex_loop-show f _ a (omega (arith, length-quoted w (b' ' ∷ show ts)))
    ∙ ap lexed (closed_with-cons out (word_token w) ts)
lex_loop-show (suc (suc f)) out (cons {ts} (is_op t e) a) bound =
    lex_loop-symbol f t (show ts) out e
    ∙ lex_loop-show f _ a (omega (arith, length-symbol t (b' ' ∷ show ts) e))
    ∙ ap lexed (closed_with-cons out (plain_token t) ts)

-- A line printed from any words and operators, each word between double quotes with `"` and `\`
-- escaped, and a space behind each token, is lexed back to just those tokens and a TOK_EOF, if the
-- heap answers.
pub lex_line-show :
    {ts : List Token}
    → AreTokens ts
    → lex_line (show ts) []
      ≡ lexed (record { items = ts ++ plain_token eof ∷ []; count = length ts + 1 })
unfolding lex_line
lex_line-show {ts} a =
    lex_loop-show (suc (length (show ts))) tokenlist_init a (omega arith) ∙ ground arith
