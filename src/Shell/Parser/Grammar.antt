-- ===== src/Shell/Parser/Grammar.antt =====
-- The lines that `parse_validate` accepts, said without it.
use ru_shell.Base.{Bool, List, [], arith, false, refl, true, ◌&&◌, ◌||◌, ◌∷◌, ◌≡◌}
use ru_shell.Shell.Lexer.{Token, TokenType, amp, eof, gt, gtgt, lt, pipe, semi, word}
use ru_shell.Shell.Parser.{next_word, next_word_or_end, parse_validate, validate_rest}

abbrev is_word : TokenType → Bool
is_word word = true
is_word _ = false

-- The types in front of the first TOK_EOF.
unfoldable pub before_eof : List Token → List TokenType
before_eof [] = []
before_eof (t ∷ ts) = let rest = before_eof ts in elim t.type [ eof ↦ [] | u ↦ u ∷ rest ]

-- Of any two neighbours one is a word.
unfoldable pub alternates : List TokenType → Bool
alternates [] = true
alternates (t ∷ []) = true
alternates (t ∷ u ∷ ts) = (is_word t || is_word u) && alternates (u ∷ ts)

-- The last is a word or an `&`.
unfoldable pub ends_well : List TokenType → Bool
ends_well [] = true
ends_well (t ∷ []) = elim t [ word ↦ true | amp ↦ true | _ ↦ false ]
ends_well (t ∷ u ∷ ts) = ends_well (u ∷ ts)

unfoldable pub starts_well : List TokenType → Bool
starts_well [] = true
starts_well (t ∷ ts) = is_word t

unfoldable pub is_line : List TokenType → Bool
unfolding alternates ends_well starts_well
is_line ts = starts_well ts && alternates ts && ends_well ts

-- What is left to check behind a token of type `t`.
abbrev follows : TokenType → List TokenType → Bool
follows t ts = alternates (t ∷ ts) && ends_well (t ∷ ts)

-- The operators behind which a word must stand.
abbrev needs_word : TokenType → Bool
needs_word word = false
needs_word amp = false
needs_word eof = false
needs_word _ = true

mutual
  unfolding validate_rest before_eof alternates ends_well

  validate_rest-follows : (ts : List Token) → validate_rest ts ≡ follows word (before_eof ts)
  validate_rest-follows [] = refl
  validate_rest-follows (t ∷ ts) = ground (
    arith,
    validate_rest-follows ts,
    next_word_or_end-follows ts,
    next_word-follows pipe ts refl,
    next_word-follows semi ts refl,
    next_word-follows lt ts refl,
    next_word-follows gt ts refl,
    next_word-follows gtgt ts refl,
  )

  next_word-follows :
      (u : TokenType) (ts : List Token)
      → needs_word u ≡ true
      → next_word ts ≡ follows u (before_eof ts)
  next_word-follows u [] h = ground arith
  next_word-follows u (t ∷ ts) h = ground (arith, validate_rest-follows ts)

  next_word_or_end-follows : (ts : List Token) → next_word_or_end ts ≡ follows amp (before_eof ts)
  next_word_or_end-follows [] = refl
  next_word_or_end-follows (t ∷ ts) = ground (arith, validate_rest-follows ts)

-- `parse_validate` accepts a token list exactly if, up to the first TOK_EOF, it is empty, or it
-- begins with a word, has a word among any two neighbours, and ends with a word or an `&`.
pub parse_validate-is_line : (ts : List Token) → parse_validate ts ≡ is_line (before_eof ts)
unfolding parse_validate before_eof is_line
parse_validate-is_line [] = refl
parse_validate-is_line (t ∷ ts) = ground (arith, validate_rest-follows ts)
