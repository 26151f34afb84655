-- ===== src/Shell/Parser.antt =====
-- c-shell/src/parser.c: which token lists are command lines. `curr` is the list from it on, and
-- NULL the empty list.
use ru_shell.Base.{Bool, List, [], false, true, ◌∷◌}
use ru_shell.Shell.Lexer.{Token, amp, eof, gt, gtgt, lt, pipe, semi, word}
pub mod Grammar

-- The `while` loop; a word that must follow; what may follow an `&`.
unfoldable mutual
  pub validate_rest : List Token → Bool
  validate_rest [] = true
  validate_rest (t ∷ ts) = elim t.type [
    | eof ↦ true
    | word ↦ validate_rest ts
    | lt ↦ next_word ts
    | gt ↦ next_word ts
    | gtgt ↦ next_word ts
    | semi ↦ next_word ts
    | pipe ↦ next_word ts
    | amp ↦ next_word_or_end ts
  ]

  pub next_word : List Token → Bool
  next_word [] = false
  next_word (t ∷ ts) = elim t.type [ word ↦ validate_rest ts | _ ↦ false ]

  pub next_word_or_end : List Token → Bool
  next_word_or_end [] = true
  next_word_or_end (t ∷ ts) = elim t.type [ eof ↦ true | word ↦ validate_rest ts | _ ↦ false ]

unfoldable pub parse_validate : List Token → Bool
unfolding validate_rest
parse_validate [] = true
parse_validate (t ∷ ts) = elim t.type [ eof ↦ true | word ↦ validate_rest ts | _ ↦ false ]
