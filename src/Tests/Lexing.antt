-- ===== src/Tests/Lexing.antt =====
-- Inputs for the lexer and the parser.
use ru_shell.Base.{List, [], codes, false, refl, some, true, ◌++◌, ◌↔◌, ◌∷◌, ◌≡◌, ◌≢◌}
use ru_shell.Shell.Lexer.{
  Buf, Token, TokenList, angle, buf_init, buf_push, eof, gtgt, is_space, is_special, lex_line,
  lex_loop, lex_word, lexed, no_fuel, operator, out_of_memory, pipe, read_word, syntax_error,
  tokenlist_append,
}
use ru_shell.Shell.Lexer.Progress.{lex_line_terminates}
use ru_shell.Shell.Lexer.Quotes.{is_closed, lex_line_refuses, plain}
use ru_shell.Shell.Lexer.Shape.{AreTokens, cons, is_op, is_word, nil, plain_token, word_token}
use ru_shell.Shell.Lexer.RoundTrip.{lex_line-show, show}
use ru_shell.Shell.Parser.{parse_validate}
use ru_shell.Shell.Parser.Grammar.{before_eof, is_line, parse_validate-is_line}

abbrev listing : List Token
listing =
    word_token (codes "ls")
    ∷ word_token (codes "a\"b")
    ∷ plain_token pipe
    ∷ word_token (codes "wc")
    ∷ plain_token gtgt
    ∷ word_token (codes "out")
    ∷ []

listing-AreTokens : AreTokens listing
listing-AreTokens = cons (is_word (codes "ls")) (
    cons (is_word (codes "a\"b")) (
      cons (is_op pipe refl)
        (cons (is_word (codes "wc")) (cons (is_op gtgt refl) (cons (is_word (codes "out")) nil)))))

abbrev listed : TokenList
listed = record { items = listing ++ plain_token eof ∷ []; count = 7 }

lex-listing : lex_line (codes "ls a\\\"b | wc>>out") [] ≡ lexed listed
unfolding lex_line lex_loop is_space is_special operator angle lex_word buf_init read_word buf_push
    tokenlist_append
lex-listing = refl

lex_out_of_memory : lex_line (codes "ls |") (true ∷ true ∷ false ∷ []) ≡ out_of_memory
unfolding lex_line lex_loop is_space is_special operator angle lex_word buf_init read_word buf_push
    tokenlist_append
lex_out_of_memory = refl

validate-listing : parse_validate listed.items ≡ true
unfolding parse_validate
validate-listing = refl

lex_line_terminates_example : lex_line (codes "ls 'a") (true ∷ false ∷ []) ≢ no_fuel
lex_line_terminates_example = lex_line_terminates (codes "ls 'a") (true ∷ false ∷ [])

lex_line_refuses_example :
    (lex_line (codes "ls 'a") [] ≡ syntax_error) ↔ (is_closed plain (codes "ls 'a") ≡ false)
lex_line_refuses_example = lex_line_refuses (codes "ls 'a")

lex_line-show_example : lex_line (show listing) [] ≡ lexed listed
lex_line-show_example = lex_line-show listing-AreTokens

parse_validate-is_line_example : parse_validate listed.items ≡ is_line (before_eof listed.items)
parse_validate-is_line_example = parse_validate-is_line listed.items

abbrev nearly_full : Buf
nearly_full = record { contents = some (codes "a"); len = 1; cap = 2 }
