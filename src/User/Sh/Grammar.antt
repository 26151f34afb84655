-- ===== src/User/Sh/Grammar.antt =====
-- Command lines of xv6/user/sh.c args they are meant: their text, the command that they are, and the
-- rounds of the parser that they take.
use ru_shell.Base.{Bool, List, [], length, ltb, map, suc, true, zero, ℕ, ◌&&◌, ◌++◌, ◌+◌, ◌∷◌}
use ru_shell.User.Sh.{Cmd, Redir, backcmd, execcmd, listcmd, maxargs, pipecmd, wrap_redirs}
use ru_shell.User.Sh.Tokens.{is_word}

pub data Direction : Type 0 where
  from_file to_file append_file : Direction

-- A redirection, an argument with the redirections behind it, and the parts of a line.
pub record Redirection : Type 0 where
  pub direction : Direction
  pub name : List ℕ

abbrev pub Argument : Type 0
Argument = List ℕ × List Redirection

mutual
  pub data Line : Type 0 where
    line_end : Pipeline → ℕ → Line
    line_then : Pipeline → ℕ → Line → Line

  pub data Pipeline : Type 0 where
    pipe_end : Simple → Pipeline
    pipe_then : Simple → Pipeline → Pipeline

  pub data Simple : Type 0 where
    block : Line → List Redirection → Simple
    words : List Redirection → List Argument → Simple

abbrev pub operator : Direction → List ℕ → List ℕ
operator from_file s = b'<' ∷ s
operator to_file s = b'>' ∷ s
operator append_file s = b'>' ∷ b'>' ∷ s

-- The text of each, in front of a text.
abbrev pub show_redirs : List Redirection → List ℕ → List ℕ
show_redirs [] s = s
show_redirs (r ∷ rs) s = operator r.direction (32 ∷ r.name ++ 32 ∷ show_redirs rs s)

abbrev pub show_args : List Argument → List ℕ → List ℕ
show_args [] s = s
show_args ((w, rs) ∷ args) s = w ++ 32 ∷ show_redirs rs (show_args args s)

abbrev pub show_backs : ℕ → List ℕ → List ℕ
show_backs zero s = s
show_backs (suc n) s = b'&' ∷ show_backs n s

unfoldable mutual
  pub show_line : Line → List ℕ → List ℕ
  show_line (line_end p n) s = show_pipe p (show_backs n s)
  show_line (line_then p n l) s = show_pipe p (show_backs n (b';' ∷ show_line l s))

  pub show_pipe : Pipeline → List ℕ → List ℕ
  show_pipe (pipe_end e) s = show_simple e s
  show_pipe (pipe_then e p) s = show_simple e (b'|' ∷ show_pipe p s)

  pub show_simple : Simple → List ℕ → List ℕ
  show_simple (block l rs) s = b'(' ∷ show_line l (b')' ∷ show_redirs rs s)
  show_simple (words rs args) s = show_redirs rs (show_args args s)

abbrev pub redir_cmd : Redirection → Redir
redir_cmd r = elim r.direction [
  | from_file ↦ record { file = r.name; mode = 0; fd = 0 }
  | to_file ↦ record { file = r.name; mode = 0x601; fd = 1 }
  | append_file ↦ record { file = r.name; mode = 0x201; fd = 1 }
]

abbrev pub args_words : List Argument → List (List ℕ)
args_words [] = []
args_words ((w, rs) ∷ args) = w ∷ args_words args

abbrev pub args_redirs : List Argument → List Redir
args_redirs [] = []
args_redirs ((w, rs) ∷ args) = map redir_cmd rs ++ args_redirs args

abbrev pub backs : ℕ → Cmd → Cmd
backs zero c = c
backs (suc n) c = backs n (backcmd c)

-- The command of each.
unfoldable mutual
  pub line_cmd : Line → Cmd
  line_cmd (line_end p n) = backs n (pipe_cmd p)
  line_cmd (line_then p n l) = listcmd (backs n (pipe_cmd p)) (line_cmd l)

  pub pipe_cmd : Pipeline → Cmd
  pipe_cmd (pipe_end e) = simple_cmd e
  pipe_cmd (pipe_then e p) = pipecmd (simple_cmd e) (pipe_cmd p)

  pub simple_cmd : Simple → Cmd
  simple_cmd (block l rs) = wrap_redirs (line_cmd l) (map redir_cmd rs)
  simple_cmd (words rs args) =
      wrap_redirs (execcmd (args_words args)) (map redir_cmd rs ++ args_redirs args)

abbrev pub names_ok : List Redirection → Bool
names_ok [] = true
names_ok (r ∷ rs) = is_word r.name && names_ok rs

abbrev pub args_ok : List Argument → Bool
args_ok [] = true
args_ok ((w, rs) ∷ args) = is_word w && names_ok rs && args_ok args

-- Words that are words, and less than `maxargs` of them in a command.
unfoldable mutual
  pub line_ok : Line → Bool
  line_ok (line_end p n) = pipe_ok p
  line_ok (line_then p n l) = pipe_ok p && line_ok l

  pub pipe_ok : Pipeline → Bool
  pipe_ok (pipe_end e) = simple_ok e
  pipe_ok (pipe_then e p) = simple_ok e && pipe_ok p

  pub simple_ok : Simple → Bool
  simple_ok (block l rs) = line_ok l && names_ok rs
  simple_ok (words rs args) = names_ok rs && args_ok args && ltb (length args) maxargs

abbrev pub args_size : List Argument → ℕ
args_size [] = 1
args_size ((w, rs) ∷ args) = suc (length rs + args_size args)

-- The rounds that the parser takes for each, one within the other.
unfoldable mutual
  pub line_size : Line → ℕ
  line_size (line_end p n) = suc (pipe_size p + n)
  line_size (line_then p n l) = suc (pipe_size p + n + line_size l)

  pub pipe_size : Pipeline → ℕ
  pipe_size (pipe_end e) = suc (simple_size e)
  pipe_size (pipe_then e p) = suc (simple_size e + pipe_size p)

  pub simple_size : Simple → ℕ
  simple_size (block l rs) = suc (suc (line_size l + length rs))
  simple_size (words rs args) = suc (length rs + args_size args)
