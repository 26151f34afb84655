-- ===== src/User/Sh.antt =====
-- The shell of xv6/user/sh.c: its parser, on the bytes before the NUL, and what a command runs. A
-- pointer into the text is the list of bytes from there on, and a word its bytes, which is what
-- nulterminate leaves of it.
use ru_shell.Base.{
  Bool, List, [], codes, false, if◌then◌else◌, leb, length, not, suc, zero, ℕ, ◌*◌, ◌++◌, ◌+◌, ◌==◌,
  ◌||◌, ◌∷◌,
}
pub mod Grammar
pub mod Tokens
pub mod Words
pub mod Args
pub mod RoundTrip
pub mod Fuel
pub mod Leaves
pub mod Halts

-- `strchr` of a byte that is not NUL.
abbrev pub among : List ℕ → ℕ → Bool
among [] c = false
among (x ∷ xs) c = x == c || among xs c

-- `whitespace` and `symbols`
abbrev pub is_white : ℕ → Bool
is_white c = among (32 ∷ 9 ∷ 13 ∷ 10 ∷ 11 ∷ []) c

abbrev pub is_symbol : ℕ → Bool
is_symbol c = among (codes "<|>&;()") c

unfoldable pub skip_white : List ℕ → List ℕ
skip_white [] = []
skip_white (c ∷ s) = let rest = skip_white s in if is_white c then rest else c ∷ s

-- The bytes of a word, and what stands behind it.
unfoldable pub take_word : List ℕ → List ℕ × List ℕ
take_word [] = ([], [])
take_word (c ∷ s) =
    let (w, rest) = take_word s in if is_white c || is_symbol c then ([], c ∷ s) else (c ∷ w, rest)

-- A token from its first byte on: what `gettoken` returns, its bytes, and what is left.
unfoldable pub token_here : List ℕ → ℕ × List ℕ × List ℕ
unfolding take_word
token_here [] = (0, [], [])
token_here (c ∷ s) =
    let (w, rest) = take_word (c ∷ s) in
    let doubled : ℕ × List ℕ × List ℕ = elim s [
      | [] ↦ (b'>', c ∷ [], [])
      | d ∷ s' ↦ if d == b'>' then (b'+', c ∷ d ∷ [], s') else (b'>', c ∷ [], d ∷ s')
    ] in
    if c == b'>' then doubled else if is_symbol c then (c, c ∷ [], s) else (b'a', w, rest)

unfoldable pub gettoken : List ℕ → ℕ × List ℕ × List ℕ
unfolding skip_white token_here
gettoken s = let (ret, text, rest) = token_here (skip_white s) in (ret, text, skip_white rest)

-- A parse that calls `panic`, runs out of the model's fuel, or goes on behind what it parsed.
pub data Parsed (A : Type 0) : Type 0 where
  panics : Parsed A
  runs_out : Parsed A
  parsed : A → List ℕ → Parsed A

abbrev pub Parser : Type 0 → Type 0
Parser A = List ℕ → Parsed A

infixl 5 ◌>>=◌
abbrev pub ◌>>=◌ : {A B : Type 0} → Parser A → (A → Parser B) → Parser B
(m >>= f) s = elim (m s) [ panics ↦ panics | runs_out ↦ runs_out | parsed a rest ↦ f a rest ]

abbrev pub pure : {A : Type 0} → A → Parser A
pure a s = parsed a s

abbrev pub panic : {A : Type 0} → Parser A
panic s = panics

abbrev pub out_of_fuel : {A : Type 0} → Parser A
out_of_fuel s = runs_out

-- The token, and its bytes.
unfoldable pub token : Parser (ℕ × List ℕ)
token s = let (ret, text, rest) = gettoken s in parsed (ret, text) rest

abbrev pub starts_with : List ℕ → List ℕ → Bool
starts_with toks [] = false
starts_with toks (c ∷ s) = among toks c

unfoldable pub peek : List ℕ → Parser Bool
peek toks s = let s' = skip_white s in parsed (starts_with toks s') s'

-- `file`, `mode` and `fd` of a redircmd.
pub record Redir : Type 0 where
  pub file : List ℕ
  pub mode : ℕ
  pub fd : ℕ

-- `struct cmd`, by its type.
pub data Cmd : Type 0 where
  execcmd : List (List ℕ) → Cmd
  redircmd : Cmd → Redir → Cmd
  pipecmd : Cmd → Cmd → Cmd
  listcmd : Cmd → Cmd → Cmd
  backcmd : Cmd → Cmd

abbrev pub wrap_redirs : Cmd → List Redir → Cmd
wrap_redirs cmd [] = cmd
wrap_redirs cmd (r ∷ rs) = wrap_redirs (redircmd cmd r) rs

-- The redirection of a `<`, `>` or `+` token: O_RDONLY, O_WRONLY | O_CREATE | O_TRUNC, or without
-- O_TRUNC.
unfoldable pub redir_of : ℕ → List ℕ → Redir
redir_of tok file =
    if tok == b'<'
    then record { file = file; mode = 0; fd = 0 }
    else if tok == b'>'
    then record { file = file; mode = 0x601; fd = 1 }
    else record { file = file; mode = 0x201; fd = 1 }

-- The redirections that `parseredirs` wraps round a command, the innermost first.
unfoldable pub parseredirs : ℕ → Parser (List Redir)
parseredirs zero = out_of_fuel
parseredirs (suc n) = do
  more ← peek (codes "<>")
  if not more then pure [] else do
    (tok, _) ← token
    (ret, file) ← token
    if not (ret == b'a') then panic else do rest ← parseredirs n; pure (redir_of tok file ∷ rest)

abbrev pub maxargs : ℕ
maxargs = 10

-- The loop of `parseexec`, with `argc` words so far.
unfoldable pub parseargs : ℕ → ℕ → Parser (List (List ℕ) × List Redir)
parseargs zero argc = out_of_fuel
parseargs (suc n) argc = do
  ended ← peek (codes "|)&;")
  if ended then pure ([], []) else do
    (tok, word) ← token
    if tok == 0
        then pure ([], [])
        else if not (tok == b'a')
        then panic
        else if leb maxargs (argc + 1)
        then panic
        else do
          redirs ← parseredirs n
          (words, more) ← parseargs n (argc + 1)
          pure (word ∷ words, redirs ++ more)

-- The loop of `parseline` over ampersands.
unfoldable pub parsebacks : ℕ → Cmd → Parser Cmd
parsebacks zero cmd = out_of_fuel
parsebacks (suc n) cmd = do
  more ← peek (codes "&")
  if not more then pure cmd else do _ ← token; parsebacks n (backcmd cmd)

unfoldable mutual
  pub parseline : ℕ → Parser Cmd
  parseline zero = out_of_fuel
  parseline (suc n) = do
    first ← parsepipe n
    cmd ← parsebacks n first
    more ← peek (codes ";")
    if not more then pure cmd else do _ ← token; rest ← parseline n; pure (listcmd cmd rest)

  pub parsepipe : ℕ → Parser Cmd
  parsepipe zero = out_of_fuel
  parsepipe (suc n) = do
    cmd ← parseexec n
    more ← peek (codes "|")
    if not more then pure cmd else do _ ← token; right ← parsepipe n; pure (pipecmd cmd right)

  pub parseblock : ℕ → Parser Cmd
  parseblock zero = out_of_fuel
  parseblock (suc n) = do
    opened ← peek (codes "(")
    if not opened then panic else do
      _ ← token
      cmd ← parseline n
      closed ← peek (codes ")")
      if not closed
          then panic
          else do _ ← token; redirs ← parseredirs n; pure (wrap_redirs cmd redirs)

  pub parseexec : ℕ → Parser Cmd
  parseexec zero = out_of_fuel
  parseexec (suc n) = do
    block ← peek (codes "(")
    if block then parseblock n else do
      redirs ← parseredirs n
      (words, more) ← parseargs n 0
      pure (wrap_redirs (execcmd words) (redirs ++ more))

-- `parsecmd`, with fuel for the text.
unfoldable pub parsecmd : List ℕ → Parsed Cmd
parsecmd s = elim (parseline (4 * length s + 4) s) [
  | panics ↦ panics
  | runs_out ↦ runs_out
  | parsed cmd rest ↦ elim (skip_white rest) [ [] ↦ parsed cmd [] | c ∷ more ↦ panics ]
]

-- A descriptor: a number, or an end of the pipe that `runcmd` makes.
pub data Descriptor : Type 0 where
  descriptor : ℕ → Descriptor
  read_end write_end : Descriptor

-- What a process does, by the answers of its calls: `forks` has the child, the parent and the
-- failure, `opens` and `pipes` the success and the failure, and `execs` what follows a failure.
pub data Run : Type 0 where
  exits : ℕ → Run
  execs : List (List ℕ) → Run → Run
  closes : Descriptor → Run → Run
  dups : Descriptor → Run → Run
  opens : List ℕ → ℕ → Run → Run → Run
  pipes : Run → Run → Run
  forks : Run → Run → Run → Run
  waits : Run → Run

-- `fork1`, whose failure is a panic.
abbrev fork1 : Run → Run → Run
fork1 child parent = forks child parent (exits 1)

-- The descriptor `fd` is replaced by an end of the pipe, and both ends are closed.
abbrev use_end : ℕ → Descriptor → Run → Run
use_end fd side rest = closes (descriptor fd) (dups side (closes read_end (closes write_end rest)))

-- `runcmd` of a command that is not NULL; what is printed is left out.
unfoldable pub runcmd : Cmd → Run
runcmd (execcmd []) = exits 1
runcmd (execcmd (w ∷ ws)) = execs (w ∷ ws) (exits 0)
runcmd (redircmd cmd r) = closes (descriptor r.fd) (opens r.file r.mode (runcmd cmd) (exits 1))
runcmd (listcmd left right) = fork1 (runcmd left) (waits (runcmd right))
runcmd (pipecmd left right) =
    pipes
      (fork1 (use_end 1 write_end (runcmd left)) (
        fork1 (use_end 0 read_end (runcmd right))
          (closes read_end (closes write_end (waits (waits (exits 0)))))))
      (exits 1)
runcmd (backcmd cmd) = fork1 (runcmd cmd) (exits 0)
