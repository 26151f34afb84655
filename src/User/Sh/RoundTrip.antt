-- ===== src/User/Sh/RoundTrip.antt =====
-- The parser of xv6/user/sh.c reads a printed command line back.
use ru_shell.Base.{
  Bool, List, [], ap, arith, codes, false, length, ltb, map, refl, subst, suc, true, zero, ℕ, ◌&&◌,
  ◌++◌, ◌<◌, ◌==◌, ◌∙◌, ◌∷◌, ◌≡◌, ◌≤◌,
}
use ru_shell.User.Sh.{
  among, execcmd, is_symbol, listcmd, maxargs, parseargs, parsebacks, parsed, parseexec, parseline,
  parsepipe, parseredirs, peek, pipecmd, pure, starts_with, token, wrap_redirs,
}
use ru_shell.User.Sh.Tokens.{and_parts, gettoken-symbol, is_word, peek-starts, starts, symbols-word}
use ru_shell.User.Sh.Grammar.{
  Argument, Line, Pipeline, Redirection, Simple, append_file, args_ok, args_redirs, args_words,
  backs, block, from_file, line_cmd, line_end, line_ok, line_size, line_then, names_ok, operator,
  pipe_cmd, pipe_end, pipe_ok, pipe_size, pipe_then, redir_cmd, show_args, show_backs, show_line,
  show_pipe, show_redirs, show_simple, simple_cmd, simple_ok, simple_size, to_file, words,
}
use ru_shell.User.Sh.Words.{
  bind-parsed, parseredirs-show_redirs, starts-show_args, starts-show_redirs, stops, token_lem,
}
use ru_shell.User.Sh.Args.{
  args_size-positive, parseargs-show_args, parsebacks-show_backs, show_args-angle, stops-angle,
}

-- What may stand behind a line: nothing, or a closing parenthesis.
abbrev pub ends : List ℕ → Bool
ends [] = true
ends (c ∷ s) = c == b')'

-- What may stand behind a pipeline.
pub record Behind (s : List ℕ) : Type 0 where
  pub start : starts s ≡ true
  pub stop : stops s ≡ true
  pub no_bar : starts_with (codes "|") s ≡ false

ends-Behind : (s : List ℕ) → ends s ≡ true → Behind s
ends-Behind [] h = record { start = refl; stop = refl; no_bar = refl }
ends-Behind (c ∷ s) h = record {
  start = ground (arith, h);
  stop = ground (arith, h);
  no_bar = ground (arith, h);
}

ends-mark : (toks s : List ℕ) → among toks b')' ≡ false → ends s ≡ true → starts_with toks s ≡ false
ends-mark toks [] n h = refl
ends-mark toks (c ∷ s) n h = subst (λ x. among toks x ≡ false) (ground (arith, h)) n

show_backs-Behind : (k : ℕ) (s : List ℕ) → Behind s → Behind (show_backs k s)
show_backs-Behind zero s h = h
show_backs-Behind (suc k) s h = record { start = refl; stop = refl; no_bar = refl }

semicolon-Behind : (s : List ℕ) → Behind (b';' ∷ s)
semicolon-Behind s = record { start = refl; stop = refl; no_bar = refl }

paren_symbol : (c : ℕ) → is_symbol c ≡ false → among (codes "(") c ≡ false
paren_symbol c h = ground (arith, h)

-- A command that is not a block does not begin with a parenthesis.
words-paren :
    (rs : List Redirection) (xs : List Argument) (s : List ℕ)
    → args_ok xs ≡ true
    → stops s ≡ true
    → starts_with (codes "(") (show_redirs rs (show_args xs s)) ≡ false
words-paren (r ∷ rs) xs s ok h =
    elim r.direction
      as (λ d.
        starts_with (codes "(") (operator d (32 ∷ r.name ++ 32 ∷ show_redirs rs (show_args xs s)))
        ≡ false) [ from_file ↦ refl | to_file ↦ refl | append_file ↦ refl ]
words-paren [] ((w, rs) ∷ xs) s ok h =
    let (os, _) = and_parts (is_word w && names_ok rs) (args_ok xs) ok in
    let (o, _) = and_parts (is_word w) (names_ok rs) os in
    symbols-word (codes "(") w (32 ∷ show_redirs rs (show_args xs s)) o paren_symbol
words-paren [] [] [] ok h = refl
words-paren [] [] (c ∷ s) ok h = ground (arith, h)

-- The printed parts do not begin with white space.
mutual
  unfolding show_line line_ok

  starts-show_line :
      (l : Line) (s : List ℕ) → line_ok l ≡ true → Behind s → starts (show_line l s) ≡ true
  starts-show_line (line_end p k) s ok h =
      starts-show_pipe p (show_backs k s) ok (show_backs-Behind k s h)
  starts-show_line (line_then p k l) s ok h =
      let (o, _) = and_parts (pipe_ok p) (line_ok l) ok in
      starts-show_pipe p (show_backs k (b';' ∷ show_line l s)) o
        (show_backs-Behind k (b';' ∷ show_line l s) (semicolon-Behind (show_line l s)))

  starts-show_pipe :
      (p : Pipeline) (s : List ℕ) → pipe_ok p ≡ true → Behind s → starts (show_pipe p s) ≡ true
  starts-show_pipe (pipe_end e) s ok h = starts-show_simple e s ok h.start
  starts-show_pipe (pipe_then e p) s ok h =
      let (o, _) = and_parts (simple_ok e) (pipe_ok p) ok in
      starts-show_simple e (b'|' ∷ show_pipe p s) o refl

  starts-show_simple :
      (e : Simple) (s : List ℕ)
      → simple_ok e ≡ true
      → starts s ≡ true
      → starts (show_simple e s) ≡ true
  starts-show_simple (block l rs) s ok h = refl
  starts-show_simple (words rs xs) s ok h =
      let (os, _) = and_parts (names_ok rs && args_ok xs) (ltb (length xs) maxargs) ok in
      let (_, a) = and_parts (names_ok rs) (args_ok xs) os in
      starts-show_redirs rs (show_args xs s) (starts-show_args xs s a h)

pipe_size-positive : (p : Pipeline) → 0 < pipe_size p
unfolding pipe_size
pipe_size-positive (pipe_end e) = omega arith
pipe_size-positive (pipe_then e p) = omega arith

line_size-positive : (l : Line) → 0 < line_size l
unfolding line_size
line_size-positive (line_end p k) = omega arith
line_size-positive (line_then p k l) = omega arith

-- A command of words.
parse_words :
    (n : ℕ) (rs : List Redirection) (xs : List Argument) (s : List ℕ)
    → simple_ok (words rs xs) ≡ true
    → starts s ≡ true
    → stops s ≡ true
    → simple_size (words rs xs) ≤ suc n
    → parseexec (suc n) (show_simple (words rs xs) s) ≡ parsed (simple_cmd (words rs xs)) s
unfolding parseline show_line line_ok line_cmd line_size
parse_words n rs xs s ok g h l =
    let (os, few) = and_parts (names_ok rs && args_ok xs) (ltb (length xs) maxargs) ok in
    let (names, a) = and_parts (names_ok rs) (args_ok xs) os in
    let tail = show_args xs s in
    let all = show_redirs rs tail in
    let st = starts-show_args xs s a g in
    bind-parsed (peek (codes "(")) _ all all false (
      peek-starts (codes "(") all (starts-show_redirs rs tail st)
      ∙ ap (λ b. parsed b all) (words-paren rs xs s a h))
    ∙ bind-parsed (parseredirs n) _ all tail (map redir_cmd rs) (
        parseredirs-show_redirs rs n tail names st (show_args-angle xs s a h)
          (omega (arith, args_size-positive xs)))
    ∙ bind-parsed (parseargs n 0) (λ p. pure (wrap_redirs (execcmd p.0) (map redir_cmd rs ++ p.1)))
        tail s (args_words xs, args_redirs xs)
        (parseargs-show_args xs n 0 s a g h (omega arith) (ground (arith, few)))

mutual
  unfolding parseline show_line line_ok line_cmd line_size

  pub parseline-show_line :
      (l : Line) (n : ℕ) (s : List ℕ)
      → line_ok l ≡ true
      → ends s ≡ true
      → line_size l ≤ n
      → parseline n (show_line l s) ≡ parsed (line_cmd l) s
  parseline-show_line (line_end p k) zero s ok h z = absurd (omega arith)
  parseline-show_line (line_then p k l) zero s ok h z = absurd (omega arith)
  parseline-show_line (line_end p k) (suc n) s ok h z =
      let b = ends-Behind s h in
      let more = show_backs k s in
      bind-parsed (parsepipe n) _ (show_pipe p more) more (pipe_cmd p)
        (parsepipe-show_pipe p n more ok (show_backs-Behind k s b) (omega arith))
      ∙ bind-parsed (parsebacks n (pipe_cmd p)) _ more s (backs k (pipe_cmd p)) (
          parsebacks-show_backs k n (pipe_cmd p) s b.start (ends-mark (codes "&") s refl h)
            (omega (arith, pipe_size-positive p)))
      ∙ bind-parsed (peek (codes ";")) _ s s false (
          peek-starts (codes ";") s b.start ∙ ap (λ x. parsed x s) (ends-mark (codes ";") s refl h))
  parseline-show_line (line_then p k l) (suc n) s ok h z =
      let (o, os) = and_parts (pipe_ok p) (line_ok l) ok in
      let next = show_line l s in
      let semi = b';' ∷ next in
      let more = show_backs k semi in
      bind-parsed (parsepipe n) _ (show_pipe p more) more (pipe_cmd p) (
        parsepipe-show_pipe p n more o (show_backs-Behind k semi (semicolon-Behind next))
          (omega arith))
      ∙ bind-parsed (parsebacks n (pipe_cmd p)) _ more semi (backs k (pipe_cmd p)) (
          parsebacks-show_backs k n (pipe_cmd p) semi refl refl
            (omega (arith, pipe_size-positive p)))
      ∙ bind-parsed (peek (codes ";")) _ semi semi true (peek-starts (codes ";") semi refl)
      ∙ bind-parsed token _ semi next (b';', b';' ∷ [])
          (token_lem semi (b';' ∷ []) next b';'
            (gettoken-symbol b';' next refl refl refl (starts-show_line l s os (ends-Behind s h))))
      ∙ bind-parsed (parseline n) (λ r. pure (listcmd (backs k (pipe_cmd p)) r)) next s (line_cmd l)
          (parseline-show_line l n s os h (omega arith))

  pub parsepipe-show_pipe :
      (p : Pipeline) (n : ℕ) (s : List ℕ)
      → pipe_ok p ≡ true
      → Behind s
      → pipe_size p ≤ n
      → parsepipe n (show_pipe p s) ≡ parsed (pipe_cmd p) s
  parsepipe-show_pipe (pipe_end e) zero s ok h z = absurd (omega arith)
  parsepipe-show_pipe (pipe_then e p) zero s ok h z = absurd (omega arith)
  parsepipe-show_pipe (pipe_end e) (suc n) s ok h z =
      bind-parsed (parseexec n) _ (show_simple e s) s (simple_cmd e)
        (parseexec-show_simple e n s ok h.start h.stop (omega arith))
      ∙ bind-parsed (peek (codes "|")) _ s s false
          (peek-starts (codes "|") s h.start ∙ ap (λ x. parsed x s) h.no_bar)
  parsepipe-show_pipe (pipe_then e p) (suc n) s ok h z =
      let (o, os) = and_parts (simple_ok e) (pipe_ok p) ok in
      let next = show_pipe p s in
      let bar = b'|' ∷ next in
      bind-parsed (parseexec n) _ (show_simple e bar) bar (simple_cmd e)
        (parseexec-show_simple e n bar o refl refl (omega arith))
      ∙ bind-parsed (peek (codes "|")) _ bar bar true (peek-starts (codes "|") bar refl)
      ∙ bind-parsed token _ bar next (b'|', b'|' ∷ [])
          (token_lem bar (b'|' ∷ []) next b'|'
            (gettoken-symbol b'|' next refl refl refl (starts-show_pipe p s os h)))
      ∙ bind-parsed (parsepipe n) (λ r. pure (pipecmd (simple_cmd e) r)) next s (pipe_cmd p)
          (parsepipe-show_pipe p n s os h (omega arith))

  pub parseexec-show_simple :
      (e : Simple) (n : ℕ) (s : List ℕ)
      → simple_ok e ≡ true
      → starts s ≡ true
      → stops s ≡ true
      → simple_size e ≤ n
      → parseexec n (show_simple e s) ≡ parsed (simple_cmd e) s
  parseexec-show_simple (block l rs) zero s ok g h z = absurd (omega arith)
  parseexec-show_simple (words rs xs) zero s ok g h z = absurd (omega arith)
  parseexec-show_simple (words rs xs) (suc n) s ok g h z = parse_words n rs xs s ok g h z
  parseexec-show_simple (block l rs) (suc zero) s ok g h z = absurd (omega arith)
  parseexec-show_simple (block l rs) (suc (suc n)) s ok g h z =
      let (o, names) = and_parts (line_ok l) (names_ok rs) ok in
      let tail = show_redirs rs s in
      let close = b')' ∷ tail in
      let inner = show_line l close in
      let all = b'(' ∷ inner in
      bind-parsed (peek (codes "(")) _ all all true (peek-starts (codes "(") all refl)
      ∙ bind-parsed (peek (codes "(")) _ all all true (peek-starts (codes "(") all refl)
      ∙ bind-parsed token _ all inner (b'(', b'(' ∷ [])
          (token_lem all (b'(' ∷ []) inner b'(' (
            gettoken-symbol b'(' inner refl refl refl
              (starts-show_line l close o (ends-Behind close refl))))
      ∙ bind-parsed (parseline n) _ inner close (line_cmd l)
          (parseline-show_line l n close o refl (omega arith))
      ∙ bind-parsed (peek (codes ")")) _ close close true (peek-starts (codes ")") close refl)
      ∙ bind-parsed token _ close tail (b')', b')' ∷ [])
          (token_lem close (b')' ∷ []) tail b')'
            (gettoken-symbol b')' tail refl refl refl (starts-show_redirs rs s g)))
      ∙ bind-parsed (parseredirs n) (λ r. pure (wrap_redirs (line_cmd l) r)) tail s
          (map redir_cmd rs)
          (parseredirs-show_redirs rs n s names g (stops-angle s h)
            (omega (arith, line_size-positive l)))
