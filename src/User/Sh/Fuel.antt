-- ===== src/User/Sh/Fuel.antt =====
-- The fuel of `parsecmd` is enough for any printed line of xv6/user/sh.c.
use ru_shell.Base.{
  List, [], arith, length, length-append, refl, suc, true, zero, ℕ, ◌*◌, ◌++◌, ◌+◌, ◌<◌, ◌∷◌, ◌≡◌,
  ◌≤◌,
}
use ru_shell.User.Sh.{parsecmd, parsed, skip_white}
use ru_shell.User.Sh.Grammar.{
  Argument, Direction, Line, Pipeline, Redirection, Simple, append_file, args_size, block,
  from_file, line_cmd, line_end, line_ok, line_size, line_then, operator, pipe_end, pipe_size,
  pipe_then, show_args, show_backs, show_line, show_pipe, show_redirs, show_simple, simple_size,
  to_file, words,
}
use ru_shell.User.Sh.RoundTrip.{parseline-show_line}

length-operator : (d : Direction) (s : List ℕ) → length s < length (operator d s)
length-operator from_file s = omega arith
length-operator to_file s = omega arith
length-operator append_file s = omega arith

redirs_bound :
    (rs : List Redirection) (s : List ℕ) → length rs + 4 * length s ≤ 4 * length (show_redirs rs s)
redirs_bound [] s = omega arith
redirs_bound (r ∷ rs) s =
    let h = redirs_bound rs s in
    let rest = show_redirs rs s in
    let a = length-operator r.direction (32 ∷ r.name ++ 32 ∷ rest) in
    let b = length-append r.name (32 ∷ rest) in omega arith

args_bound :
    (xs : List Argument) (s : List ℕ)
    → args_size xs + 4 * length s ≤ 4 * length (show_args xs s) + 1
args_bound [] s = omega arith
args_bound ((w, rs) ∷ xs) s =
    let h = args_bound xs s in
    let tail = show_args xs s in
    let a = redirs_bound rs tail in
    let b = length-append w (32 ∷ show_redirs rs tail) in omega arith

backs_bound : (k : ℕ) (s : List ℕ) → k + 4 * length s ≤ 4 * length (show_backs k s)
backs_bound zero s = omega arith
backs_bound (suc k) s = let h = backs_bound k s in omega arith

mutual
  unfolding show_line line_size

  line_bound : (l : Line) (s : List ℕ) → line_size l + 4 * length s ≤ 4 * length (show_line l s) + 4
  line_bound (line_end p k) s =
      let a = backs_bound k s in let b = pipe_bound p (show_backs k s) in omega arith
  line_bound (line_then p k l) s =
      let h = line_bound l s in
      let a = backs_bound k (b';' ∷ show_line l s) in
      let b = pipe_bound p (show_backs k (b';' ∷ show_line l s)) in omega arith

  pipe_bound :
      (p : Pipeline) (s : List ℕ) → pipe_size p + 4 * length s ≤ 4 * length (show_pipe p s) + 3
  pipe_bound (pipe_end e) s = let h = simple_bound e s in omega arith
  pipe_bound (pipe_then e p) s =
      let a = pipe_bound p s in let b = simple_bound e (b'|' ∷ show_pipe p s) in omega arith

  simple_bound :
      (e : Simple) (s : List ℕ) → simple_size e + 4 * length s ≤ 4 * length (show_simple e s) + 2
  simple_bound (block l rs) s =
      let a = redirs_bound rs s in let b = line_bound l (b')' ∷ show_redirs rs s) in omega arith
  simple_bound (words rs xs) s =
      let a = args_bound xs s in let b = redirs_bound rs (show_args xs s) in omega arith

-- A command line that is printed from its parts, with any nesting of blocks, lists, pipes and
-- redirections, is parsed to the command that it was printed from. Its words are not empty and hold
-- no white space and no symbol, and a command has less than `maxargs` of them.
pub parsecmd-show_line :
    (l : Line) → line_ok l ≡ true → parsecmd (show_line l []) ≡ parsed (line_cmd l) []
unfolding parsecmd skip_white
parsecmd-show_line l h =
    let b = line_bound l [] in
    let e = parseline-show_line l (4 * length (show_line l []) + 4) [] h refl (omega arith) in
    rw (e, parsecmd) refl
