-- ===== src/Tests/Commands.antt =====
-- Command lines for the shell of xv6.
use ru_shell.Base.{[], codes, refl, ◌∷◌, ◌≡◌, ◌≢◌}
use ru_shell.User.Sh.{parsecmd, parsed, runs_out}
use ru_shell.User.Sh.Grammar.{
  Line, block, line_cmd, line_end, line_ok, line_then, pipe_end, pipe_then, show_line, to_file,
  words,
}
use ru_shell.User.Sh.Fuel.{parsecmd-show_line}
use ru_shell.User.Sh.Halts.{parsecmd_terminates}

-- (echo a > f; cat) | wc &
abbrev a_line : Line
a_line =
    line_end
      (pipe_then
        (block
          (line_then
            (pipe_end (
              words [] (
                (codes "echo", [])
                ∷ (codes "a", record { direction = to_file; name = codes "f" } ∷ [])
                ∷ [])))
            0 (line_end (pipe_end (words [] ((codes "cat", []) ∷ []))) 0))
          [])
        (pipe_end (words [] ((codes "wc", []) ∷ []))))
      1

parsecmd-show_line_example : parsecmd (show_line a_line []) ≡ parsed (line_cmd a_line) []
parsecmd-show_line_example = parsecmd-show_line a_line (unfold line_ok in refl)

parsecmd_terminates_example : parsecmd (codes "(((") ≢ runs_out
parsecmd_terminates_example = parsecmd_terminates (codes "(((")
