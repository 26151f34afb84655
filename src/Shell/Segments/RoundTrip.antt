-- ===== src/Shell/Segments/RoundTrip.antt =====
-- From the text of a pipeline to the stages that run: printed, lexed, checked, cut and run.
use mathlib.Core.List.{append_assoc, append-nil}
use ru_shell.Base.{
  Bool, List, Option, [], arith, false, if◌then◌else◌, length, length-append, length-map, map, some,
  suc, true, ◌++◌, ◌+◌, ◌<◌, ◌∙◌, ◌∷◌, ◌≡◌, ◌≤◌, ◌⊎◌,
}
use ru_shell.Shell.Lexer.{Bytes, Token, amp, eof, gt, gtgt, lt, pipe, semi}
use ru_shell.Shell.Lexer.Shape.{plain_token, word_token}
use ru_shell.Shell.Segments.{
  Stage, add_arg, add_input, add_output, empty_stage, end_segment, max_args, max_stages,
  parse_stages, pipeline,
}

-- One command of a pipeline, as a user means it.
pub record Command : Type 0 where
  pub args : List Bytes
  pub reads : List Bytes
  pub writes : List (Bytes × Bool)

-- It has an argument, and no list is longer than a stage can hold.
pub record Fits (c : Command) : Type 0 where
  pub some_args : 0 < length c.args
  pub few_args : length c.args < max_args
  pub few_reads : length c.reads < max_args
  pub few_writes : length c.writes < max_args

abbrev pub output_of : Bytes × Bool → Option Bytes × Bool
output_of (f, append) = (some f, append)

abbrev pub stage_of : Command → Stage
stage_of c = record {
  argv = map (λ w. some w) c.args;
  input_files = map (λ w. some w) c.reads;
  output_files = map output_of c.writes;
}

-- The words, then each `<` with its file, then each `>` or `>>` with its file.
abbrev pub arg_tokens : List Bytes → List Token → List Token
arg_tokens [] rest = rest
arg_tokens (w ∷ ws) rest = word_token w ∷ arg_tokens ws rest

abbrev pub read_tokens : List Bytes → List Token → List Token
read_tokens [] rest = rest
read_tokens (w ∷ ws) rest = plain_token lt ∷ word_token w ∷ read_tokens ws rest

abbrev pub write_tokens : List (Bytes × Bool) → List Token → List Token
write_tokens [] rest = rest
write_tokens ((w, append) ∷ ws) rest =
    plain_token (if append then gtgt else gt) ∷ word_token w ∷ write_tokens ws rest

abbrev pub command_tokens : Command → List Token → List Token
command_tokens c rest = arg_tokens c.args (read_tokens c.reads (write_tokens c.writes rest))

abbrev pub pipeline_tokens : Command → List Command → List Token → List Token
pipeline_tokens c [] rest = command_tokens c rest
pipeline_tokens c (d ∷ ds) rest = command_tokens c (plain_token pipe ∷ pipeline_tokens d ds rest)

abbrev pub AllFit : List Command → Type 0
AllFit [] = Unit
AllFit (c ∷ cs) = Fits c × AllFit cs

add_arg-room :
    (s : Stage) (v : Option Bytes)
    → length s.argv + 1 < max_args
    → add_arg s v ≡ record s { argv = s.argv ++ v ∷ [] }
unfolding add_arg
add_arg-room s v h = ground arith

add_input-room :
    (s : Stage) (v : Option Bytes)
    → length s.input_files + 1 < max_args
    → add_input s v ≡ record s { input_files = s.input_files ++ v ∷ [] }
unfolding add_input
add_input-room s v h = ground arith

add_output-room :
    (s : Stage) (a : Bool) (v : Option Bytes)
    → length s.output_files + 1 < max_args
    → add_output s a v ≡ record s { output_files = s.output_files ++ (v, a) ∷ [] }
unfolding add_output
add_output-room s a v h = ground arith

parse-args :
    (ws : List Bytes) (before : List Stage) (s : Stage) (rest : List Token)
    → length s.argv + length ws < max_args
    → parse_stages before s (arg_tokens ws rest)
      ≡ parse_stages before (record s { argv = s.argv ++ map (λ w. some w) ws }) rest
unfolding parse_stages
parse-args [] before s rest h = rw append-nil
parse-args (w ∷ ws) before s rest h = rw (add_arg-room s (some w) (omega arith)) (
    parse-args ws before (record s { argv = s.argv ++ some w ∷ [] }) rest
      (omega (arith, length-append s.argv (some w ∷ [])))
    ∙ rw append_assoc)

parse-reads :
    (ws : List Bytes) (before : List Stage) (s : Stage) (rest : List Token)
    → length s.input_files + length ws < max_args
    → parse_stages before s (read_tokens ws rest)
      ≡ parse_stages before (record s { input_files = s.input_files ++ map (λ w. some w) ws }) rest
unfolding parse_stages
parse-reads [] before s rest h = rw append-nil
parse-reads (w ∷ ws) before s rest h = rw (add_input-room s (some w) (omega arith)) (
    parse-reads ws before (record s { input_files = s.input_files ++ some w ∷ [] }) rest
      (omega (arith, length-append s.input_files (some w ∷ [])))
    ∙ rw append_assoc)

parse-writes :
    (ws : List (Bytes × Bool)) (before : List Stage) (s : Stage) (rest : List Token)
    → length s.output_files + length ws < max_args
    → parse_stages before s (write_tokens ws rest)
      ≡ parse_stages before (record s { output_files = s.output_files ++ map output_of ws }) rest
unfolding parse_stages
parse-writes [] before s rest h = rw append-nil
parse-writes ((w, true) ∷ ws) before s rest h = rw (add_output-room s true (some w) (omega arith)) (
    parse-writes ws before (record s { output_files = s.output_files ++ (some w, true) ∷ [] }) rest
      (omega (arith, length-append s.output_files ((some w, true) ∷ [])))
    ∙ rw append_assoc)
parse-writes ((w, false) ∷ ws) before s rest h =
    rw (add_output-room s false (some w) (omega arith)) (
      parse-writes ws before (record s { output_files = s.output_files ++ (some w, false) ∷ [] })
        rest (omega (arith, length-append s.output_files ((some w, false) ∷ [])))
      ∙ rw append_assoc)

-- What ends a segment.
abbrev pub Stops : List Token → Type 0
Stops [] = Unit
Stops (t ∷ ts) = (t.type ≡ eof) ⊎ (t.type ≡ semi) ⊎ (t.type ≡ amp)

parse-command :
    (c : Command) (before : List Stage) (rest : List Token)
    → Fits c
    → parse_stages before empty_stage (command_tokens c rest)
      ≡ parse_stages before (stage_of c) rest
parse-command c before rest f =
    parse-args c.args before empty_stage _ (omega (arith, f.few_args))
    ∙ parse-reads c.reads before _ _ (omega (arith, f.few_reads))
    ∙ parse-writes c.writes before _ rest (omega (arith, f.few_writes))

parse-stop :
    (before : List Stage) (s : Stage) (cur : List Token)
    → Stops cur
    → 0 < length s.argv
    → parse_stages before s cur ≡ pipeline (before ++ s ∷ []) cur
unfolding parse_stages end_segment
parse-stop before s [] h a = ground arith
parse-stop before s (t ∷ ts) h a = ground arith

parse-pipe :
    (before : List Stage) (s : Stage) (ts : List Token)
    → 0 < length s.argv
    → length before + 1 < max_stages
    → parse_stages before s (plain_token pipe ∷ ts) ≡ parse_stages (before ++ s ∷ []) empty_stage ts
unfolding parse_stages
parse-pipe before s ts a h = ground arith

argv-stage_of : (c : Command) → Fits c → 0 < length (stage_of c).argv
argv-stage_of c f = omega (arith, f.some_args, length-map c.args (λ w. some w))

parse-pipeline :
    (c : Command) (cs : List Command) (before : List Stage) (cur : List Token)
    → Fits c
    → AllFit cs
    → length before + suc (length cs) ≤ max_stages
    → Stops cur
    → parse_stages before empty_stage (pipeline_tokens c cs cur)
      ≡ pipeline (before ++ map stage_of (c ∷ cs)) cur
parse-pipeline c [] before cur f fs h t =
    parse-command c before cur f ∙ parse-stop before (stage_of c) cur t (argv-stage_of c f)
parse-pipeline c (d ∷ ds) before cur f fs h t =
    parse-command c before _ f
    ∙ parse-pipe before (stage_of c) _ (argv-stage_of c f) (omega arith)
    ∙ parse-pipeline d ds _ cur fs.0 fs.1 (omega (arith, length-append before (stage_of c ∷ []))) t
    ∙ rw append_assoc

-- The loop over a segment reads the tokens of any pipeline back into its stages: at most
-- `max_stages` commands, each with an argument, and less than `max_args` arguments, inputs and
-- outputs. It stops at the `;`, `&` or TOK_EOF behind them.
pub parse_stages-pipeline :
    (c : Command) (cs : List Command) (cur : List Token)
    → Fits c
    → AllFit cs
    → length cs < max_stages
    → Stops cur
    → parse_stages [] empty_stage (pipeline_tokens c cs cur) ≡ pipeline (map stage_of (c ∷ cs)) cur
parse_stages-pipeline c cs cur f fs h t = parse-pipeline c cs [] cur f fs (omega arith) t
