-- ===== src/Tests/Running.antt =====
-- Inputs for the work on a parsed line.
use ru_shell.Base.{
  Bool, List, [], arith, codes, eq_bytes, false, inl, inr, refl, some, true, ◌∷◌, ◌≡◌,
}
use ru_shell.Shell.Lexer.{
  Token, angle, buf_init, buf_push, is_space, is_special, lex_line, lex_loop, lex_word, operator,
  pipe, read_word, semi, tokenlist_append,
}
use ru_shell.Shell.Lexer.Shape.{plain_token, word_token}
use ru_shell.Shell.Lexer.RoundTrip.{show}
use ru_shell.Shell.Parser.{parse_validate}
use ru_shell.Shell.Segments.{
  Call, activities, add_arg, empty_stage, end_segment, execute_background, execute_pipeline,
  finished, flush_pending_bg_messages, next_segment, parse_stages, pipeline, run_line, run_segment,
  run_segments, run_stages, set_fg_active,
}
use ru_shell.Shell.Segments.Safety.{run_line_finishes}
use ru_shell.Shell.Segments.RoundTrip.{
  Command, Fits, parse_stages-pipeline, pipeline_tokens, stage_of,
}
use ru_shell.Shell.Segments.EndToEnd.{run_line-show}

-- The world as the list of the calls made, newest first; every call succeeds.
abbrev log_call : Call → List Call → List Call × Bool
log_call c w = (c ∷ w, false)

abbrev cat_in : Command
cat_in = record { args = codes "cat" ∷ []; reads = codes "in" ∷ []; writes = [] }

abbrev wc_out : Command
wc_out = record {
  args = codes "wc" ∷ codes "-l" ∷ [];
  reads = [];
  writes = (codes "out", true) ∷ [];
}

cat_in-Fits : Fits cat_in
cat_in-Fits = omega arith

wc_out-Fits : Fits wc_out
wc_out-Fits = omega arith

run_line-show_example :
    run_line log_call (show (pipeline_tokens cat_in (wc_out ∷ []) [])) [] []
    ≡ ((run_stages log_call (stage_of cat_in ∷ stage_of wc_out ∷ []) false []).0, finished)
run_line-show_example =
    run_line-show log_call cat_in (wc_out ∷ []) [] cat_in-Fits (wc_out-Fits, tt) (omega arith)

-- The calls for that pipeline.
run_stages-calls :
    (run_stages log_call (stage_of cat_in ∷ stage_of wc_out ∷ []) false []).0
    ≡ flush_pending_bg_messages
      ∷ set_fg_active false
      ∷ execute_pipeline (stage_of cat_in ∷ stage_of wc_out ∷ [])
      ∷ set_fg_active true
      ∷ []
unfolding run_stages
run_stages-calls = refl

run_background : run_line log_call (codes "sleep 9 & activities") [] [] ≡ (
  flush_pending_bg_messages
      ∷ set_fg_active false
      ∷ activities (some (codes "activities") ∷ [])
      ∷ set_fg_active true
      ∷ execute_background (
          record {
            argv = some (codes "sleep") ∷ some (codes "9") ∷ [];
            input_files = [];
            output_files = [];
          }
          ∷ [])
      ∷ [],
  finished,
)
unfolding run_line lex_line lex_loop is_space is_special operator angle lex_word buf_init read_word
    buf_push tokenlist_append parse_validate run_segments run_segment next_segment run_stages
    parse_stages end_segment add_arg eq_bytes
run_background = refl

run_line_finishes_example : (run_line log_call (codes "a > ;") (true ∷ []) []).1 ≡ finished
run_line_finishes_example = run_line_finishes log_call (codes "a > ;") (true ∷ []) []

parse_stages-pipeline_example :
    parse_stages [] empty_stage (pipeline_tokens cat_in (wc_out ∷ []) (plain_token semi ∷ []))
    ≡ pipeline (stage_of cat_in ∷ stage_of wc_out ∷ []) (plain_token semi ∷ [])
parse_stages-pipeline_example =
    parse_stages-pipeline cat_in (wc_out ∷ []) (plain_token semi ∷ []) cat_in-Fits (wc_out-Fits, tt)
      (omega arith) (inr (inl refl))

abbrev piped : List Token
piped = plain_token pipe ∷ word_token (codes "b") ∷ []
