-- ===== src/Shell/Segments.antt =====
-- c-shell/src/shell.c, from the parsed tokens on: a line is cut into segments at `;` and `&`, a
-- segment into the stages of a pipeline, and each segment is run.
use ru_shell.Base.{
  Bool, List, Option, [], codes, eq_bytes, false, if◌then◌else◌, leb, length, ltb, none, not, some,
  suc, true, zero, ℕ, ◌&&◌, ◌++◌, ◌+◌, ◌-◌, ◌==◌, ◌||◌, ◌∷◌,
}
use ru_shell.Shell.Parser.{parse_validate}
use ru_shell.Shell.Lexer.{
  Bytes, Heap, LexResult, Token, TokenType, amp, eof, gt, gtgt, lex_line, lexed, lt, out_of_memory,
  pipe, semi, syntax_error, word,
}
pub mod Bounds
pub mod Good
pub mod Safety
pub mod RoundTrip
pub mod EndToEnd

abbrev pub max_stages : ℕ
max_stages = 64

abbrev pub max_args : ℕ
max_args = 100

-- One stage: `argc` is the length of `argv`, and each output file has its append flag.
pub record Stage : Type 0 where
  pub argv : List (Option Bytes)
  pub input_files : List (Option Bytes)
  pub output_files : List (Option Bytes × Bool)

abbrev pub empty_stage : Stage
empty_stage = record { argv = []; input_files = []; output_files = [] }

-- Past the limit a word is dropped.
unfoldable pub add_arg : Stage → Option Bytes → Stage
add_arg s v = if ltb (length s.argv) (max_args - 1) then record s { argv = s.argv ++ v ∷ [] } else s

unfoldable pub add_input : Stage → Option Bytes → Stage
add_input s v =
    if ltb (length s.input_files) (max_args - 1)
    then record s { input_files = s.input_files ++ v ∷ [] }
    else s

unfoldable pub add_output : Stage → Bool → Option Bytes → Stage
add_output s append v =
    if ltb (length s.output_files) (max_args - 1)
    then record s { output_files = s.output_files ++ (v, append) ∷ [] }
    else s

-- What the loop over one segment ends with: a read through a NULL `cur`, a set
-- `pipeline_syntax_error`, or the `num_stages` stages and `cur`.
pub data Segment : Type 0 where
  fault bad_pipeline : Segment
  pipeline : List Stage → List Token → Segment

-- Behind the loop: with no argument in the last stage, `num_stages` is 0.
unfoldable pub end_segment : List Stage → Stage → List Token → Segment
end_segment before s cur = pipeline (if length s.argv == 0 then [] else before ++ s ∷ []) cur

-- The stages before the current one, the current one, and `cur`.
unfoldable mutual
  pub parse_stages : List Stage → Stage → List Token → Segment
  parse_stages before s [] = end_segment before s []
  parse_stages before s (t ∷ ts) = elim t.type [
    | eof ↦ end_segment before s (t ∷ ts)
    | semi ↦ end_segment before s (t ∷ ts)
    | amp ↦ end_segment before s (t ∷ ts)
    | pipe ↦ elim (length s.argv == 0 || leb max_stages (length before + 1)) [
      | true ↦ bad_pipeline
      | false ↦ parse_stages (before ++ s ∷ []) empty_stage ts
    ]
    | lt ↦ input_file before s ts
    | gt ↦ output_file before s false ts
    | gtgt ↦ output_file before s true ts
    | word ↦ parse_stages before (add_arg s t.value) ts
  ]

  -- The file name behind a `<`.
  pub input_file : List Stage → Stage → List Token → Segment
  input_file before s [] = fault
  input_file before s (t ∷ ts) = parse_stages before (add_input s t.value) ts

  -- The file name behind a `>` or `>>`.
  pub output_file : List Stage → Stage → Bool → List Token → Segment
  output_file before s append [] = fault
  output_file before s append (t ∷ ts) = parse_stages before (add_output s append t.value) ts

-- What the shell does for a segment. `print_invalid` prints "cshell: invalid
-- syntax", `print_out_of_memory` the lexer's other message.
pub data Call : Type 0 where
  set_fg_active : Bool → Call
  flush_pending_bg_messages print_invalid print_out_of_memory : Call
  hop reveal locate peek activities resume ping spy snoop : List (Option Bytes) → Call
  execute_with_redirection : Stage → Call
  execute_pipeline execute_background : List Stage → Call

-- `strcmp(name, text) == 0`; a NULL is no text.
abbrev is_text : Option Bytes → Bytes → Bool
is_text none s = false
is_text (some w) s = eq_bytes w s

abbrev head_is : List (Option Bytes) → Bytes → Bool
head_is [] s = false
head_is (a ∷ _) s = is_text a s

pub is_builtin : List (Option Bytes) → Bool
unfolding eq_bytes
is_builtin argv =
    head_is argv (codes "hop")
    || head_is argv (codes "reveal")
    || head_is argv (codes "locate")
    || head_is argv (codes "peek")
    || head_is argv (codes "activities")
    || head_is argv (codes "resume")
    || head_is argv (codes "ping")
    || head_is argv (codes "spy")
    || head_is argv (codes "snoop")

-- The ladder for a single stage in the foreground.
pub single_call : Stage → Call
unfolding eq_bytes
single_call s =
    if head_is s.argv (codes "hop")
    then hop s.argv
    else if head_is s.argv (codes "reveal")
    then reveal s.argv
    else if head_is s.argv (codes "locate")
    then locate s.argv
    else if head_is s.argv (codes "peek")
    then peek s.argv
    else if head_is s.argv (codes "activities")
    then activities s.argv
    else if head_is s.argv (codes "resume")
    then resume s.argv
    else if head_is s.argv (codes "ping")
    then ping s.argv
    else if head_is s.argv (codes "spy")
    then spy s.argv
    else if head_is s.argv (codes "snoop")
    then snoop s.argv
    else execute_with_redirection s

-- The call that runs the stages, and whether it is the background path.
unfoldable pub segment_call : Stage → List Stage → Bool → Call × Bool
unfolding is_builtin single_call
segment_call s [] bg =
    if bg && not (is_builtin s.argv)
    then (execute_background (s ∷ []), true)
    else (single_call s, false)
segment_call s (s' ∷ ss) bg =
    if bg then (execute_background (s ∷ s' ∷ ss), true) else (execute_pipeline (s ∷ s' ∷ ss), false)

-- The calls whose result goes to `exec_status`; it stays 0 for a builtin.
abbrev pub sets_status : Call → Bool
sets_status (execute_with_redirection _) = true
sets_status (execute_pipeline _) = true
sets_status _ = false

abbrev pub is_background : List Token → Bool
is_background [] = false
is_background (t ∷ ts) = elim t.type [ amp ↦ true | _ ↦ false ]

-- The token at hand, by its type.
pub Token-cases {ℓ} :
    (P : Token → Type ℓ) (t : Token)
    → ((u : TokenType) → P (record { type = u; value = t.value }))
    → P t
Token-cases P t k = k t.type

-- How the work on a line ends. `no_fuel` is no end of the code.
pub data Exit : Type 0 where
  finished faulted no_fuel : Exit

-- `call` is what a call does to the rest of the system, and whether it returns less than 0.
module _ {W : Type 0} (call : Call → W → W × Bool) where
  abbrev perform : Call → W → W
  perform c w = (call c w).0

  -- The second part says that the rest of the line is dropped.
  unfoldable pub run_call : Call × Bool → W → W × Bool
  run_call (c, true) w = (perform c w, false)
  run_call (c, false) w =
      let (w', failed) = call c (perform (set_fg_active true) w) in
      (
        perform flush_pending_bg_messages (perform (set_fg_active false) w'),
        sets_status c && failed,
      )

  unfoldable pub run_stages : List Stage → Bool → W → W × Bool
  unfolding run_call segment_call
  run_stages [] bg w = (w, false)
  run_stages (s ∷ ss) bg w = run_call (segment_call s ss bg) w

  -- `seg_start` moves behind the `;` or `&`, or becomes NULL.
  unfoldable pub next_segment : (List Token → W → W × Exit) → List Token → W → W × Exit
  next_segment next [] w = (w, finished)
  next_segment next (t ∷ ts) w = elim t.type [
    | semi ↦ next ts w
    | amp ↦ next ts w
    | _ ↦ (w, finished)
  ]

  unfoldable pub run_segment : (List Token → W → W × Exit) → Segment → W → W × Exit
  run_segment next fault w = (w, faulted)
  run_segment next bad_pipeline w = (perform print_invalid w, finished)
  run_segment next (pipeline ss cur) w =
      let (w', stop) = run_stages ss (is_background cur) w in
      let rest = next_segment next cur w' in if stop then (w', finished) else rest

  -- `while (seg_start != NULL && seg_start->type != TOK_EOF)`
  unfoldable pub run_segments : ℕ → List Token → W → W × Exit
  run_segments zero ts w = (w, no_fuel)
  run_segments (suc f) [] w = (w, finished)
  run_segments (suc f) (t ∷ ts) w = elim t.type [
    | eof ↦ (w, finished)
    | _ ↦ run_segment (run_segments f) (parse_stages [] empty_stage (t ∷ ts)) w
  ]

  -- A line that the lexer has taken.
  unfoldable pub run_tokens : Bytes → List Token → W → W × Exit
  run_tokens command items w = elim (parse_validate items) [
    | true ↦ elim (length command == 0) [
      | true ↦ (w, finished)
      | false ↦ run_segments (suc (length items)) items w
    ]
    | false ↦ (perform print_invalid w, finished)
  ]

  -- Behind the lexer, with what it printed.
  unfoldable pub run_lexed : Bytes → LexResult → W → W × Exit
  run_lexed command (lexed tokens) w = run_tokens command tokens.items w
  run_lexed command syntax_error w = (perform print_invalid w, finished)
  run_lexed command out_of_memory w = (perform print_out_of_memory w, finished)
  run_lexed command LexResult.no_fuel w = (w, no_fuel)

  -- A line from the lexer on.
  unfoldable pub run_line : Bytes → Heap → W → W × Exit
  unfolding run_lexed run_tokens
  run_line command h = run_lexed command (lex_line command h)
