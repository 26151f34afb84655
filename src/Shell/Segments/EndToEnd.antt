-- ===== src/Shell/Segments/EndToEnd.antt =====
-- From the text of a pipeline to what runs: printed, lexed, checked, cut and run.
use ru_shell.Shell.Lexer.RoundTrip.{lex_line-show, show}
use ru_shell.Shell.Segments.{
  Call, Exit, Stage, empty_stage, finished, max_stages, next_segment, parse_stages, pipeline,
  run_line, run_segment, run_segments, run_stages, run_tokens,
}
use ru_shell.Base.{
  Bool, List, [], ap, arith, false, inl, length, map, refl, suc, true, ℕ, ◌++◌, ◌<◌, ◌∙◌, ◌∷◌, ◌≡◌,
  ◌≢◌,
}
use ru_shell.Shell.Lexer.{Bytes, Token, eof, gt, gtgt, lt, pipe}
use ru_shell.Shell.Lexer.Shape.{AreTokens, cons, is_op, is_word, nil, plain_token}
use ru_shell.Shell.Parser.{next_word, parse_validate, validate_rest}
use ru_shell.Shell.Segments.RoundTrip.{
  AllFit, Command, Fits, arg_tokens, command_tokens, parse_stages-pipeline, pipeline_tokens,
  read_tokens, stage_of, write_tokens,
}

arg_tokens-AreTokens :
    (ws : List Bytes) {rest : List Token} → AreTokens rest → AreTokens (arg_tokens ws rest)
arg_tokens-AreTokens [] a = a
arg_tokens-AreTokens (w ∷ ws) a = cons (is_word w) (arg_tokens-AreTokens ws a)

read_tokens-AreTokens :
    (ws : List Bytes) {rest : List Token} → AreTokens rest → AreTokens (read_tokens ws rest)
read_tokens-AreTokens [] a = a
read_tokens-AreTokens (w ∷ ws) a =
    cons (is_op lt refl) (cons (is_word w) (read_tokens-AreTokens ws a))

write_tokens-AreTokens :
    (ws : List (Bytes × Bool)) {rest : List Token}
    → AreTokens rest
    → AreTokens (write_tokens ws rest)
write_tokens-AreTokens [] a = a
write_tokens-AreTokens ((w, true) ∷ ws) a =
    cons (is_op gtgt refl) (cons (is_word w) (write_tokens-AreTokens ws a))
write_tokens-AreTokens ((w, false) ∷ ws) a =
    cons (is_op gt refl) (cons (is_word w) (write_tokens-AreTokens ws a))

command_tokens-AreTokens :
    (c : Command) {rest : List Token} → AreTokens rest → AreTokens (command_tokens c rest)
command_tokens-AreTokens c a =
    arg_tokens-AreTokens c.args (read_tokens-AreTokens c.reads (write_tokens-AreTokens c.writes a))

pipeline_tokens-AreTokens : (c : Command) (cs : List Command) → AreTokens (pipeline_tokens c cs [])
pipeline_tokens-AreTokens c [] = command_tokens-AreTokens c nil
pipeline_tokens-AreTokens c (d ∷ ds) =
    command_tokens-AreTokens c (cons (is_op pipe refl) (pipeline_tokens-AreTokens d ds))

arg_tokens-append :
    (ws : List Bytes) (rest cur : List Token)
    → arg_tokens ws rest ++ cur ≡ arg_tokens ws (rest ++ cur)
arg_tokens-append [] rest cur = refl
arg_tokens-append (w ∷ ws) rest cur = rw (arg_tokens-append ws rest cur)

read_tokens-append :
    (ws : List Bytes) (rest cur : List Token)
    → read_tokens ws rest ++ cur ≡ read_tokens ws (rest ++ cur)
read_tokens-append [] rest cur = refl
read_tokens-append (w ∷ ws) rest cur = rw (read_tokens-append ws rest cur)

write_tokens-append :
    (ws : List (Bytes × Bool)) (rest cur : List Token)
    → write_tokens ws rest ++ cur ≡ write_tokens ws (rest ++ cur)
write_tokens-append [] rest cur = refl
write_tokens-append (w ∷ ws) rest cur = rw (write_tokens-append ws rest cur)

command_tokens-append :
    (c : Command) (rest cur : List Token)
    → command_tokens c rest ++ cur ≡ command_tokens c (rest ++ cur)
command_tokens-append c rest cur = rw (
  arg_tokens-append c.args _ cur,
  read_tokens-append c.reads _ cur,
  write_tokens-append c.writes rest cur,
)

pipeline_tokens-append :
    (c : Command) (cs : List Command) (cur : List Token)
    → pipeline_tokens c cs [] ++ cur ≡ pipeline_tokens c cs cur
pipeline_tokens-append c [] cur = command_tokens-append c [] cur
pipeline_tokens-append c (d ∷ ds) cur =
    command_tokens-append c _ cur ∙ rw (pipeline_tokens-append d ds cur)

validate-args :
    (ws : List Bytes) (rest : List Token) → validate_rest (arg_tokens ws rest) ≡ validate_rest rest
unfolding validate_rest
validate-args [] rest = refl
validate-args (w ∷ ws) rest = validate-args ws rest

validate-reads :
    (ws : List Bytes) (rest : List Token) → validate_rest (read_tokens ws rest) ≡ validate_rest rest
unfolding validate_rest
validate-reads [] rest = refl
validate-reads (w ∷ ws) rest = validate-reads ws rest

validate-writes :
    (ws : List (Bytes × Bool)) (rest : List Token)
    → validate_rest (write_tokens ws rest) ≡ validate_rest rest
unfolding validate_rest
validate-writes [] rest = refl
validate-writes ((w, true) ∷ ws) rest = validate-writes ws rest
validate-writes ((w, false) ∷ ws) rest = validate-writes ws rest

-- The first word of a command, and what the parser says behind it.
next_word-command :
    (ws : List Bytes) (c : Command) (rest : List Token)
    → c.args ≡ ws
    → 0 < length ws
    → (next_word (command_tokens c rest) ≡ validate_rest rest)
      × (parse_validate (command_tokens c rest) ≡ validate_rest rest)
unfolding validate_rest parse_validate
next_word-command [] c rest e h = absurd (omega arith)
next_word-command (w ∷ ws) c rest e h =
    let v = validate-args ws _ ∙ validate-reads c.reads _ ∙ validate-writes c.writes rest in
    rw e (v, v)

validate-pipe : (ts : List Token) → validate_rest (plain_token pipe ∷ ts) ≡ next_word ts
unfolding validate_rest
validate-pipe ts = refl

validate-eof : validate_rest (plain_token eof ∷ []) ≡ true
unfolding validate_rest
validate-eof = refl

next_word-pipeline :
    (c : Command) (cs : List Command) (rest : List Token)
    → Fits c
    → AllFit cs
    → next_word (pipeline_tokens c cs rest) ≡ validate_rest rest
next_word-pipeline c [] rest f fs = (next_word-command c.args c rest refl f.some_args).0
next_word-pipeline c (d ∷ ds) rest f fs =
    (next_word-command c.args c _ refl f.some_args).0
    ∙ validate-pipe _
    ∙ next_word-pipeline d ds rest fs.0 fs.1

parse_validate-pipeline :
    (c : Command) (cs : List Command) (rest : List Token)
    → Fits c
    → AllFit cs
    → parse_validate (pipeline_tokens c cs rest) ≡ validate_rest rest
parse_validate-pipeline c [] rest f fs = (next_word-command c.args c rest refl f.some_args).1
parse_validate-pipeline c (d ∷ ds) rest f fs =
    (next_word-command c.args c _ refl f.some_args).1
    ∙ validate-pipe _
    ∙ next_word-pipeline d ds rest fs.0 fs.1

-- The line is not empty: it begins with a quote.
length-show :
    (c : Command) (cs : List Command) → Fits c → length (show (pipeline_tokens c cs [])) ≢ 0
length-show c cs f = go cs
  where
    words :
        (ws : List Bytes) (rest : List Token)
        → 0 < length ws
        → length (show (arg_tokens ws rest)) ≢ 0
    words [] rest h = absurd (omega arith)
    words (w ∷ ws) rest h = unfold show in (omega arith)

    go : (cs : List Command) → length (show (pipeline_tokens c cs [])) ≢ 0
    go [] = words c.args _ f.some_args
    go (d ∷ ds) = words c.args _ f.some_args

module _ {W : Type 0} (call : Call → W → W × Bool) where
  run_segments-args :
      (n : ℕ) (ws : List Bytes) (rest : List Token) (w : W)
      → 0 < length ws
      → run_segments call (suc n) (arg_tokens ws rest) w
        ≡ run_segment call
            (run_segments call n)
            (parse_stages [] empty_stage (arg_tokens ws rest))
            w
  unfolding run_segments
  run_segments-args n [] rest w h = absurd (omega arith)
  run_segments-args n (_ ∷ ws) rest w h = refl

  run_segments-head :
      (n : ℕ) (c : Command) (cs : List Command) (cur : List Token) (w : W)
      → Fits c
      → run_segments call (suc n) (pipeline_tokens c cs cur) w
        ≡ run_segment call
            (run_segments call n)
            (parse_stages [] empty_stage (pipeline_tokens c cs cur))
            w
  run_segments-head n c [] cur w f = run_segments-args n c.args _ w f.some_args
  run_segments-head n c (d ∷ ds) cur w f = run_segments-args n c.args _ w f.some_args

  run_segment-last :
      (next : List Token → W → W × Exit) (ss : List Stage) (w : W)
      → run_segment call next (pipeline ss (plain_token eof ∷ [])) w
        ≡ ((run_stages call ss false w).0, finished)
  unfolding run_segment next_segment
  run_segment-last next ss w = ground arith

  run_segments-pipeline :
      (n : ℕ) (c : Command) (cs : List Command) (w : W)
      → Fits c
      → AllFit cs
      → length cs < max_stages
      → run_segments call (suc n) (pipeline_tokens c cs (plain_token eof ∷ [])) w
        ≡ ((run_stages call (map stage_of (c ∷ cs)) false w).0, finished)
  run_segments-pipeline n c cs w f fs h =
      run_segments-head n c cs _ w f
      ∙ ap (λ s. run_segment call (run_segments call n) s w)
          (parse_stages-pipeline c cs (plain_token eof ∷ []) f fs h (inl refl))
      ∙ run_segment-last (run_segments call n) (map stage_of (c ∷ cs)) w

  run_tokens-valid :
      (command : Bytes) (items : List Token) (w : W)
      → parse_validate items ≡ true
      → length command ≢ 0
      → run_tokens call command items w ≡ run_segments call (suc (length items)) items w
  unfolding run_tokens
  run_tokens-valid command items w h ne = ground arith

  -- A pipeline typed as `show` prints it runs just as it is meant, if the heap answers: the lexer,
  -- the parser and the loop over segments hand the stages of its commands to the call that
  -- `run_stages` makes for them in the foreground, and nothing else is done.
  pub run_line-show :
      (c : Command) (cs : List Command) (w : W)
      → Fits c
      → AllFit cs
      → length cs < max_stages
      → run_line call (show (pipeline_tokens c cs [])) [] w
        ≡ ((run_stages call (map stage_of (c ∷ cs)) false w).0, finished)
  unfolding run_line
  run_line-show c cs w f fs h =
      let items = pipeline_tokens c cs (plain_token eof ∷ []) in
      rw
        (
          lex_line-show (pipeline_tokens-AreTokens c cs),
          pipeline_tokens-append c cs (plain_token eof ∷ []),
        )
        (run_tokens-valid (show (pipeline_tokens c cs [])) items w
            (parse_validate-pipeline c cs (plain_token eof ∷ []) f fs ∙ validate-eof)
            (length-show c cs f)
          ∙ run_segments-pipeline (length items) c cs w f fs h)
