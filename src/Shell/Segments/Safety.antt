-- ===== src/Shell/Segments/Safety.antt =====
-- No line makes the shell read through a NULL token, and a pipeline is refused only for its length.
use ru_shell.Base.{
  Bool, Bool-cases, List, [], arith, inl, inr, length, refl, suc, true, zero, ℕ, ◌<◌, ◌∷◌, ◌≡◌, ◌≢◌,
  ◌≤◌, ◌⊎◌,
}
use ru_shell.Shell.Lexer.{
  Bytes, Heap, LexResult, Token, amp, eof, lex_line, lexed, out_of_memory, semi, syntax_error,
}
use ru_shell.Shell.Lexer.Progress.{lex_line_terminates}
use ru_shell.Shell.Parser.{next_word, parse_validate, validate_rest}
use ru_shell.Shell.Segments.{
  Call, Exit, Segment, bad_pipeline, empty_stage, fault, finished, is_background, max_stages,
  next_segment, parse_stages, pipeline, run_lexed, run_line, run_segment, run_segments, run_stages,
  run_tokens,
}
use ru_shell.Shell.Segments.Good.{
  Good, Good-mono, Resumes, cut, next_word-cons, pipes, too_long, word_stage-Good,
}

abbrev pub Answer : ℕ → Segment → Type 0
Answer n fault = ⊥
Answer n bad_pipeline = max_stages ≤ n
Answer n (pipeline ss cur) = Resumes cur

Good-Answer : {n m : ℕ} {s : Segment} → Good n m s → Answer n s
Good-Answer (too_long h) = h
Good-Answer (cut ss cur r h) = r

line-next_word :
    (t : Token) (ts : List Token)
    → parse_validate (t ∷ ts) ≡ true
    → (t.type ≡ eof) ⊎ (next_word (t ∷ ts) ≡ true)
unfolding parse_validate validate_rest
line-next_word t ts h = ground arith

-- In a list that `parse_validate` accepts, the loop over a segment that does not begin with
-- TOK_EOF reads through no NULL; it refuses only a segment of `max_stages` pipes at least; and
-- what stands behind the `;` or `&` where it stops is again a list that `parse_validate` accepts.
pub parse_stages-Answer :
    (t : Token) (ts : List Token)
    → t.type ≢ eof
    → parse_validate (t ∷ ts) ≡ true
    → Answer (pipes (t ∷ ts)) (parse_stages [] empty_stage (t ∷ ts))
parse_stages-Answer t ts ne h = elim (line-next_word t ts h) [
  | inl e ↦ absurd (ne e)
  | inr x ↦ Good-Answer (
      Good-mono {n' = pipes (t ∷ ts)} {m' = length (t ∷ ts)} (omega arith) (omega arith)
        (word_stage-Good (t ∷ ts) [] x))
]

module _ {W : Type 0} (call : Call → W → W × Bool) where
  abbrev Finishes : (List Token → W → W × Exit) → ℕ → Type 0
  Finishes next m =
      (ts : List Token) (w : W)
      → parse_validate ts ≡ true
      → length ts < m
      → (next ts w).1 ≡ finished

  next_segment-finished :
      (next : List Token → W → W × Exit) (cur : List Token) (m : ℕ) (w : W)
      → Resumes cur
      → length cur ≤ m
      → Finishes next m
      → (next_segment call next cur w).1 ≡ finished
  unfolding next_segment
  next_segment-finished next [] m w r h k = refl
  next_segment-finished next (t ∷ ts) m w r h k =
      let resume = λ (e : (t.type ≡ semi) ⊎ (t.type ≡ amp)). k ts w (r e) (omega arith) in
      grind (arith, resume)

  run_segment-finished :
      {n m : ℕ} {s : Segment} (next : List Token → W → W × Exit) (w : W)
      → Good n m s
      → Finishes next m
      → (run_segment call next s w).1 ≡ finished
  unfolding run_segment
  run_segment-finished next w (too_long h) k = refl
  run_segment-finished {m = m} next w (cut ss cur r h) k =
      ground
        (arith, next_segment-finished next cur m (run_stages call ss (is_background cur) w).0 r h k)

  run_segments-finished :
      (f : ℕ) (ts : List Token) (w : W)
      → parse_validate ts ≡ true
      → length ts < f
      → (run_segments call f ts w).1 ≡ finished
  unfolding run_segments
  run_segments-finished zero ts w h bound = absurd (omega arith)
  run_segments-finished (suc f) [] w h bound = refl
  run_segments-finished (suc f) (t ∷ ts) w h bound = elim (line-next_word t ts h) [
    | inl e ↦ rw (e, run_segments)
    | inr x ↦
        rw ((next_word-cons t ts x).0, run_segments)
          (run_segment-finished (run_segments call f) w (word_stage-Good (t ∷ ts) [] x)
            (λ us v g b. run_segments-finished f us v g (omega arith)))
  ]

  run_tokens-finished :
      (command : Bytes) (items : List Token) (w : W)
      → (run_tokens call command items w).1 ≡ finished
  unfolding run_tokens
  run_tokens-finished command items w = elim (Bool-cases (parse_validate items)) [
    | inl h ↦
        rw (h, run_tokens)
          (ground (arith, run_segments-finished (suc (length items)) items w h (omega arith)))
    | inr h ↦ rw (h, run_tokens)
  ]

  run_lexed-finished :
      (command : Bytes) (r : LexResult) (w : W)
      → r ≢ LexResult.no_fuel
      → (run_lexed call command r w).1 ≡ finished
  unfolding run_lexed
  run_lexed-finished command (lexed tokens) w h = run_tokens-finished command tokens.items w
  run_lexed-finished command syntax_error w h = refl
  run_lexed-finished command out_of_memory w h = refl
  run_lexed-finished command LexResult.no_fuel w h = absurd (h refl)

  -- The work on a line finishes, whatever its bytes are, whatever the heap answers and whatever
  -- the calls do: the shell reads through no NULL token, and the fuel of the model suffices.
  pub run_line_finishes :
      (command : Bytes) (h : Heap) (w : W) → (run_line call command h w).1 ≡ finished
  unfolding run_line
  run_line_finishes command h w =
      run_lexed-finished command (lex_line command h) w (lex_line_terminates command h)
