-- ===== src/Shell/Segments/Good.antt =====
-- Segments that have no empty argument list, and the loop of c-shell/src/shell.c that makes them.
use ru_shell.Base.{
  Bool, Bool-cases, List, Option, [], ap, arith, false, inl, inr, leb, length, length-append, refl,
  suc, true, ℕ, ◌++◌, ◌+◌, ◌<◌, ◌==◌, ◌||◌, ◌∷◌, ◌≡◌, ◌≤◌, ◌⊎◌,
}
use ru_shell.Shell.Lexer.{Bytes, Token, amp, eof, gt, gtgt, lt, pipe, semi, word}
use ru_shell.Shell.Parser.{next_word, next_word_or_end, parse_validate, validate_rest}
use ru_shell.Shell.Segments.{
  Segment, Stage, Token-cases, add_arg, add_input, add_output, bad_pipeline, empty_stage,
  end_segment, input_file, max_stages, output_file, parse_stages, pipeline,
}

-- The pipes of the segment that begins a token list.
unfoldable pub pipes : List Token → ℕ
pipes [] = 0
pipes (t ∷ ts) =
    let rest = pipes ts in elim t.type [ pipe ↦ suc rest | eof ↦ 0 | semi ↦ 0 | amp ↦ 0 | _ ↦ rest ]

-- What the next segment starts with is a line again.
abbrev pub Resumes : List Token → Type 0
Resumes [] = Unit
Resumes (t ∷ ts) = (t.type ≡ semi) ⊎ (t.type ≡ amp) → parse_validate ts ≡ true

-- No fault; a refusal for `n` pipes at least; else the rest of a line, of `m` tokens at most.
pub data Good (n m : ℕ) : Segment → Type 0 where
  too_long : max_stages ≤ n → Good n m bad_pipeline
  cut :
      (ss : List Stage) (cur : List Token)
      → Resumes cur
      → length cur ≤ m
      → Good n m (pipeline ss cur)

pub Good-mono : {n n' m m' : ℕ} {s : Segment} → n ≤ n' → m ≤ m' → Good n m s → Good n' m' s
Good-mono p q (too_long h) = too_long (omega arith)
Good-mono p q (cut ss cur r h) = cut ss cur r (omega arith)

add_arg-ne : (s : Stage) (v : Option Bytes) → 0 < length (add_arg s v).argv
unfolding add_arg
add_arg-ne s v = ground (arith, length-append s.argv (v ∷ []))

add_input-argv : (s : Stage) (v : Option Bytes) → (add_input s v).argv ≡ s.argv
unfolding add_input
add_input-argv s v = ground arith

add_output-argv : (s : Stage) (a : Bool) (v : Option Bytes) → (add_output s a v).argv ≡ s.argv
unfolding add_output
add_output-argv s a v = ground arith

-- The pipes of the whole segment.
abbrev asked : List Stage → List Token → ℕ
asked before ts = length before + pipes ts

Good-here :
    {n m : ℕ} (before : List Stage) (s : Stage) (cur : List Token)
    → Resumes cur
    → length cur ≤ m
    → Good n m (end_segment before s cur)
unfolding end_segment
Good-here before s cur r h = cut _ cur r h

pub next_word-cons :
    (t : Token) (ts : List Token)
    → next_word (t ∷ ts) ≡ true
    → (t.type ≡ word) × (validate_rest ts ≡ true)
unfolding validate_rest
next_word-cons t ts h = ground arith

next_word-line : (ts : List Token) → next_word ts ≡ true → parse_validate ts ≡ true
unfolding parse_validate
next_word-line [] h = cc
next_word-line (t ∷ ts) h = ground arith

next_word_or_end-line : (ts : List Token) → next_word_or_end ts ≡ true → parse_validate ts ≡ true
unfolding parse_validate
next_word_or_end-line [] h = refl
next_word_or_end-line (t ∷ ts) h = ground arith

pipes-word : (t : Token) (ts : List Token) → t.type ≡ word → pipes (t ∷ ts) ≡ pipes ts
unfolding pipes
pipes-word t ts e = ground arith

-- At a pipe, given the rest of the segment.
pipe-Good :
    (before : List Stage) (s : Stage) (ts : List Token)
    → 0 < length s.argv
    → Good
        (asked (before ++ s ∷ []) ts)
        (length ts)
        (parse_stages (before ++ s ∷ []) empty_stage ts)
    → Good
        (length before + suc (pipes ts))
        (suc (length ts))
        (elim (length s.argv == 0 || leb max_stages (length before + 1)) [
          | true ↦ bad_pipeline
          | false ↦ parse_stages (before ++ s ∷ []) empty_stage ts
        ])
pipe-Good before s ts a g =
    elim (Bool-cases (length s.argv == 0 || leb max_stages (length before + 1))) [
      | inl e ↦ rw e (too_long (ground arith))
      | inr e ↦ rw e (Good-mono (omega (arith, length-append before (s ∷ []))) (omega arith) g)
    ]

mutual
  unfolding parse_stages validate_rest pipes

  parse_stages-Good :
      (ts : List Token) (before : List Stage) (s : Stage)
      → validate_rest ts ≡ true
      → 0 < length s.argv
      → Good (asked before ts) (length ts) (parse_stages before s ts)
  parse_stages-Good [] before s h a = Good-here before s [] tt (omega arith)
  parse_stages-Good (t ∷ ts) before s h a =
      Token-cases
        (λ t.
          validate_rest (t ∷ ts) ≡ true
          → Good (asked before (t ∷ ts)) (suc (length ts)) (parse_stages before s (t ∷ ts)))
        t
        (elim [
          | eof ↦ λ h. Good-here before s _ (λ x. ground arith) (omega arith)
          | semi ↦ λ h. Good-here before s _ (λ x. next_word-line ts h) (omega arith)
          | amp ↦ λ h. Good-here before s _ (λ x. next_word_or_end-line ts h) (omega arith)
          | word ↦ λ h.
              Good-mono (omega arith) (omega arith)
                (parse_stages-Good ts before _ h (add_arg-ne s _))
          | pipe ↦ λ h. pipe-Good before s ts a (word_stage-Good ts _ h)
          | lt ↦ λ h. Good-mono (omega arith) (omega arith) (input_file-Good ts before s h a)
          | gt ↦ λ h. Good-mono (omega arith) (omega arith) (output_file-Good ts before s _ h a)
          | gtgt ↦ λ h. Good-mono (omega arith) (omega arith) (output_file-Good ts before s _ h a)
        ])
        h

  pub word_stage-Good :
      (ts : List Token) (before : List Stage)
      → next_word ts ≡ true
      → Good (asked before ts) (length ts) (parse_stages before empty_stage ts)
  word_stage-Good [] before h = cc
  word_stage-Good (t ∷ ts) before h =
      let (e, v) = next_word-cons t ts h in
      rw (e, parse_stages)
        (Good-mono (omega (arith, pipes-word t ts e)) (omega arith)
          (parse_stages-Good ts before _ v (add_arg-ne empty_stage t.value)))

  input_file-Good :
      (ts : List Token) (before : List Stage) (s : Stage)
      → next_word ts ≡ true
      → 0 < length s.argv
      → Good (asked before ts) (length ts) (input_file before s ts)
  input_file-Good [] before s h a = cc
  input_file-Good (t ∷ ts) before s h a =
      let (e, v) = next_word-cons t ts h in
      Good-mono (omega (arith, pipes-word t ts e)) (omega arith)
        (parse_stages-Good ts before _ v (omega (arith, ap length (add_input-argv s t.value))))

  output_file-Good :
      (ts : List Token) (before : List Stage) (s : Stage) (x : Bool)
      → next_word ts ≡ true
      → 0 < length s.argv
      → Good (asked before ts) (length ts) (output_file before s x ts)
  output_file-Good [] before s x h a = cc
  output_file-Good (t ∷ ts) before s x h a =
      let (e, v) = next_word-cons t ts h in
      Good-mono (omega (arith, pipes-word t ts e)) (omega arith)
        (parse_stages-Good ts before _ v (omega (arith, ap length (add_output-argv s x t.value))))
