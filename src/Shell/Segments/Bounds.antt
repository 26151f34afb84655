-- ===== src/Shell/Segments/Bounds.antt =====
-- The arrays of the loop over a segment are never written out of bounds.
use ru_shell.Base.{
  Bool, Bool-cases, List, Option, [], arith, false, inl, inr, leb, length, length-append, true,
  ◌++◌, ◌+◌, ◌<◌, ◌==◌, ◌||◌, ◌∷◌, ◌≤◌,
}
use ru_shell.Shell.Lexer.{Bytes, Token, amp, eof, gt, gtgt, lt, pipe, semi, word}
use ru_shell.Shell.Segments.{
  Segment, Stage, Token-cases, add_arg, add_input, add_output, bad_pipeline, empty_stage,
  end_segment, fault, input_file, max_args, max_stages, output_file, parse_stages, pipeline,
}

-- Each list of a stage leaves room in its array of `max_args`, for the NULL behind `argv` too.
pub record InBounds (s : Stage) : Type 0 where
  pub args : length s.argv < max_args
  pub inputs : length s.input_files < max_args
  pub outputs : length s.output_files < max_args

abbrev pub AllInBounds : List Stage → Type 0
AllInBounds [] = Unit
AllInBounds (s ∷ ss) = InBounds s × AllInBounds ss

-- The stages of a result fill their array at most.
pub data Held : Segment → Type 0 where
  held_fault : Held fault
  held_bad : Held bad_pipeline
  held :
      (ss : List Stage) (cur : List Token)
      → AllInBounds ss
      → length ss ≤ max_stages
      → Held (pipeline ss cur)

AllInBounds-append :
    (ss : List Stage) (s : Stage) → AllInBounds ss → InBounds s → AllInBounds (ss ++ s ∷ [])
AllInBounds-append [] s a b = (b, tt)
AllInBounds-append (t ∷ ss) s a b = (a.0, AllInBounds-append ss s a.1 b)

empty_stage-InBounds : InBounds empty_stage
empty_stage-InBounds = record { args = omega arith; inputs = omega arith; outputs = omega arith }

add_arg-InBounds : (s : Stage) (v : Option Bytes) → InBounds s → InBounds (add_arg s v)
unfolding add_arg
add_arg-InBounds s v b = ground (arith, length-append s.argv (v ∷ []))

add_input-InBounds : (s : Stage) (v : Option Bytes) → InBounds s → InBounds (add_input s v)
unfolding add_input
add_input-InBounds s v b = ground (arith, length-append s.input_files (v ∷ []))

add_output-InBounds :
    (s : Stage) (a : Bool) (v : Option Bytes) → InBounds s → InBounds (add_output s a v)
unfolding add_output
add_output-InBounds s a v b = ground (arith, length-append s.output_files ((v, a) ∷ []))

end_segment-Held :
    (before : List Stage) (s : Stage) (cur : List Token)
    → AllInBounds before
    → InBounds s
    → length before < max_stages
    → Held (end_segment before s cur)
unfolding end_segment
end_segment-Held before s cur a b h = elim (Bool-cases (length s.argv == 0)) [
  | inl e ↦ rw e (held [] cur tt (omega arith))
  | inr e ↦
      rw e (
        held _ cur (AllInBounds-append before s a b) (omega (arith, length-append before (s ∷ []))))
]

pipe-Held :
    (before : List Stage) (s : Stage) (ts : List Token)
    → (length before + 1 < max_stages → Held (parse_stages (before ++ s ∷ []) empty_stage ts))
    → Held (elim (length s.argv == 0 || leb max_stages (length before + 1)) [
      | true ↦ bad_pipeline
      | false ↦ parse_stages (before ++ s ∷ []) empty_stage ts
    ])
pipe-Held before s ts k =
    elim (Bool-cases (length s.argv == 0 || leb max_stages (length before + 1))) [
      | inl e ↦ rw e held_bad
      | inr e ↦ rw e (k (ground arith))
    ]

mutual
  unfolding parse_stages

  parse_stages-Held :
      (ts : List Token) (before : List Stage) (s : Stage)
      → AllInBounds before
      → InBounds s
      → length before < max_stages
      → Held (parse_stages before s ts)
  parse_stages-Held [] before s a b h = end_segment-Held before s [] a b h
  parse_stages-Held (t ∷ ts) before s a b h =
      Token-cases (λ t. Held (parse_stages before s (t ∷ ts))) t
        (elim [
          | eof ↦ end_segment-Held before s _ a b h
          | semi ↦ end_segment-Held before s _ a b h
          | amp ↦ end_segment-Held before s _ a b h
          | word ↦ parse_stages-Held ts before _ a (add_arg-InBounds s t.value b) h
          | pipe ↦ pipe-Held before s ts λ k.
              parse_stages-Held ts _ empty_stage (AllInBounds-append before s a b)
                empty_stage-InBounds (omega (arith, length-append before (s ∷ [])))
          | lt ↦ input_file-Held ts before s a b h
          | gt ↦ output_file-Held ts before s false a b h
          | gtgt ↦ output_file-Held ts before s true a b h
        ])

  input_file-Held :
      (ts : List Token) (before : List Stage) (s : Stage)
      → AllInBounds before
      → InBounds s
      → length before < max_stages
      → Held (input_file before s ts)
  input_file-Held [] before s a b h = held_fault
  input_file-Held (t ∷ ts) before s a b h =
      parse_stages-Held ts before _ a (add_input-InBounds s t.value b) h

  output_file-Held :
      (ts : List Token) (before : List Stage) (s : Stage) (x : Bool)
      → AllInBounds before
      → InBounds s
      → length before < max_stages
      → Held (output_file before s x ts)
  output_file-Held [] before s x a b h = held_fault
  output_file-Held (t ∷ ts) before s x a b h =
      parse_stages-Held ts before _ a (add_output-InBounds s x t.value b) h

-- Whatever the tokens are, a segment has at most `max_stages` stages, and each keeps its
-- arguments, inputs and outputs, with the NULL behind the arguments, inside arrays of `max_args`.
pub parse_stages_bounds : (ts : List Token) → Held (parse_stages [] empty_stage ts)
parse_stages_bounds ts = parse_stages-Held ts [] empty_stage tt empty_stage-InBounds (omega arith)
