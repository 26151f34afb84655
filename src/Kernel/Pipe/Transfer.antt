-- ===== src/Kernel/Pipe/Transfer.antt =====
-- What a run of `pipewrite` of xv6/kernel/pipe.c moves.
use ru_shell.Kernel.Proc.{wrap}
use ru_shell.Base.{
  ==_iff, Bool, Bool-cases, List, Option, [], ap, arith, false, if◌then◌else◌, inl, inr, length,
  map, none, not, refl, some, subst, suc, sym, true, ℕ, ◌++◌, ◌+◌, ◌<◌, ◌==◌, ◌||◌, ◌∙◌, ◌∷◌, ◌≡◌,
  ◌≢◌, ◌≤◌, ◌⊎◌,
}
use ru_shell.Kernel.Pipe.{
  Pipe, RunEnd, count_or_fail, pipe_size, pipewrite, push, returns, sleeps_at,
}
use ru_shell.Kernel.Pipe.Queue.{IsPipe, contents, count, full_iff, push-contents}

-- The pipe has a reader, and the caller is not killed at byte `n`.
abbrev pub GoesOn : (ℕ → Bool) → ℕ → Pipe → Type 0
GoesOn killed n q = (q.readopen ≡ true) × (killed n ≡ false)

-- Why a run of `pipewrite` ends with `n` bytes written, `rest` left and the pipe `q`.
pub data WriteEnds (killed : ℕ → Bool) (n : ℕ) (q : Pipe) : List (Option ℕ) → RunEnd → Type 0 where
  all_written : WriteEnds killed n q [] (returns (some n))
  given_up :
      (c : Option ℕ) (rest : List (Option ℕ))
      → (q.readopen ≡ false) ⊎ (killed n ≡ true)
      → WriteEnds killed n q (c ∷ rest) (returns none)
  blocked :
      (c : Option ℕ) (rest : List (Option ℕ))
      → GoesOn killed n q
      → count q ≡ pipe_size
      → WriteEnds killed n q (c ∷ rest) (sleeps_at n)
  copyin_failed :
      (rest : List (Option ℕ))
      → GoesOn killed n q
      → count q < pipe_size
      → WriteEnds killed n q (none ∷ rest) (if n == 0 then returns none else returns (some n))

-- A run from byte `i` on appends the bytes `written`, the first of those asked for, at each of which
-- there is a reader and the caller is not killed.
pub record Writes (killed : ℕ → Bool) (cs : List (Option ℕ)) (i : ℕ) (p : Pipe) (e : RunEnd)
    (q : Pipe) : Type 0 where
  pub written : List ℕ
  pub rest : List (Option ℕ)
  pub split : cs ≡ map some written ++ rest
  pub appended : contents q ≡ contents p ++ written
  pub valid : IsPipe q
  pub alive : (j : ℕ) → i ≤ j → j < i + length written → GoesOn killed j p
  pub ends : WriteEnds killed (i + length written) q rest e

abbrev blocks : (ℕ → Bool) → ℕ → Pipe → Bool
blocks killed i p = not p.readopen || killed i

stops :
    (killed : ℕ → Bool) (cs : List (Option ℕ)) (i : ℕ) (p : Pipe) (e : RunEnd)
    → IsPipe p
    → WriteEnds killed i p cs e
    → Writes killed cs i p e p
stops killed cs i p e v t = record {
  written = [];
  rest = cs;
  split = refl;
  appended = append_nil (contents p);
  valid = v;
  alive = λ j l u. absurd (omega (arith, l, u));
  ends = subst (λ n. WriteEnds killed n p cs e) (plus_zero i) t;
}
  where
    plus_zero : (n : ℕ) → n ≡ n + 0
    plus_zero n = omega arith

    append_nil : (xs : List ℕ) → xs ≡ xs ++ []
    append_nil [] = refl
    append_nil (x ∷ xs) = ap (λ l. x ∷ l) (append_nil xs)

later :
    (killed : ℕ → Bool) (ch : ℕ) (cs : List (Option ℕ)) (i : ℕ) (p : Pipe) (e : RunEnd) (q : Pipe)
    → GoesOn killed i p
    → contents (push ch p) ≡ contents p ++ (ch ∷ [])
    → Writes killed cs (i + 1) (push ch p) e q
    → Writes killed (some ch ∷ cs) i p e q
unfolding push
later killed ch cs i p e q g c w = record {
  written = ch ∷ w.written;
  rest = w.rest;
  split = ap (λ l. some ch ∷ l) w.split;
  appended = w.appended ∙ ap (λ l. l ++ w.written) c ∙ append_assoc (contents p);
  valid = w.valid;
  alive = λ j l u. elim (Bool-cases (j == i)) [
    | inl same ↦ subst (λ n. GoesOn killed n p) (sym ((==_iff j i).0 same)) g
    | inr apart ↦ w.alive j (ground (arith, l, apart)) (omega (arith, u))
  ];
  ends = subst (λ n. WriteEnds killed n q w.rest e) (sum i (length w.written)) w.ends;
}
  where
    sum : (i n : ℕ) → i + 1 + n ≡ i + suc n
    sum i n = omega arith

    append_assoc : (xs : List ℕ) → (xs ++ (ch ∷ [])) ++ w.written ≡ xs ++ (ch ∷ w.written)
    append_assoc [] = refl
    append_assoc (x ∷ xs) = ap (λ l. x ∷ l) (append_assoc xs)

-- The two tests before a byte.
not_full : (p : Pipe) → IsPipe p → p.nwrite ≢ wrap (p.nread + pipe_size) → count p < pipe_size
not_full p v n =
    let r = v.room in let x : count p ≢ pipe_size = λ e. n ((full_iff p v).1 e) in omega arith

guarded :
    (killed : ℕ → Bool) (c : Option ℕ) (cs : List (Option ℕ)) (i : ℕ) (p : Pipe) (r : RunEnd × Pipe)
    → IsPipe p
    → (GoesOn killed i p
        → p.nwrite ≢ wrap (p.nread + pipe_size)
        → Writes killed (c ∷ cs) i p r.0 r.1)
    → (let t =
          if not p.readopen || killed i
          then (returns none, p)
          else if p.nwrite == wrap (p.nread + pipe_size)
          then (sleeps_at i, p)
          else r in
        Writes killed (c ∷ cs) i p t.0 t.1)
guarded killed c cs i p r v go = elim (Bool-cases (not p.readopen || killed i)) [
  | inl e ↦
      rw e
        (stops killed (c ∷ cs) i p (returns none) v (given_up c cs (why p.readopen (killed i) e)))
  | inr e ↦ elim (Bool-cases (p.nwrite == wrap (p.nread + pipe_size))) [
    | inl f ↦
        rw (e, f)
          (stops killed (c ∷ cs) i p (sleeps_at i) v
            (blocked c cs (on p.readopen (killed i) e) ((full_iff p v).0 ((==_iff _ _).0 f))))
    | inr f ↦ rw (e, f) (go (on p.readopen (killed i) e) (apart _ _ f))
  ]
]
  where
    why : (a b : Bool) → (not a || b) ≡ true → (a ≡ false) ⊎ (b ≡ true)
    why a b e = ground arith

    on : (a b : Bool) → (not a || b) ≡ false → (a ≡ true) × (b ≡ false)
    on a b e = ground arith

    apart : (a b : ℕ) → (a == b) ≡ false → a ≢ b
    apart a b e = ground arith

-- A run of `pipewrite` from byte `i` on appends to the queue the first of the bytes that it is
-- asked to write, and no other; at each of them there is a reader and the caller is not killed. It
-- ends when all are written, or with -1 when no reader is left or the caller is killed before a
-- byte that is still to be written. Else it sleeps if the pipe is full, and returns the count, or
-- -1 for no byte, if there is room and the copyin fails.
pub pipewrite-Writes :
    (killed : ℕ → Bool) (cs : List (Option ℕ)) (i : ℕ) (p : Pipe)
    → IsPipe p
    → Writes killed cs i p (pipewrite killed cs i p).0 (pipewrite killed cs i p).1
unfolding pipewrite
pipewrite-Writes killed [] i p v = stops killed [] i p (returns (some i)) v all_written
pipewrite-Writes killed (none ∷ cs) i p v =
    guarded killed none cs i p (count_or_fail i, p) v
      (λ g n.
        stops killed (none ∷ cs) i p (count_or_fail i) v (copyin_failed cs g (not_full p v n)))
pipewrite-Writes killed (some ch ∷ cs) i p v =
    let ih = pipewrite-Writes killed cs (i + 1) (push ch p) in
    guarded killed (some ch) cs i p (pipewrite killed cs (i + 1) (push ch p)) v (λ g n.
      let l = not_full p v n in
      let (v', c) = push-contents ch p v l in later killed ch cs i p _ _ g c (ih v'))
