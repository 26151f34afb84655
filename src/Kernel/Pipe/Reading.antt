-- ===== src/Kernel/Pipe/Reading.antt =====
-- What a call of `piperead` of xv6/kernel/pipe.c moves.
use ru_shell.Base.{
  ==_iff, Bool, Bool-cases, List, [], ap, arith, false, inl, inr, length, map, none, refl, some,
  subst, suc, true, ℕ, ◌%◌, ◌&&◌, ◌++◌, ◌+◌, ◌==◌, ◌∙◌, ◌∷◌, ◌≡◌, ◌≢◌, ◌⊎◌,
}
use ru_shell.Kernel.Pipe.{
  Pipe, RunEnd, count_or_fail, pipe_size, piperead, read_loop, returns, sleeps_at,
}
use ru_shell.Kernel.Pipe.Queue.{IsPipe, contents, empty-contents, pop, pop-contents}

-- Why a read of at most `asked` bytes ends with `n` of them, and the pipe `q`.
pub data ReadEnds (n : ℕ) (q : Pipe) : List Bool → RunEnd → Type 0 where
  all_read : ReadEnds n q [] (returns (some n))
  ran_empty : (rest : List Bool) → contents q ≡ [] → ReadEnds n q rest (returns (some n))
  copyout_failed : (rest : List Bool) → ReadEnds n q (false ∷ rest) (count_or_fail n)

-- The bytes `out` are taken from the front of the queue.
pub record Reads (bs : List Bool) (i : ℕ) (p : Pipe) (e : RunEnd) (out : List ℕ) (q : Pipe)
    : Type 0 where
  pub rest : List Bool
  pub split : bs ≡ map (λ _. true) out ++ rest
  pub taken : contents p ≡ out ++ contents q
  pub valid : IsPipe q
  pub ends : ReadEnds (i + length out) q rest e

read_stops :
    (bs : List Bool) (i : ℕ) (p : Pipe) (e : RunEnd)
    → IsPipe p
    → ReadEnds i p bs e
    → Reads bs i p e [] p
read_stops bs i p e v t = record {
  rest = bs;
  split = refl;
  taken = refl;
  valid = v;
  ends = subst (λ n. ReadEnds n p bs e) (plus_zero i) t;
}
  where
    plus_zero : (n : ℕ) → n ≡ n + 0
    plus_zero n = omega arith

read_later :
    (bs : List Bool) (i : ℕ) (p : Pipe) (e : RunEnd) (out : List ℕ) (q : Pipe)
    → contents p ≡ p.data_at (p.nread % pipe_size) ∷ contents (pop p)
    → Reads bs (i + 1) (pop p) e out q
    → Reads (true ∷ bs) i p e (p.data_at (p.nread % pipe_size) ∷ out) q
read_later bs i p e out q c r = record {
  rest = r.rest;
  split = ap (λ l. true ∷ l) r.split;
  taken = c ∙ ap (λ l. p.data_at (p.nread % pipe_size) ∷ l) r.taken;
  valid = r.valid;
  ends = subst (λ n. ReadEnds n q r.rest e) (sum i (length out)) r.ends;
}
  where
    sum : (i n : ℕ) → i + 1 + n ≡ i + suc n
    sum i n = omega arith

pub read_loop-Reads :
    (bs : List Bool) (i : ℕ) (p : Pipe)
    → IsPipe p
    → (let (e, out, q) = read_loop bs i p in Reads bs i p e out q)
unfolding read_loop
read_loop-Reads [] i p v = read_stops [] i p (returns (some i)) v all_read
read_loop-Reads (b ∷ bs) i p v =
    let ih = read_loop-Reads bs (i + 1) (pop p) in
    elim (Bool-cases (p.nread == p.nwrite)) [
      | inl e ↦
          rw (read_loop, e)
            (read_stops (b ∷ bs) i p (returns (some i)) v
              (ran_empty (b ∷ bs) (empty-contents p v ((==_iff p.nread p.nwrite).0 e))))
      | inr e ↦
          let (v', c) = pop-contents p v (apart p.nread p.nwrite e) in
          elim (Bool-cases b) [
            | inl f ↦ rw (f, read_loop, e) (read_later bs i p _ _ _ c (ih v'))
            | inr f ↦
                rw (f, read_loop, e)
                  (read_stops (false ∷ bs) i p (count_or_fail i) v (copyout_failed bs))
          ]
    ]
  where
    apart : (a b : ℕ) → (a == b) ≡ false → a ≢ b
    apart a b e = ground arith

-- A call of `piperead`.
pub data ReadCall (killed : Bool) (bs : List Bool) (p : Pipe)
    : RunEnd → List ℕ → Pipe → Type 0 where
  interrupted :
      p.nread ≡ p.nwrite
      → p.writeopen ≡ true
      → killed ≡ true
      → ReadCall killed bs p (returns none) [] p
  waits :
      p.nread ≡ p.nwrite
      → p.writeopen ≡ true
      → killed ≡ false
      → ReadCall killed bs p (sleeps_at 0) [] p
  reads :
      (e : RunEnd) (out : List ℕ) (q : Pipe)
      → (p.nread ≢ p.nwrite) ⊎ (p.writeopen ≡ false)
      → Reads bs 0 p e out q
      → ReadCall killed bs p e out q

-- `piperead` on an empty pipe with a writer sleeps, or returns -1 if the caller is killed. Else it
-- takes bytes from the front of the queue, in their order, until it has those it was asked for, the
-- queue is empty, or a copyout fails, which takes no byte.
pub piperead-ReadCall :
    (killed : Bool) (bs : List Bool) (p : Pipe)
    → IsPipe p
    → (let (e, out, q) = piperead killed bs p in ReadCall killed bs p e out q)
unfolding piperead
piperead-ReadCall killed bs p v = elim (Bool-cases (p.nread == p.nwrite && p.writeopen)) [
  | inl e ↦ elim (Bool-cases killed) [
    | inl k ↦
        rw (piperead, e, k) (interrupted (same _ _ p.writeopen e) (right _ p.writeopen e) refl)
    | inr k ↦ rw (piperead, e, k) (waits (same _ _ p.writeopen e) (right _ p.writeopen e) refl)
  ]
  | inr e ↦
      rw (piperead, e) (reads _ _ _ (why p.nread p.nwrite p.writeopen e) (read_loop-Reads bs 0 p v))
]
  where
    same : (a b : ℕ) (w : Bool) → (a == b && w) ≡ true → a ≡ b
    same a b w e = ground arith

    right : (b w : Bool) → (b && w) ≡ true → w ≡ true
    right b w e = ground arith

    why : (a b : ℕ) (w : Bool) → (a == b && w) ≡ false → (a ≢ b) ⊎ (w ≡ false)
    why a b w e = ground arith
