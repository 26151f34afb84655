-- ===== src/Kernel/Sched/Slice.antt =====
-- When the timer interrupt takes the CPU from a process under SCHED_MLFQ.
use ru_shell.Base.{
  Bool, Bool-cases, List, Option, [], arith, false, get_elem?, if◌then◌else◌, inl, inr, leb, ltb,
  ltb→lt, lt→ltb, min, refl, some, subst, suc, sym, true, zero, ℕ, ◌&&◌, ◌+◌, ◌<◌, ◌||◌, ◌∷◌, ◌≡◌,
  ◌≤◌,
}
use ru_shell.Kernel.Proc.{Kernel, Proc, is_runnable, mlfq, runnable, running}
use ru_shell.Kernel.Sched.{
  any_higher, demote, higher_priority_proc_runnable, slice_limit, timer, timer_mlfq, yield,
}

-- There is a RUNNABLE process in a queue above `q`.
abbrev pub SomeHigher : ℕ → List Proc → Type 0
SomeHigher q ps =
    (j : ℕ) × (p : Proc) × (get_elem? ps j ≡ some p) × (is_runnable p.state ≡ true) × (p.queue < q)

SomeHigher-later : (q : ℕ) (p : Proc) (ps : List Proc) → SomeHigher q ps → SomeHigher q (p ∷ ps)
SomeHigher-later q p ps (j, r, g, a, b) = (suc j, r, g, a, b)

any_higher-SomeHigher : (q : ℕ) (ps : List Proc) → any_higher q ps ≡ true → SomeHigher q ps
unfolding any_higher
any_higher-SomeHigher q [] e = absurd (cc)
any_higher-SomeHigher q (p ∷ ps) e = elim (Bool-cases (is_runnable p.state && ltb p.queue q)) [
  | inl y ↦ (0, p, refl, and_left _ _ y, ltb→lt p.queue q (and_right _ _ y))
  | inr y ↦ SomeHigher-later q p ps (any_higher-SomeHigher q ps (or_right _ _ y e))
]
  where
    and_left : (a b : Bool) → (a && b) ≡ true → a ≡ true
    and_left a b e = ground arith

    and_right : (a b : Bool) → (a && b) ≡ true → b ≡ true
    and_right a b e = ground arith

    or_right : (a b : Bool) → a ≡ false → (a || b) ≡ true → b ≡ true
    or_right a b e = ground arith

SomeHigher-any_higher : (q : ℕ) (ps : List Proc) → SomeHigher q ps → any_higher q ps ≡ true
unfolding any_higher
SomeHigher-any_higher q [] (j, r, g, a, b) = absurd (cc)
SomeHigher-any_higher q (p ∷ ps) (zero, r, g, a, b) =
    let x : p ≡ r = cc in
    here (subst (λ s. is_runnable s.state ≡ true) (sym x) a)
      (lt→ltb p.queue q (subst (λ s. s.queue < q) (sym x) b))
  where
    here : is_runnable p.state ≡ true → ltb p.queue q ≡ true → any_higher q (p ∷ ps) ≡ true
    here y z = rw (any_higher, y, z) refl
SomeHigher-any_higher q (p ∷ ps) (suc j, r, g, a, b) =
    later (SomeHigher-any_higher q ps (j, r, g, a, b))
  where
    later : any_higher q ps ≡ true → any_higher q (p ∷ ps) ≡ true
    later y = elim (Bool-cases (is_runnable p.state && ltb p.queue q)) [
      | inl z ↦ rw (any_higher, z) refl
      | inr z ↦ rw (any_higher, z) y
    ]

-- The running process `p` on the clock: past the limit of its slice it yields, one queue further
-- down; short of it, it yields in its queue if a higher one has a RUNNABLE process; else it runs on.
pub data SliceEnd (limit : ℕ) (k : Kernel) (p : Proc) : Option (Proc × Bool) → Type 0 where
  used_up :
      limit ≤ p.ticks_in_slice
      → SliceEnd limit k p (
          some (
            record p {
              state = runnable;
              queue = min 3 (p.queue + 1);
              ticks_in_slice = 0;
              enter_time = k.ticks;
            },
            true,
          ))
  preempted :
      p.ticks_in_slice < limit
      → SomeHigher p.queue k.procs
      → SliceEnd limit k p (some (record p { state = runnable; enter_time = k.ticks }, true))
  goes_on :
      p.ticks_in_slice < limit → ¬ SomeHigher p.queue k.procs → SliceEnd limit k p (some (p, false))

pub slice_limit-some : (q : ℕ) → q < 4 → (l : ℕ) × (get_elem? slice_limit q ≡ some l)
slice_limit-some zero h = (1, refl)
slice_limit-some (suc zero) h = (4, refl)
slice_limit-some (suc (suc zero)) h = (8, refl)
slice_limit-some (suc (suc (suc zero))) h = (16, refl)
slice_limit-some (suc (suc (suc (suc q)))) h = absurd (omega arith)

next_queue : (q : ℕ) → q < 4 → (if ltb q 3 then q + 1 else q) ≡ min 3 (q + 1)
next_queue q h = ground arith

timer_mlfq-used_up :
    (higher : Bool) (now limit : ℕ) (p : Proc)
    → p.state ≡ running
    → p.queue < 4
    → get_elem? slice_limit p.queue ≡ some limit
    → leb limit p.ticks_in_slice ≡ true
    → timer_mlfq higher now p
      ≡ some (
        record p {
          state = runnable;
          queue = min 3 (p.queue + 1);
          ticks_in_slice = 0;
          enter_time = now;
        },
        true,
      )
unfolding timer_mlfq demote yield
timer_mlfq-used_up higher now limit p run q e y =
    rw (run, timer_mlfq, e, y, next_queue p.queue q) refl

timer_mlfq-in_slice :
    (higher : Bool) (now limit : ℕ) (p : Proc)
    → p.state ≡ running
    → get_elem? slice_limit p.queue ≡ some limit
    → leb limit p.ticks_in_slice ≡ false
    → timer_mlfq higher now p
      ≡ some
          (if higher then (record p { state = runnable; enter_time = now }, true) else (p, false))
unfolding timer_mlfq yield
timer_mlfq-in_slice higher now limit p run e y = ground arith

leb→≤ : (a b : ℕ) → leb a b ≡ true → a ≤ b
leb→≤ a b e = ground arith

leb→< : (a b : ℕ) → leb a b ≡ false → b < a
leb→< a b e = ground arith

-- Under SCHED_MLFQ the timer gives a RUNNING process the slices 1, 4, 8 and 16 of its queue 0, 1, 2
-- and 3. It yields exactly if that slice is used up, with a move to the next lower queue (or 3
-- again), or a higher queue has a RUNNABLE process. The read of `slice_limit` is in bounds.
pub timer-SliceEnd :
    (k : Kernel) (p : Proc)
    → p.state ≡ running
    → p.queue < 4
    → (limit : ℕ) × (get_elem? slice_limit p.queue ≡ some limit)
      × SliceEnd limit k p (timer mlfq k p)
unfolding timer higher_priority_proc_runnable
timer-SliceEnd k p run q = let (limit, e) = slice_limit-some p.queue q in (limit, e, ends limit e)
  where
    ends :
        (limit : ℕ)
        → get_elem? slice_limit p.queue ≡ some limit
        → SliceEnd limit k p (timer mlfq k p)
    ends limit e = elim (Bool-cases (leb limit p.ticks_in_slice)) [
      | inl y ↦
          subst (SliceEnd limit k p) (sym (timer_mlfq-used_up _ k.ticks limit p run q e y))
            (used_up (leb→≤ limit p.ticks_in_slice y))
      | inr y ↦
          subst (SliceEnd limit k p) (sym (timer_mlfq-in_slice _ k.ticks limit p run e y))
            (elim (Bool-cases (any_higher p.queue k.procs)) [
              | inl z ↦ rw z (
                  preempted (leb→< limit p.ticks_in_slice y)
                    (any_higher-SomeHigher p.queue k.procs z))
              | inr z ↦ rw z (
                  goes_on (leb→< limit p.ticks_in_slice y)
                    (λ h. let x = SomeHigher-any_higher p.queue k.procs h in absurd (cc)))
            ])
    ]
