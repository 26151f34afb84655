-- ===== src/Kernel/Sched/RoundRobin.antt =====
-- Where the round-robin loop goes on, and that each scheduler picks a runnable process.
use ru_shell.Base.{
  Bool, Bool-cases, List, Option, [], arith, false, get_elem?, inl, inr, leb, none, refl, some,
  subst, suc, sym, true, zero, ℕ, ◌&&◌, ◌+◌, ◌<◌, ◌∷◌, ◌≡◌, ◌≤◌, ◌⊎◌,
}
use ru_shell.Kernel.Proc.{Policy, Proc, fifo, is_runnable, mlfq, round_robin}
use ru_shell.Kernel.Sched.{next_runnable, pick}
use ru_shell.Kernel.Sched.Pick.{Picks, PicksOldest, pick_fifo-PicksOldest, pick_mlfq-Picks}

-- Entry `i`, process `b`, is the first runnable one at `from` or later.
pub record IsFollowing (from : ℕ) (ps : List Proc) (i : ℕ) (b : Proc) : Type 0 where
  pub found : get_elem? ps i ≡ some b
  pub runs : is_runnable b.state ≡ true
  pub onward : from ≤ i
  pub first :
      (j : ℕ) (p : Proc) → get_elem? ps j ≡ some p → is_runnable p.state ≡ true → from ≤ j → i ≤ j

abbrev pub PicksFollowing : ℕ → List Proc → Option (ℕ × Proc) → Type 0
PicksFollowing from ps (some (i, b)) = IsFollowing from ps i b
PicksFollowing from ps none =
    (j : ℕ) (p : Proc) → get_elem? ps j ≡ some p → is_runnable p.state ≡ true → j < from

-- The list `ps` stands at the indices from `k` on.
record Onward (from k : ℕ) (ps : List Proc) (i : ℕ) (b : Proc) : Type 0 where
  at : ℕ
  at_is : i ≡ k + at
  found : get_elem? ps at ≡ some b
  runs : is_runnable b.state ≡ true
  onward : from ≤ i
  first :
      (j : ℕ) (p : Proc)
      → get_elem? ps j ≡ some p
      → is_runnable p.state ≡ true
      → from ≤ k + j
      → i ≤ k + j

abbrev OnwardIn : ℕ → ℕ → List Proc → Option (ℕ × Proc) → Type 0
OnwardIn from k ps (some (i, b)) = Onward from k ps i b
OnwardIn from k ps none =
    (j : ℕ) (p : Proc) → get_elem? ps j ≡ some p → is_runnable p.state ≡ true → k + j < from

passed :
    (from k : ℕ) (p q : Proc)
    → (leb from k && is_runnable p.state) ≡ false
    → some p ≡ some q
    → is_runnable q.state ≡ true
    → k < from
passed from k p q e x r = go (leb from k) refl e
  where
    runs : is_runnable p.state ≡ true
    runs = let y : p ≡ q = cc in subst (λ t. is_runnable t.state ≡ true) (sym y) r

    go : (b : Bool) → leb from k ≡ b → (b && is_runnable p.state) ≡ false → k < from
    go true h f = absurd (ground (arith, runs))
    go false h f = ground arith

OnwardIn-skip :
    (from k : ℕ) (p : Proc) (ps : List Proc) (r : Option (ℕ × Proc))
    → (leb from k && is_runnable p.state) ≡ false
    → OnwardIn from (k + 1) ps r
    → OnwardIn from k (p ∷ ps) r
OnwardIn-skip from k p ps none e t = go
  where
    go :
        (j : ℕ) (q : Proc)
        → get_elem? (p ∷ ps) j ≡ some q
        → is_runnable q.state ≡ true
        → k + j < from
    go zero q g r = omega (arith, passed from k p q e g r)
    go (suc j) q g r = let h = t j q g r in omega arith
OnwardIn-skip from k p ps (some (i, b)) e t = record {
  at = suc t.at;
  at_is = omega (arith, t.at_is);
  found = t.found;
  runs = t.runs;
  onward = t.onward;
  first = go;
}
  where
    go :
        (j : ℕ) (q : Proc)
        → get_elem? (p ∷ ps) j ≡ some q
        → is_runnable q.state ≡ true
        → from ≤ k + j
        → i ≤ k + j
    go zero q g r o = absurd (omega (arith, passed from k p q e g r))
    go (suc j) q g r o = let h = t.first j q g r (omega arith) in omega arith

OnwardIn-take :
    (from k : ℕ) (p : Proc) (ps : List Proc)
    → (leb from k && is_runnable p.state) ≡ true
    → Onward from k (p ∷ ps) k p
OnwardIn-take from k p ps e = record {
  at = 0;
  at_is = omega arith;
  found = refl;
  runs = ground arith;
  onward = ground arith;
  first = λ j q g r o. omega arith;
}

next_runnable-OnwardIn :
    (from k : ℕ) (ps : List Proc) → OnwardIn from k ps (next_runnable from k ps)
unfolding next_runnable
next_runnable-OnwardIn from k [] = λ j p g r. cc
next_runnable-OnwardIn from k (p ∷ ps) = elim (Bool-cases (leb from k && is_runnable p.state)) [
  | inl e ↦ rw (e, next_runnable) (OnwardIn-take from k p ps e)
  | inr e ↦
      rw (e, next_runnable) (OnwardIn-skip from k p ps _ e (next_runnable-OnwardIn from (k + 1) ps))
]

PicksFollowing-of :
    (from : ℕ) (ps : List Proc) (r : Option (ℕ × Proc))
    → OnwardIn from 0 ps r
    → PicksFollowing from ps r
PicksFollowing-of from ps none t = λ j p g r. let h = t j p g r in omega arith
PicksFollowing-of from ps (some (i, b)) t = record {
  found = let x : i ≡ t.at = omega (arith, t.at_is) in rw x t.found;
  runs = t.runs;
  onward = t.onward;
  first = λ j p g r o. let h = t.first j p g r (omega arith) in omega arith;
}

-- The round-robin loop goes on from index `from` to the first runnable process there or later;
-- it leaves the loop exactly if there is none.
pub pick_round_robin-PicksFollowing :
    (from : ℕ) (ps : List Proc) → PicksFollowing from ps (pick round_robin from ps)
unfolding pick
pick_round_robin-PicksFollowing from ps =
    PicksFollowing-of from ps _ (next_runnable-OnwardIn from 0 ps)

runnable-of-Picks :
    (ps : List Proc) (r : Option (ℕ × Proc)) {i : ℕ} {b : Proc}
    → r ≡ some (i, b)
    → (Picks ps r ⊎ (PicksOldest ps r)) ⊎ ((from : ℕ) × PicksFollowing from ps r)
    → (get_elem? ps i ≡ some b) × (is_runnable b.state ≡ true)
runnable-of-Picks ps none e t = cc
runnable-of-Picks ps (some (j, c)) e (inl (inl t)) = ground (arith, t.found, t.runs)
runnable-of-Picks ps (some (j, c)) e (inl (inr t)) = ground (arith, t.found, t.runs)
runnable-of-Picks ps (some (j, c)) e (inr (from, t)) = ground (arith, t.found, t.runs)

-- Each scheduler picks a process that is there and runnable.
pub pick-runnable :
    (pol : Policy) (from : ℕ) (ps : List Proc) {i : ℕ} {b : Proc}
    → pick pol from ps ≡ some (i, b)
    → (get_elem? ps i ≡ some b) × (is_runnable b.state ≡ true)
unfolding pick
pick-runnable mlfq from ps e = runnable-of-Picks ps _ e (inl (inl (pick_mlfq-Picks ps)))
pick-runnable fifo from ps e = runnable-of-Picks ps _ e (inl (inr (pick_fifo-PicksOldest from ps)))
pick-runnable round_robin from ps e =
    runnable-of-Picks ps _ e (inr (from, pick_round_robin-PicksFollowing from ps))
