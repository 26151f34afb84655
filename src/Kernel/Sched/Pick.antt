-- ===== src/Kernel/Sched/Pick.antt =====
-- Which process the schedulers switch to.
use ru_shell.Base.{
  ==_iff, Bool-cases, List, Option, Option-cases, arith, false, get_elem?, inl, inr, none, refl,
  some, suc, true, zero, ℕ, ◌%◌, ◌+◌, ◌<◌, ◌==◌, ◌^◌, ◌↔◌, ◌≡◌, ◌≤◌, ◌⊎◌,
}
use ru_shell.Kernel.Proc.{Proc, fifo, is_runnable}
use ru_shell.Kernel.Sched.{created_before, enters_before, in_queue, pick, pick_mlfq, scan}
use ru_shell.Kernel.Sched.Scan.{First, scan-First, scan-from, scan-none}

-- The order of `enter_time` values of type `int`.
abbrev pub enter_key : Proc → ℕ
enter_key p = (p.enter_time + 2 ^ 31) % 2 ^ 32

-- Entry `i`, process `b`, is the choice of the feedback queue: runnable in one of the four queues,
-- and before every such process, by queue, then by `enter_time`, then by index.
pub record IsNext (ps : List Proc) (i : ℕ) (b : Proc) : Type 0 where
  pub found : get_elem? ps i ≡ some b
  pub runs : is_runnable b.state ≡ true
  pub queued : b.queue < 4
  pub first :
      (j : ℕ) (p : Proc)
      → get_elem? ps j ≡ some p
      → is_runnable p.state ≡ true
      → p.queue < 4
      → (b.queue < p.queue) ⊎ ((b.queue ≡ p.queue) × First (enter_key b) i (enter_key p) j)

abbrev pub Picks : List Proc → Option (ℕ × Proc) → Type 0
Picks ps (some (i, b)) = IsNext ps i b
Picks ps none =
    (j : ℕ) (p : Proc) → get_elem? ps j ≡ some p → is_runnable p.state ≡ true → ¬ (p.queue < 4)

-- The same for the queues from `q` on.
record IsNextFrom (ps : List Proc) (n q i : ℕ) (b : Proc) : Type 0 where
  found : get_elem? ps i ≡ some b
  runs : is_runnable b.state ≡ true
  above : q ≤ b.queue
  below : b.queue < q + n
  first :
      (j : ℕ) (p : Proc)
      → get_elem? ps j ≡ some p
      → is_runnable p.state ≡ true
      → q ≤ p.queue
      → p.queue < q + n
      → (b.queue < p.queue) ⊎ ((b.queue ≡ p.queue) × First (enter_key b) i (enter_key p) j)

abbrev PicksFrom : List Proc → ℕ → ℕ → Option (ℕ × Proc) → Type 0
PicksFrom ps n q (some (i, b)) = IsNextFrom ps n q i b
PicksFrom ps n q none =
    (j : ℕ) (p : Proc)
    → get_elem? ps j ≡ some p
    → is_runnable p.state ≡ true
    → q ≤ p.queue
    → ¬ (p.queue < q + n)

in_queue_iff :
    (q : ℕ) (p : Proc) → (in_queue q p ≡ true) ↔ ((is_runnable p.state ≡ true) × (p.queue ≡ q))
in_queue_iff q p = ground arith

First-zero : {a i c j : ℕ} → First a i c (0 + j) → First a i c j
First-zero f = omega arith

-- The choice of queue `q` against a process in a queue from `q` on.
choice-First :
    (q : ℕ) (ps : List Proc) (i : ℕ) (b : Proc)
    → scan (in_queue q) enters_before 0 none ps ≡ some (i, b)
    → b.queue ≡ q
    → (j : ℕ) (p : Proc) → get_elem? ps j ≡ some p
    → is_runnable p.state ≡ true
    → q ≤ p.queue
    → (b.queue < p.queue) ⊎ ((b.queue ≡ p.queue) × First (enter_key b) i (enter_key p) j)
choice-First q ps i b e v j p h r lo = elim (Bool-cases (p.queue == q)) [
  | inl same ↦
      let fits = (in_queue_iff q p).1 (r, (==_iff p.queue q).0 same) in
      let f = (scan-First (in_queue q) enter_key ps 0 none i b tt e).1 j p h fits in
      inr (omega (arith, (==_iff p.queue q).0 same), First-zero f)
  | inr other ↦ inl (apart p.queue other lo)
]
  where
    apart : (n : ℕ) → (n == q) ≡ false → q ≤ n → b.queue < n
    apart n o l = ground arith

-- The queue `q` has a choice.
found-PicksFrom :
    (n q : ℕ) (ps : List Proc) (i : ℕ) (b : Proc)
    → scan (in_queue q) enters_before 0 none ps ≡ some (i, b)
    → IsNextFrom ps (suc n) q i b
found-PicksFrom n q ps i b e = elim (scan-from (in_queue q) enter_key ps 0 none i b e) [
  | inl x ↦ absurd (cc)
  | inr (m, x, g, f) ↦
      let v = (in_queue_iff q b).0 f in
      let at : i ≡ m = omega arith in
      record {
        found = rw at g;
        runs = v.0;
        above = omega (arith, v.1);
        below = omega (arith, v.1);
        first = λ j p h r lo _. choice-First q ps i b e v.1 j p h r lo;
      }
]

-- The queue `q` has none, and those behind it have the choice `r`.
skipped-PicksFrom :
    (n q : ℕ) (ps : List Proc) (r : Option (ℕ × Proc))
    → scan (in_queue q) enters_before 0 none ps ≡ none
    → PicksFrom ps n (q + 1) r
    → PicksFrom ps (suc n) q r
skipped-PicksFrom n q ps none e t = λ j p h r lo hi. t j p h r (above j p h r lo) (omega arith)
  where
    above :
        (j : ℕ) (p : Proc)
        → get_elem? ps j ≡ some p
        → is_runnable p.state ≡ true
        → q ≤ p.queue
        → q + 1 ≤ p.queue
    above j p h r lo = grind (arith, (scan-none (in_queue q) enter_key ps 0 none e).1 j p h)
skipped-PicksFrom n q ps (some (i, b)) e t = record {
  found = t.found;
  runs = t.runs;
  above = omega (arith, t.above);
  below = omega (arith, t.below);
  first = λ j p h r lo hi. t.first j p h r (above j p h r lo) (omega arith);
}
  where
    above :
        (j : ℕ) (p : Proc)
        → get_elem? ps j ≡ some p
        → is_runnable p.state ≡ true
        → q ≤ p.queue
        → q + 1 ≤ p.queue
    above j p h r lo = grind (arith, (scan-none (in_queue q) enter_key ps 0 none e).1 j p h)

pick_mlfq-PicksFrom : (n q : ℕ) (ps : List Proc) → PicksFrom ps n q (pick_mlfq n q ps)
unfolding pick_mlfq
pick_mlfq-PicksFrom zero q ps = λ j p h r lo hi. omega arith
pick_mlfq-PicksFrom (suc n) q ps = elim (Option-cases (scan (in_queue q) enters_before 0 none ps)) [
  | inl e ↦ rw (e, pick_mlfq) (skipped-PicksFrom n q ps _ e (pick_mlfq-PicksFrom n (q + 1) ps))
  | inr ((i, b), e) ↦ rw (e, pick_mlfq) (found-PicksFrom n q ps i b e)
]

Picks-of : (ps : List Proc) (r : Option (ℕ × Proc)) → PicksFrom ps 4 0 r → Picks ps r
Picks-of ps none t = λ j p h r hi. t j p h r (omega arith) (omega arith)
Picks-of ps (some (i, b)) t = record {
  found = t.found;
  runs = t.runs;
  queued = omega (arith, t.below);
  first = λ j p h r hi. t.first j p h r (omega arith) (omega arith);
}

-- The feedback queue's scheduler picks, of all runnable processes in its four queues, the one in
-- the lowest queue, of those the one with the least `enter_time` as an `int`, and of those the one
-- that stands first in the table; it picks none exactly if no such process is runnable.
pub pick_mlfq-Picks : (ps : List Proc) → Picks ps (pick_mlfq 4 0 ps)
pick_mlfq-Picks ps = Picks-of ps (pick_mlfq 4 0 ps) (pick_mlfq-PicksFrom 4 0 ps)

-- Entry `i`, process `b`, is the oldest runnable process.
pub record IsOldest (ps : List Proc) (i : ℕ) (b : Proc) : Type 0 where
  pub found : get_elem? ps i ≡ some b
  pub runs : is_runnable b.state ≡ true
  pub first :
      (j : ℕ) (p : Proc)
      → get_elem? ps j ≡ some p
      → is_runnable p.state ≡ true
      → First b.ctime i p.ctime j

abbrev pub PicksOldest : List Proc → Option (ℕ × Proc) → Type 0
PicksOldest ps (some (i, b)) = IsOldest ps i b
PicksOldest ps none = (j : ℕ) (p : Proc) → get_elem? ps j ≡ some p → is_runnable p.state ≡ false

oldest-PicksOldest :
    (ps : List Proc) (r : Option (ℕ × Proc))
    → scan (λ p. is_runnable p.state) created_before 0 none ps ≡ r
    → PicksOldest ps r
oldest-PicksOldest ps none e = (scan-none (λ p. is_runnable p.state) (λ p. p.ctime) ps 0 none e).1
oldest-PicksOldest ps (some (i, b)) e =
    elim (scan-from (λ p. is_runnable p.state) (λ p. p.ctime) ps 0 none i b e) [
      | inl x ↦ absurd (cc)
      | inr (m, x, g, f) ↦
          let at : i ≡ m = omega arith in
          record {
            found = rw at g;
            runs = f;
            first = λ j p h r. First-zero (
                (scan-First (λ p. is_runnable p.state) (λ p. p.ctime) ps 0 none i b tt e).1 j p h
                  r);
          }
    ]

-- The scheduler of SCHED_FIFO picks the runnable process with the least creation time, of equals
-- the first in the table; it picks none exactly if nothing is runnable.
pub pick_fifo-PicksOldest : (from : ℕ) (ps : List Proc) → PicksOldest ps (pick fifo from ps)
unfolding pick
pick_fifo-PicksOldest from ps = oldest-PicksOldest ps _ refl
