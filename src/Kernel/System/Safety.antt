-- ===== src/Kernel/System/Safety.antt =====
-- Every event keeps the invariant of the process table.
use ru_shell.Kernel.System.{is_running}
use ru_shell.Base.{
  Bool, Option-cases, arith, false, get_elem?, if◌then◌else◌, inl, inr, refl, some, subst, sym,
  true, ℕ, ◌+◌, ◌<◌, ◌≡◌,
}
use ru_shell.Kernel.Proc.{
  Kernel, Layout, Policy, Proc, fifo, is_runnable, is_unused, mlfq, round_robin, update_proc, wrap,
}
use ru_shell.Kernel.Sleep.{kkill, wakeup}
use ru_shell.Kernel.Sched.RoundRobin.{pick-runnable}
use ru_shell.Kernel.Sleep.Kill.{KillResult, kkill-KillResult}
use ru_shell.Kernel.Sched.{boost_priority, clockintr, pick, schedule, update_proc_time}
use ru_shell.Kernel.Invariant.{Inv, IsSound, Keeps, map-Inv, update-Inv}
use ru_shell.Kernel.System.Keeps.{
  awake-Keeps, boost-Keeps, count_tick-Keeps, kill-Keeps, wake-Keeps,
}

-- The fields that the invariant does not read may differ.
pub Inv-at : (k k' : Kernel) → k'.procs ≡ k.procs → k'.nextpid ≡ k.nextpid → Inv k → Inv k'
Inv-at k k' e n v = record {
  positive = subst (λ m. 0 < m) (sym n) v.positive;
  each = λ i p h.
      subst (λ m. IsSound m p) (sym n) (v.each i p (subst (λ ps. get_elem? ps i ≡ some p) e h));
  unique = λ i j p q h h'.
      v.unique i j p q (subst (λ ps. get_elem? ps i ≡ some p) e h)
        (subst (λ ps. get_elem? ps j ≡ some q) e h');
}

pub wakeup-Inv : (pol : Policy) (chan : ℕ) (k : Kernel) → Inv k → Inv (wakeup pol chan k)
unfolding wakeup
wakeup-Inv pol chan k v = map-Inv k _ (λ p. wake-Keeps pol k.ticks p chan) v

pub update_proc_time-Inv : (pol : Policy) (k : Kernel) → Inv k → Inv (update_proc_time pol k)
unfolding update_proc_time
update_proc_time-Inv pol k v = map-Inv k _ (count_tick-Keeps pol k.ticks) v

boost_priority-Inv : (pol : Policy) (k : Kernel) → Inv k → Inv (boost_priority pol k)
unfolding boost_priority
boost_priority-Inv mlfq k v = map-Inv k _ (boost-Keeps mlfq k.ticks) v
boost_priority-Inv fifo k v = v
boost_priority-Inv round_robin k v = v

pub if-Inv : (b : Bool) {k k' : Kernel} → Inv k → Inv k' → Inv (if b then k else k')
if-Inv true v v' = v
if-Inv false v v' = v'

pub clockintr-Inv : (pol : Policy) (l : Layout) (k : Kernel) → Inv k → Inv (clockintr pol l k)
unfolding clockintr
clockintr-Inv pol l k v =
    let ticked = Inv-at k (record k { ticks = wrap (k.ticks + 1) }) refl refl v in
    let counted = update_proc_time-Inv pol _ (wakeup-Inv pol l.ticks_addr _ ticked) in
    if-Inv _ (boost_priority-Inv pol _ counted) counted

runnable-in_use : (p : Proc) → is_runnable p.state ≡ true → is_unused p.state ≡ false
runnable-in_use p e = ground arith

pub running-in_use : (p : Proc) → is_running p.state ≡ true → is_unused p.state ≡ false
running-in_use p e = ground arith

pub schedule-Inv : (pol : Policy) (from : ℕ) (k : Kernel) → Inv k → Inv (schedule pol from k).1
unfolding schedule
schedule-Inv pol from k v = elim (Option-cases (pick pol from k.procs)) [
  | inl e ↦ rw (e, schedule) v
  | inr ((i, b), e) ↦
      let (found, runs) = pick-runnable pol from k.procs e in
      rw (e, schedule)
        (update-Inv k i _
          (λ p g.
            let x : b ≡ p = cc in
            awake-Keeps p _ refl refl (rw (← x) (runnable-in_use b runs)) refl refl)
          v)
]

pub kkill-Inv :
    (pol : Policy) (pid : ℕ) (k k' : Kernel) → kkill pol pid k ≡ some k' → Inv k → Inv k'
kkill-Inv pol pid k k' e v =
    let (i, p, _, x) = subst (KillResult pol pid k) e (kkill-KillResult pol pid k) in
    subst Inv (sym x) (update-Inv k i _ (λ q _. kill-Keeps pol k.ticks q) v)

-- An entry that a process in use replaces.
pub replace_one-Inv :
    (k : Kernel) (i : ℕ) (p q : Proc)
    → get_elem? k.procs i ≡ some p
    → Keeps p q
    → Inv k
    → Inv (update_proc k i (λ _. q))
replace_one-Inv k i p q g keeps v =
    update-Inv k i _ (λ r h. let x : p ≡ r = cc in subst (λ s. Keeps s q) x keeps) v
