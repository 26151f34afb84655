-- ===== src/Kernel/System/Runs.antt =====
-- Every event of xv6/kernel/proc.c and trap.c keeps the invariant of the process table.
use ru_shell.Kernel.System.Keeps.{prepare-Keeps, sleep-Keeps, timer-Keeps}
use ru_shell.Kernel.System.Exit.{kexit-Inv}
use ru_shell.Base.{
  Bool, Bool-cases, List, Option, Option-cases, [], false, get_elem?, if◌then◌else◌, inl, inr, none,
  refl, some, subst, true, ℕ, ◌∷◌, ◌≡◌,
}
use ru_shell.Kernel.Proc.{Kernel, Layout, Policy, Proc, TrapFrame, is_unused, mlfq, update_proc}
use ru_shell.Kernel.Sleep.{prepare, sleep, wakeup}
use ru_shell.Kernel.Sched.{clockintr, schedule, timer}
use ru_shell.Kernel.Lifecycle.Children.{kwait, kwaitx}
use ru_shell.Kernel.Lifecycle.{kexit, kfork}
use ru_shell.Kernel.Invariant.{Inv, update-Inv}
use ru_shell.Kernel.System.{
  Event, clock, exits, forks, is_running, kills, prepares, run, sleeps, step, switch, timer_on,
  waits, waits_x, wakes, with_running,
}
use ru_shell.Kernel.System.Safety.{
  clockintr-Inv, kkill-Inv, replace_one-Inv, running-in_use, schedule-Inv, wakeup-Inv,
}
use ru_shell.Kernel.System.Lifecycle.{kfork-Inv, kwait-Inv, kwaitx-Inv}

with_running-acts :
    (k : Kernel) (i : ℕ) (act : Proc → Option Kernel) {k' : Kernel}
    → with_running k i act ≡ some k'
    → (p : Proc) × (get_elem? k.procs i ≡ some p) × (is_unused p.state ≡ false) × (act p ≡ some k')
with_running-acts k i act {k'} e = elim (Option-cases (get_elem? k.procs i)) [
  | inl y ↦ absurd (cc)
  | inr (p, y) ↦ elim (Bool-cases (is_running p.state)) [
    | inl z ↦ (p, y, running-in_use p z, subst (λ o. o ≡ some k') (acts p y z) e)
    | inr z ↦ let x = stuck p y z in absurd (cc)
  ]
]
  where
    acts :
        (p : Proc)
        → get_elem? k.procs i ≡ some p
        → is_running p.state ≡ true
        → with_running k i act ≡ act p
    acts p y z = rw (with_running, y, z) refl

    stuck :
        (p : Proc)
        → get_elem? k.procs i ≡ some p
        → is_running p.state ≡ false
        → with_running k i act ≡ none
    stuck p y z = rw (with_running, y, z) refl

-- A result that comes after another.
binds :
    {A : Type 0} {B : Type 0} (o : Option A) (f : A → Option B) {b : B}
    → elim o [ none ↦ none | some x ↦ f x ] ≡ some b
    → (a : A) × (o ≡ some a) × (f a ≡ some b)
binds none f e = absurd (cc)
binds (some x) f e = (x, refl, e)

timer_on-Inv :
    (pol : Policy) (k k' : Kernel) (i : ℕ) (p : Proc)
    → get_elem? k.procs i ≡ some p
    → is_unused p.state ≡ false
    → elim (timer pol k p) [ none ↦ none | some (q, y) ↦ some (update_proc k i (λ _. q)) ] ≡ some k'
    → Inv k
    → Inv k'
timer_on-Inv pol k k' i p g live h v =
    let ((q, y), e, x) = binds (timer pol k p) _ h in
    let same : update_proc k i (λ _. q) ≡ k' = cc in
    subst Inv same (replace_one-Inv k i p q g (timer-Keeps pol k p live e) v)

prepares-Inv :
    (chan : ℕ) (k k' : Kernel) (i : ℕ) (p : Proc)
    → get_elem? k.procs i ≡ some p
    → elim (prepare chan p) [ none ↦ none | some q ↦ some (update_proc k i (λ _. q)) ] ≡ some k'
    → Inv k
    → Inv k'
prepares-Inv chan k k' i p g h v =
    let (q, e, x) = binds (prepare chan p) _ h in
    let same : update_proc k i (λ _. q) ≡ k' = cc in
    subst Inv same (replace_one-Inv k i p q g (prepare-Keeps mlfq 0 p chan e) v)

sleeps-Inv :
    (pol : Policy) (k : Kernel) (i : ℕ) (p : Proc)
    → get_elem? k.procs i ≡ some p
    → is_unused p.state ≡ false
    → Inv k
    → Inv (update_proc k i (λ r. (sleep pol r).0))
sleeps-Inv pol k i p g live v =
    update-Inv k i _
      (λ q h.
        let x : p ≡ q = cc in sleep-Keeps pol 0 q (subst (λ r. is_unused r.state ≡ false) x live))
      v

forks-Inv :
    (tf : Option TrapFrame) (pt : Option ℕ) (copied : Bool) (i : ℕ) (p : Proc) (k k' : Kernel)
    (b : Bool)
    → (if b then some (kfork tf pt copied i p k).1 else none) ≡ some k'
    → Inv k
    → Inv k'
forks-Inv tf pt copied i p k k' true h v =
    let same : (kfork tf pt copied i p k).1 ≡ k' = cc in
    subst Inv same (kfork-Inv tf pt copied i p k v)
forks-Inv tf pt copied i p k k' false h v = absurd (cc)

exits-Inv :
    (pol : Policy) (l : Layout) (status i : ℕ) (p : Proc) (k k' : Kernel)
    → get_elem? k.procs i ≡ some p
    → is_unused p.state ≡ false
    → elim (kexit pol l status i p k) [ none ↦ none | some (k', calls) ↦ some k' ] ≡ some k'
    → Inv k
    → Inv k'
exits-Inv pol l status i p k k' g live h v =
    let ((k'', calls), e, x) = binds (kexit pol l status i p k) _ h in
    let same : k'' ≡ k' = cc in subst Inv same (kexit-Inv pol l status i p k g live e v)

-- An event of the kernel keeps the table sound: entries that are UNUSED have pid 0 and the others
-- pids that were handed out and that no two of them share, sleepers have a channel, and no queue is
-- out of the four.
pub step-Inv :
    (pol : Policy) (l : Layout) (e : Event) (k k' : Kernel)
    → step pol l e k ≡ some k'
    → Inv k
    → Inv k'
unfolding step
step-Inv pol l clock k k' h v =
    let x : clockintr pol l k ≡ k' = cc in subst Inv x (clockintr-Inv pol l k v)
step-Inv pol l (timer_on i) k k' h v =
    let (p, g, live, a) = with_running-acts k i _ h in timer_on-Inv pol k k' i p g live a v
step-Inv pol l (switch from) k k' h v =
    let x : (schedule pol from k).1 ≡ k' = cc in subst Inv x (schedule-Inv pol from k v)
step-Inv pol l (prepares i chan) k k' h v =
    let (p, g, live, a) = with_running-acts k i _ h in prepares-Inv chan k k' i p g a v
step-Inv pol l (sleeps i) k k' h v =
    let (p, g, live, a) = with_running-acts k i _ h in
    let x : update_proc k i (λ r. (sleep pol r).0) ≡ k' = cc in
    subst Inv x (sleeps-Inv pol k i p g live v)
step-Inv pol l (wakes chan) k k' h v =
    let x : wakeup pol chan k ≡ k' = cc in subst Inv x (wakeup-Inv pol chan k v)
step-Inv pol l (kills pid) k k' h v = kkill-Inv pol pid k k' h v
step-Inv pol l (forks tf pt copied i) k k' h v =
    let (p, g, live, a) = with_running-acts k i _ h in forks-Inv tf pt copied i p k k' _ a v
step-Inv pol l (exits status i) k k' h v =
    let (p, g, live, a) = with_running-acts k i _ h in exits-Inv pol l status i p k k' g live a v
step-Inv pol l (waits copies addr i) k k' h v =
    let (p, g, live, a) = with_running-acts k i _ h in
    let x : (kwait copies addr i p.killed k).1 ≡ k' = cc in
    subst Inv x (kwait-Inv copies addr i p.killed k v)
step-Inv pol l (waits_x copies addr wtime rtime resp i) k k' h v =
    let (p, g, live, a) = with_running-acts k i _ h in
    let x : (kwaitx copies addr wtime rtime resp i p.killed k).1 ≡ k' = cc in
    subst Inv x (kwaitx-Inv copies addr wtime rtime resp i p.killed k v)

-- So does any run.
pub run-Inv :
    (pol : Policy) (l : Layout) (es : List Event) (k : Kernel) → Inv k → Inv (run pol l es k)
unfolding run
run-Inv pol l [] k v = v
run-Inv pol l (e ∷ es) k v = run-Inv pol l es _ (next (step pol l e k) refl)
  where
    next : (o : Option Kernel) → step pol l e k ≡ o → Inv (elim o [ none ↦ k | some k' ↦ k' ])
    next none y = v
    next (some k') y = step-Inv pol l e k k' y v
