-- ===== src/Tests/Processes.antt =====
-- Inputs for the process table.
use ru_shell.Base.{
  List, [], ap, arith, false, get_elem?, map, none, refl, some, subst, suc, true, zero, ℕ, ◌++◌,
  ◌+◌, ◌↔◌, ◌∷◌, ◌≡◌, ◌≢◌, ◌≤◌,
}
use ru_shell.Kernel.Proc.{
  Kernel, Layout, Proc, TrapFrame, is_unused, mlfq, runnable, running, unused, zombie,
}
use ru_shell.Kernel.Sleep.{kkill, wakeup}
use ru_shell.Kernel.Sleep.Kill.{KillResult, kkill-KillResult}
use ru_shell.Kernel.Sleep.Wakeup.{Woken, wakeup-Woken}
use ru_shell.Kernel.Sched.{pick_mlfq, slice_limit, timer}
use ru_shell.Kernel.Sched.Pick.{Picks, pick_mlfq-Picks}
use ru_shell.Kernel.Sched.Slice.{SliceEnd, timer-SliceEnd}
use ru_shell.Kernel.Sched.Ticks.{Aged, clocks, clocks-Aged}
use ru_shell.Kernel.Sched.Boost.{AllOnTop, boosted_within}
use ru_shell.Kernel.Lifecycle.Children.{kwait}
use ru_shell.Kernel.Lifecycle.{FileCall, allocproc, kexit, kfork}
use ru_shell.Kernel.Lifecycle.Alloc.{AllocResult, allocproc-AllocResult}
use ru_shell.Kernel.Lifecycle.Exit.{Exited, kexit-Exited}
use ru_shell.Kernel.Lifecycle.Wait.{WaitResult, kwait-WaitResult}
use ru_shell.Kernel.Invariant.{Inv, IsSound}
use ru_shell.Kernel.System.{forks, prepares, run, sleeps, step}
use ru_shell.Kernel.System.Runs.{step-Inv}
use ru_shell.Kernel.System.Fork.{ForkResult, kfork-ForkResult}
use ru_shell.Kernel.System.Reuse.{kkill-allocproc}
use ru_shell.Kernel.System.Signals.{event_of, sleeps_unless_heard, tick, wake_of}

abbrev blank : Proc
blank = record {
  state = unused;
  chan = 0;
  killed = false;
  xstate = 0;
  pid = 0;
  parent = none;
  sz = 0;
  pagetable = none;
  trapframe = none;
  ofile = none ∷ none ∷ [];
  cwd = none;
  name = [];
  queue = 0;
  ticks_in_slice = 0;
  enter_time = 0;
  ctime = 0;
  ttime = 0;
  rtime = 0;
  wtime = 0;
  stime = 0;
  first_run_time = 0;
  has_run = false;
}

abbrev regs : TrapFrame
regs = record { a0 = 9; others = [] }

-- `init` runs, in queue 1 with its slice used up.
abbrev init_proc_entry : Proc
init_proc_entry = record blank {
  state = running;
  pid = 1;
  trapframe = some regs;
  ofile = some 4 ∷ none ∷ [];
  cwd = some 2;
  queue = 1;
  ticks_in_slice = 4;
}

-- A child of it that waits for the CPU, and one that is dead.
abbrev child : Proc
child = record blank { state = runnable; pid = 2; parent = some 0; ctime = 5 }

abbrev layout : Layout
layout = record { proc_addr = λ i. 1000 + i; ticks_addr = 500 }

abbrev one_proc : Kernel
one_proc = record { procs = init_proc_entry ∷ blank ∷ []; nextpid = 2; ticks = 40; initproc = 0 }

abbrev two_procs : Kernel
two_procs = record { procs = init_proc_entry ∷ child ∷ []; nextpid = 3; ticks = 40; initproc = 0 }

abbrev dead_child : Kernel
dead_child = record two_procs { procs = init_proc_entry ∷ record child { state = zombie } ∷ [] }

blank-IsSound : (n : ℕ) → IsSound n blank
blank-IsSound n = record {
  free_pid = λ e. refl;
  live_pid = λ e. absurd (cc);
  asleep = λ e. absurd (cc);
  queued = omega arith;
}

init-IsSound : IsSound 2 init_proc_entry
init-IsSound = record {
  free_pid = λ e. absurd (cc);
  live_pid = λ e. (omega arith, omega arith);
  asleep = λ e. absurd (cc);
  queued = omega arith;
}

one_proc-Inv : Inv one_proc
one_proc-Inv = record { positive = omega arith; each = each; unique = unique }
  where
    each : (i : ℕ) (p : Proc) → get_elem? one_proc.procs i ≡ some p → IsSound 2 p
    each zero p g = let x : init_proc_entry ≡ p = cc in subst (IsSound 2) x init-IsSound
    each (suc zero) p g = let x : blank ≡ p = cc in subst (IsSound 2) x (blank-IsSound 2)
    each (suc (suc i)) p g = absurd (cc)

    free : (p : Proc) → blank ≡ p → ¬ (is_unused p.state ≡ false)
    free p x e = let y = subst (λ r. is_unused r.state ≡ true) x refl in absurd (cc)

    pids : (p q : Proc) → init_proc_entry ≡ p → blank ≡ q → p.pid ≢ q.pid
    pids p q x y e =
        let a = ap (λ r. r.pid) x in let b = ap (λ r. r.pid) y in omega (arith, a, b, e)

    unique :
        (i j : ℕ) (p q : Proc)
        → get_elem? one_proc.procs i ≡ some p
        → get_elem? one_proc.procs j ≡ some q
        → is_unused p.state ≡ false
        → p.pid ≡ q.pid
        → i ≡ j
    unique zero zero p q g h l e = refl
    unique zero (suc zero) p q g h l e =
        let x : init_proc_entry ≡ p = cc in let y : blank ≡ q = cc in absurd (pids p q x y e)
    unique zero (suc (suc j)) p q g h l e = absurd (cc)
    unique (suc zero) j p q g h l e = let x : blank ≡ p = cc in absurd (free p x l)
    unique (suc (suc i)) j p q g h l e = absurd (cc)

step-Inv_example : Inv (kfork (some regs) (some 7) true 0 init_proc_entry one_proc).1
unfolding step
step-Inv_example =
    step-Inv mlfq layout (forks (some regs) (some 7) true 0) one_proc
      (kfork (some regs) (some 7) true 0 init_proc_entry one_proc).1 stepped one_proc-Inv
  where
    stepped :
        step mlfq layout (forks (some regs) (some 7) true 0) one_proc
        ≡ some (kfork (some regs) (some 7) true 0 init_proc_entry one_proc).1
    stepped = refl

sleeps_unless_heard_example :
    (q : Proc) × (get_elem?
        (run mlfq layout
          (prepares 0 99 ∷ map event_of (tick ∷ wake_of 99 ∷ []) ++ sleeps 0 ∷ [])
          one_proc).procs
        0
      ≡ some q)
    × (q.state ≡ running)
sleeps_unless_heard_example =
    sleeps_unless_heard mlfq layout 99 0 (tick ∷ wake_of 99 ∷ []) one_proc init_proc_entry refl refl
      (λ e. absurd (omega (arith, e)))

pick_mlfq-Picks_example : Picks two_procs.procs (pick_mlfq 4 0 two_procs.procs)
pick_mlfq-Picks_example = pick_mlfq-Picks two_procs.procs

timer-SliceEnd_example :
    (limit : ℕ) × (get_elem? slice_limit 1 ≡ some limit)
    × SliceEnd limit two_procs init_proc_entry (timer mlfq two_procs init_proc_entry)
timer-SliceEnd_example = timer-SliceEnd two_procs init_proc_entry refl (omega arith)

clocks-Aged_example :
    (q : Proc) × (get_elem? (clocks 10 mlfq layout two_procs).procs 1 ≡ some q) × Aged 10 child q
clocks-Aged_example = clocks-Aged mlfq layout 10 two_procs 1 child refl refl

boosted_within_example : (m : ℕ) × (1 ≤ m) × (m ≤ 48) × AllOnTop (clocks m mlfq layout two_procs)
boosted_within_example = boosted_within layout two_procs (omega arith)

kkill-KillResult_example : KillResult mlfq 2 two_procs (kkill mlfq 2 two_procs)
kkill-KillResult_example = kkill-KillResult mlfq 2 two_procs

kkill-allocproc_example :
    (k' : Kernel) × (kkill mlfq 0 one_proc ≡ some k')
    × (j : ℕ) × (q : Proc) × ((allocproc (some regs) (some 7) k').0 ≡ some j)
    × (get_elem? (allocproc (some regs) (some 7) k').1.procs j ≡ some q)
    × (q.killed ≡ true)
kkill-allocproc_example = kkill-allocproc mlfq one_proc 1 blank regs 7 one_proc-Inv refl refl

wakeup-Woken_example :
    ((i : ℕ) (p : Proc)
      → get_elem? two_procs.procs i ≡ some p
      → (q : Proc) × (get_elem? (wakeup mlfq 99 two_procs).procs i ≡ some q) × Woken 99 p q)
    × ((i : ℕ) (q : Proc) → get_elem? (wakeup mlfq 99 two_procs).procs i ≡ some q → q.chan ≢ 99)
wakeup-Woken_example = wakeup-Woken mlfq 99 two_procs (λ e. absurd (omega (arith, e)))

allocproc-AllocResult_example :
    AllocResult (some regs) none one_proc (allocproc (some regs) none one_proc)
allocproc-AllocResult_example = allocproc-AllocResult (some regs) none one_proc

kfork-ForkResult_example :
    ForkResult 0 init_proc_entry one_proc
      (kfork (some regs) (some 7) true 0 init_proc_entry one_proc)
kfork-ForkResult_example =
    kfork-ForkResult (some regs) (some 7) true 0 init_proc_entry one_proc one_proc-Inv

kexit-Exited_example :
    ((kexit mlfq layout 3 1 child two_procs ≡ none) ↔ (1 ≡ two_procs.initproc))
    × ((k' : Kernel) (calls : List FileCall)
        → kexit mlfq layout 3 1 child two_procs ≡ some (k', calls)
        → Exited 3 1 two_procs k')
kexit-Exited_example = kexit-Exited mlfq layout 3 1 child two_procs refl

kwait-WaitResult_example :
    WaitResult true 0 false dead_child (kwait (λ _. true) 64 0 false dead_child)
kwait-WaitResult_example = kwait-WaitResult (λ _. true) 64 0 false dead_child
