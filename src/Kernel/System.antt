-- ===== src/Kernel/System.antt =====
-- The calls of xv6/kernel/proc.c and trap.c as events on the process table.
use ru_shell.Base.{
  Bool, List, Option, [], false, get_elem?, if◌then◌else◌, ltb, none, some, true, ℕ, ◌+◌, ◌^◌, ◌∷◌,
}
use ru_shell.Kernel.Proc.{Kernel, Layout, Policy, Proc, ProcState, TrapFrame, running, update_proc}
use ru_shell.Kernel.Sleep.{kkill, prepare, sleep, wakeup}
use ru_shell.Kernel.Sched.{clockintr, schedule, timer}
use ru_shell.Kernel.Lifecycle.Children.{kwait, kwaitx}
use ru_shell.Kernel.Lifecycle.{kexit, kfork}
pub mod Keeps
pub mod Exit
pub mod Lifecycle
pub mod Runs
pub mod Signals
pub mod Fork
pub mod Reuse
pub mod Safety

-- A process that acts is named by its index, and must be RUNNING. The arguments are those of the
-- calls, with the answers of the calls that are parameters.
pub data Event : Type 0 where
  clock : Event
  timer_on : ℕ → Event
  switch : ℕ → Event
  prepares : ℕ → ℕ → Event
  sleeps : ℕ → Event
  wakes : ℕ → Event
  kills : ℕ → Event
  forks : Option TrapFrame → Option ℕ → Bool → ℕ → Event
  exits : ℕ → ℕ → Event
  waits : (ℕ → Bool) → ℕ → ℕ → Event
  waits_x : (ℕ → Bool) → ℕ → ℕ → ℕ → ℕ → ℕ → Event

abbrev pub is_running : ProcState → Bool
is_running running = true
is_running _ = false

-- The process that acts, if it is RUNNING.
abbrev pub with_running : Kernel → ℕ → (Proc → Option Kernel) → Option Kernel
with_running k i act = elim (get_elem? k.procs i) [
  | none ↦ none
  | some p ↦ if is_running p.state then act p else none
]

-- `none` is a panic, a read out of bounds, an overflow of the `int` `nextpid`, or an event that
-- cannot be.
unfoldable pub step : Policy → Layout → Event → Kernel → Option Kernel
step pol l clock k = some (clockintr pol l k)
step pol l (timer_on i) k =
    with_running k i λ p. elim (timer pol k p) [
      | none ↦ none
      | some (q, yielded) ↦ some (update_proc k i (λ _. q))
    ]
step pol l (switch from) k = some (schedule pol from k).1
step pol l (prepares i chan) k =
    with_running k i
      λ p. elim (prepare chan p) [ none ↦ none | some q ↦ some (update_proc k i (λ _. q)) ]
step pol l (sleeps i) k = with_running k i λ p. some (update_proc k i (λ r. (sleep pol r).0))
step pol l (wakes chan) k = some (wakeup pol chan k)
step pol l (kills pid) k = kkill pol pid k
step pol l (forks tf pt copied i) k =
    with_running k i
      λ p. if ltb (k.nextpid + 1) (2 ^ 31) then some (kfork tf pt copied i p k).1 else none
step pol l (exits status i) k =
    with_running k i
      λ p. elim (kexit pol l status i p k) [ none ↦ none | some (k', calls) ↦ some k' ]
step pol l (waits copies addr i) k = with_running k i λ p. some (kwait copies addr i p.killed k).1
step pol l (waits_x copies addr wtime rtime resp i) k =
    with_running k i λ p. some (kwaitx copies addr wtime rtime resp i p.killed k).1

-- The kernel after the events that can be, the others left out.
unfoldable pub run : Policy → Layout → List Event → Kernel → Kernel
unfolding step
run pol l [] k = k
run pol l (e ∷ es) k = run pol l es (elim (step pol l e k) [ none ↦ k | some k' ↦ k' ])
