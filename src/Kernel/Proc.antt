-- ===== src/Kernel/Proc.antt =====
-- xv6/kernel/proc.h and the process table of xv6/kernel/proc.c. A pointer into the table is an
-- index, and each call runs as one step.
use ru_shell.Base.{Bool, List, Option, [], false, suc, true, zero, ℕ, ◌%◌, ◌^◌, ◌∷◌}
pub mod Table

pub data ProcState : Type 0 where
  unused used sleeping runnable running zombie : ProcState

abbrev pub is_unused : ProcState → Bool
is_unused unused = true
is_unused _ = false

abbrev pub is_runnable : ProcState → Bool
is_runnable runnable = true
is_runnable _ = false

abbrev pub is_sleeping : ProcState → Bool
is_sleeping sleeping = true
is_sleeping _ = false

abbrev pub is_zombie : ProcState → Bool
is_zombie zombie = true
is_zombie _ = false

-- The saved registers: `a0`, and the others.
pub record TrapFrame : Type 0 where
  pub a0 : ℕ
  pub others : List ℕ

-- A `chan` of 0 is none, an absent `parent`, `trapframe`, `pagetable`, file or `cwd` is NULL, and
-- `name` holds the bytes before the NUL. `int` and `uint` times are their 32 bits.
pub record Proc : Type 0 where
  pub state : ProcState
  pub chan : ℕ
  pub killed : Bool
  pub xstate : ℕ
  pub pid : ℕ
  pub parent : Option ℕ
  pub sz : ℕ
  pub pagetable : Option ℕ
  pub trapframe : Option TrapFrame
  pub ofile : List (Option ℕ)
  pub cwd : Option ℕ
  pub name : List ℕ
  pub queue : ℕ
  pub ticks_in_slice : ℕ
  pub enter_time : ℕ
  pub ctime : ℕ
  pub ttime : ℕ
  pub rtime : ℕ
  pub wtime : ℕ
  pub stime : ℕ
  pub first_run_time : ℕ
  pub has_run : Bool

-- The table, `nextpid`, `ticks` and `initproc`.
pub record Kernel : Type 0 where
  pub procs : List Proc
  pub nextpid : ℕ
  pub ticks : ℕ
  pub initproc : ℕ

-- Where the table and `ticks` lie in memory: the channels that the kernel sleeps on.
pub record Layout : Type 0 where
  pub proc_addr : ℕ → ℕ
  pub ticks_addr : ℕ

-- The scheduler that the kernel is built with: SCHED_MLFQ, SCHED_FIFO or neither.
pub data Policy : Type 0 where
  mlfq fifo round_robin : Policy

abbrev pub is_mlfq : Policy → Bool
is_mlfq mlfq = true
is_mlfq _ = false

-- An `unsigned int` that wraps.
abbrev pub wrap : ℕ → ℕ
wrap n = n % 2 ^ 32

-- The process at an index, written anew.
abbrev pub update : ℕ → (Proc → Proc) → List Proc → List Proc
update i f [] = []
update zero f (p ∷ ps) = f p ∷ ps
update (suc i) f (p ∷ ps) = p ∷ update i f ps

abbrev pub update_proc : Kernel → ℕ → (Proc → Proc) → Kernel
update_proc k i f = record k { procs = update i f k.procs }
