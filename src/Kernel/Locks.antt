-- ===== src/Kernel/Locks.antt =====
-- The spin locks and the nested interrupt switch of xv6/kernel/spinlock.c, and the sleep locks of
-- xv6/kernel/sleeplock.c. A processor is a number, and each call is one step.
use ru_shell.Base.{
  Bool, Option, false, if◌then◌else◌, leb, none, opt_is, some, true, ℕ, ◌&&◌, ◌+◌, ◌-◌, ◌==◌, ◌^◌,
  ◌||◌,
}
use ru_shell.Kernel.Proc.{wrap}
pub mod Nesting

-- `noff` and `intena` of `struct cpu`, and whether the processor takes interrupts.
pub record Cpu : Type 0 where
  pub noff : ℕ
  pub intena : Bool
  pub interrupts : Bool

pub record Spinlock : Type 0 where
  pub locked : Bool
  pub cpu : Option ℕ

-- `rc_sstatus` reads the interrupt switch and turns it off. `noff` is an int, here its 32 bits.
unfoldable pub push_off : Cpu → Cpu
push_off c = record {
  noff = wrap (c.noff + 1);
  intena = if c.noff == 0 then c.interrupts else c.intena;
  interrupts = false;
}

-- `none` is a panic.
unfoldable pub pop_off : Cpu → Option Cpu
pop_off c =
    let left = wrap (c.noff + 2 ^ 32 - 1) in
    if c.interrupts
    then none
    else if c.noff == 0 || leb (2 ^ 31) c.noff
    then none
    else some (record c { noff = left; interrupts = left == 0 && c.intena })

unfoldable pub holding : ℕ → Spinlock → Bool
holding me lk = lk.locked && opt_is lk.cpu me

-- `acquire` panics, or finds the lock taken and spins, or takes it.
pub data Acquired : Type 0 where
  acquire_panics : Acquired
  spins : Cpu → Acquired
  acquires : Cpu → Spinlock → Acquired

unfoldable pub acquire : ℕ → Cpu → Spinlock → Acquired
unfolding push_off holding
acquire me c lk =
    let off = push_off c in
    if holding me lk
    then acquire_panics
    else if lk.locked
    then spins off
    else acquires off (record { locked = true; cpu = some me })

unfoldable pub release : ℕ → Cpu → Spinlock → Option (Cpu × Spinlock)
unfolding pop_off holding
release me c lk =
    let free : Spinlock = record { locked = false; cpu = none } in
    if holding me lk then elim (pop_off c) [ none ↦ none | some c' ↦ some (c', free) ] else none

-- A sleep lock: `locked`, and the pid of its holder. Its name is left out.
pub record Sleeplock : Type 0 where
  pub locked : Bool
  pub pid : ℕ

unfoldable pub initsleeplock : Sleeplock
initsleeplock = record { locked = false; pid = 0 }

-- `none` is a caller that sleeps on the lock.
unfoldable pub acquiresleep : ℕ → Sleeplock → Option Sleeplock
acquiresleep pid lk = if lk.locked then none else some (record { locked = true; pid = pid })

-- The lock as it is left; the sleepers on it are woken.
unfoldable pub releasesleep : Sleeplock → Sleeplock
releasesleep lk = record { locked = false; pid = 0 }

unfoldable pub holdingsleep : ℕ → Sleeplock → Bool
holdingsleep pid lk = lk.locked && lk.pid == pid
