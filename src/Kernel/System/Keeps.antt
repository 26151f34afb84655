-- ===== src/Kernel/System/Keeps.antt =====
-- What each change of one process keeps.
use ru_shell.Base.{Bool, arith, false, none, some, true, ℕ, ◌<◌, ◌≡◌, ◌≢◌}
use ru_shell.Kernel.Proc.{Kernel, Policy, Proc, fifo, is_sleeping, is_unused, mlfq, round_robin}
use ru_shell.Kernel.Sleep.{prepare, rouse, sleep, wake}
use ru_shell.Kernel.Sched.{boost, count_tick, timer, timer_mlfq, yield}
use ru_shell.Kernel.Sched.Slice.{slice_limit-some}
use ru_shell.Kernel.Invariant.{Keeps}

module _ (pol : Policy) (now : ℕ) (p : Proc) where
  pub count_tick-Keeps : Keeps p (count_tick pol now p)
  unfolding count_tick
  count_tick-Keeps = ground arith

  pub boost-Keeps : Keeps p (boost now p)
  unfolding boost
  boost-Keeps = ground arith

  pub wake-Keeps : (chan : ℕ) → Keeps p (wake pol now chan p)
  unfolding wake
  wake-Keeps chan = ground arith

  pub rouse-Keeps : Keeps p (rouse pol now p)
  unfolding rouse
  rouse-Keeps = ground arith

  pub kill-Keeps : Keeps p (rouse pol now (record p { killed = true }))
  unfolding rouse
  kill-Keeps = ground arith

  pub sleep-Keeps : is_unused p.state ≡ false → Keeps p (sleep pol p).0
  unfolding sleep
  sleep-Keeps live = ground arith

  pub prepare-Keeps : (chan : ℕ) {q : Proc} → prepare chan p ≡ some q → Keeps p q
  unfolding prepare
  prepare-Keeps chan e = ground arith

-- Changes that set the state of a process in use, and leave its pid and queue alone.
pub awake-Keeps :
    (p q : Proc)
    → q.pid ≡ p.pid
    → q.queue ≡ p.queue
    → is_unused p.state ≡ false
    → is_unused q.state ≡ false
    → is_sleeping q.state ≡ false
    → Keeps p q
awake-Keeps p q a b c d e = ground arith

-- Changes that leave the state, pid, channel and queue alone.
pub aside-Keeps :
    (p q : Proc)
    → q.state ≡ p.state
    → q.pid ≡ p.pid
    → q.chan ≡ p.chan
    → q.queue ≡ p.queue
    → Keeps p q
aside-Keeps p q a b c d = ground arith

-- The timer reads inside `slice_limit`, and keeps the process.
timer_mlfq-Keeps :
    (higher : Bool) (now : ℕ) (p : Proc) {q : Proc} {y : Bool}
    → timer_mlfq higher now p ≡ some (q, y)
    → Keeps p q
unfolding timer_mlfq
timer_mlfq-Keeps higher now p e = ground arith

pub timer-Keeps :
    (pol : Policy) (k : Kernel) (p : Proc) {q : Proc} {y : Bool}
    → is_unused p.state ≡ false
    → timer pol k p ≡ some (q, y)
    → Keeps p q
unfolding timer yield
timer-Keeps mlfq k p live e = timer_mlfq-Keeps _ k.ticks p e
timer-Keeps fifo k p live e = ground arith
timer-Keeps round_robin k p live e = ground arith

timer_mlfq-ne-none :
    (higher : Bool) (now : ℕ) (p : Proc) → p.queue < 4 → timer_mlfq higher now p ≢ none
unfolding timer_mlfq
timer_mlfq-ne-none higher now p h = let (l, e) = slice_limit-some p.queue h in ground arith

pub timer-ne-none : (pol : Policy) (k : Kernel) (p : Proc) → p.queue < 4 → timer pol k p ≢ none
unfolding timer
timer-ne-none mlfq k p h = timer_mlfq-ne-none _ k.ticks p h
timer-ne-none fifo k p h = λ e. cc
timer-ne-none round_robin k p h = λ e. cc
