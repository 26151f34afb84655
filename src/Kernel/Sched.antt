-- ===== src/Kernel/Sched.antt =====
-- The scheduler of xv6/kernel/proc.c, and the timer interrupts of xv6/kernel/trap.c that drive it.
use ru_shell.Base.{
  Bool, List, Option, [], false, get_elem?, if◌then◌else◌, leb, ltb, map, none, some, suc, true,
  zero, ℕ, ◌%◌, ◌&&◌, ◌+◌, ◌==◌, ◌^◌, ◌||◌, ◌∷◌,
}
use ru_shell.Kernel.Proc.{
  Kernel, Layout, Policy, Proc, fifo, is_mlfq, is_runnable, is_unused, mlfq, round_robin, runnable,
  running, sleeping, update_proc, wrap,
}
use ru_shell.Kernel.Sleep.{wakeup}
pub mod Scan
pub mod Pick
pub mod Boost
pub mod RoundRobin
pub mod Slice
pub mod Ticks

-- `a < b` for the 32 bits of two values of type `int`.
abbrev pub int_lt : ℕ → ℕ → Bool
int_lt a b = ltb ((a + 2 ^ 31) % 2 ^ 32) ((b + 2 ^ 31) % 2 ^ 32)

-- The body of the loop in `update_proc_time`.
unfoldable pub count_tick : Policy → ℕ → Proc → Proc
count_tick pol now p = elim p.state [
  | running ↦ record p {
    rtime = wrap (p.rtime + 1);
    ticks_in_slice = if is_mlfq pol then p.ticks_in_slice + 1 else p.ticks_in_slice;
    first_run_time = if p.has_run then p.first_run_time else now;
    has_run = true;
  }
  | runnable ↦ record p { wtime = wrap (p.wtime + 1) }
  | sleeping ↦ record p { stime = wrap (p.stime + 1) }
  | _ ↦ p
]

unfoldable pub update_proc_time : Policy → Kernel → Kernel
unfolding count_tick
update_proc_time pol k = record k { procs = map (count_tick pol k.ticks) k.procs }

-- The body of the loop in `boost_priority`.
unfoldable pub boost : ℕ → Proc → Proc
boost now p =
    if is_unused p.state then p else record p { queue = 0; ticks_in_slice = 0; enter_time = now }

unfoldable pub boost_priority : Policy → Kernel → Kernel
unfolding boost
boost_priority pol k = if is_mlfq pol then record k { procs = map (boost k.ticks) k.procs } else k

unfoldable pub any_higher : ℕ → List Proc → Bool
any_higher q [] = false
any_higher q (p ∷ ps) = (is_runnable p.state && ltb p.queue q) || any_higher q ps

unfoldable pub higher_priority_proc_runnable : Policy → ℕ → Kernel → Bool
unfolding any_higher
higher_priority_proc_runnable pol q k = is_mlfq pol && any_higher q k.procs

-- The loop over the table in the scheduler, from index `i` on: the best so far is kept unless a
-- later one comes before it.
module _ {ℓ} {A : Type ℓ} (fits : A → Bool) (before : A → A → Bool) where
  abbrev pub better : Option (ℕ × A) → A → Bool
  better none p = true
  better (some (j, b)) p = before p b

  unfoldable pub scan : ℕ → Option (ℕ × A) → List A → Option (ℕ × A)
  scan i best [] = best
  scan i best (p ∷ ps) = scan (i + 1) (if fits p && better best p then some (i, p) else best) ps

abbrev pub in_queue : ℕ → Proc → Bool
in_queue q p = is_runnable p.state && p.queue == q

abbrev pub enters_before : Proc → Proc → Bool
enters_before p b = int_lt p.enter_time b.enter_time

abbrev pub created_before : Proc → Proc → Bool
created_before p b = ltb p.ctime b.ctime

-- `for (int q = 0; q < 4; q++)`, with `n` queues left from `q` on.
unfoldable pub pick_mlfq : ℕ → ℕ → List Proc → Option (ℕ × Proc)
unfolding scan
pick_mlfq zero q ps = none
pick_mlfq (suc n) q ps =
    let rest = pick_mlfq n (q + 1) ps in
    elim (scan (in_queue q) enters_before 0 none ps) [ some b ↦ some b | none ↦ rest ]

-- The first runnable process at index `i` or later.
unfoldable pub next_runnable : ℕ → ℕ → List Proc → Option (ℕ × Proc)
next_runnable from i [] = none
next_runnable from i (p ∷ ps) =
    let rest = next_runnable from (i + 1) ps in
    if leb from i && is_runnable p.state then some (i, p) else rest

-- What the scheduler switches to; round robin goes on from the index `from` in its loop.
unfoldable pub pick : Policy → ℕ → List Proc → Option (ℕ × Proc)
unfolding pick_mlfq next_runnable
pick mlfq from ps = pick_mlfq 4 0 ps
pick fifo from ps = scan (λ p. is_runnable p.state) created_before 0 none ps
pick round_robin from ps = next_runnable from 0 ps

-- One round up to the switch: the index that is switched to, if any, is RUNNING then.
unfoldable pub schedule : Policy → ℕ → Kernel → Option ℕ × Kernel
unfolding pick
schedule pol from k = elim (pick pol from k.procs) [
  | none ↦ (none, k)
  | some b ↦ (some b.0, update_proc k b.0 (λ p. record p { state = running }))
]

-- `yield` up to its call of `sched`.
unfoldable pub yield : Policy → ℕ → Proc → Proc
yield pol now p = record p {
  state = runnable;
  enter_time = if is_mlfq pol then now else p.enter_time;
}

abbrev pub slice_limit : List ℕ
slice_limit = 1 ∷ 4 ∷ 8 ∷ 16 ∷ []

-- The end of a time slice.
unfoldable pub demote : ℕ → Proc → Proc
unfolding yield
demote now p = yield mlfq now (record p {
  queue = if ltb p.queue 3 then p.queue + 1 else p.queue;
  ticks_in_slice = 0;
  enter_time = now;
})

-- The `which_dev == 2` part of `usertrap` and `kerneltrap` under SCHED_MLFQ, for the process on the
-- CPU. `higher` is the answer of `higher_priority_proc_runnable`, and the flag says that the
-- process has yielded; `none` is a read out of the bounds of `slice_limit`.
unfoldable pub timer_mlfq : Bool → ℕ → Proc → Option (Proc × Bool)
unfolding demote yield
timer_mlfq higher now p = elim p.state [
  | running ↦ elim (get_elem? slice_limit p.queue) [
    | none ↦ none
    | some limit ↦ some (
        if leb limit p.ticks_in_slice
        then (demote now p, true)
        else if higher
        then (yield mlfq now (record p { enter_time = now }), true)
        else (p, false))
  ]
  | _ ↦ some (p, false)
]

-- The same under each policy.
unfoldable pub timer : Policy → Kernel → Proc → Option (Proc × Bool)
unfolding timer_mlfq higher_priority_proc_runnable
timer mlfq k p = timer_mlfq (higher_priority_proc_runnable mlfq p.queue k) k.ticks p
timer fifo k p = some (p, false)
timer round_robin k p = some (yield round_robin k.ticks p, true)

-- `clockintr` on the CPU that counts the ticks.
unfoldable pub clockintr : Policy → Layout → Kernel → Kernel
unfolding wakeup update_proc_time boost_priority
clockintr pol l k =
    let ticked = record k { ticks = wrap (k.ticks + 1) } in
    let counted = update_proc_time pol (wakeup pol l.ticks_addr ticked) in
    if is_mlfq pol && counted.ticks % 48 == 0 then boost_priority pol counted else counted
