-- ===== src/Kernel/Sched/Boost.antt =====
-- The boost of all processes to the top queue, under SCHED_MLFQ.
use ru_shell.Base.{
  Bool-cases, arith, false, get_elem?, inl, inr, ltb, ltb→lt, refl, some, subst, suc, true, zero, ℕ,
  ◌%◌, ◌+◌, ◌-◌, ◌<◌, ◌==◌, ◌^◌, ◌≡◌, ◌≤◌,
}
use ru_shell.Kernel.Proc.{Kernel, Layout, Proc, is_unused, mlfq, wrap}
use ru_shell.Kernel.Proc.Table.{get_elem?-map}
use ru_shell.Kernel.Sleep.{wakeup}
use ru_shell.Kernel.Sched.{boost, boost_priority, clockintr, update_proc_time}
use ru_shell.Kernel.Sched.Ticks.{clocks}

-- Every process that is in use is at the top: in queue 0, with its slice whole.
abbrev pub AllOnTop : Kernel → Type 0
AllOnTop k =
    (i : ℕ) (p : Proc)
    → get_elem? k.procs i ≡ some p
    → is_unused p.state ≡ false
    → (p.queue ≡ 0) × (p.ticks_in_slice ≡ 0)

boosted-AllOnTop : (k : Kernel) → AllOnTop (boost_priority mlfq k)
unfolding boost_priority boost
boosted-AllOnTop k i q g live =
    let (p, h, e) = get_elem?-map k.procs i (boost k.ticks) g in
    top p (subst (λ r. is_unused r.state ≡ false) e live) e
  where
    top :
        (p : Proc)
        → is_unused (boost k.ticks p).state ≡ false
        → q ≡ boost k.ticks p
        → (q.queue ≡ 0) × (q.ticks_in_slice ≡ 0)
    top p l e = ground arith

-- The kernel that the tick leaves before it boosts.
abbrev counted : Layout → Kernel → Kernel
counted l k =
    update_proc_time mlfq (wakeup mlfq l.ticks_addr (record k { ticks = wrap (k.ticks + 1) }))

counted-ticks : (l : Layout) (k : Kernel) → (counted l k).ticks ≡ wrap (k.ticks + 1)
unfolding update_proc_time wakeup
counted-ticks l k = refl

clockintr-AllOnTop :
    (l : Layout) (k : Kernel) → wrap (k.ticks + 1) % 48 ≡ 0 → AllOnTop (clockintr mlfq l k)
unfolding clockintr
clockintr-AllOnTop l k e =
    let x : ((counted l k).ticks % 48 == 0) ≡ true = rw (counted-ticks l k, e) refl in
    rw (clockintr, x) (boosted-AllOnTop (counted l k))

clockintr-ticks : (l : Layout) (k : Kernel) → (clockintr mlfq l k).ticks ≡ wrap (k.ticks + 1)
unfolding clockintr boost_priority
clockintr-ticks l k = elim (Bool-cases ((counted l k).ticks % 48 == 0)) [
  | inl x ↦ rw (clockintr, x) (counted-ticks l k)
  | inr x ↦ rw (clockintr, x) (counted-ticks l k)
]

on_top :
    (l : Layout) (m : ℕ) (k : Kernel)
    → wrap (k.ticks + suc m) % 48 ≡ 0
    → AllOnTop (clocks (suc m) mlfq l k)
on_top l zero k e = clockintr-AllOnTop l k e
on_top l (suc m) k e = on_top l m (clockintr mlfq l k) (rw (clockintr-ticks l k) (later k.ticks e))
  where
    later : (t : ℕ) → wrap (t + suc (suc m)) % 48 ≡ 0 → wrap (wrap (t + 1) + suc m) % 48 ≡ 0
    later t e = omega arith

next_boost : (t : ℕ) → t < 2 ^ 32 → (m : ℕ) × (m < 48) × (wrap (t + suc m) % 48 ≡ 0)
next_boost t h = elim (Bool-cases (ltb (t + (48 - t % 48)) (2 ^ 32))) [
  | inl e ↦ (47 - t % 48, omega arith, soon (ltb→lt _ _ e))
  | inr e ↦ let x = ltb-≤ _ _ e in (2 ^ 32 - 1 - t, omega arith, at_wrap)
]
  where
    ltb-≤ : (a b : ℕ) → ltb a b ≡ false → b ≤ a
    ltb-≤ a b e = ground arith

    at_wrap : wrap (t + suc (2 ^ 32 - 1 - t)) % 48 ≡ 0
    at_wrap = omega arith

    soon : t + (48 - t % 48) < 2 ^ 32 → wrap (t + suc (47 - t % 48)) % 48 ≡ 0
    soon l = omega arith

-- Under SCHED_MLFQ no process waits in a low queue for ever: some interrupt among the next 48 of the
-- clock leaves every process that is in use in queue 0 with a whole slice, over the wrap of `ticks`
-- too.
pub boosted_within :
    (l : Layout) (k : Kernel)
    → k.ticks < 2 ^ 32
    → (m : ℕ) × (1 ≤ m) × (m ≤ 48) × AllOnTop (clocks m mlfq l k)
boosted_within l k h =
    let (m, b, e) = next_boost k.ticks h in (suc m, omega arith, omega arith, on_top l m k e)
