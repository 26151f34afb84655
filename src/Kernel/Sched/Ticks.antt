-- ===== src/Kernel/Sched/Ticks.antt =====
-- What the ticks of the clock do to each process: its times, and its queue.
use ru_shell.Base.{
  Bool, Bool-cases, List, ap, arith, false, get_elem?, if◌then◌else◌, inl, inr, map, some, subst,
  suc, true, zero, ℕ, ◌%◌, ◌&&◌, ◌+◌, ◌==◌, ◌≡◌, ◌⊎◌,
}
use ru_shell.Kernel.Proc.{
  Kernel, Layout, Policy, Proc, ProcState, fifo, is_mlfq, mlfq, round_robin, runnable, running,
  sleeping, wrap,
}
use ru_shell.Kernel.Proc.Table.{get_elem?-map-some}
use ru_shell.Kernel.Sleep.{rouse, wake, wakeup}
use ru_shell.Kernel.Sched.{boost, boost_priority, clockintr, count_tick, update_proc_time}

-- What one tick does to an entry.
unfoldable pub tick_entry : Policy → Layout → Kernel → Proc → Proc
unfolding count_tick wake boost
tick_entry pol l k p =
    let now = wrap (k.ticks + 1) in
    let counted = count_tick pol now (wake pol now l.ticks_addr p) in
    if is_mlfq pol && now % 48 == 0 then boost now counted else counted

counted-entry :
    (pol : Policy) (chan now : ℕ) (ps : List Proc) (i : ℕ) {p : Proc}
    → get_elem? ps i ≡ some p
    → get_elem? (map (count_tick pol now) (map (wake pol now chan) ps)) i
      ≡ some (count_tick pol now (wake pol now chan p))
counted-entry pol chan now ps i g =
    get_elem?-map-some (map (wake pol now chan) ps) i (count_tick pol now)
      (get_elem?-map-some ps i (wake pol now chan) g)

pub clockintr-entry :
    (pol : Policy) (l : Layout) (k : Kernel) (i : ℕ) {p : Proc}
    → get_elem? k.procs i ≡ some p
    → get_elem? (clockintr pol l k).procs i ≡ some (tick_entry pol l k p)
unfolding clockintr wakeup update_proc_time boost_priority tick_entry
clockintr-entry mlfq l k i {p} g = elim (Bool-cases (wrap (k.ticks + 1) % 48 == 0)) [
  | inl y ↦
      rw (clockintr, tick_entry, y)
        (get_elem?-map-some _ i (boost (wrap (k.ticks + 1)))
          (counted-entry mlfq l.ticks_addr (wrap (k.ticks + 1)) k.procs i g))
  | inr y ↦
      rw (clockintr, tick_entry, y)
        (counted-entry mlfq l.ticks_addr (wrap (k.ticks + 1)) k.procs i g)
]
clockintr-entry fifo l k i g = counted-entry fifo l.ticks_addr (wrap (k.ticks + 1)) k.procs i g
clockintr-entry round_robin l k i g =
    counted-entry round_robin l.ticks_addr (wrap (k.ticks + 1)) k.procs i g

-- Alive on the clock: RUNNING, RUNNABLE or SLEEPING.
abbrev pub is_timed : ProcState → Bool
is_timed running = true
is_timed runnable = true
is_timed sleeping = true
is_timed _ = false

-- The time that the process has been alive for, as its counters say.
abbrev pub alive_for : Proc → ℕ
alive_for p = p.rtime + p.wtime + p.stime

-- `q` is `p` after `n` ticks: it is still alive, and its counters say so.
abbrev pub Aged : ℕ → Proc → Proc → Type 0
Aged n p q = (is_timed q.state ≡ true) × (wrap (alive_for q) ≡ wrap (alive_for p + n))

timed-cases :
    (s : ProcState) → is_timed s ≡ true → (s ≡ running) ⊎ ((s ≡ runnable) ⊎ (s ≡ sleeping))
timed-cases s e = ground arith

one_more : (a b c : ℕ) → wrap (wrap (a + 1) + b + c) ≡ wrap (a + b + c + 1)
one_more a b c = omega arith

middle : (a b c : ℕ) → wrap (a + wrap (b + 1) + c) ≡ wrap (a + b + c + 1)
middle a b c = omega arith

last : (a b c : ℕ) → wrap (a + b + wrap (c + 1)) ≡ wrap (a + b + c + 1)
last a b c = omega arith

count_tick-Aged :
    (pol : Policy) (now : ℕ) (p : Proc) → is_timed p.state ≡ true → Aged 1 p (count_tick pol now p)
unfolding count_tick
count_tick-Aged pol now p e = elim (timed-cases p.state e) [
  | inl x ↦ rw (count_tick, x) (e, one_more p.rtime p.wtime p.stime)
  | inr (inl x) ↦ rw (count_tick, x) (e, middle p.rtime p.wtime p.stime)
  | inr (inr x) ↦ rw (count_tick, x) (e, last p.rtime p.wtime p.stime)
]

wake-Aged :
    (pol : Policy) (now chan : ℕ) (p : Proc)
    → is_timed p.state ≡ true
    → Aged 0 p (wake pol now chan p)
unfolding wake rouse
wake-Aged pol now chan p e = ground arith

boost-Aged : (now : ℕ) (p : Proc) → is_timed p.state ≡ true → Aged 0 p (boost now p)
unfolding boost
boost-Aged now p e = ground arith

Aged-trans : (n m : ℕ) (p q r : Proc) → Aged n p q → Aged m q r → Aged (n + m) p r
Aged-trans n m p q r (_, x) (t, y) = (t, sums (alive_for p) (alive_for q) (alive_for r) x y)
  where
    sums : (a b c : ℕ) → wrap b ≡ wrap (a + n) → wrap c ≡ wrap (b + m) → wrap c ≡ wrap (a + (n + m))
    sums a b c x y = omega arith

tick_entry-Aged :
    (pol : Policy) (l : Layout) (k : Kernel) (p : Proc)
    → is_timed p.state ≡ true
    → Aged 1 p (tick_entry pol l k p)
unfolding tick_entry
tick_entry-Aged pol l k p e =
    let now : ℕ = wrap (k.ticks + 1) in
    let woken : Proc = wake pol now l.ticks_addr p in
    let a = wake-Aged pol now l.ticks_addr p e in
    let counted : Proc = count_tick pol now woken in
    let b = Aged-trans 0 1 p woken counted a (count_tick-Aged pol now woken a.0) in
    elim (Bool-cases (is_mlfq pol && now % 48 == 0)) [
      | inl y ↦
          rw (tick_entry, y)
            (Aged-trans 1 0 p counted (boost now counted) b (boost-Aged now counted b.0))
      | inr y ↦ rw (tick_entry, y) b
    ]

-- `n` interrupts of the clock.
abbrev pub clocks : ℕ → Policy → Layout → Kernel → Kernel
clocks zero pol l k = k
clocks (suc n) pol l k = clocks n pol l (clockintr pol l k)

-- Of a process that is RUNNING, RUNNABLE or SLEEPING no tick gets lost: after `n` interrupts of the
-- clock `rtime`, `wtime` and `stime` together are `n` more, as 32 bits.
pub clocks-Aged :
    (pol : Policy) (l : Layout) (n : ℕ) (k : Kernel) (i : ℕ) (p : Proc)
    → get_elem? k.procs i ≡ some p
    → is_timed p.state ≡ true
    → (q : Proc) × (get_elem? (clocks n pol l k).procs i ≡ some q) × Aged n p q
clocks-Aged pol l zero k i p g e = (p, g, (e, ap wrap (zero_right (alive_for p))))
  where
    zero_right : (a : ℕ) → a ≡ a + 0
    zero_right a = omega arith
clocks-Aged pol l (suc n) k i p g e =
    let a = tick_entry-Aged pol l k p e in
    let (q, h, b) =
      clocks-Aged pol l n (clockintr pol l k) i (tick_entry pol l k p) (clockintr-entry pol l k i g)
        a.0 in
    (q, h, subst (λ m. Aged m p q) (one_plus n) (Aged-trans 1 n p (tick_entry pol l k p) q a b))
  where
    one_plus : (m : ℕ) → 1 + m ≡ suc m
    one_plus m = omega arith
