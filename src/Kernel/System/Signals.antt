-- ===== src/Kernel/System/Signals.antt =====
-- No wakeup gets lost between `sleep_prepare` and `sleep`.
use ru_shell.Kernel.Proc.Table.{get_elem?-map-some, get_elem?-update_self}
use ru_shell.Base.{
  Bool, Bool-cases, List, [], arith, false, get_elem?, if◌then◌else◌, inl, inr, map, refl, some,
  subst, sym, ℕ, ◌%◌, ◌&&◌, ◌++◌, ◌+◌, ◌==◌, ◌||◌, ◌∙◌, ◌∷◌, ◌≡◌, ◌≢◌,
}
use ru_shell.Kernel.Proc.{
  Kernel, Layout, Policy, Proc, is_mlfq, running, sleeping, update_proc, wrap,
}
use ru_shell.Kernel.Sleep.{prepare, rouse, sleep, wake, wakeup}
use ru_shell.Kernel.Sched.{boost, clockintr, count_tick}
use ru_shell.Kernel.Sched.Ticks.{clockintr-entry, tick_entry}
use ru_shell.Kernel.System.{Event, clock, prepares, run, sleeps, step, wakes, with_running}

-- What other CPUs do meanwhile: a wakeup of a channel, or a tick of the clock.
pub data Signal : Type 0 where
  tick : Signal
  wake_of : ℕ → Signal

abbrev pub event_of : Signal → Event
event_of tick = clock
event_of (wake_of chan) = wakes chan

abbrev pub channel_of : Layout → Signal → ℕ
channel_of l tick = l.ticks_addr
channel_of l (wake_of chan) = chan

-- One of the signals is for the channel.
abbrev pub heard : Layout → ℕ → List Signal → Bool
heard l chan [] = false
heard l chan (s ∷ ss) = channel_of l s == chan || heard l chan ss

-- A RUNNING process that waits on the channel, or that has been signalled.
abbrev Waits : ℕ → Bool → Proc → Type 0
Waits chan done q = (q.state ≡ running) × (q.chan ≡ (if done then 0 else chan))

wake-Waits :
    (pol : Policy) (now c chan : ℕ) (done : Bool) (p : Proc)
    → Waits chan done p
    → Waits chan (done || c == chan) (wake pol now c p)
unfolding wake rouse
wake-Waits pol now c chan done p w = ground arith

count_tick-Waits :
    (pol : Policy) (now chan : ℕ) (done : Bool) (p : Proc)
    → Waits chan done p
    → Waits chan done (count_tick pol now p)
unfolding count_tick
count_tick-Waits pol now chan done p w = ground arith

boost-Waits :
    (now chan : ℕ) (done : Bool) (p : Proc) → Waits chan done p → Waits chan done (boost now p)
unfolding boost
boost-Waits now chan done p w = ground arith

tick-Waits :
    (pol : Policy) (l : Layout) (k : Kernel) (chan : ℕ) (done : Bool) (p : Proc)
    → Waits chan done p
    → Waits chan (done || l.ticks_addr == chan) (tick_entry pol l k p)
unfolding tick_entry
tick-Waits pol l k chan done p w =
    let now = wrap (k.ticks + 1) in
    let woken = wake pol now l.ticks_addr p in
    let a =
      count_tick-Waits pol now chan (done || l.ticks_addr == chan) woken
        (wake-Waits pol now l.ticks_addr chan done p w) in
    elim (Bool-cases (is_mlfq pol && now % 48 == 0)) [
      | inl e ↦ rw (tick_entry, e) (boost-Waits now chan _ (count_tick pol now woken) a)
      | inr e ↦ rw (tick_entry, e) a
    ]

or_assoc : (a b c : Bool) → ((a || b) || c) ≡ (a || (b || c))
or_assoc a b c = ground arith

wakeup-entry :
    (pol : Policy) (chan : ℕ) (k : Kernel) (i : ℕ) {p : Proc}
    → get_elem? k.procs i ≡ some p
    → get_elem? (wakeup pol chan k).procs i ≡ some (wake pol k.ticks chan p)
unfolding wakeup
wakeup-entry pol chan k i g = get_elem?-map-some k.procs i (wake pol k.ticks chan) g

-- The kernel after the signals.
abbrev signalled : Policy → Layout → List Signal → Kernel → Kernel
signalled pol l [] k = k
signalled pol l (tick ∷ ss) k = signalled pol l ss (clockintr pol l k)
signalled pol l (wake_of c ∷ ss) k = signalled pol l ss (wakeup pol c k)

signalled-Waits :
    (pol : Policy) (l : Layout) (chan i : ℕ) (ss : List Signal) (k : Kernel) (done : Bool)
    (p : Proc)
    → get_elem? k.procs i ≡ some p
    → Waits chan done p
    → (q : Proc) × (get_elem? (signalled pol l ss k).procs i ≡ some q)
      × Waits chan (done || heard l chan ss) q
signalled-Waits pol l chan i [] k done p g w = (p, g, subst (λ b. Waits chan b p) (or_false done) w)
  where
    or_false : (b : Bool) → b ≡ (b || false)
    or_false b = ground arith
signalled-Waits pol l chan i (tick ∷ ss) k done p g w =
    let (q, h, x) =
      signalled-Waits pol l chan i ss (clockintr pol l k) (done || l.ticks_addr == chan)
        (tick_entry pol l k p) (clockintr-entry pol l k i g) (tick-Waits pol l k chan done p w) in
    (q, h, subst (λ b. Waits chan b q) (or_assoc done (l.ticks_addr == chan) (heard l chan ss)) x)
signalled-Waits pol l chan i (wake_of c ∷ ss) k done p g w =
    let (q, h, x) =
      signalled-Waits pol l chan i ss (wakeup pol c k) (done || c == chan) (wake pol k.ticks c p)
        (wakeup-entry pol c k i g) (wake-Waits pol k.ticks c chan done p w) in
    (q, h, subst (λ b. Waits chan b q) (or_assoc done (c == chan) (heard l chan ss)) x)

signalled-run :
    (pol : Policy) (l : Layout) (ss : List Signal) (es : List Event) (k : Kernel)
    → run pol l (map event_of ss ++ es) k ≡ run pol l es (signalled pol l ss k)
unfolding run step
signalled-run pol l [] es k = refl
signalled-run pol l (tick ∷ ss) es k = signalled-run pol l ss es (clockintr pol l k)
signalled-run pol l (wake_of c ∷ ss) es k = signalled-run pol l ss es (wakeup pol c k)

-- The two ends of the wait.
prepared :
    (pol : Policy) (l : Layout) (chan i : ℕ) (es : List Event) (k : Kernel) (p : Proc)
    → get_elem? k.procs i ≡ some p
    → p.state ≡ running
    → chan ≢ 0
    → run pol l (prepares i chan ∷ es) k
      ≡ run pol l es (update_proc k i (λ _. record p { chan = chan }))
unfolding run step prepare
prepared pol l chan i es k p g r n =
    let z : (chan == 0) ≡ false = apart chan n in rw (run, with_running, g, r, z) refl
  where
    apart : (c : ℕ) → c ≢ 0 → (c == 0) ≡ false
    apart c n = ground arith

slept :
    (pol : Policy) (l : Layout) (i : ℕ) (k : Kernel) (p : Proc)
    → get_elem? k.procs i ≡ some p
    → p.state ≡ running
    → run pol l (sleeps i ∷ []) k ≡ update_proc k i (λ r. (sleep pol r).0)
unfolding run step
slept pol l i k p g r = rw (run, with_running, g, r) refl

sleep-Waits :
    (pol : Policy) (chan : ℕ) (done : Bool) (p : Proc)
    → chan ≢ 0
    → Waits chan done p
    → (sleep pol p).0.state ≡ (if done then running else sleeping)
unfolding sleep
sleep-Waits pol chan done p n w = ground arith

-- A process prepares to sleep on a channel; then there are any wakeups and ticks; then it calls
-- `sleep`. It sleeps then if and only if none of them was for its channel, and runs on if one was.
pub sleeps_unless_heard :
    (pol : Policy) (l : Layout) (chan i : ℕ) (ss : List Signal) (k : Kernel) (p : Proc)
    → get_elem? k.procs i ≡ some p
    → p.state ≡ running
    → chan ≢ 0
    → (q : Proc) × (get_elem?
          (run pol l (prepares i chan ∷ map event_of ss ++ sleeps i ∷ []) k).procs
          i
        ≡ some q)
      × (q.state ≡ (if heard l chan ss then running else sleeping))
sleeps_unless_heard pol l chan i ss k p g r n =
    let k' = update_proc k i (λ _. record p { chan = chan }) in
    let (q, h, w) =
      signalled-Waits pol l chan i ss k' false (record p { chan = chan })
        (get_elem?-update_self k.procs i (λ _. record p { chan = chan }) g) (r, refl) in
    let runs =
      prepared pol l chan i (map event_of ss ++ sleeps i ∷ []) k p g r n
      ∙ signalled-run pol l ss (sleeps i ∷ []) k'
      ∙ slept pol l i (signalled pol l ss k') q h w.0 in
    (
      (sleep pol q).0,
      subst (λ m. get_elem? m.procs i ≡ some (sleep pol q).0) (sym runs)
          (get_elem?-update_self (signalled pol l ss k').procs i (λ x. (sleep pol x).0) h),
      sleep-Waits pol chan (heard l chan ss) q n w,
    )
