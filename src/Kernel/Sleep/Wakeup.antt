-- ===== src/Kernel/Sleep/Wakeup.antt =====
-- What `wakeup` does to the table.
use ru_shell.Base.{
  ==_iff, Bool-cases, ap, arith, false, get_elem?, inl, inr, some, sym, true, ℕ, ◌==◌, ◌∙◌, ◌≡◌,
  ◌≢◌,
}
use ru_shell.Kernel.Proc.{Kernel, Policy, Proc, is_sleeping, runnable}
use ru_shell.Kernel.Proc.Table.{get_elem?-map, get_elem?-map-some}
use ru_shell.Kernel.Sleep.{rouse, wake, wakeup}

-- Entry `p` before and `q` after a wakeup of `chan`.
pub record Woken (chan : ℕ) (p q : Proc) : Type 0 where
  pub signalled : p.chan ≡ chan → q.chan ≡ 0
  pub woken : p.chan ≡ chan → is_sleeping p.state ≡ true → q.state ≡ runnable
  pub awake : is_sleeping p.state ≡ false → q.state ≡ p.state
  pub other : p.chan ≢ chan → q ≡ p

wake-Woken : (pol : Policy) (now chan : ℕ) (p : Proc) → Woken chan p (wake pol now chan p)
unfolding wake rouse
wake-Woken pol now chan p = record {
  signalled = λ e. ground arith;
  woken = λ e s. ground arith;
  awake = λ s. ground arith;
  other = λ n. ground arith;
}

-- `wakeup` signals every process that waits on the channel and makes those of them runnable that
-- sleep; it changes the state of no other process, and nothing of a process on another channel. No
-- process waits on the channel then.
pub wakeup-Woken :
    (pol : Policy) (chan : ℕ) (k : Kernel)
    → chan ≢ 0
    → ((i : ℕ) (p : Proc)
        → get_elem? k.procs i ≡ some p
        → (q : Proc) × (get_elem? (wakeup pol chan k).procs i ≡ some q) × Woken chan p q)
      × ((i : ℕ) (q : Proc) → get_elem? (wakeup pol chan k).procs i ≡ some q → q.chan ≢ chan)
unfolding wakeup
wakeup-Woken pol chan k nz = (
  λ i p g. (
    wake pol k.ticks chan p,
    get_elem?-map-some k.procs i (wake pol k.ticks chan) g,
    wake-Woken pol k.ticks chan p,
  ),
  λ i q g. let (p, h, e) = get_elem?-map k.procs i (wake pol k.ticks chan) g in gone p q e,
)
  where
    gone : (p q : Proc) → q ≡ wake pol k.ticks chan p → q.chan ≢ chan
    gone p q e = elim (Bool-cases (p.chan == chan)) [
      | inl x ↦ λ y.
          let s = (wake-Woken pol k.ticks chan p).signalled ((==_iff p.chan chan).0 x) in
          let z : (wake pol k.ticks chan p).chan ≡ q.chan = ap (λ r. r.chan) (sym e) in
          nz (sym y ∙ sym z ∙ s)
      | inr x ↦ λ y.
          let n = apart p.chan x in
          let z = ap (λ r. r.chan) e ∙ ap (λ r. r.chan) ((wake-Woken pol k.ticks chan p).other n) in
          n (sym z ∙ y)
    ]
      where
        apart : (n : ℕ) → (n == chan) ≡ false → n ≢ chan
        apart n x = ground arith
