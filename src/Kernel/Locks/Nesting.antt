-- ===== src/Kernel/Locks/Nesting.antt =====
-- The interrupt switch of xv6/kernel/spinlock.c nests.
use ru_shell.Kernel.Proc.{wrap}
use ru_shell.Base.{
  Bool, arith, false, if◌then◌else◌, leb, refl, some, ◌&&◌, ◌+◌, ◌-◌, ◌<◌, ◌==◌, ◌^◌, ◌||◌, ◌≡◌,
  ◌≢◌,
}
use ru_shell.Kernel.Locks.{Cpu, pop_off, push_off}

-- Whether the processor took interrupts before the outermost `push_off`.
abbrev pub outer : Cpu → Bool
outer c = if c.noff == 0 then c.interrupts else c.intena

-- Inside a section that is not interrupted, the switch is off.
pub record IsNested (c : Cpu) : Type 0 where
  pub bound : c.noff < 2 ^ 31
  pub off : c.noff ≢ 0 → c.interrupts ≡ false

-- `pop_off` undoes a `push_off`: it does not panic, and the interrupts are on again exactly if the
-- `push_off` was the outermost and found them on.
pub pop_off-push_off :
    (c : Cpu)
    → c.noff + 1 < 2 ^ 31
    → IsNested c
    → (c' : Cpu) × (pop_off (push_off c) ≡ some c')
      × (c'.noff ≡ c.noff)
      × (outer c' ≡ outer c)
      × (c'.interrupts ≡ c.interrupts)
unfolding push_off pop_off
pop_off-push_off c l h =
    let c' : Cpu = record {
      noff = c.noff;
      intena = outer c;
      interrupts = c.noff == 0 && outer c;
    } in
    let o = h.off in
    let back : wrap (wrap (c.noff + 1) + 2 ^ 32 - 1) ≡ c.noff = omega arith in
    let inside : (wrap (c.noff + 1) == 0 || leb (2 ^ 31) (wrap (c.noff + 1))) ≡ false =
      ground arith in
    (c', rw (inside, back) refl, refl, ground arith, ground (arith, o))
