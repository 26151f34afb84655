-- ===== src/Kernel/Log/Writes.antt =====
-- One write of the log to the disk: what the machine is then, if it still runs.
use ru_shell.Base.{ap, arith, inl, inr, refl, suc, zero, ℕ, ◌≡◌, ◌⊎◌}
use ru_shell.Kernel.Log.{
  Block, Disk, Machine, Outcome, bread, bwrite, contents, crashed, goes_on, modify, put, ◌>>=◌,
}
use ru_shell.Kernel.Log.Crash.{Ends}

ℕ-cases : (n : ℕ) → (n ≡ 0) ⊎ ((p : ℕ) × (n ≡ suc p))
ℕ-cases zero = inl refl
ℕ-cases (suc p) = inr (p, refl)

-- The block `x` set to `d` in its buffer and on the disk.
unfoldable pub written : Block → ℕ → ℕ → Machine → Machine
unfolding modify
written d x p m = record (modify x d m) { disk = put x d m.disk; power = p }

pub contents-bread : (b a : ℕ) (m : Machine) → contents (bread b m) a ≡ contents m a
unfolding contents bread
contents-bread b a m = ground arith

pub contents-written :
    (d : Block) (x p a : ℕ) (m : Machine) → contents (written d x p m) a ≡ put x d (contents m) a
unfolding contents modify written
contents-written d x p a m = ground arith

pub bwrite-modify :
    (d : Block) (x p : ℕ) (m : Machine)
    → m.power ≡ suc p
    → bwrite x (modify x d m) ≡ goes_on (written d x p m)
unfolding contents modify written bwrite
bwrite-modify d x p m e =
    let here : contents (modify x d m) x ≡ d = ground arith in
    rw (e, bwrite)
      (ap (λ (v : Block). goes_on (record (modify x d m) { disk = put x v m.disk; power = p }))
        here)

stops : (d : Block) (x : ℕ) (m : Machine) → m.power ≡ 0 → bwrite x (modify x d m) ≡ crashed m.disk
unfolding modify bwrite
stops d x m e = rw (e, bwrite) refl

-- A write either stops the machine, with the disk as it was, or is done.
pub write-Ends :
    (C : Disk → Type 0) (Q : Machine → Type 0) (d : Block) (x : ℕ) (m : Machine)
    (f : Machine → Outcome)
    → C m.disk
    → ((p : ℕ) → m.power ≡ suc p → Ends C Q (f (written d x p m)))
    → Ends C Q (bwrite x (modify x d m) >>= f)
write-Ends C Q d x m f c h = elim (ℕ-cases m.power) [
  | inl e ↦ rw (stops d x m e) c
  | inr (p, e) ↦ rw (bwrite-modify d x p m e) (h p e)
]
