-- ===== src/Kernel/Log/Crash.antt =====
-- What the log of xv6/kernel/log.c promises of a disk: the blocks that a recovery would show.
use ru_shell.Base.{List, [], arith, length, none, some, ℕ, ◌+◌, ◌<◌, ◌≡◌, ◌≤◌, ◌⊎◌}
use ru_shell.Kernel.Log.{Disk, Machine, Outcome, crashed, header_of, logblocks, goes_on, ◌>>=◌}
use ru_shell.Kernel.Log.Header.{All, slot}

-- A run that ends in `Q`, and that leaves `C` on the disk where it stops.
abbrev pub Ends : (Disk → Type 0) → (Machine → Type 0) → Outcome → Type 0
Ends C Q (crashed d) = C d
Ends C Q (goes_on m) = Q m

pub Ends-bind :
    (C : Disk → Type 0) {Q : Machine → Type 0} (R : Machine → Type 0) (o : Outcome)
    (f : Machine → Outcome)
    → Ends C Q o
    → ((m : Machine) → Q m → Ends C R (f m))
    → Ends C R (o >>= f)
Ends-bind C R (crashed d) f h g = h
Ends-bind C R (goes_on m) f h g = g m h

-- Outside the log: neither its header, at `start`, nor one of the blocks behind it.
abbrev pub IsHome : ℕ → ℕ → Type 0
IsHome start b = (b < start) ⊎ (start + logblocks < b)

-- The block `b` once the entries `bs`, the first of them `tail`, are installed.
abbrev pub replayed : ℕ → ℕ → List ℕ → Disk → Disk
replayed start tail bs d b = elim (slot b tail bs) [ none ↦ d b | some i ↦ d (start + i + 1) ]

abbrev pub on_disk : ℕ → Disk → List ℕ
on_disk start d = header_of (d start)

-- The header on the disk lists blocks outside the log that fit it, and with their copies in the log
-- installed the disk has the blocks `t`.
pub record Shows (start : ℕ) (t : Disk) (d : Disk) : Type 0 where
  pub homes : All (IsHome start) (on_disk start d)
  pub room : length (on_disk start d) ≤ logblocks
  pub view : (b : ℕ) → IsHome start b → replayed start 0 (on_disk start d) d b ≡ t b

-- With an empty header the disk shows the blocks that are on it.
pub Shows-empty :
    (start : ℕ) (t d : Disk)
    → on_disk start d ≡ []
    → ((b : ℕ) → IsHome start b → d b ≡ t b)
    → Shows start t d
Shows-empty start t d e h = record {
  homes = rw e tt;
  room = rw e (omega arith);
  view = λ b home. rw e (h b home);
}

pub Shows-plain :
    (start : ℕ) (t d : Disk)
    → on_disk start d ≡ []
    → Shows start t d
    → (b : ℕ) → IsHome start b
    → d b ≡ t b
Shows-plain start t d e s b home = let v = s.view b home in cc (e, v)
