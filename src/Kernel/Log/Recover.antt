-- ===== src/Kernel/Log/Recover.antt =====
-- `initlog` after a crash, or after any number of them: the disk gets the blocks that it shows.
use ru_shell.Kernel.Log.Writes.{bwrite-modify, written}
use ru_shell.Base.{
  Bool, List, [], ap, arith, false, if◌then◌else◌, inl, inr, length, none, refl, subst, true, ℕ,
  ◌+◌, ◌-◌, ◌<◌, ◌∙◌, ◌∷◌, ◌≡◌, ◌⊎◌,
}
use ru_shell.Kernel.Log.{
  Disk, Machine, Outcome, bread, bunpin, commit, contents, crashed, goes_on, initlog, install_trans,
  logblocks, put_header, read_head, recover_from_log, with_lh, write_head, ◌>>=◌,
}
use ru_shell.Kernel.Log.Header.{slot-found}
use ru_shell.Kernel.Log.Crash.{Ends, Ends-bind, Shows, Shows-empty, on_disk}
use ru_shell.Kernel.Log.Install.{Installing, install_trans-Ends}
use ru_shell.Kernel.Log.Ready.{IsReady, Settled, erased-Ends, intended}
use ru_shell.Kernel.Log.Commit.{EitherDisk, commit-Ends}

-- The machine as it starts, with nothing in its buffers, and `p` writes before it stops.
abbrev pub boot : ℕ → Disk → Machine
boot p d = record {
  log = record { start = 0; outstanding = 0; committing = false; ncommit = 0; lh = [] };
  cached = λ _. none;
  pins = λ _. 0;
  disk = d;
  power = p;
}

abbrev pub disk_of : Outcome → Disk
disk_of (crashed d) = d
disk_of (goes_on m) = m.disk

-- The disk after starts that stop behind so many writes.
abbrev pub reboots : ℕ → List ℕ → Disk → Disk
reboots start [] d = d
reboots start (p ∷ ps) d = reboots start ps (disk_of (initlog start (boot p d)))

-- The machine when `initlog` has read the header.
abbrev header_read : ℕ → ℕ → Disk → Machine
header_read start p d =
    let m = boot p d in read_head (record m { log = record m.log { start = start } })

start_Installing :
    (start p : ℕ) (t d : Disk)
    → Shows start t d
    → Installing start t (on_disk start d) 0 (on_disk start d) (header_read start p d)
unfolding read_head bread contents
start_Installing start p t d s = record {
  begins = refl;
  header = refl;
  shows = s;
  left = s.view;
  coherent = λ i l. ground arith;
  inside = let r = s.room in omega arith;
  found = slot-found 0 (on_disk start d);
  homes = s.homes;
}

initlog-Ends :
    (start p : ℕ) (t d : Disk)
    → Shows start t d
    → Ends (Shows start t) (Settled start t) (initlog start (boot p d))
unfolding initlog recover_from_log read_head contents
initlog-Ends start p t d s =
    let hs = on_disk start d in
    let m = header_read start p d in
    Ends-bind (Shows start t) (Settled start t) (install_trans true 0 hs m)
      (λ w. write_head (with_lh [] w))
      (install_trans-Ends start t hs true 0 hs m (start_Installing start p t d s))
      (erased-Ends start t)

disk_of-Shows :
    (start : ℕ) (t : Disk) (o : Outcome)
    → Ends (Shows start t) (Settled start t) o
    → Shows start t (disk_of o)
disk_of-Shows start t (crashed d) h = h
disk_of-Shows start t (goes_on m) h = Shows-empty start t m.disk h.quiet h.plain

-- However often the machine stops while it recovers, the disk goes on to show the same.
reboots-Shows :
    (start : ℕ) (t : Disk) (ps : List ℕ) (d : Disk)
    → Shows start t d
    → Shows start t (reboots start ps d)
reboots-Shows start t [] d s = s
reboots-Shows start t (p ∷ ps) d s =
    let o = initlog start (boot p d) in
    reboots-Shows start t ps (disk_of o) (disk_of-Shows start t o (initlog-Ends start p t d s))

power-unpin : (r : Bool) (b : ℕ) (w : Machine) → (if r then w else bunpin b w).power ≡ w.power
unfolding bunpin
power-unpin true b w = refl
power-unpin false b w = refl

-- With enough writes left the copies are made.
install_trans-runs :
    (r : Bool) (tail : ℕ) (bs : List ℕ) (m : Machine)
    → length bs < m.power
    → (w : Machine) × (install_trans r tail bs m ≡ goes_on w) × (0 < w.power)
unfolding install_trans bread written
install_trans-runs r tail [] m l = (m, refl, l)
install_trans-runs r tail (b ∷ bs) m l =
    let from = m.log.start + tail + 1 in
    let read = bread b (bread from m) in
    let p = m.power - 1 in
    let d = contents read from in
    let w = if r then written d b p read else bunpin b (written d b p read) in
    let enough : length bs < w.power =
      (let e = power-unpin r b (written d b p read) in omega arith) in
    rw (bwrite-modify d b p read (omega arith)) (install_trans-runs r (tail + 1) bs w enough)

write_head-runs : (m : Machine) → 0 < m.power → (w : Machine) × (write_head m ≡ goes_on w)
unfolding write_head bread
write_head-runs m l =
    let s = m.log.start in
    let h = put_header m.log.lh (contents m s) in
    let p = m.power - 1 in
    (written h s p (bread s m), bwrite-modify h s p (bread s m) (omega arith))

initlog-runs :
    (start p : ℕ) (d : Disk)
    → length (on_disk start d) < p
    → (w : Machine) × (initlog start (boot p d) ≡ goes_on w)
unfolding initlog recover_from_log read_head contents
initlog-runs start p d l =
    let m = header_read start p d in
    let (i, e, left) = install_trans-runs true 0 (on_disk start d) m l in
    let (w, e') = write_head-runs (with_lh [] i) left in
    (w, ap (λ o. o >>= (λ x. write_head (with_lh [] x))) e ∙ e')

-- The disk after a commit that may stop, starts that may stop too, and one that does not.
recovered-Settled :
    (start p : ℕ) (t d : Disk) (ps : List ℕ)
    → logblocks < p
    → Shows start t d
    → (w : Machine) × (initlog start (boot p (reboots start ps d)) ≡ goes_on w) × Settled start t w
recovered-Settled start p t d ps l s =
    let s' = reboots-Shows start t ps d s in
    let (w, e) = initlog-runs start p (reboots start ps d) (let r = s'.room in omega arith) in
    (
      w,
      e,
      subst (Ends (Shows start t) (Settled start t)) e
          (initlog-Ends start p t (reboots start ps d) s'),
    )

-- The outcome of a commit shows the blocks as they were, or as the transaction leaves them.
disk_of-commit :
    (m : Machine) (o : Outcome)
    → Ends (EitherDisk m) (Settled m.log.start (intended m)) o
    → EitherDisk m (disk_of o)
disk_of-commit m (crashed d) h = h
disk_of-commit m (goes_on w) h = inr (Shows-empty m.log.start (intended m) w.disk h.quiet h.plain)

-- A machine stops anywhere within `commit`, or behind it, and then anywhere within any number of
-- recoveries. A recovery that may do more than `logblocks` writes ends, with the log on the disk
-- empty; outside the log the disk then has everywhere the blocks from before the transaction, or
-- everywhere those that the transaction leaves.
pub commit_is_atomic :
    (m : Machine) (ps : List ℕ) (p : ℕ)
    → IsReady m
    → logblocks < p
    → (w : Machine) × (initlog m.log.start (boot p (reboots m.log.start ps (disk_of (commit m))))
        ≡ goes_on w)
      × (Settled m.log.start m.disk w ⊎ Settled m.log.start (intended m) w)
commit_is_atomic m ps p h l =
    let start = m.log.start in
    elim (disk_of-commit m (commit m) (commit-Ends m h)) [
      | inl s ↦
          let (w, e, q) = recovered-Settled start p m.disk (disk_of (commit m)) ps l s in
          (w, e, inl q)
      | inr s ↦
          let (w, e, q) = recovered-Settled start p (intended m) (disk_of (commit m)) ps l s in
          (w, e, inr q)
    ]
