-- ===== src/Kernel/Log.antt =====
-- The redo log of xv6/kernel/log.c: a block is a map from word offsets to words, and the disk a map
-- from block numbers to blocks. The machine may stop before any write to the disk. The device is
-- `log.dev` throughout; the lock and what is printed are left out.
use ru_shell.Base.{
  Bool, List, Option, [], false, if◌then◌else◌, leb, length, ltb, none, not, some, suc, true, zero,
  ℕ, ◌&&◌, ◌*◌, ◌+◌, ◌-◌, ◌==◌, ◌^◌, ◌||◌, ◌∷◌,
}
use ru_shell.Kernel.Proc.{wrap}
pub mod Header
pub mod Crash
pub mod Copies
pub mod Writes
pub mod Install
pub mod Save
pub mod Ready
pub mod Commit
pub mod Recover
pub mod Calls
pub mod Steps
pub mod Space
pub mod Rounds

abbrev pub maxopblocks : ℕ
maxopblocks = 10

abbrev pub logblocks : ℕ
logblocks = maxopblocks * 3

abbrev pub Block : Type 0
Block = ℕ → ℕ

abbrev pub Disk : Type 0
Disk = ℕ → Block

-- `lh` holds the entries of `lh.block` below `lh.n`. `outstanding` is an int, here its 32 bits.
pub record Log : Type 0 where
  pub start : ℕ
  pub outstanding : ℕ
  pub committing : Bool
  pub ncommit : ℕ
  pub lh : List ℕ

-- What the buffer cache holds of a block, how often a block is pinned, and how many writes the disk
-- carries out before the machine stops.
pub record Machine : Type 0 where
  pub log : Log
  pub cached : ℕ → Option Block
  pub pins : ℕ → ℕ
  pub disk : Disk
  pub power : ℕ

-- A run that goes on, or that stopped with this on the disk.
pub data Outcome : Type 0 where
  crashed : Disk → Outcome
  goes_on : Machine → Outcome

infixl 5 ◌>>=◌
abbrev pub ◌>>=◌ : Outcome → (Machine → Outcome) → Outcome
crashed d >>= f = crashed d
goes_on m >>= f = f m

abbrev pub put {ℓ} : {A : Type ℓ} → ℕ → A → (ℕ → A) → ℕ → A
put b x f j = if j == b then x else f j

-- What `bread` finds in the buffer of block `b`.
unfoldable pub contents : Machine → ℕ → Block
contents m b = elim (m.cached b) [ none ↦ m.disk b | some d ↦ d ]

-- `bread`: the block is cached from then on.
unfoldable pub bread : ℕ → Machine → Machine
unfolding contents
bread b m = record m { cached = put b (some (contents m b)) m.cached }

-- A write to the data of a buffer.
unfoldable pub modify : ℕ → Block → Machine → Machine
modify b d m = record m { cached = put b (some d) m.cached }

-- `bwrite`
unfoldable pub bwrite : ℕ → Machine → Outcome
unfolding contents
bwrite b m = elim m.power [
  | zero ↦ crashed m.disk
  | suc p ↦ goes_on (record m { disk = put b (contents m b) m.disk; power = p })
]

-- `bpin` and `bunpin`, whose count is a `uint`.
unfoldable pub bpin : ℕ → Machine → Machine
bpin b m = record m { pins = put b (wrap (m.pins b + 1)) m.pins }

unfoldable pub bunpin : ℕ → Machine → Machine
bunpin b m = record m { pins = put b (wrap (m.pins b + 2 ^ 32 - 1)) m.pins }

abbrev pub with_lh : List ℕ → Machine → Machine
with_lh bs m = record m { log = record m.log { lh = bs } }

-- `install_trans` for the entries of the header from `tail` on.
unfoldable pub install_trans : Bool → ℕ → List ℕ → Machine → Outcome
unfolding bread modify bwrite bunpin
install_trans recovering tail [] m = goes_on m
install_trans recovering tail (b ∷ bs) m =
    let from = m.log.start + tail + 1 in
    let read = bread b (bread from m) in
    bwrite b (modify b (contents read from) read)
    >>= (λ w. install_trans recovering (tail + 1) bs (if recovering then w else bunpin b w))

-- The words of a header from entry `i` on, `n` of them.
unfoldable pub header_entries : Block → ℕ → ℕ → List ℕ
header_entries h i zero = []
header_entries h i (suc n) = h (i + 1) ∷ header_entries h (i + 1) n

-- The header that a block holds: `n` in its first word, then `block`.
unfoldable pub header_of : Block → List ℕ
unfolding header_entries
header_of h = header_entries h 0 (h 0)

unfoldable pub read_head : Machine → Machine
unfolding bread contents header_of
read_head m = with_lh (header_of (contents m m.log.start)) (bread m.log.start m)

-- The entries of the header stored into a block from entry `i` on.
unfoldable pub put_entries : ℕ → List ℕ → Block → Block
put_entries i [] h = h
put_entries i (b ∷ bs) h = put_entries (i + 1) bs (put (i + 1) b h)

unfoldable pub put_header : List ℕ → Block → Block
unfolding put_entries
put_header bs h = put_entries 0 bs (put 0 (length bs) h)

unfoldable pub write_head : Machine → Outcome
unfolding bread contents modify bwrite put_header
write_head m =
    let read = bread m.log.start m in
    bwrite m.log.start (modify m.log.start (put_header m.log.lh (contents m m.log.start)) read)

unfoldable pub recover_from_log : Machine → Outcome
unfolding read_head install_trans write_head
recover_from_log m =
    let read = read_head m in
    install_trans true 0 read.log.lh read >>= (λ w. write_head (with_lh [] w))

-- `initlog`, behind the check of a constant.
unfoldable pub initlog : ℕ → Machine → Outcome
unfolding recover_from_log
initlog logstart m = recover_from_log (record m { log = record m.log { start = logstart } })

-- `write_log` for the entries of the header from `tail` on.
unfoldable pub write_log : ℕ → List ℕ → Machine → Outcome
unfolding bread modify bwrite contents
write_log tail [] m = goes_on m
write_log tail (b ∷ bs) m =
    let slot = m.log.start + tail + 1 in
    let read = bread b (bread slot m) in
    bwrite slot (modify slot (contents read b) read) >>= write_log (tail + 1) bs

unfoldable pub commit : Machine → Outcome
unfolding write_log write_head install_trans
commit m =
    if ltb 0 (length m.log.lh)
    then (do
      logged ← write_log 0 m.log.lh m
      committed ← write_head logged
      installed ← install_trans false 0 committed.log.lh committed
      write_head (with_lh [] installed))
    else goes_on m

-- `begin_op` adds a system call to those that run, or sleeps on the log (`none`).
unfoldable pub begin_op : Log → Option Log
begin_op l =
    let needed = wrap (length l.lh + (l.outstanding + 1) * maxopblocks) in
    if l.committing
    then none
    else if ltb logblocks needed && ltb needed (2 ^ 31)
    then none
    else some (record l { outstanding = wrap (l.outstanding + 1) })

-- What the locked part of `end_op` does: it panics, commits, or wakes the sleepers on the log.
pub data Ending : Type 0 where
  ends_in_panic : Ending
  must_commit : Log → Ending
  wakes : Log → Ending

unfoldable pub end_op : Log → Ending
end_op l =
    let left = wrap (l.outstanding + 2 ^ 32 - 1) in
    if l.committing
    then ends_in_panic
    else if left == 0
    then must_commit (record l { outstanding = left; committing = true })
    else wakes (record l { outstanding = left })

-- The end of `end_op`, behind `commit`.
unfoldable pub end_commit : Log → Log
end_commit l = record l { committing = false; ncommit = wrap (l.ncommit + 1) }

-- The loop of `log_write` with `bpin`: the header with the block in it, and whether it is new.
unfoldable pub absorb : ℕ → List ℕ → List ℕ × Bool
absorb b [] = (b ∷ [], true)
absorb b (x ∷ xs) =
    let (rest, fresh) = absorb b xs in if x == b then (x ∷ xs, false) else (x ∷ rest, fresh)

-- `log_write`: `none` is a panic, for a transaction too big or for a write outside of any.
unfoldable pub log_write : ℕ → Machine → Option Machine
unfolding absorb bpin
log_write b m =
    let (bs, fresh) = absorb b m.log.lh in
    let noted = with_lh bs m in
    if leb logblocks (length m.log.lh)
    then none
    else if m.log.outstanding == 0 || leb (2 ^ 31) m.log.outstanding
    then none
    else some (if fresh then bpin b noted else noted)

-- `sys_sync`: the number of commits that it waits for, if it waits.
unfoldable pub sys_sync : Log → Option ℕ
sys_sync l =
    if l.committing || (not (l.outstanding == 0) && ltb l.outstanding (2 ^ 31))
    then some (wrap (l.ncommit + 1))
    else none
