-- ===== src/Kernel/Fs.antt =====
-- The file system of xv6/kernel/fs.c, on one device. A block is seen as its bytes and, if it is an
-- indirect block, as its words; the bitmap as a bit for each block, and the inodes on the disk by
-- their number. Buffers, the log and locks have their own modules and are left out here.
use ru_shell.Base.{
  Bool, List, Option, false, if◌then◌else◌, ltb, none, not, some, suc, true, zero, ℕ, ◌+◌, ◌-◌, ◌/◌,
  ◌==◌,
}
use ru_shell.Kernel.Exec.{Exec, gets, modify_state, panic, pure, ◌>>=◌, ◌>>◌}
pub mod Inodes
pub mod Content
pub mod Paths
pub mod Blocks

abbrev pub bsize : ℕ
bsize = 1024

abbrev pub ndirect : ℕ
ndirect = 12

abbrev pub nindirect : ℕ
nindirect = bsize / 4

abbrev pub maxfile : ℕ
maxfile = ndirect + nindirect

-- The sizes of `struct superblock` that fs.c uses.
pub record Superblock : Type 0 where
  pub size : ℕ
  pub ninodes : ℕ

-- `struct dinode`. A short is its 16 bits.
pub record Dinode : Type 0 where
  pub type : ℕ
  pub major : ℕ
  pub minor : ℕ
  pub nlink : ℕ
  pub size : ℕ
  pub addrs : ℕ → ℕ

-- `struct inode`: its copy of the dinode is `body`.
pub record Inode : Type 0 where
  pub dev : ℕ
  pub inum : ℕ
  pub ref : ℕ
  pub valid : Bool
  pub body : Dinode

pub record Fs : Type 0 where
  pub sb : Superblock
  pub used : ℕ → Bool
  pub bytes : ℕ → ℕ → ℕ
  pub words : ℕ → ℕ → ℕ
  pub dinodes : ℕ → Dinode
  pub itable : List Inode

abbrev pub FsM : Type 0 → Type 0
FsM A = Exec Fs A

abbrev pub put {ℓ} : {A : Type ℓ} → ℕ → A → (ℕ → A) → ℕ → A
put b x f j = if j == b then x else f j

unfoldable pub bzero : ℕ → FsM Unit
bzero b fs =
    some (tt, record fs { bytes = put b (λ _. 0) fs.bytes; words = put b (λ _. 0) fs.words })

-- The scan of `balloc`: the first free block from `b` on, with `n` blocks left.
unfoldable pub first_free : (ℕ → Bool) → ℕ → ℕ → Option ℕ
first_free used b zero = none
first_free used b (suc n) =
    let rest = first_free used (b + 1) n in if not (used b) then some b else rest

-- 0 is a disk that is full, and block 0.
unfoldable pub balloc : FsM ℕ
unfolding first_free bzero
balloc fs = elim (first_free fs.used 0 fs.sb.size) [
  | none ↦ some (0, fs)
  | some b ↦ (bzero b >> pure b) (record fs { used = put b true fs.used })
]

unfoldable pub bfree : ℕ → FsM Unit
bfree b fs = if not (fs.used b) then none else some (tt, record fs { used = put b false fs.used })

abbrev pub set_addr : Inode → ℕ → ℕ → Inode
set_addr ip i addr = record ip { body = record ip.body { addrs = put i addr ip.body.addrs } }

-- The block at an index of `addrs`, a new one if there is none.
unfoldable pub addr_or_new : Inode → ℕ → FsM (ℕ × Inode)
unfolding balloc
addr_or_new ip i =
    if not (ip.body.addrs i == 0)
    then pure (ip.body.addrs i, ip)
    else do addr ← balloc; if addr == 0 then pure (0, ip) else pure (addr, set_addr ip i addr)

-- The block at an index of an indirect block, a new one if there is none.
unfoldable pub word_or_new : ℕ → ℕ → FsM ℕ
unfolding balloc
word_or_new table i = do
  addr ← gets (λ fs. fs.words table i)
  if not (addr == 0) then pure addr else do
    new ← balloc
    if new == 0
        then pure 0
        else modify_state
            (λ fs. record fs { words = put table (put i new (fs.words table)) fs.words })
          >> pure new

unfoldable pub bmap : Inode → ℕ → FsM (ℕ × Inode)
unfolding addr_or_new word_or_new
bmap ip bn =
    if ltb bn ndirect
    then addr_or_new ip bn
    else if ltb (bn - ndirect) nindirect
    then (do
      (table, ip') ← addr_or_new ip ndirect
      if table == 0
          then pure (0, ip')
          else do addr ← word_or_new table (bn - ndirect); pure (addr, ip'))
    else panic
