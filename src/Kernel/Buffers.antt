-- ===== src/Kernel/Buffers.antt =====
-- The buffer cache of xv6/kernel/bio.c. The linked list is a list, `head.next` first, and a pointer
-- to a buffer is its index in `bcache.buf`. The driver of the disk is a map of block contents.
use ru_shell.Base.{
  Bool, List, Option, [], false, find, if◌then◌else◌, none, some, suc, true, update_first, zero, ℕ,
  ◌&&◌, ◌+◌, ◌-◌, ◌==◌, ◌^◌, ◌∷◌,
}
use ru_shell.Kernel.Proc.{wrap}
use ru_shell.Kernel.Locks.{Sleeplock, acquiresleep, holdingsleep, initsleeplock, releasesleep}
pub mod Counts
pub mod Recent
pub mod Unique

abbrev pub nbuf : ℕ
nbuf = 30

abbrev pub Bytes : Type 0
Bytes = ℕ → ℕ

pub record Buf : Type 0 where
  pub index : ℕ
  pub valid : Bool
  pub dev : ℕ
  pub blockno : ℕ
  pub lock : Sleeplock
  pub refcnt : ℕ
  pub content : Bytes

-- A buffer of `bcache` as the kernel starts.
abbrev pub zero_buf : ℕ → Buf
zero_buf i = record {
  index = i;
  valid = false;
  dev = 0;
  blockno = 0;
  lock = record { locked = false; pid = 0 };
  refcnt = 0;
  content = λ _. 0;
}

-- The loop of `binit`, which puts each buffer in front.
unfoldable pub link_buffers : ℕ → List Buf
unfolding initsleeplock
link_buffers zero = []
link_buffers (suc i) = record (zero_buf i) { lock = initsleeplock } ∷ link_buffers i

unfoldable pub binit : List Buf
unfolding link_buffers
binit = link_buffers nbuf

abbrev pub is_block : ℕ → ℕ → Buf → Bool
is_block dev blockno b = b.dev == dev && b.blockno == blockno

abbrev pub is_buffer : ℕ → Buf → Bool
is_buffer i b = b.index == i

abbrev pub is_unused_buf : Buf → Bool
is_unused_buf b = b.refcnt == 0

unfoldable pub add_reference : Buf → Buf
add_reference b = record b { refcnt = wrap (b.refcnt + 1) }

unfoldable pub drop_reference : Buf → Buf
drop_reference b = record b { refcnt = wrap (b.refcnt + 2 ^ 32 - 1) }

unfoldable pub recycle : ℕ → ℕ → Buf → Buf
recycle dev blockno b = record b { dev = dev; blockno = blockno; valid = false; refcnt = 1 }

-- The walk from `head.prev`: the last buffer that passes the test is changed.
unfoldable pub update_last : (Buf → Bool) → (Buf → Buf) → List Buf → Option (ℕ × List Buf)
update_last test f [] = none
update_last test f (b ∷ bs) = elim (update_last test f bs) [
  | some (i, bs') ↦ some (i, b ∷ bs')
  | none ↦ if test b then some (b.index, f b ∷ bs) else none
]

-- `bget` up to `acquiresleep`: the buffer, and the list; `none` is the panic.
unfoldable pub bget : ℕ → ℕ → List Buf → Option (ℕ × List Buf)
unfolding add_reference recycle update_last
bget dev blockno bs = elim (find (is_block dev blockno) bs) [
  | some b ↦ some (b.index, update_first (is_block dev blockno) add_reference bs)
  | none ↦ update_last is_unused_buf (recycle dev blockno) bs
]

-- `bread` behind `acquiresleep`, where the disk has `d` in the block.
unfoldable pub fill : Bytes → Buf → Buf
fill d b = if b.valid then b else record b { content = d; valid = true }

-- How a call ends: it panics, or sleeps on the lock of a buffer, or is done.
pub data BufferEnd {ℓ} (A : Type ℓ) : Type ℓ where
  buffer_panic : BufferEnd A
  buffer_sleeps : ℕ → List Buf → BufferEnd A
  buffer_done : A → List Buf → BufferEnd A

abbrev pub with_lock : Sleeplock → Buf → Buf
with_lock lk b = record b { lock = lk }

-- The end of `bread` for the buffer that `bget` found, whose lock is still to be taken.
unfoldable pub lock_and_fill : (ℕ → ℕ → Bytes) → ℕ → ℕ → List Buf → BufferEnd ℕ
unfolding acquiresleep fill
lock_and_fill disk pid i bs = elim (find (is_buffer i) bs) [
  | none ↦ buffer_panic
  | some b ↦ elim (acquiresleep pid b.lock) [
    | none ↦ buffer_sleeps i bs
    | some lk ↦
        buffer_done i
          (update_first (is_buffer i) (λ x. fill (disk x.dev x.blockno) (with_lock lk x)) bs)
  ]
]

unfoldable pub bread : (ℕ → ℕ → Bytes) → ℕ → ℕ → ℕ → List Buf → BufferEnd ℕ
unfolding bget lock_and_fill
bread disk pid dev blockno bs = elim (bget dev blockno bs) [
  | none ↦ buffer_panic
  | some (i, bs') ↦ lock_and_fill disk pid i bs'
]

-- `bwrite` writes the block, or panics.
unfoldable pub bwrite : ℕ → Buf → (ℕ → ℕ → Bytes) → Option (ℕ → ℕ → Bytes)
unfolding holdingsleep
bwrite pid b disk =
    if holdingsleep pid b.lock
    then some (λ dev blockno. if is_block dev blockno b then b.content else disk dev blockno)
    else none

abbrev pub delete_first : (Buf → Bool) → List Buf → List Buf
delete_first test [] = []
delete_first test (b ∷ bs) = let rest = delete_first test bs in if test b then bs else b ∷ rest

-- The end of `brelse`: a buffer that nothing refers to moves to the front.
unfoldable pub put_back : ℕ → List Buf → List Buf
put_back i bs = elim (find (is_buffer i) bs) [
  | none ↦ bs
  | some b ↦ if b.refcnt == 0 then b ∷ delete_first (is_buffer i) bs else bs
]

-- `brelse`: `none` is the panic for a buffer that the caller has not locked.
unfoldable pub brelse : ℕ → ℕ → List Buf → Option (List Buf)
unfolding holdingsleep releasesleep drop_reference put_back
brelse pid i bs = elim (find (is_buffer i) bs) [
  | none ↦ none
  | some b ↦
      let released = λ (x : Buf). drop_reference (with_lock (releasesleep x.lock) x) in
      if holdingsleep pid b.lock
      then some (put_back i (update_first (is_buffer i) released bs))
      else none
]

unfoldable pub bpin : ℕ → List Buf → List Buf
unfolding add_reference
bpin i bs = update_first (is_buffer i) add_reference bs

unfoldable pub bunpin : ℕ → List Buf → List Buf
unfolding drop_reference
bunpin i bs = update_first (is_buffer i) drop_reference bs
