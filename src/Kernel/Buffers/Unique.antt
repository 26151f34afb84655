-- ===== src/Kernel/Buffers/Unique.antt =====
-- The buffer cache of xv6/kernel/bio.c holds no block twice, and loses no buffer.
use ru_shell.Kernel.Locks.{Sleeplock, acquiresleep, holdingsleep, releasesleep}
use ru_shell.Base.{
  Bool, Bool-cases, List, Option, Option-cases, arith, find, if◌then◌else◌, inl, inr, ltb, none,
  refl, some, subst, suc, update_first, zero, ℕ, ◌&&◌, ◌+◌, ◌<◌, ◌==◌, ◌∙◌, ◌≡◌, ◌≢◌, ◌≤◌,
}
use ru_shell.Kernel.Buffers.{
  Buf, BufferEnd, Bytes, add_reference, bget, binit, bpin, bread, brelse, buffer_done, buffer_panic,
  buffer_sleeps, bunpin, drop_reference, fill, is_block, is_buffer, is_unused_buf, link_buffers,
  lock_and_fill, nbuf, put_back, recycle, with_lock,
}
use ru_shell.Kernel.Buffers.Counts.{count_of, count_of-delete_first, count_of-update_first}
use ru_shell.Kernel.Buffers.Recent.{
  Bget, LastChanged, bget-Bget, bget_hit, bget_panics, bget_recycles, changed_here, changed_later,
}

-- No block of a device is in two buffers, and every buffer is in the list, once. Device 0 is that
-- of the buffers that were never used.
pub record IsCache (bs : List Buf) : Type 0 where
  pub once : (dev blockno : ℕ) → dev ≢ 0 → count_of (is_block dev blockno) bs ≤ 1
  pub kept : (i : ℕ) → i < nbuf → count_of (is_buffer i) bs ≡ 1

-- A call of the cache, and what it leaves; `none` is a panic.
pub data BufferCall : Type 0 where
  call_bread : (ℕ → ℕ → Bytes) → ℕ → ℕ → ℕ → BufferCall
  call_brelse : ℕ → ℕ → BufferCall
  call_bpin : ℕ → BufferCall
  call_bunpin : ℕ → BufferCall

abbrev pub left_by {ℓ} : {A : Type ℓ} → BufferEnd A → Option (List Buf)
left_by buffer_panic = none
left_by (buffer_sleeps i bs) = some bs
left_by (buffer_done a bs) = some bs

abbrev pub buffer_call : BufferCall → List Buf → Option (List Buf)
buffer_call (call_bread disk pid dev blockno) bs = left_by (bread disk pid dev blockno bs)
buffer_call (call_brelse pid i) bs = brelse pid i bs
buffer_call (call_bpin i) bs = some (bpin i bs)
buffer_call (call_bunpin i) bs = some (bunpin i bs)

-- A list with the same counts by block and by index.
record SameCounts (bs ys : List Buf) : Type 0 where
  pub blocks :
      (dev blockno : ℕ) → count_of (is_block dev blockno) ys ≡ count_of (is_block dev blockno) bs
  pub indices : (i : ℕ) → count_of (is_buffer i) ys ≡ count_of (is_buffer i) bs

SameCounts-IsCache : (bs ys : List Buf) → SameCounts bs ys → IsCache bs → IsCache ys
SameCounts-IsCache bs ys s h = record {
  once = λ d b n. rw (s.blocks d b) (h.once d b n);
  kept = λ i l. s.indices i ∙ h.kept i l;
}

-- A change of one buffer that keeps its block.
SameCounts-update :
    (sel : Buf → Bool) (f : Buf → Buf) (bs : List Buf)
    → ((b : Buf) → ((f b).dev ≡ b.dev) × ((f b).blockno ≡ b.blockno) × ((f b).index ≡ b.index))
    → SameCounts bs (update_first sel f bs)
SameCounts-update sel f bs e = record {
  blocks = λ d n.
      count_of-update_first (is_block d n) sel f bs (λ b. let (x, y, z) = e b in rw (x, y) refl);
  indices =
      λ i. count_of-update_first (is_buffer i) sel f bs (λ b. let (x, y, z) = e b in rw z refl);
}

-- A recycled buffer: the new block is there once more, any other no more often.
LastChanged-blocks :
    (dev blockno d n : ℕ) (bs ys : List Buf) (i : ℕ)
    → LastChanged is_unused_buf (recycle dev blockno) bs ys i
    → count_of (is_block d n) ys
      ≤ count_of (is_block d n) bs + (if dev == d && blockno == n then 1 else 0)
unfolding recycle
LastChanged-blocks dev blockno d n _ _ _ (changed_here b bs t c) = ground arith
LastChanged-blocks dev blockno d n _ _ _ (changed_later b bs ys i c) =
    let h = LastChanged-blocks dev blockno d n bs ys i c in omega (arith, h)

LastChanged-indices :
    (dev blockno j : ℕ) (bs ys : List Buf) (i : ℕ)
    → LastChanged is_unused_buf (recycle dev blockno) bs ys i
    → count_of (is_buffer j) ys ≡ count_of (is_buffer j) bs
unfolding recycle
LastChanged-indices dev blockno j _ _ _ (changed_here b bs t c) = refl
LastChanged-indices dev blockno j _ _ _ (changed_later b bs ys i c) =
    let h = LastChanged-indices dev blockno j bs ys i c in omega (arith, h)

-- A value, if there is one, for which `P` holds.
abbrev Holds {ℓ} : {A : Type ℓ} → (A → Type 0) → Option A → Type 0
Holds P none = Unit
Holds P (some a) = P a

Bget-IsCache :
    (dev blockno : ℕ) (bs : List Buf) (o : Option (ℕ × List Buf))
    → Bget dev blockno bs o
    → IsCache bs
    → Holds (λ (p : ℕ × List Buf). IsCache p.1) o
unfolding add_reference recycle
Bget-IsCache dev blockno bs _ (bget_hit b e) h =
    SameCounts-IsCache bs _
      (SameCounts-update (is_block dev blockno) add_reference bs
        (λ b. unfold add_reference in (refl, refl, refl)))
      h
Bget-IsCache dev blockno bs _ (bget_recycles ys i e c) h = record {
  once = λ d n z.
      let l = LastChanged-blocks dev blockno d n bs ys i c in
      let o = h.once d n z in
      elim (Bool-cases (dev == d && blockno == n)) [
        | inl q ↦
            let same : count_of (is_block d n) bs ≡ 0 =
              subst (λ x. count_of (is_block x n) bs ≡ 0) (ground (arith, q))
                (subst (λ x. count_of (is_block dev x) bs ≡ 0) (ground (arith, q)) e) in
            ground (arith, q, l, same)
        | inr q ↦ ground (arith, q, l, o)
      ];
  kept = λ j l. LastChanged-indices dev blockno j bs ys i c ∙ h.kept j l;
}
Bget-IsCache dev blockno bs _ (bget_panics e n) h = tt

fill-lock :
    (d : Bytes) (lk : Sleeplock) (b : Buf)
    → ((fill d (with_lock lk b)).dev ≡ b.dev)
      × ((fill d (with_lock lk b)).blockno ≡ b.blockno)
      × ((fill d (with_lock lk b)).index ≡ b.index)
unfolding fill
fill-lock d lk b = ground arith

lock_and_fill-IsCache :
    (disk : ℕ → ℕ → Bytes) (pid i : ℕ) (bs : List Buf)
    → IsCache bs
    → Holds IsCache (left_by (lock_and_fill disk pid i bs))
unfolding lock_and_fill
lock_and_fill-IsCache disk pid i bs h = elim (Option-cases (find (is_buffer i) bs)) [
  | inl e ↦ rw (e, lock_and_fill) tt
  | inr (b, e) ↦ elim (Option-cases (acquiresleep pid b.lock)) [
    | inl a ↦ rw (e, a, lock_and_fill) h
    | inr (lk, a) ↦
        rw (e, a, lock_and_fill)
          (SameCounts-IsCache bs _
            (SameCounts-update (is_buffer i) (λ x. fill (disk x.dev x.blockno) (with_lock lk x)) bs
              (λ x. fill-lock (disk x.dev x.blockno) lk x))
            h)
  ]
]

bread-IsCache :
    (disk : ℕ → ℕ → Bytes) (pid dev blockno : ℕ) (bs : List Buf)
    → IsCache bs
    → Holds IsCache (left_by (bread disk pid dev blockno bs))
unfolding bread
bread-IsCache disk pid dev blockno bs h =
    let g = Bget-IsCache dev blockno bs (bget dev blockno bs) (bget-Bget dev blockno bs) h in
    elim (Option-cases (bget dev blockno bs)) [
      | inl e ↦ rw (e, bread) tt
      | inr (p, e) ↦
          rw (e, bread)
            (lock_and_fill-IsCache disk pid p.0 p.1
              (subst (Holds (λ (p : ℕ × List Buf). IsCache p.1)) e g))
    ]

put_back-SameCounts : (i : ℕ) (bs : List Buf) → SameCounts bs (put_back i bs)
unfolding put_back
put_back-SameCounts i bs = elim (Option-cases (find (is_buffer i) bs)) [
  | inl e ↦ rw (e, put_back) (record { blocks = λ d n. refl; indices = λ j. refl })
  | inr (b, e) ↦ elim (Bool-cases (b.refcnt == 0)) [
    | inl z ↦
        rw (e, z, put_back)
          (record {
            blocks = λ d n. count_of-delete_first (is_block d n) (is_buffer i) bs b e;
            indices = λ j. count_of-delete_first (is_buffer j) (is_buffer i) bs b e;
          })
    | inr z ↦ rw (e, z, put_back) (record { blocks = λ d n. refl; indices = λ j. refl })
  ]
]

brelse-IsCache : (pid i : ℕ) (bs : List Buf) → IsCache bs → Holds IsCache (brelse pid i bs)
unfolding brelse drop_reference
brelse-IsCache pid i bs h = elim (Option-cases (find (is_buffer i) bs)) [
  | inl e ↦ rw (e, brelse) tt
  | inr (b, e) ↦
      let released = λ (x : Buf). drop_reference (with_lock (releasesleep x.lock) x) in
      let ys = update_first (is_buffer i) released bs in
      elim (Bool-cases (holdingsleep pid b.lock)) [
        | inl k ↦
            rw (e, k, brelse)
              (SameCounts-IsCache ys (put_back i ys) (put_back-SameCounts i ys) (
                SameCounts-IsCache bs ys
                  (SameCounts-update (is_buffer i) released bs (λ x. (refl, refl, refl))) h))
        | inr k ↦ rw (e, k, brelse) tt
      ]
]

-- Whatever call is made, the cache still holds no block twice, and every buffer, once.
pub buffer_call-IsCache :
    (c : BufferCall) (bs ys : List Buf) → buffer_call c bs ≡ some ys → IsCache bs → IsCache ys
unfolding bpin bunpin add_reference drop_reference
buffer_call-IsCache (call_bread disk pid dev blockno) bs ys e h =
    subst (Holds IsCache) e (bread-IsCache disk pid dev blockno bs h)
buffer_call-IsCache (call_brelse pid i) bs ys e h =
    subst (Holds IsCache) e (brelse-IsCache pid i bs h)
buffer_call-IsCache (call_bpin i) bs ys e h = subst (Holds IsCache) e (
    SameCounts-IsCache bs _
      (SameCounts-update (is_buffer i) add_reference bs (λ b. (refl, refl, refl))) h)
buffer_call-IsCache (call_bunpin i) bs ys e h = subst (Holds IsCache) e (
    SameCounts-IsCache bs _
      (SameCounts-update (is_buffer i) drop_reference bs (λ b. (refl, refl, refl))) h)

link_buffers-block : (n d b : ℕ) → d ≢ 0 → count_of (is_block d b) (link_buffers n) ≡ 0
unfolding link_buffers
link_buffers-block zero d b z = refl
link_buffers-block (suc n) d b z = let h = link_buffers-block n d b z in ground (arith, z, h)

link_buffers-index :
    (n i : ℕ) → count_of (is_buffer i) (link_buffers n) ≡ (if ltb i n then 1 else 0)
unfolding link_buffers
link_buffers-index zero i = ground arith
link_buffers-index (suc n) i = let h = link_buffers-index n i in ground (arith, h)

-- As the kernel starts.
pub binit-IsCache : IsCache binit
unfolding binit
binit-IsCache = record {
  once = λ d b z. let h = link_buffers-block nbuf d b z in rw h (omega arith);
  kept = λ i l. link_buffers-index nbuf i ∙ ground (arith, l);
}
