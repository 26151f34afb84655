-- ===== src/Kernel/Buffers/Recent.antt =====
-- `bget` of xv6/kernel/bio.c: which buffer a block gets.
use ru_shell.Base.{
  Bool, Bool-cases, List, Option, Option-cases, [], arith, false, find, if◌then◌else◌, inl, inr,
  none, refl, some, true, update_first, ℕ, ◌%◌, ◌&&◌, ◌+◌, ◌==◌, ◌^◌, ◌∷◌, ◌≡◌,
}
use ru_shell.Kernel.Buffers.{
  Buf, add_reference, bget, is_block, is_unused_buf, recycle, update_last,
}
use ru_shell.Kernel.Buffers.Counts.{count_of, find-none}

-- The last buffer of a list that passes the test is changed, and no other.
pub data LastChanged (test : Buf → Bool) (f : Buf → Buf) : List Buf → List Buf → ℕ → Type 0 where
  changed_here :
      (b : Buf) (bs : List Buf)
      → test b ≡ true
      → count_of test bs ≡ 0
      → LastChanged test f (b ∷ bs) (f b ∷ bs) b.index
  changed_later :
      (b : Buf) (bs ys : List Buf) (i : ℕ)
      → LastChanged test f bs ys i
      → LastChanged test f (b ∷ bs) (b ∷ ys) i

pub data LastSearch (test : Buf → Bool) (f : Buf → Buf) (bs : List Buf)
    : Option (ℕ × List Buf) → Type 0 where
  last_none : count_of test bs ≡ 0 → LastSearch test f bs none
  last_at :
      (ys : List Buf) (i : ℕ) → LastChanged test f bs ys i → LastSearch test f bs (some (i, ys))

module _ (test : Buf → Bool) (f : Buf → Buf) where
  LastSearch-step :
      (b : Buf) (bs : List Buf) (o : Option (ℕ × List Buf))
      → LastSearch test f bs o
      → LastSearch test f (b ∷ bs) (elim o [
        | some (i, ys) ↦ some (i, b ∷ ys)
        | none ↦ if test b then some (b.index, f b ∷ bs) else none
      ])
  LastSearch-step b bs _ (last_none e) = elim (Bool-cases (test b)) [
    | inl q ↦ rw q (last_at (f b ∷ bs) b.index (changed_here b bs q e))
    | inr q ↦ rw q (last_none (rw q (omega (arith, e))))
  ]
  LastSearch-step b bs _ (last_at ys i c) = last_at (b ∷ ys) i (changed_later b bs ys i c)

  pub update_last-LastSearch : (bs : List Buf) → LastSearch test f bs (update_last test f bs)
  unfolding update_last
  update_last-LastSearch [] = last_none refl
  update_last-LastSearch (b ∷ bs) =
      LastSearch-step b bs (update_last test f bs) (update_last-LastSearch bs)

abbrev has_block : ℕ → ℕ → Buf → Bool
has_block dev blockno b = b.dev == dev && b.blockno == blockno

abbrev unreferenced : Buf → Bool
unreferenced b = b.refcnt == 0

-- A buffer with one more reference, counted in 32 bits.
abbrev referred : Buf → Buf
referred b = record b { refcnt = (b.refcnt + 1) % 2 ^ 32 }

-- A buffer that is given to a block, with one reference and without content.
abbrev given_to : ℕ → ℕ → Buf → Buf
given_to dev blockno b = record b { dev = dev; blockno = blockno; valid = false; refcnt = 1 }

-- The outcomes of `bget`. A buffer with the block is referred to once more. Else the last buffer of
-- the list that nothing refers to gets the block, with its content not valid; with none such it
-- panics.
pub data Bget (dev blockno : ℕ) (bs : List Buf) : Option (ℕ × List Buf) → Type 0 where
  bget_hit :
      (b : Buf)
      → find (has_block dev blockno) bs ≡ some b
      → Bget dev blockno bs (some (b.index, update_first (has_block dev blockno) referred bs))
  bget_recycles :
      (ys : List Buf) (i : ℕ)
      → count_of (is_block dev blockno) bs ≡ 0
      → LastChanged is_unused_buf (given_to dev blockno) bs ys i
      → Bget dev blockno bs (some (i, ys))
  bget_panics :
      count_of (is_block dev blockno) bs ≡ 0
      → count_of is_unused_buf bs ≡ 0
      → Bget dev blockno bs none

recycles :
    (dev blockno : ℕ) (bs : List Buf) (o : Option (ℕ × List Buf))
    → count_of (is_block dev blockno) bs ≡ 0
    → LastSearch is_unused_buf (given_to dev blockno) bs o
    → Bget dev blockno bs o
recycles dev blockno bs _ e (last_none n) = bget_panics e n
recycles dev blockno bs _ e (last_at ys i c) = bget_recycles ys i e c

-- `bget` hands out the buffer that has the block, once more referred to. If none has it, the least
-- recently released of those that nothing refers to, the last of the list, gets the block, without
-- content; it panics exactly if there is none such.
pub bget-Bget : (dev blockno : ℕ) (bs : List Buf) → Bget dev blockno bs (bget dev blockno bs)
unfolding bget add_reference recycle
bget-Bget dev blockno bs = elim (Option-cases (find (is_block dev blockno) bs)) [
  | inl e ↦
      rw (e, bget)
        (recycles dev blockno bs (update_last is_unused_buf (recycle dev blockno) bs)
          (find-none (is_block dev blockno) bs e)
          (update_last-LastSearch is_unused_buf (recycle dev blockno) bs))
  | inr (b, e) ↦ rw (e, bget) (bget_hit b e)
]
