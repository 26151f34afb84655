-- ===== src/Kernel/Log/Copies.antt =====
-- Writes to blocks that the header of the log lists, and the log's own blocks.
use ru_shell.Base.{
  List, Option-cases, ap, arith, inl, inr, length, none, suc, sym, ℕ, ◌+◌, ◌<◌, ◌∙◌, ◌∷◌, ◌≡◌, ◌≢◌,
  ◌≤◌,
}
use ru_shell.Kernel.Log.{Block, Disk, header_of, logblocks, put}
use ru_shell.Kernel.Log.Header.{slot, slot-bounds}
use ru_shell.Kernel.Log.Crash.{IsHome, Shows, on_disk, replayed}

-- The header and the copies of the log lie at no block outside of it.
pub start_ne : (start b : ℕ) → IsHome start b → start ≢ b
start_ne start b (inl h) e = omega arith
start_ne start b (inr h) e = omega arith

pub copy_ne : (start b i : ℕ) → IsHome start b → i < logblocks → start + i + 1 ≢ b
copy_ne start b i (inl h) l e = omega arith
copy_ne start b i (inr h) l e = omega arith

pub put-put_ne {ℓ} : {A : Type ℓ} (b j : ℕ) (v : A) (d : ℕ → A) → j ≢ b → put b v d j ≡ d j
put-put_ne b j v d n = ground (arith, n)

pub put-put_same {ℓ} : {A : Type ℓ} (b : ℕ) (v : A) (d : ℕ → A) → put b v d b ≡ v
put-put_same b v d = ground arith

pub put_agree {ℓ} :
    {A : Type ℓ} (b j : ℕ) (v : A) (c d : ℕ → A) → c j ≡ d j → put b v c j ≡ put b v d j
put_agree b j v c d e = ground (arith, e)

pub on_disk-put :
    (start b : ℕ) (v : Block) (d : Disk)
    → IsHome start b
    → on_disk start (put b v d) ≡ on_disk start d
on_disk-put start b v d h = ap header_of (put-put_ne b start v d (start_ne start b h))

-- A block that the header lists may hold anything.
pub Shows-put :
    (start x : ℕ) (v : Block) (t d : Disk)
    → IsHome start x
    → slot x 0 (on_disk start d) ≢ none
    → Shows start t d
    → Shows start t (put x v d)
Shows-put start x v t d h f s =
    let same = on_disk-put start x v d h in
    record {
      homes = rw same s.homes;
      room = rw same s.room;
      view = λ b home. elim (Option-cases (slot b 0 (on_disk start d))) [
        | inl e ↦
            let old = s.view b home in
            let away : b ≢ x = λ q. f (ap (λ y. slot y 0 (on_disk start d)) (sym q) ∙ e) in
            cc (same, old, e, put-put_ne x b v d away)
        | inr (i, e) ↦
            let old = s.view b home in
            let low = slot-bounds b 0 i (on_disk start d) e in
            let n = copy_ne start x i h (let r = s.room in omega (arith, low)) in
            cc (same, old, e, put-put_ne x (start + i + 1) v d n)
      ];
    }

-- A copy moves an entry from those that are left to the disk.
pub replayed-step :
    (start tail x : ℕ) (bs : List ℕ) (d : Disk) (b : ℕ)
    → IsHome start x
    → tail + suc (length bs) ≤ logblocks
    → replayed start (tail + 1) bs (put x (d (start + tail + 1)) d) b
      ≡ replayed start tail (x ∷ bs) d b
replayed-step start tail x bs d b h l = elim (Option-cases (slot b (tail + 1) bs)) [
  | inl e ↦ ground (arith, e)
  | inr (i, e) ↦
      let low = slot-bounds b (tail + 1) i bs e in
      let n = copy_ne start x i h (omega (arith, low)) in
      cc (e, put-put_ne x (start + i + 1) (d (start + tail + 1)) d n)
]
