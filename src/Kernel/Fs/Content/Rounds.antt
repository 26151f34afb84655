-- ===== src/Kernel/Fs/Content/Rounds.antt =====
-- The rounds of readi and writei of xv6/kernel/fs.c for bytes in one block.
use ru_shell.Kernel.Exec.{◌>>=◌}
use mathlib.Core.List.{append-nil}
use ru_shell.Base.{
  List, Option, [], ap, arith, false, length, length-map, map, refl, some, suc, take, true, zero, ℕ,
  ◌%◌, ◌++◌, ◌+◌, ◌-◌, ◌/◌, ◌<◌, ◌==◌, ◌∙◌, ◌∷◌, ◌≡◌, ◌≤◌,
}
use ru_shell.Kernel.Fs.{Fs, Inode, bmap, bsize, put}
use ru_shell.Kernel.Fs.Blocks.{put_here}
use ru_shell.Kernel.Fs.Content.{
  bytes_of, copied, drop, read_blocks, round_size, store_bytes, write_blocks,
}

store_bytes_before : (d : ℕ → ℕ) (i : ℕ) (bs : List ℕ) (j : ℕ) → j < i → store_bytes d i bs j ≡ d j
store_bytes_before d i [] j h = refl
store_bytes_before d i (b ∷ bs) j h =
    let rest = store_bytes_before (put i b d) (i + 1) bs j (omega (arith, h)) in
    let other : put i b d j ≡ d j = ground (arith, h) in rest ∙ other

pub bytes_of-store_bytes :
    (d : ℕ → ℕ) (i : ℕ) (bs : List ℕ) → bytes_of (store_bytes d i bs) i (length bs) ≡ bs
bytes_of-store_bytes d i [] = refl
bytes_of-store_bytes d i (b ∷ bs) =
    let first = store_bytes_before (put i b d) (i + 1) bs i (omega arith) ∙ put_here i b d in
    let rest = bytes_of-store_bytes (put i b d) (i + 1) bs in λ k. first k ∷ rest k

copied-all : (bs : List ℕ) → copied (take (length bs) (map some bs)) ≡ (bs, true)
copied-all [] = refl
copied-all (b ∷ bs) = let rest = copied-all bs in rw rest refl

drop-all : (bs : List ℕ) → drop (length bs) (map some bs) ≡ []
drop-all [] = refl
drop-all (b ∷ bs) = drop-all bs

read_blocks_nothing :
    (fuel : ℕ) (ip : Inode) (off : ℕ) (fs : Fs)
    → read_blocks (λ _. true) fuel ip off 0 fs ≡ some ((some [], ip), fs)
unfolding read_blocks
read_blocks_nothing zero ip off fs = refl
read_blocks_nothing (suc fuel) ip off fs = refl

write_blocks_nothing :
    (fuel : ℕ) (ip : Inode) (off : ℕ) (fs : Fs)
    → write_blocks fuel ip off [] fs ≡ some ((0, ip), fs)
unfolding write_blocks
write_blocks_nothing zero ip off fs = refl
write_blocks_nothing (suc fuel) ip off fs = refl

-- A file system behind a write of bytes to a block.
abbrev pub written : ℕ → ℕ → List ℕ → Fs → Fs
written a i bs fs = record fs { bytes = put a (store_bytes (fs.bytes a) i bs) fs.bytes }

-- A round that is the last.
module _ (ip ip' : Inode) (off a : ℕ) (fs fs' : Fs)
    (e : bmap ip (off / bsize) fs ≡ some ((a, ip'), fs')) (nonzero : (a == 0) ≡ false) where
  write_last_round :
      (n : ℕ) (os : List (Option ℕ)) (part : List ℕ)
      → (length os == 0) ≡ false
      → copied (take (round_size off (length os)) os) ≡ (part, true)
      → drop (round_size off (length os)) os ≡ []
      → write_blocks (suc n) ip off os fs
        ≡ some ((round_size off (length os) + 0, ip'), written a (off % bsize) part fs')
  unfolding write_blocks
  write_last_round n os part some_left all end =
      let far = off + round_size off (length os) in
      let next = write_blocks_nothing n ip' far (written a (off % bsize) part fs') in
      rw (some_left, ◌>>=◌, e, nonzero, all, end, next) refl

  read_last_round :
      (n m : ℕ)
      → (m == 0) ≡ false
      → m - round_size off m ≡ 0
      → read_blocks (λ _. true) (suc n) ip off m fs
        ≡ some ((some (bytes_of (fs'.bytes a) (off % bsize) (round_size off m) ++ []), ip'), fs')
  unfolding read_blocks
  read_last_round n m some_left left =
      let next = read_blocks_nothing n ip' (off + round_size off m) fs' in
      rw (some_left, ◌>>=◌, e, nonzero, left, next) refl

  module _ (c : ℕ) (cs : List ℕ) (fits : off % bsize + length (c ∷ cs) ≤ bsize) where
    whole_round : (n : ℕ) → n ≡ length (c ∷ cs) → round_size off n ≡ length (c ∷ cs)
    whole_round n same = omega (arith, fits, same)

    pub write_one_block :
        write_blocks (length (c ∷ cs)) ip off (map some (c ∷ cs)) fs
        ≡ some ((length (c ∷ cs), ip'), written a (off % bsize) (c ∷ cs) fs')
    write_one_block =
        let os = map some (c ∷ cs) in
        let size = whole_round (length os) (length-map (c ∷ cs) some) in
        let all = ap (λ m. copied (take m os)) size ∙ copied-all (c ∷ cs) in
        let end = ap (λ m. drop m os) size ∙ drop-all (c ∷ cs) in
        let count : round_size off (length os) + 0 ≡ length (c ∷ cs) = omega (arith, size) in
        write_last_round (length cs) os (c ∷ cs) (ground arith) all end
        ∙ ap (λ m. some ((m, ip'), written a (off % bsize) (c ∷ cs) fs')) count

    pub read_one_block :
        read_blocks (λ _. true) (length (c ∷ cs)) ip off (length (c ∷ cs)) fs
        ≡ some ((some (bytes_of (fs'.bytes a) (off % bsize) (length (c ∷ cs))), ip'), fs')
    read_one_block =
        let size = whole_round (length (c ∷ cs)) refl in
        let left : length (c ∷ cs) - round_size off (length (c ∷ cs)) ≡ 0 = omega (arith, size) in
        read_last_round (length cs) (length (c ∷ cs)) (ground arith) left
        ∙ ap (λ m. some ((some (bytes_of (fs'.bytes a) (off % bsize) m ++ []), ip'), fs')) size
        ∙ ap (λ bs. some ((some bs, ip'), fs'))
            (append-nil (bytes_of (fs'.bytes a) (off % bsize) (length (c ∷ cs))))

pub write_nothing :
    (ip ip' : Inode) (off n : ℕ) (o : Option ℕ) (os : List (Option ℕ)) (fs fs' : Fs)
    → bmap ip (off / bsize) fs ≡ some ((0, ip'), fs')
    → write_blocks (suc n) ip off (o ∷ os) fs ≡ some ((0, ip'), fs')
unfolding write_blocks
write_nothing ip ip' off n o os fs fs' e =
    let some_left : (length (o ∷ os) == 0) ≡ false = ground arith in rw (some_left, ◌>>=◌, e) refl
