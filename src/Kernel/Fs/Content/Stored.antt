-- ===== src/Kernel/Fs/Content/Stored.antt =====
-- What `readi` of xv6/kernel/fs.c returns behind a `writei` of bytes in one block, such as a
-- directory entry.
use ru_shell.Base.{
  List, Option, ap, arith, false, if◌then◌else◌, inl, inr, length, length-map, ltb, map, none, refl,
  some, true, ℕ, ◌%◌, ◌*◌, ◌+◌, ◌/◌, ◌<◌, ◌∙◌, ◌∷◌, ◌≡◌, ◌≤◌, ◌⊎◌,
}
use ru_shell.Kernel.Proc.{wrap}
use ru_shell.Kernel.Exec.{◌>>=◌}
use ru_shell.Kernel.Fs.{Fs, Inode, bmap, bsize, maxfile, put}
use ru_shell.Kernel.Fs.Blocks.{IsFull, put_here, resized}
use ru_shell.Kernel.Fs.Blocks.Again.{BmapEnd, bmap_again}
use ru_shell.Kernel.Fs.Inodes.{iupdate}
use ru_shell.Kernel.Fs.Content.{bytes_of, read_blocks, readi, write_blocks, writei}
use ru_shell.Kernel.Fs.Content.Rounds.{
  bytes_of-store_bytes, read_one_block, write_nothing, write_one_block, written,
}

-- The state in which `writei` ends.
abbrev grown : ℕ → ℕ → Inode → ℕ
grown off tot ip = if ltb ip.body.size (off + tot) then off + tot else ip.body.size

abbrev updated : Inode → Fs → Fs
updated ip fs = record fs { dinodes = put ip.inum ip.body fs.dinodes }

writei_runs :
    (ip : Inode) (off : ℕ) (os : List (Option ℕ)) (fs : Fs) (tot : ℕ) (ip' : Inode) (fs' : Fs)
    → wrap (off + length os) ≡ off + length os
    → off ≤ ip.body.size
    → off + length os ≤ maxfile * bsize
    → write_blocks (length os) ip off os fs ≡ some ((tot, ip'), fs')
    → writei ip off os fs
      ≡ some (
        (some tot, resized (grown off tot ip') ip'),
        updated (resized (grown off tot ip') ip') fs',
      )
unfolding writei iupdate
writei_runs ip off os fs tot ip' fs' plain inside bounded e =
    let t1 : ltb ip.body.size off ≡ false = ground (arith, inside) in
    let t2 : ltb (off + length os) off ≡ false = ground arith in
    let t3 : ltb (maxfile * bsize) (off + length os) ≡ false = ground (arith, bounded) in
    rw (plain, t1, t2, t3, ◌>>=◌, e) refl

readi_runs :
    (ip : Inode) (off n : ℕ) (fs : Fs)
    → wrap (off + n) ≡ off + n
    → off + n ≤ ip.body.size
    → readi (λ _. true) ip off n fs ≡ read_blocks (λ _. true) n ip off n fs
unfolding readi
readi_runs ip off n fs plain inside =
    let t1 : ltb ip.body.size off ≡ false = ground (arith, inside) in
    let t2 : ltb (off + n) off ≡ false = ground arith in
    let t3 : ltb ip.body.size (off + n) ≡ false = ground (arith, inside) in
    rw (plain, t1, t2, t3) refl

no_wrap : (off n : ℕ) → off % bsize + n ≤ bsize → off / bsize < maxfile → wrap (off + n) ≡ off + n
no_wrap off n fits bounded = omega (arith, fits, bounded)

in_file : (off n : ℕ) → off % bsize + n ≤ bsize → off / bsize < maxfile → off + n ≤ maxfile * bsize
in_file off n fits bounded = omega (arith, fits, bounded)

-- The two ends of a `writei` of bytes: nothing is written and the disk is full, or all is written
-- and `readi` returns it.
pub StoreEnd : ℕ → List ℕ → Option ((Option ℕ × Inode) × Fs) → Type 0
StoreEnd off bs none = ⊥
StoreEnd off bs (some ((none, ip'), fs')) = ⊥
StoreEnd off bs (some ((some tot, ip'), fs')) =
    ((tot ≡ 0) × IsFull fs')
    ⊎ ((tot ≡ length bs) × (readi (λ _. true) ip' off (length bs) fs' ≡ some ((some bs, ip'), fs')))

module _ (ip : Inode) (off c : ℕ) (cs : List ℕ) (fs : Fs) (inside : off ≤ ip.body.size)
    (fits : off % bsize + length (c ∷ cs) ≤ bsize) (bounded : off / bsize < maxfile) where
  writei_ends :
      (tot : ℕ) (ip' : Inode) (fs' : Fs)
      → write_blocks (length (c ∷ cs)) ip off (map some (c ∷ cs)) fs ≡ some ((tot, ip'), fs')
      → writei ip off (map some (c ∷ cs)) fs
        ≡ some (
          (some tot, resized (grown off tot ip') ip'),
          updated (resized (grown off tot ip') ip') fs',
        )
  writei_ends tot ip' fs' e =
      let os = map some (c ∷ cs) in
      let n : length os ≡ length (c ∷ cs) = length-map (c ∷ cs) some in
      let plain = no_wrap off (length os) (omega (arith, n, fits)) bounded in
      let within = in_file off (length os) (omega (arith, n, fits)) bounded in
      writei_runs ip off os fs tot ip' fs' plain inside within (rw n e)

  stored-StoreEnd :
      (found : Option ((ℕ × Inode) × Fs))
      → bmap ip (off / bsize) fs ≡ found
      → BmapEnd ip (off / bsize) fs found
      → StoreEnd off (c ∷ cs) (writei ip off (map some (c ∷ cs)) fs)
  unfolding BmapEnd StoreEnd IsFull
  stored-StoreEnd none e h = absurd h
  stored-StoreEnd (some ((a, ip'), fs')) e (inl (zero_block, full)) =
      let nothing : bmap ip (off / bsize) fs ≡ some ((0, ip'), fs') =
        e ∙ ap (λ x. some ((x, ip'), fs')) zero_block in
      let run = write_nothing ip ip' off (length cs) (some c) (map some cs) fs fs' nothing in
      rw (writei_ends 0 ip' fs' run) (inl (refl, full))
  stored-StoreEnd (some ((a, ip'), fs')) e (inr (again, nonzero, _)) =
      let bs : List ℕ = c ∷ cs in
      let run = write_one_block ip ip' off a fs fs' e nonzero c cs fits in
      let last : Inode = resized (grown off (length bs) ip') ip' in
      let end : Fs = updated last (written a (off % bsize) bs fs') in
      let large : off + length bs ≤ last.body.size = ground arith in
      let loop = readi_runs last off (length bs) end (no_wrap off (length bs) fits bounded) large in
      let found = again (grown off (length bs) ip') end.bytes end.dinodes in
      let read = read_one_block last last off a end end found nonzero c cs fits in
      let content : bytes_of (end.bytes a) (off % bsize) (length bs) ≡ bs =
        ap (λ d. bytes_of d (off % bsize) (length bs)) (put_here a _ fs'.bytes)
        ∙ bytes_of-store_bytes (fs'.bytes a) (off % bsize) bs in
      rw (writei_ends (length bs) ip' (written a (off % bsize) bs fs') run)
        (inr (refl, loop ∙ read ∙ ap (λ x. some ((some x, last), end)) content))

-- Bytes that end in the block that they begin in, such as a directory entry, are written at an
-- offset inside the file, below the largest size, where the boot block is in use. `writei` does not
-- panic or fail then. It writes nothing only with no block of the disk left free; else it writes
-- all, and `readi` at the offset returns just these bytes.
pub readi-writei :
    (ip : Inode) (off c : ℕ) (cs : List ℕ) (fs : Fs)
    → off ≤ ip.body.size
    → off % bsize + length (c ∷ cs) ≤ bsize
    → off / bsize < maxfile
    → fs.used 0 ≡ true
    → StoreEnd off (c ∷ cs) (writei ip off (map some (c ∷ cs)) fs)
readi-writei ip off c cs fs inside fits bounded boot =
    stored-StoreEnd ip off c cs fs inside fits bounded (bmap ip (off / bsize) fs) refl
      (bmap_again ip (off / bsize) fs bounded boot)
