-- ===== src/Tests/Files.antt =====
-- Inputs for the file system.
use ru_shell.Base.{[], arith, false, ltb, map, refl, some, true, ◌∷◌, ◌≡◌}
use ru_shell.Kernel.Fs.{Fs, Inode, bmap}
use ru_shell.Kernel.Fs.Blocks.Again.{BmapEnd, bmap_again}
use ru_shell.Kernel.Fs.Content.{writei}
use ru_shell.Kernel.Fs.Content.Stored.{StoreEnd, readi-writei}
use ru_shell.Kernel.Fs.Paths.{walk_path}
use ru_shell.Kernel.Fs.Paths.Elements.{walk_path_enough}
use ru_shell.Kernel.Fs.Inodes.{zero_dinode}

-- A directory that has no entries.
abbrev no_files : Inode
no_files = record {
  dev = 1;
  inum = 1;
  ref = 2;
  valid = true;
  body = record zero_dinode { type = 1; nlink = 1 };
}

-- A disk of 40 blocks, the first 5 of which are in use.
abbrev small_disk : Fs
small_disk = record {
  sb = record { size = 40; ninodes = 10 };
  used = λ b. ltb b 5;
  bytes = λ _ _. 7;
  words = λ _ _. 9;
  dinodes = λ _. zero_dinode;
  itable = no_files ∷ [];
}

-- A file that has no blocks.
abbrev no_blocks : Inode
no_blocks = record { dev = 1; inum = 2; ref = 1; valid = true; body = zero_dinode }

bmap_again_example : BmapEnd no_blocks 20 small_disk (bmap no_blocks 20 small_disk)
bmap_again_example = bmap_again no_blocks 20 small_disk (omega arith) refl

walk_path_enough_example :
    walk_path 9 0 (47 ∷ 97 ∷ 47 ∷ []) false small_disk
    ≡ walk_path 4 0 (47 ∷ 97 ∷ 47 ∷ []) false small_disk
walk_path_enough_example = walk_path_enough 9 0 (47 ∷ 97 ∷ 47 ∷ []) false small_disk (omega arith)

readi-writei_example :
    StoreEnd 0 (2 ∷ 0 ∷ 97 ∷ []) (writei no_files 0 (map some (2 ∷ 0 ∷ 97 ∷ [])) small_disk)
readi-writei_example =
    readi-writei no_files 0 2 (0 ∷ 97 ∷ []) small_disk (omega arith) (omega arith) (omega arith)
      refl
