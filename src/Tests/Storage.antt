-- ===== src/Tests/Storage.antt =====
-- Inputs for the log, the buffer cache and page tables.
use ru_shell.Kernel.Buffers.Unique.{
  IsCache, binit-IsCache, buffer_call, buffer_call-IsCache, call_bread,
}
use ru_shell.Kernel.Pages.{Phys}
use ru_shell.Kernel.Vm.{is_user, is_valid, mappages, walkaddr}
use ru_shell.Kernel.Vm.Tree.{IsTree, Levels}
use ru_shell.Kernel.Vm.Range.{walkaddr-mappages}
use ru_shell.Kernel.Vm.Walk.{IsPage}
use ru_shell.Base.{
  ==_iff, Bool-cases, List, [], arith, false, if◌then◌else◌, inl, inr, none, refl, some, subst, sym,
  true, ℕ, ◌*◌, ◌+◌, ◌<◌, ◌==◌, ◌^◌, ◌∷◌, ◌≡◌, ◌⊎◌,
}
use ru_shell.Kernel.Log
use ru_shell.Kernel.Log.{Log, Machine, commit, contents, goes_on, header_of, initlog, logblocks}
use ru_shell.Kernel.Log.Ready.{IsReady, Settled, intended}
use ru_shell.Kernel.Log.Recover.{boot, commit_is_atomic, disk_of, reboots}
use ru_shell.Kernel.Buffers
use ru_shell.Kernel.Buffers.{Buf, bget, binit, zero_buf}
use ru_shell.Kernel.Buffers.Recent.{Bget, bget-Bget}

-- A log at block 2 with the blocks 40 and 41, which are 7 and 8 in the buffers.
abbrev two_blocks : Machine
two_blocks = record {
  log = record { start = 2; outstanding = 0; committing = true; ncommit = 0; lh = 40 ∷ 41 ∷ [] };
  cached = λ b. if b == 40 then some (λ _. 7) else if b == 41 then some (λ _. 8) else none;
  pins = λ _. 1;
  disk = λ _ _. 0;
  power = 4;
}

below_log : (i : ℕ) → i < logblocks → contents two_blocks (2 + i + 1) ≡ two_blocks.disk (2 + i + 1)
unfolding contents
below_log i l = ground arith

two_blocks-IsReady : IsReady two_blocks
unfolding header_of
two_blocks-IsReady = record {
  quiet = refl;
  coherent = below_log;
  room = omega arith;
  homes = (inr (omega arith), (inr (omega arith), tt));
}

-- The commit stops at its fifth write, and the first recovery at its second.
commit_is_atomic_example :
    (w : Machine) × (initlog 2 (boot 40 (reboots 2 (1 ∷ []) (disk_of (commit two_blocks))))
      ≡ goes_on w)
    × (Settled 2 two_blocks.disk w ⊎ Settled 2 (intended two_blocks) w)
commit_is_atomic_example = commit_is_atomic two_blocks (1 ∷ []) 40 two_blocks-IsReady (omega arith)

abbrev idle_log : Machine
idle_log = record two_blocks {
  log = record { start = 2; outstanding = 0; committing = false; ncommit = 0; lh = [] };
}

abbrev one_call : Machine
one_call = record idle_log { log = record idle_log.log { outstanding = 1 } }

bget-Bget_example :
    Bget 1 40 (zero_buf 1 ∷ zero_buf 0 ∷ []) (bget 1 40 (zero_buf 1 ∷ zero_buf 0 ∷ []))
bget-Bget_example = bget-Bget 1 40 (zero_buf 1 ∷ zero_buf 0 ∷ [])

abbrev after_bread : List Buffers.Buf
after_bread = elim (buffer_call (call_bread (λ _ _ _. 5) 1 1 40) binit) [ none ↦ [] | some bs ↦ bs ]

buffer_call-IsCache_example : IsCache after_bread
buffer_call-IsCache_example =
    buffer_call-IsCache (call_bread (λ _ _ _. 5) 1 1 40) binit after_bread
      (unfold Buffers.bread binit in refl) binit-IsCache

-- A process with an empty page table, and pages for two tables.
abbrev empty_table : Phys
empty_table = record {
  bytes = λ _. 0;
  words = λ _. 0;
  free = 0x80101000 ∷ 0x80102000 ∷ [];
  kernel_end = 0x80100000;
}

-- The table is at level 2, and there is no other.
abbrev one_table : Levels
one_table x = if x == 0x80100000 then some 2 else none

IsPage-at : (n : ℕ) → n < 2 ^ 20 → IsPage (n * 4096)
IsPage-at n l = record { aligned = omega arith; bound = omega arith }

empty_table-IsTree : IsTree one_table empty_table
unfolding is_valid
empty_table-IsTree = record {
  page = λ x l h. elim (Bool-cases (x == 0x80100000)) [
    | inl e ↦ subst IsPage (sym ((==_iff x 0x80100000).0 e)) (IsPage-at 0x80100 (omega arith))
    | inr e ↦ absurd (ground (arith, e, h))
  ];
  down = λ e l h v. absurd (cc v);
  apart = (
    IsPage-at 0x80101 (omega arith),
    λ (l, e). cc e,
    (
      IsPage-at 0x80102 (omega arith),
      λ o. elim o [ inl (l, e) ↦ cc e | inr q ↦ ground (arith, q) ],
      tt,
    ),
  );
}

abbrev two_pages_mapped : Phys
two_pages_mapped = elim (mappages 0x80100000 0x3000 (2 * 4096) 0x80200000 22 empty_table) [
  | none ↦ empty_table
  | some (b, q) ↦ q
]

walkaddr-mappages_example :
    walkaddr 0x80100000 (0x3000 + 1 * 4096) two_pages_mapped
    ≡ some (0x80200000 + 1 * 4096, two_pages_mapped)
walkaddr-mappages_example =
    walkaddr-mappages 2 1 0x80100000 0x3000 0x80200000 22 one_table empty_table two_pages_mapped
      empty_table-IsTree refl (omega arith) (omega arith) (omega arith) (omega arith) (omega arith)
      (unfold is_user in refl) (omega arith) (unfold mappages in refl)
