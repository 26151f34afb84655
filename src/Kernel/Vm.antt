-- ===== src/Kernel/Vm.antt =====
-- The page tables of xv6/kernel/vm.c. A page table is the address of its page, and an entry the
-- address of its word.
use ru_shell.Base.{
  Bool, Option, false, if◌then◌else◌, leb, none, not, some, suc, true, zero, ℕ, ◌%◌, ◌*◌, ◌+◌, ◌-◌,
  ◌/◌, ◌==◌, ◌^◌,
}
use ru_shell.Kernel.Exec.{panic, pure, ◌>>=◌, ◌>>◌}
use ru_shell.Kernel.Pages.{Vm, fill_page, kalloc, pgsize, wrap64}
use Prim.Native.Nat.{bit_or, bit_and}
pub mod User
pub mod Copy
pub mod Bits
pub mod Walk
pub mod Linked
pub mod Tree
pub mod Found
pub mod Mapped
pub mod Range

abbrev pub maxva : ℕ
maxva = 2 ^ 38

-- The flags PTE_V, PTE_R, PTE_W, PTE_X and PTE_U.
abbrev pub flag_v : ℕ
flag_v = 1

abbrev pub flag_r : ℕ
flag_r = 2

abbrev pub flag_w : ℕ
flag_w = 4

abbrev pub flag_x : ℕ
flag_x = 8

abbrev pub flag_u : ℕ
flag_u = 16

unfoldable pub is_valid : ℕ → Bool
is_valid pte = pte % 2 == 1

unfoldable pub is_writable : ℕ → Bool
is_writable pte = pte / flag_w % 2 == 1

unfoldable pub is_user : ℕ → Bool
is_user pte = pte / flag_u % 2 == 1

-- PA2PTE, PTE2PA and PTE_FLAGS
unfoldable pub pa2pte : ℕ → ℕ
pa2pte pa = wrap64 (pa / 2 ^ 12 * 2 ^ 10)

unfoldable pub pte2pa : ℕ → ℕ
pte2pa pte = wrap64 (pte / 2 ^ 10 * 2 ^ 12)

unfoldable pub pte_flags : ℕ → ℕ
pte_flags pte = pte % 2 ^ 10

-- PX(level, va)
abbrev pub px : ℕ → ℕ → ℕ
px level va = va / 2 ^ (12 + 9 * level) % 2 ^ 9

-- `&pagetable[PX(level, va)]`
abbrev pub entry_at : ℕ → ℕ → ℕ → ℕ
entry_at level pagetable va = pagetable + 8 * px level va

abbrev pub read_word : ℕ → Vm ℕ
read_word a p = some (p.words a, p)

abbrev pub write_word : ℕ → ℕ → Vm Unit
write_word a v p = some (tt, record p { words = λ b. if b == a then v else p.words b })

-- The loop of `walk` from a level down, and the entry it ends at; `none` is a 0.
unfoldable pub walk_levels : ℕ → ℕ → ℕ → Bool → Vm (Option ℕ)
unfolding kalloc fill_page is_valid pa2pte pte2pa
walk_levels zero pagetable va alloc = pure (some (entry_at 0 pagetable va))
walk_levels (suc level) pagetable va alloc = do
  pte ← read_word (entry_at (suc level) pagetable va)
  if is_valid pte
      then walk_levels level (pte2pa pte) va alloc
      else if not alloc
      then pure none
      else do
        page ← kalloc
        elim page [
          | none ↦ pure none
          | some new ↦ do
            fill_page new 0
            write_word (entry_at (suc level) pagetable va) (bit_or (pa2pte new) flag_v)
            walk_levels level new va alloc
        ]

unfoldable pub walk : ℕ → ℕ → Bool → Vm (Option ℕ)
unfolding walk_levels
walk pagetable va alloc = if leb maxva va then panic else walk_levels 2 pagetable va alloc

unfoldable pub walkaddr : ℕ → ℕ → Vm ℕ
unfolding walk is_valid is_user pte2pa
walkaddr pagetable va = if leb maxva va then pure 0 else do
  found ← walk pagetable va false
  elim found [
    | none ↦ pure 0
    | some a ↦ do
      pte ← read_word a
      if not (is_valid pte) then pure 0 else if not (is_user pte) then pure 0 else pure (pte2pa pte)
  ]

-- One round of the loop of `mappages`; false is the result -1.
unfoldable pub map_page : ℕ → ℕ → ℕ → ℕ → Vm Bool
unfolding walk is_valid pa2pte
map_page pagetable a pa perm = do
  found ← walk pagetable a true
  elim found [
    | none ↦ pure false
    | some e ↦ do
      pte ← read_word e
      if is_valid pte
          then panic
          else do write_word e (bit_or (bit_or (pa2pte pa) perm) flag_v); pure true
  ]

-- The loop, with so many pages behind this one: `a == last` when there are none.
unfoldable pub map_pages : ℕ → ℕ → ℕ → ℕ → ℕ → Vm Bool
unfolding map_page
map_pages zero pagetable a pa perm = map_page pagetable a pa perm
map_pages (suc n) pagetable a pa perm = do
  done ← map_page pagetable a pa perm
  if done
      then map_pages n pagetable (wrap64 (a + pgsize)) (wrap64 (pa + pgsize)) perm
      else pure false

unfoldable pub mappages : ℕ → ℕ → ℕ → ℕ → ℕ → Vm Bool
unfolding map_pages
mappages pagetable va size pa perm =
    if not (va % pgsize == 0)
    then panic
    else if not (size % pgsize == 0)
    then panic
    else if size == 0
    then panic
    else map_pages (size / pgsize - 1) pagetable va pa perm

unfoldable pub kvmmap : ℕ → ℕ → ℕ → ℕ → ℕ → Vm Unit
unfolding mappages
kvmmap kpgtbl va pa sz perm = do
  done ← mappages kpgtbl va sz pa perm
  if done then pure tt else panic

unfoldable pub ismapped : ℕ → ℕ → Vm Bool
unfolding walk is_valid
ismapped pagetable va = do
  found ← walk pagetable va false
  elim found [ none ↦ pure false | some a ↦ do pte ← read_word a; pure (is_valid pte) ]
