-- ===== src/Kernel/Vm/Linked.antt =====
-- A new table linked into a page table by `walk` of xv6/kernel/vm.c.
use ru_shell.Base.{
  List, [], arith, false, if◌then◌else◌, leb, ltb, none, refl, some, suc, true, ℕ, ◌%◌, ◌&&◌, ◌*◌,
  ◌+◌, ◌==◌, ◌∷◌, ◌≡◌, ◌≢◌,
}
use ru_shell.Kernel.Memory
use ru_shell.Kernel.Pages.{Phys, fill_page, kalloc, pgsize}
use ru_shell.Kernel.Vm.{entry_at, flag_v, is_valid, pa2pte, pte2pa, walk_levels}
use ru_shell.Kernel.Vm.Walk.{page_of}
use Prim.Native.Nat.{bit_or}

-- The memory when a new table `new` is linked at `x`.
abbrev pub linked : ℕ → ℕ → List ℕ → Phys → Phys
linked new x rest p = record p {
  bytes = Memory.memset new 0 pgsize (Memory.memset new 5 pgsize p.bytes);
  words = λ b.
      if b == x
      then bit_or (pa2pte new) flag_v
      else if leb new b && ltb b (new + pgsize)
      then 0
      else if leb new b && ltb b (new + pgsize)
      then 5 * 0x0101010101010101
      else p.words b;
  free = rest;
}

pub walk_new :
    (l pt va new : ℕ) (rest : List ℕ) (p : Phys)
    → p.free ≡ new ∷ rest
    → is_valid (p.words (entry_at (suc l) pt va)) ≡ false
    → walk_levels (suc l) pt va true p
      ≡ walk_levels l new va true (linked new (entry_at (suc l) pt va) rest p)
unfolding walk_levels is_valid kalloc fill_page
walk_new l pt va new rest p f v = rw (v, f) refl

pub walk_out_of_pages :
    (l pt va : ℕ) (p : Phys)
    → p.free ≡ []
    → is_valid (p.words (entry_at (suc l) pt va)) ≡ false
    → walk_levels (suc l) pt va true p ≡ some (none, p)
unfolding walk_levels is_valid kalloc fill_page
walk_out_of_pages l pt va p f v = rw (v, f) refl

pub walk_on :
    (l pt va : ℕ) (p : Phys)
    → is_valid (p.words (entry_at (suc l) pt va)) ≡ true
    → walk_levels (suc l) pt va true p
      ≡ walk_levels l (pte2pa (p.words (entry_at (suc l) pt va))) va true p
unfolding walk_levels is_valid
walk_on l pt va p v = rw v refl

-- The link to a new table, and what it leaves of the other pages.
pub linked_entry :
    (new x : ℕ) (rest : List ℕ) (p : Phys)
    → (linked new x rest p).words x ≡ bit_or (pa2pte new) flag_v
linked_entry new x rest p = ground arith

pub linked_other :
    (new x a : ℕ) (rest : List ℕ) (p : Phys)
    → new % pgsize ≡ 0
    → a ≢ x
    → page_of a ≢ new
    → (linked new x rest p).words a ≡ p.words a
linked_other new x a rest p z n m =
    let below : (leb new a && ltb a (new + pgsize)) ≡ false = ground (arith, m, z) in
    ground (arith, n, below)

pub linked_fresh :
    (new x a : ℕ) (rest : List ℕ) (p : Phys)
    → new % pgsize ≡ 0
    → a ≢ x
    → page_of a ≡ new
    → (linked new x rest p).words a ≡ 0
linked_fresh new x a rest p z n m =
    let within : (leb new a && ltb a (new + pgsize)) ≡ true = ground (arith, m) in
    ground (arith, n, within)
