-- ===== src/Kernel/Vm/User.antt =====
-- User page tables of xv6/kernel/vm.c: they grow, shrink, are copied and freed.
use ru_shell.Base.{
  Bool, Option, false, if◌then◌else◌, leb, ltb, none, not, some, suc, true, zero, ℕ, ◌%◌, ◌&&◌, ◌+◌,
  ◌-◌, ◌/◌, ◌==◌,
}
use ru_shell.Kernel.Memory.{memmove}
use ru_shell.Kernel.Exec.{panic, pure, ◌>>=◌, ◌>>◌}
use ru_shell.Kernel.Pages.{Vm, fill_page, kalloc, kfree, pground_up, pgsize}
use ru_shell.Kernel.Vm.{
  flag_r, flag_u, is_user, is_valid, mappages, pte2pa, pte_flags, read_word, walk, write_word,
}
use Prim.Native.Nat.{bit_or}

abbrev pub copy_bytes : ℕ → ℕ → ℕ → Vm Unit
copy_bytes dst src n p = some (tt, record p { bytes = memmove dst src n p.bytes })

unfoldable pub uvmcreate : Vm (Option ℕ)
unfolding kalloc fill_page
uvmcreate = do
  page ← kalloc
  elim page [ none ↦ pure none | some pagetable ↦ fill_page pagetable 0 >> pure (some pagetable) ]

-- What the loop of `uvmunmap` does to an entry.
unfoldable pub unmap_entry : ℕ → Bool → Vm Unit
unfolding is_valid pte2pa kfree
unmap_entry e do_free = do
  pte ← read_word e
  if not (is_valid pte)
      then pure tt
      else (if do_free then kfree (pte2pa pte) else pure tt) >> write_word e 0

-- The loop of `uvmunmap`, with `n` pages left from `a` on.
unfoldable pub unmap_pages : ℕ → ℕ → ℕ → Bool → Vm Unit
unfolding walk unmap_entry
unmap_pages zero pagetable a do_free = pure tt
unmap_pages (suc n) pagetable a do_free = do
  found ← walk pagetable a false
  (elim found [ none ↦ pure tt | some e ↦ unmap_entry e do_free ])
      >> unmap_pages n pagetable (a + pgsize) do_free

unfoldable pub uvmunmap : ℕ → ℕ → ℕ → Bool → Vm Unit
unfolding unmap_pages
uvmunmap pagetable va npages do_free =
    if not (va % pgsize == 0) then panic else unmap_pages npages pagetable va do_free

unfoldable pub uvmdealloc : ℕ → ℕ → ℕ → Vm ℕ
unfolding uvmunmap
uvmdealloc pagetable oldsz newsz =
    if leb oldsz newsz
    then pure oldsz
    else (if ltb (pground_up newsz) (pground_up oldsz)
        then uvmunmap pagetable (pground_up newsz) ((pground_up oldsz - pground_up newsz) / pgsize)
            true
        else pure tt)
      >> pure newsz

-- The way out of `uvmalloc`, with 0.
abbrev undo_alloc : ℕ → ℕ → ℕ → Vm ℕ
unfolding uvmdealloc
undo_alloc pagetable a oldsz = uvmdealloc pagetable a oldsz >> pure 0

-- The loop of `uvmalloc` from `a` on, on fuel: a page takes one.
unfoldable pub alloc_pages : ℕ → ℕ → ℕ → ℕ → ℕ → ℕ → Vm ℕ
unfolding kalloc fill_page mappages kfree uvmdealloc
alloc_pages zero pagetable a oldsz newsz xperm = pure newsz
alloc_pages (suc n) pagetable a oldsz newsz xperm = if leb newsz a then pure newsz else do
  page ← kalloc
  elim page [
    | none ↦ undo_alloc pagetable a oldsz
    | some mem ↦ do
      fill_page mem 0
      done ← mappages pagetable a pgsize mem (bit_or (bit_or flag_r flag_u) xperm)
      if done
          then alloc_pages n pagetable (a + pgsize) oldsz newsz xperm
          else kfree mem >> undo_alloc pagetable a oldsz
  ]

unfoldable pub uvmalloc : ℕ → ℕ → ℕ → ℕ → Vm ℕ
unfolding alloc_pages
uvmalloc pagetable oldsz newsz xperm =
    let low = pground_up oldsz in
    if ltb newsz oldsz then pure oldsz else alloc_pages newsz pagetable low low newsz xperm

-- What the loop of `freewalk` does to an entry, given the call for the table below.
unfoldable pub free_entry : (ℕ → Vm Unit) → ℕ → Vm Unit
unfolding is_valid pte2pa
free_entry below e = do
  pte ← read_word e
  if is_valid pte && pte / flag_r % 8 == 0
      then below (pte2pa pte) >> write_word e 0
      else if is_valid pte
      then panic
      else pure tt

-- The loop, with `n` entries left from `e` on.
unfoldable pub free_entries : (ℕ → Vm Unit) → ℕ → ℕ → Vm Unit
unfolding free_entry
free_entries below zero e = pure tt
free_entries below (suc n) e = free_entry below e >> free_entries below n (e + 8)

-- `freewalk` of a table with so many levels of tables below it. Where the code goes down further
-- this is a panic; the tables of `walk` have two levels below the first.
unfoldable pub freewalk : ℕ → ℕ → Vm Unit
unfolding free_entries kfree
freewalk zero pagetable = free_entries (λ _. panic) 512 pagetable >> kfree pagetable
freewalk (suc level) pagetable = free_entries (freewalk level) 512 pagetable >> kfree pagetable

unfoldable pub uvmfree : ℕ → ℕ → Vm Unit
unfolding uvmunmap freewalk
uvmfree pagetable sz =
    (if ltb 0 sz then uvmunmap pagetable 0 (pground_up sz / pgsize) true else pure tt)
    >> freewalk 2 pagetable

-- The pages of `uvmcopy` from `i` on, on fuel: a page takes one. False is the result -1.
unfoldable pub copy_pages : ℕ → ℕ → ℕ → ℕ → ℕ → Vm Bool
unfolding walk is_valid pte2pa pte_flags kalloc mappages kfree uvmunmap
copy_pages zero old new i sz = pure true
copy_pages (suc n) old new i sz = if leb sz i then pure true else do
  found ← walk old i false
  elim found [
    | none ↦ copy_pages n old new (i + pgsize) sz
    | some e ↦ do
      pte ← read_word e
      if not (is_valid pte) then copy_pages n old new (i + pgsize) sz else do
        page ← kalloc
        elim page [
          | none ↦ uvmunmap new 0 (i / pgsize) true >> pure false
          | some mem ↦ do
            copy_bytes mem (pte2pa pte) pgsize
            done ← mappages new i pgsize mem (pte_flags pte)
            if done
                then copy_pages n old new (i + pgsize) sz
                else kfree mem >> (uvmunmap new 0 (i / pgsize) true >> pure false)
        ]
  ]

unfoldable pub uvmcopy : ℕ → ℕ → ℕ → Vm Bool
unfolding copy_pages
uvmcopy old new sz = copy_pages sz old new 0 sz

unfoldable pub uvmclear : ℕ → ℕ → Vm Unit
unfolding walk is_user
uvmclear pagetable va = do
  found ← walk pagetable va false
  elim found [
    | none ↦ panic
    | some e ↦ do pte ← read_word e; write_word e (if is_user pte then pte - flag_u else pte)
  ]
