-- ===== src/Kernel/Vm/Copy.antt =====
-- Copies between the kernel and a process, and pages that are mapped when they are first used, of
-- xv6/kernel/vm.c. The kernel's addresses are those of the memory.
use ru_shell.Base.{
  Bool, false, if◌then◌else◌, leb, ltb, none, not, some, suc, true, zero, ℕ, ◌%◌, ◌+◌, ◌-◌, ◌==◌,
}
use ru_shell.Kernel.Memory.{Memory, store}
use ru_shell.Kernel.Exec.{panic, pure, ◌>>=◌, ◌>>◌}
use ru_shell.Kernel.Pages.{Vm, fill_page, kalloc, kfree, pground_down, pgsize, wrap64}
use ru_shell.Kernel.Vm.{
  flag_r, flag_u, flag_w, is_writable, ismapped, mappages, maxva, read_word, walk, walkaddr,
}
use ru_shell.Kernel.Vm.User.{copy_bytes}

-- The argument `read` is not used.
unfoldable pub vmfault : ℕ → ℕ → ℕ → Vm ℕ
unfolding ismapped kalloc fill_page mappages kfree
vmfault pagetable psz va =
    let page_va = pground_down va in
    if leb psz va then pure 0 else do
      mapped ← ismapped pagetable page_va
      if mapped then pure 0 else do
        page ← kalloc
        elim page [
          | none ↦ pure 0
          | some mem ↦ do
            fill_page mem 0
            done ← mappages pagetable page_va pgsize mem (flag_w + flag_u + flag_r)
            if done then pure mem else kfree mem >> pure 0
        ]

-- The page of a user address, mapped if need be, or 0.
unfoldable pub user_page : ℕ → ℕ → ℕ → Vm ℕ
unfolding walkaddr vmfault
user_page pagetable psz va0 = do
  pa0 ← walkaddr pagetable va0
  if pa0 == 0 then vmfault pagetable psz va0 else pure pa0

-- The bytes up to the end of the page, or `len`.
abbrev pub chunk : ℕ → ℕ → ℕ
chunk va len = if ltb len (pgsize - va % pgsize) then len else pgsize - va % pgsize

-- Whether `copyout` may write to the page; a walk that finds no entry is read through.
unfoldable pub page_writable : ℕ → ℕ → Vm Bool
unfolding walk is_writable
page_writable pagetable va0 = do
  found ← walk pagetable va0 false
  elim found [ none ↦ panic | some e ↦ do pte ← read_word e; pure (is_writable pte) ]

-- The loop of `copyout` on fuel: a round copies a byte at least. False is the result -1.
unfoldable pub copyout_loop : ℕ → ℕ → ℕ → ℕ → ℕ → ℕ → Vm Bool
unfolding user_page page_writable
copyout_loop zero pagetable psz dstva src len = pure true
copyout_loop (suc fuel) pagetable psz dstva src len =
    let va0 = pground_down dstva in
    let n = chunk dstva len in
    if len == 0 then pure true else if leb maxva va0 then pure false else do
      pa0 ← user_page pagetable psz va0
      if pa0 == 0 then pure false else do
        writable ← page_writable pagetable va0
        if not writable
            then pure false
            else copy_bytes (pa0 + dstva % pgsize) src n
              >> copyout_loop fuel pagetable psz (wrap64 (va0 + pgsize)) (src + n) (len - n)

unfoldable pub copyout : ℕ → ℕ → ℕ → ℕ → ℕ → Vm Bool
unfolding copyout_loop
copyout pagetable psz dstva src len = copyout_loop len pagetable psz dstva src len

-- The loop of `copyin`, on fuel like that of `copyout`.
unfoldable pub copyin_loop : ℕ → ℕ → ℕ → ℕ → ℕ → ℕ → Vm Bool
unfolding user_page
copyin_loop zero pagetable psz dst srcva len = pure true
copyin_loop (suc fuel) pagetable psz dst srcva len =
    let va0 = pground_down srcva in
    let n = chunk srcva len in
    if len == 0 then pure true else do
      pa0 ← user_page pagetable psz va0
      if pa0 == 0
          then pure false
          else copy_bytes dst (pa0 + srcva % pgsize) n
            >> copyin_loop fuel pagetable psz (dst + n) (wrap64 (va0 + pgsize)) (len - n)

unfoldable pub copyin : ℕ → ℕ → ℕ → ℕ → ℕ → Vm Bool
unfolding copyin_loop
copyin pagetable psz dst srcva len = copyin_loop len pagetable psz dst srcva len

-- The inner loop of `copyinstr`: `n` bytes of a page, up to a NUL, and whether there was one.
unfoldable pub copy_string : ℕ → ℕ → ℕ → Memory → Bool × Memory
copy_string zero dst p m = (false, m)
copy_string (suc n) dst p m =
    let rest = copy_string n (dst + 1) (p + 1) (store m dst (m p)) in
    if m p == 0 then (true, store m dst 0) else rest

abbrev copy_chunk : ℕ → ℕ → ℕ → Vm Bool
unfolding copy_string
copy_chunk n dst src p =
    let (got_null, m) = copy_string n dst src p.bytes in some (got_null, record p { bytes = m })

-- The outer loop, with `max` bytes left; false is the result -1.
unfoldable pub copyinstr_loop : ℕ → ℕ → ℕ → ℕ → ℕ → ℕ → Vm Bool
unfolding user_page copy_string
copyinstr_loop zero pagetable psz dst srcva max = pure false
copyinstr_loop (suc fuel) pagetable psz dst srcva max =
    let va0 = pground_down srcva in
    let n = chunk srcva max in
    if max == 0 then pure false else do
      pa0 ← user_page pagetable psz va0
      if pa0 == 0 then pure false else do
        got_null ← copy_chunk n dst (pa0 + srcva % pgsize)
        if got_null
            then pure true
            else copyinstr_loop fuel pagetable psz (dst + n) (wrap64 (va0 + pgsize)) (max - n)

unfoldable pub copyinstr : ℕ → ℕ → ℕ → ℕ → ℕ → Vm Bool
unfolding copyinstr_loop
copyinstr pagetable psz dst srcva max = copyinstr_loop max pagetable psz dst srcva max
