-- ===== src/Kernel/Pages.antt =====
-- The page allocator of xv6/kernel/kalloc.c. A page is its address. The links of the free list lie
-- in the free pages and are left out, as is the lock. Memory is seen as bytes and, for page tables,
-- as 64-bit words; a fill of a page shows in both.
use ru_shell.Base.{
  List, Option, [], if◌then◌else◌, leb, ltb, none, not, some, suc, zero, ℕ, ◌%◌, ◌&&◌, ◌*◌, ◌+◌,
  ◌-◌, ◌/◌, ◌==◌, ◌^◌, ◌||◌, ◌∷◌,
}
use ru_shell.Kernel.Exec.{Exec, pure, ◌>>=◌, ◌>>◌}
use ru_shell.Kernel.Memory.{Memory, memset}

abbrev pub pgsize : ℕ
pgsize = 4096

abbrev pub phystop : ℕ
phystop = 0x80000000 + 128 * 1024 * 1024

abbrev pub wrap64 : ℕ → ℕ
wrap64 n = n % 2 ^ 64

abbrev pub pground_up : ℕ → ℕ
pground_up sz = wrap64 (sz + pgsize - 1) / pgsize * pgsize

abbrev pub pground_down : ℕ → ℕ
pground_down a = a / pgsize * pgsize

-- `free` is `kmem.freelist`, and `kernel_end` the linker's `end`.
pub record Phys : Type 0 where
  pub bytes : Memory
  pub words : ℕ → ℕ
  pub free : List ℕ
  pub kernel_end : ℕ

-- Code on the memory.
abbrev pub Vm : Type 0 → Type 0
Vm A = Exec Phys A

-- `memset` of a page, seen both ways.
unfoldable pub fill_page : ℕ → ℕ → Vm Unit
fill_page pa c p = some (
  tt,
  record p {
    bytes = memset pa c pgsize p.bytes;
    words = λ a. if leb pa a && ltb a (pa + pgsize) then c * 0x0101010101010101 else p.words a;
  },
)

abbrev push_free : ℕ → Vm Unit
push_free pa p = some (tt, record p { free = pa ∷ p.free })

unfoldable pub kfree : ℕ → Vm Unit
unfolding fill_page
kfree pa p =
    if not (pa % pgsize == 0) || ltb pa p.kernel_end || leb phystop pa
    then none
    else (fill_page pa 1 >> push_free pa) p

-- The page at the front of the free list; none is a 0.
pop_free : Vm (Option ℕ)
pop_free p = elim p.free [
  | [] ↦ some (none, p)
  | pa ∷ rest ↦ some (some pa, record p { free = rest })
]

unfoldable pub kalloc : Vm (Option ℕ)
unfolding pop_free fill_page
kalloc = do
  page ← pop_free
  elim page [ none ↦ pure none | some pa ↦ fill_page pa 5 >> pure (some pa) ]

-- The loop of `freerange`, on fuel: a page takes one.
unfoldable pub free_pages : ℕ → ℕ → ℕ → Vm Unit
unfolding kfree
free_pages zero p pa_end = pure tt
free_pages (suc n) p pa_end =
    if leb (p + pgsize) pa_end then kfree p >> free_pages n (p + pgsize) pa_end else pure tt

unfoldable pub freerange : ℕ → ℕ → Vm Unit
unfolding free_pages
freerange pa_start pa_end = free_pages pa_end (pground_up pa_start) pa_end

unfoldable pub kinit : Vm Unit
unfolding freerange
kinit p = freerange p.kernel_end phystop p
