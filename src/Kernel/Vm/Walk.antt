-- ===== src/Kernel/Vm/Walk.antt =====
-- The pages that hold page tables, of xv6/kernel/vm.c, and the pages that are free.
use ru_shell.Base.{List, [], arith, ℕ, ◌%◌, ◌<◌, ◌^◌, ◌∷◌, ◌≡◌, ◌⊎◌}
use ru_shell.Kernel.Pages.{pground_down, pgsize}
use ru_shell.Kernel.Vm.{entry_at}

abbrev pub Pages : Type 1
Pages = ℕ → Type 0

abbrev pub with_page : Pages → ℕ → Pages
with_page k pt x = k x ⊎ (x ≡ pt)

pub record IsPage (pa : ℕ) : Type 0 where
  pub aligned : pa % pgsize ≡ 0
  pub bound : pa < 2 ^ 56

-- Free pages, none of them in `k`, and no two the same.
abbrev pub Apart : Pages → List ℕ → Type 0
Apart k [] = Unit
Apart k (x ∷ xs) = IsPage x × (k x → ⊥) × Apart (with_page k x) xs

abbrev pub page_of : ℕ → ℕ
page_of a = pground_down a

pub entry_page : (l pt va : ℕ) → pt % pgsize ≡ 0 → page_of (entry_at l pt va) ≡ pt
entry_page l pt va e = omega arith
