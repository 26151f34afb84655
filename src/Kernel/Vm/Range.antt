-- ===== src/Kernel/Vm/Range.antt =====
-- The pages of a range that `mappages` of xv6/kernel/vm.c maps.
use ru_shell.Kernel.Exec.{pure, ◌>>=◌}
use ru_shell.Kernel.Vm.Bits.{entry_lem}
use ru_shell.Base.{
  ==_iff, Bool, Option, ap, arith, false, if◌then◌else◌, none, refl, some, subst, suc, sym, true,
  zero, ℕ, ◌%◌, ◌*◌, ◌+◌, ◌-◌, ◌/◌, ◌<◌, ◌==◌, ◌^◌, ◌∙◌, ◌≡◌, ◌≤◌,
}
use ru_shell.Kernel.Pages.{Phys, Vm, pgsize, wrap64}
use ru_shell.Kernel.Vm.{is_user, is_valid, map_page, map_pages, mappages, maxva, walkaddr}
use ru_shell.Kernel.Vm.Tree.{Grows, Grows-trans, IsTree, Levels}
use ru_shell.Kernel.Vm.Mapped.{Finds, Finds-Grows, map_page-MapEnd, new_entry, walkaddr-Finds}

-- The pages of a range from `a` on are found at those from `pa` on.
pub record Ranges (lev lev' : Levels) (n pt a pa perm : ℕ) (p q : Phys) : Type 0 where
  pub tree : IsTree lev' q
  pub grows : Grows lev lev' p q
  pub found : (i : ℕ) → i ≤ n → Finds lev' pt (a + i * pgsize) (new_entry (pa + i * pgsize) perm) q

-- What is known of two calls, of which the second is made if the first returns true.
module _ (m f : Vm Bool) (q : Phys) where
  both_from :
      (o : Option (Bool × Phys))
      → (elim o [ none ↦ none | some (b, r) ↦ (if b then f else pure false) r ]) ≡ some (true, q)
      → (r : Phys) × (o ≡ some (true, r)) × (f r ≡ some (true, q))
  both_from none e = absurd (cc e)
  both_from (some (false, r)) e = absurd (cc e)
  both_from (some (true, r)) e = (r, refl, e)

  both_true :
      (p : Phys)
      → (m >>= (λ b. if b then f else pure false)) p ≡ some (true, q)
      → (r : Phys) × (m p ≡ some (true, r)) × (f r ≡ some (true, q))
  both_true p e = both_from (m p) e

map_pages_round :
    (n pt a pa perm : ℕ) (p : Phys)
    → map_pages (suc n) pt a pa perm p
      ≡ (map_page pt a pa perm >>= (λ b.
            if b
            then map_pages n pt (wrap64 (a + pgsize)) (wrap64 (pa + pgsize)) perm
            else pure false))
          p
unfolding map_pages
map_pages_round n pt a pa perm p = refl

map_pages-first :
    (n pt a pa perm : ℕ) (p q : Phys)
    → a + pgsize < 2 ^ 64
    → pa + pgsize < 2 ^ 64
    → map_pages (suc n) pt a pa perm p ≡ some (true, q)
    → (m : Phys) × (map_page pt a pa perm p ≡ some (true, m))
      × (map_pages n pt (a + pgsize) (pa + pgsize) perm m ≡ some (true, q))
map_pages-first n pt a pa perm p q l k e =
    let w : wrap64 (a + pgsize) ≡ a + pgsize = omega (arith, l) in
    let v : wrap64 (pa + pgsize) ≡ pa + pgsize = omega (arith, k) in
    let (m, first, rest) =
      both_true (map_page pt a pa perm)
        (map_pages n pt (wrap64 (a + pgsize)) (wrap64 (pa + pgsize)) perm) q p
        (sym (map_pages_round n pt a pa perm p) ∙ e) in
    (
      m,
      first,
      ap (λ x. map_pages n pt x (pa + pgsize) perm m) (sym w)
          ∙ ap (λ x. map_pages n pt (wrap64 (a + pgsize)) x perm m) (sym v)
          ∙ rest,
    )

map_pages_last :
    (pt a pa perm : ℕ) (p : Phys) → map_pages 0 pt a pa perm p ≡ map_page pt a pa perm p
unfolding map_pages
map_pages_last pt a pa perm p = refl

new_entry-IsValid :
    (pa perm : ℕ) → pa % pgsize ≡ 0 → pa < 2 ^ 56 → perm < 32 → is_valid (new_entry pa perm) ≡ true
new_entry-IsValid pa perm e l f = (entry_lem pa perm e l f).0

Finds-at :
    (lev : Levels) (pt perm : ℕ) (q : Phys) {a a' pa pa' : ℕ}
    → a ≡ a'
    → pa ≡ pa'
    → Finds lev pt a (new_entry pa perm) q
    → Finds lev pt a' (new_entry pa' perm) q
Finds-at lev pt perm q x y = subst (λ v. v) (λ j. Finds lev pt (x j) (new_entry (y j) perm) q)

map_pages-Ranges :
    (n pt a pa perm : ℕ) (lev : Levels) (p q : Phys)
    → IsTree lev p
    → lev pt ≡ some 2
    → a + n * pgsize < maxva
    → pa % pgsize ≡ 0
    → pa + n * pgsize < 2 ^ 56
    → perm < 32
    → map_pages n pt a pa perm p ≡ some (true, q)
    → (lev' : Levels) × Ranges lev lev' n pt a pa perm p q
map_pages-Ranges zero pt a pa perm lev p q tree root l aligned k f e =
    let (lev', tree', g, here) =
      map_page-MapEnd lev pt a pa perm p q tree root (omega (arith, l))
        (sym (map_pages_last pt a pa perm p) ∙ e) in
    (
      lev',
      record {
        tree = tree';
        grows = g;
        found = λ i h.
            let z : i ≡ 0 = omega (arith, h) in
            Finds-at lev' pt perm q (omega (arith, z)) (omega (arith, z)) here;
      },
    )
map_pages-Ranges (suc n) pt a pa perm lev p q tree root l aligned k f e =
    let (m, first, rest) =
      map_pages-first n pt a pa perm p q (omega (arith, l)) (omega (arith, k)) e in
    let (lev', tree', g, here) =
      map_page-MapEnd lev pt a pa perm p m tree root (omega (arith, l)) first in
    let (lev'', r) =
      map_pages-Ranges n pt (a + pgsize) (pa + pgsize) perm lev' m q tree' (g.same_level pt 2 root)
        (omega (arith, l)) (omega (arith, aligned)) (omega (arith, k)) f rest in
    (
      lev'',
      record {
        tree = r.tree;
        grows = Grows-trans lev lev' lev'' p m q g r.grows;
        found = λ i h.
            elim i
                as (λ i.
                  i ≤ suc n
                  → Finds lev'' pt (a + i * pgsize) (new_entry (pa + i * pgsize) perm) q) [
                    | zero ↦ λ _. Finds-at lev'' pt perm q (omega arith) (omega arith) (
                        Finds-Grows lev' lev'' pt a (new_entry pa perm) m q tree'
                          (g.same_level pt 2 root)
                          (new_entry-IsValid pa perm aligned (omega (arith, k)) f) r.grows here)
                    | suc i ↦ λ h.
                        Finds-at lev'' pt perm q (omega arith) (omega arith)
                          (r.found i (omega (arith, h)))
                  ]
              h;
      },
    )

mappages_lem :
    (n pt a pa perm : ℕ) (p : Phys)
    → a % pgsize ≡ 0
    → suc n * pgsize < 2 ^ 64
    → mappages pt a (suc n * pgsize) pa perm p ≡ map_pages n pt a pa perm p
unfolding mappages
mappages_lem n pt a pa perm p z l =
    let t1 : (a % pgsize == 0) ≡ true = (==_iff (a % pgsize) 0).1 z in
    let t2 : (suc n * pgsize % pgsize == 0) ≡ true =
      (==_iff (suc n * pgsize % pgsize) 0).1 (omega arith) in
    let t3 : (suc n * pgsize == 0) ≡ false = ground arith in
    let count : suc n * pgsize / pgsize - 1 ≡ n = omega arith in rw (t1, t2, t3, count) refl

-- The tables of a page table are a tree, with the table itself at level 2, and `mappages` has mapped
-- `n` pages from `a` on to those from `pa` on for users. Then `walkaddr` gives for each page of the
-- range its own page, counted from `pa` on.
pub walkaddr-mappages :
    (n i pt a pa perm : ℕ) (lev : Levels) (p q : Phys)
    → IsTree lev p
    → lev pt ≡ some 2
    → a % pgsize ≡ 0
    → a + n * pgsize ≤ maxva
    → pa % pgsize ≡ 0
    → pa + n * pgsize ≤ 2 ^ 56
    → perm < 32
    → is_user perm ≡ true
    → i < n
    → mappages pt a (n * pgsize) pa perm p ≡ some (true, q)
    → walkaddr pt (a + i * pgsize) q ≡ some (pa + i * pgsize, q)
walkaddr-mappages zero i pt a pa perm lev p q tree root z l w k f u h e = absurd (omega (arith, h))
walkaddr-mappages (suc n) i pt a pa perm lev p q tree root z l w k f u h e =
    let (lev', r) =
      map_pages-Ranges n pt a pa perm lev p q tree root (omega (arith, l)) w (omega (arith, k)) f
        (sym (mappages_lem n pt a pa perm p z (omega (arith, l))) ∙ e) in
    walkaddr-Finds lev' pt (a + i * pgsize) (pa + i * pgsize) perm q (omega (arith, l, h))
      (record { aligned = omega (arith, w); bound = omega (arith, k, h) }) f u
      (r.found i (omega (arith, h)))
