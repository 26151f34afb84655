-- ===== src/Kernel/Vm/Found.antt =====
-- A walk that may make tables, of xv6/kernel/vm.c, from a table down, and the same walk later on.
use ru_shell.Kernel.Vm.Bits.{table_entry_lem}
use ru_shell.Base.{
  Bool-cases, List, Option, [], ap, false, inl, inr, none, refl, some, subst, suc, sym, true, zero,
  ℕ, ◌∙◌, ◌∷◌, ◌≡◌, ◌⊎◌,
}
use ru_shell.Kernel.Pages.{Phys}
use ru_shell.Kernel.Vm.{entry_at, is_valid, pte2pa, walk_levels}
use ru_shell.Kernel.Vm.Walk.{entry_page, page_of}
use ru_shell.Kernel.Vm.Linked.{linked, linked_entry, walk_new, walk_on, walk_out_of_pages}
use ru_shell.Kernel.Vm.Tree.{
  Grows, Grows-refl, Grows-trans, IsTree, Levels, added, added-new, added-old, linked-Grows,
  linked-IsTree, new-IsPage,
}

walk_found :
    (l pt va : ℕ) (p : Phys)
    → is_valid (p.words (entry_at (suc l) pt va)) ≡ true
    → walk_levels (suc l) pt va false p
      ≡ walk_levels l (pte2pa (p.words (entry_at (suc l) pt va))) va false p
unfolding walk_levels is_valid
walk_found l pt va p v = rw v refl

walk_not_found :
    (l pt va : ℕ) (p : Phys)
    → is_valid (p.words (entry_at (suc l) pt va)) ≡ false
    → walk_levels (suc l) pt va false p ≡ some (none, p)
unfolding walk_levels is_valid
walk_not_found l pt va p v = rw v refl

-- What is known behind a walk that may make tables: the tables are a tree still, and the entry that
-- it ends at stands in a table of level 0 and is found again.
abbrev pub Grown : Levels → ℕ → ℕ → ℕ → Phys → Option (Option ℕ × Phys) → Type 0
Grown lev l pt va p none = Unit
Grown lev l pt va p (some (none, q)) = Unit
Grown lev l pt va p (some (some e, q)) =
    (lev' : Levels) × IsTree lev' q
    × Grows lev lev' p q
    × (lev' (page_of e) ≡ some 0)
    × (walk_levels l pt va false q ≡ some (some e, q))

-- One level more.
Grown-up :
    (lev lev' : Levels) (l pt va : ℕ) (p m : Phys) (o : Option (Option ℕ × Phys))
    → Grows lev lev' p m
    → lev' (page_of (entry_at (suc l) pt va)) ≡ some (suc l)
    → is_valid (m.words (entry_at (suc l) pt va)) ≡ true
    → Grown lev' l (pte2pa (m.words (entry_at (suc l) pt va))) va m o
    → Grown lev (suc l) pt va p o
Grown-up lev lev' l pt va p m none g i v w = tt
Grown-up lev lev' l pt va p m (some (none, q)) g i v w = tt
Grown-up lev lev' l pt va p m (some (some e, q)) g i v (lev'', tree, h, leaf, again) =
    let word = h.same_word (entry_at (suc l) pt va) (suc l) i v in
    (
      lev'',
      tree,
      Grows-trans lev lev' lev'' p m q g h,
      leaf,
      walk_found l pt va q (ap is_valid word ∙ v)
          ∙ ap (λ w. walk_levels l (pte2pa w) va false q) word
          ∙ again,
    )

List-cases : (xs : List ℕ) → (xs ≡ []) ⊎ ((x : ℕ) × (rest : List ℕ) × (xs ≡ x ∷ rest))
List-cases [] = inl refl
List-cases (x ∷ rest) = inr (x, rest, refl)

pub walk_levels-Grown :
    (lev : Levels) (l pt va : ℕ) (p : Phys)
    → IsTree lev p
    → lev pt ≡ some l
    → Grown lev l pt va p (walk_levels l pt va true p)
walk_levels-Grown lev zero pt va p tree i =
    let leaf = ap lev (entry_page 0 pt va (tree.page pt 0 i).aligned) ∙ i in
    unfold walk_levels in (lev, tree, Grows-refl lev p, leaf, refl)
walk_levels-Grown lev (suc l) pt va p tree i =
    let x = entry_at (suc l) pt va in
    let here : lev (page_of x) ≡ some (suc l) =
      ap lev (entry_page (suc l) pt va (tree.page pt (suc l) i).aligned) ∙ i in
    elim (Bool-cases (is_valid (p.words x))) [
      | inl v ↦ rw (walk_on l pt va p v) (
          Grown-up lev lev l pt va p p _ (Grows-refl lev p) here v
            (walk_levels-Grown lev l (pte2pa (p.words x)) va p tree (tree.down x l here v)))
      | inr v ↦ elim (List-cases p.free) [
        | inl f ↦ rw (walk_out_of_pages l pt va p f v) tt
        | inr (new, rest, f) ↦
            let m = linked new x rest p in
            let lev' = added lev new l in
            let page = new-IsPage lev l x new rest p tree here v f in
            let word = linked_entry new x rest p in
            let (valid, address) = table_entry_lem new page.0.aligned page.0.bound in
            rw (walk_new l pt va new rest p f v) (
              Grown-up lev lev' l pt va p m (walk_levels l new va true m)
                (linked-Grows lev l x new rest p tree here v f)
                (added-old lev l x new rest p tree here v f (page_of x) (suc l) here)
                (ap is_valid word ∙ valid)
                (subst (λ z. Grown lev' l z va m (walk_levels l new va true m))
                  (sym (ap pte2pa word ∙ address))
                  (walk_levels-Grown lev' l new va m
                    (linked-IsTree lev l x new rest p tree here v f)
                    (added-new lev l x new rest p tree here v f))))
      ]
    ]

-- A walk on a memory in which the valid entries above level 0 are the same.
pub walk_stays :
    (lev : Levels) (l pt va e : ℕ) (p q : Phys)
    → IsTree lev p
    → lev pt ≡ some l
    → ((a m : ℕ)
        → lev (page_of a) ≡ some (suc m)
        → is_valid (p.words a) ≡ true
        → q.words a ≡ p.words a)
    → walk_levels l pt va false p ≡ some (some e, p)
    → walk_levels l pt va false q ≡ some (some e, q)
walk_stays lev zero pt va e p q tree i same w =
    let x = entry_at 0 pt va in
    let here : x ≡ e = unfold walk_levels in cc w in
    unfold walk_levels in ap (λ y. some (some y, q)) here
walk_stays lev (suc l) pt va e p q tree i same w =
    let x = entry_at (suc l) pt va in
    let here : lev (page_of x) ≡ some (suc l) =
      ap lev (entry_page (suc l) pt va (tree.page pt (suc l) i).aligned) ∙ i in
    elim (Bool-cases (is_valid (p.words x))) [
      | inl v ↦
          let word = same x l here v in
          walk_found l pt va q (ap is_valid word ∙ v)
          ∙ ap (λ y. walk_levels l (pte2pa y) va false q) word
          ∙ walk_stays lev l (pte2pa (p.words x)) va e p q tree (tree.down x l here v) same
              (sym (walk_found l pt va p v) ∙ w)
      | inr v ↦ absurd (cc (w, walk_not_found l pt va p v))
    ]
