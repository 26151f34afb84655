-- ===== src/Kernel/Vm/Tree.antt =====
-- Page tables of xv6/kernel/vm.c as a tree of tables with levels.
use ru_shell.Kernel.Vm.Bits.{table_entry_lem}
use ru_shell.Base.{
  ==_iff, Bool-cases, List, Option, [], ap, arith, false, if◌then◌else◌, inl, inr, refl, some,
  subst, suc, sym, true, ℕ, ◌==◌, ◌∙◌, ◌∷◌, ◌≡◌, ◌≢◌,
}
use ru_shell.Kernel.Pages.{Phys}
use ru_shell.Kernel.Vm.{flag_v, is_valid, pa2pte, pte2pa}
use ru_shell.Kernel.Vm.Walk.{Apart, IsPage, Pages, page_of, with_page}
use ru_shell.Kernel.Vm.Linked.{linked, linked_entry, linked_fresh, linked_other}
use Prim.Native.Nat.{bit_or}

-- The level of each page that is a table.
abbrev pub Levels : Type 0
Levels = ℕ → Option ℕ

abbrev pub IsTable : Levels → ℕ → Type 0
IsTable lev x = (l : ℕ) × (lev x ≡ some l)

-- A valid entry of a table above level 0 leads to a table one level down, and no table is free.
pub record IsTree (lev : Levels) (p : Phys) : Type 0 where
  pub page : (x l : ℕ) → lev x ≡ some l → IsPage x
  pub down :
      (e l : ℕ)
      → lev (page_of e) ≡ some (suc l)
      → is_valid (p.words e) ≡ true
      → lev (pte2pa (p.words e)) ≡ some l
  pub apart : Apart (IsTable lev) p.free

-- Tables may be new, and entries may become valid; those that are valid stay.
pub record Grows (lev lev' : Levels) (p q : Phys) : Type 0 where
  pub same_level : (x l : ℕ) → lev x ≡ some l → lev' x ≡ some l
  pub same_word :
      (e l : ℕ) → lev (page_of e) ≡ some l → is_valid (p.words e) ≡ true → q.words e ≡ p.words e

pub Grows-refl : (lev : Levels) (p : Phys) → Grows lev lev p p
Grows-refl lev p = record { same_level = λ x l h. h; same_word = λ e l h v. refl }

pub Grows-trans :
    (lev lev' lev'' : Levels) (p q r : Phys)
    → Grows lev lev' p q
    → Grows lev' lev'' q r
    → Grows lev lev'' p r
Grows-trans lev lev' lev'' p q r g h = record {
  same_level = λ x l e. h.same_level x l (g.same_level x l e);
  same_word = λ e l i v.
      let first = g.same_word e l i v in
      h.same_word e l (g.same_level (page_of e) l i) (ap is_valid first ∙ v) ∙ first;
}

Apart-mono : (k k' : Pages) (xs : List ℕ) → ((x : ℕ) → k' x → k x) → Apart k xs → Apart k' xs
Apart-mono k k' [] f h = tt
Apart-mono k k' (x ∷ xs) f (page, out, rest) = (
  page,
  λ i. out (f x i),
  Apart-mono (with_page k x) (with_page k' x) xs
      (λ y o. elim o [ inl a ↦ inl (f y a) | inr q ↦ inr q ]) rest,
)

zero-invalid : is_valid 0 ≢ true
unfolding is_valid
zero-invalid e = cc

-- The levels with one table more.
abbrev pub added : Levels → ℕ → ℕ → Levels
added lev new l y = if y == new then some l else lev y

module _ (lev : Levels) (l x new : ℕ) (rest : List ℕ) (p : Phys) (tree : IsTree lev p)
    (above : lev (page_of x) ≡ some (suc l)) (invalid : is_valid (p.words x) ≡ false)
    (f : p.free ≡ new ∷ rest) where
  pub new-IsPage : IsPage new × (IsTable lev new → ⊥) × Apart (with_page (IsTable lev) new) rest
  new-IsPage = subst (Apart (IsTable lev)) f tree.apart

  old-ne : (y m : ℕ) → lev y ≡ some m → (y == new) ≡ false
  old-ne y m h = elim (Bool-cases (y == new)) [
    | inl e ↦ absurd (new-IsPage.1 (m, subst (λ z. lev z ≡ some m) ((==_iff y new).0 e) h))
    | inr e ↦ e
  ]

  pub added-old : (y m : ℕ) → lev y ≡ some m → added lev new l y ≡ some m
  added-old y m h = rw (old-ne y m h) h

  pub added-new : added lev new l new ≡ some l
  added-new = ground arith

  pub linked-Grows : Grows lev (added lev new l) p (linked new x rest p)
  linked-Grows = record {
    same_level = added-old;
    same_word = λ e m h v.
        let ne : page_of e ≢ new = λ q. ground (arith, q, old-ne (page_of e) m h) in
        let apart : e ≢ x = λ q. absurd (cc (v, invalid, ap (λ y. is_valid (p.words y)) q)) in
        linked_other new x e rest p new-IsPage.0.aligned apart ne;
  }

  linked-down :
      (e m : ℕ)
      → added lev new l (page_of e) ≡ some (suc m)
      → is_valid ((linked new x rest p).words e) ≡ true
      → added lev new l (pte2pa ((linked new x rest p).words e)) ≡ some m
  linked-down e m h v = elim (Bool-cases (e == x)) [
    | inl q ↦
        let here = (==_iff e x).0 q in
        let word : (linked new x rest p).words e ≡ bit_or (pa2pte new) flag_v =
          ap (linked new x rest p).words here ∙ linked_entry new x rest p in
        let (_, address) = table_entry_lem new new-IsPage.0.aligned new-IsPage.0.bound in
        let level : added lev new l (page_of e) ≡ some (suc l) =
          ap (λ y. added lev new l (page_of y)) here ∙ added-old (page_of x) (suc l) above in
        let same : l ≡ m = cc (level, h) in
        ap (λ w. added lev new l (pte2pa w)) word
        ∙ ap (added lev new l) address
        ∙ added-new
        ∙ ap some same
    | inr q ↦
        let apart : e ≢ x = λ r. ground (arith, q, r) in
        elim (Bool-cases (page_of e == new)) [
          | inl r ↦
              let word =
                linked_fresh new x e rest p new-IsPage.0.aligned apart
                  ((==_iff (page_of e) new).0 r) in
              absurd (zero-invalid (sym (ap is_valid word) ∙ v))
          | inr r ↦
              let word =
                linked_other new x e rest p new-IsPage.0.aligned apart
                  (λ z. ground (arith, r, z)) in
              let old = tree.down e m (ground (arith, h, r)) (sym (ap is_valid word) ∙ v) in
              ap (λ w. added lev new l (pte2pa w)) word ∙ added-old (pte2pa (p.words e)) m old
        ]
  ]

  pub linked-IsTree : IsTree (added lev new l) (linked new x rest p)
  linked-IsTree = record {
    page = λ y m h. elim (Bool-cases (y == new)) [
      | inl q ↦ subst IsPage (sym ((==_iff y new).0 q)) new-IsPage.0
      | inr q ↦ tree.page y m (ground (arith, h, q))
    ];
    down = linked-down;
    apart =
        Apart-mono (with_page (IsTable lev) new) (IsTable (added lev new l)) rest
          (λ y (m, h). elim (Bool-cases (y == new)) [
            | inl q ↦ inr ((==_iff y new).0 q)
            | inr q ↦ inl (m, ground (arith, h, q))
          ])
          new-IsPage.2;
  }
