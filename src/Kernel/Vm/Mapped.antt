-- ===== src/Kernel/Vm/Mapped.antt =====
-- The pages that `mappages` maps are found by `walkaddr`, of xv6/kernel/vm.c.
use ru_shell.Kernel.Vm.Bits.{entry_lem}
use ru_shell.Kernel.Vm.Found.{Grown, walk_levels-Grown, walk_stays}
use ru_shell.Base.{
  ==_iff, Bool, Bool-cases, Option, ap, arith, false, if◌then◌else◌, inl, inr, leb, none, not, refl,
  some, subst, suc, sym, true, ℕ, ◌<◌, ◌==◌, ◌∙◌, ◌≡◌,
}
use ru_shell.Kernel.Exec.{panic, pure, ◌>>=◌, ◌>>◌}
use ru_shell.Kernel.Pages.{Phys, Vm}
use ru_shell.Kernel.Vm.{
  flag_v, is_user, is_valid, map_page, maxva, pa2pte, pte2pa, read_word, walk, walk_levels,
  walkaddr, write_word,
}
use ru_shell.Kernel.Vm.Tree.{Grows, IsTree, Levels}
use ru_shell.Kernel.Vm.Walk.{IsPage, page_of}
use Prim.Native.Nat.{bit_or}

abbrev pub new_entry : ℕ → ℕ → ℕ
new_entry pa perm = bit_or (bit_or (pa2pte pa) perm) flag_v

abbrev with_word : ℕ → ℕ → Phys → Phys
with_word e v p = record p { words = λ b. if b == e then v else p.words b }

walk-true : (pt a : ℕ) (p : Phys) → a < maxva → walk pt a true p ≡ walk_levels 2 pt a true p
unfolding walk
walk-true pt a p l = let h : leb maxva a ≡ false = ground arith in rw h refl

walk-false : (pt a : ℕ) (p : Phys) → a < maxva → walk pt a false p ≡ walk_levels 2 pt a false p
unfolding walk
walk-false pt a p l = let h : leb maxva a ≡ false = ground arith in rw h refl

-- What `map_page` makes of the entry that its walk ends at.
abbrev mapped_at : ℕ → ℕ → Option (Option ℕ × Phys) → Option (Bool × Phys)
mapped_at pa perm none = none
mapped_at pa perm (some (none, q)) = some (false, q)
mapped_at pa perm (some (some e, q)) =
    if is_valid (q.words e) then none else some (true, with_word e (new_entry pa perm) q)

-- The same of a user address.
abbrev address_at : Option (Option ℕ × Phys) → Option (ℕ × Phys)
address_at none = none
address_at (some (none, q)) = some (0, q)
address_at (some (some e, q)) =
    if not (is_valid (q.words e))
    then some (0, q)
    else if not (is_user (q.words e))
    then some (0, q)
    else some (pte2pa (q.words e), q)

abbrev after : {A B : Type 0} → (A → Vm B) → Option (A × Phys) → Option (B × Phys)
after f none = none
after f (some (a, q)) = f a q

after_lem : {A B : Type 0} (m : Vm A) (f : A → Vm B) (p : Phys) → (m >>= f) p ≡ after f (m p)
after_lem m f p = refl

abbrev link_entry : ℕ → ℕ → Option ℕ → Vm Bool
link_entry pa perm found = elim found [
  | none ↦ pure false
  | some e ↦
      read_word e
      >>= (λ pte. if is_valid pte then panic else (write_word e (new_entry pa perm) >> pure true))
]

after-link_entry :
    (pa perm : ℕ) (o : Option (Option ℕ × Phys))
    → after (link_entry pa perm) o ≡ mapped_at pa perm o
after-link_entry pa perm none = refl
after-link_entry pa perm (some (none, q)) = refl
after-link_entry pa perm (some (some e, q)) = elim (Bool-cases (is_valid (q.words e))) [
  | inl v ↦ rw v refl
  | inr v ↦ rw v refl
]

abbrev user_address : Option ℕ → Vm ℕ
user_address found = elim found [
  | none ↦ pure 0
  | some e ↦ read_word e >>= (λ pte.
      if not (is_valid pte)
      then pure 0
      else if not (is_user pte)
      then pure 0
      else pure (pte2pa pte))
]

after-user_address : (o : Option (Option ℕ × Phys)) → after user_address o ≡ address_at o
after-user_address none = refl
after-user_address (some (none, q)) = refl
after-user_address (some (some e, q)) = elim (Bool-cases (is_valid (q.words e))) [
  | inl v ↦ elim (Bool-cases (is_user (q.words e))) [
    | inl u ↦ rw (v, u) refl
    | inr u ↦ rw (v, u) refl
  ]
  | inr v ↦ rw v refl
]

map_page_lem :
    (pt a pa perm : ℕ) (p : Phys)
    → a < maxva
    → map_page pt a pa perm p ≡ mapped_at pa perm (walk_levels 2 pt a true p)
unfolding map_page is_valid
map_page_lem pt a pa perm p l =
    after_lem (walk pt a true) (link_entry pa perm) p
    ∙ after-link_entry pa perm (walk pt a true p)
    ∙ ap (mapped_at pa perm) (walk-true pt a p l)

walkaddr_lem :
    (pt a : ℕ) (q : Phys) → a < maxva → walkaddr pt a q ≡ address_at (walk_levels 2 pt a false q)
unfolding walkaddr is_valid is_user
walkaddr_lem pt a q l =
    let h : leb maxva a ≡ false = ground arith in
    let open_it : walkaddr pt a q ≡ (walk pt a false >>= user_address) q = rw h refl in
    open_it
    ∙ after_lem (walk pt a false) user_address q
    ∙ after-user_address (walk pt a false q)
    ∙ ap address_at (walk-false pt a q l)

-- A walk of an address ends at an entry that holds `v`.
abbrev pub Finds : Levels → ℕ → ℕ → ℕ → Phys → Type 0
Finds lev pt va v q =
    (e : ℕ) × (walk_levels 2 pt va false q ≡ some (some e, q))
    × (lev (page_of e) ≡ some 0)
    × (q.words e ≡ v)

pub Finds-Grows :
    (lev lev' : Levels) (pt va v : ℕ) (p q : Phys)
    → IsTree lev p
    → lev pt ≡ some 2
    → is_valid v ≡ true
    → Grows lev lev' p q
    → Finds lev pt va v p
    → Finds lev' pt va v q
Finds-Grows lev lev' pt va v p q tree root valid g (e, walks, leaf, word) = (
  e,
  walk_stays lev 2 pt va e p q tree root (λ a m i w. g.same_word a (suc m) i w) walks,
  g.same_level (page_of e) 0 leaf,
  g.same_word e 0 leaf (ap is_valid word ∙ valid) ∙ word,
)

-- The tables behind the map of a page, with its entry.
abbrev pub MapEnd : Levels → ℕ → ℕ → ℕ → Phys → Phys → Type 0
MapEnd lev pt va v p q = (lev' : Levels) × IsTree lev' q × Grows lev lev' p q × Finds lev' pt va v q

-- An entry of level 0 that is not valid, written.
module _ (lev : Levels) (e v : ℕ) (q : Phys) (tree : IsTree lev q) (leaf : lev (page_of e) ≡ some 0)
    (invalid : is_valid (q.words e) ≡ false) where
  written_valid : (a : ℕ) → is_valid (q.words a) ≡ true → (with_word e v q).words a ≡ q.words a
  written_valid a w =
      let ne : (a == e) ≡ false = elim (Bool-cases (a == e)) [
        | inl r ↦ absurd (cc (w, invalid, ap (λ y. is_valid (q.words y)) ((==_iff a e).0 r)))
        | inr r ↦ r
      ] in
      rw ne refl

  written-IsTree : IsTree lev (with_word e v q)
  written-IsTree = record {
    page = tree.page;
    down = λ a m i w. elim (Bool-cases (a == e)) [
      | inl r ↦ absurd (cc (i, leaf, ap (λ y. lev (page_of y)) ((==_iff a e).0 r)))
      | inr r ↦
          let word : (with_word e v q).words a ≡ q.words a = rw r refl in
          ap (λ y. lev (pte2pa y)) word ∙ tree.down a m i (sym (ap is_valid word) ∙ w)
    ];
    apart = tree.apart;
  }

  written-Grows :
      (lev₀ : Levels) (p : Phys) → Grows lev₀ lev p q → Grows lev₀ lev p (with_word e v q)
  written-Grows lev₀ p g = record {
    same_level = g.same_level;
    same_word =
        λ a m i w. let word = g.same_word a m i w in written_valid a (ap is_valid word ∙ w) ∙ word;
  }

mapped-MapEnd :
    (lev : Levels) (pt va pa perm : ℕ) (p q : Phys) (o : Option (Option ℕ × Phys))
    → lev pt ≡ some 2
    → Grown lev 2 pt va p o
    → mapped_at pa perm o ≡ some (true, q)
    → MapEnd lev pt va (new_entry pa perm) p q
mapped-MapEnd lev pt va pa perm p q none root w e = absurd (cc e)
mapped-MapEnd lev pt va pa perm p q (some (none, r)) root w e = absurd (cc e)
mapped-MapEnd lev pt va pa perm p q (some (some x, r)) root (lev', tree, g, leaf, again) e =
    elim (Bool-cases (is_valid (r.words x))) [
      | inl v ↦ absurd (cc (v, e))
      | inr v ↦
          let n = with_word x (new_entry pa perm) r in
          let same : n ≡ q = cc (v, e) in
          let here : n.words x ≡ new_entry pa perm = ground arith in
          let walks =
            walk_stays lev' 2 pt va x r n tree (g.same_level pt 2 root)
              (λ a m i w. written_valid lev' x (new_entry pa perm) r tree leaf v a w) again in
          subst (MapEnd lev pt va (new_entry pa perm) p) same (
            lev',
            written-IsTree lev' x (new_entry pa perm) r tree leaf v,
            written-Grows lev' x (new_entry pa perm) r tree leaf v lev p g,
            (x, walks, leaf, here),
          )
    ]

pub map_page-MapEnd :
    (lev : Levels) (pt a pa perm : ℕ) (p q : Phys)
    → IsTree lev p
    → lev pt ≡ some 2
    → a < maxva
    → map_page pt a pa perm p ≡ some (true, q)
    → MapEnd lev pt a (new_entry pa perm) p q
map_page-MapEnd lev pt a pa perm p q tree root l e =
    mapped-MapEnd lev pt a pa perm p q (walk_levels 2 pt a true p) root
      (walk_levels-Grown lev 2 pt a p tree root) (sym (map_page_lem pt a pa perm p l) ∙ e)

pub walkaddr-Finds :
    (lev : Levels) (pt a pa perm : ℕ) (q : Phys)
    → a < maxva
    → IsPage pa
    → perm < 32
    → is_user perm ≡ true
    → Finds lev pt a (new_entry pa perm) q
    → walkaddr pt a q ≡ some (pa, q)
walkaddr-Finds lev pt a pa perm q l page f u (e, walks, leaf, word) =
    let (valid, address, user) = entry_lem pa perm page.aligned page.bound f in
    walkaddr_lem pt a q l ∙ rw (walks, word, valid, user, u, address) refl
