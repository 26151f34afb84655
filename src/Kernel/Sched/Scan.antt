-- ===== src/Kernel/Sched/Scan.antt =====
-- The loop over the process table finds the first of the entries that fit, by a key.
use ru_shell.Base.{
  Bool, Bool-cases, List, Option, [], arith, false, get_elem?, inl, inr, ltb, none, some, suc, true,
  zero, ℕ, ◌&&◌, ◌+◌, ◌<◌, ◌∷◌, ◌≡◌, ◌≤◌, ◌⊎◌,
}
use ru_shell.Kernel.Sched.{better, scan}

-- Entry `i` with key `a` comes before entry `j` with key `c`: a smaller key, or the same earlier.
abbrev pub First : ℕ → ℕ → ℕ → ℕ → Type 0
First a i c j = (a < c) ⊎ ((a ≡ c) × (i ≤ j))

module _ {ℓ} {A : Type ℓ} (fits : A → Bool) (key : A → ℕ) where
  abbrev pub by_key : A → A → Bool
  by_key p b = ltb (key p) (key b)

  -- The best so far was found earlier.
  abbrev Earlier : Option (ℕ × A) → ℕ → Type 0
  Earlier none i = Unit
  Earlier (some (j, b)) i = j < i

  abbrev Known : Option (ℕ × A) → ℕ → A → Type 0
  Known none j b = Unit
  Known (some (j', b')) j b = First (key b) j (key b') j'

  -- Entry `j` with key `k` comes before each entry of the list that fits.
  abbrev pub FirstOf : ℕ → ℕ → ℕ → List A → Type ℓ
  FirstOf k j i ps =
      (m : ℕ) (p : A) → get_elem? ps m ≡ some p → fits p ≡ true → First k j (key p) (i + m)

  FirstOf-cons :
      (k j i : ℕ) (p : A) (ps : List A)
      → (fits p ≡ true → First k j (key p) i)
      → FirstOf k j (i + 1) ps
      → FirstOf k j i (p ∷ ps)
  FirstOf-cons k j i p ps h t zero q g f =
      let e : p ≡ q = cc in let r = h (e_fits e) in rw (← e) (omega arith)
    where
      e_fits : p ≡ q → fits p ≡ true
      e_fits e = rw e f
  FirstOf-cons k j i p ps h t (suc m) q g f = let r = t m q g f in omega arith

  -- A new best is known to come before the one that it replaces, or the old one stays.
  Known-take :
      (best : Option (ℕ × A)) (i : ℕ) (p : A) (j : ℕ) (b : A)
      → better fits by_key best p ≡ true
      → First (key b) j (key p) i
      → Known best j b
  Known-take none i p j b t f = tt
  Known-take (some (j', b')) i p j b t f = ground arith

  Known-skip :
      (best : Option (ℕ × A)) (i : ℕ) (p : A) (j : ℕ) (b : A)
      → Earlier best i
      → better fits by_key best p ≡ false
      → Known best j b
      → First (key b) j (key p) i
  Known-skip none i p j b h t f = cc
  Known-skip (some (j', b')) i p j b h t f = ground arith

  Earlier-suc : (best : Option (ℕ × A)) (i : ℕ) → Earlier best i → Earlier best (i + 1)
  Earlier-suc none i h = tt
  Earlier-suc (some (j, b)) i h = omega arith

  -- What the loop returns comes before the best at its start, and before each entry that fits.
  pub scan-First :
      (ps : List A) (i : ℕ) (best : Option (ℕ × A)) (j : ℕ) (b : A)
      → Earlier best i
      → scan fits by_key i best ps ≡ some (j, b)
      → Known best j b × FirstOf (key b) j i ps
  unfolding scan
  scan-First [] i none j b h e = cc
  scan-First [] i (some (j', b')) j b h e = (ground arith, λ m p g. cc)
  scan-First (p ∷ ps) i best j b h e = elim (Bool-cases (fits p && better fits by_key best p)) [
    | inl take ↦
        let r = scan-First ps (i + 1) (some (i, p)) j b (omega arith) (rw (take, scan) at e) in
        (Known-take best i p j b (ground arith) r.0, FirstOf-cons (key b) j i p ps (λ _. r.0) r.1)
    | inr skip ↦
        let r = scan-First ps (i + 1) best j b (Earlier-suc best i h) (rw (skip, scan) at e) in
        (r.0, FirstOf-cons (key b) j i p ps (λ f. Known-skip best i p j b h (ground arith) r.0) r.1)
  ]

  -- It is the best at the start, or an entry that fits.
  pub scan-from :
      (ps : List A) (i : ℕ) (best : Option (ℕ × A)) (j : ℕ) (b : A)
      → scan fits by_key i best ps ≡ some (j, b)
      → (best ≡ some (j, b)) ⊎ ((m : ℕ) × (j ≡ i + m) × (get_elem? ps m ≡ some b) × (fits b ≡ true))
  unfolding scan
  scan-from [] i best j b e = inl e
  scan-from (p ∷ ps) i best j b e = elim (Bool-cases (fits p && better fits by_key best p)) [
    | inl take ↦ elim (scan-from ps (i + 1) (some (i, p)) j b (rw (take, scan) at e)) [
      | inl x ↦ inr (0, ground arith, ground arith, ground arith)
      | inr (m, x, g, f) ↦ inr (suc m, omega arith, g, f)
    ]
    | inr skip ↦ elim (scan-from ps (i + 1) best j b (rw (skip, scan) at e)) [
      | inl x ↦ inl x
      | inr (m, x, g, f) ↦ inr (suc m, omega arith, g, f)
    ]
  ]

  none_fits :
      (p : A) (ps : List A)
      → fits p ≡ false
      → ((m : ℕ) (q : A) → get_elem? ps m ≡ some q → fits q ≡ false)
      → (m : ℕ) (q : A) → get_elem? (p ∷ ps) m ≡ some q
      → fits q ≡ false
  none_fits p ps h t zero q g = let e : p ≡ q = cc in rw (← e) h
  none_fits p ps h t (suc m) q g = t m q g

  -- It finds nothing only if nothing fits.
  pub scan-none :
      (ps : List A) (i : ℕ) (best : Option (ℕ × A))
      → scan fits by_key i best ps ≡ none
      → (best ≡ none) × ((m : ℕ) (p : A) → get_elem? ps m ≡ some p → fits p ≡ false)
  unfolding scan
  scan-none [] i best e = (e, λ m p g. cc)
  scan-none (p ∷ ps) i best e = elim (Bool-cases (fits p && better fits by_key best p)) [
    | inl take ↦
        let r = scan-none ps (i + 1) (some (i, p)) (rw (take, scan) at e) in
        absurd (ground (arith, r.0))
    | inr skip ↦
        let r = scan-none ps (i + 1) best (rw (skip, scan) at e) in
        (r.0, none_fits p ps (ground (arith, r.0)) r.1)
  ]
