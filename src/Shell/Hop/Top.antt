-- ===== src/Shell/Hop/Top.antt =====
-- The loop of c-shell/src/hop.c over the directories that have a part of a name.
use ru_shell.Base.{
  Bool, Bool-cases, List, Option, [], arith, false, get_elem?, inl, inr, ltb, ltb→lt, none, refl,
  some, subst, suc, sym, true, zero, ℕ, ◌&&◌, ◌<◌, ◌∷◌, ◌≡◌, ◌≤◌, ◌⊎◌,
}
use ru_shell.Shell.Lexer.{Bytes}
use ru_shell.Shell.Hop.{HopNode, beats, best_of, find_best_match, fits, score}

-- `b` stands at `i` and fits; every node that fits has no higher score, and one before it a lower.
pub record IsTop (exists : Bytes → Bool) (name : Bytes) (ns : List HopNode) (i : ℕ) (b : HopNode)
    : Type 0 where
  pub found : get_elem? ns i ≡ some b
  pub is_fit : fits exists name b ≡ true
  pub highest :
      (j : ℕ) (n : HopNode)
      → get_elem? ns j ≡ some n
      → fits exists name n ≡ true
      → score n ≤ score b
  pub first :
      (j : ℕ) (n : HopNode)
      → get_elem? ns j ≡ some n
      → fits exists name n ≡ true
      → j < i
      → score n < score b

abbrev pub TopOf : (Bytes → Bool) → Bytes → List HopNode → Option HopNode → Type 0
TopOf exists name ns (some b) = (i : ℕ) × IsTop exists name ns i b
TopOf exists name ns none =
    (j : ℕ) (n : HopNode) → get_elem? ns j ≡ some n → fits exists name n ≡ false

-- Every node that fits has a score of `k` at most.
abbrev AtMost : (Bytes → Bool) → Bytes → ℕ → List HopNode → Type 0
AtMost exists name k ns =
    (j : ℕ) (n : HopNode) → get_elem? ns j ≡ some n → fits exists name n ≡ true → score n ≤ k

AtMost-cons :
    (exists : Bytes → Bool) (name : Bytes) (k : ℕ) (n : HopNode) (ns : List HopNode)
    → (fits exists name n ≡ true → score n ≤ k)
    → AtMost exists name k ns
    → AtMost exists name k (n ∷ ns)
AtMost-cons exists name k n ns h t zero m g f =
    let x : n ≡ m = cc in
    subst (λ r. score r ≤ k) x (h (subst (λ r. fits exists name r ≡ true) (sym x) f))
AtMost-cons exists name k n ns h t (suc j) m g f = t j m g f

-- A best node of the rest, with a first node that is lower.
IsTop-later :
    (exists : Bytes → Bool) (name : Bytes) (n : HopNode) (ns : List HopNode) (i : ℕ) (c : HopNode)
    → (fits exists name n ≡ true → score n < score c)
    → IsTop exists name ns i c
    → IsTop exists name (n ∷ ns) (suc i) c
IsTop-later exists name n ns i c h t = record {
  found = t.found;
  is_fit = t.is_fit;
  highest = AtMost-cons exists name (score c) n ns (λ f. let l = h f in omega arith) t.highest;
  first = first;
}
  where
    first :
        (j : ℕ) (m : HopNode)
        → get_elem? (n ∷ ns) j ≡ some m
        → fits exists name m ≡ true
        → j < suc i
        → score m < score c
    first zero m g f l =
        let x : n ≡ m = cc in
        subst (λ r. score r < score c) x (h (subst (λ r. fits exists name r ≡ true) (sym x) f))
    first (suc j) m g f l = t.first j m g f (omega arith)

IsTop-here :
    (exists : Bytes → Bool) (name : Bytes) (n : HopNode) (ns : List HopNode)
    → fits exists name n ≡ true
    → AtMost exists name (score n) ns
    → IsTop exists name (n ∷ ns) 0 n
IsTop-here exists name n ns f h = record {
  found = refl;
  is_fit = f;
  highest = AtMost-cons exists name (score n) n ns (λ _. omega arith) h;
  first = λ j m g f l. absurd (omega arith);
}

-- The loop from a best `b` so far ends with it, if nothing that fits is higher, or with a node of
-- the rest that is.
abbrev Goes : (Bytes → Bool) → Bytes → HopNode → List HopNode → Option HopNode → Type 0
Goes exists name b ns o =
    ((o ≡ some b) × AtMost exists name (score b) ns)
    ⊎ ((c : HopNode) × (i : ℕ) × (o ≡ some c) × (score b < score c) × IsTop exists name ns i c)

and_left : (x y : Bool) → (x && y) ≡ true → x ≡ true
and_left x y e = ground arith

and_right : (x y : Bool) → (x && y) ≡ true → y ≡ true
and_right x y e = ground arith

-- A node that is passed over is no higher, if it fits.
passed : (f : Bool) (b n : HopNode) → (f && beats (some b) n) ≡ false → f ≡ true → score n ≤ score b
passed f b n e t = not_less (score b) (score n) (second f _ e t)
  where
    second : (x y : Bool) → (x && y) ≡ false → x ≡ true → y ≡ false
    second x y e t = ground arith

    not_less : (x y : ℕ) → ltb x y ≡ false → y ≤ x
    not_less x y e = ground arith

best_of-Goes :
    (exists : Bytes → Bool) (name : Bytes) (b : HopNode) (ns : List HopNode)
    → Goes exists name b ns (best_of exists name (some b) ns)
unfolding best_of
best_of-Goes exists name b [] = inl (refl, λ j n g. absurd (cc))
best_of-Goes exists name b (n ∷ ns) = elim (Bool-cases (fits exists name n && beats (some b) n)) [
  | inl e ↦ rw (best_of, e) (taken e (best_of-Goes exists name n ns))
  | inr e ↦ rw (best_of, e) (skipped e (best_of-Goes exists name b ns))
]
  where
    taken :
        (fits exists name n && beats (some b) n) ≡ true
        → Goes exists name n ns (best_of exists name (some n) ns)
        → Goes exists name b (n ∷ ns) (best_of exists name (some n) ns)
    taken e (inl (o, h)) = inr (
      n,
      0,
      o,
      ltb→lt (score b) (score n) (and_right (fits exists name n) _ e),
      IsTop-here exists name n ns (and_left _ _ e) h,
    )
    taken e (inr (c, i, o, l, t)) =
        let m = ltb→lt (score b) (score n) (and_right (fits exists name n) _ e) in
        inr (c, suc i, o, omega arith, IsTop-later exists name n ns i c (λ _. l) t)

    skipped :
        (fits exists name n && beats (some b) n) ≡ false
        → Goes exists name b ns (best_of exists name (some b) ns)
        → Goes exists name b (n ∷ ns) (best_of exists name (some b) ns)
    skipped e (inl (o, h)) =
        inl (o, AtMost-cons exists name (score b) n ns (λ f. passed _ b n e f) h)
    skipped e (inr (c, i, o, l, t)) = inr (
      c,
      suc i,
      o,
      l,
      IsTop-later exists name n ns i c (λ f. let m = passed _ b n e f in omega arith) t,
    )

Goes-TopOf :
    (exists : Bytes → Bool) (name : Bytes) (n : HopNode) (ns : List HopNode) (o : Option HopNode)
    → fits exists name n ≡ true
    → Goes exists name n ns o
    → TopOf exists name (n ∷ ns) o
Goes-TopOf exists name n ns o f (inl (e, h)) =
    subst (TopOf exists name (n ∷ ns)) (sym e) (0, IsTop-here exists name n ns f h)
Goes-TopOf exists name n ns o f (inr (c, i, e, l, t)) =
    subst (TopOf exists name (n ∷ ns)) (sym e) (suc i, IsTop-later exists name n ns i c (λ _. l) t)

TopOf-skip :
    (exists : Bytes → Bool) (name : Bytes) (n : HopNode) (ns : List HopNode) (o : Option HopNode)
    → fits exists name n ≡ false
    → TopOf exists name ns o
    → TopOf exists name (n ∷ ns) o
TopOf-skip exists name n ns (some b) f (i, t) =
    (suc i, IsTop-later exists name n ns i b (λ g. absurd (cc)) t)
TopOf-skip exists name n ns none f t = go
  where
    go : (j : ℕ) (m : HopNode) → get_elem? (n ∷ ns) j ≡ some m → fits exists name m ≡ false
    go zero m g = let x : n ≡ m = cc in subst (λ r. fits exists name r ≡ false) x f
    go (suc j) m g = t j m g

best_of-TopOf :
    (exists : Bytes → Bool) (name : Bytes) (ns : List HopNode)
    → TopOf exists name ns (best_of exists name none ns)
unfolding best_of
best_of-TopOf exists name [] = λ j n g. absurd (cc)
best_of-TopOf exists name (n ∷ ns) = elim (Bool-cases (fits exists name n)) [
  | inl e ↦ rw (best_of, e) (Goes-TopOf exists name n ns _ e (best_of-Goes exists name n ns))
  | inr e ↦ rw (best_of, e) (TopOf-skip exists name n ns _ e (best_of-TopOf exists name ns))
]

-- What the loop gives, by the tests of the code.
pub find_best_match-TopOf :
    (exists : Bytes → Bool) (name : Bytes) (ns : List HopNode)
    → TopOf exists name ns (find_best_match exists name ns)
unfolding find_best_match
find_best_match-TopOf exists name ns = best_of-TopOf exists name ns
