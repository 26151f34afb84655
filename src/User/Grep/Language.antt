-- ===== src/User/Grep/Language.antt =====
-- What a pattern of grep means.
use ru_shell.Base.{
  ==_iff, Bool, Bool-cases, List, [], ap, arith, false, if◌then◌else◌, inl, inr, not, refl, subst,
  sym, true, ℕ, ◌&&◌, ◌++◌, ◌==◌, ◌||◌, ◌↔◌, ◌∙◌, ◌∷◌, ◌≡◌, ◌≢◌, ◌⊎◌,
}
use ru_shell.User.Grep.{grep_match, is_star, match_from, matches_byte, matchhere, matchstar}

-- A text begins with a match of the pattern: each byte of the pattern stands for itself, a dot for
-- any byte, a byte before a star for any number of such, and a dollar at the end for the end of the
-- text.
pub data Begins : List ℕ → List ℕ → Type 0 where
  done : (text : List ℕ) → Begins [] text
  no_more : (c : ℕ) (re text : List ℕ) → Begins re text → Begins (c ∷ b'*' ∷ re) text
  more :
      (c x : ℕ) (re text : List ℕ)
      → matches_byte c x ≡ true
      → Begins (c ∷ b'*' ∷ re) text
      → Begins (c ∷ b'*' ∷ re) (x ∷ text)
  at_end : Begins (b'$' ∷ []) []
  one :
      (c x : ℕ) (re text : List ℕ)
      → is_star re ≡ false
      → (c ∷ re) ≢ b'$' ∷ []
      → matches_byte c x ≡ true
      → Begins re text
      → Begins (c ∷ re) (x ∷ text)

-- A pattern with a star is read by `matchstar`.
matchhere-star :
    (c : ℕ) (re text : List ℕ) → matchhere (c ∷ b'*' ∷ re) text ≡ matchstar (matchhere re) c text
unfolding matchhere
matchhere-star c re [] = refl
matchhere-star c re (x ∷ text) = refl

or_cases : (a b : Bool) → (a || b) ≡ true → (a ≡ true) ⊎ (b ≡ true)
or_cases a b e = ground arith

and_left : (a b : Bool) → (a && b) ≡ true → a ≡ true
and_left a b e = ground arith

and_right : (a b : Bool) → (a && b) ≡ true → b ≡ true
and_right a b e = ground arith

matchstar-Begins :
    (c : ℕ) (re : List ℕ)
    → ((text : List ℕ) → matchhere re text ≡ true → Begins re text)
    → (text : List ℕ) → matchstar (matchhere re) c text ≡ true
    → Begins (c ∷ b'*' ∷ re) text
unfolding matchstar
matchstar-Begins c re ih [] e = no_more c re [] (ih [] e)
matchstar-Begins c re ih (x ∷ text) e = elim (or_cases _ _ e) [
  | inl f ↦ no_more c re (x ∷ text) (ih (x ∷ text) f)
  | inr f ↦
      more c x re text (fits (and_left _ _ f))
        (matchstar-Begins c re ih text (and_right (x == c || c == b'.') _ f))
]
  where
    fits : (x == c || c == b'.') ≡ true → matches_byte c x ≡ true
    fits e = ground arith

matchhere-Begins : (re text : List ℕ) → matchhere re text ≡ true → Begins re text
unfolding matchhere
matchhere-Begins [] text e = done text
matchhere-Begins (c ∷ []) [] e = subst (λ d. Begins (d ∷ []) []) (sym ((==_iff c b'$').0 e)) at_end
matchhere-Begins (c ∷ []) (x ∷ text) e =
    one c x [] text refl (apart (and_left _ _ e)) (and_right (not (c == b'$')) _ e) (done text)
  where
    apart : not (c == b'$') ≡ true → (c ∷ []) ≢ b'$' ∷ []
    apart f g = let y : c ≡ b'$' = cc in let z = (==_iff c b'$').1 y in absurd (ground arith)
matchhere-Begins (c ∷ d ∷ re) text e = elim (Bool-cases (d == b'*')) [
  | inl f ↦
      let y = (==_iff d b'*').0 f in
      let z : matchstar (matchhere re) c text ≡ true =
        sym (matchhere-star c re text) ∙ subst (λ b. matchhere (c ∷ b ∷ re) text ≡ true) y e in
      subst (λ b. Begins (c ∷ b ∷ re) text) (sym y)
        (matchstar-Begins c re (matchhere-Begins re) text z)
  | inr f ↦ plain c d re text f e (matchhere-Begins (d ∷ re))
]
  where
    plain :
        (c d : ℕ) (re text : List ℕ)
        → (d == b'*') ≡ false
        → matchhere (c ∷ d ∷ re) text ≡ true
        → ((t : List ℕ) → matchhere (d ∷ re) t ≡ true → Begins (d ∷ re) t)
        → Begins (c ∷ d ∷ re) text
    plain c d re [] f e ih = let y = and_left (d == b'*') _ e in absurd (cc)
    plain c d re (x ∷ text) f e ih =
        let y = step f e in
        one c x (d ∷ re) text f (λ g. cc) (and_left _ _ y)
          (ih text (and_right (matches_byte c x) _ y))
      where
        step :
            (d == b'*') ≡ false
            → matchhere (c ∷ d ∷ re) (x ∷ text) ≡ true
            → (matches_byte c x && matchhere (d ∷ re) text) ≡ true
        step f e =
            subst
              (λ b.
                (if b
                  then matchstar (matchhere re) c (x ∷ text)
                  else matches_byte c x && matchhere (d ∷ re) text)
                ≡ true)
              f e

matchstar-stop :
    (here : List ℕ → Bool) (c : ℕ) (text : List ℕ) → here text ≡ true → matchstar here c text ≡ true
unfolding matchstar
matchstar-stop here c [] e = e
matchstar-stop here c (x ∷ text) e = rw (matchstar, e) refl

star_on :
    (a r : Bool) (c x : ℕ)
    → matches_byte c x ≡ true
    → r ≡ true
    → (a || ((x == c || c == b'.') && r)) ≡ true
star_on a r c x m e = ground arith

one_here :
    (c x : ℕ) (re text : List ℕ)
    → is_star re ≡ false
    → (c ∷ re) ≢ b'$' ∷ []
    → matches_byte c x ≡ true
    → matchhere re text ≡ true
    → matchhere (c ∷ re) (x ∷ text) ≡ true
unfolding matchhere
one_here c x [] text s n m e = last (apart n) m
  where
    apart : (c ∷ []) ≢ b'$' ∷ [] → (c == b'$') ≡ false
    apart n = elim (Bool-cases (c == b'$')) [
      | inl f ↦ absurd (n (ap (λ y. y ∷ []) ((==_iff c b'$').0 f)))
      | inr f ↦ f
    ]

    last :
        (c == b'$') ≡ false → matches_byte c x ≡ true → (not (c == b'$') && matches_byte c x) ≡ true
    last f m = ground arith
one_here c x (d ∷ re) text s n m e = rw (matchhere, s, m) e

Begins-matchhere : (re text : List ℕ) → Begins re text → matchhere re text ≡ true
unfolding matchhere matchstar
Begins-matchhere _ text (done _) = refl
Begins-matchhere _ text (no_more c re _ t) =
    matchhere-star c re text ∙ matchstar-stop (matchhere re) c text (Begins-matchhere re text t)
Begins-matchhere _ _ (more c x re text m t) =
    star_on (matchhere re (x ∷ text)) (matchstar (matchhere re) c text) c x m
      (sym (matchhere-star c re text) ∙ Begins-matchhere (c ∷ b'*' ∷ re) text t)
Begins-matchhere _ _ at_end = refl
Begins-matchhere _ _ (one c x re text s n m t) =
    one_here c x re text s n m (Begins-matchhere re text t)

-- The text ends with a part that begins with a match.
abbrev pub Has : List ℕ → List ℕ → Type 0
Has re text = (before after : List ℕ) × (text ≡ before ++ after) × Begins re after

-- What `match` looks for: a match at the start of the text, behind a caret, or else anywhere.
abbrev pub Found : List ℕ → List ℕ → Type 0
Found [] text = Has [] text
Found (c ∷ re) text = if c == b'^' then Begins re text else Has (c ∷ re) text

match_from-Has : (re text : List ℕ) → match_from re text ≡ true → Has re text
unfolding match_from
match_from-Has re [] e = ([], [], refl, matchhere-Begins re [] e)
match_from-Has re (x ∷ text) e = elim (or_cases _ _ e) [
  | inl f ↦ ([], x ∷ text, refl, matchhere-Begins re (x ∷ text) f)
  | inr f ↦
      let (before, after, s, t) = match_from-Has re text f in
      (x ∷ before, after, ap (λ l. x ∷ l) s, t)
]

Has-match_from :
    (re before after : List ℕ) → Begins re after → match_from re (before ++ after) ≡ true
unfolding match_from
Has-match_from re [] [] t = Begins-matchhere re [] t
Has-match_from re [] (x ∷ text) t = rw (match_from, Begins-matchhere re (x ∷ text) t) refl
Has-match_from re (x ∷ before) after t =
    or_on (matchhere re (x ∷ before ++ after)) _ (Has-match_from re before after t)
  where
    or_on : (a b : Bool) → b ≡ true → (a || b) ≡ true
    or_on a b e = ground arith

-- `match` says yes exactly if the text has a match of the pattern, at its start if the pattern
-- begins with a caret.
pub grep_match-Found : (re text : List ℕ) → (grep_match re text ≡ true) ↔ Found re text
unfolding grep_match
grep_match-Found [] text =
    (λ e. match_from-Has [] text e, λ (b, a, s, t). rw s (Has-match_from [] b a t))
grep_match-Found (c ∷ re) text = elim (Bool-cases (c == b'^')) [
  | inl e ↦ rw (grep_match, e) (matchhere-Begins re text, Begins-matchhere re text)
  | inr e ↦
      rw (grep_match, e)
        (match_from-Has (c ∷ re) text, λ (b, a, s, t). rw s (Has-match_from (c ∷ re) b a t))
]
