-- ===== src/Shell/Hop/Best.antt =====
-- Which directory c-shell/src/hop.c guesses from a part of its name.
use ru_shell.Shell.Hop.Top.{TopOf, find_best_match-TopOf}
use ru_shell.Base.{
  Bool, Bool-cases, List, Option, [], ap, arith, get_elem?, inl, inr, none, refl, some, true, ℕ,
  ◌*◌, ◌++◌, ◌+◌, ◌<◌, ◌∙◌, ◌∷◌, ◌≡◌, ◌≤◌,
}
use ru_shell.Shell.Lexer.{Bytes}
use ru_shell.Shell.Hop.{HopNode, find_best_match, fits, score, starts_with, strstr}

-- A text has a part.
abbrev pub HasPart : Bytes → Bytes → Type 0
HasPart part s = (before : Bytes) × (after : Bytes) × (s ≡ before ++ (part ++ after))

starts_with-append :
    (xs ys : Bytes) → starts_with xs ys ≡ true → (after : Bytes) × (xs ≡ ys ++ after)
unfolding starts_with
starts_with-append xs [] h = (xs, refl)
starts_with-append [] (y ∷ ys) h = absurd (cc h)
starts_with-append (x ∷ xs) (y ∷ ys) h =
    let (after, e) = starts_with-append xs ys (ground (arith, h)) in
    let same : x ≡ y = ground (arith, h) in (after, λ k. same k ∷ e k)

append-starts_with : (ys after : Bytes) → starts_with (ys ++ after) ys ≡ true
unfolding starts_with
append-starts_with [] [] = refl
append-starts_with [] (x ∷ after) = refl
append-starts_with (y ∷ ys) after = ground (arith, append-starts_with ys after)

strstr-HasPart : (s name : Bytes) → strstr s name ≡ true → HasPart name s
unfolding strstr
strstr-HasPart [] name h = let (after, e) = starts_with-append [] name h in ([], after, e)
strstr-HasPart (x ∷ s) name h = elim (Bool-cases (starts_with (x ∷ s) name)) [
  | inl w ↦ let (after, e) = starts_with-append (x ∷ s) name w in ([], after, e)
  | inr w ↦
      let (before, after, e) = strstr-HasPart s name (cc (h, w)) in
      (x ∷ before, after, ap (λ l. x ∷ l) e)
]

strstr-here : (s name : Bytes) → starts_with s name ≡ true → strstr s name ≡ true
unfolding strstr
strstr-here [] name h = h
strstr-here (x ∷ s) name h = rw h refl

part-strstr : (before name after : Bytes) → strstr (before ++ (name ++ after)) name ≡ true
unfolding strstr
part-strstr [] name after = strstr-here (name ++ after) name (append-starts_with name after)
part-strstr (x ∷ before) name after = ground (arith, part-strstr before name after)

-- The name is a part of the path, and the directory exists.
abbrev pub Suits : (Bytes → Bool) → Bytes → HopNode → Type 0
Suits exists name n = HasPart name n.path × (exists n.path ≡ true)

abbrev pub rank : HopNode → ℕ
rank n = n.freq * 1000000000 + n.last_visit

fits-Suits :
    (exists : Bytes → Bool) (name : Bytes) (n : HopNode)
    → fits exists name n ≡ true
    → Suits exists name n
fits-Suits exists name n h = (strstr-HasPart n.path name (ground (arith, h)), ground (arith, h))

Suits-fits :
    (exists : Bytes → Bool) (name : Bytes) (n : HopNode)
    → Suits exists name n
    → fits exists name n ≡ true
Suits-fits exists name n ((before, after, e), live) =
    let part : strstr n.path name ≡ true =
      ap (λ s. strstr s name) e ∙ part-strstr before name after in
    rw part live

-- `b` stands at `i` and suits; every node that suits has no higher rank, and one before it a lower.
pub record IsBest (exists : Bytes → Bool) (name : Bytes) (ns : List HopNode) (i : ℕ) (b : HopNode)
    : Type 0 where
  pub found : get_elem? ns i ≡ some b
  pub suits : Suits exists name b
  pub highest :
      (j : ℕ) (n : HopNode) → get_elem? ns j ≡ some n → Suits exists name n → rank n ≤ rank b
  pub first :
      (j : ℕ) (n : HopNode)
      → get_elem? ns j ≡ some n
      → Suits exists name n
      → j < i
      → rank n < rank b

abbrev pub BestOf : (Bytes → Bool) → Bytes → List HopNode → Option HopNode → Type 0
BestOf exists name ns (some b) = (i : ℕ) × IsBest exists name ns i b
BestOf exists name ns none =
    (j : ℕ) (n : HopNode) → get_elem? ns j ≡ some n → Suits exists name n → ⊥

TopOf-BestOf :
    (exists : Bytes → Bool) (name : Bytes) (ns : List HopNode) (o : Option HopNode)
    → TopOf exists name ns o
    → BestOf exists name ns o
unfolding score
TopOf-BestOf exists name ns none t = λ j n g u. absurd (cc (t j n g, Suits-fits exists name n u))
TopOf-BestOf exists name ns (some b) (i, t) = (
  i,
  record {
    found = t.found;
    suits = fits-Suits exists name b t.is_fit;
    highest = λ j n g u. t.highest j n g (Suits-fits exists name n u);
    first = λ j n g u l. t.first j n g (Suits-fits exists name n u) l;
  },
)

-- Of the remembered directories whose path has the name in it and that exist, `find_best_match`
-- gives the one with the highest score, 10^9 for each visit and the time of the last one, of equals
-- the first in the list, and none only if there is no such.
pub find_best_match-BestOf :
    (exists : Bytes → Bool) (name : Bytes) (ns : List HopNode)
    → BestOf exists name ns (find_best_match exists name ns)
find_best_match-BestOf exists name ns =
    TopOf-BestOf exists name ns (find_best_match exists name ns)
      (find_best_match-TopOf exists name ns)
