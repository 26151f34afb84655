-- ===== src/Kernel/Proc/Table.antt =====
-- Reading the process table behind an update of one entry, or of all.
use ru_shell.Base.{
  List, [], ap, arith, get_elem?, inl, inr, length, map, refl, some, suc, zero, ℕ, ◌∷◌, ◌≡◌, ◌≢◌,
  ◌⊎◌,
}
use ru_shell.Kernel.Proc.{Proc, update}

-- The entry that an update leaves at index `j`.
pub get_elem?-update :
    (ps : List Proc) (i j : ℕ) (f : Proc → Proc) {q : Proc}
    → get_elem? (update i f ps) j ≡ some q
    → (p : Proc) × (get_elem? ps j ≡ some p) × (((i ≡ j) × (q ≡ f p)) ⊎ ((i ≢ j) × (q ≡ p)))
get_elem?-update [] i j f h = cc
get_elem?-update (p ∷ ps) zero zero f h = (p, refl, inl (refl, cc))
get_elem?-update (p ∷ ps) zero (suc j) f {q} h = (q, h, inr (omega arith, refl))
get_elem?-update (p ∷ ps) (suc i) zero f h = (p, refl, inr (omega arith, cc))
get_elem?-update (p ∷ ps) (suc i) (suc j) f h =
    let (r, g, cases) = get_elem?-update ps i j f h in
    (r, g, elim cases [ inl (e, x) ↦ inl (omega arith, x) | inr (e, x) ↦ inr (omega arith, x) ])

pub get_elem?-update_self :
    (ps : List Proc) (i : ℕ) (f : Proc → Proc) {p : Proc}
    → get_elem? ps i ≡ some p
    → get_elem? (update i f ps) i ≡ some (f p)
get_elem?-update_self [] i f h = cc
get_elem?-update_self (p ∷ ps) zero f h = cc
get_elem?-update_self (p ∷ ps) (suc i) f h = get_elem?-update_self ps i f h

pub get_elem?-map :
    (ps : List Proc) (j : ℕ) (f : Proc → Proc) {q : Proc}
    → get_elem? (map f ps) j ≡ some q
    → (p : Proc) × (get_elem? ps j ≡ some p) × (q ≡ f p)
get_elem?-map [] j f h = cc
get_elem?-map (p ∷ ps) zero f h = (p, refl, cc)
get_elem?-map (p ∷ ps) (suc j) f h = get_elem?-map ps j f h

pub get_elem?-map-some :
    (ps : List Proc) (j : ℕ) (f : Proc → Proc) {p : Proc}
    → get_elem? ps j ≡ some p
    → get_elem? (map f ps) j ≡ some (f p)
get_elem?-map-some [] j f h = cc
get_elem?-map-some (p ∷ ps) zero f h = cc
get_elem?-map-some (p ∷ ps) (suc j) f h = get_elem?-map-some ps j f h

pub length-update : (ps : List Proc) (i : ℕ) (f : Proc → Proc) → length (update i f ps) ≡ length ps
length-update [] i f = refl
length-update (p ∷ ps) zero f = refl
length-update (p ∷ ps) (suc i) f = ap suc (length-update ps i f)

pub update-stays :
    (ps : List Proc) (i j : ℕ) (f : Proc → Proc) {p : Proc}
    → get_elem? ps j ≡ some p
    → (q : Proc) × (get_elem? (update i f ps) j ≡ some q)
update-stays [] i j f h = absurd (cc)
update-stays (p ∷ ps) zero zero f h = (f p, refl)
update-stays (p ∷ ps) zero (suc j) f {p = q} h = (q, h)
update-stays (p ∷ ps) (suc i) zero f h = (p, refl)
update-stays (p ∷ ps) (suc i) (suc j) f h = update-stays ps i j f h

pub get_elem?-update_other :
    (ps : List Proc) (i j : ℕ) (f : Proc → Proc)
    → i ≢ j
    → get_elem? (update i f ps) j ≡ get_elem? ps j
get_elem?-update_other [] i j f n = refl
get_elem?-update_other (p ∷ ps) zero zero f n = absurd (n refl)
get_elem?-update_other (p ∷ ps) zero (suc j) f n = refl
get_elem?-update_other (p ∷ ps) (suc i) zero f n = refl
get_elem?-update_other (p ∷ ps) (suc i) (suc j) f n =
    get_elem?-update_other ps i j f (λ e. n (ap suc e))
