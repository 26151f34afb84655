-- ===== src/User/Sh/Leaves.antt =====
-- What gettoken and peek of xv6/user/sh.c leave of a text.
use ru_shell.Base.{
  Bool, Bool-cases, List, [], ap, arith, false, if◌then◌else◌, inl, inr, length, refl, suc, true, ℕ,
  ◌∷◌, ◌≡◌, ◌≤◌, ◌⊎◌,
}
use ru_shell.User.Sh.{
  Parsed, Parser, among, gettoken, is_white, panics, parsed, peek, runs_out, skip_white, take_word,
  token, token_here, ◌>>=◌,
}

-- A parse that does not run out of fuel, and leaves at most `m` bytes.
abbrev pub Leaves : {A : Type 0} → ℕ → Parsed A → Type 0
Leaves m panics = Unit
Leaves m runs_out = ⊥
Leaves m (parsed a rest) = length rest ≤ m

pub Leaves-bind :
    {A B : Type 0} (p : Parser A) (f : A → Parser B) (s : List ℕ) (m k : ℕ)
    → Leaves m (p s)
    → ((a : A) (rest : List ℕ) → length rest ≤ m → Leaves k (f a rest))
    → Leaves k ((p >>= f) s)
Leaves-bind p f s m k h g = split p f m k g (p s) h
  where
    split :
        {A B : Type 0} (p : Parser A) (f : A → Parser B) (m k : ℕ)
        → ((a : A) (rest : List ℕ) → length rest ≤ m → Leaves k (f a rest))
        → (o : Parsed A) → Leaves m o
        → Leaves k (elim o [ panics ↦ panics | runs_out ↦ runs_out | parsed a rest ↦ f a rest ])
    split p f m k g panics h = tt
    split p f m k g runs_out h = elim h [ ]
    split p f m k g (parsed a rest) h = g a rest h

pub Leaves-weaken : {A : Type 0} (m k : ℕ) (o : Parsed A) → m ≤ k → Leaves m o → Leaves k o
Leaves-weaken m k panics l h = tt
Leaves-weaken m k runs_out l h = h
Leaves-weaken m k (parsed a rest) l h = omega (arith, h)

skip_white-length : (s : List ℕ) → length (skip_white s) ≤ length s
unfolding skip_white
skip_white-length [] = omega arith
skip_white-length (c ∷ s) = let h = skip_white-length s in ground (arith, h)

-- What `skip_white` leaves is empty, or begins with another byte.
pub skip_white-cases :
    (s : List ℕ)
    → (skip_white s ≡ []) ⊎ ((c : ℕ) × (t : List ℕ) × (skip_white s ≡ c ∷ t) × (is_white c ≡ false))
unfolding skip_white
skip_white-cases [] = inl refl
skip_white-cases (c ∷ s) = elim (Bool-cases (is_white c)) [
  | inl w ↦ rw (w, skip_white) (skip_white-cases s)
  | inr w ↦ inr (c, s, rw (w, skip_white) refl, w)
]

take_word-length : (s : List ℕ) → length (take_word s).1 ≤ length s
unfolding take_word
take_word-length [] = omega arith
take_word-length (c ∷ s) = let h = take_word-length s in ground (arith, h)

-- A token takes a byte, if there is one.
token_here-length :
    (c : ℕ) (s : List ℕ) → is_white c ≡ false → length (token_here (c ∷ s)).2 ≤ length s
unfolding token_here take_word
token_here-length c [] w = ground (arith, w)
token_here-length c (d ∷ s) w = let h = take_word-length (d ∷ s) in ground (arith, w, h)

pub token-front : (c : ℕ) (s : List ℕ) → is_white c ≡ false → Leaves (length s) (token (c ∷ s))
unfolding token gettoken skip_white
token-front c s w =
    let h = token_here-length c s w in
    let k = skip_white-length (token_here (c ∷ s)).2 in rw w (omega arith)

pub token-any : (s : List ℕ) → Leaves (length s) (token s)
unfolding token gettoken
token-any s =
    let l = skip_white-length s in
    let k = skip_white-length (token_here (skip_white s)).2 in
    elim (skip_white-cases s) [
      | inl e ↦ rw e (unfold token_here skip_white in omega arith)
      | inr (c, t, e, w) ↦
          let h = token_here-length c t w in
          let m = ap (λ x. length (token_here x).2) e in
          let q : length (skip_white s) ≡ suc (length t) = ap length e in omega arith
    ]

pub Leaves-if :
    {A : Type 0} (b : Bool) (x y : Parser A) (s : List ℕ) (k : ℕ)
    → Leaves k (x s)
    → Leaves k (y s)
    → Leaves k ((if b then x else y) s)
Leaves-if true x y s k h g = h
Leaves-if false x y s k h g = g

pub peek-bind :
    {A : Type 0} (toks : List ℕ) (f : Bool → Parser A) (s : List ℕ) (k : ℕ)
    → Leaves k (f false [])
    → ((c : ℕ) (t : List ℕ)
        → suc (length t) ≤ length s
        → is_white c ≡ false
        → Leaves k (f false (c ∷ t)))
    → ((c : ℕ) (t : List ℕ)
        → suc (length t) ≤ length s
        → is_white c ≡ false
        → Leaves k (f true (c ∷ t)))
    → Leaves k ((peek toks >>= f) s)
unfolding peek
peek-bind toks f s k z g h =
    let l = skip_white-length s in
    elim (skip_white-cases s) [
      | inl e ↦ rw e z
      | inr (c, t, e, w) ↦
          let q : length (skip_white s) ≡ suc (length t) = ap length e in
          elim (Bool-cases (among toks c)) [
            | inl b ↦ rw (e, b) (h c t (omega arith) w)
            | inr b ↦ rw (e, b) (g c t (omega arith) w)
          ]
    ]
