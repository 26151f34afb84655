-- ===== src/Kernel/Memory/Move.antt =====
-- `memmove` of xv6/kernel/string.c moves bytes that overlap.
use ru_shell.Base.{
  ==_iff, Bool-cases, ap, arith, false, inl, inr, ltb, refl, suc, sym, true, zero, ℕ, ◌&&◌, ◌+◌,
  ◌<◌, ◌==◌, ◌∙◌, ◌≡◌, ◌≢◌, ◌≤◌, ◌⊎◌,
}
use ru_shell.Kernel.Memory.{Memory, copy_down, copy_up, memmove, store}

-- `m'` has at `d` the `n` bytes that `m` has at `s`, and is `m` elsewhere.
pub record Moved (d s n : ℕ) (m m' : Memory) : Type 0 where
  pub inside : (k : ℕ) → k < n → m' (d + k) ≡ m (s + k)
  pub outside : (a : ℕ) → (a < d) ⊎ (d + n ≤ a) → m' a ≡ m a

store_at : (m : Memory) (a b v : ℕ) → b ≡ a → store m a v b ≡ v
store_at m a b v e = rw ((==_iff b a).1 e) refl

store_apart : (m : Memory) (a b v : ℕ) → b ≢ a → store m a v b ≡ m b
store_apart m a b v n = let e : (b == a) ≡ false = ground arith in rw e refl

copy_up-Moved : (d s n : ℕ) (m : Memory) → (d ≤ s) ⊎ (s + n ≤ d) → Moved d s n m (copy_up d s n m)
unfolding copy_up
copy_up-Moved d s zero m h = record { inside = λ k l. absurd (omega arith); outside = λ a o. refl }
copy_up-Moved d s (suc n) m h =
    let t = copy_up-Moved (d + 1) (s + 1) n (store m d (m s)) (on h) in
    record { inside = inside t; outside = outside t }
  where
    m1 : Memory
    m1 = store m d (m s)

    on : (d ≤ s) ⊎ (s + suc n ≤ d) → (d + 1 ≤ s + 1) ⊎ (s + 1 + n ≤ d + 1)
    on (inl l) = inl (omega arith)
    on (inr l) = inr (omega arith)

    clear : (k : ℕ) → k < n → (d ≤ s) ⊎ (s + suc n ≤ d) → s + suc k ≢ d
    clear k l (inl x) = omega arith
    clear k l (inr x) = omega arith

    inside :
        Moved (d + 1) (s + 1) n m1 (copy_up (d + 1) (s + 1) n m1)
        → (k : ℕ) → k < suc n
        → copy_up (d + 1) (s + 1) n m1 (d + k) ≡ m (s + k)
    inside t zero l =
        let e : d + 0 ≡ d = omega arith in
        let f : s ≡ s + 0 = omega arith in
        t.outside (d + 0) (inl (omega arith)) ∙ store_at m d (d + 0) (m s) e ∙ ap m f
    inside t (suc k) l =
        let e : d + suc k ≡ d + 1 + k = omega arith in
        let f : s + 1 + k ≡ s + suc k = omega arith in
        ap (copy_up (d + 1) (s + 1) n m1) e
        ∙ t.inside k (omega arith)
        ∙ ap m1 f
        ∙ store_apart m d (s + suc k) (m s) (clear k (omega arith) h)

    outside :
        Moved (d + 1) (s + 1) n m1 (copy_up (d + 1) (s + 1) n m1)
        → (a : ℕ) → (a < d) ⊎ (d + suc n ≤ a)
        → copy_up (d + 1) (s + 1) n m1 a ≡ m a
    outside t a (inl l) = t.outside a (inl (omega arith)) ∙ store_apart m d a (m s) (omega arith)
    outside t a (inr l) = t.outside a (inr (omega arith)) ∙ store_apart m d a (m s) (omega arith)

copy_down-Moved : (d s n : ℕ) (m : Memory) → s ≤ d → Moved d s n m (copy_down d s n m)
unfolding copy_down
copy_down-Moved d s zero m h = record {
  inside = λ k l. absurd (omega arith);
  outside = λ a o. refl;
}
copy_down-Moved d s (suc n) m h =
    let t = copy_down-Moved d s n (store m (d + n) (m (s + n))) h in
    record { inside = λ k l. inside t k l (cases k l); outside = outside t }
  where
    m1 : Memory
    m1 = store m (d + n) (m (s + n))

    cases : (k : ℕ) → k < suc n → (k < n) ⊎ (k ≡ n)
    cases k l = ground arith

    inside :
        Moved d s n m1 (copy_down d s n m1)
        → (k : ℕ) → k < suc n
        → (k < n) ⊎ (k ≡ n)
        → copy_down d s n m1 (d + k) ≡ m (s + k)
    inside t k l (inl x) = t.inside k x ∙ store_apart m (d + n) (s + k) (m (s + n)) (omega arith)
    inside t k l (inr x) =
        t.outside (d + k) (inr (omega arith))
        ∙ store_at m (d + n) (d + k) (m (s + n)) (ap (λ i. d + i) x)
        ∙ ap (λ i. m (s + i)) (sym x)

    outside :
        Moved d s n m1 (copy_down d s n m1)
        → (a : ℕ) → (a < d) ⊎ (d + suc n ≤ a)
        → copy_down d s n m1 a ≡ m a
    outside t a (inl l) = t.outside a (inl l) ∙ store_apart m (d + n) a (m (s + n)) (omega arith)
    outside t a (inr l) =
        t.outside a (inr (omega arith)) ∙ store_apart m (d + n) a (m (s + n)) (omega arith)

-- After `memmove` the `n` bytes at `dst` are those that were at `src`, however the two overlap, and
-- no other byte has changed.
pub memmove-Moved : (dst src n : ℕ) (m : Memory) → Moved dst src n m (memmove dst src n m)
unfolding memmove
memmove-Moved dst src n m = elim (Bool-cases (n == 0)) [
  | inl e ↦ rw (memmove, e) (nothing ((==_iff n 0).0 e))
  | inr e ↦ elim (Bool-cases (ltb src dst && ltb dst (src + n))) [
    | inl f ↦ rw (memmove, e, f) (copy_down-Moved dst src n m (below src dst (src + n) f))
    | inr f ↦ rw (memmove, e, f) (copy_up-Moved dst src n m (apart src dst (src + n) f))
  ]
]
  where
    nothing : n ≡ 0 → Moved dst src n m m
    nothing z = record { inside = λ k l. absurd (omega arith); outside = λ a o. refl }

    below : (a b c : ℕ) → (ltb a b && ltb b c) ≡ true → a ≤ b
    below a b c e = ground arith

    apart : (a b c : ℕ) → (ltb a b && ltb b c) ≡ false → (b ≤ a) ⊎ (c ≤ b)
    apart a b c e = ground arith
