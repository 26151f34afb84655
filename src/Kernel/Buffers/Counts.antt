-- ===== src/Kernel/Buffers/Counts.antt =====
-- Buffers of xv6/kernel/bio.c counted by a test.
use ru_shell.Base.{
  Bool, Bool-cases, List, [], ap, arith, find, if◌then◌else◌, inl, inr, none, refl, some, sym,
  update_first, ℕ, ◌+◌, ◌∷◌, ◌≡◌,
}
use ru_shell.Kernel.Buffers.{Buf, delete_first}

-- How many buffers pass a test.
abbrev pub count_of : (Buf → Bool) → List Buf → ℕ
count_of test [] = 0
count_of test (b ∷ bs) = (if test b then 1 else 0) + count_of test bs

-- A change that does not touch what the test reads.
pub count_of-update_first :
    (test sel : Buf → Bool) (f : Buf → Buf) (bs : List Buf)
    → ((b : Buf) → test (f b) ≡ test b)
    → count_of test (update_first sel f bs) ≡ count_of test bs
count_of-update_first test sel f [] e = refl
count_of-update_first test sel f (b ∷ bs) e =
    let h = count_of-update_first test sel f bs e in
    let s = e b in
    elim (Bool-cases (sel b)) [
      | inl q ↦ rw (update_first, q) (rw s refl)
      | inr q ↦ rw (update_first, q) (omega arith)
    ]

pub count_of-delete_first :
    (test sel : Buf → Bool) (bs : List Buf) (b : Buf)
    → find sel bs ≡ some b
    → count_of test (b ∷ delete_first sel bs) ≡ count_of test bs
count_of-delete_first test sel [] b e = absurd (cc e)
count_of-delete_first test sel (x ∷ bs) b e = elim (Bool-cases (sel x)) [
  | inl q ↦
      let same : x ≡ b = cc (q, e) in
      let c = ap (λ y. if test y then 1 else 0) same in
      rw (delete_first, q) (ap (λ n. n + count_of test bs) (sym c))
  | inr q ↦
      let h = count_of-delete_first test sel bs b (cc (q, e)) in
      rw (delete_first, q) (omega (arith, h))
]

pub find-none : (test : Buf → Bool) (bs : List Buf) → find test bs ≡ none → count_of test bs ≡ 0
find-none test [] e = refl
find-none test (b ∷ bs) e = ground (arith, e, find-none test bs)
