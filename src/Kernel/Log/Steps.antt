-- ===== src/Kernel/Log/Steps.antt =====
-- The steps that system calls make in the log of xv6/kernel/log.c, and what they keep.
use ru_shell.Base.{
  Bool, Bool-cases, List, [], arith, false, get_elem?, inl, inr, length, refl, set, some, suc, true,
  zero, ℕ, ◌*◌, ◌+◌, ◌<◌, ◌==◌, ◌||◌, ◌∷◌, ◌≡◌, ◌≤◌,
}
use ru_shell.Kernel.Log.{
  Block, Log, Machine, absorb, begin_op, commit, contents, end_commit, end_op, goes_on, log_write,
  logblocks, maxopblocks, modify, must_commit, wakes,
}
use ru_shell.Kernel.Log.Header.{All}
use ru_shell.Kernel.Log.Crash.{IsHome, on_disk}

abbrev pub with_log : Log → Machine → Machine
with_log l m = record m { log = l }

abbrev pub sum : List ℕ → ℕ
sum [] = 0
sum (x ∷ xs) = x + sum xs

abbrev pub remove_at : ℕ → List ℕ → List ℕ
remove_at i [] = []
remove_at zero (x ∷ xs) = xs
remove_at (suc i) (x ∷ xs) = x ∷ remove_at i xs

-- Whether a block is in the header already.
abbrev pub is_logged : ℕ → List ℕ → Bool
is_logged b [] = false
is_logged b (x ∷ xs) = let rest = is_logged b xs in x == b || rest

-- What the running system calls do with the log. The list has, for each of them, the number of new
-- blocks that it may still add; to write a block again that is in the header costs nothing. A
-- commit is one step: no system call runs until it is over.
pub data LogStep : Machine → List ℕ → Machine → List ℕ → Type 0 where
  step_begin :
      (m : Machine) (bs : List ℕ) (l : Log)
      → begin_op m.log ≡ some l
      → LogStep m bs (with_log l m) (maxopblocks ∷ bs)
  step_modify :
      (m : Machine) (bs : List ℕ) (i k b : ℕ) (d : Block)
      → get_elem? bs i ≡ some k
      → IsHome m.log.start b
      → LogStep m bs (modify b d m) bs
  step_write :
      (m w : Machine) (bs : List ℕ) (i k b : ℕ)
      → get_elem? bs i ≡ some (suc k)
      → IsHome m.log.start b
      → is_logged b m.log.lh ≡ false
      → log_write b m ≡ some w
      → LogStep m bs w (set bs i k)
  step_rewrite :
      (m w : Machine) (bs : List ℕ) (i k b : ℕ)
      → get_elem? bs i ≡ some k
      → is_logged b m.log.lh ≡ true
      → log_write b m ≡ some w
      → LogStep m bs w bs
  step_end :
      (m : Machine) (bs : List ℕ) (i k : ℕ) (l : Log)
      → get_elem? bs i ≡ some k
      → end_op m.log ≡ wakes l
      → LogStep m bs (with_log l m) (remove_at i bs)
  step_commit :
      (m w : Machine) (bs : List ℕ) (i k : ℕ) (l : Log)
      → get_elem? bs i ≡ some k
      → end_op m.log ≡ must_commit l
      → commit (with_log l m) ≡ goes_on w
      → LogStep m bs (with_log (end_commit w.log) w) (remove_at i bs)

pub record HasSpace (m : Machine) (bs : List ℕ) : Type 0 where
  pub counted : m.log.outstanding ≡ length bs
  pub idle : m.log.committing ≡ false
  pub space : sum bs + length m.log.lh ≤ logblocks
  pub fair : All (λ k. k ≤ maxopblocks) bs
  pub few : length bs * maxopblocks ≤ logblocks
  pub homes : All (IsHome m.log.start) m.log.lh
  pub quiet : on_disk m.log.start m.disk ≡ []
  pub coherent :
      (i : ℕ) → i < logblocks → contents m (m.log.start + i + 1) ≡ m.disk (m.log.start + i + 1)

pub sum-set :
    (bs : List ℕ) (i k : ℕ) → get_elem? bs i ≡ some (suc k) → suc (sum (set bs i k)) ≡ sum bs
sum-set [] i k e = absurd (cc e)
sum-set (x ∷ xs) zero k e = ground (arith, e)
sum-set (x ∷ xs) (suc i) k e = let h = sum-set xs i k e in omega arith

pub remove_at_lem :
    (bs : List ℕ) (i k : ℕ)
    → get_elem? bs i ≡ some k
    → (suc (length (remove_at i bs)) ≡ length bs) × (sum (remove_at i bs) ≤ sum bs)
remove_at_lem [] i k e = absurd (cc e)
remove_at_lem (x ∷ xs) zero k e = (refl, omega arith)
remove_at_lem (x ∷ xs) (suc i) k e =
    let (a, b) = remove_at_lem xs i k e in (omega arith, omega arith)

pub sum_bound : (bs : List ℕ) → All (λ k. k ≤ maxopblocks) bs → sum bs ≤ length bs * maxopblocks
sum_bound [] h = omega arith
sum_bound (x ∷ xs) (h, hs) = let r = sum_bound xs hs in omega arith

pub fair-set :
    (bs : List ℕ) (i k : ℕ)
    → All (λ x. x ≤ maxopblocks) bs
    → get_elem? bs i ≡ some (suc k)
    → All (λ x. x ≤ maxopblocks) (set bs i k)
fair-set [] i k h e = tt
fair-set (x ∷ xs) zero k (h, hs) e = (ground (arith, e, h), hs)
fair-set (x ∷ xs) (suc i) k (h, hs) e = (h, fair-set xs i k hs e)

pub fair-remove_at :
    (bs : List ℕ) (i : ℕ)
    → All (λ x. x ≤ maxopblocks) bs
    → All (λ x. x ≤ maxopblocks) (remove_at i bs)
fair-remove_at [] i h = tt
fair-remove_at (x ∷ xs) zero (h, hs) = hs
fair-remove_at (x ∷ xs) (suc i) (h, hs) = (h, fair-remove_at xs i hs)

pub absorb_lem :
    (b : ℕ) (xs : List ℕ) (P : ℕ → Type 0)
    → P b
    → All P xs
    → (length (absorb b xs).0 ≤ suc (length xs)) × All P (absorb b xs).0
unfolding absorb
absorb_lem b [] P p h = (omega arith, (p, tt))
absorb_lem b (x ∷ xs) P p (h, hs) =
    let (l, a) = absorb_lem b xs P p hs in
    elim (Bool-cases (x == b)) [
      | inl e ↦ rw e (omega arith, (h, hs))
      | inr e ↦ rw e (omega arith, (h, a))
    ]

pub absorb-logged : (b : ℕ) (xs : List ℕ) → is_logged b xs ≡ true → absorb b xs ≡ (xs, false)
unfolding absorb
absorb-logged b [] h = absurd (cc h)
absorb-logged b (x ∷ xs) h = elim (Bool-cases (x == b)) [
  | inl e ↦ rw e refl
  | inr e ↦
      let rest : is_logged b xs ≡ true = ground (arith, h, e) in
      rw (e, absorb-logged b xs rest) refl
]
