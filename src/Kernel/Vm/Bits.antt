-- ===== src/Kernel/Vm/Bits.antt =====
-- The binary `or` of the entries of page tables.
use ru_shell.Base.{
  ap, arith, refl, subst, suc, true, zero, ℕ, ◌%◌, ◌*◌, ◌+◌, ◌/◌, ◌<◌, ◌==◌, ◌^◌, ◌∙◌, ◌≡◌, ◌≤◌,
}
use ru_shell.Kernel.Pages.{pgsize}
use ru_shell.Kernel.Vm.{flag_v, is_user, is_valid, pa2pte, pte2pa}
use Prim.Native.Nat.{bit_or, bit_or-bitwise, digits, max}

abbrev or_digits : ℕ → ℕ → ℕ → ℕ
or_digits n a b = digits (λ b. b) max n a b

or_digits_fuel : (n m a b : ℕ) → a ≤ n → a ≤ m → or_digits n a b ≡ or_digits m a b
or_digits_fuel zero zero a b p q = refl
or_digits_fuel zero (suc m) zero b p q = refl
or_digits_fuel zero (suc m) (suc a) b p q = absurd (omega arith)
or_digits_fuel (suc n) zero zero b p q = refl
or_digits_fuel (suc n) zero (suc a) b p q = absurd (omega arith)
or_digits_fuel (suc n) (suc m) zero b p q = refl
or_digits_fuel (suc n) (suc m) (suc a) b p q =
    omega (arith, or_digits_fuel n m (suc a / 2) (b / 2) (omega arith) (omega arith))

zero-bit_or : (b : ℕ) → bit_or 0 b ≡ b
zero-bit_or b = bit_or-bitwise 0 b

-- The lowest digit apart.
bit_or_step : (a b : ℕ) → bit_or a b ≡ bit_or (a / 2) (b / 2) * 2 + max (a % 2) (b % 2)
bit_or_step zero b = omega (arith, zero-bit_or b, zero-bit_or (b / 2))
bit_or_step (suc a) b = omega (
  arith,
  bit_or-bitwise (suc a) b,
  bit_or-bitwise (suc a / 2) (b / 2),
  or_digits_fuel a (suc a / 2) (suc a / 2) (b / 2) (omega arith) (omega arith),
)

bit_or-zero_fuel : (n a : ℕ) → a ≤ n → bit_or a 0 ≡ a
bit_or-zero_fuel n zero h = refl
bit_or-zero_fuel zero (suc a) h = absurd (omega arith)
bit_or-zero_fuel (suc n) (suc a) h =
    omega (arith, bit_or_step (suc a) 0, bit_or-zero_fuel n (suc a / 2) (omega arith))

bit_or-zero : (a : ℕ) → bit_or a 0 ≡ a
bit_or-zero a = bit_or-zero_fuel a a (omega arith)

pub bit_or-one : (a : ℕ) → bit_or a 1 ≡ a / 2 * 2 + 1
bit_or-one a = omega (arith, bit_or_step a 1, bit_or-zero (a / 2))

double : (x m : ℕ) → x % 2 ≡ 0 → bit_or (x / 2) (m / 2) ≡ x / 2 + m / 2 → bit_or x m ≡ x + m
double x m e h = omega (arith, bit_or_step x m)

-- Flags below the address of a page.
bit_or_five : (x m : ℕ) → x % 32 ≡ 0 → m < 32 → bit_or x m ≡ x + m
bit_or_five x m e l =
    let z : m / 2 / 2 / 2 / 2 / 2 ≡ 0 = omega arith in
    double x m (omega arith) (
      double (x / 2) (m / 2) (omega arith) (
        double (x / 2 / 2) (m / 2 / 2) (omega arith) (
          double (x / 2 / 2 / 2) (m / 2 / 2 / 2) (omega arith) (
            double (x / 2 / 2 / 2 / 2) (m / 2 / 2 / 2 / 2) (omega arith)
              (rw z (bit_or-zero (x / 2 / 2 / 2 / 2 / 2) ∙ omega arith))))))

-- The entry of a page keeps its address and its flags.
pub entry_lem :
    (pa perm : ℕ)
    → pa % pgsize ≡ 0
    → pa < 2 ^ 56
    → perm < 32
    → (is_valid (bit_or (bit_or (pa2pte pa) perm) flag_v) ≡ true)
      × (pte2pa (bit_or (bit_or (pa2pte pa) perm) flag_v) ≡ pa)
      × (is_user (bit_or (bit_or (pa2pte pa) perm) flag_v) ≡ is_user perm)
unfolding is_valid pte2pa pa2pte is_user
entry_lem pa perm e l f =
    let x = pa2pte pa in
    let o : bit_or x perm ≡ x + perm = bit_or_five x perm (omega arith) f in
    let v = bit_or-one (bit_or x perm) in
    let w : bit_or (bit_or x perm) flag_v ≡ (pa / 4096 * 1024 + perm) / 2 * 2 + 1 = omega arith in
    rw w (ground arith, omega arith, ap (λ n. n == 1) (omega arith))

-- The entry of a table that `walk` makes.
pub table_entry_lem :
    (pa : ℕ)
    → pa % pgsize ≡ 0
    → pa < 2 ^ 56
    → (is_valid (bit_or (pa2pte pa) flag_v) ≡ true) × (pte2pa (bit_or (pa2pte pa) flag_v) ≡ pa)
table_entry_lem pa e l =
    let (v, a, _) = entry_lem pa 0 e l (omega arith) in
    let z = bit_or-zero (pa2pte pa) in
    (
      subst (λ x. is_valid (bit_or x flag_v) ≡ true) z v,
      subst (λ x. pte2pa (bit_or x flag_v) ≡ pa) z a,
    )
