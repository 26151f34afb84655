-- ===== src/Kernel/Exec.antt =====
-- Code of xv6/kernel/ that changes a state and may panic (`none`).
use ru_shell.Base.{Option, none, some}

abbrev pub Exec : Type 0 → Type 0 → Type 0
Exec S A = S → Option (A × S)

infixl 5 ◌>>=◌ ◌>>◌
abbrev pub ◌>>=◌ : {S A B : Type 0} → Exec S A → (A → Exec S B) → Exec S B
(m >>= f) p = elim (m p) [ none ↦ none | some (a, q) ↦ f a q ]

abbrev pub ◌>>◌ : {S A B : Type 0} → Exec S A → Exec S B → Exec S B
m >> n = m >>= (λ _. n)

abbrev pub pure : {S A : Type 0} → A → Exec S A
pure a p = some (a, p)

abbrev pub panic : {S A : Type 0} → Exec S A
panic p = none

abbrev pub gets : {S A : Type 0} → (S → A) → Exec S A
gets f p = some (f p, p)

abbrev pub modify_state : {S : Type 0} → (S → S) → Exec S Unit
modify_state f p = some (tt, f p)
