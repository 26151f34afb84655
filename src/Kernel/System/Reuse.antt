-- ===== src/Kernel/System/Reuse.antt =====
-- A kill of pid 0, and the process that gets the entry next.
use ru_shell.Base.{
  Bool-cases, Option, ap, arith, get_elem?, inl, inr, none, refl, some, subst, sym, true, ℕ, ◌∙◌,
  ◌≡◌, ◌≤◌,
}
use ru_shell.Kernel.Proc.{Kernel, Policy, Proc, TrapFrame, is_unused, update, update_proc}
use ru_shell.Kernel.Proc.Table.{get_elem?-update, get_elem?-update_self}
use ru_shell.Kernel.Sleep.{kkill, rouse}
use ru_shell.Kernel.Sleep.Kill.{KillResult, killed_one, kkill-KillResult}
use ru_shell.Kernel.Lifecycle.{allocproc}
use ru_shell.Kernel.Lifecycle.Alloc.{
  AllocResult, allocproc-AllocResult, failed, full, given, new_proc,
}
use ru_shell.Kernel.Invariant.{Inv, IsSound}

pub unused_of_pid : {n : ℕ} (p : Proc) → IsSound n p → p.pid ≡ 0 → is_unused p.state ≡ true
unused_of_pid p s e = elim (Bool-cases (is_unused p.state)) [
  | inl x ↦ x
  | inr x ↦ let h = (s.live_pid x).0 in absurd (omega (arith, e))
]

killed_one-unused :
    (pol : Policy) (now : ℕ) (p : Proc)
    → is_unused p.state ≡ true
    → (is_unused (killed_one pol now p).state ≡ true) × ((killed_one pol now p).killed ≡ true)
unfolding rouse
killed_one-unused pol now p e = ground arith

-- The first entry with pid 0, killed, is the first that is UNUSED.
alloc-killed :
    (pol : Policy) (k : Kernel) (i : ℕ) (p : Proc) (tf : TrapFrame) (pt : ℕ) {r : Option ℕ × Kernel}
    → Inv k
    → get_elem? k.procs i ≡ some p
    → is_unused p.state ≡ true
    → ((j : ℕ) (q : Proc) → get_elem? k.procs j ≡ some q → q.pid ≡ 0 → i ≤ j)
    → AllocResult (some tf) (some pt) (update_proc k i (killed_one pol k.ticks)) r
    → (j : ℕ) × (q : Proc) × (r.0 ≡ some j) × (get_elem? r.1.procs j ≡ some q) × (q.killed ≡ true)
alloc-killed pol k i p tf pt v g u first (full n) =
    let (a, _) = killed_one-unused pol k.ticks p u in
    let b =
      n i (killed_one pol k.ticks p) (get_elem?-update_self k.procs i (killed_one pol k.ticks) g) in
    absurd (cc)
alloc-killed pol k i p tf pt v g u first (given j q f t free _ _) = (
  j,
  new_proc k.nextpid k.ticks f t q,
  refl,
  get_elem?-update_self (update i (killed_one pol k.ticks) k.procs) j
      (λ _. new_proc k.nextpid k.ticks f t q) free.found,
  reused,
)
  where
    reused : q.killed ≡ true
    reused =
        let (a, b) = killed_one-unused pol k.ticks p u in
        let le =
          free.first i (killed_one pol k.ticks p)
            (get_elem?-update_self k.procs i (killed_one pol k.ticks) g) a in
        let (r, h, cases) = get_elem?-update k.procs i j (killed_one pol k.ticks) free.found in
        elim cases [
          | inl (e, x) ↦
              let y : r ≡ p = cc in
              ap (λ s. s.killed) x ∙ subst (λ s. (killed_one pol k.ticks s).killed ≡ true) (sym y) b
          | inr (e, x) ↦
              let free_r = subst (λ s. is_unused s.state ≡ true) x free.free in
              let back = first j r h ((v.each j r h).free_pid free_r) in absurd (e (omega arith))
        ]
alloc-killed pol k i p tf pt v g u first (failed j q _ _ (inl e) _) = absurd (cc)
alloc-killed pol k i p tf pt v g u first (failed j q _ _ (inr e) _) = absurd (cc)

-- `kkill` of pid 0, which no process has, is reported as done while there is an UNUSED entry, and
-- the next process that `allocproc` makes is then killed from its start.
pub kkill-allocproc :
    (pol : Policy) (k : Kernel) (i : ℕ) (p : Proc) (tf : TrapFrame) (pt : ℕ)
    → Inv k
    → get_elem? k.procs i ≡ some p
    → is_unused p.state ≡ true
    → (k' : Kernel) × (kkill pol 0 k ≡ some k')
      × (j : ℕ) × (q : Proc) × ((allocproc (some tf) (some pt) k').0 ≡ some j)
      × (get_elem? (allocproc (some tf) (some pt) k').1.procs j ≡ some q)
      × (q.killed ≡ true)
kkill-allocproc pol k i p tf pt v g u = go (kkill pol 0 k) refl (kkill-KillResult pol 0 k)
  where
    go :
        (o : Option Kernel)
        → kkill pol 0 k ≡ o
        → KillResult pol 0 k o
        → (k' : Kernel) × (kkill pol 0 k ≡ some k')
          × (j : ℕ) × (q : Proc) × ((allocproc (some tf) (some pt) k').0 ≡ some j)
          × (get_elem? (allocproc (some tf) (some pt) k').1.procs j ≡ some q)
          × (q.killed ≡ true)
    go none e t = absurd (t i p g ((v.each i p g).free_pid u))
    go (some k') e (m, q, t, x) =
        let (j, r, a, b, c) =
          alloc-killed pol k m q tf pt v t.found (unused_of_pid q (v.each m q t.found) t.has_pid)
            t.first
            (subst (λ n. AllocResult (some tf) (some pt) n (allocproc (some tf) (some pt) k')) x
              (allocproc-AllocResult (some tf) (some pt) k')) in
        (k', e, j, r, a, b, c)
