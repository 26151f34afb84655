-- ===== src/Kernel/Lifecycle/Exit.antt =====
-- What `kexit` leaves of a process and its children.
use ru_shell.Base.{
  ==_iff, Bool-cases, List, Option, [], ap, arith, false, get_elem?, inl, inr, length, none, refl,
  some, subst, suc, sym, zero, ℕ, ◌<◌, ◌==◌, ◌↔◌, ◌∙◌, ◌∷◌, ◌≡◌, ◌≢◌, ◌⊎◌,
}
use ru_shell.Kernel.Proc.{Kernel, Layout, Policy, Proc, update_proc, zombie}
use ru_shell.Kernel.Proc.Table.{get_elem?-update, get_elem?-update_self}
use ru_shell.Kernel.Lifecycle.{FileCall, kexit, parent_of, reparent}
use ru_shell.Kernel.Lifecycle.Parents.{Parents, heir, heirs}
use ru_shell.Kernel.Lifecycle.Orphans.{
  closed, dies, exiting, exiting-Parents, kexit-dies, kexit-init,
}

within : (ps : List Proc) (m : ℕ) (p : Proc) → get_elem? ps m ≡ some p → m < length ps
within [] m p e = absurd (cc)
within (q ∷ ps) zero p e = omega arith
within (q ∷ ps) (suc m) p e = let h = within ps m p e in omega arith

heir-ne : (i init : ℕ) (o : Option ℕ) → i ≢ init → heir i init o ≢ some i
heir-ne i init o n = ground arith

-- Entry `i` is a zombie with the status, and its children are those of `initproc`.
pub record Exited (status i : ℕ) (k k' : Kernel) : Type 0 where
  pub dead : (q : Proc) × (get_elem? k'.procs i ≡ some q) × (q.state ≡ zombie) × (q.xstate ≡ status)
  pub childless : (m : ℕ) (q : Proc) → get_elem? k'.procs m ≡ some q → q.parent ≢ some i
  pub adopted :
      (m : ℕ) (q : Proc)
      → get_elem? k'.procs m ≡ some q
      → (r : Proc) × (get_elem? k.procs m ≡ some r) × (q.parent ≡ heir i k.initproc r.parent)

exiting-Exited :
    (pol : Policy) (l : Layout) (status i : ℕ) (o : Option ℕ) (p : Proc) (k : Kernel)
    → get_elem? k.procs i ≡ some p
    → i ≢ k.initproc
    → Exited status i k (update_proc (exiting pol l i o k) i (dies status k.ticks))
exiting-Exited pol l status i o p k g n = record {
  dead =
      let (q, h) = t.stays i p g in
      (
        dies status k.ticks q,
        get_elem?-update_self (exiting pol l i o k).procs i (dies status k.ticks) h,
        refl,
        refl,
      );
  childless =
      λ m q h. let (r, _, e) = adopted m q h in λ x. heir-ne i k.initproc r.parent n (sym e ∙ x);
  adopted = adopted;
}
  where
    t : Parents (heirs i k.initproc (length k.procs) 0) k (exiting pol l i o k)
    t = exiting-Parents pol l i o k

    adopted :
        (m : ℕ) (q : Proc)
        → get_elem? (update_proc (exiting pol l i o k) i (dies status k.ticks)).procs m ≡ some q
        → (r : Proc) × (get_elem? k.procs m ≡ some r) × (q.parent ≡ heir i k.initproc r.parent)
    adopted m q h =
        let (s, x, cases) =
          get_elem?-update (exiting pol l i o k).procs i m (dies status k.ticks) h in
        let (r, y, e) = t.was m s x in
        (r, y, parent q s cases ∙ e ∙ inside m r.parent (within k.procs m r y))
      where
        parent :
            (q s : Proc)
            → ((i ≡ m) × (q ≡ dies status k.ticks s)) ⊎ ((i ≢ m) × (q ≡ s))
            → q.parent ≡ s.parent
        parent q s (inl (_, e)) = ap (λ r. r.parent) e
        parent q s (inr (_, e)) = ap (λ r. r.parent) e

        inside :
            (m : ℕ) (o : Option ℕ)
            → m < length k.procs
            → heirs i k.initproc (length k.procs) 0 m o ≡ heir i k.initproc o
        inside m o b = ground arith

-- `kexit` panics exactly for `initproc`. Else it leaves the caller a zombie with the status, and
-- each of the caller's children a child of `initproc`, the others with the parent they had. So no
-- process is a child of the zombie.
pub kexit-Exited :
    (pol : Policy) (l : Layout) (status i : ℕ) (p : Proc) (k : Kernel)
    → get_elem? k.procs i ≡ some p
    → ((kexit pol l status i p k ≡ none) ↔ (i ≡ k.initproc))
      × ((k' : Kernel) (calls : List FileCall)
          → kexit pol l status i p k ≡ some (k', calls)
          → Exited status i k k')
kexit-Exited pol l status i p k g = elim (Bool-cases (i == k.initproc)) [
  | inl e ↦ (
    ((λ _. (==_iff i k.initproc).0 e), (λ _. kexit-init pol l status i p k e)),
    λ k' calls x. let y = kexit-init pol l status i p k e in absurd (cc),
  )
  | inr e ↦
      let y = kexit-dies pol l status i p k e in
      let n = apart i e in
      (
        ((λ x. absurd (cc)), (λ x. absurd (n x))),
        λ k' calls x.
            let same : update_proc (exiting pol l i (parent_of (reparent pol l i (closed i k)) i) k)
                  i (dies status k.ticks)
                ≡ k' =
              cc in
            subst (Exited status i k) same
              (exiting-Exited pol l status i (parent_of (reparent pol l i (closed i k)) i) p k g n),
      )
]
  where
    apart : (i : ℕ) → (i == k.initproc) ≡ false → i ≢ k.initproc
    apart i e = ground arith
