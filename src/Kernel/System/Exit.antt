-- ===== src/Kernel/System/Exit.antt =====
-- `kexit` keeps the invariant of the process table.
use ru_shell.Base.{
  Bool-cases, List, Option, Option-cases, ap, false, get_elem?, inl, inr, length, none, refl, some,
  subst, suc, zero, ℕ, ◌+◌, ◌==◌, ◌∙◌, ◌≡◌,
}
use ru_shell.Kernel.Proc.{Kernel, Layout, Policy, Proc, is_unused, update_proc}
use ru_shell.Kernel.Proc.Table.{get_elem?-map, get_elem?-update}
use ru_shell.Kernel.Sleep.{wake, wakeup}
use ru_shell.Kernel.Lifecycle.{
  FileCall, clear_files, is_child_of, kexit, parent_of, reparent, reparent_at, reparent_from,
  wakeup_parent,
}
use ru_shell.Kernel.Lifecycle.Orphans.{closed, dies, exiting, kexit-dies, kexit-init}
use ru_shell.Kernel.Invariant.{Inv, Keeps, update-Inv}
use ru_shell.Kernel.System.Keeps.{aside-Keeps, awake-Keeps, wake-Keeps}
use ru_shell.Kernel.System.Safety.{if-Inv, wakeup-Inv}

-- What `reparent` and `kexit` change but for the state is no matter of the invariant.
set_aside-Inv :
    (k : Kernel) (i : ℕ) (f : Proc → Proc)
    → ((p : Proc) → Keeps p (f p))
    → Inv k
    → Inv (update_proc k i f)
set_aside-Inv k i f keeps v = update-Inv k i f (λ p _. keeps p) v

reparent_at-Inv :
    (pol : Policy) (l : Layout) (i j : ℕ) (k : Kernel) → Inv k → Inv (reparent_at pol l i j k)
unfolding reparent_at
reparent_at-Inv pol l i j k v = elim (Option-cases (get_elem? k.procs j)) [
  | inl e ↦ rw (e, reparent_at) v
  | inr (p, e) ↦
      rw (e, reparent_at)
        (if-Inv (is_child_of i p)
          (wakeup-Inv pol _ _ (set_aside-Inv k j _ (λ q. aside-Keeps q _ refl refl refl refl) v)) v)
]

reparent_from-Inv :
    (pol : Policy) (l : Layout) (i n j : ℕ) (k : Kernel) → Inv k → Inv (reparent_from pol l i n j k)
unfolding reparent_from
reparent_from-Inv pol l i zero j k v = v
reparent_from-Inv pol l i (suc n) j k v =
    reparent_from-Inv pol l i n (j + 1) _ (reparent_at-Inv pol l i j k v)

wakeup_parent-Inv :
    (pol : Policy) (l : Layout) (parent : Option ℕ) (k : Kernel)
    → Inv k
    → Inv (wakeup_parent pol l parent k)
unfolding wakeup_parent
wakeup_parent-Inv pol l none k v = wakeup-Inv pol 0 k v
wakeup_parent-Inv pol l (some j) k v = wakeup-Inv pol _ k v

-- The entry at an index, if there is one, is in use.
abbrev InUse : ℕ → Kernel → Type 0
InUse i k = (q : Proc) → get_elem? k.procs i ≡ some q → is_unused q.state ≡ false

wakeup-InUse : (pol : Policy) (chan i : ℕ) (k : Kernel) → InUse i k → InUse i (wakeup pol chan k)
unfolding wakeup
wakeup-InUse pol chan i k u q g =
    let (p, h, e) = get_elem?-map k.procs i (wake pol k.ticks chan) g in
    ap (λ r. is_unused r.state) e ∙ (wake-Keeps pol k.ticks p chan).same.1 ∙ u p h

reparent_at-InUse :
    (pol : Policy) (l : Layout) (from i j : ℕ) (k : Kernel)
    → InUse i k
    → InUse i (reparent_at pol l from j k)
unfolding reparent_at
reparent_at-InUse pol l from i j k u = elim (Option-cases (get_elem? k.procs j)) [
  | inl e ↦ rw (e, reparent_at) u
  | inr (p, e) ↦ elim (Bool-cases (is_child_of from p)) [
    | inl y ↦
        rw (e, reparent_at, y)
          (wakeup-InUse pol _ i (update_proc k j (λ q. record q { parent = some k.initproc }))
            adopted)
    | inr y ↦ rw (e, reparent_at, y) u
  ]
]
  where
    adopted : InUse i (update_proc k j (λ q. record q { parent = some k.initproc }))
    adopted q g =
        let (p, h, cases) = get_elem?-update k.procs j i _ g in
        elim cases [
          | inl (_, e) ↦ ap (λ r. is_unused r.state) e ∙ u p h
          | inr (_, e) ↦ ap (λ r. is_unused r.state) e ∙ u p h
        ]

reparent_from-InUse :
    (pol : Policy) (l : Layout) (from i n j : ℕ) (k : Kernel)
    → InUse i k
    → InUse i (reparent_from pol l from n j k)
unfolding reparent_from
reparent_from-InUse pol l from i zero j k u = u
reparent_from-InUse pol l from i (suc n) j k u =
    reparent_from-InUse pol l from i n (j + 1) _ (reparent_at-InUse pol l from i j k u)

wakeup_parent-InUse :
    (pol : Policy) (l : Layout) (parent : Option ℕ) (i : ℕ) (k : Kernel)
    → InUse i k
    → InUse i (wakeup_parent pol l parent k)
unfolding wakeup_parent
wakeup_parent-InUse pol l none i k u = wakeup-InUse pol 0 i k u
wakeup_parent-InUse pol l (some j) i k u = wakeup-InUse pol _ i k u

exiting-Inv :
    (pol : Policy) (l : Layout) (i : ℕ) (parent : Option ℕ) (k : Kernel)
    → Inv k
    → Inv (exiting pol l i parent k)
unfolding reparent
exiting-Inv pol l i parent k v = wakeup_parent-Inv pol l parent (reparent pol l i (closed i k)) (
    reparent_from-Inv pol l i (length (closed i k).procs) 0 (closed i k) (
      set_aside-Inv k i (λ q. record q { ofile = clear_files q.ofile; cwd = none })
        (λ q. aside-Keeps q _ refl refl refl refl) v))

exiting-InUse :
    (pol : Policy) (l : Layout) (i : ℕ) (parent : Option ℕ) (k : Kernel)
    → InUse i k
    → InUse i (exiting pol l i parent k)
unfolding reparent
exiting-InUse pol l i parent k u =
    wakeup_parent-InUse pol l parent i (reparent pol l i (closed i k))
      (reparent_from-InUse pol l i i (length (closed i k).procs) 0 (closed i k) there)
  where
    there : InUse i (closed i k)
    there q g =
        let (p, h, cases) = get_elem?-update k.procs i i _ g in
        elim cases [
          | inl (_, e) ↦ ap (λ r. is_unused r.state) e ∙ u p h
          | inr (_, e) ↦ ap (λ r. is_unused r.state) e ∙ u p h
        ]

pub kexit-Inv :
    (pol : Policy) (l : Layout) (status i : ℕ) (p : Proc) (k : Kernel) {k' : Kernel}
    {calls : List FileCall}
    → get_elem? k.procs i ≡ some p
    → is_unused p.state ≡ false
    → kexit pol l status i p k ≡ some (k', calls)
    → Inv k
    → Inv k'
kexit-Inv pol l status i p k {k'} g live e v = elim (Bool-cases (i == k.initproc)) [
  | inl y ↦ let x = kexit-init pol l status i p k y in absurd (cc)
  | inr y ↦
      let x = kexit-dies pol l status i p k y in
      let same : update_proc (exiting pol l i (parent_of (reparent pol l i (closed i k)) i) k) i
            (dies status k.ticks)
          ≡ k' =
        cc in
      subst Inv same (
        update-Inv (exiting pol l i (parent_of (reparent pol l i (closed i k)) i) k) i
          (dies status k.ticks) (λ q h. awake-Keeps q _ refl refl (there q h) refl refl)
          (exiting-Inv pol l i (parent_of (reparent pol l i (closed i k)) i) k v))
]
  where
    there : InUse i (exiting pol l i (parent_of (reparent pol l i (closed i k)) i) k)
    there =
        exiting-InUse pol l i (parent_of (reparent pol l i (closed i k)) i) k
          (λ q h. let x : p ≡ q = cc in subst (λ r. is_unused r.state ≡ false) x live)
