-- ===== src/Kernel/System/Lifecycle.antt =====
-- The calls that make and reap processes keep the invariant of the process table.
use ru_shell.Base.{
  Bool, Bool-cases, Option, ap, arith, false, get_elem?, inl, inr, none, refl, some, subst, sym,
  true, ℕ, ◌&&◌, ◌+◌, ◌<◌, ◌∙◌, ◌≡◌, ◌≤◌, ◌⊎◌,
}
use ru_shell.Kernel.Proc.{Kernel, Proc, TrapFrame, is_unused, update, update_proc}
use ru_shell.Kernel.Proc.Table.{get_elem?-update}
use ru_shell.Kernel.Lifecycle.Children.{
  Search, copies_to, kwait, kwaitx, no_zombie, nothing, reap, search_children, zombie_at,
}
use ru_shell.Kernel.Lifecycle.{allocproc, fork_child, fork_into, freeproc, kfork}
use ru_shell.Kernel.Lifecycle.Alloc.{
  AllocResult, allocproc-AllocResult, failed, freeproc_idem, full, given, new_proc,
}
use ru_shell.Kernel.Invariant.{Inv, IsSound, Keeps, replace-Inv, update-Inv}
use ru_shell.Kernel.System.Keeps.{awake-Keeps}

freeproc-IsSound : (n : ℕ) (p : Proc) → IsSound n (freeproc p)
unfolding freeproc
freeproc-IsSound n p = record {
  free_pid = λ e. refl;
  live_pid = λ e. absurd (cc);
  asleep = λ e. absurd (cc);
  queued = omega arith;
}

freeproc-unused : (p : Proc) → is_unused (freeproc p).state ≡ true
unfolding freeproc
freeproc-unused p = refl

new_proc-IsSound :
    (n now t : ℕ) (f : TrapFrame) (p : Proc) → 0 < n → IsSound (n + 1) (new_proc n now f t p)
new_proc-IsSound n now t f p h = record {
  free_pid = λ e. absurd (cc);
  live_pid = λ e. (h, omega arith);
  asleep = λ e. absurd (cc);
  queued = omega arith;
}

-- An entry that is freed.
freed-Inv :
    (k : Kernel) (i n : ℕ) (f : Proc → Proc)
    → k.nextpid ≤ n
    → ((p : Proc) → f p ≡ freeproc (f p))
    → Inv k
    → Inv (record k { procs = update i f k.procs; nextpid = n })
freed-Inv k i n f le frees v =
    replace-Inv k i n f le (λ p _ _. subst (IsSound n) (sym (frees p)) (freeproc-IsSound n (f p)))
      (λ p _. inl (ap (λ r. is_unused r.state) (frees p) ∙ freeproc-unused (f p))) v

AllocResult-Inv :
    (tf : Option TrapFrame) (pt : Option ℕ) (k : Kernel) {r : Option ℕ × Kernel}
    → AllocResult tf pt k r
    → Inv k
    → Inv r.1
AllocResult-Inv tf pt k (full _) v = v
AllocResult-Inv tf pt k (given i p f t _ _ _) v =
    replace-Inv k i (k.nextpid + 1) _ (omega arith)
      (λ _ _ _. new_proc-IsSound k.nextpid k.ticks t f p v.positive) (λ _ _. inr (omega arith)) v
AllocResult-Inv tf pt k (failed i p q _ _ e) v =
    freed-Inv k i (k.nextpid + 1) _ (omega arith) (λ _. e) v

-- The entry that is given away is USED.
AllocResult-used :
    (tf : Option TrapFrame) (pt : Option ℕ) (k : Kernel) {r : Option ℕ × Kernel} (j : ℕ) (q : Proc)
    → AllocResult tf pt k r
    → r.0 ≡ some j
    → get_elem? r.1.procs j ≡ some q
    → is_unused q.state ≡ false
AllocResult-used tf pt k j q (full _) e g = absurd (cc)
AllocResult-used tf pt k j q (given i p f t _ _ _) e g =
    let x : i ≡ j = cc in
    let (r, _, cases) = get_elem?-update k.procs i j _ g in
    elim cases [ inl (_, y) ↦ rw y refl | inr (n, _) ↦ absurd (n x) ]
AllocResult-used tf pt k j q (failed _ _ _ _ _ _) e g = absurd (cc)

fork_child-Keeps : (i : ℕ) (p np : Proc) → is_unused np.state ≡ false → Keeps np (fork_child i p np)
unfolding fork_child
fork_child-Keeps i p np live = awake-Keeps np _ refl refl live refl refl

pub kfork-Inv :
    (tf : Option TrapFrame) (pt : Option ℕ) (copied : Bool) (i : ℕ) (p : Proc) (k : Kernel)
    → Inv k
    → Inv (kfork tf pt copied i p k).1
unfolding kfork fork_into
kfork-Inv tf pt copied i p k v = go (allocproc tf pt k) copied (allocproc-AllocResult tf pt k)
  where
    go : (r : Option ℕ × Kernel) (c : Bool) → AllocResult tf pt k r → Inv (fork_into c i p r).1
    go (none, k') c a = AllocResult-Inv tf pt k a v
    go (some j, k') true a =
        update-Inv k' j _ (λ q g. fork_child-Keeps i p q (AllocResult-used tf pt k j q a refl g))
          (AllocResult-Inv tf pt k a v)
    go (some j, k') false a =
        freed-Inv k' j k'.nextpid _ (omega arith) freeproc_idem (AllocResult-Inv tf pt k a v)

reap-frees : (p : Proc) → reap p ≡ freeproc (reap p)
unfolding reap freeproc
reap-frees p = refl

reap-Inv : (k : Kernel) (j : ℕ) → Inv k → Inv (update_proc k j reap)
reap-Inv k j v = freed-Inv k j k.nextpid reap (omega arith) reap-frees v

Search-cases :
    (s : Search)
    → ((kids : Bool) × (s ≡ nothing kids)) ⊎ ((j : ℕ) × (c : Proc) × (s ≡ zombie_at j c))
Search-cases (nothing kids) = inl (kids, refl)
Search-cases (zombie_at j c) = inr (j, c, refl)

pub kwait-Inv :
    (copies : ℕ → Bool) (addr i : ℕ) (killed : Bool) (k : Kernel)
    → Inv k
    → Inv (kwait copies addr i killed k).1
unfolding kwait no_zombie
kwait-Inv copies addr i killed k v = elim (Search-cases (search_children i 0 false k.procs)) [
  | inl (kids, e) ↦ rw (e, kwait) v
  | inr (j, c, e) ↦ elim (Bool-cases (copies_to copies addr)) [
    | inl y ↦ rw (e, kwait, y) (reap-Inv k j v)
    | inr y ↦ rw (e, kwait, y) v
  ]
]

pub kwaitx-Inv :
    (copies : ℕ → Bool) (addr wtime rtime resp i : ℕ) (killed : Bool) (k : Kernel)
    → Inv k
    → Inv (kwaitx copies addr wtime rtime resp i killed k).1
unfolding kwaitx no_zombie
kwaitx-Inv copies addr wtime rtime resp i killed k v =
    elim (Search-cases (search_children i 0 false k.procs)) [
      | inl (kids, e) ↦ rw (e, kwaitx) v
      | inr (j, c, e) ↦
          elim (Bool-cases (
            copies_to copies addr
            && copies_to copies wtime
            && copies_to copies rtime
            && copies_to copies resp)) [
              | inl y ↦ rw (e, kwaitx, y) (reap-Inv k j v)
              | inr y ↦ rw (e, kwaitx, y) v
            ]
    ]
