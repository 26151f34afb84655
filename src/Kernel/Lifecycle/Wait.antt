-- ===== src/Kernel/Lifecycle/Wait.antt =====
-- What `kwait` and `kwaitx` do to the table, and what they return.
use ru_shell.Base.{
  Bool, Bool-cases, List, [], arith, false, get_elem?, inl, inr, none, refl, some, subst, suc, sym,
  true, zero, ℕ, ◌+◌, ◌∷◌, ◌≡◌, ◌≤◌, ◌⊎◌,
}
use ru_shell.Kernel.Proc.{Kernel, Proc, is_zombie, unused, update_proc}
use ru_shell.Kernel.Lifecycle.Children.{
  Search, WaitEnd, copies_to, copy_failed, kwait, must_sleep, no_child, no_zombie, nothing, reap,
  reaped, search_children, zombie_at,
}
use ru_shell.Kernel.Lifecycle.{freeproc, is_child_of}

-- Entry `j` is the first zombie child of `i`.
pub record FirstZombie (i : ℕ) (ps : List Proc) (j : ℕ) (c : Proc) : Type 0 where
  pub found : get_elem? ps j ≡ some c
  pub child : is_child_of i c ≡ true
  pub dead : is_zombie c.state ≡ true
  pub first :
      (m : ℕ) (q : Proc)
      → get_elem? ps m ≡ some q
      → is_child_of i q ≡ true
      → is_zombie q.state ≡ true
      → j ≤ m

-- No child of `i` is a zombie, and there is one or there is none.
pub record NoZombie (i : ℕ) (ps : List Proc) : Type 0 where
  pub none_dead :
      (m : ℕ) (q : Proc)
      → get_elem? ps m ≡ some q
      → is_child_of i q ≡ true
      → is_zombie q.state ≡ false

abbrev pub SomeChild : ℕ → List Proc → Type 0
SomeChild i ps = (m : ℕ) × (q : Proc) × (get_elem? ps m ≡ some q) × (is_child_of i q ≡ true)

-- What the search finds; `kids` says whether a child was seen before.
pub data Searched (i from : ℕ) (kids : Bool) (ps : List Proc) : Search → Type 0 where
  at_zombie :
      (j : ℕ) (c : Proc) → FirstZombie i ps j c → Searched i from kids ps (zombie_at (from + j) c)
  at_end :
      (b : Bool)
      → NoZombie i ps
      → (b ≡ true → (kids ≡ true) ⊎ SomeChild i ps)
      → ((kids ≡ true) ⊎ SomeChild i ps → b ≡ true)
      → Searched i from kids ps (nothing b)

skip-NoZombie :
    (i : ℕ) (p : Proc) (ps : List Proc)
    → (is_child_of i p ≡ true → is_zombie p.state ≡ false)
    → NoZombie i ps
    → NoZombie i (p ∷ ps)
skip-NoZombie i p ps here t = record { none_dead = go }
  where
    go :
        (m : ℕ) (q : Proc)
        → get_elem? (p ∷ ps) m ≡ some q
        → is_child_of i q ≡ true
        → is_zombie q.state ≡ false
    go zero q g c =
        let x : p ≡ q = cc in
        subst (λ r. is_zombie r.state ≡ false) x
          (here (subst (λ r. is_child_of i r ≡ true) (sym x) c))
    go (suc m) q g c = t.none_dead m q g c

skip-FirstZombie :
    (i : ℕ) (p : Proc) (ps : List Proc) (j : ℕ) (c : Proc)
    → (is_child_of i p ≡ true → is_zombie p.state ≡ false)
    → FirstZombie i ps j c
    → FirstZombie i (p ∷ ps) (suc j) c
skip-FirstZombie i p ps j c here t = record {
  found = t.found;
  child = t.child;
  dead = t.dead;
  first = go;
}
  where
    go :
        (m : ℕ) (q : Proc)
        → get_elem? (p ∷ ps) m ≡ some q
        → is_child_of i q ≡ true
        → is_zombie q.state ≡ true
        → suc j ≤ m
    go zero q g c d =
        let x : p ≡ q = cc in
        let y =
          subst (λ r. is_zombie r.state ≡ false) x
            (here (subst (λ r. is_child_of i r ≡ true) (sym x) c)) in
        absurd (cc)
    go (suc m) q g c d = let l = t.first m q g c d in omega arith

SomeChild-later : (i : ℕ) (p : Proc) (ps : List Proc) → SomeChild i ps → SomeChild i (p ∷ ps)
SomeChild-later i p ps (m, q, g, c) = (suc m, q, g, c)

at_zombie_later :
    (i from : ℕ) (kids : Bool) (p : Proc) (ps : List Proc) (j : ℕ) (c : Proc)
    → (is_child_of i p ≡ true → is_zombie p.state ≡ false)
    → FirstZombie i ps j c
    → Searched i from kids (p ∷ ps) (zombie_at (from + 1 + j) c)
at_zombie_later i from kids p ps j c here t =
    subst (λ n. Searched i from kids (p ∷ ps) (zombie_at n c)) (one_on from)
      (at_zombie (suc j) c (skip-FirstZombie i p ps j c here t))
  where
    one_on : (n : ℕ) → n + suc j ≡ n + 1 + j
    one_on n = omega arith

behind_child :
    (i from : ℕ) (kids : Bool) (p : Proc) (ps : List Proc) {s : Search}
    → is_child_of i p ≡ true
    → is_zombie p.state ≡ false
    → Searched i (from + 1) true ps s
    → Searched i from kids (p ∷ ps) s
behind_child i from kids p ps child alive (at_zombie j c t) =
    at_zombie_later i from kids p ps j c (λ _. alive) t
behind_child i from kids p ps child alive (at_end b t to back) =
    at_end b (skip-NoZombie i p ps (λ _. alive) t) (λ _. inr (0, p, refl, child))
      (λ _. back (inl refl))

behind_other :
    (i from : ℕ) (kids : Bool) (p : Proc) (ps : List Proc) {s : Search}
    → is_child_of i p ≡ false
    → Searched i (from + 1) kids ps s
    → Searched i from kids (p ∷ ps) s
behind_other i from kids p ps other (at_zombie j c t) =
    at_zombie_later i from kids p ps j c (λ e. absurd (cc)) t
behind_other i from kids p ps other (at_end b t to back) =
    at_end b (skip-NoZombie i p ps (λ e. absurd (cc)) t) (λ e. on (to e)) (λ e. back (off e))
  where
    on : (kids ≡ true) ⊎ SomeChild i ps → (kids ≡ true) ⊎ SomeChild i (p ∷ ps)
    on (inl x) = inl x
    on (inr x) = inr (SomeChild-later i p ps x)

    off : (kids ≡ true) ⊎ SomeChild i (p ∷ ps) → (kids ≡ true) ⊎ SomeChild i ps
    off (inl x) = inl x
    off (inr (zero, q, g, c)) =
        let x : p ≡ q = cc in let y = subst (λ r. is_child_of i r ≡ true) (sym x) c in absurd (cc)
    off (inr (suc m, q, g, c)) = inr (m, q, g, c)

pub search_children-Searched :
    (i from : ℕ) (kids : Bool) (ps : List Proc)
    → Searched i from kids ps (search_children i from kids ps)
unfolding search_children
search_children-Searched i from kids [] =
    at_end kids (record { none_dead = λ m q g. cc }) (λ e. inl e) (λ e. nobody e)
  where
    nobody : (kids ≡ true) ⊎ SomeChild i [] → kids ≡ true
    nobody (inl x) = x
    nobody (inr (m, q, g, c)) = absurd (cc)
search_children-Searched i from kids (p ∷ ps) = elim (Bool-cases (is_child_of i p)) [
  | inl e ↦ elim (Bool-cases (is_zombie p.state)) [
    | inl z ↦
        rw (e, search_children, z)
          (subst (λ n. Searched i from kids (p ∷ ps) (zombie_at n p)) (zero_on from)
            (at_zombie 0 p
              (record { found = refl; child = e; dead = z; first = λ m q g c d. omega arith })))
    | inr z ↦
        rw (e, search_children, z)
          (behind_child i from kids p ps e z (search_children-Searched i (from + 1) true ps))
  ]
  | inr e ↦
      rw (e, search_children)
        (behind_other i from kids p ps e (search_children-Searched i (from + 1) kids ps))
]
  where
    zero_on : (n : ℕ) → n + 0 ≡ n
    zero_on n = omega arith

-- A reaped child: an UNUSED entry of which only the table of files and the directory are left.
abbrev pub cleared : Proc → Proc
cleared c = record {
  state = unused;
  chan = 0;
  killed = false;
  xstate = 0;
  pid = 0;
  parent = none;
  sz = 0;
  pagetable = none;
  trapframe = none;
  ofile = c.ofile;
  cwd = c.cwd;
  name = [];
  queue = 0;
  ticks_in_slice = 0;
  enter_time = 0;
  ctime = 0;
  ttime = 0;
  rtime = 0;
  wtime = 0;
  stime = 0;
  first_run_time = 0;
  has_run = false;
}

-- The round of `kwait` by entry `i`: it reaps a zombie child, it could not copy the status of one,
-- it gives up or it goes to sleep.
pub data WaitResult (copied : Bool) (i : ℕ) (killed : Bool) (k : Kernel)
    : WaitEnd × Kernel → Type 0 where
  reaps :
      (j : ℕ) (c : Proc)
      → FirstZombie i k.procs j c
      → copied ≡ true
      → WaitResult copied i killed k (reaped c.pid, update_proc k j cleared)
  not_copied :
      (j : ℕ) (c : Proc)
      → FirstZombie i k.procs j c
      → copied ≡ false
      → WaitResult copied i killed k (copy_failed, k)
  gives_up :
      NoZombie i k.procs
      → (¬ SomeChild i k.procs) ⊎ (killed ≡ true)
      → WaitResult copied i killed k (no_child, k)
  waits_on :
      NoZombie i k.procs
      → SomeChild i k.procs
      → killed ≡ false
      → WaitResult copied i killed k (must_sleep, k)

-- A round of `kwait` by entry `i`. If a child is a zombie, the first such becomes an UNUSED entry
-- of which only the files are left, and its pid is returned, or the table is left alone and -1
-- returned if the status cannot be copied. If no child is one, -1 is returned if there is no child
-- at all or the caller is killed, and else the caller goes to sleep.
pub kwait-WaitResult :
    (copies : ℕ → Bool) (addr i : ℕ) (killed : Bool) (k : Kernel)
    → WaitResult (copies_to copies addr) i killed k (kwait copies addr i killed k)
unfolding kwait no_zombie reap freeproc
kwait-WaitResult copies addr i killed k =
    go (search_children i 0 false k.procs) refl (search_children-Searched i 0 false k.procs)
  where
    zero_left : (n : ℕ) → n ≡ 0 + n
    zero_left n = omega arith

    go :
        (s : Search)
        → search_children i 0 false k.procs ≡ s
        → Searched i 0 false k.procs s
        → WaitResult (copies_to copies addr) i killed k (kwait copies addr i killed k)
    go _ e (at_zombie j c t) = elim (Bool-cases (copies_to copies addr)) [
      | inl y ↦
          rw (kwait, e, y)
            (subst (λ n. WaitResult true i killed k (reaped c.pid, update_proc k n cleared))
              (zero_left j) (reaps j c t refl))
      | inr y ↦ rw (kwait, e, y) (not_copied j c t refl)
    ]
    go _ e (at_end true t to back) = elim (Bool-cases killed) [
      | inl y ↦ rw (kwait, e, y) (gives_up t (inr refl))
      | inr y ↦ rw (kwait, e, y) (waits_on t (child (to refl)) refl)
    ]
      where
        child : (false ≡ true) ⊎ SomeChild i k.procs → SomeChild i k.procs
        child (inl x) = absurd (cc)
        child (inr x) = x
    go _ e (at_end false t to back) =
        rw (kwait, e) (gives_up t (inl (λ x. let y = back (inr x) in absurd (cc))))
