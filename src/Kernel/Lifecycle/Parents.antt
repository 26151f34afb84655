-- ===== src/Kernel/Lifecycle/Parents.antt =====
-- What reparent and wakeup of xv6/kernel/proc.c do to the parents of processes.
use ru_shell.Kernel.Lifecycle.{is_child_of, reparent_at, reparent_from}
use ru_shell.Kernel.Proc.Table.{get_elem?-map, get_elem?-map-some, get_elem?-update, update-stays}
use ru_shell.Base.{
  ==_iff, Bool-cases, Option, Option-cases, ap, arith, false, get_elem?, if◌then◌else◌, inl, inr,
  leb, ltb, opt_is, refl, some, subst, suc, sym, true, zero, ℕ, ◌&&◌, ◌+◌, ◌==◌, ◌∙◌, ◌≡◌, ◌≢◌,
}
use ru_shell.Kernel.Proc.{Kernel, Layout, Policy, Proc, update, update_proc}
use ru_shell.Kernel.Sleep.{rouse, wake, wakeup}

-- Where the parent of an entry goes when `i` exits: to `init` if it was `i`.
abbrev pub heir : ℕ → ℕ → Option ℕ → Option ℕ
heir i init o = if opt_is o i then some init else o

-- From `k` to `k'` no entry comes or goes, and entry `m` with parent `o` gets the parent `f m o`.
pub record Parents (f : ℕ → Option ℕ → Option ℕ) (k k' : Kernel) : Type 0 where
  pub init : k'.initproc ≡ k.initproc
  pub stays :
      (m : ℕ) (p : Proc)
      → get_elem? k.procs m ≡ some p
      → (q : Proc) × (get_elem? k'.procs m ≡ some q)
  pub was :
      (m : ℕ) (q : Proc)
      → get_elem? k'.procs m ≡ some q
      → (p : Proc) × (get_elem? k.procs m ≡ some p) × (q.parent ≡ f m p.parent)

abbrev pub kept : ℕ → Option ℕ → Option ℕ
kept m o = o

abbrev one_heir : ℕ → ℕ → ℕ → ℕ → Option ℕ → Option ℕ
one_heir i init j m o = if j == m then heir i init o else o

abbrev pub heirs : ℕ → ℕ → ℕ → ℕ → ℕ → Option ℕ → Option ℕ
heirs i init n j m o = if leb j m && ltb m (j + n) then heir i init o else o

pub Parents-trans :
    (f g h : ℕ → Option ℕ → Option ℕ) (k k' k'' : Kernel)
    → ((m : ℕ) (o : Option ℕ) → g m (f m o) ≡ h m o)
    → Parents f k k'
    → Parents g k' k''
    → Parents h k k''
Parents-trans f g h k k' k'' e a b = record {
  init = b.init ∙ a.init;
  stays = λ m p x. let (q, y) = a.stays m p x in b.stays m q y;
  was = λ m q x.
      let (p, y, c) = b.was m q x in
      let (r, z, d) = a.was m p y in (r, z, c ∙ ap (g m) d ∙ e m r.parent);
}

wake-parent : (pol : Policy) (now chan : ℕ) (p : Proc) → (wake pol now chan p).parent ≡ p.parent
unfolding wake rouse
wake-parent pol now chan p = ground arith

heir_of : (i init : ℕ) (o : Option ℕ) → opt_is o i ≡ true → heir i init o ≡ some init
heir_of i init o e = rw e refl

heir_not : (i init : ℕ) (o : Option ℕ) → opt_is o i ≡ false → heir i init o ≡ o
heir_not i init o e = rw e refl

pub wakeup-Parents : (pol : Policy) (chan : ℕ) (k : Kernel) → Parents kept k (wakeup pol chan k)
unfolding wakeup
wakeup-Parents pol chan k = record {
  init = refl;
  stays =
      λ m p x. (wake pol k.ticks chan p, get_elem?-map-some k.procs m (wake pol k.ticks chan) x);
  was = λ m q x.
      let (p, y, e) = get_elem?-map k.procs m (wake pol k.ticks chan) x in
      (p, y, ap (λ r. r.parent) e ∙ wake-parent pol k.ticks chan p);
}

-- A change of entry `j` whose new parent is `g` of the old.
pub update-Parents :
    (k : Kernel) (j : ℕ) (f : Proc → Proc) (g : Option ℕ → Option ℕ)
    → ((p : Proc) → get_elem? k.procs j ≡ some p → (f p).parent ≡ g p.parent)
    → Parents (λ m o. if j == m then g o else o) k (update_proc k j f)
update-Parents k j f g e = record {
  init = refl;
  stays = λ m p x. update-stays k.procs j m f x;
  was = was;
}
  where
    was :
        (m : ℕ) (q : Proc)
        → get_elem? (update j f k.procs) m ≡ some q
        → (p : Proc) × (get_elem? k.procs m ≡ some p)
          × (q.parent ≡ (if j == m then g p.parent else p.parent))
    was m q x =
        let (p, y, cases) = get_elem?-update k.procs j m f x in
        (
          p,
          y,
          elim cases [
            | inl (a, z) ↦
                rw ((==_iff j m).1 a)
                  (ap (λ r. r.parent) z ∙ e p (subst (λ n. get_elem? k.procs n ≡ some p) (sym a) y))
            | inr (a, z) ↦ rw (apart a) (ap (λ r. r.parent) z)
          ],
        )
      where
        apart : j ≢ m → (j == m) ≡ false
        apart n = ground arith

reparent_at-Parents :
    (pol : Policy) (l : Layout) (i j : ℕ) (k : Kernel)
    → Parents (one_heir i k.initproc j) k (reparent_at pol l i j k)
unfolding reparent_at
reparent_at-Parents pol l i j k = elim (Option-cases (get_elem? k.procs j)) [
  | inl e ↦ rw (e, reparent_at) (untouched (λ p y. absurd (cc)))
  | inr (p, e) ↦ elim (Bool-cases (is_child_of i p)) [
    | inl y ↦
        rw (e, reparent_at, y)
          (Parents-trans _ kept (one_heir i k.initproc j) k _ _ (λ m o. refl) (adopted p e y)
            (wakeup-Parents pol (l.proc_addr k.initproc) (update_proc k j adopts)))
    | inr y ↦
        rw (e, reparent_at, y)
          (untouched (λ q z.
            let x : p ≡ q = cc in
            subst (λ r. heir i k.initproc r.parent ≡ r.parent) x
              (heir_not i k.initproc p.parent y)))
  ]
]
  where
    adopts : Proc → Proc
    adopts q = record q { parent = some k.initproc }

    adopted :
        (p : Proc)
        → get_elem? k.procs j ≡ some p
        → is_child_of i p ≡ true
        → Parents (one_heir i k.initproc j) k (update_proc k j adopts)
    adopted p e y = update-Parents k j adopts (heir i k.initproc) (λ q z.
        let x : p ≡ q = cc in
        sym (
          subst (λ r. heir i k.initproc r.parent ≡ some k.initproc) x
            (heir_of i k.initproc p.parent y)))

    untouched :
        ((p : Proc) → get_elem? k.procs j ≡ some p → heir i k.initproc p.parent ≡ p.parent)
        → Parents (one_heir i k.initproc j) k k
    untouched e = record { init = refl; stays = λ m p x. (p, x); was = λ m q x. (q, x, same m q x) }
      where
        same :
            (m : ℕ) (q : Proc)
            → get_elem? k.procs m ≡ some q
            → q.parent ≡ (if j == m then heir i k.initproc q.parent else q.parent)
        same m q x = elim (Bool-cases (j == m)) [
          | inl a ↦
              rw a
                (sym (e q (subst (λ n. get_elem? k.procs n ≡ some q) (sym ((==_iff j m).0 a)) x)))
          | inr a ↦ rw a refl
        ]

pub reparent_from-Parents :
    (pol : Policy) (l : Layout) (i n j : ℕ) (k : Kernel)
    → Parents (heirs i k.initproc n j) k (reparent_from pol l i n j k)
unfolding reparent_from
reparent_from-Parents pol l i zero j k = record {
  init = refl;
  stays = λ m p x. (p, x);
  was = λ m q x. (q, x, sym (nobody m q.parent));
}
  where
    nobody : (m : ℕ) (o : Option ℕ) → heirs i k.initproc 0 j m o ≡ o
    nobody m o = ground arith
reparent_from-Parents pol l i (suc n) j k =
    let k' = reparent_at pol l i j k in
    let a = reparent_at-Parents pol l i j k in
    Parents-trans (one_heir i k.initproc j) (heirs i k.initproc n (j + 1))
      (heirs i k.initproc (suc n) j) k k' _ (λ m o. both m o) a
      (subst (λ init. Parents (heirs i init n (j + 1)) k' (reparent_from pol l i n (j + 1) k'))
        a.init (reparent_from-Parents pol l i n (j + 1) k'))
  where
    both :
        (m : ℕ) (o : Option ℕ)
        → heirs i k.initproc n (j + 1) m (one_heir i k.initproc j m o)
          ≡ heirs i k.initproc (suc n) j m o
    both m o = ground arith
