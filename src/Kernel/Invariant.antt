-- ===== src/Kernel/Invariant.antt =====
-- The invariant of the process table of xv6/kernel/proc.c, and how it is kept by a change of one
-- entry or of all.
use ru_shell.Base.{
  Bool-cases, ap, arith, false, get_elem?, inl, inr, map, refl, some, subst, sym, true, ℕ, ◌<◌, ◌∙◌,
  ◌≡◌, ◌≢◌, ◌≤◌, ◌⊎◌,
}
use ru_shell.Kernel.Proc.{Kernel, Proc, is_sleeping, is_unused, update, update_proc}
use ru_shell.Kernel.Proc.Table.{get_elem?-map, get_elem?-update}

-- Under the `nextpid` `n`: an UNUSED entry has pid 0 and any other a pid that was handed out; a
-- sleeper waits on a channel; and the queue is one of four.
pub record IsSound (n : ℕ) (p : Proc) : Type 0 where
  pub free_pid : is_unused p.state ≡ true → p.pid ≡ 0
  pub live_pid : is_unused p.state ≡ false → (0 < p.pid) × (p.pid < n)
  pub asleep : is_sleeping p.state ≡ true → p.chan ≢ 0
  pub queued : p.queue < 4

-- Each entry is sound, no two that are in use share a pid, and `nextpid` is above 0.
pub record Inv (k : Kernel) : Type 0 where
  pub positive : 0 < k.nextpid
  pub each : (i : ℕ) (p : Proc) → get_elem? k.procs i ≡ some p → IsSound k.nextpid p
  pub unique :
      (i j : ℕ) (p q : Proc)
      → get_elem? k.procs i ≡ some p
      → get_elem? k.procs j ≡ some q
      → is_unused p.state ≡ false
      → p.pid ≡ q.pid
      → i ≡ j

-- A change that keeps the pid, and whether the entry is in use.
abbrev pub Same : Proc → Proc → Type 0
Same p q = (q.pid ≡ p.pid) × (is_unused q.state ≡ is_unused p.state)

-- A change of a process that is no matter of pids: it is sound after it if it was before.
pub record Keeps (p q : Proc) : Type 0 where
  pub same : Same p q
  pub asleep : is_sleeping q.state ≡ true → (is_sleeping p.state ≡ true → p.chan ≢ 0) → q.chan ≢ 0
  pub queued : p.queue < 4 → q.queue < 4

pub Keeps-IsSound : {n : ℕ} (p q : Proc) → Keeps p q → IsSound n p → IsSound n q
Keeps-IsSound p q k s = record {
  free_pid = λ e. k.same.0 ∙ s.free_pid (sym k.same.1 ∙ e);
  live_pid = λ e.
      let (a, b) = s.live_pid (sym k.same.1 ∙ e) in
      (omega (arith, k.same.0), omega (arith, k.same.0));
  asleep = λ e. k.asleep e s.asleep;
  queued = k.queued s.queued;
}

pub map-Inv :
    (k : Kernel) (f : Proc → Proc)
    → ((p : Proc) → Keeps p (f p))
    → Inv k
    → Inv (record k { procs = map f k.procs })
map-Inv k f keeps v = record {
  positive = v.positive;
  each = λ i q h.
      let (p, g, e) = get_elem?-map k.procs i f h in
      subst (IsSound k.nextpid) (sym e) (Keeps-IsSound p (f p) (keeps p) (v.each i p g));
  unique = λ i j q q' h h' live e.
      let (p, g, x) = get_elem?-map k.procs i f h in
      let (p', g', x') = get_elem?-map k.procs j f h' in
      v.unique i j p p' g g' (sym (keeps p).same.1 ∙ ap (λ r. is_unused r.state) (sym x) ∙ live) (
        sym (keeps p).same.0
        ∙ ap (λ r. r.pid) (sym x)
        ∙ e
        ∙ ap (λ r. r.pid) x'
        ∙ (keeps p').same.0);
}

pub update-Inv :
    (k : Kernel) (i : ℕ) (f : Proc → Proc)
    → ((p : Proc) → get_elem? k.procs i ≡ some p → Keeps p (f p))
    → Inv k
    → Inv (update_proc k i f)
update-Inv k i f keeps v = record { positive = v.positive; each = each; unique = unique }
  where
    at : {j : ℕ} {p : Proc} → i ≡ j → get_elem? k.procs j ≡ some p → get_elem? k.procs i ≡ some p
    at {p = p} e g = subst (λ m. get_elem? k.procs m ≡ some p) (sym e) g

    each : (j : ℕ) (q : Proc) → get_elem? (update i f k.procs) j ≡ some q → IsSound k.nextpid q
    each j q h =
        let (p, g, cases) = get_elem?-update k.procs i j f h in
        elim cases [
          | inl (e, x) ↦
              subst (IsSound k.nextpid) (sym x)
                (Keeps-IsSound p (f p) (keeps p (at e g)) (v.each j p g))
          | inr (e, x) ↦ subst (IsSound k.nextpid) (sym x) (v.each j p g)
        ]

    was :
        (j : ℕ) (q : Proc)
        → get_elem? (update i f k.procs) j ≡ some q
        → (p : Proc) × (get_elem? k.procs j ≡ some p) × Same p q
    was j q h =
        let (p, g, cases) = get_elem?-update k.procs i j f h in
        (
          p,
          g,
          elim cases [
            | inl (e, x) ↦ subst (Same p) (sym x) (keeps p (at e g)).same
            | inr (e, x) ↦ subst (Same p) (sym x) (refl, refl)
          ],
        )

    unique :
        (j j' : ℕ) (q q' : Proc)
        → get_elem? (update i f k.procs) j ≡ some q
        → get_elem? (update i f k.procs) j' ≡ some q'
        → is_unused q.state ≡ false
        → q.pid ≡ q'.pid
        → j ≡ j'
    unique j j' q q' h h' live e =
        let (p, g, x) = was j q h in
        let (p', g', x') = was j' q' h' in
        v.unique j j' p p' g g' (sym x.1 ∙ live) (sym x.0 ∙ e ∙ x'.0)

IsSound-mono : {n m : ℕ} (p : Proc) → n ≤ m → IsSound n p → IsSound m p
IsSound-mono p h s = record {
  free_pid = s.free_pid;
  live_pid = λ e. let (a, b) = s.live_pid e in (a, omega arith);
  asleep = s.asleep;
  queued = s.queued;
}

-- A pid above 0 belongs to an entry in use.
live_of_pid : {n : ℕ} (p : Proc) → IsSound n p → 0 < p.pid → is_unused p.state ≡ false
live_of_pid p s h = elim (Bool-cases (is_unused p.state)) [
  | inl e ↦ absurd (omega (arith, s.free_pid e))
  | inr e ↦ e
]

true_ne_false : ¬ (true ≡ false)
true_ne_false e = cc

-- An entry written anew, free or with a pid that no entry has had.
pub replace-Inv :
    (k : Kernel) (i n : ℕ) (f : Proc → Proc)
    → k.nextpid ≤ n
    → ((p : Proc) → get_elem? k.procs i ≡ some p → IsSound k.nextpid p → IsSound n (f p))
    → ((p : Proc)
        → get_elem? k.procs i ≡ some p
        → (is_unused (f p).state ≡ true) ⊎ (k.nextpid ≤ (f p).pid))
    → Inv k
    → Inv (record k { procs = update i f k.procs; nextpid = n })
replace-Inv k i n f le sound fresh v = record { positive = positive; each = each; unique = unique }
  where
    at : {j : ℕ} {p : Proc} → i ≡ j → get_elem? k.procs j ≡ some p → get_elem? k.procs i ≡ some p
    at {p = p} e g = subst (λ m. get_elem? k.procs m ≡ some p) (sym e) g

    positive : 0 < n
    positive = omega (arith, v.positive)

    each : (j : ℕ) (q : Proc) → get_elem? (update i f k.procs) j ≡ some q → IsSound n q
    each j q h =
        let (p, g, cases) = get_elem?-update k.procs i j f h in
        elim cases [
          | inl (e, x) ↦ subst (IsSound n) (sym x) (sound p (at e g) (v.each j p g))
          | inr (e, x) ↦ subst (IsSound n) (sym x) (IsSound-mono p le (v.each j p g))
        ]

    -- A changed entry in use has a pid of its own; any other stood there before.
    entry :
        (j : ℕ) (q : Proc)
        → get_elem? (update i f k.procs) j ≡ some q
        → ((i ≡ j) × (is_unused q.state ≡ false → k.nextpid ≤ q.pid))
          ⊎ ((i ≢ j) × (get_elem? k.procs j ≡ some q))
    entry j q h =
        let (p, g, cases) = get_elem?-update k.procs i j f h in
        elim cases [
          | inl (e, x) ↦ inl (e, λ live. own p q (fresh p (at e g)) x live)
          | inr (e, x) ↦ inr (e, subst (λ r. get_elem? k.procs j ≡ some r) (sym x) g)
        ]
      where
        own :
            (p q : Proc)
            → (is_unused (f p).state ≡ true) ⊎ (k.nextpid ≤ (f p).pid)
            → q ≡ f p
            → is_unused q.state ≡ false
            → k.nextpid ≤ q.pid
        own p q (inl u) x live =
            absurd (true_ne_false (sym u ∙ ap (λ r. is_unused r.state) (sym x) ∙ live))
        own p q (inr l) x live = subst (λ r. k.nextpid ≤ r.pid) (sym x) l

    unique :
        (j j' : ℕ) (q q' : Proc)
        → get_elem? (update i f k.procs) j ≡ some q
        → get_elem? (update i f k.procs) j' ≡ some q'
        → is_unused q.state ≡ false
        → q.pid ≡ q'.pid
        → j ≡ j'
    unique j j' q q' h h' live e =
        let pos = ((each j q h).live_pid live).0 in
        let live' = live_of_pid q' (each j' q' h') (omega arith) in
        decide (entry j q h) (entry j' q' h') live'
      where
        decide :
            ((i ≡ j) × (is_unused q.state ≡ false → k.nextpid ≤ q.pid))
              ⊎ ((i ≢ j) × (get_elem? k.procs j ≡ some q))
            → ((i ≡ j') × (is_unused q'.state ≡ false → k.nextpid ≤ q'.pid))
              ⊎ ((i ≢ j') × (get_elem? k.procs j' ≡ some q'))
            → is_unused q'.state ≡ false
            → j ≡ j'
        decide (inl (a, x)) (inl (b, y)) live' = omega arith
        decide (inl (a, x)) (inr (b, y)) live' =
            absurd (omega (arith, x live, (v.each j' q' y).live_pid live'))
        decide (inr (a, x)) (inl (b, y)) live' =
            absurd (omega (arith, y live', (v.each j q x).live_pid live))
        decide (inr (a, x)) (inr (b, y)) live' = v.unique j j' q q' x y live e
