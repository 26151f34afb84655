-- ===== src/Kernel/Lifecycle/Alloc.antt =====
-- What `allocproc` does to the table.
use ru_shell.Base.{
  Bool-cases, List, Option, [], arith, false, get_elem?, if◌then◌else◌, inl, inr, none, refl, some,
  subst, suc, sym, true, zero, ℕ, ◌+◌, ◌∷◌, ◌≡◌, ◌≤◌, ◌⊎◌,
}
use ru_shell.Kernel.Proc.{Kernel, Proc, TrapFrame, is_unused, update, update_proc, used}
use ru_shell.Kernel.Lifecycle.{allocpid, allocproc, find_unused, freeproc, init_proc}

-- Entry `i` is the first that is UNUSED.
pub record IsFree (ps : List Proc) (i : ℕ) (p : Proc) : Type 0 where
  pub found : get_elem? ps i ≡ some p
  pub free : is_unused p.state ≡ true
  pub first : (j : ℕ) (q : Proc) → get_elem? ps j ≡ some q → is_unused q.state ≡ true → i ≤ j

abbrev pub Frees : List Proc → Option (ℕ × Proc) → Type 0
Frees ps (some (i, p)) = IsFree ps i p
Frees ps none = (j : ℕ) (q : Proc) → get_elem? ps j ≡ some q → is_unused q.state ≡ false

Frees-skip :
    (p : Proc) (ps : List Proc) (r : Option (ℕ × Proc))
    → is_unused p.state ≡ false
    → Frees ps r
    → Frees (p ∷ ps) (elim r [ none ↦ none | some (i, q) ↦ some (i + 1, q) ])
Frees-skip p ps none e t = go
  where
    go : (j : ℕ) (q : Proc) → get_elem? (p ∷ ps) j ≡ some q → is_unused q.state ≡ false
    go zero q g = let x : p ≡ q = cc in subst (λ r. is_unused r.state ≡ false) x e
    go (suc j) q g = t j q g
Frees-skip p ps (some (i, r)) e t = record {
  found = let x : i + 1 ≡ suc i = omega arith in rw x t.found;
  free = t.free;
  first = go;
}
  where
    go : (j : ℕ) (q : Proc) → get_elem? (p ∷ ps) j ≡ some q → is_unused q.state ≡ true → i + 1 ≤ j
    go zero q g u =
        let x : p ≡ q = cc in absurd (clash (subst (λ s. is_unused s.state ≡ true) (sym x) u))
      where
        clash : ¬ (is_unused p.state ≡ true)
        clash u = cc
    go (suc j) q g u = let l = t.first j q g u in omega arith

pub find_unused-Frees : (ps : List Proc) → Frees ps (find_unused ps)
unfolding find_unused
find_unused-Frees [] = λ j q g. cc
find_unused-Frees (p ∷ ps) = elim (Bool-cases (is_unused p.state)) [
  | inl e ↦ rw (e, find_unused) (record { found = refl; free = e; first = λ j q g u. omega arith })
  | inr e ↦ rw (e, find_unused) (Frees-skip p ps _ e (find_unused-Frees ps))
]

-- What a new process looks like: USED, in the top queue, with a fresh pid and its times at 0. It
-- has what the entry had before but for that.
abbrev pub new_proc : ℕ → ℕ → TrapFrame → ℕ → Proc → Proc
new_proc pid now tf pt p = record p {
  pid = pid;
  state = used;
  trapframe = some tf;
  pagetable = some pt;
  queue = 0;
  ticks_in_slice = 0;
  enter_time = now;
  ctime = now;
  ttime = 0;
  rtime = 0;
  wtime = 0;
  stime = 0;
  first_run_time = 0;
  has_run = false;
}

-- A full table, or an entry that is given away, or one that is free again since memory ran out.
pub data AllocResult (tf : Option TrapFrame) (pt : Option ℕ) (k : Kernel)
    : Option ℕ × Kernel → Type 0 where
  full :
      ((j : ℕ) (q : Proc) → get_elem? k.procs j ≡ some q → is_unused q.state ≡ false)
      → AllocResult tf pt k (none, k)
  given :
      (i : ℕ) (p : Proc) (f : TrapFrame) (t : ℕ)
      → IsFree k.procs i p
      → tf ≡ some f
      → pt ≡ some t
      → AllocResult tf pt k (
        some i,
        record k {
          procs = update i (λ _. new_proc k.nextpid k.ticks f t p) k.procs;
          nextpid = k.nextpid + 1;
        },
      )
  failed :
      (i : ℕ) (p q : Proc)
      → IsFree k.procs i p
      → (tf ≡ none) ⊎ (pt ≡ none)
      → q ≡ freeproc q
      → AllocResult tf pt k
          (none, record k { procs = update i (λ _. q) k.procs; nextpid = k.nextpid + 1 })

pub freeproc_idem : (p : Proc) → freeproc p ≡ freeproc (freeproc p)
unfolding freeproc
freeproc_idem p = refl

init_proc-result :
    (tf : Option TrapFrame) (pt : Option ℕ) (k : Kernel) (i : ℕ) (p : Proc)
    → IsFree k.procs i p
    → AllocResult tf pt k (
        let (made, q) = init_proc k.nextpid k.ticks tf pt p in
        (
          if made then some i else none,
          record k { procs = update i (λ _. q) k.procs; nextpid = k.nextpid + 1 },
        ))
unfolding init_proc
init_proc-result none pt k i p f =
    let q = record p { pid = k.nextpid; state = used; trapframe = none } in
    failed i p (freeproc q) f (inl refl) (freeproc_idem q)
init_proc-result (some tf) none k i p f =
    let q = record p { pid = k.nextpid; state = used; trapframe = some tf; pagetable = none } in
    failed i p (freeproc q) f (inr refl) (freeproc_idem q)
init_proc-result (some tf) (some pt) k i p f = given i p tf pt f refl refl

-- `allocproc` gives NULL and changes nothing if no entry is UNUSED. Else it takes the first such
-- entry and the next pid: with memory the entry becomes a new process, and its index is returned;
-- without, NULL is returned and the entry is as `freeproc` leaves it.
pub allocproc-AllocResult :
    (tf : Option TrapFrame) (pt : Option ℕ) (k : Kernel) → AllocResult tf pt k (allocproc tf pt k)
unfolding allocproc
allocproc-AllocResult tf pt k = go (find_unused k.procs) (find_unused-Frees k.procs)
  where
    go :
        (r : Option (ℕ × Proc))
        → Frees k.procs r
        → AllocResult tf pt k (elim r [
          | none ↦ (none, k)
          | some (i, p) ↦
              let (pid, k') = allocpid k in
              let (made, p') = init_proc pid k.ticks tf pt p in
              (if made then some i else none, update_proc k' i (λ _. p'))
        ])
    go none t = full t
    go (some (i, p)) t = init_proc-result tf pt k i p t
