-- ===== src/Kernel/Sleep/Kill.antt =====
-- What `kkill` changes.
use ru_shell.Base.{
  ==_iff, Bool-cases, List, Option, [], ap, arith, false, get_elem?, if◌then◌else◌, inl, inr, none,
  refl, some, subst, suc, true, zero, ℕ, ◌==◌, ◌∙◌, ◌∷◌, ◌≡◌, ◌≢◌, ◌≤◌,
}
use ru_shell.Kernel.Proc.{
  Kernel, Policy, Proc, ProcState, is_mlfq, is_sleeping, runnable, sleeping, update, update_proc,
}
use ru_shell.Kernel.Sleep.{kill_first, kkill, rouse}

-- The victim: marked as killed, and awake.
abbrev pub killed_one : Policy → ℕ → Proc → Proc
killed_one pol now p = rouse pol now (record p { killed = true })

-- A process before and after the kill: one that sleeps is runnable from now on, with a new slice
-- under SCHED_MLFQ; nothing else of any is changed but the mark.
pub data Killed (pol : Policy) (now : ℕ) (p : Proc) : Proc → Type 0 where
  asleep :
      p.state ≡ sleeping
      → Killed pol now p (record p {
        killed = true;
        state = runnable;
        enter_time = if is_mlfq pol then now else p.enter_time;
        ticks_in_slice = if is_mlfq pol then 0 else p.ticks_in_slice;
      })
  awake : p.state ≢ sleeping → Killed pol now p (record p { killed = true })

is_sleeping_iff :
    (s : ProcState) → (is_sleeping s ≡ true → s ≡ sleeping) × (is_sleeping s ≡ false → s ≢ sleeping)
is_sleeping_iff s = (λ e. ground (arith, e), λ e f. absurd (cc (e, f)))

killed_one-Killed : (pol : Policy) (now : ℕ) (p : Proc) → Killed pol now p (killed_one pol now p)
unfolding rouse
killed_one-Killed pol now p = elim (Bool-cases (is_sleeping p.state)) [
  | inl e ↦ rw e (asleep ((is_sleeping_iff p.state).0 e))
  | inr e ↦ rw e (awake ((is_sleeping_iff p.state).1 e))
]

-- Entry `i` is the first with the pid, and the only one that changes.
pub record KillsAt (pol : Policy) (now pid : ℕ) (ps qs : List Proc) (i : ℕ) (p : Proc)
    : Type 0 where
  pub found : get_elem? ps i ≡ some p
  pub has_pid : p.pid ≡ pid
  pub first : (j : ℕ) (q : Proc) → get_elem? ps j ≡ some q → q.pid ≡ pid → i ≤ j
  pub changed : qs ≡ update i (killed_one pol now) ps
  pub victim : Killed pol now p (killed_one pol now p)

abbrev pub Kills : Policy → ℕ → ℕ → List Proc → Option (List Proc) → Type 0
Kills pol now pid ps (some qs) = (i : ℕ) × (p : Proc) × KillsAt pol now pid ps qs i p
Kills pol now pid ps none = (j : ℕ) (q : Proc) → get_elem? ps j ≡ some q → q.pid ≢ pid

no_pid-cons :
    (pid : ℕ) (p : Proc) (ps : List Proc)
    → p.pid ≢ pid
    → ((j : ℕ) (q : Proc) → get_elem? ps j ≡ some q → q.pid ≢ pid)
    → (j : ℕ) (q : Proc) → get_elem? (p ∷ ps) j ≡ some q
    → q.pid ≢ pid
no_pid-cons pid p ps h t zero q g = let x : p ≡ q = cc in subst (λ r. r.pid ≢ pid) x h
no_pid-cons pid p ps h t (suc j) q g = t j q g

Kills-skip :
    (pol : Policy) (now pid : ℕ) (p : Proc) (ps : List Proc) (r : Option (List Proc))
    → p.pid ≢ pid
    → Kills pol now pid ps r
    → Kills pol now pid (p ∷ ps) (elim r [ none ↦ none | some qs ↦ some (p ∷ qs) ])
Kills-skip pol now pid p ps none h t = no_pid-cons pid p ps h t
Kills-skip pol now pid p ps (some qs) h (i, q, t) = (
  suc i,
  q,
  record {
    found = t.found;
    has_pid = t.has_pid;
    first = go;
    changed = ap (λ l. p ∷ l) t.changed;
    victim = t.victim;
  },
)
  where
    go : (j : ℕ) (r : Proc) → get_elem? (p ∷ ps) j ≡ some r → r.pid ≡ pid → suc i ≤ j
    go zero r g e = let x : p ≡ r = cc in absurd (h (ap (λ s. s.pid) x ∙ e))
    go (suc j) r g e = let l = t.first j r g e in omega arith

pub kill_first-Kills :
    (pol : Policy) (now pid : ℕ) (ps : List Proc) → Kills pol now pid ps (kill_first pol now pid ps)
unfolding kill_first
kill_first-Kills pol now pid [] = λ j q g. cc
kill_first-Kills pol now pid (p ∷ ps) = elim (Bool-cases (p.pid == pid)) [
  | inl e ↦
      rw (e, kill_first)
        (
          0,
          p,
          record {
            found = refl;
            has_pid = (==_iff p.pid pid).0 e;
            first = λ j q g x. omega arith;
            changed = refl;
            victim = killed_one-Killed pol now p;
          },
        )
  | inr e ↦
      rw (e, kill_first)
        (Kills-skip pol now pid p ps _ (apart p.pid e) (kill_first-Kills pol now pid ps))
]
  where
    apart : (n : ℕ) → (n == pid) ≡ false → n ≢ pid
    apart n x = ground arith

-- What `kkill` makes of the kernel.
abbrev pub KillResult : Policy → ℕ → Kernel → Option Kernel → Type 0
KillResult pol pid k (some k') =
    (i : ℕ) × (p : Proc) × KillsAt pol k.ticks pid k.procs k'.procs i p
    × (k' ≡ update_proc k i (killed_one pol k.ticks))
KillResult pol pid k none = (j : ℕ) (q : Proc) → get_elem? k.procs j ≡ some q → q.pid ≢ pid

-- `kkill` returns -1 exactly if no entry has the pid. Else it marks the first that has it as killed,
-- makes that one runnable if it sleeps, and changes nothing else in the kernel but, under
-- SCHED_MLFQ, the slice and the place in the queue of one that it makes runnable.
pub kkill-KillResult :
    (pol : Policy) (pid : ℕ) (k : Kernel) → KillResult pol pid k (kkill pol pid k)
unfolding kkill
kkill-KillResult pol pid k =
    go (kill_first pol k.ticks pid k.procs) (kill_first-Kills pol k.ticks pid k.procs)
  where
    go :
        (r : Option (List Proc))
        → Kills pol k.ticks pid k.procs r
        → KillResult pol pid k (elim r [ none ↦ none | some ps ↦ some (record k { procs = ps }) ])
    go none t = t
    go (some qs) (i, p, t) = (i, p, t, ap (λ l. record k { procs = l }) t.changed)
