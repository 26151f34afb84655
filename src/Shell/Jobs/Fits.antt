-- ===== src/Shell/Jobs/Fits.antt =====
-- The calls of c-shell/src/jobs.c, the bounds of its tables, and that they hold when a child ends.
use ru_shell.Base.{
  List, Option, Option-cases, [], arith, false, inl, inr, length, length-append,
  length-update_first, none, refl, some, subst, sym, ℕ, ◌++◌, ◌+◌, ◌<◌, ◌∙◌, ◌∷◌, ◌≡◌, ◌≤◌,
}
use ru_shell.Shell.Lexer.{Bytes}
use ru_shell.Shell.Jobs.Reap.{
  Posted, Reaped, dropped, job, kept, length-FirstChanged, overflows, reap_child-Reaped, silent,
  untracked,
}
use ru_shell.Shell.Jobs.{
  Jobs, WaitStatus, flush_pending_bg_messages, group_add, group_add_member, group_remove, is_job,
  is_member, job_add, job_add_member_bg, mark_group_running, mark_group_stopped, mark_proc_exited,
  max_jobs, max_pending, max_procs, reap_child, retire_job, sigchld_handler,
}

-- A call of one of the functions that change the tables.
pub data JobEvent : Type 0 where
  adds_job : ℕ → Bytes → JobEvent
  adds_job_member : Option ℕ → ℕ → JobEvent
  adds_group : ℕ → Option Bytes → JobEvent
  adds_member : ℕ → ℕ → Bytes → JobEvent
  sigchld : List (ℕ × WaitStatus) → JobEvent
  flushes : JobEvent
  stops : ℕ → JobEvent
  continues : ℕ → JobEvent
  removes : ℕ → JobEvent

-- `none` is the copy out of bounds.
unfoldable pub job_step : JobEvent → Jobs → Option Jobs
unfolding job_add job_add_member_bg group_add group_add_member sigchld_handler
    flush_pending_bg_messages mark_group_stopped mark_group_running group_remove
job_step (adds_job pid name) t = some (job_add pid name t).1
job_step (adds_job_member id pid) t = some (job_add_member_bg id pid t)
job_step (adds_group pgid name) t = some (group_add pgid name t)
job_step (adds_member pgid pid name) t = some (group_add_member pgid pid name t)
job_step (sigchld cs) t = sigchld_handler cs t
job_step flushes t = some (flush_pending_bg_messages t).1
job_step (stops pgid) t = some (mark_group_stopped pgid t).1
job_step (continues pgid) t = some (mark_group_running pgid t)
job_step (removes pgid) t = some (group_remove pgid t)

-- No table is longer than its array, and the next number is one above the groups that there have
-- been, so it is never out of range.
pub record Fits (t : Jobs) : Type 0 where
  pub jobs_fit : length t.jobs ≤ max_jobs
  pub groups_fit : length t.groups ≤ max_jobs
  pub procs_fit : length t.procs ≤ max_procs
  pub pending_fit : length t.pending_msgs ≤ max_pending
  pub numbers : t.next_job_number ≡ length t.groups + 1

-- Changes inside the entries.
pub same_sizes :
    (t t' : Jobs)
    → length t'.jobs ≡ length t.jobs
    → length t'.groups ≡ length t.groups
    → length t'.procs ≡ length t.procs
    → length t'.pending_msgs ≡ length t.pending_msgs
    → t'.next_job_number ≡ t.next_job_number
    → Fits t
    → Fits t'
same_sizes t t' a b c d e f = record {
  jobs_fit = omega (arith, a, f.jobs_fit);
  groups_fit = omega (arith, b, f.groups_fit);
  procs_fit = omega (arith, c, f.procs_fit);
  pending_fit = omega (arith, d, f.pending_fit);
  numbers = omega (arith, b, e, f.numbers);
}

mark_proc_exited-Fits : (pid : ℕ) (t : Jobs) → Fits t → Fits (mark_proc_exited pid t)
unfolding mark_proc_exited
mark_proc_exited-Fits pid t f =
    same_sizes t (mark_proc_exited pid t) refl refl
      (length-update_first (is_member pid) (λ m. record m { active = false }) t.procs) refl refl f

retire_job-Fits : (pid : ℕ) (t : Jobs) → Fits t → Fits (retire_job pid t)
unfolding retire_job
retire_job-Fits pid t f =
    same_sizes t (retire_job pid t)
      (length-update_first (is_job pid) (λ j. record j { active = false }) t.jobs) refl refl refl
      refl f

-- A text more, while there is room.
one_more_msg :
    (text : Bytes) (t : Jobs)
    → length t.pending_msgs < max_pending
    → Fits t
    → Fits (record t { pending_msgs = t.pending_msgs ++ (text ∷ []) })
one_more_msg text t l f = record {
  jobs_fit = f.jobs_fit;
  groups_fit = f.groups_fit;
  procs_fit = f.procs_fit;
  pending_fit = omega (arith, length-append t.pending_msgs (text ∷ []));
  numbers = f.numbers;
}

Posted-Fits :
    (text : Bytes) (t : Jobs) {o : Option Jobs} (t' : Jobs)
    → Posted text t o
    → o ≡ some t'
    → Fits t
    → Fits t'
Posted-Fits text t t' (silent _) e f = let y : t ≡ t' = cc in subst Fits y f
Posted-Fits text t t' (kept _ _ l) e f =
    let y : record t { pending_msgs = t.pending_msgs ++ (text ∷ []) } ≡ t' = cc in
    subst Fits y (one_more_msg text t l f)
Posted-Fits text t t' (dropped _) e f = let y : t ≡ t' = cc in subst Fits y f
Posted-Fits text t t' (overflows _ _) e f = absurd (cc)

reap_child-Fits :
    (pid : ℕ) (status : WaitStatus) (t t' : Jobs)
    → reap_child pid status t ≡ some t'
    → Fits t
    → Fits t'
reap_child-Fits pid status t t' e f = go (reap_child-Reaped pid status t) e
  where
    go : {o : Option Jobs} → Reaped pid status t o → o ≡ some t' → Fits t'
    go (untracked ms m _) e =
        let y : record t { procs = ms } ≡ t' = cc in
        subst Fits y (same_sizes t _ refl refl (length-FirstChanged _ _ m) refl refl f)
    go (job j ms js m _ c p) e =
        Posted-Fits _ _ t' p e
          (same_sizes t _ (length-FirstChanged _ _ c) refl (length-FirstChanged _ _ m) refl refl f)

pub sigchld_handler-Fits :
    (cs : List (ℕ × WaitStatus)) (t t' : Jobs) → sigchld_handler cs t ≡ some t' → Fits t → Fits t'
unfolding sigchld_handler
sigchld_handler-Fits [] t t' e f = let y : t ≡ t' = cc in subst Fits y f
sigchld_handler-Fits ((pid, status) ∷ cs) t t' e f = elim (Option-cases (reap_child pid status t)) [
  | inl x ↦
      let y : sigchld_handler ((pid, status) ∷ cs) t ≡ none = rw (sigchld_handler, x) refl in
      absurd (cc)
  | inr (u, x) ↦
      let y : sigchld_handler ((pid, status) ∷ cs) t ≡ sigchld_handler cs u =
        rw (sigchld_handler, x) refl in
      sigchld_handler-Fits cs u t' (sym y ∙ e) (reap_child-Fits pid status t u x f)
]
