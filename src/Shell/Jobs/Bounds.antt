-- ===== src/Shell/Jobs/Bounds.antt =====
-- The sizes of the tables of c-shell/src/jobs.c, over any run of its functions.
use ru_shell.Base.{
  Bool, Bool-cases, Option, [], arith, false, inl, inr, length, length-append, length-map,
  length-update_first, ltb, ltb→lt, refl, some, subst, true, update_first, ℕ, ◌==◌, ◌∷◌, ◌≡◌,
}
use ru_shell.Shell.Lexer.{Bytes}
use ru_shell.Shell.Jobs.{
  Group, Jobs, flush_pending_bg_messages, group_add, group_add_member, group_remove, is_group,
  job_add, job_add_member_bg, mark_group_running, mark_group_stopped, max_jobs, max_procs,
}
use ru_shell.Shell.Jobs.Fits.{
  Fits, JobEvent, adds_group, adds_job, adds_job_member, adds_member, continues, flushes, job_step,
  removes, same_sizes, sigchld, sigchld_handler-Fits, stops,
}

job_add-Fits : (pid : ℕ) (name : Bytes) (t : Jobs) → Fits t → Fits (job_add pid name t).1
unfolding job_add
job_add-Fits pid name t f = elim (Bool-cases (ltb (length t.jobs) max_jobs)) [
  | inl e ↦
      rw (job_add, e)
        (record {
          jobs_fit =
              omega (arith, length-append t.jobs (_ ∷ []), ltb→lt (length t.jobs) max_jobs e);
          groups_fit = f.groups_fit;
          procs_fit = f.procs_fit;
          pending_fit = f.pending_fit;
          numbers = f.numbers;
        })
  | inr e ↦ rw (job_add, e) f
]

job_add_member_bg-Fits :
    (id : Option ℕ) (pid : ℕ) (t : Jobs) → Fits t → Fits (job_add_member_bg id pid t)
unfolding job_add_member_bg
job_add_member_bg-Fits id pid t f = elim (Bool-cases (ltb (length t.jobs) max_jobs)) [
  | inl e ↦
      rw (job_add_member_bg, e)
        (record {
          jobs_fit =
              omega (arith, length-append t.jobs (_ ∷ []), ltb→lt (length t.jobs) max_jobs e);
          groups_fit = f.groups_fit;
          procs_fit = f.procs_fit;
          pending_fit = f.pending_fit;
          numbers = f.numbers;
        })
  | inr e ↦ rw (job_add_member_bg, e) f
]

group_add-Fits : (pgid : ℕ) (name : Option Bytes) (t : Jobs) → Fits t → Fits (group_add pgid name t)
unfolding group_add
group_add-Fits pgid name t f = elim (Bool-cases (ltb (length t.groups) max_jobs)) [
  | inl e ↦
      rw (group_add, e)
        (record {
          jobs_fit = f.jobs_fit;
          groups_fit =
              omega (arith, length-append t.groups (_ ∷ []), ltb→lt (length t.groups) max_jobs e);
          procs_fit = f.procs_fit;
          pending_fit = f.pending_fit;
          numbers = omega (arith, length-append t.groups (_ ∷ []), f.numbers);
        })
  | inr e ↦ rw (group_add, e) f
]

group_add_member-Fits :
    (pgid pid : ℕ) (name : Bytes) (t : Jobs) → Fits t → Fits (group_add_member pgid pid name t)
unfolding group_add_member
group_add_member-Fits pgid pid name t f = elim (Bool-cases (ltb (length t.procs) max_procs)) [
  | inl e ↦
      rw (group_add_member, e)
        (record {
          jobs_fit = f.jobs_fit;
          groups_fit = f.groups_fit;
          procs_fit =
              omega (arith, length-append t.procs (_ ∷ []), ltb→lt (length t.procs) max_procs e);
          pending_fit = f.pending_fit;
          numbers = f.numbers;
        })
  | inr e ↦ rw (group_add_member, e) f
]

flush-Fits : (t : Jobs) → Fits t → Fits (flush_pending_bg_messages t).1
unfolding flush_pending_bg_messages
flush-Fits t f = elim (Bool-cases (length t.pending_msgs == 0)) [
  | inl e ↦ rw (flush_pending_bg_messages, e) f
  | inr e ↦
      rw (flush_pending_bg_messages, e)
        (record {
          jobs_fit = f.jobs_fit;
          groups_fit = f.groups_fit;
          procs_fit = f.procs_fit;
          pending_fit = omega arith;
          numbers = f.numbers;
        })
]

-- A change of the first group that passes a test.
group_change-Fits :
    (test : Group → Bool) (change : Group → Group) (t : Jobs)
    → Fits t
    → Fits (record t { groups = update_first test change t.groups })
group_change-Fits test change t f =
    same_sizes t (record t { groups = update_first test change t.groups }) refl
      (length-update_first test change t.groups) refl refl refl f

group_remove-Fits : (pgid : ℕ) (t : Jobs) → Fits t → Fits (group_remove pgid t)
unfolding group_remove
group_remove-Fits pgid t f =
    same_sizes t (group_remove pgid t) refl
      (length-update_first (is_group pgid) (λ g. record g { active = false }) t.groups)
      (length-map t.procs _) refl refl f

-- Whatever the shell calls, in whatever order, no table outgrows its array, and job numbers count
-- the groups that there have been.
pub job_step-Fits : (e : JobEvent) (t t' : Jobs) → job_step e t ≡ some t' → Fits t → Fits t'
unfolding job_step mark_group_stopped mark_group_running
job_step-Fits (adds_job pid name) t t' h f =
    let y : (job_add pid name t).1 ≡ t' = cc in subst Fits y (job_add-Fits pid name t f)
job_step-Fits (adds_job_member id pid) t t' h f =
    let y : job_add_member_bg id pid t ≡ t' = cc in subst Fits y (job_add_member_bg-Fits id pid t f)
job_step-Fits (adds_group pgid name) t t' h f =
    let y : group_add pgid name t ≡ t' = cc in subst Fits y (group_add-Fits pgid name t f)
job_step-Fits (adds_member pgid pid name) t t' h f =
    let y : group_add_member pgid pid name t ≡ t' = cc in
    subst Fits y (group_add_member-Fits pgid pid name t f)
job_step-Fits (sigchld cs) t t' h f = sigchld_handler-Fits cs t t' h f
job_step-Fits flushes t t' h f =
    let y : (flush_pending_bg_messages t).1 ≡ t' = cc in subst Fits y (flush-Fits t f)
job_step-Fits (stops pgid) t t' h f =
    let y : (mark_group_stopped pgid t).1 ≡ t' = cc in
    subst Fits y (group_change-Fits (is_group pgid) (λ g. record g { stopped = true }) t f)
job_step-Fits (continues pgid) t t' h f =
    let y : mark_group_running pgid t ≡ t' = cc in
    subst Fits y (group_change-Fits (is_group pgid) (λ g. record g { stopped = false }) t f)
job_step-Fits (removes pgid) t t' h f =
    let y : group_remove pgid t ≡ t' = cc in subst Fits y (group_remove-Fits pgid t f)
