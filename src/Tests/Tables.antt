-- ===== src/Tests/Tables.antt =====
-- Inputs for the job tables of the shell.
use ru_shell.Base.{[], arith, codes, false, none, refl, some, ◌∷◌, ◌≡◌}
use ru_shell.Shell.Jobs.{
  Jobs, decimal, exited, find_job_by_pid, group_lookup, job_add, mark_proc_exited, message,
  post_message, reap_child, retire_job,
}
use ru_shell.Shell.Jobs.Fits.{Fits, adds_job, job_step}
use ru_shell.Shell.Jobs.Bounds.{job_step-Fits}
use ru_shell.Shell.Jobs.Launch.{launch, launch-lookup}
use ru_shell.Shell.Jobs.Reap.{Reaped, reap_child-Reaped}

abbrev no_jobs : Jobs
no_jobs = record { jobs = []; next_job_number = 1; groups = []; procs = []; pending_msgs = [] }

no_jobs-Fits : Fits no_jobs
no_jobs-Fits = record {
  jobs_fit = omega arith;
  groups_fit = omega arith;
  procs_fit = omega arith;
  pending_fit = omega arith;
  numbers = refl;
}

abbrev one_job : Jobs
one_job = (job_add 7 (codes "wc") no_jobs).1

job_step-Fits_example : Fits (job_add 7 (codes "wc") no_jobs).1
unfolding job_step
job_step-Fits_example =
    job_step-Fits (adds_job 7 (codes "wc")) no_jobs (job_add 7 (codes "wc") no_jobs).1 stepped
      no_jobs-Fits
  where
    stepped : job_step (adds_job 7 (codes "wc")) no_jobs ≡ some (job_add 7 (codes "wc") no_jobs).1
    stepped = refl

reap_child-Reaped_example : Reaped 7 exited one_job (reap_child 7 exited one_job)
reap_child-Reaped_example = reap_child-Reaped 7 exited one_job

-- The handler's text for that job.
reap_child-message :
    reap_child 7 exited one_job
    ≡ some (record (retire_job 7 one_job) {
      pending_msgs = codes "wc with pid 7 exited normally\n" ∷ [];
    })
unfolding reap_child job_add mark_proc_exited find_job_by_pid retire_job message decimal
    post_message
reap_child-message = refl

launch-lookup_example :
    ((launch 7 none (some 8) (codes "ls") no_jobs).0 ≡ some 1)
    × (group_lookup 1 256 (launch 7 none (some 8) (codes "ls") no_jobs).1
        ≡ some (7, false, codes "<redirect_out>"))
launch-lookup_example =
    launch-lookup 7 256 none (some 8) (codes "ls") no_jobs (omega arith) (omega arith) (omega arith)
      (λ i g e. absurd (cc)) (λ i m e. absurd (cc))
