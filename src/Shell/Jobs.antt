-- ===== src/Shell/Jobs.antt =====
-- The job, group and process tables of c-shell/src/jobs.c. An array with its count is a list, and
-- each function runs with SIGCHLD blocked. A `job_id` of -1 is `none`.
use ru_shell.Base.{
  Bool, List, Option, [], codes, false, find, if◌then◌else◌, leb, length, ltb, map, none, some, suc,
  take, true, update_first, zero, ℕ, ◌%◌, ◌&&◌, ◌++◌, ◌+◌, ◌-◌, ◌/◌, ◌==◌, ◌∷◌,
}
use ru_shell.Shell.Lexer.{Bytes}
pub mod Fits
pub mod Bounds
pub mod Launch
pub mod Reap

abbrev pub max_jobs : ℕ
max_jobs = 4096

abbrev pub max_pending : ℕ
max_pending = 256

abbrev pub msg_len : ℕ
msg_len = 256

abbrev pub max_procs : ℕ
max_procs = 8192

pub record Job : Type 0 where
  pub job_id : Option ℕ
  pub pid : ℕ
  pub cmd_name : Bytes
  pub active : Bool
  pub is_leader : Bool

pub record Group : Type 0 where
  pub pgid : ℕ
  pub job_id : ℕ
  pub cmd_name : Bytes
  pub active : Bool
  pub stopped : Bool

pub record Member : Type 0 where
  pub pgid : ℕ
  pub pid : ℕ
  pub cmd_name : Bytes
  pub active : Bool

pub record Jobs : Type 0 where
  pub jobs : List Job
  pub next_job_number : ℕ
  pub groups : List Group
  pub procs : List Member
  pub pending_msgs : List Bytes

-- `strncpy` of a string to an array of `size` bytes, with a NUL at its end.
abbrev pub strncpy : ℕ → Bytes → Bytes
strncpy size s = take (size - 1) s

abbrev pub is_job : ℕ → Job → Bool
is_job pid j = j.pid == pid && j.active

unfoldable pub find_job_by_pid : ℕ → Jobs → Option Job
find_job_by_pid pid t = find (is_job pid) t.jobs

abbrev pub is_member : ℕ → Member → Bool
is_member pid m = m.pid == pid && m.active

unfoldable pub mark_proc_exited : ℕ → Jobs → Jobs
mark_proc_exited pid t = record t {
  procs = update_first (is_member pid) (λ m. record m { active = false }) t.procs;
}

-- What waitpid reports of a child.
pub data WaitStatus : Type 0 where
  exited signaled other : WaitStatus

-- `%d` of a number below 2 ^ 31, with `fuel` digits at most.
unfoldable pub decimal : ℕ → ℕ → Bytes
decimal zero n = []
decimal (suc fuel) n =
    let rest = decimal fuel (n / 10) in
    if ltb n 10 then (n + 48) ∷ [] else rest ++ ((n % 10 + 48) ∷ [])

-- The whole text that the handler prints for a job.
unfoldable pub message : WaitStatus → Bytes → ℕ → Bytes
unfolding decimal
message exited name pid = name ++ codes " with pid " ++ decimal 10 pid ++ codes " exited normally\n"
message signaled name pid =
    name ++ codes " with pid " ++ decimal 10 pid ++ codes " exited abnormally\n"
message other name pid = []

-- The text goes to the pending messages. `none` is the copy of more than MSG_LEN bytes out of `buf`
-- into `pending_msgs`: `snprintf` returns the length that the whole text has.
unfoldable pub post_message : Bytes → Jobs → Option Jobs
post_message text t =
    if length text == 0
    then some t
    else if ltb (length t.pending_msgs) max_pending
    then if leb (length text + 1) msg_len
      then some (record t { pending_msgs = t.pending_msgs ++ (text ∷ []) })
      else none
    else some t

unfoldable pub retire_job : ℕ → Jobs → Jobs
retire_job pid t = record t {
  jobs = update_first (is_job pid) (λ j. record j { active = false }) t.jobs;
}

-- The body of the loop in `sigchld_handler`.
unfoldable pub reap_child : ℕ → WaitStatus → Jobs → Option Jobs
unfolding mark_proc_exited find_job_by_pid retire_job message post_message
reap_child pid status t =
    let marked = mark_proc_exited pid t in
    elim (find_job_by_pid pid marked) [
      | none ↦ some marked
      | some j ↦ post_message (message status j.cmd_name pid) (retire_job pid marked)
    ]

-- `sigchld_handler`, with the children that waitpid gives in turn.
unfoldable pub sigchld_handler : List (ℕ × WaitStatus) → Jobs → Option Jobs
unfolding reap_child
sigchld_handler [] t = some t
sigchld_handler ((pid, status) ∷ cs) t = elim (reap_child pid status t) [
  | none ↦ none
  | some t' ↦ sigchld_handler cs t'
]

unfoldable pub job_add : ℕ → Bytes → Jobs → Option ℕ × Jobs
job_add pid cmd_name t =
    if ltb (length t.jobs) max_jobs
    then (
      some t.next_job_number,
      record t {
        jobs =
            t.jobs
            ++ (record {
              job_id = some t.next_job_number;
              pid = pid;
              cmd_name = strncpy 256 cmd_name;
              active = true;
              is_leader = true;
            }
                ∷ []);
      },
    )
    else (none, t)

unfoldable pub job_add_member_bg : Option ℕ → ℕ → Jobs → Jobs
job_add_member_bg job_id pid t =
    if ltb (length t.jobs) max_jobs
    then record t {
      jobs =
          t.jobs
          ++ (record { job_id = job_id; pid = pid; cmd_name = []; active = true; is_leader = false }
              ∷ []);
    }
    else t

-- A `cmd_name` of NULL is `none`.
unfoldable pub group_add : ℕ → Option Bytes → Jobs → Jobs
group_add pgid cmd_name t =
    if ltb (length t.groups) max_jobs
    then record t {
      groups =
          t.groups
          ++ (record {
            pgid = pgid;
            job_id = t.next_job_number;
            cmd_name = strncpy 256 (elim cmd_name [ none ↦ [] | some s ↦ s ]);
            active = true;
            stopped = false;
          }
              ∷ []);
      next_job_number = t.next_job_number + 1;
    }
    else t

unfoldable pub group_add_member : ℕ → ℕ → Bytes → Jobs → Jobs
group_add_member pgid pid cmd_name t =
    if ltb (length t.procs) max_procs
    then record t {
      procs =
          t.procs
          ++ (record { pgid = pgid; pid = pid; cmd_name = strncpy 64 cmd_name; active = true }
              ∷ []);
    }
    else t

-- The texts that it writes, and the table after it.
unfoldable pub flush_pending_bg_messages : Jobs → List Bytes × Jobs
flush_pending_bg_messages t =
    if length t.pending_msgs == 0
    then ([], t)
    else (codes "\n" ∷ t.pending_msgs, record t { pending_msgs = [] })

abbrev pub is_group : ℕ → Group → Bool
is_group pgid g = g.pgid == pgid && g.active

unfoldable pub mark_group_stopped : ℕ → Jobs → Option ℕ × Jobs
mark_group_stopped pgid t = (
  elim (find (is_group pgid) t.groups) [ none ↦ none | some g ↦ some g.job_id ],
  record t { groups = update_first (is_group pgid) (λ g. record g { stopped = true }) t.groups },
)

unfoldable pub has_stopped_jobs : Jobs → Bool
has_stopped_jobs t = elim (find (λ g. g.active && g.stopped) t.groups) [
  | none ↦ false
  | some g ↦ true
]

-- The groups that get a SIGHUP.
unfoldable pub hangup_all_jobs : List Group → List ℕ
hangup_all_jobs [] = []
hangup_all_jobs (g ∷ gs) = let rest = hangup_all_jobs gs in if g.active then g.pgid ∷ rest else rest

-- The group of a job: its pgid, whether it is stopped, and the name of its first process.
unfoldable pub group_lookup : ℕ → ℕ → Jobs → Option (ℕ × Bool × Bytes)
group_lookup job_id cmd_name_len t = elim (find (λ g. g.active && g.job_id == job_id) t.groups) [
  | none ↦ none
  | some g ↦ some (
    g.pgid,
    g.stopped,
    elim (find (λ m. m.pgid == g.pgid) t.procs) [
      | none ↦ []
      | some m ↦ strncpy cmd_name_len m.cmd_name
    ],
  )
]

unfoldable pub mark_group_running : ℕ → Jobs → Jobs
mark_group_running pgid t = record t {
  groups = update_first (is_group pgid) (λ g. record g { stopped = false }) t.groups;
}

unfoldable pub group_remove : ℕ → Jobs → Jobs
group_remove pgid t = record t {
  groups = update_first (is_group pgid) (λ g. record g { active = false }) t.groups;
  procs = map (λ m. if m.pgid == pgid then record m { active = false } else m) t.procs;
}

unfoldable pub pid_is_tracked : ℕ → Jobs → Bool
pid_is_tracked pid t = elim (find (is_member pid) t.procs) [ none ↦ false | some m ↦ true ]
