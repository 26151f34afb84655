-- ===== src/Shell/Jobs/Launch.antt =====
-- A background command in the tables of c-shell/src/jobs.c, from its launch on.
use ru_shell.Base.{
  ==_iff, Bool, Bool-cases, List, Option, Option-cases, [], ap, arith, codes, false, find,
  get_elem?, inl, inr, length, length-append, ltb, lt→ltb, none, refl, some, subst, suc, true, ℕ,
  ◌&&◌, ◌++◌, ◌+◌, ◌<◌, ◌==◌, ◌∙◌, ◌∷◌, ◌≡◌, ◌≢◌, ◌≤◌,
}
use ru_shell.Shell.Lexer.{Bytes}
use ru_shell.Shell.Jobs.{
  Group, Job, Jobs, Member, group_add, group_add_member, group_lookup, job_add, max_jobs, max_procs,
  strncpy,
}

-- A child that the shell forks to feed the input of a command or to take its output, entered in the
-- command's group; there is none without such a redirection.
unfoldable pub add_helper : ℕ → Option ℕ → Bytes → Jobs → Jobs
unfolding group_add_member
add_helper pgid none name t = t
add_helper pgid (some pid) name t = group_add_member pgid pid name t

-- What `execute_with_redirection_bg` enters.
unfoldable pub add_helpers : ℕ → Option ℕ → Option ℕ → Jobs → Jobs
unfolding add_helper
add_helpers pid writer_pid reader_pid t =
    add_helper pid reader_pid (codes "<redirect_out>")
      (add_helper pid writer_pid (codes "<redirect_in>") t)

-- What `execute_background` enters for a command of one stage, whose first child is the group's
-- leader.
unfoldable pub add_command : ℕ → Bytes → Jobs → Option ℕ × Jobs
unfolding job_add group_add group_add_member
add_command pid cmdline t =
    let (job_id, t') = job_add pid cmdline t in
    (job_id, group_add_member pid pid cmdline (group_add pid (some cmdline) t'))

-- Both, in the order of the calls.
unfoldable pub launch : ℕ → Option ℕ → Option ℕ → Bytes → Jobs → Option ℕ × Jobs
unfolding add_helpers add_command
launch pid writer_pid reader_pid cmdline t =
    add_command pid cmdline (add_helpers pid writer_pid reader_pid t)

find-append {ℓ} :
    {A : Type ℓ} (test : A → Bool) (xs : List A) (y : A)
    → ((i : ℕ) (x : A) → get_elem? xs i ≡ some x → test x ≡ false)
    → test y ≡ true
    → find test (xs ++ (y ∷ [])) ≡ some y
find-append test [] y h e = rw (find, e) refl
find-append test (x ∷ xs) y h e =
    let z : test x ≡ false = h 0 x refl in
    rw (find, z) (find-append test xs y (λ i v g. h (suc i) v g) e)

-- The entries that a launch adds.
abbrev job_of : ℕ → Bytes → Jobs → Job
job_of pid cmdline t = record {
  job_id = some t.next_job_number;
  pid = pid;
  cmd_name = strncpy 256 cmdline;
  active = true;
  is_leader = true;
}

abbrev group_of : ℕ → Bytes → Jobs → Group
group_of pid cmdline t = record {
  pgid = pid;
  job_id = t.next_job_number;
  cmd_name = strncpy 256 cmdline;
  active = true;
  stopped = false;
}

abbrev member_of : ℕ → Bytes → Member
member_of pid cmdline = record {
  pgid = pid;
  pid = pid;
  cmd_name = strncpy 64 cmdline;
  active = true;
}

abbrev launched : ℕ → Bytes → Jobs → Jobs
launched pid cmdline t = record t {
  jobs = t.jobs ++ (job_of pid cmdline t ∷ []);
  groups = t.groups ++ (group_of pid cmdline t ∷ []);
  next_job_number = t.next_job_number + 1;
  procs = t.procs ++ (member_of pid cmdline ∷ []);
}

add_command-launched :
    (pid : ℕ) (cmdline : Bytes) (t : Jobs)
    → ltb (length t.jobs) max_jobs ≡ true
    → ltb (length t.groups) max_jobs ≡ true
    → ltb (length t.procs) max_procs ≡ true
    → add_command pid cmdline t ≡ (some t.next_job_number, launched pid cmdline t)
unfolding add_command job_add group_add group_add_member
add_command-launched pid cmdline t x y z =
    rw (add_command, job_add, x, group_add, y, group_add_member, z) refl

-- The members behind the helpers of a command.
abbrev with_helper : ℕ → Option ℕ → Bytes → List Member → List Member
with_helper pgid none name ms = ms
with_helper pgid (some pid) name ms =
    ms ++ (record { pgid = pgid; pid = pid; cmd_name = strncpy 64 name; active = true } ∷ [])

abbrev with_helpers : ℕ → Option ℕ → Option ℕ → List Member → List Member
with_helpers pid writer_pid reader_pid ms =
    with_helper pid reader_pid (codes "<redirect_out>")
      (with_helper pid writer_pid (codes "<redirect_in>") ms)

add_helper_lem :
    (pgid : ℕ) (o : Option ℕ) (name : Bytes) (t : Jobs)
    → length t.procs < max_procs
    → add_helper pgid o name t ≡ record t { procs = with_helper pgid o name t.procs }
unfolding add_helper group_add_member
add_helper_lem pgid none name t h = refl
add_helper_lem pgid (some pid) name t h = rw (lt→ltb (length t.procs) max_procs h) refl

with_helper-length :
    (pgid : ℕ) (o : Option ℕ) (name : Bytes) (ms : List Member)
    → length (with_helper pgid o name ms) ≤ length ms + 1
with_helper-length pgid none name ms = omega arith
with_helper-length pgid (some pid) name ms = omega (arith, length-append ms (_ ∷ []))

add_helpers_lem :
    (pid : ℕ) (writer_pid reader_pid : Option ℕ) (t : Jobs)
    → length t.procs + 2 < max_procs
    → add_helpers pid writer_pid reader_pid t
      ≡ record t { procs = with_helpers pid writer_pid reader_pid t.procs }
unfolding add_helpers
add_helpers_lem pid writer_pid reader_pid t h =
    let n = with_helper-length pid writer_pid (codes "<redirect_in>") t.procs in
    rw (add_helper_lem pid writer_pid (codes "<redirect_in>") t (omega (arith, h)))
      (add_helper_lem pid reader_pid (codes "<redirect_out>") _ (omega (arith, h, n)))

-- The name of the first member of the group.
abbrev pub first_name : Option ℕ → Option ℕ → Bytes → Bytes
first_name (some w) reader_pid cmdline = codes "<redirect_in>"
first_name none (some r) cmdline = codes "<redirect_out>"
first_name none none cmdline = cmdline

find-kept :
    {A : Type 0} (test : A → Bool) (xs ys : List A) (y : A)
    → find test xs ≡ some y
    → find test (xs ++ ys) ≡ some y
find-kept test [] ys y e = absurd (cc e)
find-kept test (x ∷ xs) ys y e = elim (Bool-cases (test x)) [
  | inl z ↦ rw z (ground (arith, e, z))
  | inr z ↦ rw z (find-kept test xs ys y (ground (arith, e, z)))
]

-- The member that `group_lookup` finds.
abbrev FirstNamed : ℕ → Bytes → Option Member → Type 0
FirstNamed pid name none = ⊥
FirstNamed pid name (some m) = m.cmd_name ≡ strncpy 64 name

module _ (pid : ℕ) (cmdline : Bytes) (ms : List Member)
    (h : (i : ℕ) (m : Member) → get_elem? ms i ≡ some m → (m.pgid == pid) ≡ false) where
  find-helper :
      (o : ℕ) (name : Bytes)
      → find (λ m. m.pgid == pid) (with_helper pid (some o) name ms)
        ≡ some (record { pgid = pid; pid = o; cmd_name = strncpy 64 name; active = true })
  find-helper o name = find-append (λ m. m.pgid == pid) ms _ h ((==_iff pid pid).1 refl)

  first-FirstNamed :
      (writer_pid reader_pid : Option ℕ)
      → FirstNamed pid (first_name writer_pid reader_pid cmdline) (
          find
            (λ m. m.pgid == pid)
            (with_helpers pid writer_pid reader_pid ms ++ (member_of pid cmdline ∷ [])))
  first-FirstNamed none none =
      rw (find-append (λ m. m.pgid == pid) ms (member_of pid cmdline) h ((==_iff pid pid).1 refl))
        refl
  first-FirstNamed none (some r) =
      rw
        (find-kept (λ m. m.pgid == pid) _ (member_of pid cmdline ∷ []) _
          (find-helper r (codes "<redirect_out>")))
        refl
  first-FirstNamed (some w) none =
      rw
        (find-kept (λ m. m.pgid == pid) _ (member_of pid cmdline ∷ []) _
          (find-helper w (codes "<redirect_in>")))
        refl
  first-FirstNamed (some w) (some r) =
      let helper : Member = record {
        pgid = pid;
        pid = r;
        cmd_name = strncpy 64 (codes "<redirect_out>");
        active = true;
      } in
      let one =
        find-kept (λ m. m.pgid == pid) _ (helper ∷ []) _ (find-helper w (codes "<redirect_in>")) in
      rw (find-kept (λ m. m.pgid == pid) _ (member_of pid cmdline ∷ []) _ one) refl

lookup-launched :
    (pid len : ℕ) (cmdline name : Bytes) (t : Jobs)
    → ((i : ℕ) (g : Group) → get_elem? t.groups i ≡ some g → g.job_id < t.next_job_number)
    → FirstNamed pid name (find (λ m. m.pgid == pid) (t.procs ++ (member_of pid cmdline ∷ [])))
    → group_lookup t.next_job_number len (launched pid cmdline t)
      ≡ some (pid, false, strncpy len (strncpy 64 name))
unfolding group_lookup
lookup-launched pid len cmdline name t ids named =
    let e =
      find-append (λ g. g.active && g.job_id == t.next_job_number) t.groups (group_of pid cmdline t)
        (λ i g h. other g (ids i g h)) ((==_iff t.next_job_number t.next_job_number).1 refl) in
    elim (Option-cases (find (λ m. m.pgid == pid) (t.procs ++ (member_of pid cmdline ∷ [])))) [
      | inl n ↦ absurd (subst (FirstNamed pid name) n named)
      | inr (m, f) ↦
          let same : m.cmd_name ≡ strncpy 64 name = subst (FirstNamed pid name) f named in
          rw (group_lookup, e, f) (ap (λ x. some (pid, false, strncpy len x)) same)
    ]
  where
    other :
        (g : Group)
        → g.job_id < t.next_job_number
        → (g.active && g.job_id == t.next_job_number) ≡ false
    other g l = ground arith

-- With room in the tables a background command of one stage gets the next number, for its job as
-- for its group. `group_lookup` of that number then gives the group, which is not stopped, with the
-- first bytes of a name: the name of the child that feeds its input if there is one, else of the
-- child that takes its output if there is one, and only else the command itself. No group has had
-- the number, and no member is in a group with the pid.
pub launch-lookup :
    (pid len : ℕ) (writer_pid reader_pid : Option ℕ) (cmdline : Bytes) (t : Jobs)
    → length t.jobs < max_jobs
    → length t.groups < max_jobs
    → length t.procs + 2 < max_procs
    → ((i : ℕ) (g : Group) → get_elem? t.groups i ≡ some g → g.job_id < t.next_job_number)
    → ((i : ℕ) (m : Member) → get_elem? t.procs i ≡ some m → m.pgid ≢ pid)
    → ((launch pid writer_pid reader_pid cmdline t).0 ≡ some t.next_job_number)
      × (group_lookup t.next_job_number len (launch pid writer_pid reader_pid cmdline t).1
          ≡ some (pid, false, strncpy len (strncpy 64 (first_name writer_pid reader_pid cmdline))))
unfolding launch
launch-lookup pid len writer_pid reader_pid cmdline t a b c ids pids =
    let ms = with_helpers pid writer_pid reader_pid t.procs in
    let u : Jobs = record t { procs = ms } in
    let l1 = with_helper-length pid writer_pid (codes "<redirect_in>") t.procs in
    let l2 =
      with_helper-length pid reader_pid (codes "<redirect_out>")
        (with_helper pid writer_pid (codes "<redirect_in>") t.procs) in
    let room : length ms < max_procs = omega (arith, c, l1, l2) in
    let e : launch pid writer_pid reader_pid cmdline t
        ≡ (some t.next_job_number, launched pid cmdline u) =
      ap (add_command pid cmdline) (add_helpers_lem pid writer_pid reader_pid t c)
      ∙ add_command-launched pid cmdline u (lt→ltb (length t.jobs) max_jobs a)
          (lt→ltb (length t.groups) max_jobs b) (lt→ltb (length ms) max_procs room) in
    let named =
      first-FirstNamed pid cmdline t.procs (λ i m g. apart m.pgid (pids i m g)) writer_pid
        reader_pid in
    (
      ap (λ r. r.0) e,
      ap (λ r. group_lookup t.next_job_number len r.1) e
          ∙ lookup-launched pid len cmdline (first_name writer_pid reader_pid cmdline) u ids named,
    )
  where
    apart : (n : ℕ) → n ≢ pid → (n == pid) ≡ false
    apart n h = ground arith
