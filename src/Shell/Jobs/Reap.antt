-- ===== src/Shell/Jobs/Reap.antt =====
-- What the handler of SIGCHLD in c-shell/src/jobs.c does with a child.
use ru_shell.Base.{
  ==_iff, Bool, Bool-cases, List, Option, Option-cases, [], ap, arith, codes, false, find,
  get_elem?, inl, inr, leb, length, ltb, ltb→lt, none, refl, some, subst, suc, true, update_first,
  zero, ℕ, ◌&&◌, ◌++◌, ◌+◌, ◌<◌, ◌==◌, ◌∷◌, ◌≡◌, ◌≢◌, ◌≤◌,
}
use ru_shell.Shell.Lexer.{Bytes}
use ru_shell.Shell.Jobs.{
  Job, Jobs, Member, WaitStatus, decimal, exited, find_job_by_pid, mark_proc_exited, max_pending,
  message, msg_len, other, post_message, reap_child, retire_job, signaled,
}

-- A text to tell the user: there is none, it is kept for the prompt, it is dropped since there are
-- MAX_PENDING already, or it is longer than its buffer and the copy runs out of bounds.
pub data Posted (text : Bytes) (t : Jobs) : Option Jobs → Type 0 where
  silent : length text ≡ 0 → Posted text t (some t)
  kept :
      0 < length text
      → length text < msg_len
      → length t.pending_msgs < max_pending
      → Posted text t (some (record t { pending_msgs = t.pending_msgs ++ (text ∷ []) }))
  dropped : max_pending ≤ length t.pending_msgs → Posted text t (some t)
  overflows : msg_len ≤ length text → length t.pending_msgs < max_pending → Posted text t none

pub post_message-Posted : (text : Bytes) (t : Jobs) → Posted text t (post_message text t)
unfolding post_message
post_message-Posted text t = elim (Bool-cases (length text == 0)) [
  | inl e ↦ rw (post_message, e) (silent ((==_iff (length text) 0).0 e))
  | inr e ↦ elim (Bool-cases (ltb (length t.pending_msgs) max_pending)) [
    | inl x ↦ elim (Bool-cases (leb (length text + 1) msg_len)) [
      | inl y ↦
          rw (post_message, e, x, y)
            (kept (above (length text) e) (short (length text) y) (ltb→lt _ _ x))
      | inr y ↦ rw (post_message, e, x, y) (overflows (long (length text) y) (ltb→lt _ _ x))
    ]
    | inr x ↦ rw (post_message, e, x) (dropped (full (length t.pending_msgs) x))
  ]
]
  where
    above : (n : ℕ) → (n == 0) ≡ false → 0 < n
    above n e = ground arith

    short : (n : ℕ) → leb (n + 1) msg_len ≡ true → n < msg_len
    short n e = ground arith

    long : (n : ℕ) → leb (n + 1) msg_len ≡ false → msg_len ≤ n
    long n e = ground arith

    full : (n : ℕ) → ltb n max_pending ≡ false → max_pending ≤ n
    full n e = ground arith

-- The first entry that passes a test is changed, and no other.
pub data FirstChanged {A : Type 0} (test : A → Bool) (f : A → A) : List A → List A → Type 0 where
  unchanged : FirstChanged test f [] []
  changed : (x : A) (xs : List A) → test x ≡ true → FirstChanged test f (x ∷ xs) (f x ∷ xs)
  passed :
      (x : A) (xs ys : List A)
      → test x ≡ false
      → FirstChanged test f xs ys
      → FirstChanged test f (x ∷ xs) (x ∷ ys)

update_first-FirstChanged :
    {A : Type 0} (test : A → Bool) (f : A → A) (xs : List A)
    → FirstChanged test f xs (update_first test f xs)
update_first-FirstChanged test f [] = unchanged
update_first-FirstChanged test f (x ∷ xs) = elim (Bool-cases (test x)) [
  | inl e ↦ rw e (changed x xs e)
  | inr e ↦ rw e (passed x xs (update_first test f xs) e (update_first-FirstChanged test f xs))
]

pub length-FirstChanged :
    {A : Type 0} (test : A → Bool) (f : A → A) {xs ys : List A}
    → FirstChanged test f xs ys
    → length ys ≡ length xs
length-FirstChanged test f unchanged = refl
length-FirstChanged test f (changed x xs e) = refl
length-FirstChanged test f (passed x xs ys e c) = ap suc (length-FirstChanged test f c)

-- An active job, and an active member of a group, with a pid.
abbrev pub has_job : ℕ → Job → Bool
has_job pid j = j.pid == pid && j.active

abbrev pub has_member : ℕ → Member → Bool
has_member pid m = m.pid == pid && m.active

-- What the user is told about a child.
abbrev pub notice : WaitStatus → Bytes → ℕ → Bytes
notice exited name pid = name ++ codes " with pid " ++ decimal 10 pid ++ codes " exited normally\n"
notice signaled name pid =
    name ++ codes " with pid " ++ decimal 10 pid ++ codes " exited abnormally\n"
notice other name pid = []

message-notice :
    (status : WaitStatus) (name : Bytes) (pid : ℕ)
    → message status name pid ≡ notice status name pid
unfolding message
message-notice exited name pid = refl
message-notice signaled name pid = refl
message-notice other name pid = refl

-- The child of the handler. The first active member with its pid is no longer active; and it is no
-- active job, or the first job that it is is no longer active and told about.
pub data Reaped (pid : ℕ) (status : WaitStatus) (t : Jobs) : Option Jobs → Type 0 where
  untracked :
      (ms : List Member)
      → FirstChanged (has_member pid) (λ m. record m { active = false }) t.procs ms
      → ((i : ℕ) (j : Job) → get_elem? t.jobs i ≡ some j → has_job pid j ≡ false)
      → Reaped pid status t (some (record t { procs = ms }))
  job :
      (j : Job) (ms : List Member) (js : List Job) {o : Option Jobs}
      → FirstChanged (has_member pid) (λ m. record m { active = false }) t.procs ms
      → find (has_job pid) t.jobs ≡ some j
      → FirstChanged (has_job pid) (λ x. record x { active = false }) t.jobs js
      → Posted (notice status j.cmd_name pid) (record t { procs = ms; jobs = js }) o
      → Reaped pid status t o

find-none {ℓ} :
    {A : Type ℓ} (test : A → Bool) (xs : List A)
    → find test xs ≡ none
    → (i : ℕ) (x : A) → get_elem? xs i ≡ some x
    → test x ≡ false
find-none test [] e i x g = absurd (cc)
find-none {A = A} test (y ∷ ys) e i x g = elim (Bool-cases (test y)) [
  | inl z ↦ absurd (clash (subst (λ o. o ≡ none) (found z) e))
  | inr z ↦ later z (find-none test ys (subst (λ o. o ≡ none) (skipped z) e)) i g
]
  where
    found : test y ≡ true → find test (y ∷ ys) ≡ some y
    found z = rw (find, z) refl

    clash : some y ≢ none
    clash a = cc

    skipped : test y ≡ false → find test (y ∷ ys) ≡ find test ys
    skipped z = rw (find, z) refl

    later :
        test y ≡ false
        → ((i : ℕ) (x : A) → get_elem? ys i ≡ some x → test x ≡ false)
        → (i : ℕ) → get_elem? (y ∷ ys) i ≡ some x
        → test x ≡ false
    later z r zero g = let s : y ≡ x = cc in subst (λ v. test v ≡ false) s z
    later z r (suc i) g = r i x g

-- The first active member of a group with the pid of the child is no longer active. A child that is
-- no active job changes nothing else. Of one that is, the first active entry with the pid is no
-- longer active, and unless MAX_PENDING texts wait, the text on how it ended is kept for the prompt
-- if it has fewer than MSG_LEN bytes; with more the copy of it runs out of bounds.
pub reap_child-Reaped :
    (pid : ℕ) (status : WaitStatus) (t : Jobs) → Reaped pid status t (reap_child pid status t)
unfolding reap_child mark_proc_exited find_job_by_pid retire_job
reap_child-Reaped pid status t =
    let ms =
      update_first-FirstChanged (has_member pid) (λ m. record m { active = false }) t.procs in
    let js = update_first-FirstChanged (has_job pid) (λ x. record x { active = false }) t.jobs in
    elim (Option-cases (find_job_by_pid pid t)) [
      | inl e ↦ rw (reap_child, e) (untracked _ ms (find-none (has_job pid) t.jobs e))
      | inr (j, e) ↦
          rw (reap_child, e, message-notice status j.cmd_name pid)
            (job j _ _ ms e js (post_message-Posted _ _))
    ]
