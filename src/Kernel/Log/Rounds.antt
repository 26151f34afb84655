-- ===== src/Kernel/Log/Rounds.antt =====
-- The end of system calls and the commits: the log is ready for a commit when there is one.
use ru_shell.Base.{
  List, [], ap, arith, false, get_elem?, if◌then◌else◌, length, refl, some, subst, suc, sym, true,
  ℕ, ◌+◌, ◌-◌, ◌<◌, ◌==◌, ◌^◌, ◌∙◌, ◌≡◌,
}
use ru_shell.Kernel.Proc.{wrap}
use ru_shell.Kernel.Log.{
  Log, Machine, commit, contents, end_commit, end_op, goes_on, logblocks, must_commit, wakes,
}
use ru_shell.Kernel.Log.Crash.{Ends}
use ru_shell.Kernel.Log.Calls.{Always, Erased, commit-counts}
use ru_shell.Kernel.Log.Ready.{IsReady, Settled, intended}
use ru_shell.Kernel.Log.Commit.{EitherDisk, commit-Ends, length-none}
use ru_shell.Kernel.Log.Steps.{
  HasSpace, LogStep, fair-remove_at, remove_at, remove_at_lem, step_begin, step_commit, step_end,
  step_modify, step_rewrite, step_write, with_log,
}
use ru_shell.Kernel.Log.Space.{HasSpace-begin, HasSpace-modify, HasSpace-rewrite, HasSpace-write}

-- What the locked part of `end_op` does when no commit goes on.
end_op_lem :
    (l : Log) (n : ℕ)
    → l.committing ≡ false
    → l.outstanding ≡ suc n
    → n < logblocks
    → end_op l ≡ (
        if n == 0
        then must_commit (record l { outstanding = n; committing = true })
        else wakes (record l { outstanding = n }))
unfolding end_op
end_op_lem l n idle out small =
    let left : wrap (l.outstanding + 2 ^ 32 - 1) ≡ n = omega arith in rw (idle, left) refl

HasSpace-end :
    (m : Machine) (bs : List ℕ) (i k : ℕ) (l : Log)
    → HasSpace m bs
    → get_elem? bs i ≡ some k
    → end_op m.log ≡ wakes l
    → HasSpace (with_log l m) (remove_at i bs)
unfolding contents
HasSpace-end m bs i k l h e n =
    let (o, d) = remove_at_lem bs i k e in
    let c = h.counted in
    let s = h.space in
    let few = h.few in
    let r = length (remove_at i bs) in
    let q = end_op_lem m.log r h.idle (c ∙ sym o) (omega arith) in
    let same : l ≡ record m.log { outstanding = r } = ground (arith, q, n) in
    rw same (record {
      counted = refl;
      idle = h.idle;
      space = omega arith;
      fair = fair-remove_at bs i h.fair;
      few = omega arith;
      homes = h.homes;
      quiet = h.quiet;
      coherent = h.coherent;
    })

commits_last :
    (l k : Log) (n : ℕ)
    → (if n == 0
        then must_commit (record l { outstanding = n; committing = true })
        else wakes (record l { outstanding = n }))
      ≡ must_commit k
    → (n ≡ 0) × (k ≡ record l { outstanding = 0; committing = true })
commits_last l k n e = ground (arith, e)

-- The machine about to commit.
abbrev committing_now : Machine → Machine
committing_now m = with_log (record m.log { outstanding = 0; committing = true }) m

committing_now-IsReady : (m : Machine) (bs : List ℕ) → HasSpace m bs → IsReady (committing_now m)
unfolding contents
committing_now-IsReady m bs h = record {
  quiet = h.quiet;
  coherent = h.coherent;
  room = let s = h.space in omega arith;
  homes = h.homes;
}

HasSpace-committed :
    (m w : Machine) (bs : List ℕ)
    → HasSpace m bs
    → commit (committing_now m) ≡ goes_on w
    → HasSpace (with_log (end_commit w.log) w) []
unfolding end_commit contents
HasSpace-committed m w bs h c =
    let n = committing_now m in
    let s =
      subst (Ends (EitherDisk n) (Settled m.log.start (intended n))) c
        (commit-Ends n (committing_now-IsReady m bs h)) in
    let (k, e) = subst (Ends Always (Erased n)) c (commit-counts n) in
    record {
      counted = k.outstanding;
      idle = refl;
      space = rw e (omega arith);
      fair = tt;
      few = omega arith;
      homes = rw e tt;
      quiet = rw k.start s.quiet;
      coherent = rw k.start s.coherent;
    }

HasSpace-commit :
    (m w : Machine) (bs : List ℕ) (i k : ℕ) (l : Log)
    → HasSpace m bs
    → get_elem? bs i ≡ some k
    → end_op m.log ≡ must_commit l
    → commit (with_log l m) ≡ goes_on w
    → HasSpace (with_log (end_commit w.log) w) (remove_at i bs)
HasSpace-commit m w bs i k l h e n c =
    let (o, d) = remove_at_lem bs i k e in
    let few = h.few in
    let count = h.counted in
    let r = length (remove_at i bs) in
    let q = end_op_lem m.log r h.idle (count ∙ sym o) (omega arith) in
    let (none_left, same) = commits_last m.log l r (sym q ∙ n) in
    let empty : remove_at i bs ≡ [] = length-none (remove_at i bs) (ground (arith, none_left)) in
    rw empty (HasSpace-committed m w bs h (ap (λ x. commit (with_log x m)) (sym same) ∙ c))

step-HasSpace : (m w : Machine) (bs ks : List ℕ) → LogStep m bs w ks → HasSpace m bs → HasSpace w ks
step-HasSpace _ _ _ _ (step_begin m bs l e) h = HasSpace-begin m bs l h e
step-HasSpace _ _ _ _ (step_modify m bs i k b d e home) h = HasSpace-modify m bs b d h home
step-HasSpace _ _ _ _ (step_write m w bs i k b e home _ n) h =
    HasSpace-write m w bs i k b h e home n
step-HasSpace _ _ _ _ (step_rewrite m w bs i k b e logged n) h =
    HasSpace-rewrite m w bs b h logged n
step-HasSpace _ _ _ _ (step_end m bs i k l e n) h = HasSpace-end m bs i k l h e n
step-HasSpace _ _ _ _ (step_commit m w bs i k l e n c) h = HasSpace-commit m w bs i k l h e n c

-- Any number of steps, from a machine that no system call uses.
pub data LogRun (m₀ : Machine) : Machine → List ℕ → Type 0 where
  run_start : LogRun m₀ m₀ []
  run_step : (m w : Machine) (bs ks : List ℕ) → LogRun m₀ m bs → LogStep m bs w ks → LogRun m₀ w ks

pub run-HasSpace : (m₀ m : Machine) (bs : List ℕ) → HasSpace m₀ [] → LogRun m₀ m bs → HasSpace m bs
run-HasSpace m₀ _ _ h run_start = h
run-HasSpace m₀ _ _ h (run_step m w bs ks r s) =
    step-HasSpace m w bs ks s (run-HasSpace m₀ m bs h r)
