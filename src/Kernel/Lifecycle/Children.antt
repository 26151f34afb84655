-- ===== src/Kernel/Lifecycle/Children.antt =====
-- Waiting for a child, of xv6/kernel/proc.c. The answers of copyout are an argument.
use ru_shell.Base.{
  Bool, List, Option, [], false, if◌then◌else◌, leb, none, not, some, true, ℕ, ◌&&◌, ◌+◌, ◌-◌, ◌==◌,
  ◌||◌, ◌∷◌,
}
use ru_shell.Kernel.Proc.{Kernel, Proc, is_zombie, update_proc}
use ru_shell.Kernel.Lifecycle.{freeproc, is_child_of}

-- The loop over the table in `kwait` and `kwaitx`, from index `j` on: the first zombie child of `i`,
-- or whether there is a child.
pub data Search : Type 0 where
  zombie_at : ℕ → Proc → Search
  nothing : Bool → Search

unfoldable pub search_children : ℕ → ℕ → Bool → List Proc → Search
search_children i j kids [] = nothing kids
search_children i j kids (p ∷ ps) = elim (is_child_of i p) [
  | true ↦ elim (is_zombie p.state) [
    | true ↦ zombie_at j p
    | false ↦ search_children i (j + 1) true ps
  ]
  | false ↦ search_children i (j + 1) kids ps
]

-- What one round of the `for (;;)` in `kwait` ends with: the pid of the reaped child, -1 since a
-- copyout failed, -1 since there is no child or the caller is killed, or a call of `sleep`.
pub data WaitEnd : Type 0 where
  reaped : ℕ → WaitEnd
  copy_failed no_child must_sleep : WaitEnd

unfoldable pub reap : Proc → Proc
unfolding freeproc
reap p = freeproc (record p { parent = none })

-- A copyout to an address, which is not made if it is 0; `copies` says whether it succeeds.
abbrev pub copies_to : (ℕ → Bool) → ℕ → Bool
copies_to copies addr = addr == 0 || copies addr

unfoldable pub no_zombie : Bool → Bool → Kernel → WaitEnd × Kernel
no_zombie kids killed k = (if not kids || killed then no_child else must_sleep, k)

unfoldable pub kwait : (ℕ → Bool) → ℕ → ℕ → Bool → Kernel → WaitEnd × Kernel
unfolding search_children reap no_zombie
kwait copies addr i killed k = elim (search_children i 0 false k.procs) [
  | nothing kids ↦ no_zombie kids killed k
  | zombie_at j c ↦
      if copies_to copies addr then (reaped c.pid, update_proc k j reap) else (copy_failed, k)
]

-- The response time that `kwaitx` reports.
unfoldable pub response_time : Proc → ℕ
response_time c =
    if c.has_run && leb c.ctime c.first_run_time then c.first_run_time - c.ctime else 0

-- The values that `kwaitx` copies out: the status, wait, run and response times.
pub record Report : Type 0 where
  pub status : ℕ
  pub wait : ℕ
  pub run : ℕ
  pub response : ℕ

unfoldable pub kwaitx :
    (ℕ → Bool) → ℕ → ℕ → ℕ → ℕ → ℕ → Bool → Kernel → WaitEnd × Kernel × Option Report
unfolding search_children reap no_zombie response_time
kwaitx copies addr wtime_addr rtime_addr resp_addr i killed k =
    elim (search_children i 0 false k.procs) [
      | nothing kids ↦ let (e, k') = no_zombie kids killed k in (e, k', none)
      | zombie_at j c ↦
          if copies_to copies addr
            && copies_to copies wtime_addr
            && copies_to copies rtime_addr
            && copies_to copies resp_addr
          then (
            reaped c.pid,
            update_proc k j reap,
            some (record {
              status = c.xstate;
              wait = c.wtime;
              run = c.rtime;
              response = response_time c;
            }),
          )
          else (copy_failed, k, none)
    ]
