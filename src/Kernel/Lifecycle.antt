-- ===== src/Kernel/Lifecycle.antt =====
-- Making, forking and ending processes, of xv6/kernel/proc.c. The answers of kalloc and uvmcopy are
-- arguments, and so is the index of the process on the CPU.
use ru_shell.Base.{
  Bool, List, Option, [], false, get_elem?, if◌then◌else◌, length, map, none, opt_is, some, suc,
  true, zero, ℕ, ◌++◌, ◌+◌, ◌==◌, ◌∷◌,
}
use ru_shell.Kernel.Proc.{
  Kernel, Layout, Policy, Proc, TrapFrame, is_unused, runnable, unused, update_proc, used, zombie,
}
use ru_shell.Kernel.Sleep.{wakeup}
pub mod Alloc
pub mod Parents
pub mod Orphans
pub mod Exit
pub mod Children
pub mod Wait

unfoldable pub allocpid : Kernel → ℕ × Kernel
allocpid k = (k.nextpid, record k { nextpid = k.nextpid + 1 })

-- It leaves `parent`, `ofile` and `cwd` alone.
unfoldable pub freeproc : Proc → Proc
freeproc p = record p {
  trapframe = none;
  pagetable = none;
  sz = 0;
  pid = 0;
  name = [];
  chan = 0;
  killed = false;
  xstate = 0;
  queue = 0;
  ticks_in_slice = 0;
  enter_time = 0;
  ctime = 0;
  ttime = 0;
  rtime = 0;
  wtime = 0;
  stime = 0;
  first_run_time = 0;
  has_run = false;
  state = unused;
}

-- What `found:` does to the entry; `none` is the failed branch, with the entry freed.
unfoldable pub init_proc : ℕ → ℕ → Option TrapFrame → Option ℕ → Proc → Bool × Proc
unfolding freeproc
init_proc pid now none pt p =
    (false, freeproc (record p { pid = pid; state = used; trapframe = none }))
init_proc pid now (some tf) none p =
    (false, freeproc (record p { pid = pid; state = used; trapframe = some tf; pagetable = none }))
init_proc pid now (some tf) (some pt) p = (
  true,
  record p {
    pid = pid;
    state = used;
    trapframe = some tf;
    pagetable = some pt;
    queue = 0;
    ticks_in_slice = 0;
    enter_time = now;
    ctime = now;
    ttime = 0;
    rtime = 0;
    wtime = 0;
    stime = 0;
    first_run_time = 0;
    has_run = false;
  },
)

-- The loop that looks for an UNUSED entry: its index, and the entry.
unfoldable pub find_unused : List Proc → Option (ℕ × Proc)
find_unused [] = none
find_unused (p ∷ ps) = elim (is_unused p.state) [
  | true ↦ some (0, p)
  | false ↦ elim (find_unused ps) [ none ↦ none | some (i, q) ↦ some (i + 1, q) ]
]

-- `allocproc`: the index of the new process, or NULL. `tf` and `pt` are what kalloc and
-- proc_pagetable return.
unfoldable pub allocproc : Option TrapFrame → Option ℕ → Kernel → Option ℕ × Kernel
unfolding allocpid find_unused init_proc
allocproc tf pt k = elim (find_unused k.procs) [
  | none ↦ (none, k)
  | some (i, p) ↦
      let (pid, k') = allocpid k in
      let (made, p') = init_proc pid k.ticks tf pt p in
      (if made then some i else none, update_proc k' i (λ _. p'))
]

-- What the process does to files and inodes: filedup, idup, fileclose, iput.
pub data FileCall : Type 0 where
  filedup idup fileclose iput : ℕ → FileCall

-- The loop over `ofile` in `kfork`, on the parent's and the child's table.
unfoldable pub dup_files : List (Option ℕ) → List (Option ℕ) → List (Option ℕ) × List FileCall
dup_files [] child = (child, [])
dup_files (f ∷ fs) [] = ([], [])
dup_files (none ∷ fs) (c ∷ cs) = let (t, l) = dup_files fs cs in (c ∷ t, l)
dup_files (some f ∷ fs) (c ∷ cs) = let (t, l) = dup_files fs cs in (some f ∷ t, filedup f ∷ l)

abbrev pub opt_call : (ℕ → FileCall) → Option ℕ → List FileCall
opt_call c none = []
opt_call c (some i) = c i ∷ []

-- The child of `p`, which is entry `i`, from the entry `np` that `allocproc` has made.
unfoldable pub fork_child : ℕ → Proc → Proc → Proc
unfolding dup_files
fork_child i p np = record np {
  sz = p.sz;
  trapframe = elim p.trapframe [ none ↦ none | some tf ↦ some (record tf { a0 = 0 }) ];
  ofile = (dup_files p.ofile np.ofile).0;
  cwd = p.cwd;
  name = p.name;
  parent = some i;
  state = runnable;
}

-- `kfork` after its call of `allocproc`; `copied` says that uvmcopy succeeds.
unfoldable pub fork_into : Bool → ℕ → Proc → Option ℕ × Kernel → Option ℕ × Kernel × List FileCall
unfolding fork_child freeproc
fork_into copied i p (none, k) = (none, k, [])
fork_into false i p (some j, k) = (none, update_proc k j freeproc, [])
fork_into true i p (some j, k) = (
  elim (get_elem? k.procs j) [ none ↦ none | some np ↦ some np.pid ],
  update_proc k j (fork_child i p),
  (dup_files p.ofile p.ofile).1 ++ opt_call idup p.cwd,
)

-- `kfork` by entry `i`: the child's pid, `none` for -1, with the calls to the file system.
unfoldable pub kfork :
    Option TrapFrame → Option ℕ → Bool → ℕ → Proc → Kernel → Option ℕ × Kernel × List FileCall
unfolding allocproc fork_into
kfork tf pt copied i p k = fork_into copied i p (allocproc tf pt k)

abbrev pub is_child_of : ℕ → Proc → Bool
is_child_of i p = opt_is p.parent i

-- The body of the loop in `reparent`, at entry `j`.
unfoldable pub reparent_at : Policy → Layout → ℕ → ℕ → Kernel → Kernel
unfolding wakeup
reparent_at pol l i j k = elim (get_elem? k.procs j) [
  | none ↦ k
  | some p ↦
      if is_child_of i p
      then wakeup pol (l.proc_addr k.initproc)
          (update_proc k j (λ q. record q { parent = some k.initproc }))
      else k
]

-- The loop, with `n` entries left from `j` on.
unfoldable pub reparent_from : Policy → Layout → ℕ → ℕ → ℕ → Kernel → Kernel
unfolding reparent_at
reparent_from pol l i zero j k = k
reparent_from pol l i (suc n) j k = reparent_from pol l i n (j + 1) (reparent_at pol l i j k)

unfoldable pub reparent : Policy → Layout → ℕ → Kernel → Kernel
unfolding reparent_from
reparent pol l i k = reparent_from pol l i (length k.procs) 0 k

unfoldable pub close_files : List (Option ℕ) → List FileCall
close_files [] = []
close_files (none ∷ fs) = close_files fs
close_files (some f ∷ fs) = fileclose f ∷ close_files fs

unfoldable pub clear_files : List (Option ℕ) → List (Option ℕ)
clear_files fs = map (λ _. none) fs

unfoldable pub wakeup_parent : Policy → Layout → Option ℕ → Kernel → Kernel
unfolding wakeup
wakeup_parent pol l none k = wakeup pol 0 k
wakeup_parent pol l (some j) k = wakeup pol (l.proc_addr j) k

abbrev pub parent_of : Kernel → ℕ → Option ℕ
parent_of k i = elim (get_elem? k.procs i) [ none ↦ none | some p ↦ p.parent ]

-- `kexit` by entry `i`, process `p`, up to its call of `sched`; `none` is the panic for `initproc`.
unfoldable pub kexit : Policy → Layout → ℕ → ℕ → Proc → Kernel → Option (Kernel × List FileCall)
unfolding reparent wakeup_parent close_files clear_files
kexit pol l status i p k =
    let closed = update_proc k i (λ q. record q { ofile = clear_files q.ofile; cwd = none }) in
    let reparented = reparent pol l i closed in
    let woken = wakeup_parent pol l (parent_of reparented i) reparented in
    if i == k.initproc
    then none
    else some (
      update_proc woken i (λ q. record q { ttime = k.ticks; xstate = status; state = zombie }),
      close_files p.ofile ++ opt_call iput p.cwd,
    )
