-- ===== src/Kernel/System/Fork.antt =====
-- What `kfork` leaves in the table.
use ru_shell.Base.{
  Bool, List, Option, arith, false, get_elem?, none, refl, some, subst, true, ℕ, ◌∙◌, ◌≡◌, ◌≢◌,
}
use ru_shell.Kernel.Proc.{Kernel, Proc, TrapFrame, is_unused, runnable, update}
use ru_shell.Kernel.Proc.Table.{get_elem?-update_other, get_elem?-update_self}
use ru_shell.Kernel.Lifecycle.{FileCall, fork_child, fork_into, freeproc, kfork}
use ru_shell.Kernel.Lifecycle.Alloc.{
  AllocResult, allocproc-AllocResult, failed, full, given, new_proc,
}
use ru_shell.Kernel.Invariant.{Inv}

-- Process `c` is a child of entry `i`, process `p`: runnable, in the top queue, with what `p` has in
-- its memory, registers (but 0 from fork), directory and name.
pub record IsChild (i pid : ℕ) (p c : Proc) : Type 0 where
  pub pid_is : c.pid ≡ pid
  pub state_is : c.state ≡ runnable
  pub parent_is : c.parent ≡ some i
  pub sz_is : c.sz ≡ p.sz
  pub name_is : c.name ≡ p.name
  pub cwd_is : c.cwd ≡ p.cwd
  pub queue_is : c.queue ≡ 0
  pub registers :
      (tf : TrapFrame) → p.trapframe ≡ some tf → c.trapframe ≡ some (record tf { a0 = 0 })

-- An entry that was UNUSED holds a child with a pid that no process had, and no other changes.
pub record Forked (i pid : ℕ) (p : Proc) (k k' : Kernel) : Type 0 where
  pub at : ℕ
  pub was_free : (q : Proc) × (get_elem? k.procs at ≡ some q) × (is_unused q.state ≡ true)
  pub child : (c : Proc) × (get_elem? k'.procs at ≡ some c) × IsChild i pid p c
  pub fresh :
      (m : ℕ) (q : Proc) → get_elem? k.procs m ≡ some q → is_unused q.state ≡ false → q.pid ≢ pid
  pub others : (m : ℕ) → at ≢ m → get_elem? k'.procs m ≡ get_elem? k.procs m

-- Every process is as it was.
abbrev pub Untouched : Kernel → Kernel → Type 0
Untouched k k' =
    (m : ℕ) (q : Proc)
    → get_elem? k.procs m ≡ some q
    → is_unused q.state ≡ false
    → get_elem? k'.procs m ≡ some q

abbrev pub ForkResult : ℕ → Proc → Kernel → Option ℕ × Kernel × List FileCall → Type 0
ForkResult i p k (some pid, k', calls) = Forked i pid p k k'
ForkResult i p k (none, k', calls) = Untouched k k'

fork_child-IsChild :
    (i pid now t : ℕ) (f : TrapFrame) (p q : Proc)
    → IsChild i pid p (fork_child i p (new_proc pid now f t q))
unfolding fork_child
fork_child-IsChild i pid now t f p q = record {
  pid_is = refl;
  state_is = refl;
  parent_is = refl;
  sz_is = refl;
  name_is = refl;
  cwd_is = refl;
  queue_is = refl;
  registers = λ tf e. rw e refl;
}

-- A free entry is no process.
free_apart :
    (ps : List Proc) (i m : ℕ) (p q : Proc)
    → get_elem? ps i ≡ some p
    → is_unused p.state ≡ true
    → get_elem? ps m ≡ some q
    → is_unused q.state ≡ false
    → i ≢ m
free_apart ps i m p q g u h live e =
    let x = subst (λ n. get_elem? ps n ≡ some p) e g in
    let y : p ≡ q = cc in let z = subst (λ r. is_unused r.state ≡ true) y u in absurd (cc)

-- What two changes of one entry leave of another.
twice_other :
    (ps : List Proc) (i m : ℕ) (f g : Proc → Proc)
    → i ≢ m
    → get_elem? (update i f (update i g ps)) m ≡ get_elem? ps m
twice_other ps i m f g n =
    get_elem?-update_other (update i g ps) i m f n ∙ get_elem?-update_other ps i m g n

fork_into-ForkResult :
    (tf : Option TrapFrame) (pt : Option ℕ) (copied : Bool) (i : ℕ) (p : Proc) (k : Kernel)
    {r : Option ℕ × Kernel}
    → Inv k
    → AllocResult tf pt k r
    → ForkResult i p k (fork_into copied i p r)
unfolding fork_into
fork_into-ForkResult tf pt copied i p k v (full _) = λ m q g _. g
fork_into-ForkResult tf pt copied i p k v (failed j q r free _ _) = λ m s h live.
    get_elem?-update_other k.procs j m (λ _. r)
      (free_apart k.procs j m q s free.found free.free h live)
    ∙ h
fork_into-ForkResult tf pt false i p k v (given j q f t free _ _) = λ m s h live.
    twice_other k.procs j m freeproc (λ _. new_proc k.nextpid k.ticks f t q)
      (free_apart k.procs j m q s free.found free.free h live)
    ∙ h
fork_into-ForkResult tf pt true i p k v (given j q f t free _ _) =
    let np = new_proc k.nextpid k.ticks f t q in
    let found : get_elem? (update j (λ _. np) k.procs) j ≡ some np =
      get_elem?-update_self k.procs j (λ _. np) free.found in
    rw (fork_into, found)
      (record {
        at = j;
        was_free = (q, free.found, free.free);
        child = (
          fork_child i p np,
          get_elem?-update_self (update j (λ _. np) k.procs) j (fork_child i p) found,
          fork_child-IsChild i k.nextpid k.ticks t f p q,
        );
        fresh = λ m s h live.
            let (_, l) = (v.each m s h).live_pid live in λ e. absurd (omega (arith, e, l));
        others = λ m n. twice_other k.procs j m (fork_child i p) (λ _. np) n;
      })

-- `kfork` that returns a pid has made one new process: a runnable child of the caller at an entry
-- that was UNUSED, with a pid that no process had, and no other entry has changed. If it returns -1
-- every process is as it was.
pub kfork-ForkResult :
    (tf : Option TrapFrame) (pt : Option ℕ) (copied : Bool) (i : ℕ) (p : Proc) (k : Kernel)
    → Inv k
    → ForkResult i p k (kfork tf pt copied i p k)
unfolding kfork
kfork-ForkResult tf pt copied i p k v =
    fork_into-ForkResult tf pt copied i p k v (allocproc-AllocResult tf pt k)
