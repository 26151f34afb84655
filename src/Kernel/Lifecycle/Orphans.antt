-- ===== src/Kernel/Lifecycle/Orphans.antt =====
-- The children of a process that exits.
use ru_shell.Kernel.Lifecycle.{
  clear_files, close_files, iput, kexit, opt_call, parent_of, reparent, wakeup_parent,
}
use ru_shell.Kernel.Proc.Table.{length-update}
use ru_shell.Base.{
  Option, arith, false, if◌then◌else◌, length, none, refl, some, subst, true, ℕ, ◌++◌, ◌==◌, ◌≡◌,
}
use ru_shell.Kernel.Proc.{Kernel, Layout, Policy, Proc, update_proc, zombie}
use ru_shell.Kernel.Lifecycle.Parents.{
  Parents, Parents-trans, heirs, kept, reparent_from-Parents, update-Parents, wakeup-Parents,
}

abbrev pub closed : ℕ → Kernel → Kernel
closed i k = update_proc k i (λ q. record q { ofile = clear_files q.ofile; cwd = none })

-- The kernel before `kexit` sets its state: the files closed, the children given to `initproc` and
-- the parent awake.
abbrev pub exiting : Policy → Layout → ℕ → Option ℕ → Kernel → Kernel
exiting pol l i parent k = wakeup_parent pol l parent (reparent pol l i (closed i k))

-- What `kexit` does last.
abbrev pub dies : ℕ → ℕ → Proc → Proc
dies status now q = record q { ttime = now; xstate = status; state = zombie }

pub kexit-dies :
    (pol : Policy) (l : Layout) (status i : ℕ) (p : Proc) (k : Kernel)
    → (i == k.initproc) ≡ false
    → kexit pol l status i p k
      ≡ some (
        update_proc
            (exiting pol l i (parent_of (reparent pol l i (closed i k)) i) k)
            i
            (dies status k.ticks),
        close_files p.ofile ++ opt_call iput p.cwd,
      )
unfolding kexit
kexit-dies pol l status i p k e = rw (kexit, e) refl

pub kexit-init :
    (pol : Policy) (l : Layout) (status i : ℕ) (p : Proc) (k : Kernel)
    → (i == k.initproc) ≡ true
    → kexit pol l status i p k ≡ none
unfolding kexit
kexit-init pol l status i p k e = rw (kexit, e) refl

wakeup_parent-Parents :
    (pol : Policy) (l : Layout) (o : Option ℕ) (k : Kernel)
    → Parents kept k (wakeup_parent pol l o k)
unfolding wakeup_parent
wakeup_parent-Parents pol l none k = wakeup-Parents pol 0 k
wakeup_parent-Parents pol l (some j) k = wakeup-Parents pol (l.proc_addr j) k

closed-Parents : (i : ℕ) (k : Kernel) → Parents kept k (closed i k)
closed-Parents i k =
    Parents-trans (λ m o. if i == m then o else o) kept kept k (closed i k) (closed i k) same
      (update-Parents k i (λ q. record q { ofile = clear_files q.ofile; cwd = none }) (λ o. o)
        (λ p x. refl))
      (record { init = refl; stays = λ m p x. (p, x); was = λ m q x. (q, x, refl) })
  where
    same : (m : ℕ) (o : Option ℕ) → (if i == m then o else o) ≡ o
    same m o = ground arith

pub exiting-Parents :
    (pol : Policy) (l : Layout) (i : ℕ) (o : Option ℕ) (k : Kernel)
    → Parents (heirs i k.initproc (length k.procs) 0) k (exiting pol l i o k)
unfolding reparent
exiting-Parents pol l i o k =
    let f = heirs i k.initproc (length k.procs) 0 in
    Parents-trans f kept f k (reparent pol l i (closed i k)) (exiting pol l i o k) (λ m o. refl)
      (Parents-trans kept f f k (closed i k) (reparent pol l i (closed i k)) (λ m o. refl)
        (closed-Parents i k)
        (subst (λ n. Parents (heirs i k.initproc n 0) (closed i k) (reparent pol l i (closed i k)))
          (length-update k.procs i _)
          (reparent_from-Parents pol l i (length (closed i k).procs) 0 (closed i k))))
      (wakeup_parent-Parents pol l o (reparent pol l i (closed i k)))
