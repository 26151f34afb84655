-- ===== src/Kernel/Sleep.antt =====
-- Sleep, wakeup and kill, of xv6/kernel/proc.c. Each takes the locks that make it one step.
use ru_shell.Base.{
  Bool, List, Option, [], false, if◌then◌else◌, map, none, some, true, ℕ, ◌==◌, ◌∷◌,
}
use ru_shell.Kernel.Proc.{Kernel, Policy, Proc, is_mlfq, is_sleeping, runnable, sleeping}
pub mod Kill
pub mod Wakeup

-- `sleep_prepare` on the process's own entry; `none` is the panic on a zero channel.
unfoldable pub prepare : ℕ → Proc → Option Proc
prepare chan p = if chan == 0 then none else some (record p { chan = chan })

-- `sleep`: go to sleep unless the channel has been woken up since. The flag says that the process
-- gives up the CPU.
unfoldable pub sleep : Policy → Proc → Proc × Bool
sleep pol p = if p.chan == 0 then (p, false) else (
  record p { state = sleeping; ticks_in_slice = if is_mlfq pol then 0 else p.ticks_in_slice },
  true,
)

-- Make a sleeper runnable; `now` is `ticks`.
unfoldable pub rouse : Policy → ℕ → Proc → Proc
rouse pol now p =
    if is_sleeping p.state
    then record p {
      state = runnable;
      enter_time = if is_mlfq pol then now else p.enter_time;
      ticks_in_slice = if is_mlfq pol then 0 else p.ticks_in_slice;
    }
    else p

-- The body of the loop in `wakeup`.
unfoldable pub wake : Policy → ℕ → ℕ → Proc → Proc
unfolding rouse
wake pol now chan p = if p.chan == chan then rouse pol now (record p { chan = 0 }) else p

unfoldable pub wakeup : Policy → ℕ → Kernel → Kernel
unfolding wake
wakeup pol chan k = record k { procs = map (wake pol k.ticks chan) k.procs }

-- The loop in `kkill`: the first process with the pid; `none` is -1.
unfoldable pub kill_first : Policy → ℕ → ℕ → List Proc → Option (List Proc)
unfolding rouse
kill_first pol now pid [] = none
kill_first pol now pid (p ∷ ps) =
    let rest = kill_first pol now pid ps in
    if p.pid == pid
    then some (rouse pol now (record p { killed = true }) ∷ ps)
    else elim rest [ none ↦ none | some qs ↦ some (p ∷ qs) ]

unfoldable pub kkill : Policy → ℕ → Kernel → Option Kernel
unfolding kill_first
kkill pol pid k = elim (kill_first pol k.ticks pid k.procs) [
  | none ↦ none
  | some ps ↦ some (record k { procs = ps })
]

unfoldable pub setkilled : Proc → Proc
setkilled p = record p { killed = true }
