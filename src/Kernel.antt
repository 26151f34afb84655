-- ===== src/Kernel.antt =====
-- The kernel of xv6/kernel/: processes, the scheduler, sleep and wakeup.
pub mod Proc
pub mod Sleep
pub mod Sched
pub mod Lifecycle
pub mod Invariant
pub mod System
pub mod Pipe
pub mod Memory
pub mod Log
pub mod Exec
pub mod Locks
pub mod Buffers
pub mod Pages
pub mod Vm
pub mod Fs
