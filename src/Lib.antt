-- ===== src/Lib.antt =====
-- RuSHELL: the shell of c-shell/ and the xv6 kernel of xv6/, whose scheduler is a multi-level
-- feedback queue, FIFO or round robin.
--
-- The shell reads a line, `lex_line` (c-shell/src/lexer.c) makes tokens of it, `parse_validate`
-- (c-shell/src/parser.c) says whether they are a command line, and the loop of c-shell/src/shell.c
-- cuts them into segments and stages and calls execute_pipeline, execute_background or a builtin.
-- Background commands are kept in the tables of c-shell/src/jobs.c, which the handler of SIGCHLD
-- and the builtins read.
--   Shell/Lexer     `Token`, `TokenList`, `Buf` and every function of lexer.c. A text is the list of
--                   its bytes without the NUL; the outcomes of malloc and realloc are a list.
--   Shell/Parser    parser.c.
--   Shell/Segments  the work of `main` on one line: `parse_stages` for the loop over the tokens,
--                   `run_segment` for the calls of a segment. What a call does to the system is an
--                   argument, a step on a state of any type.
--   Shell/Jobs      jobs.c: an array with its count is a list, `none` is a copy out of bounds. The
--                   functions run with SIGCHLD blocked, so each is one step.
--   Shell/Hop       c-shell/src/hop.c: the list of visits and the jumps; chdir, getcwd, stat, time and
--                   the files are a record of functions on a state of any type.
--   Shell/History   c-shell/src/history.c: `history_append`, and the line editor as a step for each
--                   call of read. What it draws is left out.
--
-- The kernel keeps a table of processes. A process is made by `kfork`, run by `scheduler`,
-- preempted by the timer branch of `usertrap`, put to sleep by `sleep_prepare` and `sleep`, woken
-- by `wakeup`, and reaped by `kwait` or `kwaitx` after `kexit`. `clockintr` counts its times and
-- boosts its queue.
--   Kernel/Proc       xv6/kernel/proc.h: `Proc`, and `Kernel` for the table, `nextpid`, `ticks` and
--                     `initproc`. A pointer into the table is an index; `uint` counters wrap at 2 ^ 32.
--   Kernel/Sleep      sleep_prepare, sleep, wakeup, kkill and setkilled of xv6/kernel/proc.c.
--   Kernel/Sched      the schedulers of proc.c, and the timer code of xv6/kernel/trap.c.
--   Kernel/Lifecycle  allocproc, freeproc, kfork, reparent, kexit, kwait and kwaitx of proc.c. The
--                     answers of kalloc, proc_pagetable, uvmcopy and copyout are arguments, and the
--                     calls of file.c and fs.c are logged.
--   Kernel/Invariant  what is true of the table, and which changes keep it.
--   Kernel/System     the calls as events. An event acts on the whole table in one step, since the
--                     code holds the locks of the entries that it changes; `none` is a panic, a read
--                     out of bounds, an overflow of `nextpid`, or an event that cannot be.
--   Kernel/Pipe       xv6/kernel/pipe.c: a call runs up to its end or to its `sleep`.
--   Kernel/Memory     xv6/kernel/string.c, on a memory from addresses to bytes.
--   Kernel/Log        xv6/kernel/log.c: the disk and the buffers as maps of blocks, on a machine that
--                     may stop before any write. `none` and `ends_in_panic` are panics.
--   Kernel/Buffers    xv6/kernel/bio.c: the list of buffers, the most recently used first.
--   Kernel/Locks      xv6/kernel/spinlock.c and xv6/kernel/sleeplock.c.
--   Kernel/Pages      xv6/kernel/kalloc.c, and the memory: bytes, 64-bit words and free pages.
--   Kernel/Vm         xv6/kernel/vm.c, with Kernel/Vm/User for the tables of processes and
--                     Kernel/Vm/Copy for copyin, copyout and copyinstr. `none` is a panic.
--   Kernel/Fs         xv6/kernel/fs.c on one device, a call at a time: blocks and `bmap`, with
--                     Kernel/Fs/Inodes for the inode table, Kernel/Fs/Content for readi and writei,
--                     and Kernel/Fs/Paths for directories and path names. `none` is a panic.
--   Kernel/Exec       the state and the panics that Kernel/Pages, Kernel/Vm and Kernel/Fs share.
--   User/Grep         the matcher of xv6/user/grep.c.
--   User/Sh           the parser of xv6/user/sh.c, and `runcmd` as the tree of a process's calls.
--
-- The file system calls bread, log_write and brelse for each change: Kernel/Fs has the blocks as
-- such a call leaves them. The log reads and writes blocks through the cache, which Kernel/Log sees
-- as what `bread` finds in a block; Kernel/Buffers has the buffers themselves. A page table is
-- walked in memory that `kalloc` hands out.
--
-- Bounds. A loop over a table or a text recurses on the list, a loop over `n` bytes or queues on
-- the number, so each returns. The lexer's loop recurses on fuel, of which the length of the line
-- is enough: each round takes a byte. The parser of sh.c has four rounds for each byte, and the
-- loops of vm.c and kalloc.c that go by pages or chunks have one for each byte. A recovery of the
-- log ends on a machine that does more than `logblocks` writes. The loops of readi, writei and
-- dirlookup have a round for each byte, that of namex one for each byte of the path and one more.
-- `decimal` prints with 10 digits at most, as many as an `int` has. Tables may have any size, the
-- pipe has 512 bytes and the shell's limits are those of the source.
--
-- Not modelled: system calls, open files, device drivers, context switches and the memory order,
-- the builtins of the shell but for hop and the job tables, the files in which hop and the history
-- are kept, fork and dup2 in c-shell/src/redirect.c, and programs of xv6/user other than sh.c and
-- the matcher of grep.c. They do input and output, or call what is modelled.
pub mod Base
pub mod Shell
pub mod Kernel
pub mod User
mod Tests
