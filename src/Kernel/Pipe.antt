-- ===== src/Kernel/Pipe.antt =====
-- The ring buffer of xv6/kernel/pipe.c. A call runs under the pipe's lock up to its end or to a
-- `sleep`, and goes on where it slept; what copyin and copyout answer are arguments.
use ru_shell.Base.{
  Bool, List, Option, [], false, if◌then◌else◌, none, not, some, true, ℕ, ◌%◌, ◌&&◌, ◌+◌, ◌==◌,
  ◌||◌, ◌∷◌,
}
use ru_shell.Kernel.Proc.{wrap}
pub mod Queue
pub mod Transfer
pub mod Reading

abbrev pub pipe_size : ℕ
pipe_size = 512

-- `data` by index. `nread` and `nwrite` are `uint`.
pub record Pipe : Type 0 where
  pub data_at : ℕ → ℕ
  pub nread : ℕ
  pub nwrite : ℕ
  pub readopen : Bool
  pub writeopen : Bool

-- What `pipealloc` makes of the page, whose data may be anything.
unfoldable pub pipe_init : (ℕ → ℕ) → Pipe
pipe_init junk = record { data_at = junk; nread = 0; nwrite = 0; readopen = true; writeopen = true }

-- `pipeclose`: the pipe after it, and whether the page is freed.
unfoldable pub pipeclose : Bool → Pipe → Pipe × Bool
pipeclose writable p =
    let q = if writable then record p { writeopen = false } else record p { readopen = false } in
    (q, not q.readopen && not q.writeopen)

-- `pi->data[pi->nwrite++ % PIPESIZE] = ch`
unfoldable pub push : ℕ → Pipe → Pipe
push ch p = record p {
  data_at = λ j. if j == p.nwrite % pipe_size then ch else p.data_at j;
  nwrite = wrap (p.nwrite + 1);
}

-- How a run of a call ends: it returns a count, or -1 (`none`), or it sleeps with `i` bytes done.
pub data RunEnd : Type 0 where
  returns : Option ℕ → RunEnd
  sleeps_at : ℕ → RunEnd

-- -1 if nothing was copied.
abbrev pub count_or_fail : ℕ → RunEnd
count_or_fail i = if i == 0 then returns none else returns (some i)

-- The loop of `pipewrite` from byte `i` on. `bytes` are the answers of copyin for the bytes that are
-- left, and `killed` is asked at each byte.
unfoldable pub pipewrite : (ℕ → Bool) → List (Option ℕ) → ℕ → Pipe → RunEnd × Pipe
unfolding push
pipewrite killed [] i p = (returns (some i), p)
pipewrite killed (none ∷ cs) i p =
    if not p.readopen || killed i
    then (returns none, p)
    else if p.nwrite == wrap (p.nread + pipe_size)
    then (sleeps_at i, p)
    else (count_or_fail i, p)
pipewrite killed (some ch ∷ cs) i p =
    let rest = pipewrite killed cs (i + 1) (push ch p) in
    if not p.readopen || killed i
    then (returns none, p)
    else if p.nwrite == wrap (p.nread + pipe_size)
    then (sleeps_at i, p)
    else rest

-- The loop of `piperead` that copies, with the bytes that it hands out. `copied` are the answers of
-- copyout for the bytes that are still asked for.
unfoldable pub read_loop : List Bool → ℕ → Pipe → RunEnd × List ℕ × Pipe
read_loop [] i p = (returns (some i), [], p)
read_loop (b ∷ bs) i p =
    let (e, out, q) = read_loop bs (i + 1) (record p { nread = wrap (p.nread + 1) }) in
    if p.nread == p.nwrite
    then (returns (some i), [], p)
    else if b
    then (e, p.data_at (p.nread % pipe_size) ∷ out, q)
    else (count_or_fail i, [], p)

-- `piperead`
unfoldable pub piperead : Bool → List Bool → Pipe → RunEnd × List ℕ × Pipe
unfolding read_loop
piperead killed copied p =
    if p.nread == p.nwrite && p.writeopen
    then (if killed then returns none else sleeps_at 0, [], p)
    else read_loop copied 0 p
