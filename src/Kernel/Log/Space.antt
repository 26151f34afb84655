-- ===== src/Kernel/Log/Space.antt =====
-- The space in the log: `begin_op` admits a system call only if every block that the running ones
-- may still write has a place.
use ru_shell.Base.{
  Bool, List, arith, false, get_elem?, if◌then◌else◌, leb, length, length-set, ltb, refl, set, some,
  subst, suc, sym, true, ℕ, ◌&&◌, ◌*◌, ◌+◌, ◌==◌, ◌^◌, ◌||◌, ◌∙◌, ◌∷◌, ◌≡◌, ◌≤◌,
}
use ru_shell.Kernel.Proc.{wrap}
use ru_shell.Kernel.Log.{
  Block, Log, Machine, absorb, begin_op, bpin, contents, log_write, logblocks, maxopblocks, modify,
  with_lh,
}
use ru_shell.Kernel.Log.Header.{All}
use ru_shell.Kernel.Log.Crash.{IsHome}
use ru_shell.Kernel.Log.Copies.{copy_ne}
use ru_shell.Kernel.Log.Steps.{
  HasSpace, absorb-logged, absorb_lem, fair-set, is_logged, remove_at_lem, sum, sum-set, sum_bound,
  with_log,
}

-- The log with the block noted in it.
abbrev pub noted : ℕ → Machine → Machine
noted b m = let w = with_lh (absorb b m.log.lh).0 m in if (absorb b m.log.lh).1 then bpin b w else w

-- A call that has blocks left finds room in the log, whatever block it writes.
pub log_write-runs :
    (m : Machine) (bs : List ℕ) (i k b : ℕ)
    → HasSpace m bs
    → get_elem? bs i ≡ some (suc k)
    → log_write b m ≡ some (noted b m)
unfolding log_write
log_write-runs m bs i k b h e =
    let s = h.space in
    let c = h.counted in
    let f = h.few in
    let q = sum-set bs i k e in
    let (r, _) = remove_at_lem bs i (suc k) e in
    let room : leb logblocks (length m.log.lh) ≡ false = ground arith in
    let out : (m.log.outstanding == 0 || leb (2 ^ 31) m.log.outstanding) ≡ false = ground arith in
    rw (room, out) refl

pub HasSpace-noted :
    (m : Machine) (bs ks : List ℕ) (b : ℕ) (fresh : Bool) (xs : List ℕ)
    → HasSpace m bs
    → length ks ≡ length bs
    → All (λ k. k ≤ maxopblocks) ks
    → sum ks + length xs ≤ logblocks
    → All (IsHome m.log.start) xs
    → HasSpace (if fresh then bpin b (with_lh xs m) else with_lh xs m) ks
unfolding bpin contents
HasSpace-noted m bs ks b true xs h e d l a = record {
  counted = h.counted ∙ sym e;
  idle = h.idle;
  space = l;
  fair = d;
  few = rw e h.few;
  homes = a;
  quiet = h.quiet;
  coherent = h.coherent;
}
HasSpace-noted m bs ks b false xs h e d l a = record {
  counted = h.counted ∙ sym e;
  idle = h.idle;
  space = l;
  fair = d;
  few = rw e h.few;
  homes = a;
  quiet = h.quiet;
  coherent = h.coherent;
}

pub HasSpace-write :
    (m w : Machine) (bs : List ℕ) (i k b : ℕ)
    → HasSpace m bs
    → get_elem? bs i ≡ some (suc k)
    → IsHome m.log.start b
    → log_write b m ≡ some w
    → HasSpace w (set bs i k)
HasSpace-write m w bs i k b h e home n =
    let same : noted b m ≡ w = cc (n, log_write-runs m bs i k b h e) in
    let s = h.space in
    let q = sum-set bs i k e in
    let (l, a) = absorb_lem b m.log.lh (IsHome m.log.start) home h.homes in
    subst (λ x. HasSpace x (set bs i k)) same
      (HasSpace-noted m bs (set bs i k) b (absorb b m.log.lh).1 (absorb b m.log.lh).0 h
        (length-set bs i k) (fair-set bs i k h.fair e) (omega arith) a)

log_write-noted : (b : ℕ) (m w : Machine) → log_write b m ≡ some w → w ≡ noted b m
unfolding log_write
log_write-noted b m w n = ground (arith, n)

pub HasSpace-rewrite :
    (m w : Machine) (bs : List ℕ) (b : ℕ)
    → HasSpace m bs
    → is_logged b m.log.lh ≡ true
    → log_write b m ≡ some w
    → HasSpace w bs
HasSpace-rewrite m w bs b h logged n =
    let same = log_write-noted b m w n in
    let kept = absorb-logged b m.log.lh logged in
    let s =
      HasSpace-noted m bs bs b (absorb b m.log.lh).1 (absorb b m.log.lh).0 h refl h.fair
        (rw kept h.space) (rw kept h.homes) in
    subst (λ x. HasSpace x bs) (sym same) s

-- What `begin_op` does when it goes on.
pub begin_op_lem :
    (l l' : Log)
    → begin_op l ≡ some l'
    → (l' ≡ record l { outstanding = wrap (l.outstanding + 1) })
      × ((ltb logblocks (wrap (length l.lh + (l.outstanding + 1) * maxopblocks))
            && ltb (wrap (length l.lh + (l.outstanding + 1) * maxopblocks)) (2 ^ 31))
          ≡ false)
unfolding begin_op
begin_op_lem l l' n = ground (arith, n)

pub HasSpace-begin :
    (m : Machine) (bs : List ℕ) (l : Log)
    → HasSpace m bs
    → begin_op m.log ≡ some l
    → HasSpace (with_log l m) (maxopblocks ∷ bs)
unfolding contents
HasSpace-begin m bs l h n =
    let (e, f) = begin_op_lem m.log l n in
    let s = h.space in
    let c = h.counted in
    let few = h.few in
    let fair = sum_bound bs h.fair in
    let small : length m.log.lh + (m.log.outstanding + 1) * maxopblocks ≤ logblocks =
      ground (arith, f) in
    rw e (record {
      counted = omega arith;
      idle = h.idle;
      space = omega arith;
      fair = (omega arith, h.fair);
      few = omega arith;
      homes = h.homes;
      quiet = h.quiet;
      coherent = h.coherent;
    })

pub HasSpace-modify :
    (m : Machine) (bs : List ℕ) (b : ℕ) (d : Block)
    → HasSpace m bs
    → IsHome m.log.start b
    → HasSpace (modify b d m) bs
unfolding modify contents
HasSpace-modify m bs b d h home = record {
  counted = h.counted;
  idle = h.idle;
  space = h.space;
  fair = h.fair;
  few = h.few;
  homes = h.homes;
  quiet = h.quiet;
  coherent = λ i l.
      let n = copy_ne m.log.start b i home l in let c = h.coherent i l in ground (arith, n, c);
}
