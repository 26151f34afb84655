-- ===== src/Kernel/Log/Ready.antt =====
-- Machines of xv6/kernel/log.c that are about to commit, and those that have.
use ru_shell.Kernel.Log.Save.{Saving}
use ru_shell.Base.{
  Bool-cases, List, Option-cases, [], ap, arith, get_elem?, inl, inr, length, ltb, ltb→lt, none,
  some, subst, sym, ℕ, ◌+◌, ◌-◌, ◌<◌, ◌∙◌, ◌≡◌, ◌≤◌,
}
use ru_shell.Kernel.Log.{
  Block, Disk, Machine, Outcome, bread, contents, crashed, goes_on, header_of, logblocks, modify,
  put_header, with_lh, write_head, ◌>>=◌,
}
use ru_shell.Kernel.Log.Header.{All, header_of-put_header, slot, slot-found, slot-get_elem?}
use ru_shell.Kernel.Log.Crash.{Ends, IsHome, Shows, on_disk, replayed}
use ru_shell.Kernel.Log.Copies.{put-put_ne, put-put_same, start_ne}
use ru_shell.Kernel.Log.Writes.{contents-bread, contents-written, write-Ends, written}
use ru_shell.Kernel.Log.Install.{Installed, Installing}

-- A machine about to commit: the log on the disk is empty, and the buffers of its blocks agree with
-- the disk.
pub record IsReady (m : Machine) : Type 0 where
  pub quiet : on_disk m.log.start m.disk ≡ []
  pub coherent :
      (i : ℕ) → i < logblocks → contents m (m.log.start + i + 1) ≡ m.disk (m.log.start + i + 1)
  pub room : length m.log.lh ≤ logblocks
  pub homes : All (IsHome m.log.start) m.log.lh

-- The blocks that the transaction is to leave: those of its header as the buffers have them.
unfoldable pub intended : Machine → Disk
intended m b = elim (slot b 0 m.log.lh) [ none ↦ m.disk b | some i ↦ contents m b ]

-- A new header on the disk.
head_written :
    (start p : ℕ) (bs : List ℕ) (h : Block) (m : Machine)
    → on_disk start (written (put_header bs h) start p m).disk ≡ bs
unfolding written modify
head_written start p bs h m =
    ap header_of (put-put_same start (put_header bs h) m.disk) ∙ header_of-put_header bs h

home_kept :
    (start p b : ℕ) (d : Block) (m : Machine)
    → IsHome start b
    → (written d start p m).disk b ≡ m.disk b
unfolding written modify
home_kept start p b d m h = put-put_ne start b d m.disk (λ e. start_ne start b h (sym e))

copy_kept :
    (start p i : ℕ) (d : Block) (m : Machine)
    → (written d start p m).disk (start + i + 1) ≡ m.disk (start + i + 1)
unfolding written modify
copy_kept start p i d m = put-put_ne start (start + i + 1) d m.disk (λ e. omega arith)

-- A write of the header leaves the copies in the buffers as they are on the disk.
coherent_kept :
    (start p i : ℕ) (d : Block) (m : Machine)
    → contents m (start + i + 1) ≡ m.disk (start + i + 1)
    → contents (written d start p m) (start + i + 1) ≡ (written d start p m).disk (start + i + 1)
coherent_kept start p i d m e =
    contents-written d start p (start + i + 1) m
    ∙ put-put_ne start (start + i + 1) d (contents m) (λ q. omega arith)
    ∙ e
    ∙ sym (copy_kept start p i d m)

-- `write_head`, and what comes behind it.
pub write_head-Ends :
    (C : Disk → Type 0) (Q : Machine → Type 0) (start : ℕ) (m : Machine) (f : Machine → Outcome)
    → m.log.start ≡ start
    → C m.disk
    → ((p : ℕ) (h : Block) → Ends C Q (f (written (put_header m.log.lh h) start p (bread start m))))
    → Ends C Q (write_head m >>= f)
unfolding write_head bread
write_head-Ends C Q start m f e c g =
    let s = m.log.start in
    write-Ends C Q (put_header m.log.lh (contents m s)) s (bread s m) f c (λ p _.
      subst (λ x. Ends C Q (f (written (put_header m.log.lh (contents m s)) x p (bread x m))))
        (sym e) (g p (contents m s)))

pub Ends-last :
    (C : Disk → Type 0) (Q : Machine → Type 0) (o : Outcome) → Ends C Q (o >>= goes_on) → Ends C Q o
Ends-last C Q (crashed d) h = h
Ends-last C Q (goes_on m) h = h

-- An entry of a list whose end is `k`.
within :
    (hs : List ℕ) (k i b : ℕ)
    → ((j : ℕ) → get_elem? hs (k + j) ≡ none)
    → get_elem? hs i ≡ some b
    → i < k
within hs k i b end e = elim (Bool-cases (ltb i k)) [
  | inl l ↦ ltb→lt i k l
  | inr l ↦
      let q : k + (i - k) ≡ i = ground (arith, l) in
      absurd (cc (ap (get_elem? hs) q, end (i - k), e))
]

-- The end of a transaction: the blocks are in place, and the header on the disk is empty again.
pub record Settled (start : ℕ) (t : Disk) (m : Machine) : Type 0 where
  pub quiet : on_disk start m.disk ≡ []
  pub plain : (b : ℕ) → IsHome start b → m.disk b ≡ t b
  pub coherent : (i : ℕ) → i < logblocks → contents m (start + i + 1) ≡ m.disk (start + i + 1)

module _ (start : ℕ) (t : Disk) where
  pub erased-Ends :
      (m : Machine)
      → Installed start t m
      → Ends (Shows start t) (Settled start t) (write_head (with_lh [] m))
  unfolding bread
  erased-Ends m h = Ends-last (Shows start t) (Settled start t) (write_head (with_lh [] m)) (
      write_head-Ends (Shows start t) (Settled start t) start (with_lh [] m) goes_on h.begins
        h.shows
        (λ p d. record {
          quiet = head_written start p [] d (bread start (with_lh [] m));
          plain = λ b home.
              home_kept start p b (put_header [] d) (bread start (with_lh [] m)) home
              ∙ h.plain b home;
          coherent = λ i l.
              coherent_kept start p i (put_header [] d) (bread start (with_lh [] m))
                (contents-bread start (start + i + 1) (with_lh [] m) ∙ h.coherent i l);
        }))

  -- What is saved in the log replaces the blocks of the header, and no others.
  saved_view :
      (old v : Disk) (hs : List ℕ) (p k b : ℕ) (h : Block) (m : Machine)
      → elim (slot b 0 hs) [ none ↦ old b | some i ↦ v b ] ≡ t b
      → Saving start old v hs k [] m
      → IsHome start b
      → replayed start 0 hs (written h start p m).disk b ≡ t b
  saved_view old v hs p k b h m to s home = elim (Option-cases (slot b 0 hs)) [
    | inl e ↦
        let kept = home_kept start p b h m home in
        let same = s.same b home in cc (e, to, kept, same)
    | inr (i, e) ↦
        let kept = copy_kept start p i h m in
        let entry = slot-get_elem? b 0 i hs (e ∙ ap some (omega arith)) in
        let saved = s.copies i b entry (within hs k i b s.suffix entry) in cc (e, to, kept, saved)
  ]

  -- The true point of a commit: the header is on the disk, and every copy in the log.
  pub committed-Installing :
      (old v : Disk) (hs : List ℕ) (p k : ℕ) (h : Block) (m : Machine)
      → ((b : ℕ) → IsHome start b → elim (slot b 0 hs) [ none ↦ old b | some i ↦ v b ] ≡ t b)
      → length hs ≤ logblocks
      → All (IsHome start) hs
      → Saving start old v hs k [] m
      → Installing start t hs 0 hs (written (put_header hs h) start p m)
  committed-Installing old v hs p k h m to room homes s =
      let e = head_written start p hs h m in
      let view = λ (b : ℕ) (home : IsHome start b).
        saved_view old v hs p k b (put_header hs h) m (to b home) s home in
      record {
        begins = unfold written modify in s.begins;
        header = e;
        shows = record { homes = rw e homes; room = rw e room; view = rw e view };
        left = view;
        coherent = λ i l. coherent_kept start p i (put_header hs h) m (s.coherent i l);
        inside = omega (arith, room);
        found = slot-found 0 hs;
        homes = homes;
      }
