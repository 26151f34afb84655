-- ===== src/Kernel/Log/Install.antt =====
-- The copies of `install_trans`: at no write does the disk show anything else.
use ru_shell.Kernel.Log.Copies.{Shows-put, copy_ne, on_disk-put, put-put_ne, replayed-step}
use ru_shell.Base.{
  Bool, List, [], ap, arith, false, if◌then◌else◌, length, none, sym, true, ℕ, ◌+◌, ◌<◌, ◌∙◌, ◌∷◌,
  ◌≡◌, ◌≢◌, ◌≤◌,
}
use ru_shell.Kernel.Log.{Disk, Machine, bread, bunpin, contents, install_trans, logblocks, modify}
use ru_shell.Kernel.Log.Header.{All, slot}
use ru_shell.Kernel.Log.Crash.{Ends, IsHome, Shows, on_disk, replayed}
use ru_shell.Kernel.Log.Writes.{contents-bread, contents-written, write-Ends, written}

-- With the entries from `tail` on installed, the disk would show `t`; the buffers of the log agree
-- with it.
pub record Installing (start : ℕ) (t : Disk) (hs : List ℕ) (tail : ℕ) (bs : List ℕ) (m : Machine)
    : Type 0 where
  pub begins : m.log.start ≡ start
  pub header : on_disk start m.disk ≡ hs
  pub shows : Shows start t m.disk
  pub left : (b : ℕ) → IsHome start b → replayed start tail bs m.disk b ≡ t b
  pub coherent : (i : ℕ) → i < logblocks → contents m (start + i + 1) ≡ m.disk (start + i + 1)
  pub inside : tail + length bs ≤ logblocks
  pub found : All (λ b. slot b 0 hs ≢ none) bs
  pub homes : All (IsHome start) bs

-- Every copy is made.
pub record Installed (start : ℕ) (t : Disk) (m : Machine) : Type 0 where
  pub begins : m.log.start ≡ start
  pub shows : Shows start t m.disk
  pub plain : (b : ℕ) → IsHome start b → m.disk b ≡ t b
  pub coherent : (i : ℕ) → i < logblocks → contents m (start + i + 1) ≡ m.disk (start + i + 1)

module _ (start : ℕ) (t : Disk) (hs : List ℕ) where
  Installing-bread :
      (b tail : ℕ) (bs : List ℕ) (m : Machine)
      → Installing start t hs tail bs m
      → Installing start t hs tail bs (bread b m)
  unfolding bread
  Installing-bread b tail bs m h = record {
    begins = h.begins;
    header = h.header;
    shows = h.shows;
    left = h.left;
    coherent = λ i l. contents-bread b (start + i + 1) m ∙ h.coherent i l;
    inside = h.inside;
    found = h.found;
    homes = h.homes;
  }

  Installing-unpin :
      (r : Bool) (b tail : ℕ) (bs : List ℕ) (m : Machine)
      → Installing start t hs tail bs m
      → Installing start t hs tail bs (if r then m else bunpin b m)
  Installing-unpin true b tail bs m h = h
  Installing-unpin false b tail bs m h =
      unfold bunpin contents in
      record {
        begins = h.begins;
        header = h.header;
        shows = h.shows;
        left = h.left;
        coherent = h.coherent;
        inside = h.inside;
        found = h.found;
        homes = h.homes;
      }

  Installing-written :
      (tail x p : ℕ) (bs : List ℕ) (m : Machine)
      → Installing start t hs tail (x ∷ bs) m
      → Installing start t hs (tail + 1) bs (written (m.disk (start + tail + 1)) x p m)
  unfolding written modify
  Installing-written tail x p bs m h =
      let d = m.disk (start + tail + 1) in
      let (f, fs) = h.found in
      let (o, os) = h.homes in
      record {
        begins = h.begins;
        header = on_disk-put start x d m.disk o ∙ h.header;
        shows = Shows-put start x d t m.disk o (λ q. f (ap (slot x 0) (sym h.header) ∙ q)) h.shows;
        left = λ b home. replayed-step start tail x bs m.disk b o h.inside ∙ h.left b home;
        coherent = λ i l.
            let n = copy_ne start x i o l in
            contents-written d x p (start + i + 1) m
            ∙ put-put_ne x (start + i + 1) d (contents m) n
            ∙ h.coherent i l
            ∙ sym (put-put_ne x (start + i + 1) d m.disk n);
        inside = let r = h.inside in omega arith;
        found = fs;
        homes = os;
      }

  pub install_trans-Ends :
      (r : Bool) (tail : ℕ) (bs : List ℕ) (m : Machine)
      → Installing start t hs tail bs m
      → Ends (Shows start t) (Installed start t) (install_trans r tail bs m)
  unfolding install_trans
  install_trans-Ends r tail [] m h = record {
    begins = h.begins;
    shows = h.shows;
    plain = h.left;
    coherent = h.coherent;
  }
  install_trans-Ends r tail (b ∷ bs) m h =
      let from = m.log.start + tail + 1 in
      let read = bread b (bread from m) in
      let hr =
        Installing-bread b tail (b ∷ bs) (bread from m) (Installing-bread from tail (b ∷ bs) m h) in
      let d : contents read from ≡ read.disk (start + tail + 1) =
        contents-bread b from (bread from m)
        ∙ contents-bread from from m
        ∙ ap (λ s. contents m (s + tail + 1)) h.begins
        ∙ h.coherent tail (let l = h.inside in omega arith) in
      rw d (
        write-Ends (Shows start t) (Installed start t) (read.disk (start + tail + 1)) b read
          (λ w. install_trans r (tail + 1) bs (if r then w else bunpin b w)) hr.shows
          (λ p e.
            let w = written (read.disk (start + tail + 1)) b p read in
            install_trans-Ends r (tail + 1) bs (if r then w else bunpin b w)
              (Installing-unpin r b (tail + 1) bs w (Installing-written tail b p bs read hr))))
