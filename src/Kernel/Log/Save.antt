-- ===== src/Kernel/Log/Save.antt =====
-- The copies of `write_log` into the log: the disk shows what it showed before, since the header on
-- it is still empty.
use ru_shell.Base.{
  Bool-cases, List, Option, [], ap, arith, get_elem?, inl, inr, length, none, some, subst, suc, sym,
  ℕ, ◌+◌, ◌<◌, ◌==◌, ◌∙◌, ◌∷◌, ◌≡◌, ◌≤◌,
}
use ru_shell.Kernel.Log.{
  Disk, Machine, bread, contents, header_of, logblocks, modify, put, write_log,
}
use ru_shell.Kernel.Log.Header.{All}
use ru_shell.Kernel.Log.Crash.{Ends, IsHome, Shows, Shows-empty, on_disk}
use ru_shell.Kernel.Log.Copies.{copy_ne, put-put_ne, put-put_same, put_agree}
use ru_shell.Kernel.Log.Writes.{contents-bread, contents-written, write-Ends, written}

-- The blocks of `hs` below `tail` are in the log, as the buffers have them, and `bs` are left.
pub record Saving (start : ℕ) (old v : Disk) (hs : List ℕ) (tail : ℕ) (bs : List ℕ) (m : Machine)
    : Type 0 where
  pub begins : m.log.start ≡ start
  pub header : m.log.lh ≡ hs
  pub quiet : on_disk start m.disk ≡ []
  pub same : (b : ℕ) → IsHome start b → m.disk b ≡ old b
  pub buffers : (b : ℕ) → IsHome start b → contents m b ≡ v b
  pub copies : (i b : ℕ) → get_elem? hs i ≡ some b → i < tail → m.disk (start + i + 1) ≡ v b
  pub coherent : (i : ℕ) → i < logblocks → contents m (start + i + 1) ≡ m.disk (start + i + 1)
  pub suffix : (j : ℕ) → get_elem? hs (tail + j) ≡ get_elem? bs j
  pub inside : tail + length bs ≤ logblocks
  pub homes : All (IsHome start) bs

module _ (start : ℕ) (old v : Disk) (hs : List ℕ) where
  pub Saving-bread :
      (b tail : ℕ) (bs : List ℕ) (m : Machine)
      → Saving start old v hs tail bs m
      → Saving start old v hs tail bs (bread b m)
  unfolding bread
  Saving-bread b tail bs m h = record {
    begins = h.begins;
    header = h.header;
    quiet = h.quiet;
    same = h.same;
    buffers = λ a home. contents-bread b a m ∙ h.buffers a home;
    copies = h.copies;
    coherent = λ i l. contents-bread b (start + i + 1) m ∙ h.coherent i l;
    suffix = h.suffix;
    inside = h.inside;
    homes = h.homes;
  }

  copies_step :
      (tail x i b : ℕ) (d : Disk)
      → get_elem? hs (tail + 0) ≡ some x
      → (i < tail → d (start + i + 1) ≡ v b)
      → get_elem? hs i ≡ some b
      → i < tail + 1
      → put (start + tail + 1) (v x) d (start + i + 1) ≡ v b
  copies_step tail x i b d here old_copies e l = elim (Bool-cases (i == tail)) [
    | inl q ↦
        let same : i ≡ tail + 0 = ground (arith, q) in
        let entry : some x ≡ some b = sym here ∙ ap (get_elem? hs) (sym same) ∙ e in
        let at : start + i + 1 ≡ start + tail + 1 = omega (arith, same) in
        ap (put (start + tail + 1) (v x) d) at
        ∙ put-put_same (start + tail + 1) (v x) d
        ∙ ap (λ (o : Option ℕ). elim o [ none ↦ v x | some y ↦ v y ]) entry
    | inr q ↦
        let less : i < tail = ground (arith, q) in
        put-put_ne (start + tail + 1) (start + i + 1) (v x) d (λ e. omega arith) ∙ old_copies less
  ]

  Saving-written :
      (tail x p : ℕ) (bs : List ℕ) (m : Machine)
      → Saving start old v hs tail (x ∷ bs) m
      → Saving start old v hs (tail + 1) bs (written (v x) (start + tail + 1) p m)
  unfolding written modify
  Saving-written tail x p bs m h =
      let s = start + tail + 1 in
      let (o, os) = h.homes in
      let r = h.inside in
      record {
        begins = h.begins;
        header = h.header;
        quiet = ap header_of (put-put_ne s start (v x) m.disk (λ e. omega arith)) ∙ h.quiet;
        same = λ b home.
            put-put_ne s b (v x) m.disk (λ e. copy_ne start b tail home (omega arith) (sym e))
            ∙ h.same b home;
        buffers = λ b home.
            contents-written (v x) s p b m
            ∙ put-put_ne s b (v x) (contents m)
                (λ e. copy_ne start b tail home (omega arith) (sym e))
            ∙ h.buffers b home;
        copies = λ i b e. copies_step tail x i b m.disk (h.suffix 0) (h.copies i b e) e;
        coherent = λ i l.
            contents-written (v x) s p (start + i + 1) m
            ∙ put_agree s (start + i + 1) (v x) (contents m) m.disk (h.coherent i l);
        suffix = λ j. ap (get_elem? hs) (omega arith) ∙ h.suffix (suc j);
        inside = omega arith;
        homes = os;
      }

  pub write_log-Ends :
      (tail : ℕ) (bs : List ℕ) (m : Machine)
      → Saving start old v hs tail bs m
      → Ends (Shows start old) (λ w. (k : ℕ) × Saving start old v hs k [] w) (write_log tail bs m)
  unfolding write_log
  write_log-Ends tail [] m h = (tail, h)
  write_log-Ends tail (b ∷ bs) m h =
      let s = m.log.start + tail + 1 in
      let read = bread b (bread s m) in
      let hr = Saving-bread b tail (b ∷ bs) (bread s m) (Saving-bread s tail (b ∷ bs) m h) in
      let (o, os) = h.homes in
      let at : s ≡ start + tail + 1 = ap (λ x. x + tail + 1) h.begins in
      rw (hr.buffers b o) (
        write-Ends (Shows start old) (λ w. (k : ℕ) × Saving start old v hs k [] w) (v b) s read
          (write_log (tail + 1) bs) (Shows-empty start old m.disk h.quiet h.same)
          (λ p e. write_log-Ends (tail + 1) bs (written (v b) s p read) (
            subst (λ x. Saving start old v hs (tail + 1) bs (written (v b) x p read)) (sym at)
              (Saving-written tail b p bs read hr))))
