-- ===== src/Kernel/Log/Commit.antt =====
-- `commit`: whenever the machine stops, the disk shows all of a transaction or nothing of it.
use ru_shell.Kernel.Log.Save.{Saving, Saving-bread, write_log-Ends}
use ru_shell.Base.{
  Bool-cases, List, [], ap, arith, false, get_elem?, inl, inr, length, ltb, refl, subst, sym, ℕ,
  ◌∷◌, ◌≡◌, ◌⊎◌,
}
use ru_shell.Kernel.Log.{
  Disk, Machine, Outcome, bread, commit, contents, crashed, goes_on, install_trans, modify,
  put_header, with_lh, write_head, write_log, ◌>>=◌,
}
use ru_shell.Kernel.Log.Crash.{Ends, Ends-bind, Shows, Shows-empty}
use ru_shell.Kernel.Log.Writes.{written}
use ru_shell.Kernel.Log.Install.{Installing, install_trans-Ends}
use ru_shell.Kernel.Log.Ready.{
  IsReady, Settled, committed-Installing, erased-Ends, intended, write_head-Ends,
}

-- The disk that a commit leaves, in full or at a stop.
abbrev pub EitherDisk : Machine → Disk → Type 0
EitherDisk m d = Shows m.log.start m.disk d ⊎ Shows m.log.start (intended m) d

Ends-map :
    {C C' : Disk → Type 0} {Q Q' : Machine → Type 0} (o : Outcome)
    → ((d : Disk) → C d → C' d)
    → ((m : Machine) → Q m → Q' m)
    → Ends C Q o
    → Ends C' Q' o
Ends-map (crashed d) f g h = f d h
Ends-map (goes_on m) f g h = g m h

-- The disk of a machine with nothing to commit.
intended-none : (m : Machine) (b : ℕ) → m.log.lh ≡ [] → intended m b ≡ m.disk b
unfolding intended
intended-none m b e = cc e

pub length-none : (xs : List ℕ) → ltb 0 (length xs) ≡ false → xs ≡ []
length-none [] e = refl
length-none (x ∷ xs) e = ground arith

commit-Saving :
    (m : Machine) → IsReady m → Saving m.log.start m.disk (contents m) m.log.lh 0 m.log.lh m
commit-Saving m h = record {
  begins = refl;
  header = refl;
  quiet = h.quiet;
  same = λ b _. refl;
  buffers = λ b _. refl;
  copies = λ i b _ l. absurd (omega arith);
  coherent = h.coherent;
  suffix = λ j. ap (get_elem? m.log.lh) (omega arith);
  inside = let r = h.room in omega arith;
  homes = h.homes;
}

module _ (m : Machine) (h : IsReady m) where
  -- The rest of a commit, behind its true point.
  installed-Ends :
      (w : Machine)
      → Installing m.log.start (intended m) m.log.lh 0 m.log.lh w
      → Ends
          (EitherDisk m)
          (Settled m.log.start (intended m))
          (install_trans false 0 m.log.lh w >>= (λ installed. write_head (with_lh [] installed)))
  installed-Ends w i =
      let c = EitherDisk m in
      let q = Settled m.log.start (intended m) in
      Ends-bind c q (install_trans false 0 m.log.lh w)
        (λ installed. write_head (with_lh [] installed))
        (Ends-map (install_trans false 0 m.log.lh w) (λ d s. inr s) (λ x s. s)
          (install_trans-Ends m.log.start (intended m) m.log.lh false 0 m.log.lh w i))
        (λ x s.
          Ends-map (write_head (with_lh [] x)) (λ d s. inr s) (λ x s. s)
            (erased-Ends m.log.start (intended m) x s))

  head-Ends :
      (k : ℕ) (logged : Machine)
      → Saving m.log.start m.disk (contents m) m.log.lh k [] logged
      → Ends (EitherDisk m) (Settled m.log.start (intended m)) (
          write_head logged >>= (λ committed.
            install_trans false 0 committed.log.lh committed
            >>= (λ installed. write_head (with_lh [] installed))))
  unfolding written modify bread
  head-Ends k logged s =
      let c = EitherDisk m in
      let q = Settled m.log.start (intended m) in
      let rest = λ (hs : List ℕ) (w : Machine).
        install_trans false 0 hs w >>= (λ installed. write_head (with_lh [] installed)) in
      write_head-Ends c q m.log.start logged (λ w. rest w.log.lh w) s.begins
        (inl (Shows-empty m.log.start m.disk logged.disk s.quiet s.same))
        (λ p d.
          subst
            (λ hs.
              Ends c q
                (rest hs (written (put_header hs d) m.log.start p (bread m.log.start logged))))
            (sym s.header)
            (installed-Ends
              (written (put_header m.log.lh d) m.log.start p (bread m.log.start logged))
              (committed-Installing m.log.start (intended m) m.disk (contents m) m.log.lh p k d
                (bread m.log.start logged) (λ b home. unfold intended in refl) h.room h.homes
                (Saving-bread m.log.start m.disk (contents m) m.log.lh m.log.start k [] logged s))))

pub commit-Ends :
    (m : Machine) → IsReady m → Ends (EitherDisk m) (Settled m.log.start (intended m)) (commit m)
unfolding commit
commit-Ends m h = elim (Bool-cases (ltb 0 (length m.log.lh))) [
  | inl e ↦ rw e (
      Ends-bind (EitherDisk m) (Settled m.log.start (intended m)) (write_log 0 m.log.lh m)
        (λ logged. write_head logged >>= (λ committed.
          install_trans false 0 committed.log.lh committed
          >>= (λ installed. write_head (with_lh [] installed))))
        (Ends-map (write_log 0 m.log.lh m) (λ d s. inl s) (λ x s. s)
          (write_log-Ends m.log.start m.disk (contents m) m.log.lh 0 m.log.lh m
            (commit-Saving m h)))
        (λ logged (k, s). head-Ends m h k logged s))
  | inr e ↦
      let none_left : m.log.lh ≡ [] = length-none m.log.lh e in
      rw e (record {
        quiet = h.quiet;
        plain = λ b _. sym (intended-none m b none_left);
        coherent = h.coherent;
      })
]
