-- ===== src/Kernel/Log/Calls.antt =====
-- What a commit leaves of the counts of the log.
use ru_shell.Base.{
  Bool, Bool-cases, List, [], ap, false, if◌then◌else◌, inl, inr, length, ltb, refl, subst, sym,
  true, ℕ, ◌+◌, ◌∙◌, ◌∷◌, ◌≡◌,
}
use ru_shell.Kernel.Log.{
  Disk, Log, Machine, Outcome, bread, bunpin, commit, contents, goes_on, install_trans, modify,
  put_header, with_lh, write_head, write_log, ◌>>=◌,
}
use ru_shell.Kernel.Log.Crash.{Ends, Ends-bind}
use ru_shell.Kernel.Log.Ready.{Ends-last}
use ru_shell.Kernel.Log.Commit.{length-none}
use ru_shell.Kernel.Log.Writes.{write-Ends, written}

abbrev pub Always : Disk → Type 0
Always _ = Unit

-- Everything but the header.
pub record SameCounts (l k : Log) : Type 0 where
  pub start : k.start ≡ l.start
  pub outstanding : k.outstanding ≡ l.outstanding
  pub committing : k.committing ≡ l.committing

SameCounts-lh : (l k : Log) (bs : List ℕ) → k ≡ l → SameCounts l (record k { lh = bs })
SameCounts-lh l k bs e = rw e (record { start = refl; outstanding = refl; committing = refl })

write_log-log :
    (tail : ℕ) (bs : List ℕ) (m : Machine) (l : Log)
    → m.log ≡ l
    → Ends Always (λ w. w.log ≡ l) (write_log tail bs m)
unfolding write_log written modify bread
write_log-log tail [] m l e = e
write_log-log tail (b ∷ bs) m l e =
    let s = m.log.start + tail + 1 in
    let read = bread b (bread s m) in
    write-Ends Always (λ w. w.log ≡ l) (contents read b) s read (write_log (tail + 1) bs) tt
      (λ p _. write_log-log (tail + 1) bs (written (contents read b) s p read) l e)

write_head-log :
    (m : Machine) (l : Log) (f : Machine → Outcome) (Q : Machine → Type 0)
    → m.log ≡ l
    → ((w : Machine) → w.log ≡ l → Ends Always Q (f w))
    → Ends Always Q (write_head m >>= f)
unfolding write_head written modify bread
write_head-log m l f Q e g =
    let s = m.log.start in
    let h = put_header m.log.lh (contents m s) in
    write-Ends Always Q h s (bread s m) f tt (λ p _. g (written h s p (bread s m)) e)

log-unpin : (r : Bool) (b : ℕ) (w : Machine) → (if r then w else bunpin b w).log ≡ w.log
unfolding bunpin
log-unpin true b w = refl
log-unpin false b w = refl

install_trans-log :
    (r : Bool) (tail : ℕ) (bs : List ℕ) (m : Machine) (l : Log)
    → m.log ≡ l
    → Ends Always (λ w. w.log ≡ l) (install_trans r tail bs m)
unfolding install_trans written modify bread
install_trans-log r tail [] m l e = e
install_trans-log r tail (b ∷ bs) m l e =
    let from = m.log.start + tail + 1 in
    let read = bread b (bread from m) in
    let d = contents read from in
    write-Ends Always (λ w. w.log ≡ l) d b read
      (λ w. install_trans r (tail + 1) bs (if r then w else bunpin b w)) tt
      (λ p _.
        let w = written d b p read in
        install_trans-log r (tail + 1) bs (if r then w else bunpin b w) l (log-unpin r b w ∙ e))

module _ (m : Machine) where
  abbrev pub Erased : Machine → Type 0
  Erased w = SameCounts m.log w.log × (w.log.lh ≡ [])

  write_head-Erased : (w : Machine) → w.log ≡ m.log → Ends Always Erased (write_head (with_lh [] w))
  write_head-Erased w e = Ends-last Always Erased (write_head (with_lh [] w)) (
      write_head-log (with_lh [] w) (record w.log { lh = [] }) goes_on Erased refl
        (λ x q.
          (subst (SameCounts m.log) (sym q) (SameCounts-lh m.log w.log [] e), ap (λ l. l.lh) q)))

  install_trans-Erased :
      (w : Machine)
      → w.log ≡ m.log
      → Ends Always Erased
          (install_trans false 0 w.log.lh w >>= (λ installed. write_head (with_lh [] installed)))
  install_trans-Erased w e =
      Ends-bind Always Erased (install_trans false 0 w.log.lh w)
        (λ installed. write_head (with_lh [] installed))
        (install_trans-log false 0 w.log.lh w m.log e) write_head-Erased

  -- A commit that ends has an empty header, and the counts that it began with.
  pub commit-counts : Ends Always Erased (commit m)
  unfolding commit
  commit-counts = elim (Bool-cases (ltb 0 (length m.log.lh))) [
    | inl e ↦ rw e (
        Ends-bind Always Erased (write_log 0 m.log.lh m)
          (λ logged. write_head logged >>= (λ committed.
            install_trans false 0 committed.log.lh committed
            >>= (λ installed. write_head (with_lh [] installed))))
          (write_log-log 0 m.log.lh m m.log refl)
          (λ w q.
            write_head-log w m.log
              (λ committed.
                install_trans false 0 committed.log.lh committed
                >>= (λ installed. write_head (with_lh [] installed)))
              Erased q install_trans-Erased))
    | inr e ↦
        rw e
          (record { start = refl; outstanding = refl; committing = refl }, length-none m.log.lh e)
  ]
