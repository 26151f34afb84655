-- ===== src/User/Sh/Halts.antt =====
-- The parser of xv6/user/sh.c ends on every text.
use ru_shell.Base.{
  List, [], arith, codes, inl, inr, leb, length, not, suc, zero, ℕ, ◌*◌, ◌++◌, ◌+◌, ◌<◌, ◌==◌, ◌∷◌,
  ◌≢◌, ◌≤◌,
}
use ru_shell.User.Sh.{
  Cmd, Parsed, backcmd, execcmd, gettoken, maxargs, panic, panics, parseargs, parsebacks,
  parseblock, parsecmd, parsed, parseexec, parseline, parsepipe, parseredirs, pure, runs_out,
  skip_white, token, token_here, wrap_redirs, ◌>>=◌,
}
use ru_shell.User.Sh.Leaves.{
  Leaves, Leaves-bind, Leaves-if, Leaves-weaken, peek-bind, skip_white-cases, token-any,
  token-front,
}

parseredirs-Leaves : (n : ℕ) (s : List ℕ) → length s < n → Leaves (length s) (parseredirs n s)
unfolding parseredirs
parseredirs-Leaves zero s l = absurd (omega arith)
parseredirs-Leaves (suc n) s l =
    peek-bind (codes "<>") _ s (length s) (omega arith) (λ c t b w. b)
      (λ c t b w. Leaves-bind token _ (c ∷ t) (length t) (length s) (token-front c t w) (λ x r1 b1.
        Leaves-bind token _ r1 (length r1) (length s) (token-any r1) (λ y r2 b2.
          Leaves-if (not (y.0 == b'a')) panic _ r2 (length s) tt (
            Leaves-bind (parseredirs n) _ r2 (length r2) (length s)
              (parseredirs-Leaves n r2 (omega arith)) (λ z r3 b3. omega arith)))))

parseargs-Leaves : (n argc : ℕ) (s : List ℕ) → length s < n → Leaves (length s) (parseargs n argc s)
unfolding parseargs
parseargs-Leaves zero argc s l = absurd (omega arith)
parseargs-Leaves (suc n) argc s l =
    peek-bind (codes "|)&;") _ s (length s)
      (unfold token gettoken token_here skip_white in omega arith)
      (λ c t b w. Leaves-bind token _ (c ∷ t) (length t) (length s) (token-front c t w) (λ x r b1.
        Leaves-if (x.0 == 0) (pure ([], [])) _ r (length s) (omega arith) (
          Leaves-if (not (x.0 == b'a')) panic _ r (length s) tt (
            Leaves-if (leb maxargs (argc + 1)) panic _ r (length s) tt (
              Leaves-bind (parseredirs n) _ r (length r) (length s)
                (parseredirs-Leaves n r (omega arith))
                (λ y r2 b2.
                  Leaves-bind (parseargs n (argc + 1)) _ r2 (length r2) (length s)
                    (parseargs-Leaves n (argc + 1) r2 (omega arith)) (λ z r3 b3. omega arith)))))))
      (λ c t b w. b)

parsebacks-Leaves :
    (n : ℕ) (c : Cmd) (s : List ℕ) → length s < n → Leaves (length s) (parsebacks n c s)
unfolding parsebacks
parsebacks-Leaves zero c s l = absurd (omega arith)
parsebacks-Leaves (suc n) cmd s l =
    peek-bind (codes "&") _ s (length s) (omega arith) (λ c t b w. b)
      (λ c t b w. Leaves-bind token _ (c ∷ t) (length t) (length s) (token-front c t w) (λ x r b1.
        Leaves-weaken (length r) (length s) (parsebacks n (backcmd cmd) r) (omega arith)
          (parsebacks-Leaves n (backcmd cmd) r (omega arith))))

words-Leaves :
    (n : ℕ) (r : List ℕ) (k : ℕ)
    → length r < n
    → length r ≤ k
    → Leaves k (
        (parseredirs n >>= (λ redirs.
            parseargs n 0 >>= (λ p. pure (wrap_redirs (execcmd p.0) (redirs ++ p.1)))))
          r)
words-Leaves n r k l b =
    Leaves-bind (parseredirs n) _ r (length r) k (parseredirs-Leaves n r l) (λ x r1 b1.
      Leaves-bind (parseargs n 0) _ r1 (length r1) k (parseargs-Leaves n 0 r1 (omega arith))
        (λ y r2 b2. omega arith))

mutual
  unfolding parseline

  parseline-Leaves : (n : ℕ) (s : List ℕ) → 4 * length s + 4 ≤ n → Leaves (length s) (parseline n s)
  parseline-Leaves zero s l = absurd (omega arith)
  parseline-Leaves (suc n) s l =
      Leaves-bind (parsepipe n) _ s (length s) (length s) (parsepipe-Leaves n s (omega arith))
        (λ first r1 b1.
          Leaves-bind (parsebacks n first) _ r1 (length r1) (length s)
            (parsebacks-Leaves n first r1 (omega arith))
            (λ cmd r2 b2.
              peek-bind (codes ";") _ r2 (length s) (omega arith) (λ c t b w. omega arith)
                (λ c t b w.
                  Leaves-bind token _ (c ∷ t) (length t) (length s) (token-front c t w) (λ x r3 b3.
                    Leaves-bind (parseline n) _ r3 (length r3) (length s)
                      (parseline-Leaves n r3 (omega arith)) (λ y r4 b4. omega arith)))))

  parsepipe-Leaves : (n : ℕ) (s : List ℕ) → 4 * length s + 3 ≤ n → Leaves (length s) (parsepipe n s)
  parsepipe-Leaves zero s l = absurd (omega arith)
  parsepipe-Leaves (suc n) s l =
      Leaves-bind (parseexec n) _ s (length s) (length s) (parseexec-Leaves n s (omega arith))
        (λ cmd r1 b1.
          peek-bind (codes "|") _ r1 (length s) (omega arith) (λ c t b w. omega arith)
            (λ c t b w.
              Leaves-bind token _ (c ∷ t) (length t) (length s) (token-front c t w) (λ x r3 b3.
                Leaves-bind (parsepipe n) _ r3 (length r3) (length s)
                  (parsepipe-Leaves n r3 (omega arith)) (λ y r4 b4. omega arith))))

  parseblock-Leaves :
      (n : ℕ) (s : List ℕ) → 4 * length s + 1 ≤ n → Leaves (length s) (parseblock n s)
  parseblock-Leaves zero s l = absurd (omega arith)
  parseblock-Leaves (suc n) s l =
      peek-bind (codes "(") _ s (length s) tt (λ c t b w. tt)
        (λ c t b w.
          Leaves-bind token _ (c ∷ t) (length t) (length s) (token-front c t w) (λ x r1 b1.
            Leaves-bind (parseline n) _ r1 (length r1) (length s)
              (parseline-Leaves n r1 (omega arith))
              (λ cmd r2 b2.
                peek-bind (codes ")") _ r2 (length s) tt (λ c t b w. tt)
                  (λ c2 t2 b3 w2.
                    Leaves-bind token _ (c2 ∷ t2) (length t2) (length s) (token-front c2 t2 w2)
                      (λ y r3 b4.
                        Leaves-bind (parseredirs n) _ r3 (length r3) (length s)
                          (parseredirs-Leaves n r3 (omega arith)) (λ z r4 b5. omega arith))))))

  parseexec-Leaves : (n : ℕ) (s : List ℕ) → 4 * length s + 2 ≤ n → Leaves (length s) (parseexec n s)
  parseexec-Leaves zero s l = absurd (omega arith)
  parseexec-Leaves (suc n) s l =
      peek-bind (codes "(") _ s (length s)
        (words-Leaves n [] (length s) (omega arith) (omega arith))
        (λ c t b w. words-Leaves n (c ∷ t) (length s) (omega arith) b)
        (λ c t b w.
          Leaves-weaken (suc (length t)) (length s) (parseblock n (c ∷ t)) b
            (parseblock-Leaves n (c ∷ t) (omega arith)))

nothing_left :
    (m : ℕ) (o : Parsed Cmd)
    → Leaves m o
    → elim o [
      | panics ↦ panics
      | runs_out ↦ runs_out
      | parsed cmd rest ↦ elim (skip_white rest) [ [] ↦ parsed cmd [] | c ∷ more ↦ panics ]
    ]
      ≢ runs_out
nothing_left m panics h e = absurd (cc e)
nothing_left m runs_out h e = h
nothing_left m (parsed cmd rest) h e = elim (skip_white-cases rest) [
  | inl n ↦ absurd (cc (n, e))
  | inr (c, t, n, w) ↦ absurd (cc (n, e))
]

-- `parsecmd` ends on every text, with a command or a panic: its fuel never runs out.
pub parsecmd_terminates : (s : List ℕ) → parsecmd s ≢ runs_out
unfolding parsecmd
parsecmd_terminates s e =
    nothing_left (length s) (parseline (4 * length s + 4) s)
      (parseline-Leaves (4 * length s + 4) s (omega arith)) e
