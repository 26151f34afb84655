-- ===== src/Kernel/Pipe/Queue.antt =====
-- The pipe of xv6/kernel/pipe.c is a queue of bytes.
use ru_shell.Base.{
  ==_iff, List, [], ap, arith, false, if◌then◌else◌, refl, subst, suc, sym, true, zero, ℕ, ◌%◌,
  ◌++◌, ◌+◌, ◌-◌, ◌<◌, ◌==◌, ◌^◌, ◌↔◌, ◌∙◌, ◌∷◌, ◌≡◌, ◌≢◌, ◌≤◌,
}
use ru_shell.Kernel.Proc.{wrap}
use ru_shell.Kernel.Pipe.{Pipe, pipe_size, push}

-- The number of bytes in the pipe, over the wrap of its two counts.
abbrev pub count : Pipe → ℕ
count p = (p.nwrite + 2 ^ 32 - p.nread) % 2 ^ 32

pub record IsPipe (p : Pipe) : Type 0 where
  pub read_bound : p.nread < 2 ^ 32
  pub write_bound : p.nwrite < 2 ^ 32
  pub room : count p ≤ pipe_size

-- `n` bytes from `r` on.
abbrev pub bytes_from : (ℕ → ℕ) → ℕ → ℕ → List ℕ
bytes_from d r zero = []
bytes_from d r (suc n) = d (r % pipe_size) ∷ bytes_from d (wrap (r + 1)) n

-- The bytes that have been written and not yet read, the oldest first.
abbrev pub contents : Pipe → List ℕ
contents p = bytes_from p.data_at p.nread (count p)

wrap_bound : (r : ℕ) → wrap (r + 1) < 2 ^ 32
wrap_bound r = omega arith

wrap_on : (r n : ℕ) → wrap (wrap (r + 1) + n) ≡ wrap (r + suc n)
wrap_on r n = omega arith

wrap_here : (r : ℕ) → r < 2 ^ 32 → r ≡ wrap (r + 0)
wrap_here r h = omega arith

-- A byte more at the end.
bytes_from-append :
    (d : ℕ → ℕ) (r n : ℕ)
    → r < 2 ^ 32
    → bytes_from d r (suc n) ≡ bytes_from d r n ++ (d (wrap (r + n) % pipe_size) ∷ [])
bytes_from-append d r zero h = ap (λ i. d (i % pipe_size) ∷ []) (wrap_here r h)
bytes_from-append d r (suc n) h =
    ap (λ l. d (r % pipe_size) ∷ l)
      (bytes_from-append d (wrap (r + 1)) n (wrap_bound r)
        ∙ ap (λ i. bytes_from d (wrap (r + 1)) n ++ (d (i % pipe_size) ∷ [])) (wrap_on r n))

-- Two arrays that agree where the bytes lie.
bytes_from-same :
    (d d' : ℕ → ℕ) (r n : ℕ)
    → r < 2 ^ 32
    → ((k : ℕ) → k < n → d (wrap (r + k) % pipe_size) ≡ d' (wrap (r + k) % pipe_size))
    → bytes_from d r n ≡ bytes_from d' r n
bytes_from-same d d' r zero h e = refl
bytes_from-same d d' r (suc n) h e =
    let x : d (r % pipe_size) ≡ d' (r % pipe_size) =
      subst (λ i. d (i % pipe_size) ≡ d' (i % pipe_size)) (sym (wrap_here r h))
        (e 0 (omega arith)) in
    let y = bytes_from-same d d' (wrap (r + 1)) n (wrap_bound r) (λ k l.
      subst (λ i. d (i % pipe_size) ≡ d' (i % pipe_size)) (sym (wrap_on r k))
        (e (suc k) (omega arith))) in
    ap (λ v. v ∷ bytes_from d (wrap (r + 1)) n) x ∙ ap (λ l. d' (r % pipe_size) ∷ l) y

other_slot :
    (r n k : ℕ)
    → k < n
    → n < pipe_size
    → (wrap (r + k) % pipe_size == wrap (r + n) % pipe_size) ≡ false
other_slot r n k h l =
    let x : wrap (r + k) % pipe_size ≢ wrap (r + n) % pipe_size = omega arith in ground arith

count_end : (r w : ℕ) → r < 2 ^ 32 → w < 2 ^ 32 → wrap (r + (w + 2 ^ 32 - r) % 2 ^ 32) ≡ w
count_end r w h l = omega arith

count_push :
    (r w : ℕ)
    → r < 2 ^ 32
    → w < 2 ^ 32
    → (w + 2 ^ 32 - r) % 2 ^ 32 < pipe_size
    → (wrap (w + 1) + 2 ^ 32 - r) % 2 ^ 32 ≡ suc ((w + 2 ^ 32 - r) % 2 ^ 32)
count_push r w h l b = omega arith

-- A byte written goes to the end.
pub push-contents :
    (ch : ℕ) (p : Pipe)
    → IsPipe p
    → count p < pipe_size
    → IsPipe (push ch p) × (contents (push ch p) ≡ contents p ++ (ch ∷ []))
unfolding push
push-contents ch p v l = (
  record {
    read_bound = v.read_bound;
    write_bound = wrap_bound p.nwrite;
    room = omega (arith, one_more);
  },
  ap (λ n. bytes_from d p.nread n) one_more
      ∙ bytes_from-append d p.nread (count p) v.read_bound
      ∙ ap (λ x. bytes_from d p.nread (count p) ++ (x ∷ [])) written
      ∙ ap (λ x. x ++ (ch ∷ []))
          (bytes_from-same d p.data_at p.nread (count p) v.read_bound
            (λ k h. kept k (outside k h))),
)
  where
    d : ℕ → ℕ
    d j = if j == p.nwrite % pipe_size then ch else p.data_at j

    one_more : count (push ch p) ≡ suc (count p)
    one_more = count_push p.nread p.nwrite v.read_bound v.write_bound l

    end : wrap (p.nread + count p) ≡ p.nwrite
    end = count_end p.nread p.nwrite v.read_bound v.write_bound

    written : d (wrap (p.nread + count p) % pipe_size) ≡ ch
    written =
        let e : (wrap (p.nread + count p) % pipe_size == p.nwrite % pipe_size) ≡ true =
          (==_iff _ _).1 (ap (λ i. i % pipe_size) end) in
        rw e refl

    outside :
        (k : ℕ) → k < count p → (wrap (p.nread + k) % pipe_size == p.nwrite % pipe_size) ≡ false
    outside k h =
        subst (λ w. (wrap (p.nread + k) % pipe_size == w % pipe_size) ≡ false) end
          (other_slot p.nread (count p) k h l)

    kept :
        (k : ℕ)
        → (wrap (p.nread + k) % pipe_size == p.nwrite % pipe_size) ≡ false
        → d (wrap (p.nread + k) % pipe_size) ≡ p.data_at (wrap (p.nread + k) % pipe_size)
    kept k e = rw e refl

abbrev pub pop : Pipe → Pipe
pop p = record p { nread = wrap (p.nread + 1) }

count_pop :
    (r w : ℕ)
    → r < 2 ^ 32
    → w < 2 ^ 32
    → r ≢ w
    → (w + 2 ^ 32 - r) % 2 ^ 32 ≡ suc ((w + 2 ^ 32 - wrap (r + 1)) % 2 ^ 32)
count_pop r w h l n = omega arith

-- The byte read is the one at the front.
pub pop-contents :
    (p : Pipe)
    → IsPipe p
    → p.nread ≢ p.nwrite
    → IsPipe (pop p) × (contents p ≡ p.data_at (p.nread % pipe_size) ∷ contents (pop p))
pop-contents p v n = (
  record {
    read_bound = wrap_bound p.nread;
    write_bound = v.write_bound;
    room = let h = v.room in omega (arith, one_less);
  },
  ap (λ m. bytes_from p.data_at p.nread m) one_less,
)
  where
    one_less : count p ≡ suc (count (pop p))
    one_less = count_pop p.nread p.nwrite v.read_bound v.write_bound n

pub empty-contents : (p : Pipe) → IsPipe p → p.nread ≡ p.nwrite → contents p ≡ []
empty-contents p v e = ap (λ n. bytes_from p.data_at p.nread n) (nothing p.nread p.nwrite e)
  where
    nothing : (r w : ℕ) → r ≡ w → (w + 2 ^ 32 - r) % 2 ^ 32 ≡ 0
    nothing r w e = omega arith

-- The test of `pipewrite` for a full pipe.
pub full_iff :
    (p : Pipe) → IsPipe p → (p.nwrite ≡ wrap (p.nread + pipe_size)) ↔ (count p ≡ pipe_size)
full_iff p v = (
  (λ e. there p.nread p.nwrite v.read_bound v.write_bound e),
  λ e. back p.nread p.nwrite v.read_bound v.write_bound e,
)
  where
    there :
        (r w : ℕ)
        → r < 2 ^ 32
        → w < 2 ^ 32
        → w ≡ wrap (r + pipe_size)
        → (w + 2 ^ 32 - r) % 2 ^ 32 ≡ pipe_size
    there r w h l e = omega arith

    back :
        (r w : ℕ)
        → r < 2 ^ 32
        → w < 2 ^ 32
        → (w + 2 ^ 32 - r) % 2 ^ 32 ≡ pipe_size
        → w ≡ wrap (r + pipe_size)
    back r w h l e = omega arith
