-- ===== src/Shell/Lexer/Buffer.antt =====
-- The growing buffer of a word: what it holds, and that its writes stay inside the allocation.
use ru_shell.Base.{
  [], arith, if◌then◌else◌, leb, length, length-append, refl, some, ℕ, ◌*◌, ◌++◌, ◌+◌, ◌<◌, ◌∷◌,
  ◌≡◌, ◌⊎◌,
}
use ru_shell.Shell.Lexer.{Buf, Bytes, Heap, buf_init, buf_push, buf_store}

-- The buffer holds the bytes `d`, with room for the NUL behind them at `data[len]`.
pub record Holds (b : Buf) (d : Bytes) : Type 0 where
  pub contents_are : b.contents ≡ some d
  pub len_is : b.len ≡ length d
  pub fits : b.len < b.cap

pub buf_init-Holds : Holds (buf_init []).0 []
unfolding buf_init
buf_init-Holds = record { contents_are = refl; len_is = refl; fits = omega arith }

-- The buffer after a push of `c` onto the bytes `d`.
abbrev pub pushed : Buf → Bytes → ℕ → Buf
pushed b d c = buf_store (record b { cap = if leb b.cap (b.len + 1) then b.cap * 2 else b.cap }) d c

pub pushed-Holds : (b : Buf) (d : Bytes) (c : ℕ) → Holds b d → Holds (pushed b d c) (d ++ c ∷ [])
pushed-Holds b d c v = ground (arith, length-append d (c ∷ []))

-- With a heap that answers, a push succeeds.
pub buf_push_succeeds :
    (b : Buf) (d : Bytes) (c : ℕ) → Holds b d → buf_push b c [] ≡ some (pushed b d c, [])
unfolding buf_push
buf_push_succeeds b d c v = ground arith

-- A push that succeeds appends its byte, and both writes, `data[len]` and `data[len + 1]`, are
-- below the capacity behind it, which is the old one or twice that.
pub buf_push-Holds :
    (b b' : Buf) (d : Bytes) (c : ℕ) (h h' : Heap)
    → Holds b d
    → buf_push b c h ≡ some (b', h')
    → Holds b' (d ++ c ∷ []) × (b.len + 1 < b'.cap) × ((b'.cap ≡ b.cap) ⊎ (b'.cap ≡ b.cap * 2))
unfolding buf_push
buf_push-Holds b b' d c h h' v e = ground (arith, length-append d (c ∷ []))
