-- ===== src/User/Sh/Tokens.antt =====
-- Tokens of xv6/user/sh.c as they are printed: a word with a space behind it, or a symbol.
use ru_shell.Base.{
  Bool, List, [], ap, arith, false, not, refl, true, ℕ, ◌&&◌, ◌++◌, ◌==◌, ◌||◌, ◌∷◌, ◌≡◌,
}
use ru_shell.User.Sh.{
  among, gettoken, is_symbol, is_white, parsed, peek, skip_white, starts_with, take_word,
  token_here,
}

-- A byte of a word.
abbrev pub is_plain : ℕ → Bool
is_plain c = not (is_white c || is_symbol c)

abbrev pub all_plain : List ℕ → Bool
all_plain [] = true
all_plain (c ∷ w) = is_plain c && all_plain w

abbrev pub is_word : List ℕ → Bool
is_word [] = false
is_word (c ∷ w) = is_plain c && all_plain w

-- A text that is empty, or begins with a byte that is not white.
abbrev pub starts : List ℕ → Bool
starts [] = true
starts (c ∷ s) = not (is_white c)

pub and_parts : (a b : Bool) → (a && b) ≡ true → (a ≡ true) × (b ≡ true)
and_parts true b h = (refl, h)
and_parts false b h = absurd (cc h)

not-true : (a : Bool) → not a ≡ true → a ≡ false
not-true true h = absurd (cc h)
not-true false h = refl

pub skip_white-starts : (s : List ℕ) → starts s ≡ true → skip_white s ≡ s
unfolding skip_white
skip_white-starts [] h = refl
skip_white-starts (c ∷ s) h = let w = not-true (is_white c) h in rw (w, skip_white) refl

-- A space in front is skipped.
pub skip_white-space : (s : List ℕ) → starts s ≡ true → skip_white (32 ∷ s) ≡ s
unfolding skip_white
skip_white-space s h = skip_white-starts s h

or_parts : (a b : Bool) → (a || b) ≡ false → (a ≡ false) × (b ≡ false)
or_parts true b h = absurd (cc h)
or_parts false b h = (refl, h)

-- A word up to a space.
take_word-plain : (w s : List ℕ) → all_plain w ≡ true → take_word (w ++ 32 ∷ s) ≡ (w, 32 ∷ s)
unfolding take_word
take_word-plain [] s h = refl
take_word-plain (c ∷ w) s h =
    let (p, q) = and_parts (is_plain c) (all_plain w) h in
    let rest = take_word-plain w s q in
    let n = not-true (is_white c || is_symbol c) p in rw (rest, n) refl

pub gettoken-word :
    (w s : List ℕ) → is_word w ≡ true → starts s ≡ true → gettoken (w ++ 32 ∷ s) ≡ (b'a', w, s)
unfolding gettoken token_here
gettoken-word [] s h g = absurd (cc h)
gettoken-word (c ∷ w) s h g =
    let (p, q) = and_parts (is_plain c) (all_plain w) h in
    let (white, symbol) =
      or_parts (is_white c) (is_symbol c) (not-true (is_white c || is_symbol c) p) in
    let here = take_word-plain w s q in
    let both = not-true (is_white c || is_symbol c) p in
    let first = skip_white-starts (c ∷ w ++ 32 ∷ s) (ap not white) in
    let last = skip_white-space s g in
    let n : (c == b'>') ≡ false = ground (arith, symbol) in
    rw (first, n, here, both, symbol, last) refl

pub gettoken-symbol :
    (c : ℕ) (s : List ℕ)
    → is_symbol c ≡ true
    → is_white c ≡ false
    → (c == b'>') ≡ false
    → starts s ≡ true
    → gettoken (c ∷ s) ≡ (c, c ∷ [], s)
unfolding gettoken token_here
gettoken-symbol c s y w n h =
    let first = skip_white-starts (c ∷ s) (ap not w) in
    let last = skip_white-starts s h in rw (first, n, y, last) refl

pub gettoken-from : (s : List ℕ) → starts s ≡ true → gettoken (b'<' ∷ 32 ∷ s) ≡ (b'<', b'<' ∷ [], s)
unfolding gettoken token_here skip_white
gettoken-from s h = rw (skip_white-starts s h) refl

pub gettoken-to : (s : List ℕ) → starts s ≡ true → gettoken (b'>' ∷ 32 ∷ s) ≡ (b'>', b'>' ∷ [], s)
unfolding gettoken token_here skip_white
gettoken-to s h = rw (skip_white-starts s h) refl

pub gettoken-append :
    (s : List ℕ) → starts s ≡ true → gettoken (b'>' ∷ b'>' ∷ 32 ∷ s) ≡ (b'+', b'>' ∷ b'>' ∷ [], s)
unfolding gettoken token_here skip_white
gettoken-append s h = rw (skip_white-starts s h) refl

pub gettoken-end : gettoken [] ≡ (0, [], [])
unfolding gettoken token_here skip_white
gettoken-end = refl

pub peek-starts : (toks s : List ℕ) → starts s ≡ true → peek toks s ≡ parsed (starts_with toks s) s
unfolding peek
peek-starts toks s h = rw (skip_white-starts s h) refl

pub starts-word : (w s : List ℕ) → is_word w ≡ true → starts (w ++ s) ≡ true
starts-word [] s h = absurd (cc h)
starts-word (c ∷ w) s h =
    let (p, _) = and_parts (is_plain c) (all_plain w) h in
    let (white, _) = or_parts (is_white c) (is_symbol c) (not-true (is_white c || is_symbol c) p) in
    ap not white

-- A word begins with none of the symbols.
pub symbols-word :
    (toks w s : List ℕ)
    → is_word w ≡ true
    → ((c : ℕ) → is_symbol c ≡ false → among toks c ≡ false)
    → starts_with toks (w ++ s) ≡ false
symbols-word toks [] s h f = absurd (cc h)
symbols-word toks (c ∷ w) s h f =
    let (p, _) = and_parts (is_plain c) (all_plain w) h in
    let (_, symbol) =
      or_parts (is_white c) (is_symbol c) (not-true (is_white c || is_symbol c) p) in
    f c symbol
