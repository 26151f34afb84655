-- ===== src/User/Grep.antt =====
-- The matcher of xv6/user/grep.c, on texts without their NUL.
use ru_shell.Base.{Bool, List, [], false, if◌then◌else◌, not, true, ℕ, ◌&&◌, ◌==◌, ◌||◌, ◌∷◌}
pub mod Language

abbrev pub is_star : List ℕ → Bool
is_star (c ∷ _) = c == b'*'
is_star [] = false

-- `c` matches the byte: it is that byte, or a dot.
abbrev pub matches_byte : ℕ → ℕ → Bool
matches_byte c x = c == b'.' || c == x

-- `matchstar`: `here` is `matchhere` of what stands behind the star.
unfoldable pub matchstar : (List ℕ → Bool) → ℕ → List ℕ → Bool
matchstar here c [] = here []
matchstar here c (x ∷ text) =
    let rest = matchstar here c text in here (x ∷ text) || ((x == c || c == b'.') && rest)

unfoldable pub matchhere : List ℕ → List ℕ → Bool
unfolding matchstar
matchhere [] text = true
matchhere (c ∷ []) [] = c == b'$'
matchhere (c ∷ []) (x ∷ text) = not (c == b'$') && matches_byte c x
matchhere (c ∷ d ∷ re) [] = d == b'*' && matchstar (matchhere re) c []
matchhere (c ∷ d ∷ re) (x ∷ text) =
    if d == b'*'
    then matchstar (matchhere re) c (x ∷ text)
    else matches_byte c x && matchhere (d ∷ re) text

-- The loop of `match` over the suffixes of the text.
unfoldable pub match_from : List ℕ → List ℕ → Bool
unfolding matchhere
match_from re [] = matchhere re []
match_from re (x ∷ text) = matchhere re (x ∷ text) || match_from re text

unfoldable pub grep_match : List ℕ → List ℕ → Bool
unfolding match_from matchhere
grep_match [] text = match_from [] text
grep_match (c ∷ re) text = if c == b'^' then matchhere re text else match_from (c ∷ re) text
