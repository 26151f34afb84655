-- ===== src/Kernel/Fs/Paths/Elements.antt =====
-- The elements of path names, and the end of `namex`, of xv6/kernel/fs.c.
use ru_shell.Base.{
  Bool, Bool-cases, List, Option-cases, [], ap, arith, false, inl, inr, length, refl, some, suc,
  take, zero, ℕ, ◌<◌, ◌==◌, ◌∷◌, ◌≡◌, ◌≤◌, ◌⊎◌,
}
use ru_shell.Kernel.Fs.{Fs}
use ru_shell.Kernel.Fs.Paths.{dirsiz, path_step, skip_slashes, skipelem, split_slash, walk_path}

skip_slashes-length : (s : List ℕ) → length (skip_slashes s) ≤ length s
unfolding skip_slashes
skip_slashes-length [] = omega arith
skip_slashes-length (c ∷ s) = let h = skip_slashes-length s in ground (arith, h)

skip_slashes-cases :
    (s : List ℕ)
    → (skip_slashes s ≡ [])
      ⊎ ((c : ℕ) × (t : List ℕ) × (skip_slashes s ≡ c ∷ t) × ((c == b'/') ≡ false))
unfolding skip_slashes
skip_slashes-cases [] = inl refl
skip_slashes-cases (c ∷ s) = elim (Bool-cases (c == b'/')) [
  | inl w ↦ rw (w, skip_slashes) (skip_slashes-cases s)
  | inr w ↦ inr (c, s, rw (w, skip_slashes) refl, w)
]

split_slash-length : (s : List ℕ) → length (split_slash s).1 ≤ length s
unfolding split_slash
split_slash-length [] = omega arith
split_slash-length (c ∷ s) = let h = split_slash-length s in ground (arith, h)

-- An element takes its first byte.
split_slash-shorter :
    (c : ℕ) (s : List ℕ) → (c == b'/') ≡ false → length (split_slash (c ∷ s)).1 ≤ length s
unfolding split_slash
split_slash-shorter c s w = rw w (split_slash-length s)

-- What is left behind an element is shorter.
pub skipelem-shorter :
    (path e rest : List ℕ) → skipelem path ≡ some (e, rest) → length rest < length path
unfolding skipelem
skipelem-shorter path e rest h = elim (skip_slashes-cases path) [
  | inl n ↦ absurd (cc (n, h))
  | inr (c, t, n, w) ↦
      let far = skip_slashes-length path in
      let element = split_slash-shorter c t w in
      let left = skip_slashes-length (split_slash (c ∷ t)).1 in
      let got : skipelem path
          ≡ some (take dirsiz (split_slash (c ∷ t)).0, skip_slashes (split_slash (c ∷ t)).1) =
        rw (n, skipelem) refl in
      let same : rest ≡ skip_slashes (split_slash (c ∷ t)).1 = cc (h, got) in
      ground (arith, ap length n, ap length same, far, element, left)
]

-- Two amounts of fuel greater than the length of the path.
walk_path-fuel :
    (n m i : ℕ) (path : List ℕ) (parent : Bool)
    → length path < n
    → length path < m
    → walk_path n i path parent ≡ walk_path m i path parent
unfolding walk_path
walk_path-fuel zero m i path parent h k = absurd (omega (arith, h))
walk_path-fuel (suc n) zero i path parent h k = absurd (omega (arith, k))
walk_path-fuel (suc n) (suc m) i path parent h k = elim (Option-cases (skipelem path)) [
  | inl e ↦ rw (e, walk_path) refl
  | inr (step, e) ↦
      let shorter = skipelem-shorter path step.0 step.1 e in
      rw (e, walk_path)
        (ap (λ next. path_step next i step parent)
          (λ j a.
            walk_path-fuel n m a step.1 parent (omega (arith, h, shorter))
              (omega (arith, k, shorter)) j))
]

-- Path names end: on any fuel greater than the length of the path, the loop of `namex` gives what
-- it gives on the fuel of `namex`, whatever the directories hold.
pub walk_path_enough :
    (n i : ℕ) (path : List ℕ) (parent : Bool) (fs : Fs)
    → length path < n
    → walk_path n i path parent fs ≡ walk_path (suc (length path)) i path parent fs
walk_path_enough n i path parent fs h j =
    walk_path-fuel n (suc (length path)) i path parent h (omega arith) j fs
