-- ===== src/Kernel/Log/Header.antt =====
-- The header of the log in a block, and where its entries lie.
use ru_shell.Base.{
  List, Option, [], arith, get_elem?, if◌then◌else◌, length, none, refl, some, suc, zero, ℕ, ◌+◌,
  ◌<◌, ◌==◌, ◌∙◌, ◌∷◌, ◌≡◌, ◌≢◌, ◌≤◌,
}
use ru_shell.Kernel.Log.{Block, header_entries, header_of, put, put_entries, put_header}

put_entries-below : (j i : ℕ) (bs : List ℕ) (h : Block) → j ≤ i → put_entries i bs h j ≡ h j
unfolding put_entries
put_entries-below j i [] h le = refl
put_entries-below j i (b ∷ bs) h le =
    put_entries-below j (i + 1) bs (put (i + 1) b h) (omega arith) ∙ ground arith

header_entries-put_entries :
    (i : ℕ) (bs : List ℕ) (h : Block) → header_entries (put_entries i bs h) i (length bs) ≡ bs
unfolding put_entries header_entries
header_entries-put_entries i [] h = refl
header_entries-put_entries i (b ∷ bs) h =
    let h' = put (i + 1) b h in
    let here : put_entries (i + 1) bs h' (i + 1) ≡ b =
      put_entries-below (i + 1) (i + 1) bs h' (omega arith) ∙ ground arith in
    cc (here, header_entries-put_entries (i + 1) bs h')

-- A header that is stored into a block is read back from it.
pub header_of-put_header : (bs : List ℕ) (h : Block) → header_of (put_header bs h) ≡ bs
unfolding put_header header_of
header_of-put_header bs h =
    rw (put_entries-below 0 0 bs (put 0 (length bs) h) (omega arith))
      (header_entries-put_entries 0 bs (put 0 (length bs) h))

-- The place of the last entry for a block, with the first entry at `i`.
abbrev pub slot : ℕ → ℕ → List ℕ → Option ℕ
slot b i [] = none
slot b i (x ∷ xs) = elim (slot b (i + 1) xs) [
  | none ↦ if x == b then some i else none
  | some j ↦ some j
]

abbrev pub All : (ℕ → Type 0) → List ℕ → Type 0
All P [] = Unit
All P (x ∷ xs) = P x × All P xs

pub All-map : {P Q : ℕ → Type 0} (xs : List ℕ) → ((x : ℕ) → P x → Q x) → All P xs → All Q xs
All-map [] f h = tt
All-map (x ∷ xs) f (h, hs) = (f x h, All-map xs f hs)

-- An entry is found no lower than the first, below the end, and holds the block.
pub slot-bounds : (b i j : ℕ) (xs : List ℕ) → slot b i xs ≡ some j → (i ≤ j) × (j < i + length xs)
slot-bounds b i j [] e = absurd (cc e)
slot-bounds b i j (x ∷ xs) e = ground (arith, slot-bounds b (i + 1) j xs)

pub slot-get_elem? :
    (b i k : ℕ) (xs : List ℕ) → slot b i xs ≡ some (i + k) → get_elem? xs k ≡ some b
slot-get_elem? b i k [] e = absurd (cc e)
slot-get_elem? b i zero (x ∷ xs) e = ground (arith, slot-bounds b (i + 1) i xs)
slot-get_elem? b i (suc k) (x ∷ xs) e = ground (arith, slot-get_elem? b (i + 1) k xs)

-- Every block of the header is found.
pub slot-found : (i : ℕ) (xs : List ℕ) → All (λ b. slot b i xs ≢ none) xs
slot-found i [] = tt
slot-found i (x ∷ xs) =
    (λ e. ground (arith, e), All-map xs (λ b h e. h (ground (arith, e))) (slot-found (i + 1) xs))
