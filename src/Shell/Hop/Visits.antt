-- ===== src/Shell/Hop/Visits.antt =====
-- The visits that c-shell/src/hop.c counts.
use ru_shell.Base.{
  Bool-cases, List, Option, Option-cases, [], ap, eq_bytes, eq_bytes_iff, false, find, inl, inr,
  none, refl, some, sym, true, update_first, ℕ, ◌+◌, ◌∙◌, ◌∷◌, ◌≡◌, ◌≢◌,
}
use ru_shell.Shell.Lexer.{Bytes}
use ru_shell.Shell.Jobs.{strncpy}
use ru_shell.Shell.Hop.{HopNode, create_node, find_node, has_path, record_visit, string_size}

abbrev pub visited : ℕ → HopNode → HopNode
visited now m = record m { freq = m.freq + 1; last_visit = now }

-- What the list says of a path after a visit of it: one visit more, now.
abbrev pub one_more : ℕ → Bytes → Option HopNode → Option HopNode
one_more now path none = some (record { path = path; freq = 1; last_visit = now })
one_more now path (some n) = some (visited now n)

find-visited :
    (now : ℕ) (path : Bytes) (ns : List HopNode) (n : HopNode)
    → find (has_path path) ns ≡ some n
    → find (has_path path) (update_first (has_path path) (visited now) ns) ≡ some (visited now n)
find-visited now path [] n e = absurd (cc)
find-visited now path (m ∷ ns) n e = elim (Bool-cases (has_path path m)) [
  | inl f ↦
      let x : m ≡ n = here f e in rw (update_first, f, find, f) (ap (λ r. some (visited now r)) x)
  | inr f ↦ rw (update_first, f, find, f) (find-visited now path ns n (behind f e))
]
  where
    here : has_path path m ≡ true → find (has_path path) (m ∷ ns) ≡ some n → m ≡ n
    here f e = let y : find (has_path path) (m ∷ ns) ≡ some m = rw (find, f) refl in cc

    behind :
        has_path path m ≡ false
        → find (has_path path) (m ∷ ns) ≡ some n
        → find (has_path path) ns ≡ some n
    behind f e =
        let y : find (has_path path) (m ∷ ns) ≡ find (has_path path) ns = rw (find, f) refl in
        sym y ∙ e

-- A path is not two.
other_path :
    (path elsewhere p : Bytes)
    → elsewhere ≢ path
    → eq_bytes p path ≡ true
    → eq_bytes p elsewhere ≡ false
other_path path elsewhere p n e = elim (Bool-cases (eq_bytes p elsewhere)) [
  | inl f ↦ absurd (n (sym ((eq_bytes_iff p elsewhere).0 f) ∙ (eq_bytes_iff p path).0 e))
  | inr f ↦ f
]

find_other :
    (now : ℕ) (path elsewhere : Bytes) (ns : List HopNode)
    → elsewhere ≢ path
    → find (has_path elsewhere) (update_first (has_path path) (visited now) ns)
      ≡ find (has_path elsewhere) ns
find_other now path elsewhere [] n = refl
find_other now path elsewhere (m ∷ ns) n = elim (Bool-cases (has_path path m)) [
  | inl f ↦ let g = other_path path elsewhere m.path n f in rw (update_first, f, find, g) refl
  | inr f ↦ elim (Bool-cases (has_path elsewhere m)) [
    | inl g ↦ rw (update_first, f, find, g) refl
    | inr g ↦ rw (update_first, f, find, g) (find_other now path elsewhere ns n)
  ]
]

record_visit-new :
    (now : ℕ) (path : Bytes) (ns : List HopNode)
    → strncpy string_size path ≡ path
    → find_node path ns ≡ none
    → record_visit true now path ns ≡ record { path = path; freq = 1; last_visit = now } ∷ ns
unfolding record_visit create_node
record_visit-new now path ns short e =
    let front : Bytes → List HopNode = λ p. record { path = p; freq = 1; last_visit = now } ∷ ns in
    rw (record_visit, e) (ap front short)

record_visit-old :
    (now : ℕ) (path : Bytes) (ns : List HopNode) (n : HopNode)
    → find_node path ns ≡ some n
    → record_visit true now path ns ≡ update_first (has_path path) (visited now) ns
unfolding record_visit
record_visit-old now path ns n e = rw (record_visit, e) refl

-- A new node in front is found by its path.
find_new :
    (now : ℕ) (path : Bytes) (ns : List HopNode)
    → find (has_path path) (record { path = path; freq = 1; last_visit = now } ∷ ns)
      ≡ some (record { path = path; freq = 1; last_visit = now })
find_new now path ns = let e = (eq_bytes_iff path path).1 refl in rw (find, e) refl

find_behind :
    (now : ℕ) (path elsewhere : Bytes) (ns : List HopNode)
    → elsewhere ≢ path
    → find (has_path elsewhere) (record { path = path; freq = 1; last_visit = now } ∷ ns)
      ≡ find (has_path elsewhere) ns
find_behind now path elsewhere ns n =
    let e = other_path path elsewhere path n ((eq_bytes_iff path path).1 refl) in rw (find, e) refl

-- With memory, a visit of a directory is counted for its path and no other: the node of the path has
-- one visit more, or is new with one, and was visited now. The path is shorter than STRING_SIZE.
pub find_node-record_visit :
    (now : ℕ) (path : Bytes) (ns : List HopNode)
    → strncpy string_size path ≡ path
    → (find_node path (record_visit true now path ns) ≡ one_more now path (find_node path ns))
      × ((elsewhere : Bytes)
          → elsewhere ≢ path
          → find_node elsewhere (record_visit true now path ns) ≡ find_node elsewhere ns)
unfolding find_node record_visit create_node
find_node-record_visit now path ns short = elim (Option-cases (find_node path ns)) [
  | inl e ↦
      let x = record_visit-new now path ns short e in
      (
        ap (find (has_path path)) x ∙ find_new now path ns ∙ ap (one_more now path) (sym e),
        λ elsewhere n. ap (find (has_path elsewhere)) x ∙ find_behind now path elsewhere ns n,
      )
  | inr (n, e) ↦
      let x = record_visit-old now path ns n e in
      (
        ap (find (has_path path)) x ∙ find-visited now path ns n e ∙ ap (one_more now path) (sym e),
        λ elsewhere n. ap (find (has_path elsewhere)) x ∙ find_other now path elsewhere ns n,
      )
]
