-- ===== src/Shell/Hop.antt =====
-- The directories that c-shell/src/hop.c remembers and jumps to. A string is its bytes without the
-- NUL.
use ru_shell.Base.{
  Bool, List, Option, [], codes, eq_bytes, false, find, if◌then◌else◌, length, ltb, none, some,
  true, update_first, ℕ, ◌&&◌, ◌*◌, ◌+◌, ◌==◌, ◌||◌, ◌∷◌,
}
use ru_shell.Shell.Lexer.{Bytes}
use ru_shell.Shell.Jobs.{strncpy}
pub mod Top
pub mod Best
pub mod Visits

abbrev pub string_size : ℕ
string_size = 4096

-- A node of the list `hopps`, whose numbers are not negative.
pub record HopNode : Type 0 where
  pub path : Bytes
  pub freq : ℕ
  pub last_visit : ℕ

-- The statics of the file.
pub record Hops : Type 0 where
  pub hopps : List HopNode
  pub previous_dir : Bytes

-- The calls of the system that the file makes, on a state of the system.
pub record System (W : Type 0) : Type 1 where
  pub getcwd : W → Option Bytes
  pub chdir : Bytes → W → Option W
  pub is_directory : W → Bytes → Bool
  pub time : W → ℕ
  pub malloc : W → Bool
  pub write_prev_dir : Option Bytes → Bytes → W → W
  pub save_history : List HopNode → W → W
  pub print_no_such : W → W

-- `strncmp(s, prefix, strlen(prefix)) == 0`
unfoldable pub starts_with : Bytes → Bytes → Bool
starts_with s [] = true
starts_with [] (y ∷ ys) = false
starts_with (x ∷ xs) (y ∷ ys) = x == y && starts_with xs ys

-- `strstr(s, name) != NULL`
unfoldable pub strstr : Bytes → Bytes → Bool
unfolding starts_with
strstr [] name = starts_with [] name
strstr (x ∷ xs) name = starts_with (x ∷ xs) name || strstr xs name

abbrev pub has_path : Bytes → HopNode → Bool
has_path path n = eq_bytes n.path path

unfoldable pub find_node : Bytes → List HopNode → Option HopNode
find_node path ns = find (has_path path) ns

unfoldable pub create_node : Bool → ℕ → Bytes → Option HopNode
create_node mem now path =
    if mem
    then some (record { path = strncpy string_size path; freq = 1; last_visit = now })
    else none

-- The node that is found is changed where it stands.
unfoldable pub record_visit : Bool → ℕ → Bytes → List HopNode → List HopNode
unfolding find_node create_node
record_visit mem now path ns = elim (find_node path ns) [
  | some n ↦ update_first (has_path path) (λ m. record m { freq = m.freq + 1; last_visit = now }) ns
  | none ↦ elim (create_node mem now path) [ none ↦ ns | some n ↦ n ∷ ns ]
]

unfoldable pub score : HopNode → ℕ
score n = n.freq * 1000000000 + n.last_visit

-- A score above the best so far; `none` is the -1 at the start.
abbrev pub beats : Option HopNode → HopNode → Bool
beats none n = true
beats (some b) n = ltb (score b) (score n)

abbrev pub fits : (Bytes → Bool) → Bytes → HopNode → Bool
fits exists name n = strstr n.path name && exists n.path

-- The loop of `find_best_match`.
unfoldable pub best_of : (Bytes → Bool) → Bytes → Option HopNode → List HopNode → Option HopNode
unfolding score strstr
best_of exists name best [] = best
best_of exists name best (n ∷ ns) =
    best_of exists name (if fits exists name n && beats best n then some n else best) ns

unfoldable pub find_best_match : (Bytes → Bool) → Bytes → List HopNode → Option HopNode
unfolding best_of
find_best_match exists name ns = best_of exists name none ns

module _ {W : Type 0} (sys : System W) (home : Option Bytes) where
  -- The part of `change_directory` behind the chdir.
  unfoldable pub arrive : Bytes → Hops → W → Hops × W
  unfolding record_visit
  arrive current s w =
      let w1 = sys.write_prev_dir home current w in
      elim (sys.getcwd w1) [
        | none ↦ (record s { previous_dir = current }, w1)
        | some dir ↦
            let ns = record_visit (sys.malloc w1) (sys.time w1) dir s.hopps in
            (record { hopps = ns; previous_dir = current }, sys.save_history ns w1)
      ]

  -- `change_directory`; false is its 0.
  unfoldable pub change_directory : Bytes → Hops → W → Bool × Hops × W
  unfolding arrive
  change_directory target s w = elim (sys.getcwd w) [
    | none ↦ (false, s, w)
    | some current ↦ elim (sys.chdir target w) [
      | none ↦ (false, s, w)
      | some w1 ↦ let (s2, w2) = arrive current s w1 in (true, s2, w2)
    ]
  ]

  -- A jump that says so if it fails; the flag says whether the loop goes on.
  unfoldable pub jump : Bytes → Hops → W → Bool × Hops × W
  unfolding change_directory
  jump target s w =
      let (ok, s1, w1) = change_directory target s w in
      if ok then (true, s1, w1) else (false, s1, sys.print_no_such w1)

  unfoldable pub jump_home : Hops → W → Bool × Hops × W
  unfolding jump
  jump_home s w = elim home [ none ↦ (false, s, sys.print_no_such w) | some h ↦ jump h s w ]

  unfoldable pub jump_to_match : Option HopNode → Hops → W → Bool × Hops × W
  unfolding jump
  jump_to_match none s w = (false, s, sys.print_no_such w)
  jump_to_match (some n) s w = jump n.path s w

  -- The body of the loop over the arguments.
  unfoldable pub hop_to : Bytes → Hops → W → Bool × Hops × W
  unfolding jump jump_home jump_to_match change_directory find_best_match
  hop_to argument s w =
      let (ok, s1, w1) = change_directory argument s w in
      let guess = jump_to_match (find_best_match (sys.is_directory w1) argument s1.hopps) s1 w1 in
      if eq_bytes argument (codes "~")
      then jump_home s w
      else if eq_bytes argument (codes ".")
      then (true, s, w)
      else if eq_bytes argument (codes "..")
      then jump (codes "..") s w
      else if eq_bytes argument (codes "-")
      then (if length s.previous_dir == 0 then (true, s, w) else jump s.previous_dir s w)
      else if ok
      then (true, s1, w1)
      else guess

  unfoldable pub hop_all : List Bytes → Hops → W → Hops × W
  unfolding hop_to
  hop_all [] s w = (s, w)
  hop_all (a ∷ rest) s w =
      let (on, s1, w1) = hop_to a s w in
      let after = hop_all rest s1 w1 in if on then after else (s1, w1)

  -- `hop` with the arguments behind its name, after the history is loaded.
  unfoldable pub hop : List Bytes → Hops → W → Hops × W
  unfolding hop_all jump_home
  hop [] s w = let (_, s1, w1) = jump_home s w in (s1, w1)
  hop (a ∷ rest) s w = hop_all (a ∷ rest) s w
