-- ===== src/Shell/Lexer.antt =====
-- c-shell/src/lexer.c and c-shell/include/lexer.h. A line is the list of its bytes before the
-- NUL, and the position `i` is the list of the bytes from `i` on.
use ru_shell.Base.{
  Bool, List, Option, [], false, if◌then◌else◌, leb, length, none, some, suc, true, zero, ℕ, ◌*◌,
  ◌++◌, ◌+◌, ◌==◌, ◌||◌, ◌∷◌,
}
pub mod Buffer
pub mod Progress
pub mod Shape
pub mod Quotes
pub mod RoundTrip

abbrev pub Bytes : Type 0
Bytes = List ℕ

pub data TokenType : Type 0 where
  word pipe amp semi lt gt gtgt eof : TokenType

-- `value` is NULL but for words.
pub record Token : Type 0 where
  pub type : TokenType
  pub value : Option Bytes

pub record TokenList : Type 0 where
  pub items : List Token
  pub count : ℕ

-- The answers of the heap to the allocations to come. Past the end of the list all succeed.
abbrev pub Heap : Type 0
Heap = List Bool

infixl 5 ◌>>=◌
abbrev pub ◌>>=◌ {ℓ κ} : {A : Type ℓ} {B : Type κ} → Option A → (A → Option B) → Option B
none >>= f = none
some a >>= f = f a

-- `none` is a NULL from malloc or realloc.
abbrev pub malloc : Heap → Option Heap
malloc [] = some []
malloc (true ∷ h) = some h
malloc (false ∷ h) = none

unfoldable pub is_special : ℕ → Bool
is_special c = c == b'|' || c == b'&' || c == b'>' || c == b'<' || c == b';'

unfoldable pub is_space : ℕ → Bool
is_space c = c == b' ' || c == b'\t' || c == b'\n' || c == b'\r'

abbrev pub tokenlist_init : TokenList
tokenlist_init = record { items = []; count = 0 }

unfoldable pub tokenlist_append :
    TokenList → TokenType → Option Bytes → Heap → Option (TokenList × Heap)
tokenlist_append l t v h = do
  h' ← malloc h
  some (record { items = l.items ++ record { type = t; value = v } ∷ []; count = l.count + 1 }, h')

-- `data` is NULL, or the bytes before the NUL that `buf_push` keeps behind them.
pub record Buf : Type 0 where
  pub contents : Option Bytes
  pub len : ℕ
  pub cap : ℕ

-- With the heap that is left, since a NULL from malloc is only stored here.
unfoldable pub buf_init : Heap → Buf × Heap
buf_init [] = (record { contents = some []; len = 0; cap = 32 }, [])
buf_init (true ∷ h) = (record { contents = some []; len = 0; cap = 32 }, h)
buf_init (false ∷ h) = (record { contents = none; len = 0; cap = 32 }, h)

-- data[len++] = c; data[len] = '\0';
abbrev pub buf_store : Buf → Bytes → ℕ → Buf
buf_store b d c = record b { contents = some (d ++ c ∷ []); len = b.len + 1 }

unfoldable pub buf_push : Buf → ℕ → Heap → Option (Buf × Heap)
buf_push b c h = do
  d ← b.contents
  h' ← (if leb b.cap (b.len + 1) then malloc h else some h)
  some (buf_store (record b { cap = if leb b.cap (b.len + 1) then b.cap * 2 else b.cap }) d c, h')

-- `read_word`: the outer loop, what follows a backslash in it, the loop between double quotes,
-- what follows a backslash there, and the loop between single quotes. `none` is -1; else the
-- result is what `*i` points at, with the buffer.
unfoldable mutual
  pub read_word : Bytes → Buf → Heap → Option (Bytes × Buf × Heap)
  read_word [] b h = some ([], b, h)
  read_word (c ∷ cs) b h = elim (is_space c || is_special c) [
    | true ↦ some (c ∷ cs, b, h)
    | false ↦ elim (c == b'\\') [
      | true ↦ read_escape cs b h
      | false ↦ elim (c == b'"') [
        | true ↦ read_double cs b h
        | false ↦ elim (c == b'\'') [
          | true ↦ read_single cs b h
          | false ↦ do (b', h') ← buf_push b c h; read_word cs b' h'
        ]
      ]
    ]
  ]

  pub read_escape : Bytes → Buf → Heap → Option (Bytes × Buf × Heap)
  read_escape [] b h = none
  read_escape (c ∷ cs) b h = do (b', h') ← buf_push b c h; read_word cs b' h'

  pub read_double : Bytes → Buf → Heap → Option (Bytes × Buf × Heap)
  read_double [] b h = none
  read_double (c ∷ cs) b h = elim (c == b'"') [
    | true ↦ read_word cs b h
    | false ↦ elim (c == b'\\') [
      | true ↦ read_double_escape cs b h
      | false ↦ do (b', h') ← buf_push b c h; read_double cs b' h'
    ]
  ]

  pub read_double_escape : Bytes → Buf → Heap → Option (Bytes × Buf × Heap)
  read_double_escape [] b h = none
  read_double_escape (c ∷ cs) b h = elim (c == b'"' || c == b'\\') [
    | true ↦ do (b', h') ← buf_push b c h; read_double cs b' h'
    | false ↦ do
      (b', h') ← buf_push b b'\\' h
      (b'', h'') ← buf_push b' c h'
      read_double cs b'' h''
  ]

  pub read_single : Bytes → Buf → Heap → Option (Bytes × Buf × Heap)
  read_single [] b h = none
  read_single (c ∷ cs) b h = elim (c == b'\'') [
    | true ↦ read_word cs b h
    | false ↦ do (b', h') ← buf_push b c h; read_single cs b' h'
  ]

-- What `lex_line` returns and prints: 0 with the list; -1 with "invalid syntax" on the standard
-- output; -1 with "out of memory" on the standard error. `no_fuel` is no result of the code.
pub data LexResult : Type 0 where
  lexed : TokenList → LexResult
  syntax_error out_of_memory no_fuel : LexResult

-- `>` or `>>`
unfoldable pub angle : Bytes → TokenType × Bytes
angle [] = (gt, [])
angle (d ∷ ds) = if d == b'>' then (gtgt, ds) else (gt, d ∷ ds)

-- A token of one or two bytes: its type, and the line behind it.
unfoldable pub operator : ℕ → Bytes → Option (TokenType × Bytes)
operator c cs =
    if c == b'|'
    then some (pipe, cs)
    else if c == b'&'
    then some (amp, cs)
    else if c == b';'
    then some (semi, cs)
    else if c == b'<'
    then some (lt, cs)
    else if c == b'>'
    then some (angle cs)
    else none

-- `tokenlist_append(...) != 0` goes to `alloc_fail`, else the loop goes on with the new list.
abbrev pub append_then :
    TokenList → TokenType → Option Bytes → Heap → (TokenList → Heap → LexResult) → LexResult
append_then out t v h next = elim (tokenlist_append out t v h) [
  | none ↦ out_of_memory
  | some (out', h') ↦ next out' h'
]

-- After `read_word`; the first argument is the rest of the loop.
unfoldable pub push_word :
    (Bytes → TokenList → Heap → LexResult) → TokenList → Option (Bytes × Buf × Heap) → LexResult
push_word next out none = syntax_error
push_word next out (some (rest, b, h)) = append_then out word b.contents h (next rest)

-- From "start word" to the end of the loop's body.
unfoldable pub lex_word :
    (Bytes → TokenList → Heap → LexResult) → Bytes → TokenList → Heap → LexResult
unfolding push_word
lex_word next line out h =
    let (buf, h') = buf_init h in
    elim buf.contents [ none ↦ out_of_memory | some _ ↦ push_word next out (read_word line buf h') ]

-- The `while` loop, and the TOK_EOF behind it.
unfoldable pub lex_loop : ℕ → Bytes → TokenList → Heap → LexResult
lex_loop zero line out h = no_fuel
lex_loop (suc f) [] out h = append_then out eof none h (λ out' h'. lexed out')
lex_loop (suc f) (c ∷ cs) out h = elim (is_space c) [
  | true ↦ lex_loop f cs out h
  | false ↦ elim (operator c cs) [
    | some (t, rest) ↦ append_then out t none h (lex_loop f rest)
    | none ↦ lex_word (lex_loop f) (c ∷ cs) out h
  ]
]

unfoldable pub lex_line : Bytes → Heap → LexResult
lex_line line = lex_loop (suc (length line)) line tokenlist_init
