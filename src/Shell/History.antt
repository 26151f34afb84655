-- ===== src/Shell/History.antt =====
-- The line editor of c-shell/src/history.c, without what it draws. `buf` with `len` is a list of
-- bytes, and `hist_lines` with `hist_count` a list of strings.
use ru_shell.Base.{
  Bool, List, Option, [], false, get_elem?, if◌then◌else◌, leb, length, ltb, none, some, true, ℕ,
  ◌&&◌, ◌++◌, ◌+◌, ◌-◌, ◌==◌, ◌||◌, ◌∷◌,
}
use ru_shell.Shell.Lexer.{Bytes}
use ru_shell.Shell.Jobs.{strncpy}
pub mod Keys
pub mod Editing
pub mod Typing

abbrev pub max_hist : ℕ
max_hist = 1024

abbrev pub drop_first : List Bytes → List Bytes
drop_first [] = []
drop_first (h ∷ hs) = hs

unfoldable pub history_append : Bytes → List Bytes → List Bytes
history_append line hs =
    if length line == 0
    then hs
    else if ltb (length hs) max_hist
    then hs ++ (line ∷ [])
    else drop_first hs ++ (line ∷ [])

-- What `read` gives: a byte, nothing for good, or nothing since it was interrupted.
pub data Got : Type 0 where
  byte : ℕ → Got
  closed again : Got

-- A call of `read`, and whether SIGINT came before it returned.
pub record Read : Type 0 where
  pub sig : Bool
  pub got : Got

-- The locals of `history_read_line`, and `got_sigint`.
pub record Editor : Type 0 where
  pub buf : Bytes
  pub hist_pos : ℕ
  pub saved_current : Bytes
  pub got_sigint : Bool

abbrev pub last_off : Bytes → Bytes
last_off [] = []
last_off (c ∷ []) = []
last_off (c ∷ d ∷ cs) = c ∷ last_off (d ∷ cs)

-- A history line in the buffer; `none` is a read behind the lines.
unfoldable pub recall : ℕ → List Bytes → ℕ → Editor → Option Editor
recall bufsize hs pos e = elim (get_elem? hs pos) [
  | none ↦ none
  | some h ↦ some (record e { hist_pos = pos; buf = strncpy bufsize h })
]

-- The up arrow.
unfoldable pub arrow_up : ℕ → List Bytes → Editor → Option Editor
unfolding recall
arrow_up bufsize hs e =
    let stashed =
      if e.hist_pos == length hs then record e { saved_current = strncpy 4096 e.buf } else e in
    let recalled = recall bufsize hs (stashed.hist_pos - 1) stashed in
    if length hs == 0 then some e else if ltb 0 stashed.hist_pos then recalled else some stashed

-- The down arrow.
unfoldable pub arrow_down : ℕ → List Bytes → Editor → Option Editor
unfolding recall
arrow_down bufsize hs e =
    let pos = e.hist_pos + 1 in
    let recalled = recall bufsize hs pos e in
    if ltb e.hist_pos (length hs)
    then if pos == length hs
      then some (record e { hist_pos = pos; buf = strncpy bufsize e.saved_current })
      else recalled
    else some e

-- A printable character, which is stored while there is room.
unfoldable pub type_char : ℕ → ℕ → Editor → Editor
type_char bufsize c e =
    if leb 32 c && ltb c 127 && ltb (length e.buf + 1) bufsize
    then record e { buf = e.buf ++ (c ∷ []) }
    else e

-- How the loop ends: with a line, at the end of the input, or with no read left to handle.
pub data LoopEnd : Type 0 where
  line_end input_end waiting : LoopEnd

-- The flag after a read.
abbrev pub after_read : Read → Editor → Editor
after_read r e = record e { got_sigint = e.got_sigint || r.sig }

-- Where the reads stand: at a key, behind an escape, or behind an escape and a bracket.
pub data Mode : Type 0 where
  typing escape arrow : Mode

-- What a read leads to; `misread` is a read behind the history lines.
pub data Step : Type 0 where
  goes : Mode → Editor → Step
  ends : LoopEnd → Editor → Step
  misread : Step

-- The keys but for the escape: a newline, a Ctrl-D on an empty line, a backspace and a character.
unfoldable pub plain_key : ℕ → ℕ → Editor → Step
unfolding type_char
plain_key bufsize c e =
    if c == 10 || c == 13
    then ends line_end e
    else if c == 4 && length e.buf == 0
    then ends input_end e
    else if c == 127 || c == 8
    then goes typing (record e { buf = last_off e.buf })
    else if c == 27
    then goes escape e
    else goes typing (type_char bufsize c e)

-- The third byte of an escape sequence.
unfoldable pub arrow_key : ℕ → List Bytes → ℕ → Editor → Option Editor
unfolding arrow_up arrow_down
arrow_key bufsize hs c e =
    let up = arrow_up bufsize hs e in
    let down = arrow_down bufsize hs e in
    if c == b'A' then up else if c == b'B' then down else some e

-- A read at a key. The others, in an escape sequence, do not ask for `got_sigint`.
unfoldable pub key_read : ℕ → Got → Editor → Step
unfolding plain_key
key_read bufsize (byte c) e = plain_key bufsize c e
key_read bufsize closed e = ends input_end e
key_read bufsize again e = goes typing e

unfoldable pub escape_read : Got → Editor → Step
escape_read (byte c) e = if c == b'[' then goes arrow e else goes typing e
escape_read closed e = goes typing e
escape_read again e = goes typing e

unfoldable pub arrow_read : ℕ → List Bytes → Got → Editor → Step
unfolding arrow_key
arrow_read bufsize hs (byte c) e = elim (arrow_key bufsize hs c e) [
  | none ↦ misread
  | some e1 ↦ goes typing e1
]
arrow_read bufsize hs closed e = goes typing e
arrow_read bufsize hs again e = goes typing e

unfoldable pub edit_step : ℕ → List Bytes → Mode → Read → Editor → Step
unfolding key_read escape_read arrow_read
edit_step bufsize hs typing r e =
    let e1 = after_read r e in
    if e1.got_sigint
    then ends line_end (record e1 { got_sigint = false; buf = [] })
    else key_read bufsize r.got e1
edit_step bufsize hs escape r e = escape_read r.got (after_read r e)
edit_step bufsize hs arrow r e = arrow_read bufsize hs r.got (after_read r e)

-- The loop, on the reads to come.
unfoldable pub edit_loop : ℕ → List Bytes → Mode → List Read → Editor → Option (LoopEnd × Editor)
unfolding edit_step
edit_loop bufsize hs m [] e = some (waiting, e)
edit_loop bufsize hs m (r ∷ rs) e = elim (edit_step bufsize hs m r e) [
  | goes m1 e1 ↦ edit_loop bufsize hs m1 rs e1
  | ends end e1 ↦ some (end, e1)
  | misread ↦ none
]

abbrev pub is_input_end : LoopEnd → Bool
is_input_end input_end = true
is_input_end _ = false

-- What `history_read_line` returns: NULL, the line with its newline and the history after it, or a
-- write behind the end of `buf`.
pub data LineEnd : Type 0 where
  null overrun : LineEnd
  line : Bytes → List Bytes → LineEnd

-- The end of the function: the newline and the NUL are stored at `len` and `len + 1`.
unfoldable pub finish_line : ℕ → List Bytes → LoopEnd → Editor → LineEnd
unfolding history_append
finish_line bufsize hs end e =
    if is_input_end end && length e.buf == 0
    then null
    else if ltb (length e.buf + 1) bufsize
    then line (e.buf ++ (10 ∷ [])) (history_append (strncpy 4096 e.buf) hs)
    else overrun
