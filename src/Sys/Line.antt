-- ===== src/Sys/Line.antt =====
-- kernel/sys/term.c: k_sys_TerminalReadLine, the editing of a line of input.
--
-- The bytes that k_io_ReadStream delivers from the terminal, one to a call, are a list; where it is used
-- up before the line ends, the call waits.
pub mod Edit
pub mod Bounds
mod Tests
use dogg_os.Base.{
  ℕ, ◌+◌, ◌-◌, Bool, true, false, List, [], ◌∷◌, Option, none, some, ◌==◌, if◌then◌else◌, ltb, ◌&&◌,
  Array, update,
}

-- A line that has been read: the buffer, the index of its NUL, the bytes sent to k_sys_TerminalPutChar,
-- and the input that is left.
pub record Line : Type 0 where
  pub output : Array ℕ
  pub data_cursor : ℕ
  pub echoed : List ℕ
  pub waiting : List ℕ

abbrev pub backspace : ℕ
backspace = 0x10

abbrev pub line_feed : ℕ
line_feed = 10

-- The cursor and the buffer after a byte that does not end the line.
unfoldable pub next_cursor : ℕ → ℕ → ℕ
next_cursor ch cursor = if ch == backspace then cursor - 1 else cursor + 1

unfoldable pub next_output : ℕ → ℕ → Array ℕ → Array ℕ
next_output ch cursor output =
    if ch == backspace
    then if cursor == 0 then output else update output (cursor - 1) 0
    else update output cursor ch

-- k_sys_TerminalPutChar is called for every byte but a backspace at the start of the line.
unfoldable pub echo_byte : ℕ → ℕ → List ℕ → List ℕ
echo_byte ch cursor echoed = if (ch == backspace) && (cursor == 0) then echoed else ch ∷ echoed

abbrev pub echo : ℕ → ℕ → Option Line → Option Line
echo ch cursor none = none
echo ch cursor (some line) = some (record line { echoed = echo_byte ch cursor line.echoed })

abbrev pub finish : ℕ → Array ℕ → List ℕ → Option Line
finish cursor output keys =
    some (record {
      output = update output cursor 0;
      data_cursor = cursor;
      echoed = [];
      waiting = keys;
    })

-- The loop.
unfoldable pub read_keys : List ℕ → ℕ → ℕ → Array ℕ → Option Line
read_keys [] size cursor output = none
read_keys (ch ∷ keys) size cursor output =
    let rest = read_keys keys size (next_cursor ch cursor) (next_output ch cursor output) in
    let full = finish (next_cursor ch cursor) (next_output ch cursor output) keys in
    echo ch cursor (
      if ch == line_feed
      then finish cursor output keys
      else if ltb (next_cursor ch cursor) (size - 1)
      then rest
      else full)

-- What a call does: it answers 0, it has read a line and answers 1, or it still waits.
pub data Answer : Type 0 where
  refused : Answer
  waits : Answer
  has_read : Line → Answer

abbrev pub answer : Option Line → Answer
answer none = waits
answer (some line) = has_read line

-- k_sys_TerminalReadLine; has_output says that `output` is not NULL.
unfoldable pub read_line : Bool → List ℕ → Array ℕ → ℕ → Answer
read_line has_output keys output buffer_size =
    if has_output
    then if buffer_size == 0 then refused else answer (read_keys keys buffer_size 0 output)
    else refused
