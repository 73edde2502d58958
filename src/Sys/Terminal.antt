-- ===== src/Sys/Terminal.antt =====
-- kernel/sys/term.c: the terminal, a ring of 8192 lines with a window of as many lines as the screen
-- has. The cursor is kept twice, as a line of the ring and as a line of the screen.
--
-- The copy of the window to the screen and the cursor of the screen are output and not modelled.
pub mod Signed
pub mod Sync
pub mod Screen
mod Tests
use dogg_os.Base.{
  ℕ, zero, suc, ◌+◌, ◌-◌, ◌*◌, ◌%◌, Bool, List, [], ◌∷◌, Option, none, some, ◌==◌, ltb, leb,
  if◌then◌else◌, Array, update, bit_and, bit_or,
}

-- A signed number of 32 bits; the name and the constructors are those of the library's integers.
pub data ℤ : Type 0 where
  pos : ℕ → ℤ
  negsuc : ℕ → ℤ

abbrev pub plus : ℤ → ℕ → ℤ
plus (pos a) n = pos (a + n)
plus (negsuc a) n = if leb (a + 1) n then pos (n - (a + 1)) else negsuc (a - n)

abbrev pub minus : ℤ → ℕ → ℤ
minus (pos a) n = if leb n a then pos (a - n) else negsuc (n - a - 1)
minus (negsuc a) n = negsuc (a + n)

-- The variables of the file, with the height of the screen.
pub record TerminalState : Type 0 where
  pub width : ℕ
  pub screen_height : ℕ
  pub color : ℕ
  pub cells : Array ℕ
  pub cursor_x : ℕ
  pub buffer_cursor_y : ℕ
  pub display_cursor_y : ℤ
  pub scroll_y : ℕ

-- K_SYS_TERM_OUTPUT_BUFFER_LINES
abbrev pub lines : ℕ
lines = 8192

-- k_sys_TerminalChar
abbrev pub terminal_char : ℕ → ℕ → ℕ
terminal_char ch color = bit_or (color * 256) ch

-- The cell under the cursor.
abbrev pub cursor_cell : TerminalState → ℕ
cursor_cell t = t.cursor_x + t.buffer_cursor_y * t.width

abbrev pub put_cell : ℕ → TerminalState → TerminalState
put_cell ch t = record t { cells = update t.cells (cursor_cell t) (terminal_char ch t.color) }

-- k_sys_TerminalCarriageReturn
abbrev pub carriage_return : TerminalState → TerminalState
carriage_return t = record t { cursor_x = 0 }

-- k_sys_TerminalPrevLine
abbrev pub prev_line : TerminalState → TerminalState
prev_line t = record t {
  cursor_x = t.width - 1;
  buffer_cursor_y = if t.buffer_cursor_y == 0 then lines - 1 else t.buffer_cursor_y - 1;
  display_cursor_y = minus t.display_cursor_y 1;
}

-- k_sys_TerminalNewLine
abbrev pub new_line : TerminalState → TerminalState
new_line t = record t {
  cursor_x = 0;
  buffer_cursor_y = (t.buffer_cursor_y + 1) % lines;
  display_cursor_y = plus t.display_cursor_y 1;
}

-- The search of k_sys_TerminalBackSpace for a line feed in a row, from `cursor` to the left.
abbrev pub line_feed_at : ℕ → ℕ → Array ℕ → Option ℕ
line_feed_at zero row cells = if bit_and (cells row) 0xff == 10 then some 0 else none
line_feed_at (suc cursor) row cells =
    let rest = line_feed_at cursor row cells in
    if bit_and (cells (suc cursor + row)) 0xff == 10 then some (suc cursor) else rest

abbrev pub found_or : Option ℕ → ℕ → ℕ
found_or none x = x
found_or (some cursor) x = cursor - 1

-- k_sys_TerminalBackSpace
abbrev pub back_space : TerminalState → TerminalState
back_space t =
    if t.cursor_x == 0
    then (let p = prev_line t in
        put_cell 32 (record p {
          cursor_x =
              found_or (line_feed_at p.cursor_x (p.buffer_cursor_y * p.width) p.cells) p.cursor_x;
        }))
    else put_cell 32 (record t { cursor_x = t.cursor_x - 1 })

-- The last case of k_sys_TerminalPutSingleChar.
abbrev pub put_glyph : ℕ → TerminalState → TerminalState
put_glyph ch t =
    let p = put_cell ch t in
    if leb t.width (t.cursor_x + 1) then new_line p else record p { cursor_x = t.cursor_x + 1 }

-- k_sys_TerminalPutSingleChar
unfoldable pub put_single_char : ℕ → TerminalState → TerminalState
put_single_char ch t =
    if ch == 10
    then new_line t
    else if ch == 16
    then back_space t
    else if ch == 13
    then carriage_return t
    else put_glyph ch t

-- The loop of k_sys_TerminalPuts.
unfoldable pub put_chars : List ℕ → TerminalState → TerminalState
put_chars [] t = t
put_chars (ch ∷ str) t = put_chars str (put_single_char ch t)

-- How far the window has to move for the cursor to be on the screen.
abbrev pub scroll_for : ℤ → ℕ → ℤ
scroll_for (negsuc n) height = negsuc n
scroll_for (pos d) height = if leb height d then pos (1 + (d - height)) else pos 0

-- One row is cleared, its first `n` cells.
unfoldable pub clear_row : ℕ → ℕ → ℕ → Array ℕ → Array ℕ
clear_row zero row blank cells = cells
clear_row (suc n) row blank cells = update (clear_row n row blank cells) (n + row) blank

-- The rows behind the cursor are cleared, one for each line that the window moves by. The row is
-- counted on past the last line of the ring.
unfoldable pub clear_rows : ℕ → ℕ → ℕ → ℕ → Array ℕ → Array ℕ
clear_rows zero start width blank cells = cells
clear_rows (suc n) start width blank cells =
    clear_rows n (start + 1) width blank (clear_row width (start * width) blank cells)

-- k_sys_TerminalScroll
abbrev pub terminal_scroll : ℤ → TerminalState → TerminalState
terminal_scroll (pos n) t = record t {
  scroll_y = if leb lines (t.scroll_y + n) then (t.scroll_y + n) % lines else t.scroll_y + n;
  display_cursor_y = minus t.display_cursor_y n;
}
terminal_scroll (negsuc n) t = record t {
  scroll_y = if leb (n + 1) t.scroll_y then t.scroll_y - (n + 1) else t.scroll_y + lines - (n + 1);
  display_cursor_y = plus t.display_cursor_y (n + 1);
}

abbrev pub clear_for : ℤ → TerminalState → TerminalState
clear_for (negsuc n) t = t
clear_for (pos n) t = record t {
  cells = clear_rows n ((t.buffer_cursor_y + 1) % lines) t.width (terminal_char 32 t.color) t.cells;
}

abbrev pub settle : TerminalState → TerminalState
settle t =
    let scroll = scroll_for t.display_cursor_y t.screen_height in
    terminal_scroll scroll (clear_for scroll t)

-- k_sys_TerminalPuts
unfoldable pub puts : List ℕ → TerminalState → TerminalState
puts str t = settle (put_chars str t)
