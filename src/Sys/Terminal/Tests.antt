-- ===== src/Sys/Terminal/Tests.antt =====
-- The example of the theorem on the terminal, and runs.
use dogg_os.Base.{◌*◌, ◌≡◌, refl, [], ◌∷◌, arith}
use dogg_os.Sys.Terminal.{
  pos, TerminalState, puts, put_chars, put_single_char, clear_rows, clear_row,
}
use dogg_os.Sys.Terminal.Sync.{IsSynced}
use dogg_os.Sys.Terminal.Screen.{OnScreen, puts-IsSynced}

-- A screen of four lines of two columns, with the cursor in its last line, which is line 8189 of the
-- ring.
abbrev narrow : TerminalState
narrow = record {
  width = 2;
  screen_height = 4;
  color = 15;
  cells = λ i. 0x0f20;
  cursor_x = 1;
  buffer_cursor_y = 8189;
  display_cursor_y = pos 3;
  scroll_y = 8186;
}

narrow-IsSynced : IsSynced 0 narrow
narrow-IsSynced = record {
  column = omega arith;
  line = omega arith;
  scroll = omega arith;
  aligned = refl;
  above = omega arith;
}

-- a, line feed, line feed, b
puts-IsSynced_example :
    IsSynced 0 (puts (97 ∷ 10 ∷ 10 ∷ 98 ∷ []) narrow)
    × OnScreen (puts (97 ∷ 10 ∷ 10 ∷ 98 ∷ []) narrow).display_cursor_y 4
puts-IsSynced_example =
    puts-IsSynced (97 ∷ 10 ∷ 10 ∷ 98 ∷ []) narrow (omega arith) (omega arith) narrow-IsSynced

-- The cursor wraps to line 0 of the ring, and the window to line 8189.
puts_run :
    ((puts (97 ∷ 10 ∷ 10 ∷ 98 ∷ []) narrow).buffer_cursor_y ≡ 0)
    × ((puts (97 ∷ 10 ∷ 10 ∷ 98 ∷ []) narrow).display_cursor_y ≡ pos 3)
    × ((puts (97 ∷ 10 ∷ 10 ∷ 98 ∷ []) narrow).scroll_y ≡ 8189)
unfolding puts put_chars put_single_char
puts_run = (refl, refl, refl)

abbrev high : TerminalState
high = record narrow { buffer_cursor_y = 8188; scroll_y = 8185; cursor_x = 0 }

-- Two line feeds with the cursor left in line 8190: rows 8191 and 8192 are cleared, and the second
-- lies behind the end of the ring.
clear_behind_run : (puts (10 ∷ 10 ∷ []) (record high { color = 7 })).cells (8192 * 2) ≡ 0x0720
unfolding puts put_chars put_single_char clear_rows clear_row
clear_behind_run = refl
