-- ===== src/Sys/Line/Tests.antt =====
-- Runs of k_sys_TerminalReadLine, and the examples of the theorems on it.
use dogg_os.Base.{ℕ, ◌≡◌, refl, true, List, [], ◌∷◌, some, Array, arith, update}
use dogg_os.Sys.Line.{Line, read_keys, next_cursor, next_output, echo_byte, has_read, read_line}
use dogg_os.Sys.Line.Edit.{edit, press, answer_text, read_line-edit}
use dogg_os.Sys.Line.Bounds.{IsInside, read_line-IsInside}

abbrev nothing_yet : Array ℕ
nothing_yet i = 7

-- "ac", a backspace, "b", and the end of the line.
abbrev keys : List ℕ
keys = 97 ∷ 99 ∷ 0x10 ∷ 98 ∷ 10 ∷ []

typed : edit keys 8 [] ≡ some (98 ∷ 97 ∷ [])
unfolding edit press
typed = refl

abbrev line : Line
line = record {
  output = update (update (update (update (update nothing_yet 0 97) 1 99) 1 0) 1 98) 2 0;
  data_cursor = 2;
  echoed = keys;
  waiting = [];
}

reads : read_line true keys nothing_yet 8 ≡ has_read line
unfolding read_line read_keys next_cursor next_output echo_byte
reads = refl

read_line-edit_example : answer_text (read_line true keys nothing_yet 8) ≡ edit keys 8 []
read_line-edit_example = read_line-edit keys nothing_yet 8 (omega arith)

read_line-IsInside_example : IsInside 8 nothing_yet line
read_line-IsInside_example = read_line-IsInside keys nothing_yet 8 line (omega arith) reads
