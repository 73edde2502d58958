-- ===== src/Sys/Terminal/Screen.antt =====
-- k_sys_TerminalPuts brings the cursor back to the screen.
use dogg_os.Base.{
  ℕ, ◌+◌, ◌-◌, ◌%◌, ◌≤◌, ◌<◌, ◌≡◌, refl, ◌∙◌, true, List, length, leb, if◌then◌else◌, Bool-cases,
  inl, inr, arith,
}
use dogg_os.Sys.Terminal.{
  ℤ, pos, negsuc, plus, minus, TerminalState, scroll_for, terminal_scroll, clear_for, settle,
  put_chars, puts,
}
use dogg_os.Sys.Terminal.Signed.{Aligned, Above}
use dogg_os.Sys.Terminal.Sync.{IsSynced, put_chars-IsSynced, put_chars-height, weaken-IsSynced}

-- A line of the screen.
abbrev pub OnScreen : ℤ → ℕ → Type 0
OnScreen z height = (d : ℕ) × (z ≡ pos d) × (d < height)

abbrev scrolled : ℤ → ℕ → ℕ
scrolled (pos n) scroll = if leb 8192 (scroll + n) then (scroll + n) % 8192 else scroll + n
scrolled (negsuc n) scroll =
    if leb (n + 1) scroll then scroll - (n + 1) else scroll + 8192 - (n + 1)

abbrev less : ℤ → ℤ → ℤ
less z (pos n) = minus z n
less z (negsuc n) = plus z (n + 1)

-- The window moves so that the line of the cursor is on the screen, and it is the same line.
settle-line :
    (z : ℤ) (scroll line height : ℕ)
    → 0 < height
    → scroll < 8192
    → line < 8192
    → Aligned z scroll line
    → Above z 8192
    → (d : ℕ) × (less z (scroll_for z height) ≡ pos d)
      × (d < height)
      × (scrolled (scroll_for z height) scroll < 8192)
      × ((scrolled (scroll_for z height) scroll + d) % 8192 ≡ line)
settle-line (negsuc n) scroll line height h s l a up =
    let whole : leb (n + 1) (n + 1) ≡ true = ground arith in
    let none : n + 1 - (n + 1) ≡ 0 = omega arith in
    (0, rw (whole, none) refl, h, ground arith, ground arith)
settle-line (pos d) scroll line height h s l a up = elim (Bool-cases (leb height d)) [
  | inl below ↦
      let le : height ≤ d = ground arith in
      let low : leb (1 + (d - height)) d ≡ true = ground arith in
      let last : d - (1 + (d - height)) ≡ height - 1 = omega arith in
      (
        height - 1,
        rw (below, low, last) refl,
        omega arith,
        rw below (ground arith),
        rw below (ground arith),
      )
  | inr on ↦
      let zero_low : leb 0 d ≡ true = ground arith in
      let same : d - 0 ≡ d = omega arith in
      let lt : d < height = ground arith in
      (d, rw (on, zero_low, same) refl, lt, rw on (ground arith), rw on (ground arith))
]

-- The window that k_sys_TerminalScroll leaves.
terminal_scroll-display :
    (z : ℤ) (t : TerminalState)
    → (terminal_scroll z (clear_for z t)).display_cursor_y ≡ less t.display_cursor_y z
terminal_scroll-display (pos n) t = refl
terminal_scroll-display (negsuc n) t = refl

terminal_scroll-scroll :
    (z : ℤ) (t : TerminalState)
    → (terminal_scroll z (clear_for z t)).scroll_y ≡ scrolled z t.scroll_y
terminal_scroll-scroll (pos n) t = refl
terminal_scroll-scroll (negsuc n) t = refl

terminal_scroll-same :
    (z : ℤ) (t : TerminalState)
    → ((terminal_scroll z (clear_for z t)).buffer_cursor_y ≡ t.buffer_cursor_y)
      × ((terminal_scroll z (clear_for z t)).cursor_x ≡ t.cursor_x)
      × ((terminal_scroll z (clear_for z t)).width ≡ t.width)
terminal_scroll-same (pos n) t = (refl, refl, refl)
terminal_scroll-same (negsuc n) t = (refl, refl, refl)

settle-IsSynced :
    (t : TerminalState)
    → 0 < t.screen_height
    → IsSynced 8192 t
    → IsSynced 0 (settle t) × OnScreen (settle t).display_cursor_y t.screen_height
settle-IsSynced t h s =
    let z = scroll_for t.display_cursor_y t.screen_height in
    let (d, at, lt, small, aligned) =
      settle-line t.display_cursor_y t.scroll_y t.buffer_cursor_y t.screen_height h s.scroll s.line
        s.aligned s.above in
    let (line, column, width) = terminal_scroll-same z t in
    let display : (settle t).display_cursor_y ≡ pos d = terminal_scroll-display z t ∙ at in
    let scroll = terminal_scroll-scroll z t in
    (
      record {
        column = rw (column, width) s.column;
        line = rw line s.line;
        scroll = rw scroll small;
        aligned = rw (display, scroll, line) aligned;
        above = rw display (omega arith);
      },
      (d, display, lt),
    )

-- A string of up to 8192 characters leaves the cursor on the screen, and line `display_cursor_y` of
-- the window is the line of the ring that the cursor is in, if that was so before.
pub puts-IsSynced :
    (str : List ℕ) (t : TerminalState)
    → length str ≤ 8192
    → 0 < t.screen_height
    → IsSynced 0 t
    → IsSynced 0 (puts str t) × OnScreen (puts str t).display_cursor_y t.screen_height
unfolding puts
puts-IsSynced str t short h s =
    let same = put_chars-height str t in
    let typed =
      weaken-IsSynced (0 + length str) 8192 (put_chars str t) (omega arith)
        (put_chars-IsSynced str 0 t s) in
    let (synced, (d, at, lt)) = settle-IsSynced (put_chars str t) (rw same h) typed in
    (synced, (d, at, omega (arith, lt, same)))
