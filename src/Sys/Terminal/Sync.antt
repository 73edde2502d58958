-- ===== src/Sys/Terminal/Sync.antt =====
-- Every character keeps the two cursors of the terminal on the same line.
use dogg_os.Base.{
  ℕ, zero, suc, ◌+◌, ◌-◌, ◌*◌, ◌≤◌, ◌<◌, ◌≡◌, refl, ◌∙◌, List, [], ◌∷◌, length, leb, ◌==◌,
  Bool-cases, inl, inr, bit_and, Array, arith,
}
use dogg_os.Sys.Terminal.{
  TerminalState, put_cell, prev_line, new_line, line_feed_at, found_or, back_space, put_glyph,
  put_single_char, put_chars,
}
use dogg_os.Sys.Terminal.Signed.{
  Aligned, Above, Aligned-plus, Aligned-minus, Above-plus, Above-minus, Above-more, Above-le,
}

-- The cursors are in range and on the same line, at most `k` lines above the screen.
pub record IsSynced (k : ℕ) (t : TerminalState) : Type 0 where
  pub column : t.cursor_x < t.width
  pub line : t.buffer_cursor_y < 8192
  pub scroll : t.scroll_y < 8192
  pub aligned : Aligned t.display_cursor_y t.scroll_y t.buffer_cursor_y
  pub above : Above t.display_cursor_y k

module _ (k : ℕ) (t : TerminalState) (s : IsSynced k t) where
  new_line-IsSynced : IsSynced (k + 1) (new_line t)
  new_line-IsSynced = record {
    column = omega (arith, s.column);
    line = omega arith;
    scroll = s.scroll;
    aligned =
        Aligned-plus t.display_cursor_y t.scroll_y t.buffer_cursor_y s.scroll s.line s.aligned;
    above = Above-plus t.display_cursor_y k s.above;
  }

  prev_line-IsSynced : IsSynced (k + 1) (prev_line t)
  prev_line-IsSynced = record {
    column = omega (arith, s.column);
    line = ground (arith, s.line);
    scroll = s.scroll;
    aligned =
        Aligned-minus t.display_cursor_y t.scroll_y t.buffer_cursor_y s.scroll s.line s.aligned;
    above = Above-minus t.display_cursor_y k s.above;
  }

  -- The column may change freely within the width.
  moved-IsSynced : (x : ℕ) → x < t.width → IsSynced (k + 1) (record t { cursor_x = x })
  moved-IsSynced x lt = record {
    column = lt;
    line = s.line;
    scroll = s.scroll;
    aligned = s.aligned;
    above = Above-more t.display_cursor_y k s.above;
  }

recolumn-IsSynced :
    (k x : ℕ) (t : TerminalState)
    → IsSynced k t
    → x < t.width
    → IsSynced k (record t { cursor_x = x })
recolumn-IsSynced k x t s lt = record {
  column = lt;
  line = s.line;
  scroll = s.scroll;
  aligned = s.aligned;
  above = s.above;
}

line_feed_at-le :
    (cursor row x : ℕ) (cells : Array ℕ)
    → cursor ≤ x
    → found_or (line_feed_at cursor row cells) x ≤ x
line_feed_at-le zero row x cells le = elim (Bool-cases (bit_and (cells row) 0xff == 10)) [
  | inl e ↦ rw e (omega arith)
  | inr e ↦ rw e (omega arith)
]
line_feed_at-le (suc cursor) row x cells le =
    elim (Bool-cases (bit_and (cells (suc cursor + row)) 0xff == 10)) [
      | inl e ↦ rw e (omega arith)
      | inr e ↦ rw e (line_feed_at-le cursor row x cells (omega arith))
    ]

put_cell-IsSynced : (k ch : ℕ) (t : TerminalState) → IsSynced k t → IsSynced k (put_cell ch t)
put_cell-IsSynced k ch t s = record {
  column = s.column;
  line = s.line;
  scroll = s.scroll;
  aligned = s.aligned;
  above = s.above;
}

back_space-IsSynced : (k : ℕ) (t : TerminalState) → IsSynced k t → IsSynced (k + 1) (back_space t)
back_space-IsSynced k t s = elim (Bool-cases (t.cursor_x == 0)) [
  | inl edge ↦
      let p = prev_line t in
      let x = found_or (line_feed_at p.cursor_x (p.buffer_cursor_y * p.width) p.cells) p.cursor_x in
      let le : x ≤ p.cursor_x =
        line_feed_at-le p.cursor_x (p.buffer_cursor_y * p.width) p.cursor_x p.cells (omega arith) in
      let lt : x < t.width = omega (arith, le, s.column) in
      rw edge (
        put_cell-IsSynced (k + 1) 32 _
          (recolumn-IsSynced (k + 1) x p (prev_line-IsSynced k t s) lt))
  | inr inside ↦ rw inside (
      put_cell-IsSynced (k + 1) 32 _
        (moved-IsSynced k t s (t.cursor_x - 1) (omega (arith, s.column))))
]

put_glyph-IsSynced :
    (k ch : ℕ) (t : TerminalState) → IsSynced k t → IsSynced (k + 1) (put_glyph ch t)
put_glyph-IsSynced k ch t s = elim (Bool-cases (leb t.width (t.cursor_x + 1))) [
  | inl full ↦ rw full (new_line-IsSynced k (put_cell ch t) (put_cell-IsSynced k ch t s))
  | inr room ↦
      let lt : t.cursor_x + 1 < t.width = ground arith in
      rw room (moved-IsSynced k (put_cell ch t) (put_cell-IsSynced k ch t s) (t.cursor_x + 1) lt)
]

put_single_char-IsSynced :
    (k ch : ℕ) (t : TerminalState) → IsSynced k t → IsSynced (k + 1) (put_single_char ch t)
unfolding put_single_char
put_single_char-IsSynced k ch t s = elim (Bool-cases (ch == 10)) [
  | inl a ↦ rw a (new_line-IsSynced k t s)
  | inr a ↦ elim (Bool-cases (ch == 16)) [
    | inl b ↦ rw (a, b) (back_space-IsSynced k t s)
    | inr b ↦ elim (Bool-cases (ch == 13)) [
      | inl c ↦ rw (a, b, c) (moved-IsSynced k t s 0 (omega (arith, s.column)))
      | inr c ↦ rw (a, b, c) (put_glyph-IsSynced k ch t s)
    ]
  ]
]

pub put_chars-IsSynced :
    (str : List ℕ) (k : ℕ) (t : TerminalState)
    → IsSynced k t
    → IsSynced (k + length str) (put_chars str t)
unfolding put_chars
put_chars-IsSynced [] k t s = let same : k + 0 ≡ k = omega arith in rw same s
put_chars-IsSynced (ch ∷ str) k t s =
    let same : k + suc (length str) ≡ k + 1 + length str = omega arith in
    rw same
      (put_chars-IsSynced str (k + 1) (put_single_char ch t) (put_single_char-IsSynced k ch t s))

-- The height of the screen stays as it is.
back_space-height : (t : TerminalState) → (back_space t).screen_height ≡ t.screen_height
back_space-height t = elim (Bool-cases (t.cursor_x == 0)) [ inl e ↦ rw e refl | inr e ↦ rw e refl ]

put_glyph-height : (ch : ℕ) (t : TerminalState) → (put_glyph ch t).screen_height ≡ t.screen_height
put_glyph-height ch t = elim (Bool-cases (leb t.width (t.cursor_x + 1))) [
  | inl e ↦ rw e refl
  | inr e ↦ rw e refl
]

put_single_char-height :
    (ch : ℕ) (t : TerminalState) → (put_single_char ch t).screen_height ≡ t.screen_height
unfolding put_single_char
put_single_char-height ch t = elim (Bool-cases (ch == 10)) [
  | inl a ↦ rw a refl
  | inr a ↦ elim (Bool-cases (ch == 16)) [
    | inl b ↦ rw (a, b) (back_space-height t)
    | inr b ↦ elim (Bool-cases (ch == 13)) [
      | inl c ↦ rw (a, b, c) refl
      | inr c ↦ rw (a, b, c) (put_glyph-height ch t)
    ]
  ]
]

pub put_chars-height :
    (str : List ℕ) (t : TerminalState) → (put_chars str t).screen_height ≡ t.screen_height
unfolding put_chars
put_chars-height [] t = refl
put_chars-height (ch ∷ str) t =
    put_chars-height str (put_single_char ch t) ∙ put_single_char-height ch t

pub weaken-IsSynced : (k m : ℕ) (t : TerminalState) → k ≤ m → IsSynced k t → IsSynced m t
weaken-IsSynced k m t le s = record {
  column = s.column;
  line = s.line;
  scroll = s.scroll;
  aligned = s.aligned;
  above = Above-le t.display_cursor_y k m le s.above;
}
