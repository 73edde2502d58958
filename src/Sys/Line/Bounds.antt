-- ===== src/Sys/Line/Bounds.antt =====
-- k_sys_TerminalReadLine stays inside its buffer.
use dogg_os.Base.{
  ℕ, ◌+◌, ◌-◌, ◌≤◌, ◌<◌, ◌≡◌, refl, ◌∙◌, true, false, List, [], ◌∷◌, Option, none, some, Bool-cases,
  inl, inr, ◌==◌, ltb, Array, update_self, update_other, arith, ltb→lt,
}
use dogg_os.Sys.Line.{
  Line, backspace, line_feed, next_cursor, next_output, echo, finish, read_keys, has_read, answer,
  read_line,
}

-- A line in a buffer of `size` bytes that held `before`.
pub record IsInside (size : ℕ) (before : Array ℕ) (line : Line) : Type 0 where
  pub cursor_inside : line.data_cursor < size
  pub terminated : line.output line.data_cursor ≡ 0
  pub behind : (j : ℕ) → size ≤ j → line.output j ≡ before j

next_cursor-le : (ch cursor : ℕ) → next_cursor ch cursor ≤ cursor + 1
unfolding next_cursor
next_cursor-le ch cursor = ground arith

next_output-behind :
    (ch cursor j : ℕ) (output : Array ℕ) → cursor < j → next_output ch cursor output j ≡ output j
unfolding next_output
next_output-behind ch cursor j output lt = elim (Bool-cases (ch == backspace)) [
  | inl back ↦ elim (Bool-cases (cursor == 0)) [
    | inl start ↦ rw (back, start) refl
    | inr inside ↦ rw (back, inside) (update_other output (cursor - 1) 0 j (λ e. omega arith))
  ]
  | inr other ↦ rw other (update_other output cursor ch j (λ e. omega arith))
]

-- What holds of a result, where there is one.
abbrev Holds : (Line → Type 0) → Option Line → Type 0
Holds P none = true ≡ true
Holds P (some line) = P line

echo-IsInside :
    (ch cursor size : ℕ) (before : Array ℕ) (r : Option Line)
    → Holds (IsInside size before) r
    → Holds (IsInside size before) (echo ch cursor r)
echo-IsInside ch cursor size before none h = h
echo-IsInside ch cursor size before (some line) h = record {
  cursor_inside = h.cursor_inside;
  terminated = h.terminated;
  behind = h.behind;
}

finish-IsInside :
    (cursor size : ℕ) (before output : Array ℕ) (keys : List ℕ)
    → cursor < size
    → ((j : ℕ) → size ≤ j → output j ≡ before j)
    → Holds (IsInside size before) (finish cursor output keys)
finish-IsInside cursor size before output keys lt same = record {
  cursor_inside = lt;
  terminated = update_self output cursor 0;
  behind = λ j le. update_other output cursor 0 j (λ e. omega arith) ∙ same j le;
}

read_keys-IsInside :
    (keys : List ℕ) (size cursor : ℕ) (before output : Array ℕ)
    → cursor < size - 1
    → ((j : ℕ) → size ≤ j → output j ≡ before j)
    → Holds (IsInside size before) (read_keys keys size cursor output)
unfolding read_keys
read_keys-IsInside [] size cursor before output lt same = refl
read_keys-IsInside (ch ∷ keys) size cursor before output lt same =
    let c = next_cursor ch cursor in
    let o = next_output ch cursor output in
    let step = next_cursor-le ch cursor in
    let still : (j : ℕ) → size ≤ j → o j ≡ before j =
      λ j le. next_output-behind ch cursor j output (omega arith) ∙ same j le in
    echo-IsInside ch cursor size before _ (elim (Bool-cases (ch == line_feed)) [
      | inl ends ↦ rw ends (finish-IsInside cursor size before output keys (omega arith) same)
      | inr other ↦ elim (Bool-cases (ltb c (size - 1))) [
        | inl more ↦
            rw (other, more)
              (read_keys-IsInside keys size c before o (ltb→lt c (size - 1) more) still)
        | inr full ↦ rw (other, full) (finish-IsInside c size before o keys (omega arith) still)
      ]
    ])

answer-has_read : (r : Option Line) (line : Line) → answer r ≡ has_read line → r ≡ some line
answer-has_read none line e = cc
answer-has_read (some other) line e = cc

-- With a buffer of two bytes or more, a line that k_sys_TerminalReadLine reads ends with a NUL inside the
-- buffer, and nothing behind the buffer is written.
pub read_line-IsInside :
    (keys : List ℕ) (output : Array ℕ) (buffer_size : ℕ) (line : Line)
    → 2 ≤ buffer_size
    → read_line true keys output buffer_size ≡ has_read line
    → IsInside buffer_size output line
unfolding read_line
read_line-IsInside keys output buffer_size line le e =
    let sized : (buffer_size == 0) ≡ false = ground arith in
    let its = answer-has_read (read_keys keys buffer_size 0 output) line (rw sized at e) in
    rw its at (read_keys-IsInside keys buffer_size 0 output output (omega arith) (λ j le. refl))
