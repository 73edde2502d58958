-- ===== src/Sys/Line/Edit.antt =====
-- k_sys_TerminalReadLine edits a line as a stack of bytes, and stays inside its buffer.
use dogg_os.Base.{
  ℕ, zero, suc, ◌+◌, ◌-◌, ◌≤◌, ◌<◌, ◌≡◌, refl, sym, ap, ◌∙◌, true, false, List, [], ◌∷◌, Option,
  none, some, Bool-cases, inl, inr, ◌==◌, if◌then◌else◌, ltb, length, Array, update, update_self,
  update_other, arith,
}
use dogg_os.Sys.Line.{
  Line, backspace, line_feed, next_cursor, next_output, echo, read_keys, Answer, refused, waits,
  has_read, answer, read_line,
}

-- The first `n` bytes of the buffer, the last first.
unfoldable pub written : ℕ → Array ℕ → List ℕ
written zero output = []
written (suc n) output = output n ∷ written n output

abbrev pub drop_last : List ℕ → List ℕ
drop_last [] = []
drop_last (x ∷ xs) = xs

unfoldable pub press : ℕ → List ℕ → List ℕ
press ch typed = if ch == backspace then drop_last typed else ch ∷ typed

-- The editor of lines: bytes are pushed, a backspace drops the last, a line feed or a full buffer ends
-- the line. none is a line that has not ended.
unfoldable pub edit : List ℕ → ℕ → List ℕ → Option (List ℕ)
edit [] size typed = none
edit (ch ∷ keys) size typed =
    let rest = edit keys size (press ch typed) in
    if ch == line_feed
    then some typed
    else if ltb (length (press ch typed)) (size - 1)
    then rest
    else some (press ch typed)

abbrev pub line_text : Option Line → Option (List ℕ)
line_text none = none
line_text (some line) = some (written line.data_cursor line.output)

written-update :
    (n i v : ℕ) (output : Array ℕ) → n ≤ i → written n (update output i v) ≡ written n output
unfolding written
written-update zero i v output le = refl
written-update (suc n) i v output le =
    rw (update_other output i v n (λ e. omega arith), written-update n i v output (omega arith))
      refl

length-written : (n : ℕ) (output : Array ℕ) → length (written n output) ≡ n
unfolding written
length-written zero output = refl
length-written (suc n) output = ap suc (length-written n output)

plus_one : (n : ℕ) → n + 1 ≡ suc n
plus_one n = omega arith

one_less : (n : ℕ) → suc n - 1 ≡ n
one_less n = omega arith

not_zero : (n : ℕ) → (suc n == 0) ≡ false
not_zero n = ground arith

-- One byte.
written-press :
    (ch cursor : ℕ) (output : Array ℕ)
    → written (next_cursor ch cursor) (next_output ch cursor output)
      ≡ press ch (written cursor output)
unfolding next_cursor next_output press written
written-press ch cursor output = elim (Bool-cases (ch == backspace)) [
  | inl back ↦ rw back (dropped cursor)
  | inr other ↦
      rw
        (
          other,
          plus_one cursor,
          update_self output cursor ch,
          written-update cursor cursor ch output (omega arith),
        )
        refl
]
  where
    dropped :
        (n : ℕ)
        → written (n - 1) (if n == 0 then output else update output (n - 1) 0)
          ≡ drop_last (written n output)
    dropped zero = refl
    dropped (suc n) = rw (one_less n, not_zero n) (written-update n n 0 output (omega arith))

line_text-echo : (ch cursor : ℕ) (r : Option Line) → line_text (echo ch cursor r) ≡ line_text r
line_text-echo ch cursor none = refl
line_text-echo ch cursor (some line) = refl

pub read_keys-edit :
    (keys : List ℕ) (size cursor : ℕ) (output : Array ℕ)
    → line_text (read_keys keys size cursor output) ≡ edit keys size (written cursor output)
unfolding read_keys edit
read_keys-edit [] size cursor output = refl
read_keys-edit (ch ∷ keys) size cursor output =
    line_text-echo ch cursor _ ∙ elim (Bool-cases (ch == line_feed)) [
      | inl ends ↦ rw (ends, written-update cursor cursor 0 output (omega arith)) refl
      | inr other ↦
          let c = next_cursor ch cursor in
          let o = next_output ch cursor output in
          let size_of : length (press ch (written cursor output)) ≡ c =
            ap length (sym (written-press ch cursor output)) ∙ length-written c o in
          elim (Bool-cases (ltb c (size - 1))) [
            | inl more ↦
                rw (other, size_of, more)
                  (read_keys-edit keys size c o
                    ∙ ap (edit keys size) (written-press ch cursor output))
            | inr full ↦
                rw (other, size_of, full, written-update c c 0 o (omega arith))
                  (ap some (written-press ch cursor output))
          ]
    ]

abbrev pub answer_text : Answer → Option (List ℕ)
answer_text refused = none
answer_text waits = none
answer_text (has_read line) = some (written line.data_cursor line.output)

answer_text-answer : (r : Option Line) → answer_text (answer r) ≡ line_text r
answer_text-answer none = refl
answer_text-answer (some line) = refl

-- With a buffer whose size is not 0, k_sys_TerminalReadLine returns when the editor ends the line, and
-- then the buffer holds the editor's line.
pub read_line-edit :
    (keys : List ℕ) (output : Array ℕ) (buffer_size : ℕ)
    → 0 < buffer_size
    → answer_text (read_line true keys output buffer_size) ≡ edit keys buffer_size []
unfolding read_line written
read_line-edit keys output buffer_size pos =
    let sized : (buffer_size == 0) ≡ false = ground arith in
    rw sized (
      answer_text-answer (read_keys keys buffer_size 0 output)
      ∙ read_keys-edit keys buffer_size 0 output)
