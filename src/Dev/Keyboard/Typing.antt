-- ===== src/Dev/Keyboard/Typing.antt =====
-- What the handler of kernel/dev/kb.c sends to the terminal.
use dogg_os.Base.{
  ℕ, ◌-◌, ◌<◌, ◌≡◌, refl, sym, ap, ◌∙◌, true, false, ◌==◌, ltb, List, [], ◌∷◌, ◌++◌, if◌then◌else◌,
  some, arith, Bool-cases, inl, inr, ==_iff, true-ne-false,
}
use dogg_os.Dev.Keyboard.{
  KeyboardState, EventType, key_down, key_up, is_down, caps_lock_key, left_shift_key,
  right_shift_key, key_lut, shift_key_lut, entry_of, char_of, shifted, typed, keyboard_handler, run,
  Terminal,
}
use dogg_os.Dev.Keyboard.Tables.{is_letter, shift_key_lut-letter}

-- A key that stands for a letter is none of the three that the handler treats by themselves.
record IsPlain (key : ℕ) : Type 0 where
  not_left : (key == left_shift_key) ≡ false
  not_right : (key == right_shift_key) ≡ false
  not_caps : (key == caps_lock_key) ≡ false

letter-ne :
    (key other : ℕ)
    → is_letter (entry_of key_lut key) ≡ true
    → is_letter (entry_of key_lut other) ≡ false
    → (key == other) ≡ false
letter-ne key other is isnt = elim (Bool-cases (key == other)) [
  | inr ne ↦ ne
  | inl e ↦
      let clash : is_letter (entry_of key_lut other) ≡ true = rw ((==_iff key other).0 e) at is in
      absurd (true-ne-false (sym clash ∙ isnt))
]

letter-IsPlain : (key : ℕ) → is_letter (entry_of key_lut key) ≡ true → IsPlain key
letter-IsPlain key letter = record {
  not_left = letter-ne key left_shift_key letter refl;
  not_right = letter-ne key right_shift_key letter refl;
  not_caps = letter-ne key caps_lock_key letter refl;
}

-- The capital of a letter is 32 below it.
abbrev pub letter_of : KeyboardState → ℕ → ℕ
letter_of k key = if shifted k then entry_of key_lut key - 32 else entry_of key_lut key

char_of-letter :
    (key : ℕ) (k : KeyboardState)
    → key < 107
    → is_letter (entry_of key_lut key) ≡ true
    → char_of (if shifted k then shift_key_lut else key_lut) key ≡ some (letter_of k key)
unfolding char_of
char_of-letter key k lt letter =
    let inside : ltb key 107 ≡ true = ground arith in
    let capital : entry_of key_lut key - 32 ≡ entry_of shift_key_lut key =
      omega (arith, shift_key_lut-letter key lt letter) in
    elim (Bool-cases (shifted k)) [
      | inl s ↦ rw (s, inside, capital) refl
      | inr s ↦ rw (s, inside) refl
    ]

-- A letter key that goes down sends its letter, a capital one if a shift key is held or caps lock is
-- on, and leaves the state of the keyboard as it is.
keyboard_handler-letter :
    (key : ℕ) (k : KeyboardState) (bytes : List ℕ)
    → key < 107
    → is_letter (entry_of key_lut key) ≡ true
    → keyboard_handler key_down key k (some bytes)
      ≡ some (k, some (bytes ++ (letter_of k key ∷ [])))
unfolding keyboard_handler
keyboard_handler-letter key k bytes lt letter =
    let p = letter-IsPlain key letter in
    rw (p.not_left, p.not_right, p.not_caps)
      (ap (λ c. typed c k (some bytes)) (char_of-letter key k lt letter))

-- The key going up, or being held, sends nothing and changes nothing, if it is a letter.
keyboard_handler-quiet :
    (type : EventType) (key : ℕ) (k : KeyboardState) (t : Terminal)
    → IsPlain key
    → is_down type ≡ false
    → keyboard_handler type key k t ≡ some (k, t)
unfolding keyboard_handler
keyboard_handler-quiet type key k t p up = rw (p.not_left, p.not_right, p.not_caps, up) refl

keyboard_handler-left_shift :
    (type : EventType) (k : KeyboardState) (t : Terminal)
    → keyboard_handler type left_shift_key k t ≡ some (record k { left_shift = is_down type }, t)
unfolding keyboard_handler
keyboard_handler-left_shift type k t = refl

run-step :
    (type : EventType) (key : ℕ) (events : List (EventType × ℕ)) (k k' : KeyboardState)
    (t t' : Terminal)
    → keyboard_handler type key k t ≡ some (k', t')
    → run ((type, key) ∷ events) k t ≡ run events k' t'
unfolding run
run-step type key events k k' t t' e = rw (run, e) refl

run-end : (k : KeyboardState) (t : Terminal) → run [] k t ≡ some (k, t)
unfolding run
run-end k t = refl

-- Shift down, a letter down and up, shift up: one capital letter is sent, and the keyboard is as it
-- was, if the shift key was not held before.
pub run-shift_letter :
    (key : ℕ) (k : KeyboardState) (bytes : List ℕ)
    → key < 107
    → is_letter (entry_of key_lut key) ≡ true
    → k.left_shift ≡ false
    → run
        ((key_down, left_shift_key)
          ∷ (key_down, key)
          ∷ (key_up, key)
          ∷ (key_up, left_shift_key)
          ∷ [])
        k
        (some bytes)
      ≡ some (k, some (bytes ++ ((entry_of key_lut key - 32) ∷ [])))
run-shift_letter key k bytes lt letter up =
    let held : KeyboardState = record k { left_shift = true } in
    let sent = some (bytes ++ ((entry_of key_lut key - 32) ∷ [])) in
    let restored : (record k { left_shift = false }) ≡ k = rw (sym up) refl in
    run-step key_down left_shift_key _ k held (some bytes) (some bytes)
      (keyboard_handler-left_shift key_down k (some bytes))
    ∙ run-step key_down key _ held held (some bytes) sent
        (keyboard_handler-letter key held bytes lt letter)
    ∙ run-step key_up key _ held held sent sent
        (keyboard_handler-quiet key_up key held sent (letter-IsPlain key letter) refl)
    ∙ run-step key_up left_shift_key [] held (record k { left_shift = false }) sent sent
        (keyboard_handler-left_shift key_up held sent)
    ∙ run-end (record k { left_shift = false }) sent
    ∙ ap (λ q. some (q, sent)) restored
