-- ===== src/Dev/Keyboard/Tests.antt =====
-- The examples of the theorems on the keyboard handler. Key 31 is the letter a.
use dogg_os.Base.{◌-◌, ◌≡◌, refl, true, false, [], ◌∷◌, ◌++◌, some, arith}
use dogg_os.Dev.Keyboard.{KeyboardState, key_down, key_up, left_shift_key, key_lut, entry_of, run}
use dogg_os.Dev.Keyboard.Typing.{run-shift_letter}

abbrev idle : KeyboardState
idle = record { left_shift = false; right_shift = false; caps_lock = false }

abbrev locked : KeyboardState
locked = record { left_shift = false; right_shift = false; caps_lock = true }

run-shift_letter_example :
    run
      ((key_down, left_shift_key) ∷ (key_down, 31) ∷ (key_up, 31) ∷ (key_up, left_shift_key) ∷ [])
      idle
      (some [])
    ≡ some (idle, some ([] ++ ((entry_of key_lut 31 - 32) ∷ [])))
run-shift_letter_example = run-shift_letter 31 idle [] (omega arith) refl refl
