-- ===== src/Dev/Keyboard/Tables.antt =====
-- The two tables of kernel/dev/kb.c agree on the letters.
use dogg_os.Base.{
  ℕ, ◌+◌, ◌<◌, ◌≡◌, refl, true, Bool, ◌&&◌, ◌==◌, leb, holds_until, holds_until-at, if◌then◌else◌,
  arith,
}
use dogg_os.Dev.Keyboard.{key_lut, shift_key_lut, entry_of}

-- A small letter.
abbrev pub is_letter : ℕ → Bool
is_letter c = leb 97 c && leb c 122

abbrev agree_at : ℕ → Bool
agree_at key =
    if is_letter (entry_of key_lut key)
    then entry_of shift_key_lut key + 32 == entry_of key_lut key
    else true

tables_agree : holds_until agree_at 107 ≡ true
unfolding holds_until
tables_agree = refl

-- A key with a small letter has its capital in the other table.
pub shift_key_lut-letter :
    (key : ℕ)
    → key < 107
    → is_letter (entry_of key_lut key) ≡ true
    → entry_of shift_key_lut key + 32 ≡ entry_of key_lut key
shift_key_lut-letter key lt letter =
    let here : agree_at key ≡ true = holds_until-at agree_at 107 lt tables_agree in
    eq_of_test (is_letter (entry_of key_lut key)) (entry_of shift_key_lut key + 32)
      (entry_of key_lut key) letter here
  where
    eq_of_test : (b : Bool) (x y : ℕ) → b ≡ true → (if b then x == y else true) ≡ true → x ≡ y
    eq_of_test b x y e h = ground arith
