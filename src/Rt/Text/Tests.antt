-- ===== src/Rt/Text/Tests.antt =====
-- Runs of kernel/rt/string.c, and the examples of the theorems on it.
use dogg_os.Base.{
  ℕ, ◌+◌, ◌-◌, ◌^◌, ◌≤◌, ◌<◌, ◌≡◌, ◌↔◌, refl, List, [], ◌∷◌, ◌++◌, some, none, length, get_or, min,
  ltb, ◌==◌, if◌then◌else◌, Array, arith,
}
use dogg_os.Rt.Text.{
  ok, out_of_space, search, str_cmp, str_str, str_cpy, str_cat, ito_a, ato_i, mask, first_mask,
  write_digits,
}
use dogg_os.Rt.Text.Compare.{IsText, nil, cons, str_cmp-zero}
use dogg_os.Rt.Text.Search.{find, str_str-find}
use dogg_os.Rt.Text.Copy.{IsHeld, str_cpy-lem, str_cat-fits}
use dogg_os.Rt.Text.Numbers.{ito_a-ato_i}

-- "ab" and "ac"
abbrev ab : List ℕ
ab = 97 ∷ 98 ∷ []

abbrev ac : List ℕ
ac = 97 ∷ 99 ∷ []

ab-IsText : IsText ab
ab-IsText = cons (omega arith) (omega arith) (cons (omega arith) (omega arith) nil)

ac-IsText : IsText ac
ac-IsText = cons (omega arith) (omega arith) (cons (omega arith) (omega arith) nil)

str_cmp-zero_example : (str_cmp ab ac ≡ 0) ↔ (ab ≡ ac)
str_cmp-zero_example = str_cmp-zero ab ac ab-IsText ac-IsText

-- "ab" in "aacab"
str_str-find_example :
    str_str (97 ∷ 97 ∷ 99 ∷ 97 ∷ 98 ∷ []) ab ≡ find 0 (97 ∷ 97 ∷ 99 ∷ 97 ∷ 98 ∷ []) ab
str_str-find_example = str_str-find (97 ∷ 97 ∷ 99 ∷ 97 ∷ 98 ∷ []) (98 ∷ []) 97 refl

str_str_run : str_str (97 ∷ 99 ∷ 97 ∷ 98 ∷ []) ab ≡ some 2
unfolding str_str search
str_str_run = refl

-- "aab" is not found in "aaab", though it stands there.
str_str_misses :
    (str_str (97 ∷ 97 ∷ 97 ∷ 98 ∷ []) (97 ∷ 97 ∷ 98 ∷ []) ≡ none)
    × (find 0 (97 ∷ 97 ∷ 97 ∷ 98 ∷ []) (97 ∷ 97 ∷ 98 ∷ []) ≡ some 1)
unfolding str_str search find
str_str_misses = (refl, refl)

abbrev buffer : Array ℕ
buffer i = if i == 0 then 97 else 0

str_cpy-lem_example :
    (str_cpy buffer 2 ab).0 ≤ 2
    × ((j : ℕ)
        → (str_cpy buffer 2 ab).1 j ≡ (
            if ltb j (min (length ab) (2 - 1))
            then get_or ab j 0
            else if j == min (length ab) (2 - 1)
            then 0
            else buffer j))
str_cpy-lem_example = str_cpy-lem buffer 2 ab (omega arith)

abbrev a : List ℕ
a = 97 ∷ []

buffer-IsHeld : IsHeld a buffer
buffer-IsHeld = record { bytes = λ j h. one j h; end = refl }
  where
    one : (j : ℕ) → j < 1 → buffer j ≡ get_or a j 0
    one j h = let first : j ≡ 0 = omega arith in rw first refl

str_cat-fits_example :
    (after : Array ℕ) × (str_cat 8 buffer 8 ac ≡ some (length a + (length ac + 1), after))
    × IsHeld (a ++ ac) after
    × ((j : ℕ) → length a + length ac < j → after j ≡ buffer j)
str_cat-fits_example =
    str_cat-fits a ac 8 8 buffer (cons (omega arith) (omega arith) nil) buffer-IsHeld (omega arith)
      (omega arith) (omega arith)

ito_a-ato_i_example : (s : List ℕ) × (ito_a 2048 12 ≡ ok s) × (ato_i s ≡ ok 2048)
ito_a-ato_i_example = ito_a-ato_i 2048 12 (omega arith) (omega arith)

-- "-120" needs five bytes.
ito_a_run :
    (ito_a (2 ^ 32 - 120) 5 ≡ ok (45 ∷ 49 ∷ 50 ∷ 48 ∷ [])) × (ito_a (2 ^ 32 - 120) 4 ≡ out_of_space)
unfolding ito_a first_mask write_digits mask
ito_a_run = (refl, refl)
