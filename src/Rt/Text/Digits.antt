-- ===== src/Rt/Text/Digits.antt =====
-- The table of powers that k_rt_ItoA reads, and one digit of a number against it.
use native.Mathlib.Nat.{div-mul-le_self, lt-div-mul-add, div-lt_iff_lt-mul, mul-le-mul_left}
use dogg_os.Base.{
  ℕ, zero, suc, ◌+◌, ◌-◌, ◌*◌, ◌/◌, ◌≤◌, ◌<◌, ◌≡◌, refl, ◌==◌, if◌then◌else◌, holds_until,
  holds_until-at, ==_iff, arith,
}
use dogg_os.Rt.Text.{mask}

abbrev pub ten : ℕ → ℕ
ten zero = 1
ten (suc n) = ten n * 10

pub ten-pos : (n : ℕ) → 0 < ten n
ten-pos zero = omega arith
ten-pos (suc n) = omega (arith, ten-pos n)

-- The second column holds the powers of ten, the greatest one first.
pub mask-power : (k n : ℕ) → k + suc n ≡ 10 → mask k 1 ≡ ten n
unfolding mask holds_until
mask-power k n h =
    let same : n ≡ 9 - k = omega arith in
    let row = holds_until-at (λ j. mask j 1 == ten (9 - j)) 10 {i = k} (omega arith) refl in
    rw same ((==_iff (mask k 1) (ten (9 - k))).0 row)

-- The other columns hold their multiples, but for the last row and the end of the first one.
pub mask-multiple :
    (k n d : ℕ) → k + suc n ≡ 10 → 0 < n → d < (if k == 0 then 5 else 10) → mask k d ≡ d * ten n
unfolding mask holds_until
mask-multiple k n d h pos small =
    let same : n ≡ 9 - k = omega arith in
    let row =
      holds_until-at
        (λ j. holds_until (λ e. mask j e == e * ten (9 - j)) (if j == 0 then 5 else 10)) 9 {i = k}
        (omega arith) refl in
    let column =
      holds_until-at (λ e. mask k e == e * ten (9 - k)) (if k == 0 then 5 else 10) {i = d} small
        row in
    rw same ((==_iff (mask k d) (d * ten (9 - k))).0 column)

-- A number below ten powers starts with one digit.
pub digit-lt : (u p : ℕ) → 0 < p → u < p * 10 → u / p < 10
digit-lt u p pos h = (div-lt_iff_lt-mul pos).1 (omega arith)

pub rest-lt : (u p : ℕ) → 0 < p → u - u / p * p < p
rest-lt u p pos = omega (arith, lt-div-mul-add {a = u} pos)

-- Reading the digit brings the number back.
pub shift_digit : (u p v : ℕ) → (v * 10 + u / p) * p + (u - u / p * p) ≡ v * (p * 10) + u
shift_digit u p v = omega (arith, div-mul-le_self u p)

pub prefix-le : (u p v : ℕ) → 0 < p → v * 10 + u / p ≤ v * (p * 10) + u
prefix-le u p v pos =
    omega (arith, shift_digit u p v, mul-le-mul_left {m = 1} {n = p} (v * 10 + u / p) pos)
