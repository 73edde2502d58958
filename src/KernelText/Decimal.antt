-- ===== src/KernelText/Decimal.antt =====
-- k_itoa against k_rt_ItoA, which has a table and loops of its own.
use dogg_os.Base.{
  Bool, ℕ, zero, suc, ◌+◌, ◌-◌, ◌/◌, ◌^◌, ◌≡◌, refl, true, false, not, ◌&&◌, ◌==◌, if◌then◌else◌,
  ltb, leb, List, [], length, Bool-cases, inl, inr, arith,
}
use dogg_os.Rt.Text.{Result, ok, bad_param, out_of_space, ito_a, mask, first_mask, write_digits}
use dogg_os.KernelText.{itoa, itoa_mask, skip_masks, put_digits}

-- The tables agree.
itoa_mask-mask : (k d : ℕ) → itoa_mask k d ≡ mask k d
unfolding itoa_mask mask
itoa_mask-mask k d = refl

-- The loops that look for the first power of ten.
skip_masks-first_mask : (fuel u k : ℕ) → skip_masks fuel u k ≡ first_mask fuel u k
unfolding skip_masks first_mask
skip_masks-first_mask zero u k = refl
skip_masks-first_mask (suc fuel) u k =
    rw (itoa_mask-mask k 1, skip_masks-first_mask fuel u (k + 1)) refl

-- The loops that write.
put_digits-write_digits :
    (fuel k room u : ℕ) → put_digits fuel k room u ≡ write_digits fuel k room u
unfolding put_digits write_digits
put_digits-write_digits zero k room u = refl
put_digits-write_digits (suc fuel) k room u =
    rw
      (
        itoa_mask-mask k 1,
        itoa_mask-mask k (u / mask k 1),
        put_digits-write_digits fuel (k + 1) (room - 1) (u - mask k (u / mask k 1)),
      )
      refl

-- What is left of a result that has no codes.
abbrev pub outcome : Result (List ℕ) → ℕ × List ℕ
outcome (ok text) = (length text, text)
outcome bad_param = (0, [])
outcome out_of_space = (0, [])

outcome-if :
    (b c : Bool) (text : List ℕ)
    → (if not b && c then (length text, text) else (0, []))
      ≡ outcome (if b then bad_param else if c then ok text else out_of_space)
outcome-if true c text = refl
outcome-if false true text = refl
outcome-if false false text = refl

sign-test : (b : Bool) → ((if b then 1 else 0) == 1) ≡ b
sign-test true = refl
sign-test false = refl

positive-test : (size : ℕ) → ltb 0 size ≡ not (size == 0)
positive-test size = elim (Bool-cases (size == 0)) [
  | inl none ↦ rw none (let e : size ≡ 0 = ground arith in ground arith)
  | inr some ↦ rw some (ground arith)
]

-- k_itoa, with its own table and loops, writes what k_rt_ItoA writes, and returns the length of it, or 0
-- where that fails.
pub itoa-ito_a : (size value : ℕ) → itoa size value ≡ outcome (ito_a value size)
unfolding itoa ito_a
itoa-ito_a size value =
    rw
      (
        sign-test (leb (2 ^ 31) value),
        positive-test size,
        skip_masks-first_mask 9 (if ltb (2 ^ 31) value then 2 ^ 32 - value else value) 0,
        put_digits-write_digits 10
            (first_mask 9 (if ltb (2 ^ 31) value then 2 ^ 32 - value else value) 0) (size - 1 - 1)
            (if ltb (2 ^ 31) value then 2 ^ 32 - value else value),
        put_digits-write_digits 10
            (first_mask 9 (if ltb (2 ^ 31) value then 2 ^ 32 - value else value) 0) (size - 1)
            (if ltb (2 ^ 31) value then 2 ^ 32 - value else value),
      )
      (outcome-if (size == 0) _ _)
