-- ===== src/Rt/Text/Numbers.antt =====
-- k_rt_AtoI reads what k_rt_ItoA writes.
use dogg_os.Base.{
  ℕ, zero, suc, ◌+◌, ◌-◌, ◌*◌, ◌/◌, ◌%◌, ◌^◌, ◌≤◌, ◌<◌, ◌≡◌, refl, ap, ◌∙◌, true, false, List, [],
  ◌∷◌, ◌==◌, ltb, leb, if◌then◌else◌, arith, Bool-cases, and-false, ltb→lt, inl, inr,
}
use dogg_os.Rt.Text.{ok, mask, read_digits, ato_i, write_digits, first_mask, ito_a}
use native.Mathlib.Decide.{ℕ_discrete}
use dogg_os.Rt.Text.Digits.{
  ten, ten-pos, mask-power, mask-multiple, digit-lt, rest-lt, shift_digit, prefix-le,
}

-- One digit is read back.
read_digits-digit :
    (v d : ℕ) (s : List ℕ)
    → d < 10
    → v * 10 + d < 2 ^ 32
    → read_digits v ((48 + d) % 256 ∷ s) ≡ read_digits (v * 10 + d) s
unfolding read_digits
read_digits-digit v d s small bound =
    let low : ((48 + d) % 256 - 48) ≡ d = omega arith in
    let fits : (v * 10 + d) % 2 ^ 32 ≡ v * 10 + d = omega arith in
    let not_below : ltb ((48 + d) % 256) 48 ≡ false = ground arith in
    let not_above : ltb 57 ((48 + d) % 256) ≡ false = ground arith in
    rw (not_below, not_above, low, fits)

read_digits-nil : (v : ℕ) → read_digits v [] ≡ ok v
unfolding read_digits
read_digits-nil v = refl

-- After the last row nothing is written.
write_digits-end : (fuel k room u : ℕ) → k ≡ 10 → write_digits fuel k room u ≡ []
unfolding write_digits
write_digits-end zero k room u e = refl
write_digits-end (suc fuel) k room u e = rw e refl

-- The first row stops at 4, which is enough for 32 bits.
digit-fits :
    (k n u : ℕ)
    → k + suc n ≡ 10
    → u < ten n * 10
    → u < 2 ^ 32
    → u / ten n < (if k == 0 then 5 else 10)
digit-fits k n u at_k small word = elim (ℕ_discrete k 0) [
  | yes e ↦ let nine : n ≡ 9 = omega arith in rw (e, nine) (omega arith)
  | no ne ↦
      let other : (k == 0) ≡ false = ground arith in rw other (digit-lt u (ten n) (ten-pos n) small)
]

-- One round of the loop.
write_digits-round :
    (fuel n k room u : ℕ)
    → k + suc n ≡ 10
    → 0 < room
    → write_digits (suc fuel) k room u
      ≡ (48 + u / ten n) % 256 ∷ write_digits fuel (k + 1) (room - 1) (u - mask k (u / ten n))
unfolding write_digits
write_digits-round fuel n k room u at_k r =
    let row : ltb k 10 ≡ true = ground arith in
    let fits : ltb 0 room ≡ true = ground arith in rw (row, fits, mask-power k n at_k)

-- The digits that are written from row `k` on read as the number.
write_digits-read :
    (fuel n k room u v : ℕ)
    → k + suc n ≡ 10
    → suc n ≤ fuel
    → suc n ≤ room
    → u < ten n * 10
    → u < 2 ^ 32
    → v * (ten n * 10) + u < 2 ^ 32
    → read_digits v (write_digits fuel k room u) ≡ ok (v * (ten n * 10) + u)
write_digits-read zero n k room u v at_k f r small word bound = absurd (omega arith)
write_digits-read (suc fuel) zero k room u v at_k f r small word bound =
    let one : u / 1 ≡ u = omega arith in
    rw
      (
        write_digits-round fuel 0 k room u at_k (omega arith),
        write_digits-end fuel (k + 1) (room - 1) (u - mask k (u / 1)) (omega arith),
        one,
      )
      (read_digits-digit v u [] small (omega arith) ∙ read_digits-nil (v * 10 + u))
write_digits-read (suc fuel) (suc n) k room u v at_k f r small word bound =
    let p = ten (suc n) in
    let back = shift_digit u p v in
    rw
      (
        write_digits-round fuel (suc n) k room u at_k (omega arith),
        mask-multiple k (suc n) (u / p) at_k (omega arith) (digit-fits k (suc n) u at_k small word),
      )
      (read_digits-digit v (u / p) _ (digit-lt u p (ten-pos (suc n)) small)
          (omega (arith, prefix-le u p v (ten-pos (suc n))))
        ∙ write_digits-read fuel n (k + 1) (room - 1) (u - u / p * p) (v * 10 + u / p) (omega arith)
            (omega arith) (omega arith) (rest-lt u p (ten-pos (suc n))) (omega arith)
            (omega (arith, back))
        ∙ ap ok back)

-- The row to start with leaves nothing of the number out.
first_mask-fits :
    (fuel n k u : ℕ)
    → k + n ≡ 9
    → n ≤ fuel
    → u < ten n * 10
    → (j : ℕ) × (first_mask fuel u k + j ≡ 9) × (u < ten j * 10)
unfolding first_mask
first_mask-fits zero n k u at_k f small = (n, at_k, small)
first_mask-fits (suc fuel) zero k u at_k f small =
    let last : ltb k 9 ≡ false = ground arith in
    (0, (let stop = and-false (ltb u (mask k 1)) in rw (last, stop) at_k), small)
first_mask-fits (suc fuel) (suc n) k u at_k f small = elim (Bool-cases (ltb u (mask k 1))) [
  | inl less ↦
      let row : ltb k 9 ≡ true = ground arith in
      let below : u < ten n * 10 =
        ltb→lt u (ten (suc n)) (rw (mask-power k (suc n) (omega arith)) at less) in
      rw (less, row) (first_mask-fits fuel n (k + 1) u (omega arith) (omega arith) below)
  | inr enough ↦ (suc n, rw enough at_k, small)
]

-- The digits of a number, with room for ten of them.
digits-read :
    (u room : ℕ) → u < 2 ^ 32 → 10 ≤ room → ato_i (write_digits 10 (first_mask 9 u 0) room u) ≡ ok u
unfolding ato_i
digits-read u room word r =
    let (n, at_k, small) = first_mask-fits 9 9 0 u refl (omega arith) (omega arith) in
    write_digits-read 10 n (first_mask 9 u 0) room u 0 (omega (arith, at_k)) (omega (arith, at_k))
      (omega (arith, at_k)) small word (omega arith)
    ∙ (let same : 0 * (ten n * 10) + u ≡ u = omega arith in ap ok same)

-- A number that is not negative is read back, where the buffer has twelve bytes.
pub ito_a-ato_i :
    (value size : ℕ)
    → value < 2 ^ 31
    → 12 ≤ size
    → (s : List ℕ) × (ito_a value size ≡ ok s) × (ato_i s ≡ ok value)
unfolding ito_a
ito_a-ato_i value size small h =
    let plus : leb (2 ^ 31) value ≡ false = ground arith in
    let same : ltb (2 ^ 31) value ≡ false = ground arith in
    let nonzero : (size == 0) ≡ false = ground arith in
    let fits : leb (0 + 10 - first_mask 9 value 0) (size - 1) ≡ true = ground arith in
    (
      write_digits 10 (first_mask 9 value 0) (size - 1) value,
      rw (plus, same, nonzero, fits),
      digits-read value (size - 1) (omega arith) (omega arith),
    )
