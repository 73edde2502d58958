-- ===== src/KernelText/Nibbles.antt =====
-- Nibbles of a number: masks and powers of sixteen.
use native.Mathlib.Nat.{div-div-eq-div-mul}
use dogg_os.Base.{
  ℕ, zero, suc, ◌+◌, ◌*◌, ◌/◌, ◌%◌, ◌<◌, ◌≡◌, sym, ap, ◌∙◌, bit_and, bit_and_step, bit_and-low, low,
  arith, min,
}

abbrev pub sixteen : ℕ → ℕ
sixteen zero = 1
sixteen (suc n) = sixteen n * 16

pub sixteen-pos : (n : ℕ) → 0 < sixteen n
sixteen-pos zero = omega arith
sixteen-pos (suc n) = omega (arith, sixteen-pos n)

pub low_nibble : (x : ℕ) → bit_and x 15 ≡ x % 16
unfolding low
low_nibble x = omega (arith, bit_and-low x 4)

-- A mask that is moved by a bit reads the number moved back by one.
bit_and-double : (x y : ℕ) → bit_and x (y * 2) ≡ bit_and (x / 2) y * 2
bit_and-double x y =
    let half : y * 2 / 2 ≡ y = omega arith in
    let step : bit_and x (y * 2) ≡ bit_and (x / 2) (y * 2 / 2) * 2 + min (x % 2) (y * 2 % 2) =
      bit_and_step x (y * 2) in
    let next : bit_and x (y * 2) ≡ bit_and (x / 2) y * 2 + min (x % 2) (y * 2 % 2) =
      rw half at step in
    omega (arith, next)

bit_and-nibble : (x y : ℕ) → bit_and x (y * 16) ≡ bit_and (x / 16) y * 16
bit_and-nibble x y =
    let same : y * 16 ≡ y * 2 * 2 * 2 * 2 = omega arith in
    let back : x / 2 / 2 / 2 / 2 ≡ x / 16 = omega arith in
    let last : bit_and (x / 2 / 2 / 2) (y * 2) ≡ bit_and (x / 16) y * 2 =
      rw (sym back) (bit_and-double (x / 2 / 2 / 2) y) in
    rw same (
      omega (
        arith,
        bit_and-double x (y * 2 * 2 * 2),
        bit_and-double (x / 2) (y * 2 * 2),
        bit_and-double (x / 2 / 2) (y * 2),
        last,
      ))

-- The nibble `n` of a number, in its place.
pub bit_and-sixteen : (n x : ℕ) → bit_and x (15 * sixteen n) ≡ x / sixteen n % 16 * sixteen n
bit_and-sixteen zero x = omega (arith, low_nibble x)
bit_and-sixteen (suc n) x =
    let same : 15 * (sixteen n * 16) ≡ 15 * sixteen n * 16 = omega arith in
    let back : x / 16 / sixteen n ≡ x / (sixteen n * 16) =
      div-div-eq-div-mul x 16 (sixteen n) ∙ ap (λ p. x / p) (omega arith) in
    rw (same, bit_and-nibble x (15 * sixteen n), bit_and-sixteen n (x / 16), back) (omega arith)
