-- ===== src/KernelText/Hex.antt =====
-- k_xtoa writes as many characters as it says, and they are the number.
use native.Mathlib.Nat.{le-div_iff_mul-le, mul-le-mul_left, div-lt_iff_lt-mul}
use dogg_os.Base.{
  ℕ, zero, suc, ◌+◌, ◌-◌, ◌*◌, ◌/◌, ◌%◌, ◌^◌, ◌≤◌, ◌<◌, ◌≡◌, ◌⊎◌, inl, inr, refl, sym, ap, ◌∙◌,
  true, false, ◌==◌, ltb, if◌then◌else◌, List, [], ◌∷◌, some, length, get_or, bit_and, and-false,
  Bool-cases, ==_iff, true-ne-false, holds_until, holds_until-at, arith,
}
use native.Mathlib.Decide.{ℕ_discrete}
use dogg_os.KernelText.{nibble_lut, skip_zeros, hex_length, write_nibbles, xtoa}
use dogg_os.KernelText.Nibbles.{sixteen, sixteen-pos, low_nibble, bit_and-sixteen}

-- The mask of the nibble below `n`.
abbrev mask_of : ℕ → ℕ
mask_of zero = 0
mask_of (suc n) = 15 * sixteen n

mask_of-shift : (n : ℕ) → mask_of (suc n) / 16 ≡ mask_of n
mask_of-shift zero = omega arith
mask_of-shift (suc n) = omega arith

-- `n` is the number of nibbles of the value, or 1 for 0.
record IsLength (value n : ℕ) : Type 0 where
  small : value < sixteen n
  needed : (n ≡ 0) ⊎ ((k : ℕ) × (n ≡ suc k) × (sixteen k ≤ value))

skip_zeros-lem :
    (fuel n index value : ℕ)
    → index + n ≡ 16
    → n < fuel
    → value < sixteen n
    → (j : ℕ) × (skip_zeros fuel value (mask_of n) index + j ≡ 16) × IsLength value j
unfolding skip_zeros
skip_zeros-lem zero n index value at_n f small = absurd (omega arith)
skip_zeros-lem (suc fuel) zero index value at_n f small =
    let stop = and-false (bit_and value 0 == 0) in
    (0, rw stop at_n, record { small = small; needed = inl refl })
skip_zeros-lem (suc fuel) (suc n) index value at_n f small =
    let mask_ne : (15 * sixteen n == 0) ≡ false = ground (arith, sixteen-pos n) in
    let top : value / sixteen n < 16 = (div-lt_iff_lt-mul (sixteen-pos n)).1 (omega arith) in
    let nibble : bit_and value (15 * sixteen n) ≡ value / sixteen n * sixteen n =
      bit_and-sixteen n value ∙ ap (λ q. q * sixteen n) (omega (arith, top)) in
    elim (ℕ_discrete (value / sixteen n) 0) [
      | yes e ↦
          let none_set : bit_and value (15 * sixteen n) ≡ 0 =
            nibble ∙ ap (λ q. q * sixteen n) e ∙ omega arith in
          let clear : (bit_and value (15 * sixteen n) == 0) ≡ true = ground arith in
          let below : value < sixteen n = omega (
            arith,
            (div-lt_iff_lt-mul {k = sixteen n} {x = value} {y = 1} (sixteen-pos n)).0 (omega arith),
          ) in
          rw (clear, mask_ne, mask_of-shift n)
            (skip_zeros-lem fuel n (index + 1) value (omega arith) (omega arith) below)
      | no ne ↦
          let reached : sixteen n ≤ value = omega (
            arith,
            (le-div_iff_mul-le {k = sixteen n} {x = 1} {y = value} (sixteen-pos n)).0 (omega arith),
          ) in
          let some_set : 0 < bit_and value (15 * sixteen n) = omega (
            arith,
            nibble,
            sixteen-pos n,
            mul-le-mul_left {m = 1} {n = value / sixteen n} (sixteen n) (omega arith),
          ) in
          let set : (bit_and value (15 * sixteen n) == 0) ≡ false = ground arith in
          (suc n, rw set at_n, record { small = small; needed = inr (n, refl, reached) })
    ]

-- What the characters say.
abbrev pub digit_of : ℕ → ℕ
digit_of c = if ltb c 58 then c - 48 else c - 87

abbrev pub read_hex : ℕ → List ℕ → ℕ
read_hex value [] = value
read_hex value (c ∷ text) = read_hex (value * 16 + digit_of c) text

all_digits : holds_until (λ d. digit_of (get_or nibble_lut d 0) == d) 16 ≡ true
unfolding holds_until
all_digits = refl

digit-read : (value : ℕ) → digit_of (get_or nibble_lut (bit_and value 15) 0) ≡ value % 16
digit-read value =
    let small : value % 16 < 16 = omega arith in
    rw (low_nibble value) (
      (==_iff (digit_of (get_or nibble_lut (value % 16) 0)) (value % 16)).0
        (holds_until-at (λ d. digit_of (get_or nibble_lut d 0) == d) 16 small all_digits))

some_fuel :
    (n fuel value : ℕ) → value < sixteen (suc n) → (value / 16 == 0) ≡ false → n ≤ fuel → 0 < fuel
some_fuel zero fuel value small ne enough =
    let none : (value / 16 == 0) ≡ true = ground arith in absurd (true-ne-false (sym none ∙ ne))
some_fuel (suc n) fuel value small ne enough = omega arith

-- The characters in front of a text read as the number before it.
write_nibbles-read :
    (n fuel value : ℕ) (text : List ℕ)
    → value < sixteen n
    → n ≤ fuel
    → 0 < fuel
    → read_hex 0 (write_nibbles fuel value text) ≡ read_hex value text
unfolding write_nibbles
write_nibbles-read n zero value text small enough pos = absurd (omega arith)
write_nibbles-read zero (suc fuel) value text small enough pos =
    let zero_value : value ≡ 0 = omega arith in rw zero_value refl
write_nibbles-read (suc n) (suc fuel) value text small enough pos =
    elim (Bool-cases (value / 16 == 0)) [
      | inl e ↦
          let this : 0 * 16 + digit_of (get_or nibble_lut (bit_and value 15) 0) ≡ value =
            omega (arith, digit-read value, (==_iff (value / 16) 0).0 e) in
          rw e (ap (λ v. read_hex v text) this)
      | inr ne ↦
          let next : value / 16 * 16 + digit_of (get_or nibble_lut (bit_and value 15) 0) ≡ value =
            omega (arith, digit-read value) in
          rw ne (
            write_nibbles-read n fuel (value / 16) _ (omega arith) (omega arith)
              (some_fuel n fuel value small ne (omega arith))
            ∙ ap (λ v. read_hex v text) next)
    ]

-- There are as many as the value needs.
write_nibbles-length :
    (n fuel value : ℕ) (text : List ℕ)
    → value < sixteen (suc n)
    → (n ≡ 0) ⊎ (sixteen n ≤ value)
    → n < fuel
    → length (write_nibbles fuel value text) ≡ suc n + length text
unfolding write_nibbles
write_nibbles-length n zero value text small needed enough = absurd (omega arith)
write_nibbles-length zero (suc fuel) value text small needed enough =
    let last : (value / 16 == 0) ≡ true = ground arith in rw last (omega arith)
write_nibbles-length (suc n) (suc fuel) value text small (inl z) enough = absurd (omega arith)
write_nibbles-length (suc n) (suc fuel) value text small (inr reached) enough =
    let more : (value / 16 == 0) ≡ false = ground (arith, sixteen-pos n) in
    rw more (
      write_nibbles-length n fuel (value / 16) _ (omega arith) (inr (omega arith)) (omega arith)
      ∙ omega arith)

-- The number of characters that k_xtoa reckons with.
hex_length-lem :
    (value : ℕ)
    → value < 2 ^ 64
    → (n : ℕ) × (n < 16)
      × (hex_length value ≡ suc n)
      × (value < sixteen (suc n))
      × ((n ≡ 0) ⊎ (sixteen n ≤ value))
hex_length-lem value small =
    let (j, at_j, l) = skip_zeros-lem 17 16 0 value (omega arith) (omega arith) small in
    let same : 16 - skip_zeros 17 value 0xf000000000000000 0 ≡ j = omega (arith, at_j) in
    elim (l.needed) [
      | inl nothing ↦ (
        0,
        omega arith,
        rw (same, nothing) refl,
        omega (arith, (rw nothing at (l.small))),
        inl refl,
      )
      | inr (k, e, reached) ↦
          let more : (j == 0) ≡ false = ground arith in
          (k, omega (arith, at_j, e), rw (same, more) e, (rw e at (l.small)), inr reached)
    ]

-- Where the buffer is larger than the number of characters, k_xtoa writes as many as it returns, and
-- they read as the number.
pub xtoa-read_hex :
    (value size : ℕ)
    → value < 2 ^ 64
    → hex_length value < size
    → (text : List ℕ) × (xtoa size value ≡ (length text, some text)) × (read_hex 0 text ≡ value)
unfolding xtoa
xtoa-read_hex value size small room =
    let (n, most, count, below, needed) = hex_length-lem value small in
    let fits : ltb (hex_length value) size ≡ true = ground arith in
    let some_room : (size == 0) ≡ false = ground arith in
    let written = write_nibbles-length n 16 value [] below needed most in
    (
      write_nibbles 16 value [],
      rw (some_room, fits)
          (ap (λ c. (c, some (write_nibbles 16 value []))) (count ∙ sym (written ∙ omega arith))),
      write_nibbles-read 16 16 value [] small (omega arith) (omega arith),
    )
