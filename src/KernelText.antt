-- ===== src/KernelText.antt =====
-- kernel/k_string.c: the number conversions of the kernel's own printing.
--
-- A conversion that has no room writes nothing; what it returns is the length of the text.
pub mod Nibbles
pub mod Hex
pub mod Decimal
mod Tests
use dogg_os.Base.{
  ℕ, zero, suc, ◌+◌, ◌-◌, ◌*◌, ◌/◌, ◌%◌, ◌^◌, ◌&&◌, not, List, [], ◌∷◌, Option, none, some, length,
  get_or, ◌==◌, ltb, leb, if◌then◌else◌, bit_and,
}

-- k_itoa_masks
abbrev pub itoa_masks : List (List ℕ)
itoa_masks =
    (0 ∷ 1000000000 ∷ 2000000000 ∷ 3000000000 ∷ 4000000000 ∷ 0 ∷ 0 ∷ 0 ∷ 0 ∷ 0 ∷ [])
    ∷ (0 ∷ 100000000 ∷ 200000000 ∷ 300000000 ∷ 400000000 ∷ 500000000 ∷ 600000000 ∷ 700000000
        ∷ 800000000 ∷ 900000000 ∷ [])
    ∷ (0 ∷ 10000000 ∷ 20000000 ∷ 30000000 ∷ 40000000 ∷ 50000000 ∷ 60000000 ∷ 70000000 ∷ 80000000
        ∷ 90000000 ∷ [])
    ∷ (0 ∷ 1000000 ∷ 2000000 ∷ 3000000 ∷ 4000000 ∷ 5000000 ∷ 6000000 ∷ 7000000 ∷ 8000000 ∷ 9000000
        ∷ [])
    ∷ (0 ∷ 100000 ∷ 200000 ∷ 300000 ∷ 400000 ∷ 500000 ∷ 600000 ∷ 700000 ∷ 800000 ∷ 900000 ∷ [])
    ∷ (0 ∷ 10000 ∷ 20000 ∷ 30000 ∷ 40000 ∷ 50000 ∷ 60000 ∷ 70000 ∷ 80000 ∷ 90000 ∷ [])
    ∷ (0 ∷ 1000 ∷ 2000 ∷ 3000 ∷ 4000 ∷ 5000 ∷ 6000 ∷ 7000 ∷ 8000 ∷ 9000 ∷ [])
    ∷ (0 ∷ 100 ∷ 200 ∷ 300 ∷ 400 ∷ 500 ∷ 600 ∷ 700 ∷ 800 ∷ 900 ∷ [])
    ∷ (0 ∷ 10 ∷ 20 ∷ 30 ∷ 40 ∷ 50 ∷ 60 ∷ 70 ∷ 80 ∷ 90 ∷ [])
    ∷ (0 ∷ 1 ∷ 1 ∷ 1 ∷ 1 ∷ 1 ∷ 1 ∷ 1 ∷ 1 ∷ 1 ∷ [])
    ∷ []

-- `k_itoa_masks[mask_index][digit]`
unfoldable pub itoa_mask : ℕ → ℕ → ℕ
itoa_mask mask_index digit = get_or (get_or itoa_masks mask_index []) digit 0

-- `while(uvalue < k_itoa_masks[mask_index][1] && mask_index < 9)`, on fuel; nine rounds are enough.
unfoldable pub skip_masks : ℕ → ℕ → ℕ → ℕ
skip_masks zero uvalue mask_index = mask_index
skip_masks (suc fuel) uvalue mask_index =
    let rest = skip_masks fuel uvalue (mask_index + 1) in
    if ltb uvalue (itoa_mask mask_index 1) && ltb mask_index 9 then rest else mask_index

-- `while(mask_index < 10 && index < buffer_length)`, where `left` is what is left of buffer_length: the
-- bytes that it writes. Ten rounds are enough.
unfoldable pub put_digits : ℕ → ℕ → ℕ → ℕ → List ℕ
put_digits zero mask_index left uvalue = []
put_digits (suc fuel) mask_index left uvalue =
    let digit = uvalue / itoa_mask mask_index 1 in
    let rest = put_digits fuel (mask_index + 1) (left - 1) (uvalue - itoa_mask mask_index digit) in
    if ltb mask_index 10 && ltb 0 left then (48 + digit) % 256 ∷ rest else []

-- k_itoa: the length that it returns and the bytes before the NUL, if it writes any. `size` is
-- buffer_size, and 0 where that is not positive; `value` is a bit pattern of 32 bits.
unfoldable pub itoa : ℕ → ℕ → ℕ × List ℕ
itoa size value =
    let sign = if leb (2 ^ 31) value then 1 else 0 in
    let uvalue = if ltb (2 ^ 31) value then 2 ^ 32 - value else value in
    let mask_index = skip_masks 9 uvalue 0 in
    let buffer_length = size - 1 in
    let text =
      if sign == 1
      then 45 ∷ put_digits 10 mask_index (buffer_length - 1) uvalue
      else put_digits 10 mask_index buffer_length uvalue in
    if ltb 0 size && leb (sign + 10 - mask_index) buffer_length
    then (length text, text)
    else (0, [])

-- k_nibble_lut
abbrev pub nibble_lut : List ℕ
nibble_lut = 48 ∷ 49 ∷ 50 ∷ 51 ∷ 52 ∷ 53 ∷ 54 ∷ 55 ∷ 56 ∷ 57 ∷ 97 ∷ 98 ∷ 99 ∷ 100 ∷ 101 ∷ 102 ∷ []

-- The search of k_xtoa for the first nibble that is not zero; the mask is used up after 16 rounds.
unfoldable pub skip_zeros : ℕ → ℕ → ℕ → ℕ → ℕ
skip_zeros zero value mask index = index
skip_zeros (suc fuel) value mask index =
    let rest = skip_zeros fuel value (mask / 16) (index + 1) in
    if (bit_and value mask == 0) && not (mask == 0) then rest else index

-- The number of characters of k_xtoa.
abbrev pub hex_length : ℕ → ℕ
hex_length value = let n = 16 - skip_zeros 17 value 0xf000000000000000 0 in if n == 0 then 1 else n

-- The do loop of k_xtoa, from the last character to the first, before the characters `text`. A
-- value of 64 bits is used up after 16 rounds.
unfoldable pub write_nibbles : ℕ → ℕ → List ℕ → List ℕ
write_nibbles zero value text = text
write_nibbles (suc fuel) value text =
    let written = get_or nibble_lut (bit_and value 0xf) 0 ∷ text in
    let rest = write_nibbles fuel (value / 16) written in if value / 16 == 0 then written else rest

-- k_xtoa: the length that it returns, and the characters in front of the NUL, if it writes any. The
-- last of them stands at the length.
unfoldable pub xtoa : ℕ → ℕ → ℕ × Option (List ℕ)
xtoa size value =
    if size == 0
    then (0, none)
    else if ltb (hex_length value) size
    then (hex_length value, some (write_nibbles 16 value []))
    else (hex_length value, none)
