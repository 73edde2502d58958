-- ===== src/Rt/Text.antt =====
-- kernel/rt/string.c: strings.
--
-- A string that the code only reads is the list of its bytes before the NUL, so that the byte under
-- the pointer is the head of the list, or 0 where the list is empty. A buffer that it writes is an
-- array, and a number is the bit pattern of its 32 bits. `char` is signed.
pub mod Compare
pub mod Search
pub mod Copy
pub mod Digits
pub mod Numbers
mod Tests
use dogg_os.Base.{
  ℕ, zero, suc, ◌+◌, ◌-◌, ◌*◌, ◌/◌, ◌%◌, ◌^◌, Bool, true, false, ◌&&◌, ◌||◌, not, List, [], ◌∷◌,
  Option, none, some, length, get_or, ◌==◌, ltb, leb, if◌then◌else◌, Array, update,
}

-- The codes of enum result_t that this file returns.
pub data Result (A : Type 0) : Type 0 where
  ok : A → Result A
  bad_param out_of_space : Result A

-- `*str`
abbrev pub head : List ℕ → ℕ
head [] = 0
head (c ∷ s) = c

-- The bit pattern of a `char` that is widened to `int32_t`.
abbrev pub widen : ℕ → ℕ
widen c = if ltb c 128 then c else c + (2 ^ 32 - 256)

-- `diff = *str0; diff -= *str1`
abbrev pub diff : ℕ → ℕ → ℕ
diff c e = (widen c + (2 ^ 32 - widen e)) % 2 ^ 32

-- k_rt_StrCmp: the loop goes on while both strings do and the bytes are equal.
unfoldable pub str_cmp : List ℕ → List ℕ → ℕ
str_cmp [] t = diff 0 (head t)
str_cmp (c ∷ s) [] = diff c 0
str_cmp (c ∷ s) (e ∷ t) = let rest = str_cmp s t in if diff c e == 0 then rest else diff c e

-- The inner loop of k_rt_StrStr: how far both strings agree, and what is left of either.
abbrev pub agree : List ℕ → List ℕ → ℕ × List ℕ × List ℕ
agree [] t = (0, [], t)
agree (c ∷ s) [] = (0, c ∷ s, [])
agree (c ∷ s) (e ∷ t) =
    let (n, s', t') = agree s t in if c == e then (suc n, s', t') else (0, c ∷ s, e ∷ t)

-- `if(!search_for[search_for_index]) break;`
abbrev pub matched : List ℕ → ℕ → Option ℕ → Option ℕ
matched [] i rest = some i
matched (e ∷ t) i rest = rest

-- The outer loop, with the index of the next byte; the answer is the index of the match, for the
-- pointer to it. Each round takes a byte at least, so that the length of the string is fuel enough.
unfoldable pub search : ℕ → ℕ → List ℕ → List ℕ → Option ℕ
search zero i s t = none
search (suc fuel) i [] t = none
search (suc fuel) i (c ∷ s) t =
    let (n, s', t') = agree (c ∷ s) t in
    let after_match = search fuel (i + n) s' t in
    let after_byte = search fuel (i + 1) s t in
    if c == head t then matched t' i after_match else after_byte

-- k_rt_StrStr, for strings that are not NULL.
unfoldable pub str_str : List ℕ → List ℕ → Option ℕ
str_str s t = search (length s) 0 s t

-- k_rt_CopyBytes, from index `i` on.
unfoldable pub copy_bytes : ℕ → ℕ → List ℕ → Array ℕ → Array ℕ
copy_bytes zero i s buffer = buffer
copy_bytes (suc n) i s buffer = copy_bytes n (i + 1) s (update buffer i (get_or s i 0))

-- k_rt_StrCpy: the length that it returns counts the NUL.
unfoldable pub str_cpy : Array ℕ → ℕ → List ℕ → ℕ × Array ℕ
str_cpy buffer size s =
    let n = if ltb size (length s + 1) then size else length s + 1 in
    if size == 0 then (0, buffer) else (n, update (copy_bytes (n - 1) 0 s buffer) (n - 1) 0)

-- k_rt_StrLen of a buffer: the loop ends at a NUL, if the buffer has one before the fuel is used up.
unfoldable pub str_len : ℕ → Array ℕ → ℕ → Option ℕ
str_len zero buffer cursor = none
str_len (suc fuel) buffer cursor =
    let rest = str_len fuel buffer (cursor + 1) in if buffer cursor == 0 then some cursor else rest

-- The loop of k_rt_StrCat, which copies the NUL too.
unfoldable pub append_bytes : ℕ → ℕ → ℕ → List ℕ → Array ℕ → Array ℕ
append_bytes zero index i s buffer = buffer
append_bytes (suc n) index i s buffer =
    append_bytes n index (i + 1) s (update buffer (index + i) (get_or s i 0))

-- What k_rt_StrCat does once it knows the length of what the buffer holds: the new string must be
-- shorter than the buffer, its NUL included.
abbrev pub cat_at : ℕ → Array ℕ → ℕ → List ℕ → ℕ × Array ℕ
cat_at index buffer size s =
    if ltb (index + (length s + 1)) size
    then (index + (length s + 1), append_bytes (length s + 1) index 0 s buffer)
    else (index, buffer)

-- k_rt_StrCat
unfoldable pub str_cat : ℕ → Array ℕ → ℕ → List ℕ → Option (ℕ × Array ℕ)
str_cat fuel buffer size s = if size == 0 then some (0, buffer) else elim (str_len fuel buffer 0) [
  | none ↦ none
  | some index ↦ some (cat_at index buffer size s)
]

-- The loop of k_rt_AtoI, with the value so far.
unfoldable pub read_digits : ℕ → List ℕ → Result ℕ
read_digits v [] = ok v
read_digits v (c ∷ s) =
    let rest = read_digits ((v * 10 + (c - 48)) % 2 ^ 32) s in
    if ltb c 48 || ltb 57 c then bad_param else rest

-- k_rt_AtoI, for a string that is not NULL.
unfoldable pub ato_i : List ℕ → Result ℕ
ato_i s = read_digits 0 s

-- k_rt_itoa_masks
abbrev pub itoa_masks : List (List ℕ)
itoa_masks =
    (0 ∷ 1000000000 ∷ 2000000000 ∷ 3000000000 ∷ 4000000000 ∷ 0 ∷ 0 ∷ 0 ∷ 0 ∷ 0 ∷ [])
    ∷ (0 ∷ 100000000 ∷ 200000000 ∷ 300000000 ∷ 400000000 ∷ 500000000 ∷ 600000000 ∷ 700000000
        ∷ 800000000 ∷ 900000000 ∷ [])
    ∷ (0 ∷ 10000000 ∷ 20000000 ∷ 30000000 ∷ 40000000 ∷ 50000000 ∷ 60000000 ∷ 70000000 ∷ 80000000
        ∷ 90000000 ∷ [])
    ∷ (0 ∷ 1000000 ∷ 2000000 ∷ 3000000 ∷ 4000000 ∷ 5000000 ∷ 6000000 ∷ 7000000 ∷ 8000000 ∷ 9000000
        ∷ [])
    ∷ (0 ∷ 100000 ∷ 200000 ∷ 300000 ∷ 400000 ∷ 500000 ∷ 600000 ∷ 700000 ∷ 800000 ∷ 900000 ∷ [])
    ∷ (0 ∷ 10000 ∷ 20000 ∷ 30000 ∷ 40000 ∷ 50000 ∷ 60000 ∷ 70000 ∷ 80000 ∷ 90000 ∷ [])
    ∷ (0 ∷ 1000 ∷ 2000 ∷ 3000 ∷ 4000 ∷ 5000 ∷ 6000 ∷ 7000 ∷ 8000 ∷ 9000 ∷ [])
    ∷ (0 ∷ 100 ∷ 200 ∷ 300 ∷ 400 ∷ 500 ∷ 600 ∷ 700 ∷ 800 ∷ 900 ∷ [])
    ∷ (0 ∷ 10 ∷ 20 ∷ 30 ∷ 40 ∷ 50 ∷ 60 ∷ 70 ∷ 80 ∷ 90 ∷ [])
    ∷ (0 ∷ 1 ∷ 1 ∷ 1 ∷ 1 ∷ 1 ∷ 1 ∷ 1 ∷ 1 ∷ 1 ∷ [])
    ∷ []

-- `k_rt_itoa_masks[k][d]`
unfoldable pub mask : ℕ → ℕ → ℕ
mask k d = get_or (get_or itoa_masks k []) d 0

-- The power of ten to start with: `while(uvalue < masks[k][1] && k < 9) k++`. Nine rounds are
-- enough, since `k` starts at 0.
unfoldable pub first_mask : ℕ → ℕ → ℕ → ℕ
first_mask zero u k = k
first_mask (suc fuel) u k =
    let rest = first_mask fuel u (k + 1) in if ltb u (mask k 1) && ltb k 9 then rest else k

-- The bytes that the loop over the powers writes, with `room` bytes left; ten rounds are enough.
unfoldable pub write_digits : ℕ → ℕ → ℕ → ℕ → List ℕ
write_digits zero k room u = []
write_digits (suc fuel) k room u =
    let digit = u / mask k 1 in
    let rest = write_digits fuel (k + 1) (room - 1) (u - mask k digit) in
    if ltb k 10 && ltb 0 room then (48 + digit) % 256 ∷ rest else []

-- k_rt_ItoA, for a buffer that is not NULL: the bytes before the NUL, whose number is
-- `*result_size`.
unfoldable pub ito_a : ℕ → ℕ → Result (List ℕ)
ito_a value size =
    let negative = leb (2 ^ 31) value in
    let u = if ltb (2 ^ 31) value then 2 ^ 32 - value else value in
    let k = first_mask 9 u 0 in
    let room = size - 1 in
    let sign = if negative then 1 else 0 in
    if size == 0
    then bad_param
    else if leb (sign + 10 - k) room
    then ok (if negative then 45 ∷ write_digits 10 k (room - 1) u else write_digits 10 k room u)
    else out_of_space
