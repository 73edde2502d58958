-- ===== src/Rt/Text/Copy.antt =====
-- k_rt_StrCpy and k_rt_StrCat: what the buffer holds afterwards.
use dogg_os.Base.{
  ℕ, zero, suc, ◌+◌, ◌-◌, ◌≤◌, ◌<◌, ◌≡◌, refl, ◌∙◌, false, List, [], ◌∷◌, ◌++◌, length-append, some,
  length, get_or, ltb, ◌==◌, ◌&&◌, leb, min, if◌then◌else◌, Array, update, arith, inl, inr,
  Bool-cases, ltb→lt,
}
use native.Mathlib.Decide.{ℕ_discrete}
use dogg_os.Rt.Text.{copy_bytes, append_bytes, str_cpy, str_cat, str_len, cat_at}
use dogg_os.Rt.Text.Compare.{IsText, cons}

-- Writing the byte of `g` at `p` before the `n` bytes that follow it.
write-step :
    (g buffer : Array ℕ) (p next end n j v : ℕ)
    → next ≡ p + 1
    → end ≡ p + suc n
    → v ≡ g p
    → (if leb next j && ltb j (next + n) then g j else update buffer p v j)
      ≡ (if leb p j && ltb j end then g j else buffer j)
write-step g buffer p next end n j v e f here = elim (ℕ_discrete j p) [
  | yes same ↦ rw (same, here) (ground arith)
  | no ne ↦ ground arith
]

-- The copied bytes, and no others, are those of the string.
copy_bytes-at :
    (n i : ℕ) (s : List ℕ) (buffer : Array ℕ) (j : ℕ)
    → copy_bytes n i s buffer j ≡ (if leb i j && ltb j (i + n) then get_or s j 0 else buffer j)
unfolding copy_bytes
copy_bytes-at zero i s buffer j = ground arith
copy_bytes-at (suc n) i s buffer j =
    copy_bytes-at n (i + 1) s (update buffer i (get_or s i 0)) j
    ∙ write-step (λ k. get_or s k 0) buffer i (i + 1) (i + suc n) n j (get_or s i 0) (omega arith)
        (omega arith) refl

append_bytes-at :
    (n index i : ℕ) (s : List ℕ) (buffer : Array ℕ) (j : ℕ)
    → append_bytes n index i s buffer j
      ≡ (if leb (index + i) j && ltb j (index + i + n) then get_or s (j - index) 0 else buffer j)
unfolding append_bytes
append_bytes-at zero index i s buffer j = ground arith
append_bytes-at (suc n) index i s buffer j =
    append_bytes-at n index (i + 1) s (update buffer (index + i) (get_or s i 0)) j
    ∙ write-step (λ k. get_or s (k - index) 0) buffer (index + i) (index + (i + 1))
        (index + i + suc n) n j (get_or s i 0) (omega arith) (omega arith)
        (let same : index + i - index ≡ i = omega arith in rw same)

-- The buffer begins with the string `s` and a NUL.
pub record IsHeld (s : List ℕ) (buffer : Array ℕ) : Type 0 where
  pub bytes : (j : ℕ) → j < length s → buffer j ≡ get_or s j 0
  pub end : buffer (length s) ≡ 0

-- What k_rt_StrCpy leaves in the buffer: as much of the string as there is room for, its NUL, and
-- every byte behind as it was. The length that it returns never exceeds the size.
pub str_cpy-lem :
    (buffer : Array ℕ) (size : ℕ) (s : List ℕ)
    → 0 < size
    → (str_cpy buffer size s).0 ≤ size
      × ((j : ℕ)
          → (str_cpy buffer size s).1 j ≡ (
              if ltb j (min (length s) (size - 1))
              then get_or s j 0
              else if j == min (length s) (size - 1)
              then 0
              else buffer j))
unfolding str_cpy
str_cpy-lem buffer size s h = rw nonzero (ground arith, λ j. rw taken (at j))
  where
    n : ℕ
    n = if ltb size (length s + 1) then size else length s + 1

    nonzero : (size == 0) ≡ false
    nonzero = ground arith

    taken : n - 1 ≡ min (length s) (size - 1)
    taken = ground arith

    at :
        (j : ℕ)
        → update (copy_bytes (min (length s) (size - 1)) 0 s buffer) (min (length s) (size - 1)) 0 j
          ≡ (if ltb j (min (length s) (size - 1))
              then get_or s j 0
              else if j == min (length s) (size - 1)
              then 0
              else buffer j)
    at j = ground (arith, copy_bytes-at (min (length s) (size - 1)) 0 s buffer j)

-- k_rt_StrLen finds the end of what the buffer holds.
str_len-from :
    (s : List ℕ) (fuel i e : ℕ) (buffer : Array ℕ)
    → IsText s
    → ((j : ℕ) → j < length s → buffer (i + j) ≡ get_or s j 0)
    → i + length s ≡ e
    → buffer e ≡ 0
    → length s < fuel
    → str_len fuel buffer i ≡ some e
unfolding str_len
str_len-from s zero i e buffer t bytes at_e end h = absurd (omega arith)
str_len-from [] (suc fuel) i e buffer t bytes at_e end h =
    let same : i ≡ e = omega arith in rw (same, end)
str_len-from (c ∷ s) (suc fuel) i e buffer (cons p b t) bytes at_e end h =
    let first : buffer i ≡ c =
      let same : i + 0 ≡ i = omega arith in rw same at (bytes 0 (omega arith)) in
    let nonzero : (buffer i == 0) ≡ false = ground arith in
    rw nonzero (
      str_len-from s fuel (i + 1) e buffer t
        (λ j lt.
          (let same : i + 1 + j ≡ i + suc j = omega arith in rw same) ∙ bytes (suc j) (omega arith))
        (omega arith) end (omega arith))

str_len-IsHeld :
    (s : List ℕ) (fuel : ℕ) (buffer : Array ℕ)
    → IsText s
    → IsHeld s buffer
    → length s < fuel
    → str_len fuel buffer 0 ≡ some (length s)
str_len-IsHeld s fuel buffer t held h =
    str_len-from s fuel 0 (length s) buffer t
      (λ j lt. (let same : 0 + j ≡ j = omega arith in rw same) ∙ held.bytes j lt) (omega arith)
      held.end h

get_or-append :
    (s t : List ℕ) (j : ℕ)
    → get_or (s ++ t) j 0 ≡ (if ltb j (length s) then get_or s j 0 else get_or t (j - length s) 0)
get_or-append [] t j = let same : j - 0 ≡ j = omega arith in rw same (ground arith)
get_or-append (c ∷ s) t zero = ground arith
get_or-append (c ∷ s) t (suc j) =
    let same : suc j - suc (length s) ≡ j - length s = omega arith in
    rw same (get_or-append s t j ∙ ground arith)

-- The end of a string reads as its NUL.
get_or-end : (s : List ℕ) → get_or s (length s) 0 ≡ 0
get_or-end [] = refl
get_or-end (c ∷ s) = get_or-end s

module _ (s t : List ℕ) (fuel size : ℕ) (buffer : Array ℕ) (text : IsText s)
    (held : IsHeld s buffer) (enough : length s < fuel) (some_room : 0 < size) where
  abbrev joined : Array ℕ
  joined = append_bytes (length t + 1) (length s) 0 t buffer

  joined-at :
      (j : ℕ)
      → joined j ≡ (
          if leb (length s) j && ltb j (length s + (length t + 1))
          then get_or t (j - length s) 0
          else buffer j)
  joined-at j =
      append_bytes-at (length t + 1) (length s) 0 t buffer j
      ∙ (let same : length s + 0 ≡ length s = omega arith in rw same)

  str_cat-at : str_cat fuel buffer size t ≡ some (cat_at (length s) buffer size t)
  unfolding str_cat
  str_cat-at =
      let nonzero : (size == 0) ≡ false = ground arith in
      rw (nonzero, str_len-IsHeld s fuel buffer text held enough)

  joined-byte : (j : ℕ) → j < length s + length t → joined j ≡ get_or (s ++ t) j 0
  joined-byte j lt = elim (Bool-cases (ltb j (length s))) [
    | inl inside ↦
        joined-at j ∙ ground (arith, held.bytes j (ltb→lt j (length s) inside), get_or-append s t j)
    | inr behind ↦ joined-at j ∙ ground (arith, get_or-append s t j)
  ]

  joined-end : joined (length s + length t) ≡ 0
  joined-end =
      let same : length s + length t - length s ≡ length t = omega arith in
      joined-at (length s + length t) ∙ rw same (ground (arith, get_or-end t))

  joined-IsHeld : IsHeld (s ++ t) joined
  joined-IsHeld = record {
    bytes = λ j lt. joined-byte j (omega (arith, length-append s t, lt));
    end = rw (length-append s t) joined-end;
  }

  -- k_rt_StrCat appends the string where it is shorter than the room that is left, and writes nothing
  -- behind the new NUL. It counts the NUL in what it returns.
  pub str_cat-fits :
      length s + (length t + 1) < size
      → (after : Array ℕ) × (str_cat fuel buffer size t ≡ some (length s + (length t + 1), after))
        × IsHeld (s ++ t) after
        × ((j : ℕ) → length s + length t < j → after j ≡ buffer j)
  str_cat-fits h =
      (joined, str_cat-at ∙ ground arith, joined-IsHeld, λ j behind. joined-at j ∙ ground arith)

  -- Else it changes nothing, and returns the length of what the buffer holds.
  pub str_cat-full :
      size ≤ length s + (length t + 1) → str_cat fuel buffer size t ≡ some (length s, buffer)
  str_cat-full h = str_cat-at ∙ ground arith
