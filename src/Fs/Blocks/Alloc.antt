-- ===== src/Fs/Blocks/Alloc.antt =====
-- k_fs_PupAllocBlock marks a block that was free, and no other.
use native.Mathlib.Decide.{ℕ_discrete}
use dogg_os.Base.{
  ℕ, zero, suc, ◌+◌, ◌-◌, ◌/◌, ◌%◌, ◌≤◌, ◌<◌, ◌≡◌, ◌≢◌, refl, sym, ap, ◌∙◌, true, false, List, [],
  ◌∷◌, Option, none, some, Option-cases, Bool-cases, inl, inr, ◌==◌, if◌then◌else◌, Array,
  update_self, update_other, bit, bit_and, bit_or, arith,
}
use dogg_os.Fs.Blocks.{Volume, bit_of, is_free, mark, first_free, alloc_in, alloc_block}
use dogg_os.Fs.Blocks.Bytes.{clear-bit, bit-set}

-- Marking a block takes that block, and no other.
pub is_free-mark :
    (m : Array ℕ) (i j : ℕ) → is_free (mark m i) j ≡ (if j == i then false else is_free m j)
is_free-mark m i j = elim (ℕ_discrete (j / 8) (i / 8)) [
  | no ne ↦
      let other : (j == i) ≡ false = ground arith in
      rw (other, update_other m (i / 8) (bit_or (m (i / 8)) (bit_of i)) (j / 8) ne) refl
  | yes e ↦
      let old : (bit_and (m (j / 8)) (bit_of j) == 0) ≡ (bit (m (i / 8)) (j % 8) == 0) =
        rw e (clear-bit (m (i / 8)) (j % 8)) in
      let new : is_free (mark m i) j ≡ (bit (bit_or (m (i / 8)) (bit_of i)) (j % 8) == 0) =
        rw (e, update_self m (i / 8) (bit_or (m (i / 8)) (bit_of i)))
          (clear-bit (bit_or (m (i / 8)) (bit_of i)) (j % 8)) in
      let set = bit-set (m (i / 8)) (i % 8) (j % 8) (omega arith) (omega arith) in
      elim (ℕ_discrete j i) [
        | yes same ↦
            let its : (j % 8 == i % 8) ≡ true = ground arith in
            let this : (j == i) ≡ true = ground arith in new ∙ rw (set, its, this) refl
        | no ne ↦
            let its : (j % 8 == i % 8) ≡ false = ground arith in
            let this : (j == i) ≡ false = ground arith in new ∙ rw (set, its, this, old) refl
      ]
]

none-ne-some : {k : ℕ} → none ≢ some k
none-ne-some e = cc

some-eq : {i k : ℕ} → some i ≡ some k → i ≡ k
some-eq e = cc

first_free-some :
    (n i k : ℕ) (m : Array ℕ)
    → first_free n i m ≡ some k
    → (i ≤ k) × (k < i + n) × (is_free m k ≡ true)
unfolding first_free
first_free-some zero i k m e = absurd (none-ne-some e)
first_free-some (suc n) i k m e = elim (Bool-cases (is_free m i)) [
  | inl free ↦
      let here : i ≡ k = some-eq (rw free at e) in (omega arith, omega arith, rw (sym here) free)
  | inr taken ↦
      let (le, lt, free) = first_free-some n (i + 1) k m (rw taken at e) in
      (omega arith, omega arith, free)
]

-- The state of the bitmap that the last exchange finds.
abbrev pub last_state : List (Array ℕ) → Array ℕ → Array ℕ
last_state [] m = m
last_state (found ∷ later) m = last_state later found

-- What an allocation that succeeds has done to the last state of the bitmap.
pub record IsMarked (count start block : ℕ) (m m' : Array ℕ) : Type 0 where
  pub index : ℕ
  pub its_block : block ≡ start + index
  pub inside : index < count
  pub was_free : is_free m index ≡ true
  pub others : (j : ℕ) → is_free m' j ≡ (if j == index then false else is_free m j)

alloc_in-IsMarked :
    (ms : List (Array ℕ)) (count start block : ℕ) (m m' : Array ℕ)
    → alloc_in ms count start m ≡ (some block, m')
    → IsMarked count start block (last_state ms m) m'
unfolding alloc_in
alloc_in-IsMarked [] count start block m m' e = elim (Option-cases (first_free count 0 m)) [
  | inl nothing ↦ absurd (none-ne-some (ap (λ p. p.0) (rw nothing at e)))
  | inr (index, found) ↦
      let (le, lt, free) = first_free-some count 0 index m found in
      let pair : ◌≡◌ {A = Option ℕ × Array ℕ} (some (start + index), mark m index)
          (some block, m') =
        rw found at e in
      record {
        index = index;
        its_block = sym (some-eq (ap (λ p. p.0) pair));
        inside = omega arith;
        was_free = free;
        others = λ j. rw (sym (ap (λ p. p.1) pair)) (is_free-mark m index j);
      }
]
alloc_in-IsMarked (found ∷ later) count start block m m' e =
    elim (Option-cases (first_free count 0 m)) [
      | inl nothing ↦ absurd (none-ne-some (ap (λ p. p.0) (rw nothing at e)))
      | inr (index, some_free) ↦
          alloc_in-IsMarked later count start block found m' (rw some_free at e)
    ]

-- However often other processors get in between, a block that k_fs_PupAllocBlock returns lies in the
-- volume, was free in the state that its last exchange found, and is marked; no other block changes.
pub alloc_block-IsMarked :
    (interference : List (Array ℕ)) (v v' : Volume) (block : ℕ)
    → alloc_block interference v ≡ (some block, v')
    → IsMarked
        (v.block_count - v.alloc_start)
        v.alloc_start
        block
        (last_state interference v.block_bitmask)
        v'.block_bitmask
unfolding alloc_block
alloc_block-IsMarked interference v v' block e =
    alloc_in-IsMarked interference (v.block_count - v.alloc_start) v.alloc_start block
      v.block_bitmask v'.block_bitmask (ap (λ p. (p.0, p.1.block_bitmask)) e)

first_free-at :
    (n i k : ℕ) (m : Array ℕ)
    → i ≤ k
    → k < i + n
    → ((j : ℕ) → j < k → is_free m j ≡ false)
    → is_free m k ≡ true
    → first_free n i m ≡ some k
unfolding first_free
first_free-at zero i k m le lt taken free = absurd (omega arith)
first_free-at (suc n) i k m le lt taken free = elim (ℕ_discrete i k) [
  | yes e ↦ rw (e, free) refl
  | no ne ↦
      rw (taken i (omega arith))
        (first_free-at n (i + 1) k m (omega arith) (omega arith) taken free)
]
