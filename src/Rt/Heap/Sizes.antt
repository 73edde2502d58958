-- ===== src/Rt/Heap/Sizes.antt =====
-- Buckets by size.
use dogg_os.Base.{
  subst, ℕ, zero, suc, ◌+◌, ◌*◌, ◌≤◌, ◌<◌, ◌≡◌, ◌≢◌, true, leb, Bool-cases, inl, inr, pow2,
  pow2-pos, arith,
}
use native.Mathlib.Decide.{dec_lt}
use dogg_os.Rt.Heap.{small_bucket_size, bucket_index_from, small_bucket_index_from_size}

pub pow2_mono : (i j : ℕ) → i ≤ j → pow2 i ≤ pow2 j
pow2_mono i zero le = let none : i ≡ 0 = omega arith in rw none (omega arith)
pow2_mono i (suc j) le = elim (dec_lt i (suc j)) [
  | yes lt ↦ omega (arith, pow2_mono i j (omega arith))
  | no ge ↦ let same : i ≡ suc j = omega arith in rw same (omega arith)
]

-- The bucket has room for the size.
bucket_index_from-fits :
    (left bucket size : ℕ)
    → bucket_index_from left bucket size < 9
    → size ≤ 8 * pow2 (bucket_index_from left bucket size)
unfolding bucket_index_from
bucket_index_from-fits zero bucket size lt = absurd (omega arith)
bucket_index_from-fits (suc left) bucket size lt = elim (Bool-cases (leb size (8 * pow2 bucket))) [
  | inl here ↦ rw here (let le : size ≤ 8 * pow2 bucket = ground arith in le)
  | inr later ↦ rw later (bucket_index_from-fits left (bucket + 1) size (rw later at lt))
]

-- No bucket in front of it has.
bucket_index_from-least :
    (left bucket size i : ℕ)
    → bucket ≤ i
    → i < bucket + left
    → size ≤ 8 * pow2 i
    → bucket_index_from left bucket size ≤ i
unfolding bucket_index_from
bucket_index_from-least zero bucket size i le lt fits = absurd (omega arith)
bucket_index_from-least (suc left) bucket size i le lt fits =
    elim (Bool-cases (leb size (8 * pow2 bucket))) [
      | inl here ↦ rw here le
      | inr later ↦
          let not_here : bucket ≢ i =
            λ e. let big : leb size (8 * pow2 bucket) ≡ true = rw e (ground arith) in cc in
          rw later
            (bucket_index_from-least left (bucket + 1) size i (omega arith) (omega arith) fits)
    ]

-- k_rt_SmallBucketIndexFromSize returns the least bucket whose chunks have the size.
pub small_bucket_index_from_size-lem :
    (size : ℕ)
    → size ≤ 2048
    → (small_bucket_index_from_size size < 9)
      × (size ≤ 8 * pow2 (small_bucket_index_from_size size))
unfolding small_bucket_index_from_size
small_bucket_index_from_size-lem size small =
    let le = bucket_index_from-least 9 0 size 8 (omega arith) (omega arith) small in
    (omega arith, bucket_index_from-fits 9 0 size (omega arith))

below-pow2 : (k r : ℕ) → 8 * pow2 k ≤ 8 * pow2 r → k ≤ r
below-pow2 k r le = elim (dec_lt r k) [
  | no ge ↦ omega arith
  | yes lt ↦ absurd (let up = pow2_mono (suc r) k (omega arith) in omega (arith, pow2-pos r))
]

-- An offset in a page that is at least the size of bucket k has at least that bucket.
pub small_bucket_index_from_size-least :
    (k offset : ℕ) → k < 9 → 8 * pow2 k ≤ offset → k ≤ small_bucket_index_from_size offset
unfolding small_bucket_index_from_size
small_bucket_index_from_size-least k offset lt le = elim (dec_lt (bucket_index_from 9 0 offset) 9) [
  | no ge ↦ omega arith
  | yes some ↦
      let fits = bucket_index_from-fits 9 0 offset some in
      below-pow2 k (bucket_index_from 9 0 offset) (omega arith)
]

-- The size of a bucket has that bucket.
pub small_bucket_index_from_size-small_bucket_size :
    (j : ℕ) → j < 9 → small_bucket_index_from_size (small_bucket_size j) ≡ j
unfolding small_bucket_index_from_size
small_bucket_index_from_size-small_bucket_size j lt =
    let most =
      bucket_index_from-least 9 0 (8 * pow2 j) j (omega arith) (omega arith) (omega arith) in
    let fits = bucket_index_from-fits 9 0 (8 * pow2 j) (omega arith) in
    let least = below-pow2 j (bucket_index_from 9 0 (8 * pow2 j)) fits in omega arith

-- The size of a bucket is reached by the offsets of the bucket, and passed by those of the buckets behind it.
pub small_bucket_index_from_size-fits :
    (i offset : ℕ) → i < 9 → small_bucket_index_from_size offset ≡ i → offset ≤ 8 * pow2 i
unfolding small_bucket_index_from_size
small_bucket_index_from_size-fits i offset lt e =
    let fits = bucket_index_from-fits 9 0 offset (omega arith) in
    subst (λ b. offset ≤ 8 * pow2 b) e fits

pub small_bucket_index_from_size-reaches :
    (i offset : ℕ) → i < 9 → i < small_bucket_index_from_size offset → 8 * pow2 i < offset
unfolding small_bucket_index_from_size
small_bucket_index_from_size-reaches i offset lt more = elim (dec_lt (8 * pow2 i) offset) [
  | yes passed ↦ passed
  | no fits ↦ absurd (
      let le = bucket_index_from-least 9 0 offset i (omega arith) (omega arith) (omega arith) in
      omega arith)
]
