-- ===== src/Rt/Heap/Homes.antt =====
-- The bucket to which a chunk goes back, by its place on its page.
use dogg_os.Base.{
  ℕ, ◌+◌, ◌-◌, ◌*◌, ◌/◌, ◌≤◌, ◌<◌, ◌≡◌, ◌≢◌, refl, ap, ◌∙◌, false, if◌then◌else◌, ltb, Array,
  update, update_other, pow2, arith, Bool-cases, inl, inr, ◌⊎◌,
}
use dogg_os.Rt.Heap.{bucket_of, small_bucket_index_from_size}
use dogg_os.Rt.Heap.Sizes.{
  pow2_mono, small_bucket_index_from_size-least, small_bucket_index_from_size-small_bucket_size,
}

-- The bucket by page and offset.
bucket_at :
    (main : Array ℕ) (page z : ℕ)
    → page / 4096 * 4096 ≡ page
    → page ≤ z
    → z < page + 4096
    → bucket_of main z ≡ (
        if ltb (main page) (small_bucket_index_from_size (z - page))
        then main page
        else small_bucket_index_from_size (z - page))
unfolding bucket_of
bucket_at main page z aligned low high = let at : z / 4096 * 4096 ≡ page = omega arith in rw at refl

-- A chunk behind those in front is of the main bucket of its page.
pub bucket_of-main :
    (main : Array ℕ) (page k z : ℕ)
    → page / 4096 * 4096 ≡ page
    → main page ≡ k
    → k < 9
    → page + 8 * pow2 k ≤ z
    → z < page + 4096
    → bucket_of main z ≡ k
bucket_of-main main page k z aligned is lt low high =
    let least = small_bucket_index_from_size-least k (z - page) lt (omega arith) in
    bucket_at main page z aligned (omega arith) high
    ∙ elim (Bool-cases (ltb (main page) (small_bucket_index_from_size (z - page)))) [
      | inl more ↦ rw more is
      | inr most ↦ rw most (
          let le : small_bucket_index_from_size (z - page) ≤ main page = ground arith in
          omega arith)
    ]

-- A chunk in front is of the bucket of its offset.
pub bucket_of-front :
    (main : Array ℕ) (page k i : ℕ)
    → page / 4096 * 4096 ≡ page
    → main page ≡ k
    → k < 9
    → i < k
    → bucket_of main (page + 8 * pow2 i) ≡ i
bucket_of-front main page k i aligned is lt less =
    let small = pow2_mono i 8 (omega arith) in
    let offset : page + 8 * pow2 i - page ≡ 8 * pow2 i = omega arith in
    let index : small_bucket_index_from_size (page + 8 * pow2 i - page) ≡ i =
      ap small_bucket_index_from_size offset
      ∙ small_bucket_index_from_size-small_bucket_size i (omega arith) in
    let test : ltb (main page) (small_bucket_index_from_size (page + 8 * pow2 i - page)) ≡ false =
      ground arith in
    bucket_at main page (page + 8 * pow2 i) aligned (omega arith) (omega arith) ∙ rw test index

-- The header of a page is read for its own chunks only.
pub bucket_of-update :
    (main : Array ℕ) (page k z : ℕ)
    → page / 4096 * 4096 ≡ page
    → (z < page) ⊎ (page + 4096 ≤ z)
    → bucket_of (update main page k) z ≡ bucket_of main z
unfolding bucket_of
bucket_of-update main page k z aligned away =
    let other : update main page k (z / 4096 * 4096) ≡ main (z / 4096 * 4096) =
      update_other main page k (z / 4096 * 4096) (λ e. elsewhere away e) in
    ap
      (λ m.
        if ltb m (small_bucket_index_from_size (z - z / 4096 * 4096))
        then m
        else small_bucket_index_from_size (z - z / 4096 * 4096))
      other
  where
    elsewhere : (z < page) ⊎ (page + 4096 ≤ z) → z / 4096 * 4096 ≢ page
    elsewhere (inl low) e = absurd (omega arith)
    elsewhere (inr high) e = absurd (omega arith)
