-- ===== src/Rt/Heap/Apart.antt =====
-- Chunks do not overlap.
use native.Mathlib.Nat.{mul_assoc}
use native.Mathlib.Decide.{dec_lt}
use dogg_os.Base.{
  ℕ, zero, suc, ◌+◌, ◌-◌, ◌*◌, ◌/◌, ◌≤◌, ◌<◌, ◌≡◌, ◌≢◌, ◌⊎◌, refl, sym, ap, ◌∙◌, ltb, List, Array,
  pow2, Bool-cases, inl, inr, arith,
}
use dogg_os.Chain.{count}
use dogg_os.Rt.Heap.{
  SmallHeap, bucket_of, small_bucket_index_from_size, small_bucket_size, small_alloc,
}
use dogg_os.Rt.Heap.Place.{IsMultiple, IsHome, end-IsMultiple}
use dogg_os.Rt.Heap.Chunks.{IsHeap}
use dogg_os.Rt.Heap.Sizes.{
  small_bucket_index_from_size-reaches, small_bucket_index_from_size-fits,
  small_bucket_index_from_size-lem,
}
use dogg_os.Rt.Heap.Serve.{small_alloc-IsServed}

-- Multiples have a distance.
product-lt : (b q r : ℕ) → q * b < r * b → suc q * b ≤ r * b
product-lt b zero zero lt = absurd (omega arith)
product-lt b zero (suc r) lt = let next : suc r * b ≡ b + r * b = ground arith in omega arith
product-lt b (suc q) zero lt = absurd (let none : zero * b ≡ 0 = omega arith in omega arith)
product-lt b (suc q) (suc r) lt =
    let left : suc q * b ≡ b + q * b = ground arith in
    let right : suc r * b ≡ b + r * b = ground arith in
    let more : suc (suc q) * b ≡ b + suc q * b = ground arith in
    let rest = product-lt b q r (omega arith) in omega arith

IsMultiple-gap : (b z w : ℕ) → IsMultiple b z → IsMultiple b w → z < w → z + b ≤ w
IsMultiple-gap b z w m n lt =
    let e = m.product in
    let f = n.product in
    let next : suc m.quotient * b ≡ b + m.quotient * b = ground arith in
    let le = product-lt b m.quotient n.quotient (omega arith) in omega arith

-- A multiple of a size is one of each smaller size.
pow2_split : (j i : ℕ) → j ≤ i → IsMultiple (pow2 j) (pow2 i)
pow2_split j zero le =
    let none : j ≡ 0 = omega arith in record { quotient = 1; product = rw none (omega arith) }
pow2_split j (suc i) le = elim (dec_lt j (suc i)) [
  | yes lt ↦
      let m = pow2_split j i (omega arith) in
      let e = m.product in
      record {
        quotient = 2 * m.quotient;
        product =
            let double : 2 * m.quotient * pow2 j ≡ 2 * (m.quotient * pow2 j) =
              mul_assoc 2 m.quotient (pow2 j) in
            omega arith;
      }
  | no ge ↦
      let same : j ≡ suc i = omega arith in record { quotient = 1; product = rw same (omega arith) }
]

IsMultiple-smaller : (j i z : ℕ) → j ≤ i → IsMultiple (8 * pow2 i) z → IsMultiple (8 * pow2 j) z
IsMultiple-smaller j i z le m =
    let s = pow2_split j i le in
    let e = s.product in
    let size : 8 * pow2 i ≡ s.quotient * (8 * pow2 j) = swap s.quotient e in
    record {
      quotient = m.quotient * s.quotient;
      product =
          m.product
          ∙ ap (λ n. m.quotient * n) size
          ∙ sym (mul_assoc m.quotient s.quotient (8 * pow2 j));
    }
  where
    swap : (q : ℕ) → pow2 i ≡ q * pow2 j → 8 * pow2 i ≡ q * (8 * pow2 j)
    swap q e = grind arith

-- The bucket of a chunk is at most that of its page, and at most that of its offset.
bucket_of-bounds :
    (main : Array ℕ) (z : ℕ)
    → (bucket_of main z ≤ main (z / 4096 * 4096))
      × (bucket_of main z ≤ small_bucket_index_from_size (z - z / 4096 * 4096))
      × ((bucket_of main z < main (z / 4096 * 4096))
          → small_bucket_index_from_size (z - z / 4096 * 4096) ≡ bucket_of main z)
unfolding bucket_of
bucket_of-bounds main z =
    elim (Bool-cases
      (ltb (main (z / 4096 * 4096)) (small_bucket_index_from_size (z - z / 4096 * 4096)))) [
        | inl most ↦
            let lt : main (z / 4096 * 4096) < small_bucket_index_from_size (z - z / 4096 * 4096) =
              ground arith in
            rw most (omega arith, omega arith, λ less. absurd (omega arith))
        | inr least ↦
            let le : small_bucket_index_from_size (z - z / 4096 * 4096) ≤ main (z / 4096 * 4096) =
              ground arith in
            rw least (le, omega arith, λ less. refl)
      ]

-- The chunk in front ends before the other starts.
IsHome-before :
    (main : Array ℕ) (j i z w : ℕ)
    → j < 9
    → i < 9
    → IsHome main j z
    → IsHome main i w
    → z < w
    → z + 8 * pow2 j ≤ w
IsHome-before main j i z w lt less a b order = elim (dec_lt i j) [
  | no ge ↦
      IsMultiple-gap (8 * pow2 j) z w a.aligned (IsMultiple-smaller j i w (omega arith) b.aligned)
        order
  | yes smaller ↦
      let end =
        IsMultiple-gap (8 * pow2 j) z (z / 4096 * 4096 + 4096) a.aligned
          (end-IsMultiple j (z / 4096 * 4096) lt (omega arith)) (omega arith) in
      elim (dec_lt (z / 4096) (w / 4096)) [
        | yes behind ↦ omega arith
        | no here ↦
            let page : w / 4096 * 4096 ≡ z / 4096 * 4096 = omega arith in
            let (main_z, index_z, exact_z) = bucket_of-bounds main z in
            let (main_w, index_w, exact_w) = bucket_of-bounds main w in
            let same : main (w / 4096 * 4096) ≡ main (z / 4096 * 4096) = ap main page in
            let za = a.bucket in
            let wb = b.bucket in
            let its = exact_w (omega arith) in
            let few =
              small_bucket_index_from_size-fits i (w - w / 4096 * 4096) less (omega arith) in
            let many =
              small_bucket_index_from_size-reaches i (z - z / 4096 * 4096) less (omega arith) in
            absurd (omega arith)
      ]
]

IsHome-apart :
    (main : Array ℕ) (j i z w : ℕ)
    → j < 9
    → i < 9
    → IsHome main j z
    → IsHome main i w
    → z ≢ w
    → (z + 8 * pow2 j ≤ w) ⊎ (w + 8 * pow2 i ≤ z)
IsHome-apart main j i z w lt less a b ne = elim (dec_lt z w) [
  | yes order ↦ inl (IsHome-before main j i z w lt less a b order)
  | no other ↦ inr (IsHome-before main i j w z less lt b a (omega arith))
]

-- After k_rt_SmallAlloc handed out a chunk for 2048 bytes or less, those bytes overlap with no chunk that
-- is free, and no two free chunks overlap, on whatever pages and in whatever buckets they are.
pub small_alloc-apart :
    (page size : ℕ) (h : SmallHeap) (chunks : ℕ → List ℕ)
    → IsHeap h chunks
    → size ≤ 2048
    → page / 4096 * 4096 ≡ page
    → ((j z : ℕ) → j < 9 → 1 ≤ count z (chunks j) → (z < page) ⊎ (page + 4096 ≤ z))
    → (lists : ℕ → List ℕ) × IsHeap (small_alloc page size h).1 lists
      × ((i w : ℕ)
          → i < 9
          → 1 ≤ count w (lists i)
          → ((small_alloc page size h).0 + size ≤ w)
            ⊎ (w + small_bucket_size i ≤ (small_alloc page size h).0))
      × ((i j w z : ℕ)
          → i < 9
          → j < 9
          → 1 ≤ count w (lists i)
          → 1 ≤ count z (lists j)
          → w ≢ z
          → (w + small_bucket_size i ≤ z) ⊎ (z + small_bucket_size j ≤ w))
small_alloc-apart page size h chunks whole small aligned away =
    let (lists, s, fits) = small_alloc-IsServed page size h chunks whole small aligned away in
    let (lt, room) = small_bucket_index_from_size-lem size small in
    let main = (small_alloc page size h).1.main_bucket in
    (
      lists,
      s.heap,
      (λ i w below has.
          shorter w i
            (IsHome-apart main (small_bucket_index_from_size size) i (small_alloc page size h).0 w
              lt below s.home (s.heap.home i w below has)
              (λ e.
                let none = s.out i below in
                let one : 1 ≤ count (small_alloc page size h).0 (lists i) = rw e has in
                absurd (omega arith)))
            room),
      λ i j w z below under has here ne.
          IsHome-apart main i j w z below under (s.heap.home i w below has)
            (s.heap.home j z under here) ne,
    )
  where
    shorter :
        (w i : ℕ)
        → ((small_alloc page size h).0 + 8 * pow2 (small_bucket_index_from_size size) ≤ w)
          ⊎ (w + small_bucket_size i ≤ (small_alloc page size h).0)
        → size ≤ 8 * pow2 (small_bucket_index_from_size size)
        → ((small_alloc page size h).0 + size ≤ w)
          ⊎ (w + small_bucket_size i ≤ (small_alloc page size h).0)
    shorter w i (inl before) room = inl (omega arith)
    shorter w i (inr behind) room = inr behind
