-- ===== src/Rt/Heap/Front.antt =====
-- The chunks in front of those of the main bucket: one for each lower bucket.
use native.Mathlib.Decide.{ℕ_discrete}
use dogg_os.Base.{
  ℕ, zero, suc, ◌+◌, ◌-◌, ◌*◌, ◌/◌, ◌≤◌, ◌<◌, ◌≡◌, ◌⊎◌, refl, sym, ap, subst, ◌∙◌, false, List, [],
  ◌∷◌, ◌++◌, ◌==◌, Array, pow2, pow2-pos, arith, inl, inr,
}
use dogg_os.Chain.{count, count-append}
use dogg_os.Rt.Heap.Place.{IsMultiple, front-IsMultiple}
use dogg_os.Rt.Heap.{bucket_of, SmallHeap, chunk_at, append_chunk, carve_front}
use dogg_os.Rt.Heap.Chunks.{IsHeap, put, put-same, put-other}
use dogg_os.Rt.Heap.Append.{append_chunk-IsHeap, not_added}
use dogg_os.Rt.Heap.Sizes.{pow2_mono}
use dogg_os.Rt.Heap.Homes.{bucket_of-front}

-- A heap that has all the chunks that another has, and new ones on a page only.
pub record IsFilled (page : ℕ) (before : ℕ → List ℕ) (after : SmallHeap) (chunks : ℕ → List ℕ)
    : Type 0 where
  pub heap : IsHeap after chunks
  pub kept : (j z : ℕ) → j < 9 → 1 ≤ count z (before j) → 1 ≤ count z (chunks j)
  pub new :
      (j z : ℕ)
      → j < 9
      → 1 ≤ count z (chunks j)
      → (1 ≤ count z (before j)) ⊎ ((page ≤ z) × (z < page + 4096))

-- The lists after a chunk is appended.
put_members :
    (bucket chunk : ℕ) (chunks : ℕ → List ℕ) (j z : ℕ)
    → 1 ≤ count z (put bucket (chunks bucket ++ chunk ∷ []) chunks j)
    → (1 ≤ count z (chunks j)) ⊎ (z ≡ chunk)
put_members bucket chunk chunks j z has = elim (ℕ_discrete j bucket) [
  | no other ↦ inl (subst (λ l. 1 ≤ count z l) (put-other bucket _ chunks j other) has)
  | yes same ↦ elim (ℕ_discrete z chunk) [
    | yes e ↦ inr e
    | no ne ↦ inl (
        subst (λ b. 1 ≤ count z (chunks b)) (sym same)
          (not_added z chunk (chunks bucket) ne (
            subst (λ l. 1 ≤ count z l)
              (ap (put bucket (chunks bucket ++ chunk ∷ []) chunks) same ∙ put-same bucket _ chunks)
              has)))
  ]
]

put_kept :
    (bucket chunk : ℕ) (chunks : ℕ → List ℕ) (j z : ℕ)
    → 1 ≤ count z (chunks j)
    → 1 ≤ count z (put bucket (chunks bucket ++ chunk ∷ []) chunks j)
put_kept bucket chunk chunks j z has = elim (ℕ_discrete j bucket) [
  | no other ↦ subst (λ l. 1 ≤ count z l) (sym (put-other bucket _ chunks j other)) has
  | yes same ↦
      subst (λ l. 1 ≤ count z l)
        (sym (ap (put bucket (chunks bucket ++ chunk ∷ []) chunks) same ∙ put-same bucket _ chunks))
        (let in_bucket : 1 ≤ count z (chunks bucket) =
            subst (λ b. 1 ≤ count z (chunks b)) same has in
          omega (arith, in_bucket, count-append z (chunks bucket) (chunk ∷ [])))
]

pub carve_front-IsFilled :
    (n page k : ℕ) (h : SmallHeap) (chunks : ℕ → List ℕ)
    → n ≤ k
    → k < 9
    → page / 4096 * 4096 ≡ page
    → h.main_bucket page ≡ k
    → IsHeap h chunks
    → ((j z : ℕ)
        → j < 9
        → 1 ≤ count z (chunks j)
        → page ≤ z
        → z < page + 4096
        → page + 8 * pow2 n ≤ z)
    → (lists : ℕ → List ℕ) × IsFilled page chunks
        (carve_front n page (pow2 n) (pow2 n - 1) n h)
        lists
      × ((j : ℕ) → n ≤ j → lists j ≡ chunks j)
      × ((carve_front n page (pow2 n) (pow2 n - 1) n h).main_bucket ≡ h.main_bucket)
unfolding carve_front
carve_front-IsFilled zero page k h chunks le lt aligned is whole above = (
  chunks,
  record { heap = whole; kept = λ j z below has. has; new = λ j z below has. inl has },
  λ j at. refl,
  refl,
)
carve_front-IsFilled (suc n) page k h chunks le lt aligned is whole above =
    let pos = pow2-pos n in
    let more : (pow2 n * 2 - 1 == 0) ≡ false = ground arith in
    let half : pow2 n * 2 / 2 ≡ pow2 n = omega arith in
    let offset : pow2 n * 2 - 1 - pow2 n ≡ pow2 n - 1 = omega arith in
    let bucket : suc n - 1 ≡ n = omega arith in
    let at : chunk_at page (pow2 n - 1) ≡ page + 8 * pow2 n = omega arith in
    let chunk : ℕ = chunk_at page (pow2 n - 1) in
    let (after, main) =
      append_chunk-IsHeap n chunk h chunks whole (omega arith) (omega arith)
        (λ j below. absent j below at)
        (record {
          bucket =
              ap (bucket_of h.main_bucket) at
              ∙ bucket_of-front h.main_bucket page k n aligned is lt (omega arith);
          aligned =
              subst (IsMultiple (8 * pow2 n)) (sym at)
                (front-IsMultiple n page (omega arith) aligned);
          behind_header = let small = pow2_mono n 8 (omega arith) in omega arith;
        }) in
    let (lists, rest, same, mains) =
      carve_front-IsFilled n page k (append_chunk n chunk h) (put n (chunks n ++ chunk ∷ []) chunks)
        (omega arith) lt aligned (ap (λ (m : Array ℕ). m page) main ∙ is) after
        (λ j z below has low high.
          placed j z below low high at (put_members n chunk chunks j z has)) in
    rw (more, half, offset, bucket)
      (
        lists,
        record {
          heap = rest.heap;
          kept = λ j z below has. rest.kept j z below (put_kept n chunk chunks j z has);
          new = λ j z below has. was_new j z at (rest.new j z below has);
        },
        λ j behind. same j (omega arith) ∙ put-other n _ chunks j (λ e. absurd (omega arith)),
        mains ∙ main,
      )
  where
    absent :
        (j : ℕ)
        → j < 9
        → chunk_at page (pow2 n - 1) ≡ page + 8 * pow2 n
        → count (chunk_at page (pow2 n - 1)) (chunks j) ≡ 0
    absent j below at = elim (ℕ_discrete (count (chunk_at page (pow2 n - 1)) (chunks j)) 0) [
      | yes none ↦ none
      | no some ↦ absurd (
          let small = pow2_mono n 8 (omega arith) in
          let pos = pow2-pos n in
          let bad =
            above j (chunk_at page (pow2 n - 1)) below (omega arith) (omega arith) (omega arith) in
          omega arith)
    ]

    placed :
        (j z : ℕ)
        → j < 9
        → page ≤ z
        → z < page + 4096
        → chunk_at page (pow2 n - 1) ≡ page + 8 * pow2 n
        → (1 ≤ count z (chunks j)) ⊎ (z ≡ chunk_at page (pow2 n - 1))
        → page + 8 * pow2 n ≤ z
    placed j z below low high at (inl old) = let far = above j z below old low high in omega arith
    placed j z below low high at (inr e) = omega arith

    was_new :
        (j z : ℕ)
        → chunk_at page (pow2 n - 1) ≡ page + 8 * pow2 n
        → (1 ≤ count z (put n (chunks n ++ chunk_at page (pow2 n - 1) ∷ []) chunks j))
          ⊎ ((page ≤ z) × (z < page + 4096))
        → (1 ≤ count z (chunks j)) ⊎ ((page ≤ z) × (z < page + 4096))
    was_new j z at (inr on_page) = inr on_page
    was_new j z at (inl has) = from (put_members n (chunk_at page (pow2 n - 1)) chunks j z has)
      where
        from :
            (1 ≤ count z (chunks j)) ⊎ (z ≡ chunk_at page (pow2 n - 1))
            → (1 ≤ count z (chunks j)) ⊎ ((page ≤ z) × (z < page + 4096))
        from (inl old) = inl old
        from (inr e) = let small = pow2_mono n 8 (omega arith) in inr (omega arith, omega arith)
