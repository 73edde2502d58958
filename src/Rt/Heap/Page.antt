-- ===== src/Rt/Heap/Page.antt =====
-- k_rt_InitChunkPage cuts a page into chunks, and each of them goes back to the bucket that it is put in.
use native.Mathlib.Decide.{ℕ_discrete}
use dogg_os.Base.{
  ℕ, ◌+◌, ◌-◌, ◌*◌, ◌/◌, ◌≤◌, ◌<◌, ◌≡◌, ◌⊎◌, refl, sym, ap, subst, ◌∙◌, true, Bool, ◌&&◌, List, [],
  ◌==◌, leb, Array, update, update_self, pow2, pow2-pos, holds_until, holds_until-at, arith, inl,
  inr,
}
use dogg_os.Chain.{count, count-nil, last_of}
use dogg_os.Rt.Heap.Place.{IsMultiple, end-IsMultiple}
use dogg_os.Rt.Heap.{chunk_at, SmallHeap, Row, carve_chunks, link_row, init_chunk_page}
use dogg_os.Rt.Heap.Chunks.{IsHeap, put, put-same, put-other}
use dogg_os.Rt.Heap.Sizes.{pow2_mono}
use dogg_os.Rt.Heap.Carve.{IsRow, carve_chunks-IsRow, link_row-IsHeap}
use dogg_os.Rt.Heap.Homes.{bucket_of-main, bucket_of-update}
use dogg_os.Rt.Heap.Front.{IsFilled, carve_front-IsFilled}

-- The numbers of the page for a bucket: slots, chunks, and what is left in front.
abbrev page_numbers : ℕ → Bool
page_numbers k =
    (8 * pow2 k / (8 * pow2 0) == pow2 k)
    && ((4088 / (8 * pow2 k) * pow2 k + pow2 k == 512) && leb 1 (4088 / (8 * pow2 k)))

page_numbers-lem :
    (k : ℕ)
    → k < 9
    → (8 * pow2 k / (8 * pow2 0) ≡ pow2 k) × (4088 / (8 * pow2 k) * pow2 k + pow2 k ≡ 512)
unfolding holds_until
page_numbers-lem k lt =
    let all = holds_until-at page_numbers 9 {i = k} lt numbers in (ground arith, ground arith)
  where
    numbers : holds_until page_numbers 9 ≡ true
    numbers = refl

-- A new header.
header-IsHeap :
    (h : SmallHeap) (page k : ℕ) (chunks : ℕ → List ℕ)
    → page / 4096 * 4096 ≡ page
    → IsHeap h chunks
    → ((j z : ℕ) → j < 9 → 1 ≤ count z (chunks j) → (z < page) ⊎ (page + 4096 ≤ z))
    → IsHeap (record h { main_bucket = update h.main_bucket page k }) chunks
header-IsHeap h page k chunks aligned whole away = record {
  chain = whole.chain;
  ending = whole.ending;
  once = whole.once;
  home = λ j z lt has.
      let its = whole.home j z lt has in
      record {
        bucket = bucket_of-update h.main_bucket page k z aligned (away j z lt has) ∙ its.bucket;
        aligned = its.aligned;
        behind_header = its.behind_header;
      };
}

empty-IsRow :
    (h : SmallHeap) (page k : ℕ)
    → k < 9
    → page / 4096 * 4096 ≡ page
    → IsRow h page (pow2 k) (record { heap = h; cur_offset = 511; first = 0; last = 0 }) []
unfolding last_of
empty-IsRow h page k lt on_page = record {
  end_aligned =
      let at : chunk_at page 511 ≡ page + 4096 = omega arith in
      subst (IsMultiple (8 * pow2 k)) (sym at) (end-IsMultiple k page lt on_page);
  aligned = λ z has. absurd (omega (arith, has, count-nil z));
  chain = refl;
  ending = refl;
  inside = λ z has. absurd (omega (arith, has, count-nil z));
  once = λ z. omega (arith, count-nil z);
  carved = λ lt. absurd (omega arith);
  outside = λ z away. refl;
  first_chunk = refl;
  last_chunk = refl;
  main_bucket = refl;
}

-- Where the bucket is empty, k_rt_InitChunkPage gives it chunks, and one to each lower bucket, all of
-- them on the page; the chunks of all buckets go back where they are.
pub init_chunk_page-IsFilled :
    (page k : ℕ) (h : SmallHeap) (chunks : ℕ → List ℕ)
    → k < 9
    → page / 4096 * 4096 ≡ page
    → IsHeap h chunks
    → chunks k ≡ []
    → ((j z : ℕ) → j < 9 → 1 ≤ count z (chunks j) → (z < page) ⊎ (page + 4096 ≤ z))
    → (lists : ℕ → List ℕ) × IsFilled page chunks (init_chunk_page page k h) lists
      × ((x : ℕ) × (1 ≤ count x (lists k)))
unfolding init_chunk_page
init_chunk_page-IsFilled page k h chunks lt aligned whole empty away =
    let (slots, front) = page_numbers-lem k lt in
    let pos = pow2-pos k in
    let start : SmallHeap = record h { main_bucket = update h.main_bucket page k } in
    let (xs, row, offset) =
      carve_chunks-IsRow (4088 / (8 * pow2 k)) start page (pow2 k)
        (record { heap = start; cur_offset = 511; first = 0; last = 0 }) []
        (empty-IsRow start page k lt aligned) pos (omega arith) (omega arith) in
    let r : Row =
      carve_chunks (4088 / (8 * pow2 k)) page (pow2 k)
        (record { heap = start; cur_offset = 511; first = 0; last = 0 }) in
    let cur : r.cur_offset ≡ pow2 k - 1 = omega arith in
    let (linked, main) =
      link_row-IsHeap start page k (pow2 k) r xs chunks
        (header-IsHeap h page k chunks aligned whole away) lt empty row away
        (λ z low high even. record {
          bucket =
              bucket_of-main start.main_bucket page k z aligned (update_self h.main_bucket page k)
                lt (omega arith) high;
          aligned = even;
          behind_header = omega arith;
        }) in
    let (lists, filled, same, mains) =
      carve_front-IsFilled k page k (link_row k r) (put k xs chunks) (omega arith) lt aligned
        (ap (λ (m : Array ℕ). m page) main ∙ update_self h.main_bucket page k) linked
        (λ j z below has low high. in_row xs r row j z cur pos low high (away j z below) has) in
    let first : 1 ≤ count r.first xs =
      row.carved (let small = pow2_mono k 8 (omega arith) in omega arith) in
    rw slots (
      simp cur (
        lists,
        record {
          heap = filled.heap;
          kept = λ j z below has. filled.kept j z below (was_kept xs j z has);
          new = λ j z below has. was_new xs r row j z cur pos (filled.new j z below has);
        },
        (
          r.first,
          subst (λ l. 1 ≤ count r.first l) (sym (same k (omega arith) ∙ put-same k xs chunks))
              first,
        ),
      ))
  where
    headed : SmallHeap
    headed = record h { main_bucket = update h.main_bucket page k }

    in_row :
        (xs : List ℕ) (r : Row)
        → IsRow headed page (pow2 k) r xs
        → (j z : ℕ) → r.cur_offset ≡ pow2 k - 1
        → 0 < pow2 k
        → page ≤ z
        → z < page + 4096
        → (1 ≤ count z (chunks j) → (z < page) ⊎ (page + 4096 ≤ z))
        → 1 ≤ count z (put k xs chunks j)
        → page + 8 * pow2 k ≤ z
    in_row xs r row j z cur pos low high elsewhere has = elim (ℕ_discrete j k) [
      | yes same ↦
          let (at, end) =
            row.inside z
              (subst (λ l. 1 ≤ count z l) (ap (put k xs chunks) same ∙ put-same k xs chunks) has) in
          omega arith
      | no other ↦
          let bad =
            contradiction
              (elsewhere (subst (λ l. 1 ≤ count z l) (put-other k xs chunks j other) has)) in
          absurd (omega arith)
    ]
      where
        contradiction : (z < page) ⊎ (page + 4096 ≤ z) → 1 ≤ 0
        contradiction (inl out) = absurd (omega arith)
        contradiction (inr out) = absurd (omega arith)

    was_kept : (xs : List ℕ) (j z : ℕ) → 1 ≤ count z (chunks j) → 1 ≤ count z (put k xs chunks j)
    was_kept xs j z has = elim (ℕ_discrete j k) [
      | yes same ↦ absurd (
          let none : count z (chunks j) ≡ 0 =
            ap (λ b. count z (chunks b)) same ∙ ap (count z) empty ∙ count-nil z in
          omega arith)
      | no other ↦ subst (λ l. 1 ≤ count z l) (sym (put-other k xs chunks j other)) has
    ]

    was_new :
        (xs : List ℕ) (r : Row)
        → IsRow headed page (pow2 k) r xs
        → (j z : ℕ) → r.cur_offset ≡ pow2 k - 1
        → 0 < pow2 k
        → (1 ≤ count z (put k xs chunks j)) ⊎ ((page ≤ z) × (z < page + 4096))
        → (1 ≤ count z (chunks j)) ⊎ ((page ≤ z) × (z < page + 4096))
    was_new xs r row j z cur pos (inr on_page) = inr on_page
    was_new xs r row j z cur pos (inl has) = elim (ℕ_discrete j k) [
      | yes same ↦
          let (at, end) =
            row.inside z
              (subst (λ l. 1 ≤ count z l) (ap (put k xs chunks) same ∙ put-same k xs chunks) has) in
          inr (omega arith, end)
      | no other ↦ inl (subst (λ l. 1 ≤ count z l) (put-other k xs chunks j other) has)
    ]
