-- ===== src/Mem/Ranges/Free.antt =====
-- k_mem_FreeVirtualRange takes back what k_mem_AllocVirtualRange has handed out.
use native.Mathlib.Decide.{ℕ_discrete}
use dogg_os.Base.{
  ℕ, zero, suc, ◌+◌, ◌-◌, ◌*◌, ◌/◌, ◌^◌, ◌≤◌, ◌<◌, ◌≡◌, refl, ◌∙◌, true, false, ◌&&◌, ◌==◌, ltb,
  leb, if◌then◌else◌, arith, Array, update, update_self, update_other, Bool-cases, inl, inr,
}
use dogg_os.Mem.Ranges.{
  Range, RangeList, used_virtual_range_index, address_of, follows, free_before, free_from,
  free_virtual_range, alloc_virtual_range, request_size, split_range, move_down,
}
use dogg_os.Mem.Ranges.Moves.{move_down-at, first_from-at, first_from-lem}
use dogg_os.Mem.Ranges.Split.{IsRangeList, IsPlace, IsInserted}
use dogg_os.Mem.Ranges.Allocate.{u-IsPlace, split_range-IsInserted, alloc_virtual_range-splits}

-- The free ranges are in order, with a gap between each and the next.
pub record IsGapped (v : RangeList) : Type 0 where
  pub gap :
      (i j : ℕ)
      → i < j
      → j < v.free_count
      → (v.ranges i).start + (v.ranges i).size < (v.ranges j).start

-- The same ranges, in the same places.
pub record IsSame (v v' : RangeList) : Type 0 where
  pub free_count : v'.free_count ≡ v.free_count
  pub range_count : v'.range_count ≡ v.range_count
  pub ranges : (j : ℕ) → j < v.range_count → v'.ranges j ≡ v.ranges j

used-le : (memory : ℕ) (v : RangeList) → v.free_count ≤ used_virtual_range_index memory v
unfolding used_virtual_range_index
used-le memory v =
    (first_from-lem (v.range_count - v.free_count) v.free_count (memory / 4096) v.ranges).0

-- The loop stops at the first free range behind the used one.
free_from-first :
    (n i index u : ℕ) (v : RangeList)
    → i ≤ index
    → index < i + n
    → ((j : ℕ) → j < index → (v.ranges j).start ≤ (v.ranges u).start)
    → (v.ranges u).start < (v.ranges index).start
    → free_from n i u v ≡ free_before index u v
unfolding free_from
free_from-first zero i index u v le lt before behind = absurd (omega arith)
free_from-first (suc n) i index u v le lt before behind = elim (ℕ_discrete i index) [
  | yes e ↦
      let stop : ltb (v.ranges u).start (v.ranges index).start ≡ true = ground arith in
      rw (e, stop) refl
  | no ne ↦
      let earlier : (v.ranges i).start ≤ (v.ranges u).start = before i (omega arith) in
      let go_on : ltb (v.ranges u).start (v.ranges i).start ≡ false = ground arith in
      rw go_on (free_from-first n (i + 1) index u v (omega arith) (omega arith) before behind)
]

module _ (v : RangeList) (final : Array Range) (index u request : ℕ) (list : IsRangeList v)
    (gapped : IsGapped v) (here : index < v.free_count) (some_pages : 0 < request)
    (larger : request < (v.ranges index).size) (word : (v.ranges index).start < 2 ^ 20)
    (not_null : 0 < (v.ranges index).start) (place : IsPlace v (v.ranges index).start u)
    (x : IsInserted v.ranges final index u request v.range_count) where
  abbrev start : ℕ
  start = (v.ranges index).start

  abbrev v' : RangeList
  v' = record v { range_count = v.range_count + 1; ranges = final }

  -- The used range is found where it was put.
  found : used_virtual_range_index (start * 4096) v' ≡ u
  unfolding used_virtual_range_index
  found =
      let page : start * 4096 / 4096 ≡ start = omega arith in
      rw page (
        first_from-at (v.range_count + 1 - v.free_count) v.free_count start u final (place.least)
          (omega (arith, place.most, list.parts))
          (λ j le lt. rw (x.before j lt (λ e. omega arith)) (place.earlier j le lt))
          (omega (arith, x.place_start)))

  unfollowed : follows index u final ≡ false
  unfollowed = elim (ℕ_discrete index 0) [
    | yes e ↦ rw e refl
    | no ne ↦
        let before = x.before (index - 1) (omega (arith, place.least)) (λ e. omega arith) in
        let gap = gapped.gap (index - 1) index (omega arith) here in
        let apart : ((final u).start == (v.ranges (index - 1)).start + (v.ranges (index - 1)).size)
            ≡ false =
          ground (arith, x.place_start) in
        let some_index : (index == 0) ≡ false = ground arith in rw (before, apart, some_index) refl
  ]

  abbrev joined : Array Range
  joined =
      update final index
        (record { start = (final u).start; size = (final index).size + (final u).size })

  abbrev restored : RangeList
  restored = record v {
    range_count = v.range_count + 1 - 1;
    ranges = move_down (v.range_count + 1 - 1 - u) u joined;
  }

  merged : free_before index u v' ≡ restored
  unfolding free_before
  merged =
      let adjacent : ((final u).start + (final u).size == (final index).start) ≡ true =
        ground (arith, x.place_start, x.place_size, x.index_start) in
      let other : (u + 1 == index) ≡ false = ground (arith, place.least) in
      rw (unfollowed, adjacent, other) refl

  freed : free_virtual_range (start * 4096) v' ≡ restored
  unfolding free_virtual_range
  freed =
      let null : (start * 4096 == 0) ≡ false = ground arith in
      let inside : leb (v.range_count + 1) u ≡ false = ground (arith, place.most) in
      let its : ((final u).start == start * 4096 / 4096) ≡ true = ground (arith, x.place_start) in
      rw (null, found, inside, its)
        (free_from-first v.free_count 0 index u v' (omega arith) (omega arith)
            (λ j lt.
              rw (x.before j (omega (arith, place.least)) (λ e. omega arith))
                (omega (arith, x.place_start, gapped.gap j index lt here)))
            (omega (arith, x.place_start, x.index_start))
          ∙ merged)

  joined-index : joined index ≡ v.ranges index
  joined-index =
      let back : (v.ranges index).size - request + request ≡ (v.ranges index).size = omega arith in
      update_self final index _ ∙ rw (x.place_start, x.index_size, x.place_size, back) refl

  restored-IsSame : IsSame v restored
  restored-IsSame = record {
    free_count = refl;
    range_count = omega arith;
    ranges = λ j lt. move_down-at (v.range_count + 1 - 1 - u) u joined j ∙ restored-at j lt;
  }
    where
      restored-at :
          (j : ℕ)
          → j < v.range_count
          → (if leb u j && ltb j (u + (v.range_count + 1 - 1 - u))
              then joined (j + 1)
              else joined j)
            ≡ v.ranges j
      restored-at j lt = elim (Bool-cases (leb u j)) [
        | inl behind ↦
            let inside : ltb j (u + (v.range_count + 1 - 1 - u)) ≡ true =
              ground (arith, place.most) in
            let le : u ≤ j = ground arith in
            let same : j + 1 - 1 ≡ j = omega arith in
            rw (behind, inside)
              (update_other final index _ (j + 1) (λ e. omega (arith, place.least))
                ∙ x.behind (j + 1) (omega arith) (omega arith)
                ∙ rw same refl)
        | inr before ↦
            let less : j < u = ground arith in
            rw before (elim (ℕ_discrete j index) [
              | yes e ↦ rw e joined-index
              | no ne ↦ update_other final index _ j ne ∙ x.before j less ne
            ])
      ]

-- What has been allocated from the front of a free range can be freed, and every range is in its
-- place again. The free ranges must be in order, with gaps between them.
pub alloc_virtual_range-free_virtual_range :
    (v : RangeList) (size index : ℕ)
    → IsRangeList v
    → IsGapped v
    → index < v.free_count
    → ((j : ℕ) → j < index → (v.ranges j).size < request_size size)
    → request_size size < (v.ranges index).size
    → 0 < size
    → 0 < (v.ranges index).start
    → (v.ranges index).start < 2 ^ 20
    → (memory : ℕ) × (v₁ v₂ : RangeList) × (alloc_virtual_range size v ≡ (memory, v₁))
      × (free_virtual_range memory v₁ ≡ v₂)
      × IsSame v v₂
alloc_virtual_range-free_virtual_range v size index list gapped here small larger pos not_null
      word =
    let request = request_size size in
    let place = u-IsPlace v list index request here word in
    let u = used_virtual_range_index (address_of (v.ranges index).start) v in
    let inserted = split_range-IsInserted v list index request here place in
    let some_pages : 0 < request = ground arith in
    (
      (v.ranges index).start * 4096,
      split_range index request v,
      _,
      alloc_virtual_range-splits v size index here small larger word,
      freed v _ index u request list gapped here some_pages larger word not_null place inserted,
      restored-IsSame v _ index u request list gapped here some_pages larger word not_null place
          inserted,
    )
