-- ===== src/Mem/Ranges/Split.antt =====
-- Splitting a free range: which pages are free and which are used before and after.
use native.Mathlib.Decide.{ℕ_discrete}
use dogg_os.Base.{
  ℕ, ◌+◌, ◌-◌, ◌≤◌, ◌<◌, ◌≡◌, ◌≢◌, Bool-cases, ltb→lt, leb→le, ◌↔◌, ◌⊎◌, inl, inr, ltb, leb, Array,
  arith,
}
use dogg_os.Mem.Ranges.{Range, RangeList}

-- The pages of a range.
abbrev pub Within : ℕ → ℕ → ℕ → Type 0
Within start size page = (start ≤ page) × (page < start + size)

abbrev pub FreeAt : RangeList → ℕ → Type 0
FreeAt v page = (i : ℕ) × (i < v.free_count) × Within (v.ranges i).start (v.ranges i).size page

abbrev pub UsedAt : RangeList → ℕ → Type 0
UsedAt v page =
    (i : ℕ) × (v.free_count ≤ i)
    × (i < v.range_count)
    × Within (v.ranges i).start (v.ranges i).size page

-- The list is in two parts, and the used ranges are in order.
pub record IsRangeList (v : RangeList) : Type 0 where
  pub parts : v.free_count ≤ v.range_count
  pub order :
      (i j : ℕ)
      → v.free_count ≤ i
      → i ≤ j
      → j < v.range_count
      → (v.ranges i).start ≤ (v.ranges j).start

-- `page` and the `request - 1` pages behind it have been moved from the free to the used ranges.
pub record IsAllocated (start request : ℕ) (v v' : RangeList) : Type 0 where
  pub list : IsRangeList v'
  pub free : (page : ℕ) → FreeAt v page ↔ (FreeAt v' page ⊎ Within start request page)
  pub used : (page : ℕ) → UsedAt v' page ↔ (UsedAt v page ⊎ Within start request page)

-- What the writes amount to: `final` holds the ranges with `index` shortened and a new range at `u`.
pub record IsInserted (ranges final : Array Range) (index u request count : ℕ) : Type 0 where
  pub before : (j : ℕ) → j < u → j ≢ index → final j ≡ ranges j
  pub behind : (j : ℕ) → u < j → j ≤ count → final j ≡ ranges (j - 1)
  pub index_start : (final index).start ≡ (ranges index).start + request
  pub index_size : (final index).size ≡ (ranges index).size - request
  pub place_start : (final u).start ≡ (ranges index).start
  pub place_size : (final u).size ≡ request

-- Where the used ranges before `u` start earlier than the new one, and those from `u` on do not.
pub record IsPlace (v : RangeList) (start u : ℕ) : Type 0 where
  pub least : v.free_count ≤ u
  pub most : u ≤ v.range_count
  pub earlier : (j : ℕ) → v.free_count ≤ j → j < u → (v.ranges j).start < start
  pub later : u < v.range_count → start ≤ (v.ranges u).start

module _ (v : RangeList) (final : Array Range) (index u request : ℕ) (list : IsRangeList v)
    (here : index < v.free_count) (larger : request < (v.ranges index).size)
    (place : IsPlace v (v.ranges index).start u)
    (x : IsInserted v.ranges final index u request v.range_count) where
  abbrev start : ℕ
  start = (v.ranges index).start

  abbrev v' : RangeList
  v' = record v { range_count = v.range_count + 1; ranges = final }

  from-place : (j : ℕ) → u ≤ j → j < v.range_count → start ≤ (v.ranges j).start
  from-place j le lt = omega (arith, place.later, list.order u j (place.least) le lt)

  final-low : (i : ℕ) → v.free_count ≤ i → i ≤ u → (final i).start ≤ start
  final-low i le most = elim (ℕ_discrete i u) [
    | yes e ↦ rw e (omega (arith, x.place_start))
    | no ne ↦
        rw (x.before i (omega arith) (λ e. omega arith))
          (omega (arith, place.earlier i le (omega arith)))
  ]

  final-high : (i : ℕ) → u ≤ i → i < v.range_count + 1 → start ≤ (final i).start
  final-high i le lt = elim (ℕ_discrete i u) [
    | yes e ↦ rw e (omega (arith, x.place_start))
    | no ne ↦
        rw (x.behind i (omega arith) (omega arith)) (from-place (i - 1) (omega arith) (omega arith))
  ]

  inserted-order :
      (i j : ℕ)
      → v.free_count ≤ i
      → i ≤ j
      → j < v.range_count + 1
      → (final i).start ≤ (final j).start
  inserted-order i j least le lt = elim (Bool-cases (ltb j u)) [
    | inl j_low ↦
        let j_lt = ltb→lt j u j_low in
        rw (x.before i (omega arith) (λ e. omega arith), x.before j j_lt (λ e. omega arith))
          (list.order i j least le (omega (arith, place.most)))
    | inr j_high ↦
        let j_ge : u ≤ j = ground arith in
        elim (Bool-cases (leb i u)) [
          | inl i_low ↦ omega (arith, final-low i least (leb→le i u i_low), final-high j j_ge lt)
          | inr i_high ↦
              let i_gt : u < i = ground arith in
              rw (x.behind i i_gt (omega arith), x.behind j (omega arith) (omega arith))
                (list.order (i - 1) (j - 1) (omega (arith, place.least)) (omega arith)
                  (omega arith))
        ]
  ]

  inserted-IsRangeList : IsRangeList v'
  inserted-IsRangeList = record { parts = omega (arith, list.parts); order = inserted-order }

  -- The free ranges but for the split one are as before.
  free-inserted : (page : ℕ) → FreeAt v page → FreeAt v' page ⊎ Within start request page
  free-inserted page (i, lt, within) = elim (ℕ_discrete i index) [
    | yes e ↦ split-free (rw e at within)
    | no ne ↦ inl (i, lt, rw (x.before i (omega (arith, place.least)) ne) within)
  ]
    where
      split-free :
          Within start (v.ranges index).size page → FreeAt v' page ⊎ Within start request page
      split-free (a, b) = elim (Bool-cases (ltb page (start + request))) [
        | inl new ↦ inr (a, ltb→lt page (start + request) new)
        | inr old ↦
            let behind : start + request ≤ page = ground arith in
            inl (
              index,
              here,
              (omega (arith, x.index_start), omega (arith, x.index_start, x.index_size)),
            )
      ]

  inserted-free : (page : ℕ) → FreeAt v' page ⊎ Within start request page → FreeAt v page
  inserted-free page (inr (a, b)) = (index, here, (a, omega arith))
  inserted-free page (inl (i, lt, within)) = elim (ℕ_discrete i index) [
    | yes e ↦
        let (a, b) : Within (final index).start (final index).size page = rw e at within in
        (index, here, (omega (arith, x.index_start), omega (arith, x.index_start, x.index_size)))
    | no ne ↦ (i, lt, rw (x.before i (omega (arith, place.least)) ne) at within)
  ]

  used-inserted : (page : ℕ) → UsedAt v page ⊎ Within start request page → UsedAt v' page
  used-inserted page (inr (a, b)) = (
    u,
    place.least,
    omega (arith, place.most),
    (omega (arith, x.place_start), omega (arith, x.place_start, x.place_size)),
  )
  used-inserted page (inl (i, least, lt, within)) = elim (Bool-cases (ltb i u)) [
    | inl low ↦ (i, least, omega arith, rw (x.before i (ltb→lt i u low) (λ e. omega arith)) within)
    | inr high ↦
        let ge : u ≤ i = ground arith in
        let same : i + 1 - 1 ≡ i = omega arith in
        (
          i + 1,
          omega arith,
          omega arith,
          rw (x.behind (i + 1) (omega arith) (omega arith), same) within,
        )
  ]

  inserted-used : (page : ℕ) → UsedAt v' page → UsedAt v page ⊎ Within start request page
  inserted-used page (i, least, lt, within) = elim (Bool-cases (ltb i u)) [
    | inl low ↦ inl (
      i,
      least,
      omega (arith, place.most, ltb→lt i u low),
      rw (x.before i (ltb→lt i u low) (λ e. omega arith)) at within,
    )
    | inr high ↦ elim (ℕ_discrete i u) [
      | yes e ↦
          let (a, b) : Within (final u).start (final u).size page = rw e at within in
          inr (omega (arith, x.place_start), omega (arith, x.place_start, x.place_size))
      | no ne ↦
          let gt : u < i = ground arith in
          inl (
            i - 1,
            omega (arith, place.least),
            omega arith,
            rw (x.behind i gt (omega arith)) at within,
          )
    ]
  ]

  pub inserted-IsAllocated : IsAllocated start request v v'
  inserted-IsAllocated = record {
    list = inserted-IsRangeList;
    free = λ page. (free-inserted page, inserted-free page);
    used = λ page. (inserted-used page, used-inserted page);
  }
