-- ===== src/Mem/Ranges/Allocate.antt =====
-- What k_mem_AllocVirtualRange hands out.
use native.Mathlib.Decide.{ℕ_discrete}
use dogg_os.Base.{
  ℕ, zero, suc, ◌+◌, ◌-◌, ◌*◌, ◌/◌, ◌^◌, ◌≤◌, ◌<◌, ◌≡◌, refl, ap, ◌∙◌, true, false, ltb, leb, arith,
  Array,
}
use dogg_os.Mem.Ranges.{
  Range, RangeList, used_virtual_range_index, address_of, split_range, move_up, alloc_from,
  alloc_virtual_range, request_size,
}
use dogg_os.Mem.Ranges.Moves.{move_up-at, first_from-lem}
use dogg_os.Mem.Ranges.Split.{IsRangeList, IsAllocated, IsPlace, IsInserted, inserted-IsAllocated}
use dogg_os.Mem.Ranges.Writes.{
  final-before, final-behind, final-index-start, final-index-size, final-place-start,
  final-place-size,
}

module _ (v : RangeList) (list : IsRangeList v) (index request : ℕ)
    (here : index < v.free_count) where
  abbrev start : ℕ
  start = (v.ranges index).start

  abbrev u : ℕ
  u = used_virtual_range_index (address_of start) v

  pub u-IsPlace : start < 2 ^ 20 → IsPlace v start u
  unfolding used_virtual_range_index
  u-IsPlace word =
      let same : address_of start / 4096 ≡ start = omega arith in
      let (least, most, earlier, later) =
        first_from-lem (v.range_count - v.free_count) v.free_count (address_of start / 4096)
          v.ranges in
      record {
        least = least;
        most = omega (arith, most, list.parts);
        earlier = λ j le lt. omega (arith, earlier j le lt);
        later = λ lt. omega (arith, later (omega (arith, list.parts)));
      }

  abbrev moved : Array Range
  moved = move_up (v.range_count - u) v.range_count v.ranges

  module _ (place : IsPlace v start u) where
    moved-below : (j : ℕ) → j ≤ u → moved j ≡ v.ranges j
    moved-below j le =
        let low : ltb (v.range_count - (v.range_count - u)) j ≡ false =
          ground (arith, place.most) in
        move_up-at (v.range_count - u) v.range_count v.ranges j (omega arith) ∙ rw low refl

    moved-above : (j : ℕ) → u < j → j ≤ v.range_count → moved j ≡ v.ranges (j - 1)
    moved-above j lt le =
        let low : ltb (v.range_count - (v.range_count - u)) j ≡ true = ground (arith, place.most) in
        let high : leb j v.range_count ≡ true = ground arith in
        move_up-at (v.range_count - u) v.range_count v.ranges j (omega arith) ∙ rw (low, high) refl

    apart : index < u
    apart = omega (arith, place.least)

    pub split_range-IsInserted :
        IsInserted v.ranges (split_range index request v).ranges index u request v.range_count
    split_range-IsInserted = record {
      before =
          final-before v.ranges moved index u request v.range_count apart moved-below moved-above;
      behind =
          final-behind v.ranges moved index u request v.range_count apart moved-below moved-above;
      index_start =
          final-index-start v.ranges moved index u request v.range_count apart moved-below
            moved-above;
      index_size =
          final-index-size v.ranges moved index u request v.range_count apart moved-below
            moved-above;
      place_start =
          final-place-start v.ranges moved index u request v.range_count apart moved-below
            moved-above;
      place_size =
          final-place-size v.ranges moved index u request v.range_count apart moved-below
            moved-above;
    }

  split_range-IsAllocated :
      start < 2 ^ 20
      → request < (v.ranges index).size
      → IsAllocated start request v (split_range index request v)
  split_range-IsAllocated word larger =
      inserted-IsAllocated v (split_range index request v).ranges index u request list here larger
        (u-IsPlace word) (split_range-IsInserted (u-IsPlace word))

-- The loop stops at the first free range that is large enough.
alloc_from-first :
    (n i index request : ℕ) (v : RangeList)
    → i ≤ index
    → index < i + n
    → ((j : ℕ) → j < index → (v.ranges j).size < request)
    → request < (v.ranges index).size
    → alloc_from n i request v ≡ (address_of (v.ranges index).start, split_range index request v)
unfolding alloc_from
alloc_from-first zero i index request v le lt small larger = absurd (omega arith)
alloc_from-first (suc n) i index request v le lt small larger = elim (ℕ_discrete i index) [
  | yes e ↦
      let fits : leb request (v.ranges index).size ≡ true = ground arith in
      let more : ltb request (v.ranges index).size ≡ true = ground arith in rw (e, fits, more) refl
  | no ne ↦
      let less : (v.ranges i).size < request = small i (omega arith) in
      let skip : leb request (v.ranges i).size ≡ false = ground arith in
      rw skip (alloc_from-first n (i + 1) index request v (omega arith) (omega arith) small larger)
]

alloc_from-none :
    (n i request : ℕ) (v : RangeList)
    → ((j : ℕ) → j < i + n → (v.ranges j).size < request)
    → alloc_from n i request v ≡ (0, v)
unfolding alloc_from
alloc_from-none zero i request v small = refl
alloc_from-none (suc n) i request v small =
    let less : (v.ranges i).size < request = small i (omega arith) in
    let skip : leb request (v.ranges i).size ≡ false = ground arith in
    rw skip (alloc_from-none n (i + 1) request v (λ j lt. small j (omega arith)))

pub alloc_virtual_range-splits :
    (v : RangeList) (size index : ℕ)
    → index < v.free_count
    → ((j : ℕ) → j < index → (v.ranges j).size < request_size size)
    → request_size size < (v.ranges index).size
    → (v.ranges index).start < 2 ^ 20
    → alloc_virtual_range size v
      ≡ ((v.ranges index).start * 4096, split_range index (request_size size) v)
unfolding alloc_virtual_range
alloc_virtual_range-splits v size index here small larger word =
    let address : address_of (v.ranges index).start ≡ (v.ranges index).start * 4096 = omega arith in
    alloc_from-first v.free_count 0 index (request_size size) v (omega arith) (omega arith) small
      larger
    ∙ ap (λ a. (a, split_range index (request_size size) v)) address

-- Where the first free range that is not too small is larger than the request, its first pages are
-- handed out: they were free and are used now, no other page changes sides, and the used ranges stay
-- in order.
pub alloc_virtual_range-IsAllocated :
    (v : RangeList) (size index : ℕ)
    → IsRangeList v
    → index < v.free_count
    → ((j : ℕ) → j < index → (v.ranges j).size < request_size size)
    → request_size size < (v.ranges index).size
    → (v.ranges index).start < 2 ^ 20
    → (v' : RangeList) × (alloc_virtual_range size v ≡ ((v.ranges index).start * 4096, v'))
      × IsAllocated (v.ranges index).start (request_size size) v v'
alloc_virtual_range-IsAllocated v size index list here small larger word = (
  split_range index (request_size size) v,
  alloc_virtual_range-splits v size index here small larger word,
  split_range-IsAllocated v list index (request_size size) here word larger,
)
