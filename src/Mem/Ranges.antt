-- ===== src/Mem/Ranges.antt =====
-- kernel/mem/mngr.c: the list of virtual ranges.
--
-- One array holds the free ranges, from 0 to free_count - 1, and behind them the used ones, up to
-- range_count - 1, in the order of their starts. Starts and sizes count pages. The spinlock is not
-- modelled: each function runs alone.
pub mod Moves
pub mod Writes
pub mod Split
pub mod Allocate
pub mod Free
mod Tests
use dogg_os.Base.{
  ℕ, zero, suc, ◌+◌, ◌-◌, ◌*◌, ◌/◌, ◌%◌, ◌^◌, Bool, not, ◌&&◌, ◌||◌, ◌==◌, ltb, leb, if◌then◌else◌,
  Array, update,
}

-- struct k_mem_vrange_t
pub record Range : Type 0 where
  pub start : ℕ
  pub size : ℕ

-- struct k_mem_vrlist_t
pub record RangeList : Type 0 where
  pub free_count : ℕ
  pub range_count : ℕ
  pub ranges : Array Range

-- The loop of k_mem_UsedVirtualRangeIndex: the first used range that starts at `page` or behind.
unfoldable pub first_from : ℕ → ℕ → ℕ → Array Range → ℕ
first_from zero index page ranges = index
first_from (suc n) index page ranges =
    let rest = first_from n (index + 1) page ranges in
    if leb page (ranges index).start then index else rest

-- k_mem_UsedVirtualRangeIndex
unfoldable pub used_virtual_range_index : ℕ → RangeList → ℕ
used_virtual_range_index memory v =
    first_from (v.range_count - v.free_count) v.free_count (memory / 4096) v.ranges

-- `for(i = last; i > last - n; i--) ranges[i] = ranges[i - 1]`
unfoldable pub move_up : ℕ → ℕ → Array Range → Array Range
move_up zero last ranges = ranges
move_up (suc n) last ranges = move_up n (last - 1) (update ranges last (ranges (last - 1)))

-- `for(i = first; i < first + n; i++) ranges[i] = ranges[i + 1]`
unfoldable pub move_down : ℕ → ℕ → Array Range → Array Range
move_down zero first ranges = ranges
move_down (suc n) first ranges = move_down n (first + 1) (update ranges first (ranges (first + 1)))

-- The address of a free range, as the code hands it out.
abbrev pub address_of : ℕ → ℕ
address_of page = page * 4096 % 2 ^ 32

-- The free range `index` is larger than the request: its first pages become a used range.
abbrev pub split_range : ℕ → ℕ → RangeList → RangeList
split_range index request v =
    let u = used_virtual_range_index (address_of (v.ranges index).start) v in
    let moved = move_up (v.range_count - u) v.range_count v.ranges in
    let written = update moved u (record { start = (moved index).start; size = request }) in
    record v {
      range_count = v.range_count + 1;
      ranges = update written index (record {
        start = (written index).start + request;
        size = (written index).size - request;
      });
    }

-- The free range `index` has the size of the request: it becomes a used range. The start that is
-- written is the size, as the code has it.
abbrev pub take_range : ℕ → RangeList → RangeList
take_range index v =
    let u = used_virtual_range_index (address_of (v.ranges index).start) v in
    let size = (v.ranges index).size in
    record v {
      free_count = v.free_count - 1;
      ranges =
          update (move_down (u - index) index v.ranges) u (record { start = size; size = size });
    }

-- The loop over the free ranges, from `index` on; 0 is NULL.
unfoldable pub alloc_from : ℕ → ℕ → ℕ → RangeList → ℕ × RangeList
alloc_from zero index request v = (0, v)
alloc_from (suc n) index request v =
    let rest = alloc_from n (index + 1) request v in
    let memory = address_of (v.ranges index).start in
    if leb request (v.ranges index).size
    then if ltb request (v.ranges index).size
      then (memory, split_range index request v)
      else (memory, take_range index v)
    else rest

-- The number of pages that a size in bytes needs.
abbrev pub request_size : ℕ → ℕ
request_size size = size / 4096 + (if size % 4096 == 0 then 0 else 1)

-- k_mem_AllocVirtualRange
unfoldable pub alloc_virtual_range : ℕ → RangeList → ℕ × RangeList
alloc_virtual_range size v = alloc_from v.free_count 0 (request_size size) v

-- `for(i = first; i < first + n; i++) ranges[i] = ranges[i + 2]`
unfoldable pub move_down_two : ℕ → ℕ → Array Range → Array Range
move_down_two zero first ranges = ranges
move_down_two (suc n) first ranges =
    move_down_two n (first + 1) (update ranges first (ranges (first + 2)))

-- Whether the used range `u` follows the free range before `free`.
abbrev pub follows : ℕ → ℕ → Array Range → Bool
follows free u ranges =
    let prev = ranges (free - 1) in not (free == 0) && ((ranges u).start == prev.start + prev.size)

-- The used range, at `p`, is merged into the free range that it ends at. If it has been merged with
-- the free range before already, that one goes away too.
abbrev pub merge_end : ℕ → ℕ → ℕ → RangeList → RangeList
merge_end free u p v =
    let merged =
      update v.ranges free
        (record { start = (v.ranges p).start; size = (v.ranges free).size + (v.ranges p).size }) in
    if p + 1 == free
    then record v {
      free_count = v.free_count - 1;
      range_count = v.range_count - 2;
      ranges =
          move_down_two (v.range_count - 2 - (u - 1)) (u - 1)
            (move_down (u - 1 - (free - 1)) (free - 1) merged);
    }
    else record v {
      range_count = v.range_count - 1;
      ranges = move_down (v.range_count - 1 - u) u merged;
    }

-- The used range does not end at a free range. Unless it has been merged with the free range
-- before, it becomes a free range itself.
abbrev pub keep_end : ℕ → ℕ → ℕ → RangeList → RangeList
keep_end free u p v =
    if p + 1 == free
    then record v {
      range_count = v.range_count - 1;
      ranges = move_down (v.range_count - 1 - u) u v.ranges;
    }
    else record v {
      free_count = v.free_count + 1;
      ranges =
          update (move_up (u - free) u v.ranges) free
            (record { start = (v.ranges p).start; size = (v.ranges p).size });
    }

-- The used range `u` is freed before the free range `free`; `p` is where `used_range` points once
-- it may have been merged with the free range before.
unfoldable pub free_before : ℕ → ℕ → RangeList → RangeList
free_before free u v =
    let p = if follows free u v.ranges then free - 1 else u in
    let v₁ =
      if follows free u v.ranges
      then record v {
        ranges = update v.ranges (free - 1) (record {
          start = (v.ranges (free - 1)).start;
          size = (v.ranges (free - 1)).size + (v.ranges u).size;
        });
      }
      else v in
    if (v₁.ranges p).start + (v₁.ranges p).size == (v₁.ranges free).start
    then merge_end free u p v₁
    else keep_end free u p v₁

-- The loop over the free ranges, from `index` on.
unfoldable pub free_from : ℕ → ℕ → ℕ → RangeList → RangeList
free_from zero index u v = v
free_from (suc n) index u v =
    let rest = free_from n (index + 1) u v in
    if ltb (v.ranges u).start (v.ranges index).start then free_before index u v else rest

-- k_mem_FreeVirtualRange
unfoldable pub free_virtual_range : ℕ → RangeList → RangeList
free_virtual_range memory v =
    let u = used_virtual_range_index memory v in
    if memory == 0
    then v
    else if leb v.range_count u || not ((v.ranges u).start == memory / 4096)
    then v
    else free_from v.free_count 0 u v
