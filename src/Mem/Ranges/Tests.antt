-- ===== src/Mem/Ranges/Tests.antt =====
-- Runs of kernel/mem/mngr.c on a list of two free ranges and one used range, and the examples of the
-- theorems on it.
use dogg_os.Base.{ℕ, ◌*◌, ◌≤◌, ◌<◌, ◌≡◌, ◌≢◌, ◌/◌, refl, ◌==◌, if◌then◌else◌, arith}
use dogg_os.Mem.Ranges.{
  free_virtual_range, free_from, free_before, RangeList, alloc_virtual_range, alloc_from,
  used_virtual_range_index, first_from, move_up, move_down,
}
use dogg_os.Mem.Ranges.Split.{IsRangeList, IsAllocated}
use dogg_os.Mem.Ranges.Free.{IsGapped, IsSame, alloc_virtual_range-free_virtual_range}
use dogg_os.Mem.Ranges.Allocate.{alloc_virtual_range-IsAllocated}

-- Free: pages 16 and 17, and 32 to 39. Used: pages 24 to 27.
abbrev three : RangeList
three = record {
  free_count = 2;
  range_count = 3;
  ranges = λ i.
      if i == 0
      then record { start = 16; size = 2 }
      else if i == 1
      then record { start = 32; size = 8 }
      else record { start = 24; size = 4 };
}

three-IsRangeList : IsRangeList three
three-IsRangeList = record {
  parts = omega arith;
  order = λ i j least le lt.
      let last : i ≡ 2 = omega arith in
      let same : j ≡ 2 = omega arith in rw (last, same) (omega arith);
}

too_small : (j : ℕ) → j < 1 → (three.ranges j).size < 3
too_small j lt = let first : j ≡ 0 = omega arith in rw first (omega arith)

alloc_virtual_range-IsAllocated_example :
    (v' : RangeList) × (alloc_virtual_range 10000 three ≡ (32 * 4096, v'))
    × IsAllocated 32 3 three v'
alloc_virtual_range-IsAllocated_example =
    alloc_virtual_range-IsAllocated three 10000 1 three-IsRangeList (omega arith) too_small
      (omega arith) (omega arith)

-- A request for the whole first range: the new used range starts at page 2, which is its size, and
-- not at 16, and it stands behind the one that starts at 24.
exact_fit_run :
    ((alloc_virtual_range 8192 three).0 ≡ 16 * 4096)
    × (((alloc_virtual_range 8192 three).1.ranges 0).start ≡ 32)
    × (((alloc_virtual_range 8192 three).1.ranges 1).start ≡ 24)
    × (((alloc_virtual_range 8192 three).1.ranges 2).start ≡ 2)
    × ((alloc_virtual_range 8192 three).1.free_count ≡ 1)
    × ((alloc_virtual_range 8192 three).1.range_count ≡ 3)
unfolding alloc_virtual_range alloc_from used_virtual_range_index first_from move_down
exact_fit_run = (refl, refl, refl, refl, refl, refl)

three-IsGapped : IsGapped three
three-IsGapped = record {
  gap = λ i j lt below.
      let first : i ≡ 0 = omega arith in
      let second : j ≡ 1 = omega arith in rw (first, second) (omega arith);
}

alloc_virtual_range-free_virtual_range_example :
    (memory : ℕ) × (v₁ v₂ : RangeList) × (alloc_virtual_range 10000 three ≡ (memory, v₁))
    × (free_virtual_range memory v₁ ≡ v₂)
    × IsSame three v₂
alloc_virtual_range-free_virtual_range_example =
    alloc_virtual_range-free_virtual_range three 10000 1 three-IsRangeList three-IsGapped
      (omega arith) too_small (omega arith) (omega arith) (omega arith) (omega arith)

other_starts : (i : ℕ) → 2 ≤ i → i < 3 → (three.ranges i).start ≢ 131072 / 4096
other_starts i least lt = let last : i ≡ 2 = omega arith in rw last (λ e. omega arith)

-- The used range ends where no free range starts: it becomes a free range of its own, before the
-- second one.
free_run :
    ((free_virtual_range 98304 three).free_count ≡ 3)
    × (((free_virtual_range 98304 three).ranges 1).start ≡ 24)
    × (((free_virtual_range 98304 three).ranges 2).start ≡ 32)
unfolding free_virtual_range free_from free_before used_virtual_range_index first_from move_up
free_run = (refl, refl, refl)

-- A used range behind every free range is not freed.
abbrev behind : RangeList
behind = record {
  free_count = 1;
  range_count = 2;
  ranges = λ i. if i == 0 then record { start = 16; size = 2 } else record { start = 24; size = 4 };
}

free_behind_run : free_virtual_range 98304 behind ≡ behind
unfolding free_virtual_range free_from used_virtual_range_index first_from
free_behind_run = refl
