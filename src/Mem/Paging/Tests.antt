-- ===== src/Mem/Paging/Tests.antt =====
-- A small page map in frames 1 (directory), 2 (its table) and 3 (the table of directory entry 1, which
-- maps 0x400000), the examples of the theorems on it, and runs of kernel/mem/pmap.c.
use dogg_os.Base.{
  ℕ, ◌<◌, ◌≡◌, ◌≢◌, refl, sym, ◌∙◌, true, ◌==◌, if◌then◌else◌, [], Array, subst, arith,
}
use native.Mathlib.Decide.{ℕ_discrete}
use dogg_os.Mem.Paging.{
  PageMap, ok, in_use, not_in_use, out_of_physical_mem, has, flag_used, read, map_linear_address,
  unmap_linear_address, physical_page, is_mapped,
}
use dogg_os.Mem.Paging.Layout.{HasTable, IsPageMap, Mappable, view}
use dogg_os.Mem.Paging.Extend.{IsFresh}
use dogg_os.Mem.Paging.Map.{IsRetranslated, map_linear_address-IsRetranslated}
use dogg_os.Mem.Paging.Unmap.{
  unmap_linear_address-IsRetranslated, map_linear_address-unmap_linear_address,
}
use dogg_os.Mem.Paging.Refusal.{map_linear_address-never_out}

abbrev directory : Array ℕ
directory i = if i == 0x3ff then 0x2203 else if i == 1 then 0x3203 else 0

abbrev directory_table : Array ℕ
directory_table i =
    if i == 0x3ff then 0x1203 else if i == 0x3fe then 0x2203 else if i == 1 then 0x3203 else 0

abbrev first_table : Array ℕ
first_table i = if i == 0 then 0x9203 else 0

abbrev small_map : PageMap
small_map = record {
  frames = λ q.
      if q == 1
      then directory
      else if q == 2
      then directory_table
      else if q == 3
      then first_table
      else λ i. 0;
  cr3 = 1;
  flushed = [];
}

only_table : (d : ℕ) → HasTable small_map.frames 1 d → d ≡ 1
only_table d h = elim (ℕ_discrete d 1) [ yes e ↦ e | no ne ↦ absurd (unused ne (h.below) (h.used)) ]
  where
    empty : d ≢ 1 → d < 0x3fe → directory d ≡ 0
    empty ne below = ground arith

    unused : d ≢ 1 → d < 0x3fe → has (directory d) flag_used ≢ true
    unused ne below used =
        let u : has 0 flag_used ≡ true =
          subst (λ v. has v flag_used ≡ true) (empty ne below) used in
        cc

small_map-IsPageMap : IsPageMap small_map
small_map-IsPageMap = record {
  recursive = record { self_dir = refl; self_table = refl; apart = λ e. omega arith };
  window = λ d h. rw (only_table d h) refl;
  not_dir = λ d h. rw (only_table d h) (λ e. omega arith);
  not_table = λ d h. rw (only_table d h) (λ e. omega arith);
  distinct = λ d e h k ne. absurd (ne (only_table d h ∙ sym (only_table e k)));
}

page-IsFresh : IsFresh 0x4000 small_map
page-IsFresh = record {
  aligned = refl;
  not_dir = λ e. omega arith;
  not_table = λ e. omega arith;
  unused = λ d h. rw (only_table d h) (λ e. omega arith);
}

first_HasTable : HasTable small_map.frames 1 1
first_HasTable = record { below = omega arith; used = refl; small = refl }

free_address : is_mapped small_map 0x801000 ≡ not_in_use
unfolding is_mapped read
free_address = refl

taken_address : is_mapped small_map 0x400000 ≡ in_use
unfolding is_mapped read
taken_address = refl

map_linear_address-IsRetranslated_example :
    (m' : PageMap) × (map_linear_address 0x4000 0x801000 0x7000 0 small_map ≡ (ok, m'))
    × IsRetranslated 0x801000 (0x7000, in_use) small_map m'
map_linear_address-IsRetranslated_example =
    map_linear_address-IsRetranslated 0x801000 small_map small_map-IsPageMap
      (omega arith, omega arith) 0x4000 0x7000 0 page-IsFresh (omega arith) refl free_address

unmap_linear_address-IsRetranslated_example :
    (m' : PageMap) × (unmap_linear_address 0x400000 small_map ≡ (ok, m'))
    × IsRetranslated 0x400000 (0, not_in_use) small_map m'
unmap_linear_address-IsRetranslated_example =
    unmap_linear_address-IsRetranslated 0x400000 small_map small_map-IsPageMap
      (omega arith, omega arith) first_HasTable taken_address

map_linear_address-unmap_linear_address_example :
    (m₁ m₂ : PageMap) × (map_linear_address 0x4000 0x801000 0x7000 0 small_map ≡ (ok, m₁))
    × (unmap_linear_address 0x801000 m₁ ≡ (ok, m₂))
    × ((b : ℕ) → Mappable b → view m₂ b ≡ view small_map b)
map_linear_address-unmap_linear_address_example =
    map_linear_address-unmap_linear_address 0x4000 0x801000 0x7000 0 small_map small_map-IsPageMap
      (omega arith, omega arith) page-IsFresh (omega arith) refl free_address

map_linear_address-never_out_example :
    (map_linear_address 0 0x801000 0x7000 0 small_map).0 ≢ out_of_physical_mem
map_linear_address-never_out_example =
    map_linear_address-never_out 0x801000 small_map small_map-IsPageMap (omega arith, omega arith) 0
      0x7000 0

-- A free entry of an existing table, and the address that is mapped.
page_of_address : physical_page small_map 0x400123 ≡ 0x9000
unfolding physical_page read
page_of_address = refl
