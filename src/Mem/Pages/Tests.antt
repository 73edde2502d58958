-- ===== src/Mem/Pages/Tests.antt =====
-- The examples of the theorems on physical pages: a range of four pages with two free ones, and an
-- empty range.
use dogg_os.Base.{ℕ, ◌-◌, ◌≡◌, refl, ◌==◌, if◌then◌else◌, List, [], ◌∷◌, map, arith}
use dogg_os.Mem.Pages.{PhysicalRange, alloc_physical_page, free_physical_pages}
use dogg_os.Mem.Pages.Take.{last_page, alloc_physical_page-counts}
use dogg_os.Mem.Pages.Return.{IsTop, IsRestored, alloc_physical_page-free_physical_pages}

-- Pages 0 and 1 are used, 3 and 2 are free, 2 on top.
abbrev low : PhysicalRange
low = record {
  base = 0x10000;
  free_pages = λ i. if i == 0 then 0x13000 else 0x12000;
  indices = λ i. if i == 2 then 1 else 0;
  flags = λ i. if i == 0 then 3 else if i == 1 then 3 else 0;
  free_count = 2;
  page_count = 4;
}

abbrev empty : PhysicalRange
empty = record {
  base = 0x100000;
  free_pages = λ i. 0;
  indices = λ i. 0;
  flags = λ i. 3;
  free_count = 0;
  page_count = 2;
}

alloc_physical_page-counts_example :
    ((alloc_physical_page 0 (low ∷ low ∷ [])).0 ≡ last_page 0 (low ∷ low ∷ []))
    × (map (λ r. r.free_count) (alloc_physical_page 0 (low ∷ low ∷ [])).1
        ≡ map (λ r. r.free_count - 1) (low ∷ low ∷ []))
alloc_physical_page-counts_example = alloc_physical_page-counts 0 (low ∷ low ∷ [])

low-IsTop : IsTop low 2
low-IsTop = record {
  some_free = omega arith;
  aligned = refl;
  not_null = omega arith;
  inside = omega arith;
  word = omega arith;
  page = refl;
  free = refl;
}

alloc_physical_page-free_physical_pages_example :
    (page : ℕ) × (after : List PhysicalRange) × (r' : PhysicalRange) × (alloc_physical_page 4
        (low ∷ empty ∷ [])
      ≡ (page, after))
    × (free_physical_pages page after ≡ r' ∷ empty ∷ [])
    × IsRestored low r'
alloc_physical_page-free_physical_pages_example =
    alloc_physical_page-free_physical_pages 4 2 low (empty ∷ []) low-IsTop (λ e. omega arith) refl
