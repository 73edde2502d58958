-- ===== src/Mem/Pages/Take.antt =====
-- k_mem_AllocPhysicalPage takes a page from every range.
use dogg_os.Base.{
  ℕ, ◌-◌, ◌≡◌, refl, ap, true, ◌==◌, ◌&&◌, Bool, if◌then◌else◌, List, [], ◌∷◌, map, arith,
  Bool-cases, inl, inr,
}
use dogg_os.Mem.Pages.{PhysicalRange, taken_page, take_page, alloc_pages, alloc_physical_page}

-- The page of the last range that has one.
abbrev pub last_page : ℕ → List PhysicalRange → ℕ
last_page page [] = page
last_page page (r ∷ rs) = last_page (if r.free_count == 0 then page else taken_page r) rs

take_page-count :
    (flags : ℕ) (r : PhysicalRange) → (take_page flags r).free_count ≡ r.free_count - 1
unfolding take_page
take_page-count flags r = refl

alloc_pages-lem :
    (flags page : ℕ) (rs : List PhysicalRange)
    → ((alloc_pages flags page rs).0 ≡ last_page page rs)
      × (map (λ r. r.free_count) (alloc_pages flags page rs).1 ≡ map (λ r. r.free_count - 1) rs)
unfolding alloc_pages
alloc_pages-lem flags page [] = (refl, refl)
alloc_pages-lem flags page (r ∷ rs) = elim (Bool-cases (r.free_count == 0)) [
  | inl empty ↦
      let (p, counts) = alloc_pages-lem flags page rs in
      let none : r.free_count ≡ r.free_count - 1 = ground arith in
      rw empty (p, rw counts (ap (λ c. c ∷ map (λ q. q.free_count - 1) rs) none))
  | inr some ↦
      let (p, counts) = alloc_pages-lem flags (taken_page r) rs in
      rw some (p, rw (take_page-count flags r, counts) refl)
]

-- The page that is returned is that of the last range that has one, and each range with free pages
-- loses one.
pub alloc_physical_page-counts :
    (flags : ℕ) (rs : List PhysicalRange)
    → ((alloc_physical_page flags rs).0 ≡ last_page 0 rs)
      × (map (λ r. r.free_count) (alloc_physical_page flags rs).1 ≡ map (λ r. r.free_count - 1) rs)
unfolding alloc_physical_page
alloc_physical_page-counts flags rs = alloc_pages-lem flags 0 rs

-- No range of the list has a free page.
abbrev pub exhausted : List PhysicalRange → Bool
exhausted [] = true
exhausted (r ∷ rs) = (r.free_count == 0) && exhausted rs

pub alloc_pages-exhausted :
    (flags page : ℕ) (rs : List PhysicalRange)
    → exhausted rs ≡ true
    → alloc_pages flags page rs ≡ (page, rs)
unfolding alloc_pages
alloc_pages-exhausted flags page [] h = refl
alloc_pages-exhausted flags page (r ∷ rs) h =
    let empty : (r.free_count == 0) ≡ true = ground arith in
    let later : exhausted rs ≡ true = ground arith in
    rw (empty, alloc_pages-exhausted flags page rs later) refl
