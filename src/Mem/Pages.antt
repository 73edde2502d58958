-- ===== src/Mem/Pages.antt =====
-- kernel/mem/mngr.c: the physical pages.
--
-- Each physical range keeps a stack of its free pages, and for each of its pages the flags and, while
-- the page is free, its place on the stack. The spinlock is not modelled: each function runs alone.
pub mod Take
pub mod Return
mod Tests
use dogg_os.Base.{
  ℕ, zero, suc, ◌+◌, ◌-◌, ◌*◌, ◌/◌, ◌%◌, ◌^◌, Bool, ◌&&◌, ◌==◌, ltb, leb, if◌then◌else◌, List, [],
  ◌∷◌, Array, update, bit_and, bit_or,
}

-- struct k_mem_prange_t; the two bit fields of struct k_mem_upage_t are an array each.
pub record PhysicalRange : Type 0 where
  pub base : ℕ
  pub free_pages : Array ℕ
  pub indices : Array ℕ
  pub flags : Array ℕ
  pub free_count : ℕ
  pub page_count : ℕ

-- K_MEM_PAGE_FLAG_USED and K_MEM_PAGE_FLAG_HEAD
abbrev pub page_used : ℕ
page_used = 1

abbrev pub page_head : ℕ
page_head = 2

-- The body of the loop of k_mem_AllocPhysicalPage, for a range that has free pages.
abbrev pub taken_page : PhysicalRange → ℕ
taken_page r = r.free_pages (r.free_count - 1)

-- `(address - base) >> 12`, on 32 bits
abbrev pub page_index : ℕ → PhysicalRange → ℕ
page_index address r = (address + (2 ^ 32 - r.base)) % 2 ^ 32 / 4096

unfoldable pub take_page : ℕ → PhysicalRange → PhysicalRange
take_page flags r =
    let i = page_index (taken_page r) r in
    record r {
      free_count = r.free_count - 1;
      indices = update r.indices i 0;
      flags = update r.flags i (bit_or flags (page_used + page_head) % 256);
    }

-- The loop of k_mem_AllocPhysicalPage over the ranges, with the page found so far.
unfoldable pub alloc_pages : ℕ → ℕ → List PhysicalRange → ℕ × List PhysicalRange
alloc_pages flags page [] = (page, [])
alloc_pages flags page (r ∷ rs) =
    let (p, rest) = alloc_pages flags (if r.free_count == 0 then page else taken_page r) rs in
    (p, (if r.free_count == 0 then r else take_page flags r) ∷ rest)

-- k_mem_AllocPhysicalPage; 0 is K_MEM_NULL_PAGE.
unfoldable pub alloc_physical_page : ℕ → List PhysicalRange → ℕ × List PhysicalRange
alloc_physical_page flags rs = alloc_pages flags 0 rs

-- One round of the do loop of k_mem_FreePhysicalPages.
unfoldable pub return_page : ℕ → ℕ → PhysicalRange → PhysicalRange
return_page page i r = record r {
  free_pages = update r.free_pages r.free_count page;
  indices = update r.indices i (r.free_count % 2 ^ 24);
  flags = update r.flags i 0;
  free_count = r.free_count + 1;
}

-- The do loop: it goes on while the next page is used and not the head of an allocation. The array
-- of flags is read past its end if the last page of the range is one of them; the fuel bounds that.
unfoldable pub return_pages : ℕ → ℕ → ℕ → PhysicalRange → PhysicalRange
return_pages zero page i r = r
return_pages (suc fuel) page i r =
    let r₁ = return_page page i r in
    let rest = return_pages fuel (page + 4096) (i + 1) r₁ in
    if bit_and (r₁.flags (i + 1)) (page_used + page_head) == page_used then rest else r₁

-- Whether `page` is the head of an allocation of this range.
abbrev pub heads : ℕ → PhysicalRange → Bool
heads page r =
    (leb r.base page && ltb (page_index page r) r.page_count)
    && (bit_and (r.flags (page_index page r)) (page_used + page_head) == page_used + page_head)

-- The loop of k_mem_FreePhysicalPages over the ranges.
unfoldable pub free_pages_of : ℕ → List PhysicalRange → List PhysicalRange
free_pages_of page [] = []
free_pages_of page (r ∷ rs) =
    let rest = free_pages_of page rs in
    if heads page r
    then return_pages (r.page_count + 1) page (page_index page r) r ∷ rs
    else r ∷ rest

-- k_mem_FreePhysicalPages
unfoldable pub free_physical_pages : ℕ → List PhysicalRange → List PhysicalRange
free_physical_pages address rs =
    let page = bit_and address 0xfffff000 in if page == 0 then rs else free_pages_of page rs
