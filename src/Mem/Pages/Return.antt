-- ===== src/Mem/Pages/Return.antt =====
-- k_mem_FreePhysicalPages takes back a page that k_mem_AllocPhysicalPage has handed out.
use native.Mathlib.Decide.{ℕ_discrete}
use dogg_os.Base.{
  ℕ, suc, ◌+◌, ◌-◌, ◌*◌, ◌/◌, ◌%◌, ◌^◌, ◌≤◌, ◌<◌, ◌≡◌, ◌≢◌, refl, sym, ◌∙◌, true, false, ◌==◌, List,
  ◌∷◌, arith, update_self, update_other, ltb, leb, bit_and, bit_or, bit_or_step, bit_and-low, low,
  bit_and_page_mask,
}
use dogg_os.Mem.Pages.{
  PhysicalRange, page_used, page_head, page_index, heads, taken_page, take_page, alloc_pages,
  alloc_physical_page, return_page, return_pages, free_pages_of, free_physical_pages,
}
use dogg_os.Mem.Pages.Take.{exhausted, alloc_pages-exhausted}

-- What holds of a range and of the page on top of its stack: the page is number `k` of the range,
-- and it is marked as free.
pub record IsTop (r : PhysicalRange) (k : ℕ) : Type 0 where
  pub some_free : 0 < r.free_count
  pub aligned : r.base % 4096 ≡ 0
  pub not_null : 0 < r.base
  pub inside : k < r.page_count
  pub word : r.base + r.page_count * 4096 ≤ 2 ^ 32
  pub page : r.free_pages (r.free_count - 1) ≡ r.base + k * 4096
  pub free : r.flags k ≡ 0

-- What the flags say of the page behind number `k`: it is no part of an allocation that a page in front of
-- it heads. For the last page of the range these are the flags that memory holds behind the array.
abbrev pub EndsAt : PhysicalRange → ℕ → Type 0
EndsAt r k = bit_and (r.flags (k + 1)) (page_used + page_head) ≢ page_used

-- The range holds the same pages as before, in the same order on its stack.
pub record IsRestored (r r' : PhysicalRange) : Type 0 where
  pub free_count : r'.free_count ≡ r.free_count
  pub stack : (j : ℕ) → j < r.free_count → r'.free_pages j ≡ r.free_pages j
  pub flags : (j : ℕ) → r'.flags j ≡ r.flags j

both_flags : (f : ℕ) → bit_and (bit_or f 3 % 256) 3 ≡ 3
unfolding low
both_flags f =
    omega (arith, bit_and-low (bit_or f 3 % 256) 2, bit_or_step f 3, bit_or_step (f / 2) 1)

module _ (flags k : ℕ) (r : PhysicalRange) (top : IsTop r k) (behind : EndsAt r k) where
  abbrev page : ℕ
  page = taken_page r

  abbrev taken : PhysicalRange
  taken = take_page flags r

  index : page_index page r ≡ k
  index = omega (arith, top.page, top.word, top.inside)

  index-taken : page_index page taken ≡ k
  unfolding take_page
  index-taken = index

  taken-heads : heads page taken ≡ true
  unfolding take_page
  taken-heads =
      let low : leb r.base page ≡ true = ground (arith, top.page) in
      let high : ltb k r.page_count ≡ true = ground (arith, top.inside) in
      rw (index, low, high, update_self r.flags k (bit_or flags 3 % 256), both_flags flags) refl

  abbrev returned : PhysicalRange
  returned = return_page page k taken

  returned-flags : (j : ℕ) → returned.flags j ≡ r.flags j
  unfolding return_page take_page
  returned-flags j = elim (ℕ_discrete j k) [
    | yes e ↦ rw e (update_self taken.flags k 0 ∙ sym top.free)
    | no ne ↦ update_other taken.flags k 0 j ne ∙ rw index (update_other r.flags k _ j ne)
  ]

  returned-IsRestored : IsRestored r returned
  unfolding return_page take_page
  returned-IsRestored = record {
    free_count = omega (arith, top.some_free);
    stack = λ j lt. elim (ℕ_discrete j (r.free_count - 1)) [
      | yes e ↦ rw e (update_self r.free_pages (r.free_count - 1) page)
      | no ne ↦ update_other r.free_pages (r.free_count - 1) page j ne
    ];
    flags = returned-flags;
  }

  return_pages-once : (fuel : ℕ) → return_pages (suc fuel) page k taken ≡ returned
  unfolding return_pages
  return_pages-once fuel =
      let stop : (bit_and (returned.flags (k + 1)) (page_used + page_head) == page_used) ≡ false =
        rw (returned-flags (k + 1)) (ground (arith, behind)) in
      rw stop refl

  masked : bit_and page 0xfffff000 ≡ page
  masked =
      let small : page < 2 ^ 32 = omega (arith, top.page, top.word, top.inside) in
      omega (arith, bit_and_page_mask page small, top.page, top.aligned)

  free-taken : (rs : List PhysicalRange) → free_physical_pages page (taken ∷ rs) ≡ returned ∷ rs
  unfolding free_physical_pages free_pages_of
  free-taken rs =
      let not_null : (page == 0) ≡ false = ground (arith, top.page, top.not_null) in
      let count : taken.page_count + 1 ≡ suc taken.page_count = omega arith in
      rw (masked, not_null, taken-heads, count, index-taken, return_pages-once taken.page_count)
        refl

  alloc-top :
      (rs : List PhysicalRange)
      → exhausted rs ≡ true
      → alloc_physical_page flags (r ∷ rs) ≡ (page, taken ∷ rs)
  unfolding alloc_physical_page alloc_pages
  alloc-top rs none =
      let some : (r.free_count == 0) ≡ false = ground (arith, top.some_free) in
      rw (some, alloc_pages-exhausted flags page rs none) refl

-- Where only the first range has free pages, a page that is allocated and freed again lies on top of
-- the stack it came from, and every flag is as before. The flags behind those of the page must not be
-- those of a used page that heads no allocation: for the last page of the range they are what memory
-- holds behind the array, which the loop reads too.
pub alloc_physical_page-free_physical_pages :
    (flags k : ℕ) (r : PhysicalRange) (rs : List PhysicalRange)
    → IsTop r k
    → EndsAt r k
    → exhausted rs ≡ true
    → (page : ℕ) × (after : List PhysicalRange) × (r' : PhysicalRange) × (alloc_physical_page flags
          (r ∷ rs)
        ≡ (page, after))
      × (free_physical_pages page after ≡ r' ∷ rs)
      × IsRestored r r'
alloc_physical_page-free_physical_pages flags k r rs top behind none = (
  taken_page r,
  take_page flags r ∷ rs,
  return_page (taken_page r) k (take_page flags r),
  alloc-top flags k r top behind rs none,
  free-taken flags k r top behind rs,
  returned-IsRestored flags k r top behind,
)
