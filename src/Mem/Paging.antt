-- ===== src/Mem/Paging.antt =====
-- kernel/mem/pmap.c: the two-level page map, edited through its own recursive mapping.
--
-- Memory is seen as page frames of 1024 entries. The window `K_MEM_PMAP_PENTRY_PAGE_POINTER(t)` is
-- the linear page 0xffc00000 + (t << 12): the processor finds its frame by walking entry 0x3ff of
-- the page directory, and entry `t` of the table that stands there. Every access of the code goes
-- through such a window (`window_frame`), so that a write to the wrong table is visible here.
-- `flushed` logs the addresses given to k_cpu_InvalidateTLB, the last one first.
-- What k_mem_AllocPhysicalPage(0) returns, if it is called, is the argument `page`.
pub mod Entry
pub mod Layout
pub mod Clear
pub mod Extend
pub mod Ensure
pub mod Edit
pub mod Map
pub mod Unmap
pub mod Refusal
mod Tests
use dogg_os.Base.{
  ℕ, zero, suc, ◌+◌, ◌/◌, ◌^◌, Bool, true, false, ◌||◌, not, List, ◌∷◌, ◌==◌, leb, if◌then◌else◌,
  bit_and, bit_or, Array, update₂,
}

-- The codes of enum K_STATUS_CODES that this file returns.
pub data Status : Type 0 where
  ok forbidden in_use not_in_use out_of_physical_mem : Status

-- enum K_MEM_PENTRY_FLAGS
abbrev pub flag_present : ℕ
flag_present = 1

abbrev pub flag_read_write : ℕ
flag_read_write = 2

abbrev pub flag_big_page : ℕ
flag_big_page = 128

abbrev pub flag_used : ℕ
flag_used = 512

-- `entry & FLAG` as a truth value
abbrev pub has : ℕ → ℕ → Bool
has entry flag = not (bit_and entry flag == 0)

-- entry & K_MEM_4KB_ADDRESS_MASK
abbrev pub page_of : ℕ → ℕ
page_of entry = bit_and entry 0xfffff000

-- The frame that an entry names: its address bits, shifted down.
abbrev pub frame_of : ℕ → ℕ
frame_of entry = entry / 4096

-- K_MEM_PDIR_INDEX and K_MEM_PTABLE_INDEX
abbrev pub pdir_index : ℕ → ℕ
pdir_index address = bit_and (address / 2 ^ 22) 0x3ff

abbrev pub ptable_index : ℕ → ℕ
ptable_index address = bit_and (address / 2 ^ 12) 0x3ff

pub record PageMap : Type 0 where
  pub frames : Array (Array ℕ)
  pub cr3 : ℕ
  pub flushed : List ℕ

-- The walk that the processor makes for the window page of table index `t`.
abbrev pub table_frame : PageMap → ℕ
table_frame m = frame_of (m.frames m.cr3 0x3ff)

abbrev pub window_frame : PageMap → ℕ → ℕ
window_frame m t = frame_of (m.frames (table_frame m) t)

unfoldable pub read : PageMap → ℕ → ℕ → ℕ
read m t i = m.frames (window_frame m t) i

unfoldable pub write : PageMap → ℕ → ℕ → ℕ → PageMap
write m t i v = record m { frames = update₂ m.frames (window_frame m t) i v }

abbrev pub invalidate : ℕ → PageMap → PageMap
invalidate address m = record m { flushed = address ∷ m.flushed }

-- !linear_address || linear_address >= K_MEM_PMAP_PENTRY_PAGE_POINTER(0)
abbrev pub out_of_reach : ℕ → Bool
out_of_reach address = (address == 0) || leb 0xffc00000 address

-- The loop that clears the 1024 entries of a new table, from entry `i` on.
unfoldable pub clear_table : ℕ → ℕ → ℕ → PageMap → PageMap
clear_table zero t i m = m
clear_table (suc n) t i m = clear_table n t (i + 1) (write m t i 0)

-- The first half of k_mem_MapLinearAddress: a small mapping in an unused directory entry gets a new
-- page table. `flags` has been extended already.
unfoldable pub ensure_table : ℕ → ℕ → ℕ → PageMap → Status × PageMap
ensure_table d page flags m =
    if has (read m 0x3ff d) flag_used || has flags flag_big_page
    then (ok, m)
    else (let m₁ = write m 0x3ff d (bit_or page flags) in
        if read m₁ 0x3ff d == 0
        then (out_of_physical_mem, m₁)
        else (ok, clear_table 1024 d 0 (write m₁ 0x3fe d (read m₁ 0x3ff d))))

-- The second half: the entry is written, unless it is taken.
unfoldable pub install : ℕ → ℕ → ℕ → PageMap → Status × PageMap
install address physical flags m =
    let d = pdir_index address in
    let t = ptable_index address in
    if has (read m 0x3ff d) flag_big_page
    then (in_use, m)
    else if has flags flag_big_page
    then (ok, invalidate address (write m 0x3ff d (bit_or physical flags)))
    else if has (read m d t) flag_used
    then (in_use, m)
    else (ok, invalidate address (write m d t (bit_or physical flags)))

-- `flags |= USED | READ_WRITE | PRESENT`
abbrev pub entry_flags : ℕ → ℕ
entry_flags flags = bit_or flags (flag_used + flag_read_write + flag_present)

-- An early return with another status ends the function.
abbrev pub and_then : Status × PageMap → (PageMap → Status × PageMap) → Status × PageMap
and_then (s, m) next = elim s [ ok ↦ next m | other ↦ (other, m) ]

-- k_mem_MapLinearAddress
unfoldable pub map_linear_address : ℕ → ℕ → ℕ → ℕ → PageMap → Status × PageMap
map_linear_address page address physical flags m =
    if out_of_reach address
    then (forbidden, m)
    else and_then (ensure_table (pdir_index address) page (entry_flags flags) m)
        (install address physical (entry_flags flags))

-- k_mem_UnmapLinearAddress
unfoldable pub unmap_linear_address : ℕ → PageMap → Status × PageMap
unmap_linear_address address m =
    let d = pdir_index address in
    let t = ptable_index address in
    if out_of_reach address
    then (forbidden, m)
    else if not (has (read m 0x3ff d) flag_used)
    then (not_in_use, m)
    else if has (read m 0x3ff d) flag_big_page
    then (ok, invalidate address (write m 0x3ff d 0))
    else if not (has (read m d t) flag_used)
    then (not_in_use, m)
    else (ok, invalidate address (write m d t 0))

-- k_mem_LinearAddressPhysicalPage; 0 is K_MEM_NULL_PAGE.
unfoldable pub physical_page : PageMap → ℕ → ℕ
physical_page m address =
    let d = pdir_index address in
    if out_of_reach address
    then 0
    else if has (read m 0x3ff d) flag_used
    then (let entry =
          if has (read m 0x3ff d) flag_big_page
          then read m 0x3ff d
          else read m d (ptable_index address) in
        if has entry flag_used then page_of entry else 0)
    else 0

-- k_mem_IsLinearAddressMapped
unfoldable pub is_mapped : PageMap → ℕ → Status
is_mapped m address =
    let d = pdir_index address in
    if out_of_reach address
    then forbidden
    else if has (read m 0x3ff d) flag_used
    then (if has (read m 0x3ff d) flag_big_page
        then in_use
        else if has (read m d (ptable_index address)) flag_used
        then in_use
        else not_in_use)
    else not_in_use
