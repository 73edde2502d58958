-- ===== src/Fs/Blocks.antt =====
-- kernel/fs/pup.c: the bitmap of the blocks of a volume.
--
-- The bitmap is changed by compare-and-exchange. An exchange fails where another processor has changed
-- the byte since it was read; the states of the bitmap that failed exchanges find are a list, so that
-- the calls of k_fs_PupAllocBlock with that much interference are those of the model.
pub mod Bytes
pub mod Alloc
pub mod Free
mod Tests
use dogg_os.Base.{
  ℕ, zero, suc, ◌+◌, ◌-◌, ◌/◌, ◌%◌, Bool, List, [], ◌∷◌, Option, none, some, ◌==◌, if◌then◌else◌,
  Array, update, bit_and, bit_or, pow2,
}

-- What the two functions use of struct k_fs_pup_vol_t and its root. A volume has alloc_start ≤ block_count,
-- with block_count below 2^32, and its blocks are numbered from alloc_start on.
pub record Volume : Type 0 where
  pub block_bitmask : Array ℕ
  pub alloc_start : ℕ
  pub block_count : ℕ

-- `1 << (index & 7)`
abbrev pub bit_of : ℕ → ℕ
bit_of index = pow2 (index % 8)

-- `!(bitmask & bit)` for block `index`
abbrev pub is_free : Array ℕ → ℕ → Bool
is_free bitmask index = bit_and (bitmask (index / 8)) (bit_of index) == 0

-- `bitmask | bit`, in the place of its byte
abbrev pub mark : Array ℕ → ℕ → Array ℕ
mark bitmask index = update bitmask (index / 8) (bit_or (bitmask (index / 8)) (bit_of index))

-- The loop of k_fs_PupAllocBlock up to the first clear bit, from `index` on.
unfoldable pub first_free : ℕ → ℕ → Array ℕ → Option ℕ
first_free zero index bitmask = none
first_free (suc n) index bitmask =
    let rest = first_free n (index + 1) bitmask in
    if is_free bitmask index then some index else rest

-- The exchange for the bit that was found: it succeeds, or the loop starts over.
abbrev pub exchange : Option ℕ → ℕ → Array ℕ → Option ℕ × Array ℕ
exchange none start bitmask = (none, bitmask)
exchange (some index) start bitmask = (some (start + index), mark bitmask index)

abbrev pub restart : Option ℕ → Array ℕ → Option ℕ × Array ℕ → Option ℕ × Array ℕ
restart none bitmask again = (none, bitmask)
restart (some index) bitmask again = again

unfoldable pub alloc_in : List (Array ℕ) → ℕ → ℕ → Array ℕ → Option ℕ × Array ℕ
alloc_in [] count start bitmask = exchange (first_free count 0 bitmask) start bitmask
alloc_in (found ∷ later) count start bitmask =
    let again = alloc_in later count start found in
    restart (first_free count 0 bitmask) bitmask again

-- k_fs_PupAllocBlock; none is K_FS_PUP_NULL_LINK.
unfoldable pub alloc_block : List (Array ℕ) → Volume → Option ℕ × Volume
alloc_block interference v =
    let (block, bitmask) =
      alloc_in interference (v.block_count - v.alloc_start) v.alloc_start v.block_bitmask in
    (block, record v { block_bitmask = bitmask })

-- k_fs_PupFreeBlock, where its exchange succeeds and alloc_start ≤ block. The bit is computed from the index of the byte, as
-- the code has it.
unfoldable pub free_block : ℕ → Volume → Volume
free_block block v =
    let byte = (block - v.alloc_start) / 8 in
    record v {
      block_bitmask =
          update v.block_bitmask byte (bit_and (v.block_bitmask byte) (255 - bit_of byte));
    }
