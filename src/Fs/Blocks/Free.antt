-- ===== src/Fs/Blocks/Free.antt =====
-- k_fs_PupFreeBlock frees a block of the same byte of the bitmap, and not always the one it is given.
use native.Mathlib.Decide.{ℕ_discrete}
use dogg_os.Base.{
  ℕ, ◌+◌, ◌-◌, ◌*◌, ◌/◌, ◌%◌, ◌≡◌, refl, ◌∙◌, true, false, ◌==◌, if◌then◌else◌, Array, update,
  update_self, update_other, bit, bit_and, arith,
}
use dogg_os.Fs.Blocks.{Volume, bit_of, is_free, free_block}
use dogg_os.Fs.Blocks.Bytes.{clear-bit, bit-cleared}

-- The block whose bit the code clears, for block number `index`.
abbrev pub freed : ℕ → ℕ
freed index = index / 8 * 8 + index / 8 % 8

-- Freeing block `index` of a volume frees block `freed index`, and no other.
pub free_block-freed :
    (v : Volume) (index j : ℕ)
    → is_free (free_block (v.alloc_start + index) v).block_bitmask j
      ≡ (if j == freed index then true else is_free v.block_bitmask j)
unfolding free_block
free_block-freed v index j =
    let at_index : v.alloc_start + index - v.alloc_start ≡ index = omega arith in
    rw at_index (go (index / 8) refl)
  where
    m : Array ℕ
    m = v.block_bitmask

    go :
        (byte : ℕ)
        → index / 8 ≡ byte
        → is_free (update m byte (bit_and (m byte) (255 - bit_of byte))) j
          ≡ (if j == freed index then true else is_free m j)
    go byte e = elim (ℕ_discrete (j / 8) byte) [
      | no ne ↦
          let other : (j == freed index) ≡ false = ground arith in
          rw (other, update_other m byte (bit_and (m byte) (255 - bit_of byte)) (j / 8) ne) refl
      | yes same ↦
          let old : is_free m j ≡ (bit (m byte) (j % 8) == 0) =
            rw same (clear-bit (m byte) (j % 8)) in
          let new : is_free (update m byte (bit_and (m byte) (255 - bit_of byte))) j
              ≡ (bit (bit_and (m byte) (255 - bit_of byte)) (j % 8) == 0) =
            rw (same, update_self m byte (bit_and (m byte) (255 - bit_of byte)))
              (clear-bit (bit_and (m byte) (255 - bit_of byte)) (j % 8)) in
          let cleared = bit-cleared (m byte) (byte % 8) (j % 8) (omega arith) (omega arith) in
          elim (ℕ_discrete j (freed index)) [
            | yes its ↦
                let low : (j % 8 == byte % 8) ≡ true = ground arith in
                let this : (j == freed index) ≡ true = ground arith in
                new ∙ rw (cleared, low, this) refl
            | no ne ↦
                let low : (j % 8 == byte % 8) ≡ false = ground arith in
                let this : (j == freed index) ≡ false = ground arith in
                new ∙ rw (cleared, low, this, old) refl
          ]
    ]
