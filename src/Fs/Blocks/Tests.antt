-- ===== src/Fs/Blocks/Tests.antt =====
-- Runs of the block bitmap, and the examples of the theorems on it.
use dogg_os.Base.{ℕ, ◌<◌, ◌≡◌, refl, true, false, [], ◌∷◌, some, ◌==◌, if◌then◌else◌, Array, arith}
use dogg_os.Fs.Blocks.{Volume, is_free, mark, first_free, alloc_in, alloc_block, free_block}
use dogg_os.Fs.Blocks.Alloc.{IsMarked, alloc_block-IsMarked}
use dogg_os.Fs.Blocks.Free.{freed, free_block-freed}

-- Twelve blocks from block 4 on, of which the first is taken.
abbrev one_taken : Array ℕ
one_taken i = if i == 0 then 1 else 0

abbrev two_taken : Array ℕ
two_taken i = if i == 0 then 3 else 0

abbrev volume : Volume
volume = record { block_bitmask = one_taken; alloc_start = 4; block_count = 16 }

-- Another processor takes block 1 first, so that block 2 is found.
raced :
    alloc_block (two_taken ∷ []) volume
    ≡ (some 6, record volume { block_bitmask = mark two_taken 2 })
unfolding alloc_block alloc_in first_free
raced = refl

alloc_block-IsMarked_example : IsMarked 12 4 6 two_taken (mark two_taken 2)
alloc_block-IsMarked_example =
    alloc_block-IsMarked (two_taken ∷ []) volume
      (record volume { block_bitmask = mark two_taken 2 }) 6 raced

first_taken : (j : ℕ) → j < 1 → is_free one_taken j ≡ false
first_taken j lt = let first : j ≡ 0 = omega arith in rw first refl

-- Block 1 of the volume is given, and block 0 is freed.
free_block-freed_example :
    is_free (free_block 5 volume).block_bitmask 0
    ≡ (if 0 == freed 1 then true else is_free one_taken 0)
free_block-freed_example = free_block-freed volume 1 0
