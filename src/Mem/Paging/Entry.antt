-- ===== src/Mem/Paging/Entry.antt =====
-- Entries of the page map: the flags and the frame of a word that is put together by `|`, and the
-- two indices of an address.
use dogg_os.Base.{
  ℕ, ◌*◌, ◌/◌, ◌%◌, ◌^◌, ◌<◌, ◌≡◌, ◌∙◌, sym, or-true, or-false, true, false, ◌||◌, ◌==◌, arith,
  bit_or, bit, shr, low, pow2, pow2-pos, bit-le-one, bit-bit_or, bit_and-pow2, bit_and-low,
  bit_and-high, shr-bit_or, bit_or-zero, bit_and-0x3ff,
}
use dogg_os.Mem.Paging.{
  has, page_of, frame_of, pdir_index, ptable_index, entry_flags, flag_used, flag_big_page,
}

-- A flag is set exactly when its bit is.
has-bit : (x k : ℕ) → has x (pow2 k) ≡ (bit x k == 1)
has-bit x k = ground (arith, bit_and-pow2 x k, bit-le-one x k, pow2-pos k)

has-bit_or : (a b k : ℕ) → has (bit_or a b) (pow2 k) ≡ (has a (pow2 k) || has b (pow2 k))
has-bit_or a b k = ground (
  arith,
  has-bit (bit_or a b) k,
  has-bit a k,
  has-bit b k,
  bit-bit_or a b k,
  bit-le-one a k,
  bit-le-one b k,
)

-- Every entry that the code writes is marked as used.
pub used-entry_flags : (f : ℕ) → has (entry_flags f) flag_used ≡ true
used-entry_flags f = has-bit_or f 515 9 ∙ or-true (has f flag_used)

pub big-entry_flags : (f : ℕ) → has (entry_flags f) flag_big_page ≡ has f flag_big_page
big-entry_flags f = has-bit_or f 515 7 ∙ or-false (has f flag_big_page)

pub used-entry : (p f : ℕ) → has (bit_or p (entry_flags f)) flag_used ≡ true
used-entry p f =
    has-bit_or p (entry_flags f) 9 ∙ rw (used-entry_flags f) (or-true (has p flag_used))

pub frame-shr : (x : ℕ) → frame_of x ≡ shr x 12
unfolding shr
frame-shr x = omega arith

-- The frame of an entry is that of its address, and the flags lie below it.
pub frame_of-entry : (p f : ℕ) → f < 4096 → frame_of (bit_or p f) ≡ frame_of p
unfolding shr
frame_of-entry p f h =
    let none_high : shr f 12 ≡ 0 = omega arith in
    frame-shr (bit_or p f)
    ∙ shr-bit_or p f 12
    ∙ rw none_high (bit_or-zero (shr p 12) ∙ sym (frame-shr p))

pub page_of-frame_of : (x : ℕ) → page_of x ≡ frame_of x % 2 ^ 20 * 4096
unfolding low shr
page_of-frame_of x = omega (arith, bit_and-high x 0xfffff 12, bit_and-low (shr x 12) 20)

pub entry_flags-lt : (f : ℕ) → f < 4096 → entry_flags f < 4096
entry_flags-lt f h = omega (arith, frame_of-entry f 515 (omega arith))

-- A directory entry for a new table names a small page, if the page is aligned.
pub big-entry :
    (p f : ℕ)
    → p % 4096 ≡ 0
    → has f flag_big_page ≡ false
    → has (bit_or p (entry_flags f)) flag_big_page ≡ false
unfolding bit
big-entry p f h e =
    let aligned : has p flag_big_page ≡ false = rw (has-bit p 7) (ground arith) in
    has-bit_or p (entry_flags f) 7 ∙ rw (aligned, big-entry_flags f) e

pub pdir_index-eq : (a : ℕ) → pdir_index a ≡ a / 2 ^ 22 % 1024
pdir_index-eq a = bit_and-0x3ff (a / 2 ^ 22)

pub ptable_index-eq : (a : ℕ) → ptable_index a ≡ a / 2 ^ 12 % 1024
ptable_index-eq a = bit_and-0x3ff (a / 2 ^ 12)

-- Two addresses with the same indices lie on the same page.
pub eq_of_indices :
    (a b : ℕ)
    → a < 2 ^ 32
    → b < 2 ^ 32
    → pdir_index a ≡ pdir_index b
    → ptable_index a ≡ ptable_index b
    → a / 4096 ≡ b / 4096
eq_of_indices a b ha hb d t =
    omega (arith, pdir_index-eq a, pdir_index-eq b, ptable_index-eq a, ptable_index-eq b)

pub ptable_index-lt : (a : ℕ) → ptable_index a < 1024
ptable_index-lt a = omega (arith, ptable_index-eq a)
