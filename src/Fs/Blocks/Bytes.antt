-- ===== src/Fs/Blocks/Bytes.antt =====
-- One bit of a byte.
use dogg_os.Base.{
  ℕ, ◌-◌, ◌<◌, ◌≡◌, refl, true, ◌==◌, if◌then◌else◌, bit, pow2, pow2-pos, bit-le-one, bit-bit_or,
  bit-bit_and, bit_and-pow2, bit_and, bit_or, holds_until, holds_until-at, ==_iff, arith,
}

pub clear-bit : (x k : ℕ) → (bit_and x (pow2 k) == 0) ≡ (bit x k == 0)
clear-bit x k = ground (arith, bit_and-pow2 x k, bit-le-one x k, pow2-pos k)

set_table :
    holds_until (λ k. holds_until (λ j. bit (pow2 k) j == (if j == k then 1 else 0)) 8) 8 ≡ true
unfolding holds_until bit
set_table = refl

clear_table :
    holds_until (λ k. holds_until (λ j. bit (255 - pow2 k) j == (if j == k then 0 else 1)) 8) 8
    ≡ true
unfolding holds_until bit
clear_table = refl

bit-pow2 : (k j : ℕ) → k < 8 → j < 8 → bit (pow2 k) j ≡ (if j == k then 1 else 0)
bit-pow2 k j hk hj = (==_iff (bit (pow2 k) j) (if j == k then 1 else 0)).0 (
    holds_until-at (λ j. bit (pow2 k) j == (if j == k then 1 else 0)) 8 hj
      (holds_until-at (λ k. holds_until (λ j. bit (pow2 k) j == (if j == k then 1 else 0)) 8) 8 hk
        set_table))

bit-rest : (k j : ℕ) → k < 8 → j < 8 → bit (255 - pow2 k) j ≡ (if j == k then 0 else 1)
bit-rest k j hk hj = (==_iff (bit (255 - pow2 k) j) (if j == k then 0 else 1)).0 (
    holds_until-at (λ j. bit (255 - pow2 k) j == (if j == k then 0 else 1)) 8 hj
      (holds_until-at (λ k. holds_until (λ j. bit (255 - pow2 k) j == (if j == k then 0 else 1)) 8)
        8 hk clear_table))

-- Setting and clearing a bit.
pub bit-set :
    (x k j : ℕ) → k < 8 → j < 8 → bit (bit_or x (pow2 k)) j ≡ (if j == k then 1 else bit x j)
bit-set x k j hk hj = ground (arith, bit-bit_or x (pow2 k) j, bit-pow2 k j hk hj, bit-le-one x j)

pub bit-cleared :
    (x k j : ℕ) → k < 8 → j < 8 → bit (bit_and x (255 - pow2 k)) j ≡ (if j == k then 0 else bit x j)
bit-cleared x k j hk hj =
    ground (arith, bit-bit_and x (255 - pow2 k) j, bit-rest k j hk hj, bit-le-one x j)
