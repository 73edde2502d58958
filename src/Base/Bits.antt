-- ===== src/Base/Bits.antt =====
-- Facts about `bit_and` and `bit_or` at variables, from the digit recursion that the native
-- operations stand for: the flag words of the kernel are read through `test_bit`.
use Prim.Native.Nat.{
  ℕ, zero, suc, ◌+◌, ◌*◌, ◌/◌, ◌%◌, ◌^◌, ◌≤◌, ◌<◌, ◌-◌, min, max, bit_and, bit_or, digits,
  bit_and-bitwise, bit_or-bitwise,
}
use mathlib.Core.Path.{◌≡◌, refl, ◌∙◌}
use native.Mathlib.Decide.{ℕ_discrete}
use mathlib.Core.Bool.{Bool, true, ◌&&◌}
use native.Mathlib.Omega.{arith}

-- A test that holds at each of the first `bound` numbers, by evaluation.
unfoldable pub holds_until : (ℕ → Bool) → ℕ → Bool
holds_until test zero = true
holds_until test (suc bound) = holds_until test bound && test bound

pub holds_until-at :
    (test : ℕ → Bool) (bound : ℕ) {i : ℕ}
    → i < bound
    → holds_until test bound ≡ true
    → test i ≡ true
unfolding holds_until
holds_until-at test zero small all = absurd (omega arith)
holds_until-at test (suc bound) {i = i} small all =
    ground (arith, holds_until-at test bound {i = i})

-- A round of fuel that is not needed changes nothing, and so do several.
module _ (left : ℕ → ℕ) (join : ℕ → ℕ → ℕ) where
  spare_round :
      (fuel x y : ℕ) → x ≤ fuel → digits left join (suc fuel) x y ≡ digits left join fuel x y
  spare_round zero zero y le = refl
  spare_round (suc fuel) zero y le = refl
  spare_round zero (suc x) y le = absurd (omega arith)
  spare_round (suc fuel) (suc x) y le =
      let rest = spare_round fuel (suc x / 2) (y / 2) (omega arith) in omega (arith, rest)

  spare_rounds :
      (enough x y fuel : ℕ)
      → x ≤ enough
      → enough ≤ fuel
      → digits left join fuel x y ≡ digits left join enough x y
  spare_rounds enough x y zero le more = let none : enough ≡ 0 = omega arith in rw none refl
  spare_rounds enough x y (suc fuel) le more = elim (ℕ_discrete enough (suc fuel)) [
    | yes same ↦ rw same refl
    | no other ↦ spare_round fuel x y (omega arith) ∙ spare_rounds enough x y fuel le (omega arith)
  ]

-- Both operations by their lowest digit and the rest.
pub bit_and_step : (x y : ℕ) → bit_and x y ≡ bit_and (x / 2) (y / 2) * 2 + min (x % 2) (y % 2)
bit_and_step zero y =
    let now : bit_and 0 y ≡ 0 = bit_and-bitwise 0 y in
    let later : bit_and 0 (y / 2) ≡ 0 = bit_and-bitwise 0 (y / 2) in omega (arith, now, later)
bit_and_step (suc x) y =
    let rest =
      spare_rounds (λ e. 0) min (suc x / 2) (suc x / 2) (y / 2) x (omega arith) (omega arith) in
    omega (arith, rest, bit_and-bitwise (suc x / 2) (y / 2), bit_and-bitwise (suc x) y)

pub bit_or_step : (x y : ℕ) → bit_or x y ≡ bit_or (x / 2) (y / 2) * 2 + max (x % 2) (y % 2)
bit_or_step zero y =
    let now : bit_or 0 y ≡ y = bit_or-bitwise 0 y in
    let later : bit_or 0 (y / 2) ≡ y / 2 = bit_or-bitwise 0 (y / 2) in omega (arith, now, later)
bit_or_step (suc x) y =
    let rest =
      spare_rounds (λ e. e) max (suc x / 2) (suc x / 2) (y / 2) x (omega arith) (omega arith) in
    omega (arith, rest, bit_or-bitwise (suc x / 2) (y / 2), bit_or-bitwise (suc x) y)

-- Bit `k` of a word.
unfoldable pub bit : ℕ → ℕ → ℕ
bit x zero = x % 2
bit x (suc k) = bit (x / 2) k

-- `x >> k`, one place at a time.
unfoldable pub shr : ℕ → ℕ → ℕ
shr x zero = x
shr x (suc k) = shr (x / 2) k

pub bit-le-one : (x k : ℕ) → bit x k ≤ 1
unfolding bit
bit-le-one x zero = omega arith
bit-le-one x (suc k) = bit-le-one (x / 2) k

pub bit-bit_or : (a b k : ℕ) → bit (bit_or a b) k ≡ max (bit a k) (bit b k)
unfolding bit
bit-bit_or a b zero = omega (arith, bit_or_step a b)
bit-bit_or a b (suc k) =
    let half : bit_or a b / 2 ≡ bit_or (a / 2) (b / 2) = omega (arith, bit_or_step a b) in
    rw half (bit-bit_or (a / 2) (b / 2) k)

pub bit-bit_and : (a b k : ℕ) → bit (bit_and a b) k ≡ min (bit a k) (bit b k)
unfolding bit
bit-bit_and a b zero = omega (arith, bit_and_step a b)
bit-bit_and a b (suc k) =
    let half : bit_and a b / 2 ≡ bit_and (a / 2) (b / 2) = omega (arith, bit_and_step a b) in
    rw half (bit-bit_and (a / 2) (b / 2) k)

pub shr-bit_or : (a b k : ℕ) → shr (bit_or a b) k ≡ bit_or (shr a k) (shr b k)
unfolding shr
shr-bit_or a b zero = refl
shr-bit_or a b (suc k) =
    let half : bit_or a b / 2 ≡ bit_or (a / 2) (b / 2) = omega (arith, bit_or_step a b) in
    rw half (shr-bit_or (a / 2) (b / 2) k)

pub bit_or-zero : (a : ℕ) → bit_or a 0 ≡ a
bit_or-zero a = go a a (omega arith)
  where
    go : (n a : ℕ) → a ≤ n → bit_or a 0 ≡ a
    go n zero h = refl
    go zero (suc a) h = absurd (omega arith)
    go (suc n) (suc a) h = omega (arith, bit_or_step (suc a) 0, go n (suc a / 2) (omega arith))

bit_and-zero : (a : ℕ) → bit_and a 0 ≡ 0
bit_and-zero a = go a a (omega arith)
  where
    go : (n a : ℕ) → a ≤ n → bit_and a 0 ≡ 0
    go n zero h = refl
    go zero (suc a) h = absurd (omega arith)
    go (suc n) (suc a) h = omega (arith, bit_and_step (suc a) 0, go n (suc a / 2) (omega arith))

-- Powers of two by doubling, so that masks of any width can be recursed on.
abbrev pub pow2 : ℕ → ℕ
pow2 zero = 1
pow2 (suc k) = pow2 k * 2

pub pow2-pos : (k : ℕ) → 0 < pow2 k
pow2-pos zero = omega arith
pow2-pos (suc k) = omega (arith, pow2-pos k)

-- `x & (1 << k)` is the bit, in its place.
pub bit_and-pow2 : (x k : ℕ) → bit_and x (pow2 k) ≡ bit x k * pow2 k
unfolding bit
bit_and-pow2 x zero = omega (arith, bit_and_step x 1, bit_and-zero (x / 2))
bit_and-pow2 x (suc k) =
    let half : pow2 k * 2 / 2 ≡ pow2 k = omega arith in
    let step : bit_and x (pow2 k * 2) ≡ bit_and (x / 2) (pow2 k) * 2 =
      rw (bit_and_step x (pow2 k * 2), half) (omega arith) in
    omega (arith, step, bit_and-pow2 (x / 2) k)

-- The lowest `k` bits.
unfoldable pub low : ℕ → ℕ → ℕ
low x zero = 0
low x (suc k) = low (x / 2) k * 2 + x % 2

-- `x & ((1 << k) - 1)` keeps the lowest `k` bits.
pub bit_and-low : (x k : ℕ) → bit_and x (pow2 k - 1) ≡ low x k
unfolding low
bit_and-low x zero = bit_and-zero x
bit_and-low x (suc k) =
    let half : (pow2 k * 2 - 1) / 2 ≡ pow2 k - 1 = omega (arith, pow2-pos k) in
    let step : bit_and x (pow2 k * 2 - 1) ≡ bit_and (x / 2) (pow2 k - 1) * 2 + x % 2 =
      rw (bit_and_step x (pow2 k * 2 - 1), half) (omega (arith, pow2-pos k)) in
    omega (arith, step, bit_and-low (x / 2) k)

-- A mask whose lowest `k` bits are clear masks what is above them.
pub bit_and-high : (x m k : ℕ) → bit_and x (m * pow2 k) ≡ bit_and (shr x k) m * pow2 k
unfolding shr
bit_and-high x m zero = let one : m * 1 ≡ m = omega arith in rw one (omega arith)
bit_and-high x m (suc k) =
    let half : m * (pow2 k * 2) / 2 ≡ m * pow2 k = omega arith in
    let step : bit_and x (m * (pow2 k * 2)) ≡ bit_and (x / 2) (m * pow2 k) * 2 =
      rw (bit_and_step x (m * (pow2 k * 2)), half) (omega arith) in
    omega (arith, step, bit_and-high (x / 2) m k)

-- `x & 0x3ff`, `x & 0xfffff000` and bit 9 at a 32-bit word.
pub bit_and-0x3ff : (x : ℕ) → bit_and x 0x3ff ≡ x % 1024
unfolding low
bit_and-0x3ff x = omega (arith, bit_and-low x 10)

pub bit_and_page_mask : (x : ℕ) → x < 2 ^ 32 → bit_and x 0xfffff000 ≡ x / 4096 * 4096
unfolding low shr
bit_and_page_mask x h = omega (arith, bit_and-high x 0xfffff 12, bit_and-low (shr x 12) 20)
