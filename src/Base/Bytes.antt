-- ===== src/Base/Bytes.antt =====
-- Copies of bytes between arrays.
use Prim.Native.Nat.{ℕ, ◌+◌, ◌-◌, ◌≤◌, ◌<◌}
use mathlib.Core.Path.{◌≡◌, refl}
use mathlib.Core.Bool.{true, false, ◌&&◌}
use native.Mathlib.Omega.{arith}
use dogg_os.Base.Tests.{if◌then◌else◌, ltb, leb}
use dogg_os.Base.Memory.{Array}

-- k_rt_CopyBytes: `size` bytes of `source` from `start` on go to `target` from `at` on.
unfoldable pub copy_bytes : Array ℕ → ℕ → Array ℕ → ℕ → ℕ → Array ℕ
copy_bytes target at source start size j =
    if leb at j && ltb j (at + size) then source (start + (j - at)) else target j

pub copy_bytes-inside :
    (target : Array ℕ) (at : ℕ) (source : Array ℕ) (start size i : ℕ)
    → i < size
    → copy_bytes target at source start size (at + i) ≡ source (start + i)
unfolding copy_bytes
copy_bytes-inside target at source start size i lt =
    let low : leb at (at + i) ≡ true = ground arith in
    let high : ltb (at + i) (at + size) ≡ true = ground arith in
    let back : at + i - at ≡ i = omega arith in rw (low, high, back) refl

pub copy_bytes-start :
    (target source : Array ℕ) (start size i : ℕ)
    → i < size
    → copy_bytes target 0 source start size i ≡ source (start + i)
unfolding copy_bytes
copy_bytes-start target source start size i lt =
    let low : leb 0 i ≡ true = ground arith in
    let high : ltb i (0 + size) ≡ true = ground arith in
    let back : i - 0 ≡ i = omega arith in rw (low, high, back) refl

pub copy_bytes-before :
    (target : Array ℕ) (at : ℕ) (source : Array ℕ) (start size j : ℕ)
    → j < at
    → copy_bytes target at source start size j ≡ target j
unfolding copy_bytes
copy_bytes-before target at source start size j lt =
    let low : leb at j ≡ false = ground arith in rw low refl

pub copy_bytes-behind :
    (target : Array ℕ) (at : ℕ) (source : Array ℕ) (start size j : ℕ)
    → at + size ≤ j
    → copy_bytes target at source start size j ≡ target j
unfolding copy_bytes
copy_bytes-behind target at source start size j le =
    let low : leb at j ≡ true = ground arith in
    let high : ltb j (at + size) ≡ false = ground arith in rw (low, high) refl
