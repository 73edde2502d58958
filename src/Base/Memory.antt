-- ===== src/Base/Memory.antt =====
-- Arrays in memory as functions of the index: reads are total, since the memory behind the counted
-- entries is there too.
use Prim.Native.Nat.{ℕ}
use mathlib.Core.Path.{◌≡◌}
use mathlib.Core.Logic.{◌≢◌}
use mathlib.Core.Bool.{true, false}
use native.Mathlib.Omega.{arith}
use dogg_os.Base.Tests.{◌==◌, if◌then◌else◌}

abbrev pub Array {ℓ} : Type ℓ → Type ℓ
Array A = ℕ → A

-- `a[i] = v`
abbrev pub update {ℓ} : {A : Type ℓ} → Array A → ℕ → A → Array A
update a i v j = if j == i then v else a j

pub update_self {ℓ} : {A : Type ℓ} (a : Array A) (i : ℕ) (v : A) → update a i v i ≡ v
update_self a i v = let same : (i == i) ≡ true = ground arith in rw same

pub update_other {ℓ} :
    {A : Type ℓ} (a : Array A) (i : ℕ) (v : A) (j : ℕ) → j ≢ i → update a i v j ≡ a j
update_other a i v j ne = let other : (j == i) ≡ false = ground arith in rw other

-- `m[p][i] = v`
abbrev pub update₂ {ℓ} : {A : Type ℓ} → Array (Array A) → ℕ → ℕ → A → Array (Array A)
update₂ m p i v q j = if q == p then update (m p) i v j else m q j
