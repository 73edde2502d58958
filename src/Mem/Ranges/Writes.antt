-- ===== src/Mem/Ranges/Writes.antt =====
-- The two writes of split_range, once the ranges behind have been moved up.
use dogg_os.Base.{
  ℕ, ◌+◌, ◌-◌, ◌≤◌, ◌<◌, ◌≡◌, ◌≢◌, refl, ◌∙◌, Array, update, update_self, update_other, arith,
}
use dogg_os.Mem.Ranges.{Range}

-- The two writes, after the ranges from `u` on have been moved up.
module _ (ranges moved : Array Range) (index u request count : ℕ) (apart : index < u)
    (below : (j : ℕ) → j ≤ u → moved j ≡ ranges j)
    (above : (j : ℕ) → u < j → j ≤ count → moved j ≡ ranges (j - 1)) where
  abbrev first : Range
  first = record { start = (moved index).start; size = request }

  abbrev written : Array Range
  written = update moved u first

  abbrev rest : Range
  rest = record { start = (written index).start + request; size = (written index).size - request }

  abbrev final : Array Range
  final = update written index rest

  written-index : written index ≡ ranges index
  written-index = update_other moved u first index (λ e. omega arith) ∙ below index (omega arith)

  pub final-before : (j : ℕ) → j < u → j ≢ index → final j ≡ ranges j
  final-before j lt ne =
      update_other written index rest j ne
      ∙ update_other moved u first j (λ e. omega arith)
      ∙ below j (omega arith)

  pub final-behind : (j : ℕ) → u < j → j ≤ count → final j ≡ ranges (j - 1)
  final-behind j lt le =
      update_other written index rest j (λ e. omega arith)
      ∙ update_other moved u first j (λ e. omega arith)
      ∙ above j lt le

  pub final-index-start : (final index).start ≡ (ranges index).start + request
  final-index-start = rw (update_self written index rest, written-index) refl

  pub final-index-size : (final index).size ≡ (ranges index).size - request
  final-index-size = rw (update_self written index rest, written-index) refl

  final-place : final u ≡ first
  final-place = update_other written index rest u (λ e. omega arith) ∙ update_self moved u first

  pub final-place-start : (final u).start ≡ (ranges index).start
  final-place-start = rw (final-place, below index (omega arith)) refl

  pub final-place-size : (final u).size ≡ request
  final-place-size = rw final-place refl
