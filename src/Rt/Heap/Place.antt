-- ===== src/Rt/Heap/Place.antt =====
-- Where the chunks of a bucket stand: at multiples of their size, behind the header of the page.
use native.Mathlib.Nat.{mul_assoc}
use dogg_os.Base.{
  ℕ, zero, suc, ◌+◌, ◌-◌, ◌*◌, ◌/◌, ◌%◌, ◌≤◌, ◌<◌, ◌≡◌, refl, sym, ap, ◌∙◌, true, ◌==◌, Array, pow2,
  holds_until, holds_until-at, arith,
}
use dogg_os.Rt.Heap.{bucket_of}

pub record IsMultiple (b z : ℕ) : Type 0 where
  pub quotient : ℕ
  pub product : z ≡ quotient * b

pub record IsHome (main : Array ℕ) (j z : ℕ) : Type 0 where
  pub bucket : bucket_of main z ≡ j
  pub aligned : IsMultiple (8 * pow2 j) z
  pub behind_header : 8 ≤ z % 4096

-- A page is a multiple of each size.
page-IsMultiple : (k page : ℕ) → k < 9 → page / 4096 * 4096 ≡ page → IsMultiple (8 * pow2 k) page
unfolding holds_until
page-IsMultiple k page lt aligned =
    let all : (pow2 (9 - k) * (8 * pow2 k) == 4096) ≡ true =
      holds_until-at (λ i. pow2 (9 - i) * (8 * pow2 i) == 4096) 9 {i = k} lt refl in
    let one : pow2 (9 - k) * (8 * pow2 k) ≡ 4096 = ground arith in
    record {
      quotient = page / 4096 * pow2 (9 - k);
      product =
          sym aligned
          ∙ ap (λ n. page / 4096 * n) (sym one)
          ∙ sym (mul_assoc (page / 4096) (pow2 (9 - k)) (8 * pow2 k));
    }

-- One more, and one less.
pub IsMultiple-plus : (b z : ℕ) → IsMultiple b z → IsMultiple b (z + b)
IsMultiple-plus b z m =
    let e = m.product in
    let next : suc m.quotient * b ≡ b + m.quotient * b = ground arith in
    record { quotient = suc m.quotient; product = omega arith }

pub IsMultiple-minus : (b z w : ℕ) → 0 < b → z + b ≡ w → IsMultiple b w → IsMultiple b z
IsMultiple-minus b z w pos sum m = by_quotient m.quotient m.product
  where
    by_quotient : (q : ℕ) → w ≡ q * b → IsMultiple b z
    by_quotient zero e = let none : zero * b ≡ 0 = omega arith in absurd (omega arith)
    by_quotient (suc q) e =
        let next : suc q * b ≡ b + q * b = ground arith in
        record { quotient = q; product = omega arith }

pub end-IsMultiple :
    (k page : ℕ) → k < 9 → page / 4096 * 4096 ≡ page → IsMultiple (8 * pow2 k) (page + 4096)
end-IsMultiple k page lt aligned = page-IsMultiple k (page + 4096) lt (omega arith)

pub front-IsMultiple :
    (k page : ℕ) → k < 9 → page / 4096 * 4096 ≡ page → IsMultiple (8 * pow2 k) (page + 8 * pow2 k)
front-IsMultiple k page lt aligned =
    IsMultiple-plus (8 * pow2 k) page (page-IsMultiple k page lt aligned)
