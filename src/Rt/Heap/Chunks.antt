-- ===== src/Rt/Heap/Chunks.antt =====
-- What a heap holds: a list of free chunks for each bucket, each of which goes back to that bucket.
use native.Mathlib.Decide.{ℕ_discrete}
use dogg_os.Base.{
  ℕ, ◌≤◌, ◌<◌, ◌≡◌, ◌≢◌, refl, sym, ap, subst, ◌∙◌, true, false, List, [], ◌∷◌, ◌==◌, if◌then◌else◌,
  Array, arith,
}
use dogg_os.Chain.{count, IsChain, IsChain-same, last_of, count-nil}
use dogg_os.Rt.Heap.Place.{IsHome}
use dogg_os.Rt.Heap.{SmallHeap}

pub record IsHeap (h : SmallHeap) (chunks : ℕ → List ℕ) : Type 0 where
  pub chain : (j : ℕ) → j < 9 → IsChain h.next (h.first_chunk j) (chunks j)
  pub ending : (j : ℕ) → j < 9 → h.last_chunk j ≡ last_of 0 (chunks j)
  pub home : (j z : ℕ) → j < 9 → 1 ≤ count z (chunks j) → IsHome h.main_bucket j z
  pub once : (j z : ℕ) → j < 9 → count z (chunks j) ≤ 1

pub not_first : (z x : ℕ) (xs : List ℕ) → z ≢ x → 1 ≤ count z (x ∷ xs) → 1 ≤ count z xs
unfolding count
not_first z x xs ne has = ground arith

pub first_other : (z x : ℕ) (xs : List ℕ) → z ≢ x → count z xs ≤ 1 → count z (x ∷ xs) ≤ 1
unfolding count
first_other z x xs ne few = ground arith

pub count-le-one : (z x : ℕ) → count z (x ∷ []) ≤ 1
unfolding count
count-le-one z x = ground arith

-- Members are not NULL.
pub IsChain-some :
    (next : Array ℕ) (head z : ℕ) (xs : List ℕ) → IsChain next head xs → 1 ≤ count z xs → z ≢ 0
IsChain-some next head z [] c has = absurd (omega (arith, count-nil z))
IsChain-some next head z (x ∷ xs) (first, some, rest) has = elim (ℕ_discrete z x) [
  | yes same ↦ λ e. some (sym same ∙ e)
  | no other ↦ IsChain-some next (next x) z xs rest (not_first z x xs other has)
]

-- One bucket gets another list, the others keep theirs.
abbrev pub put : ℕ → List ℕ → (ℕ → List ℕ) → ℕ → List ℕ
put bucket xs chunks j = if j == bucket then xs else chunks j

pub put-same : (bucket : ℕ) (xs : List ℕ) (chunks : ℕ → List ℕ) → put bucket xs chunks bucket ≡ xs
put-same bucket xs chunks = let same : (bucket == bucket) ≡ true = ground arith in rw same refl

pub put-other :
    (bucket : ℕ) (xs : List ℕ) (chunks : ℕ → List ℕ) (j : ℕ)
    → j ≢ bucket
    → put bucket xs chunks j ≡ chunks j
put-other bucket xs chunks j ne = let other : (j == bucket) ≡ false = ground arith in rw other refl

-- A heap after a change of one bucket.
pub IsHeap-put :
    (h after : SmallHeap) (chunks : ℕ → List ℕ) (bucket : ℕ) (xs : List ℕ)
    → IsHeap h chunks
    → after.main_bucket ≡ h.main_bucket
    → ((j z : ℕ) → j < 9 → j ≢ bucket → 1 ≤ count z (chunks j) → after.next z ≡ h.next z)
    → ((j : ℕ)
        → j ≢ bucket
        → (after.first_chunk j ≡ h.first_chunk j) × (after.last_chunk j ≡ h.last_chunk j))
    → IsChain after.next (after.first_chunk bucket) xs
    → after.last_chunk bucket ≡ last_of 0 xs
    → ((z : ℕ) → 1 ≤ count z xs → IsHome h.main_bucket bucket z)
    → ((z : ℕ) → count z xs ≤ 1)
    → IsHeap after (put bucket xs chunks)
IsHeap-put h after chunks bucket xs whole main links ends chain ending home once = record {
  chain = λ j lt. elim (ℕ_discrete j bucket) [
    | yes same ↦
        subst (λ b. IsChain after.next (after.first_chunk b) (put bucket xs chunks b)) (sym same)
          (subst (IsChain after.next (after.first_chunk bucket)) (sym (put-same bucket xs chunks))
            chain)
    | no other ↦
        subst (IsChain after.next (after.first_chunk j)) (sym (put-other bucket xs chunks j other))
          (subst (λ f. IsChain after.next f (chunks j)) (sym (ends j other).0)
            (IsChain-same h.next after.next (h.first_chunk j) (chunks j)
              (λ z has. links j z lt other has) (whole.chain j lt)))
  ];
  ending = λ j lt. elim (ℕ_discrete j bucket) [
    | yes same ↦
        ap after.last_chunk same
        ∙ ending
        ∙ ap (last_of 0) (sym (put-same bucket xs chunks))
        ∙ ap (λ b. last_of 0 (put bucket xs chunks b)) (sym same)
    | no other ↦
        (ends j other).1
        ∙ whole.ending j lt
        ∙ ap (last_of 0) (sym (put-other bucket xs chunks j other))
  ];
  home = λ j z lt has.
      subst (λ m. IsHome m j z) (sym main)
        (elim (ℕ_discrete j bucket) [
          | yes same ↦
              subst (λ b. IsHome h.main_bucket b z) (sym same)
                (home z (
                  subst (λ l. 1 ≤ count z l)
                    (ap (put bucket xs chunks) same ∙ put-same bucket xs chunks) has))
          | no other ↦
              whole.home j z lt
                (subst (λ l. 1 ≤ count z l) (put-other bucket xs chunks j other) has)
        ]);
  once = λ j z lt. elim (ℕ_discrete j bucket) [
    | yes same ↦
        subst (λ l. count z l ≤ 1)
          (sym (ap (put bucket xs chunks) same ∙ put-same bucket xs chunks)) (once z)
    | no other ↦
        subst (λ l. count z l ≤ 1) (sym (put-other bucket xs chunks j other)) (whole.once j z lt)
  ];
}
