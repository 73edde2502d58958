-- ===== src/Rt/Objects/Count.antt =====
-- The free list of an object list is no longer than the indices that were handed out.
use dogg_os.Base.{
  ℕ, zero, suc, ◌+◌, length, ◌≤◌, ◌≡◌, ◌≢◌, refl, Bool, true, false, List, [], ◌∷◌, Bool-cases, inl,
  inr, ◌==◌, ltb, arith, ltb→lt, lt→ltb,
}
use dogg_os.Rt.Objects.Live.{member, distinct_below, distinct_below-cons, or_cases}

remove_rest : Bool → ℕ → List ℕ → List ℕ → List ℕ
remove_rest true x xs rest = xs
remove_rest false x xs rest = x ∷ rest

remove : ℕ → List ℕ → List ℕ
unfolding remove_rest
remove i [] = []
remove i (x ∷ xs) = remove_rest (x == i) x xs (remove i xs)

length-remove : (i : ℕ) (xs : List ℕ) → length xs ≤ length (remove i xs) + 1
unfolding remove remove_rest
length-remove i [] = omega arith
length-remove i (x ∷ xs) = elim (Bool-cases (x == i)) [
  | inl same ↦ rw same (omega arith)
  | inr other ↦ rw other (let rest = length-remove i xs in omega arith)
]

member-remove : (j i : ℕ) (xs : List ℕ) → member j xs ≡ false → member j (remove i xs) ≡ false
unfolding remove remove_rest member
member-remove j i [] e = refl
member-remove j i (x ∷ xs) e =
    let (head, tail) = or_cases (j == x) (member j xs) e in
    elim (Bool-cases (x == i)) [
      | inl same ↦ rw same tail
      | inr other ↦ rw (other, head) (member-remove j i xs tail)
    ]

lower :
    (n : ℕ) (xs : List ℕ)
    → distinct_below (suc n) xs ≡ true
    → member n xs ≡ false
    → distinct_below n xs ≡ true
unfolding distinct_below member
lower n [] e out = refl
lower n (x ∷ xs) e out =
    let (below, outside, rest) = distinct_below-cons (suc n) x xs e in
    let (head, tail) = or_cases (n == x) (member n xs) out in
    let lt = ltb→lt x (suc n) below in
    let ne : n ≢ x = λ same. ground arith in
    let under : ltb x n ≡ true = lt→ltb x n (omega arith) in
    rw (under, outside) (lower n xs rest tail)

distinct_below-remove :
    (n : ℕ) (xs : List ℕ) → distinct_below (suc n) xs ≡ true → distinct_below n (remove n xs) ≡ true
unfolding distinct_below remove remove_rest
distinct_below-remove n [] e = refl
distinct_below-remove n (x ∷ xs) e =
    let (below, outside, rest) = distinct_below-cons (suc n) x xs e in
    elim (Bool-cases (x == n)) [
      | inl same ↦
          let x_is_n : x ≡ n = ground arith in rw same (lower n xs rest (rw x_is_n at outside))
      | inr other ↦
          let lt = ltb→lt x (suc n) below in
          let ne : x ≢ n = λ e. ground arith in
          let under : ltb x n ≡ true = lt→ltb x n (omega arith) in
          rw (other, under, member-remove x n xs outside) (distinct_below-remove n xs rest)
    ]

-- Different numbers below n are at most n.
pub length-distinct_below : (n : ℕ) (xs : List ℕ) → distinct_below n xs ≡ true → length xs ≤ n
length-distinct_below n [] e = omega arith
length-distinct_below zero (x ∷ xs) e =
    let (below, outside, rest) = distinct_below-cons 0 x xs e in
    absurd (let lt = ltb→lt x 0 below in omega arith)
length-distinct_below (suc n) (x ∷ xs) e =
    let fewer = length-distinct_below n (remove n (x ∷ xs)) (distinct_below-remove n (x ∷ xs) e) in
    let one = length-remove n (x ∷ xs) in omega arith
