-- ===== src/Rt/Heap/Append.antt =====
-- A chunk that goes behind those of its bucket.
use native.Mathlib.Decide.{ℕ_discrete}
use dogg_os.Base.{
  ℕ, ◌≤◌, ◌<◌, ◌≡◌, ◌≢◌, refl, sym, ap, subst, ◌∙◌, true, false, List, [], ◌∷◌, ◌++◌, ◌==◌,
  if◌then◌else◌, Array, update, update_self, update_other, arith, Bool-cases, inl, inr,
}
use dogg_os.Chain.{
  count, IsChain, IsChain-same, IsChain-append, last_of, last_of-append, count-last, count-append,
  count-one,
}
use dogg_os.Rt.Heap.Place.{IsHome}
use dogg_os.Rt.Heap.{SmallHeap, bucket_of, append_chunk}
use dogg_os.Rt.Heap.Chunks.{IsHeap, put, IsHeap-put, IsChain-some, count-le-one}

append_links :
    (bucket chunk : ℕ) (h : SmallHeap)
    → ((append_chunk bucket chunk h).next ≡ (
        if h.last_chunk bucket == 0
        then update h.next chunk 0
        else update (update h.next chunk 0) (h.last_chunk bucket) chunk))
      × ((append_chunk bucket chunk h).first_chunk
          ≡ (if h.last_chunk bucket == 0 then update h.first_chunk bucket chunk else h.first_chunk))
      × ((append_chunk bucket chunk h).last_chunk ≡ update h.last_chunk bucket chunk)
      × ((append_chunk bucket chunk h).main_bucket ≡ h.main_bucket)
unfolding append_chunk
append_links bucket chunk h = elim (Bool-cases (h.last_chunk bucket == 0)) [
  | inl none ↦ rw none (refl, refl, refl, refl)
  | inr some ↦ rw some (refl, refl, refl, refl)
]

update_swap :
    (a : Array ℕ) (i v j w z : ℕ)
    → i ≢ j
    → update (update a i v) j w z ≡ update (update a j w) i v z
update_swap a i v j w z ne = elim (ℕ_discrete z i) [
  | yes same ↦
      update_other (update a i v) j w z (λ e. ne (sym same ∙ e))
      ∙ ap (update a i v) same
      ∙ update_self a i v
      ∙ sym (ap (update (update a j w) i v) same ∙ update_self (update a j w) i v)
  | no other ↦ here (ℕ_discrete z j) other
]
  where
    here : Dec (z ≡ j) → z ≢ i → update (update a i v) j w z ≡ update (update a j w) i v z
    here (yes e) other =
        ap (update (update a i v) j w) e
        ∙ update_self (update a i v) j w
        ∙ sym (update_other (update a j w) i v z other ∙ ap (update a j w) e ∙ update_self a j w)
    here (no n) other =
        update_other (update a i v) j w z n
        ∙ update_other a i v z other
        ∙ sym (update_other (update a j w) i v z other ∙ update_other a j w z n)

-- The chain of the bucket, with the chunk at its end.
append-IsChain :
    (next first last : Array ℕ) (bucket chunk : ℕ) (xs : List ℕ)
    → chunk ≢ 0
    → count chunk xs ≡ 0
    → ((z : ℕ) → count z xs ≤ 1)
    → IsChain next (first bucket) xs
    → last bucket ≡ last_of 0 xs
    → IsChain
        (if last bucket == 0
          then update next chunk 0
          else update (update next chunk 0) (last bucket) chunk)
        ((if last bucket == 0 then update first bucket chunk else first) bucket)
        (xs ++ chunk ∷ [])
unfolding last_of
append-IsChain next first last bucket chunk [] some out once c e =
    let none : (last bucket == 0) ≡ true = ground arith in
    rw none (update_self first bucket chunk, some, update_self next chunk 0)
append-IsChain next first last bucket chunk (x ∷ xs) some out once c e =
    let in_list : 1 ≤ count (last bucket) (x ∷ xs) = rw e (count-last x xs) in
    let there : (last bucket == 0) ≡ false =
      (let ne = IsChain-some next (first bucket) (last bucket) (x ∷ xs) c in_list in
        ground arith) in
    let apart : chunk ≢ last bucket =
      λ q. let bad : 1 ≤ count chunk (x ∷ xs) = rw q in_list in absurd (omega arith) in
    let links : (if last bucket == 0
          then update next chunk 0
          else update (update next chunk 0) (last bucket) chunk)
        ≡ update (update next chunk 0) (last bucket) chunk =
      rw there refl in
    let head : (if last bucket == 0 then update first bucket chunk else first) bucket
        ≡ first bucket =
      rw there refl in
    subst
      (λ n.
        IsChain n ((if last bucket == 0 then update first bucket chunk else first) bucket)
          (x ∷ (xs ++ chunk ∷ [])))
      (sym links)
      (subst
        (λ f. IsChain (update (update next chunk 0) (last bucket) chunk) f (x ∷ (xs ++ chunk ∷ [])))
        (sym head)
        (IsChain-same (update (update next (last bucket) chunk) chunk 0)
          (update (update next chunk 0) (last bucket) chunk) (first bucket) (x ∷ (xs ++ chunk ∷ []))
          (λ z has. update_swap next chunk 0 (last bucket) chunk z apart)
          (subst
            (λ l.
              IsChain (update (update next l chunk) chunk 0) (first bucket)
                (x ∷ (xs ++ chunk ∷ [])))
            (sym e) (IsChain-append next (first bucket) chunk x xs some once out c))))

last_append : (chunk : ℕ) (xs : List ℕ) → chunk ≡ last_of 0 (xs ++ chunk ∷ [])
unfolding last_of
last_append chunk [] = refl
last_append chunk (x ∷ xs) = sym (last_of-append chunk x xs)

pub not_added : (z x : ℕ) (xs : List ℕ) → z ≢ x → 1 ≤ count z (xs ++ x ∷ []) → 1 ≤ count z xs
not_added z x xs ne has =
    let one : count z (x ∷ []) ≡ 0 =
      count-one z x ∙ (let other : (z == x) ≡ false = ground arith in rw other refl) in
    omega (arith, has, one, count-append z xs (x ∷ []))

few_added : (z x : ℕ) (xs : List ℕ) → z ≢ x → count z xs ≤ 1 → count z (xs ++ x ∷ []) ≤ 1
few_added z x xs ne few =
    let one : count z (x ∷ []) ≡ 0 =
      count-one z x ∙ (let other : (z == x) ≡ false = ground arith in rw other refl) in
    omega (arith, few, one, count-append z xs (x ∷ []))

-- What holds of the members of a list holds of its last one.
member_last :
    (main : Array ℕ) (bucket last : ℕ) (xs : List ℕ)
    → last ≡ last_of 0 xs
    → (last == 0) ≡ false
    → ((w : ℕ) → 1 ≤ count w xs → bucket_of main w ≡ bucket)
    → bucket_of main last ≡ bucket
unfolding last_of
member_last main bucket last [] e there members = absurd (ground arith)
member_last main bucket last (x ∷ xs) e there members = members last (rw e (count-last x xs))

pub append_chunk-IsHeap :
    (bucket chunk : ℕ) (h : SmallHeap) (chunks : ℕ → List ℕ)
    → IsHeap h chunks
    → bucket < 9
    → chunk ≢ 0
    → ((j : ℕ) → j < 9 → count chunk (chunks j) ≡ 0)
    → IsHome h.main_bucket bucket chunk
    → IsHeap (append_chunk bucket chunk h) (put bucket (chunks bucket ++ chunk ∷ []) chunks)
      × ((append_chunk bucket chunk h).main_bucket ≡ h.main_bucket)
append_chunk-IsHeap bucket chunk h chunks whole lt some out home =
    let (next, first, last, main) = append_links bucket chunk h in
    (
      IsHeap-put h (append_chunk bucket chunk h) chunks bucket (chunks bucket ++ chunk ∷ []) whole
          main (λ j z below other has. ap (λ (f : Array ℕ). f z) next ∙ links j z below other has)
          (λ j other. (
            ap (λ (f : Array ℕ). f j) first ∙ kept j other,
            ap (λ (f : Array ℕ). f j) last ∙ update_other h.last_chunk bucket chunk j other,
          ))
          (subst
            (λ f.
              IsChain (append_chunk bucket chunk h).next (f bucket) (chunks bucket ++ chunk ∷ []))
            (sym first)
            (subst
              (λ n.
                IsChain n
                  ((if h.last_chunk bucket == 0
                      then update h.first_chunk bucket chunk
                      else h.first_chunk)
                    bucket)
                  (chunks bucket ++ chunk ∷ []))
              (sym next)
              (append-IsChain h.next h.first_chunk h.last_chunk bucket chunk (chunks bucket) some
                (out bucket lt) (λ z. whole.once bucket z lt) (whole.chain bucket lt)
                (whole.ending bucket lt))))
          (ap (λ (f : Array ℕ). f bucket) last
            ∙ update_self h.last_chunk bucket chunk
            ∙ last_append chunk (chunks bucket))
          (λ z has. homes z has) (λ z. singles z),
      main,
    )
  where
    links :
        (j z : ℕ)
        → j < 9
        → j ≢ bucket
        → 1 ≤ count z (chunks j)
        → (if h.last_chunk bucket == 0
              then update h.next chunk 0
              else update (update h.next chunk 0) (h.last_chunk bucket) chunk)
            z
          ≡ h.next z
    links j z below other has =
        let not_chunk : z ≢ chunk = λ e.
          let bad : 1 ≤ count chunk (chunks j) = rw (sym e) has in
          let none = out j below in absurd (omega arith) in
        elim (Bool-cases (h.last_chunk bucket == 0)) [
          | inl none ↦ rw none (update_other h.next chunk 0 z not_chunk)
          | inr there ↦ rw there (
              update_other (update h.next chunk 0) (h.last_chunk bucket) chunk z (λ e. other (
                sym (whole.home j z below has).bucket
                ∙ ap (bucket_of h.main_bucket) e
                ∙ member_last h.main_bucket bucket (h.last_chunk bucket) (chunks bucket)
                    (whole.ending bucket lt) there
                    (λ w in_list. (whole.home bucket w lt in_list).bucket)))
              ∙ update_other h.next chunk 0 z not_chunk)
        ]

    kept :
        (j : ℕ)
        → j ≢ bucket
        → (if h.last_chunk bucket == 0 then update h.first_chunk bucket chunk else h.first_chunk) j
          ≡ h.first_chunk j
    kept j other = elim (Bool-cases (h.last_chunk bucket == 0)) [
      | inl none ↦ rw none (update_other h.first_chunk bucket chunk j other)
      | inr there ↦ rw there refl
    ]

    homes : (z : ℕ) → 1 ≤ count z (chunks bucket ++ chunk ∷ []) → IsHome h.main_bucket bucket z
    homes z has = elim (ℕ_discrete z chunk) [
      | yes same ↦ subst (IsHome h.main_bucket bucket) (sym same) home
      | no other ↦ whole.home bucket z lt (not_added z chunk (chunks bucket) other has)
    ]

    singles : (z : ℕ) → count z (chunks bucket ++ chunk ∷ []) ≤ 1
    singles z = elim (ℕ_discrete z chunk) [
      | yes same ↦
          let none : count z (chunks bucket) ≡ 0 =
            ap (λ w. count w (chunks bucket)) same ∙ out bucket lt in
          omega (arith, count-append z (chunks bucket) (chunk ∷ []), count-le-one z chunk)
      | no other ↦ few_added z chunk (chunks bucket) other (whole.once bucket z lt)
    ]
