-- ===== src/Rt/Heap/Take.antt =====
-- Chunks that leave a bucket and that come back.
use native.Mathlib.Decide.{ℕ_discrete}
use dogg_os.Base.{
  ℕ, ◌≤◌, ◌<◌, ◌≡◌, ◌≢◌, refl, sym, ap, subst, ◌∙◌, true, false, List, [], ◌∷◌, ◌==◌, if◌then◌else◌,
  Array, update, update_self, update_other, arith, Bool-cases, inl, inr,
}
use dogg_os.Chain.{count, IsChain, IsChain-update, last_of, count-cons}
use dogg_os.Rt.Heap.Place.{IsHome}
use dogg_os.Rt.Heap.{SmallHeap, pop_chunk, push_chunk}
use dogg_os.Rt.Heap.Chunks.{IsHeap, put, IsHeap-put, not_first, first_other, count-le-one}

-- The links and the ends after a chunk came back.
push_links :
    (bucket chunk : ℕ) (h : SmallHeap)
    → ((push_chunk bucket chunk h).next ≡ update h.next chunk (h.first_chunk bucket))
      × ((push_chunk bucket chunk h).first_chunk ≡ update h.first_chunk bucket chunk)
      × ((push_chunk bucket chunk h).last_chunk
          ≡ (if h.first_chunk bucket == 0 then update h.last_chunk bucket chunk else h.last_chunk))
      × ((push_chunk bucket chunk h).main_bucket ≡ h.main_bucket)
unfolding push_chunk
push_links bucket chunk h = elim (Bool-cases (h.first_chunk bucket == 0)) [
  | inl none ↦ rw none (refl, refl, refl, refl)
  | inr some ↦ rw some (refl, refl, refl, refl)
]

last_push :
    (bucket chunk : ℕ) (h : SmallHeap) (chunks : ℕ → List ℕ)
    → IsHeap h chunks
    → bucket < 9
    → (if h.first_chunk bucket == 0 then update h.last_chunk bucket chunk else h.last_chunk) bucket
      ≡ last_of 0 (chunk ∷ chunks bucket)
unfolding last_of
last_push bucket chunk h chunks whole lt =
    by_list (chunks bucket) (whole.chain bucket lt) (whole.ending bucket lt)
  where
    by_list :
        (xs : List ℕ)
        → IsChain h.next (h.first_chunk bucket) xs
        → h.last_chunk bucket ≡ last_of 0 xs
        → (if h.first_chunk bucket == 0 then update h.last_chunk bucket chunk else h.last_chunk)
            bucket
          ≡ last_of 0 (chunk ∷ xs)
    by_list [] c e =
        let none : (h.first_chunk bucket == 0) ≡ true = ground arith in
        rw none (update_self h.last_chunk bucket chunk)
    by_list (x ∷ xs) (first, some, rest) e =
        let there : (h.first_chunk bucket == 0) ≡ false = ground arith in rw there e

pub push_chunk-IsHeap :
    (bucket chunk : ℕ) (h : SmallHeap) (chunks : ℕ → List ℕ)
    → IsHeap h chunks
    → bucket < 9
    → chunk ≢ 0
    → ((j : ℕ) → j < 9 → count chunk (chunks j) ≡ 0)
    → IsHome h.main_bucket bucket chunk
    → IsHeap (push_chunk bucket chunk h) (put bucket (chunk ∷ chunks bucket) chunks)
push_chunk-IsHeap bucket chunk h chunks whole lt some out home =
    let (next, first, last, main) = push_links bucket chunk h in
    IsHeap-put h (push_chunk bucket chunk h) chunks bucket (chunk ∷ chunks bucket) whole main
      (λ j z below other has.
        ap (λ (f : Array ℕ). f z) next
        ∙ update_other h.next chunk (h.first_chunk bucket) z
            (λ e. apart z j e (out j below) has refl))
      (λ j other. (
        ap (λ (f : Array ℕ). f j) first ∙ update_other h.first_chunk bucket chunk j other,
        ap (λ (f : Array ℕ). f j) last ∙ kept j other,
      ))
      (subst (λ f. IsChain (push_chunk bucket chunk h).next f (chunk ∷ chunks bucket))
        (sym (ap (λ (f : Array ℕ). f bucket) first ∙ update_self h.first_chunk bucket chunk))
        (
          refl,
          some,
          subst (λ n. IsChain n (n chunk) (chunks bucket)) (sym next)
              (subst (λ f. IsChain (update h.next chunk (h.first_chunk bucket)) f (chunks bucket))
                (sym (update_self h.next chunk (h.first_chunk bucket)))
                (IsChain-update h.next (h.first_chunk bucket) chunk (h.first_chunk bucket)
                  (chunks bucket) (out bucket lt) (whole.chain bucket lt))),
        ))
      (ap (λ (f : Array ℕ). f bucket) last ∙ last_push bucket chunk h chunks whole lt)
      (λ z has. homes z has) (λ z. singles z)
  where
    apart :
        (z j : ℕ) → z ≡ chunk → count chunk (chunks j) ≡ 0 → 1 ≤ count z (chunks j) → chunk ≢ chunk
    apart z j e none has =
        let bad : 1 ≤ count chunk (chunks j) = rw (sym e) has in absurd (omega arith)

    kept :
        (j : ℕ)
        → j ≢ bucket
        → (if h.first_chunk bucket == 0 then update h.last_chunk bucket chunk else h.last_chunk) j
          ≡ h.last_chunk j
    kept j other = elim (Bool-cases (h.first_chunk bucket == 0)) [
      | inl none ↦ rw none (update_other h.last_chunk bucket chunk j other)
      | inr there ↦ rw there refl
    ]

    homes : (z : ℕ) → 1 ≤ count z (chunk ∷ chunks bucket) → IsHome h.main_bucket bucket z
    homes z has = elim (ℕ_discrete z chunk) [
      | yes same ↦ subst (IsHome h.main_bucket bucket) (sym same) home
      | no other ↦ whole.home bucket z lt (not_first z chunk (chunks bucket) other has)
    ]

    singles : (z : ℕ) → count z (chunk ∷ chunks bucket) ≤ 1
    singles z = elim (ℕ_discrete z chunk) [
      | yes same ↦
          let none : count z (chunks bucket) ≡ 0 =
            ap (λ w. count w (chunks bucket)) same ∙ out bucket lt in
          omega (arith, count-cons z chunk (chunks bucket), count-le-one z chunk)
      | no other ↦ first_other z chunk (chunks bucket) other (whole.once bucket z lt)
    ]

-- The links and the ends after a chunk was taken.
pub pop_links :
    (bucket : ℕ) (h : SmallHeap)
    → ((pop_chunk bucket h).0 ≡ h.first_chunk bucket)
      × ((pop_chunk bucket h).1.next ≡ h.next)
      × ((pop_chunk bucket h).1.first_chunk
          ≡ update h.first_chunk bucket (h.next (h.first_chunk bucket)))
      × ((pop_chunk bucket h).1.last_chunk ≡ (
          if h.next (h.first_chunk bucket) == 0
          then update h.last_chunk bucket 0
          else h.last_chunk))
      × ((pop_chunk bucket h).1.main_bucket ≡ h.main_bucket)
unfolding pop_chunk
pop_links bucket h = elim (Bool-cases (h.next (h.first_chunk bucket) == 0)) [
  | inl none ↦ rw none (refl, refl, refl, refl, refl)
  | inr some ↦ rw some (refl, refl, refl, refl, refl)
]

last_pop :
    (bucket x : ℕ) (xs : List ℕ) (h : SmallHeap)
    → IsChain h.next (h.first_chunk bucket) (x ∷ xs)
    → h.last_chunk bucket ≡ last_of 0 (x ∷ xs)
    → (if h.next (h.first_chunk bucket) == 0 then update h.last_chunk bucket 0 else h.last_chunk)
        bucket
      ≡ last_of 0 xs
unfolding last_of
last_pop bucket x [] h (first, some, end) e =
    let none : (h.next (h.first_chunk bucket) == 0) ≡ true =
      let n = ap h.next first ∙ end in ground arith in
    rw none (update_self h.last_chunk bucket 0)
last_pop bucket x (y ∷ ys) h (first, some, (second, there, rest)) e =
    let more : (h.next (h.first_chunk bucket) == 0) ≡ false =
      let n = ap h.next first ∙ second in ground arith in
    rw more e

pub pop_chunk-IsHeap :
    (bucket x : ℕ) (xs : List ℕ) (h : SmallHeap) (chunks : ℕ → List ℕ)
    → IsHeap h chunks
    → bucket < 9
    → chunks bucket ≡ x ∷ xs
    → ((pop_chunk bucket h).0 ≡ x) × IsHeap (pop_chunk bucket h).1 (put bucket xs chunks)
pop_chunk-IsHeap bucket x xs h chunks whole lt list =
    let (result, next, first, last, main) = pop_links bucket h in
    let chain : IsChain h.next (h.first_chunk bucket) (x ∷ xs) =
      subst (IsChain h.next (h.first_chunk bucket)) list (whole.chain bucket lt) in
    (
      result ∙ chain.0,
      IsHeap-put h (pop_chunk bucket h).1 chunks bucket xs whole main
          (λ j z below other has. ap (λ (f : Array ℕ). f z) next)
          (λ j other. (
            ap (λ (f : Array ℕ). f j) first ∙ update_other h.first_chunk bucket _ j other,
            ap (λ (f : Array ℕ). f j) last ∙ kept j other,
          ))
          (subst (λ f. IsChain (pop_chunk bucket h).1.next f xs)
            (sym (
              ap (λ (f : Array ℕ). f bucket) first
              ∙ update_self h.first_chunk bucket _
              ∙ ap h.next chain.0))
            (subst (λ n. IsChain n (h.next x) xs) (sym next) chain.2))
          (ap (λ (f : Array ℕ). f bucket) last
            ∙ last_pop bucket x xs h chain (whole.ending bucket lt ∙ ap (last_of 0) list))
          (λ z has.
            whole.home bucket z lt
              (subst (λ l. 1 ≤ count z l) (sym list) (omega (arith, has, count-cons z x xs))))
          (λ z.
            let few : count z (x ∷ xs) ≤ 1 =
              subst (λ l. count z l ≤ 1) list (whole.once bucket z lt) in
            omega (arith, few, count-cons z x xs)),
    )
  where
    kept :
        (j : ℕ)
        → j ≢ bucket
        → (if h.next (h.first_chunk bucket) == 0
              then update h.last_chunk bucket 0
              else h.last_chunk)
            j
          ≡ h.last_chunk j
    kept j other = elim (Bool-cases (h.next (h.first_chunk bucket) == 0)) [
      | inl none ↦ rw none (update_other h.last_chunk bucket 0 j other)
      | inr there ↦ rw there refl
    ]
