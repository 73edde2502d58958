-- ===== src/Rt/Heap/Serve.antt =====
-- k_rt_SmallAlloc and k_rt_SmallFree on a heap.
use native.Mathlib.Decide.{ℕ_discrete}
use dogg_os.Base.{
  ℕ, ◌+◌, ◌*◌, ◌/◌, ◌≤◌, ◌<◌, ◌≡◌, ◌≢◌, ◌⊎◌, refl, sym, ap, subst, ◌∙◌, true, false, List, [], ◌∷◌,
  ◌==◌, if◌then◌else◌, arith, inl,
}
use dogg_os.Chain.{count, count-nil, count_self, count-cons, IsChain}
use dogg_os.Rt.Heap.Place.{IsHome}
use dogg_os.Rt.Heap.{
  SmallHeap, bucket_of, small_alloc, pop_chunk, small_free, init_chunk_page, small_bucket_size,
  small_bucket_index_from_size,
}
use dogg_os.Rt.Heap.Chunks.{IsHeap, put, put-same, put-other, IsChain-some, not_first}
use dogg_os.Rt.Heap.Sizes.{small_bucket_index_from_size-lem}
use dogg_os.Rt.Heap.Take.{pop_links, pop_chunk-IsHeap, push_chunk-IsHeap}
use dogg_os.Rt.Heap.Front.{IsFilled}
use dogg_os.Rt.Heap.Page.{init_chunk_page-IsFilled}

-- What handing out a chunk does: it was free in its bucket or is on the new page, it goes back to that
-- bucket, it is in no list any more, and all others stay.
pub record IsServed (page bucket : ℕ) (before : ℕ → List ℕ) (chunk : ℕ) (after : SmallHeap)
    (chunks : ℕ → List ℕ) : Type 0 where
  pub heap : IsHeap after chunks
  pub some : chunk ≢ 0
  pub home : IsHome after.main_bucket bucket chunk
  pub was_free : (1 ≤ count chunk (before bucket)) ⊎ ((page ≤ chunk) × (chunk < page + 4096))
  pub out : (j : ℕ) → j < 9 → count chunk (chunks j) ≡ 0
  pub kept : (j z : ℕ) → j < 9 → z ≢ chunk → 1 ≤ count z (before j) → 1 ≤ count z (chunks j)
  pub new :
      (j z : ℕ)
      → j < 9
      → 1 ≤ count z (chunks j)
      → (1 ≤ count z (before j)) ⊎ ((page ≤ z) × (z < page + 4096))

-- From a bucket that is not empty.
pop_chunk-IsServed :
    (page bucket x : ℕ) (xs : List ℕ) (h : SmallHeap) (before chunks : ℕ → List ℕ)
    → IsFilled page before h chunks
    → bucket < 9
    → chunks bucket ≡ x ∷ xs
    → IsServed page bucket before
        (pop_chunk bucket h).0
        (pop_chunk bucket h).1
        (put bucket xs chunks)
pop_chunk-IsServed page bucket x xs h before chunks filled lt list =
    let (result, after) = pop_chunk-IsHeap bucket x xs h chunks filled.heap lt list in
    let main = (pop_links bucket h).4 in
    let has : 1 ≤ count x (chunks bucket) =
      subst (λ l. 1 ≤ count x l) (sym list) (omega (arith, count_self x xs)) in
    subst (λ c. IsServed page bucket before c (pop_chunk bucket h).1 (put bucket xs chunks))
      (sym result)
      (record {
        heap = after;
        some =
            IsChain-some h.next (h.first_chunk bucket) x (chunks bucket)
              (filled.heap.chain bucket lt) has;
        home = subst (λ m. IsHome m bucket x) (sym main) (filled.heap.home bucket x lt has);
        was_free = filled.new bucket x lt has;
        out = λ j below. absent j below has;
        kept = λ j z below other was. stays j z other (filled.kept j z below was);
        new = λ j z below is. filled.new j z below (was_there j z is);
      })
  where
    absent : (j : ℕ) → j < 9 → 1 ≤ count x (chunks bucket) → count x (put bucket xs chunks j) ≡ 0
    absent j below has = elim (ℕ_discrete j bucket) [
      | yes same ↦
          ap (count x) (ap (put bucket xs chunks) same ∙ put-same bucket xs chunks)
          ∙ (let few : count x (x ∷ xs) ≤ 1 =
                subst (λ l. count x l ≤ 1) list (filled.heap.once bucket x lt) in
              omega (arith, few, count_self x xs))
      | no other ↦ elim (ℕ_discrete (count x (chunks j)) 0) [
        | yes none ↦ ap (count x) (put-other bucket xs chunks j other) ∙ none
        | no there ↦ absurd (
            other (
              sym (filled.heap.home j x below (omega arith)).bucket
              ∙ (filled.heap.home bucket x lt has).bucket))
      ]
    ]

    stays : (j z : ℕ) → z ≢ x → 1 ≤ count z (chunks j) → 1 ≤ count z (put bucket xs chunks j)
    stays j z ne was = elim (ℕ_discrete j bucket) [
      | yes same ↦
          subst (λ l. 1 ≤ count z l)
            (sym (ap (put bucket xs chunks) same ∙ put-same bucket xs chunks))
            (not_first z x xs ne (subst (λ l. 1 ≤ count z l) (ap chunks same ∙ list) was))
      | no other ↦ subst (λ l. 1 ≤ count z l) (sym (put-other bucket xs chunks j other)) was
    ]

    was_there : (j z : ℕ) → 1 ≤ count z (put bucket xs chunks j) → 1 ≤ count z (chunks j)
    was_there j z is = elim (ℕ_discrete j bucket) [
      | yes same ↦
          subst (λ l. 1 ≤ count z l) (sym (ap chunks same ∙ list))
            (let in_rest : 1 ≤ count z xs =
                subst (λ l. 1 ≤ count z l)
                  (ap (put bucket xs chunks) same ∙ put-same bucket xs chunks) is in
              omega (arith, in_rest, count-cons z x xs))
      | no other ↦ subst (λ l. 1 ≤ count z l) (put-other bucket xs chunks j other) is
    ]

-- k_rt_SmallAlloc, asked for 2048 bytes or less, hands out a chunk that has the size, that was free or
-- is on the new page, that goes back to its bucket, and that no bucket holds any more; every other free
-- chunk stays free, and the heap stays one whose chunks all go back to the bucket they are in.
pub small_alloc-IsServed :
    (page size : ℕ) (h : SmallHeap) (chunks : ℕ → List ℕ)
    → IsHeap h chunks
    → size ≤ 2048
    → page / 4096 * 4096 ≡ page
    → ((j z : ℕ) → j < 9 → 1 ≤ count z (chunks j) → (z < page) ⊎ (page + 4096 ≤ z))
    → (lists : ℕ → List ℕ) × IsServed page
        (small_bucket_index_from_size size)
        chunks
        (small_alloc page size h).0
        (small_alloc page size h).1
        lists
      × (size
          ≤ small_bucket_size
              (bucket_of (small_alloc page size h).1.main_bucket (small_alloc page size h).0))
unfolding small_alloc
small_alloc-IsServed page size h chunks whole small aligned away =
    let (lt, fits) = small_bucket_index_from_size-lem size small in
    let served : (small_bucket_index_from_size size == 0xffffffff) ≡ false = ground arith in
    let filled = filled_heap (chunks bucket) refl lt in
    let (lists, s) = from_list filled.0 (filled.0 bucket) refl filled.1 filled.2 lt in
    rw served (lists, s, subst (λ b. size ≤ small_bucket_size b) (sym s.home.bucket) fits)
  where
    bucket : ℕ
    bucket = small_bucket_index_from_size size

    filled_heap :
        (xs : List ℕ)
        → chunks bucket ≡ xs
        → bucket < 9
        → (lists : ℕ → List ℕ) × IsFilled page chunks
            (if h.first_chunk bucket == 0 then init_chunk_page page bucket h else h)
            lists
          × ((x : ℕ) × (1 ≤ count x (lists bucket)))
    filled_heap [] list lt =
        let first : h.first_chunk bucket ≡ 0 =
          subst (IsChain h.next (h.first_chunk bucket)) list (whole.chain bucket lt) in
        let test : (h.first_chunk bucket == 0) ≡ true = ground arith in
        rw test (init_chunk_page-IsFilled page bucket h chunks lt aligned whole list away)
    filled_heap (x ∷ xs) list lt =
        let chain : IsChain h.next (h.first_chunk bucket) (x ∷ xs) =
          subst (IsChain h.next (h.first_chunk bucket)) list (whole.chain bucket lt) in
        let first = chain.0 in
        let some = chain.1 in
        let test : (h.first_chunk bucket == 0) ≡ false = ground arith in
        rw test (
          chunks,
          record { heap = whole; kept = λ j z below has. has; new = λ j z below has. inl has },
          (x, subst (λ l. 1 ≤ count x l) (sym list) (omega (arith, count_self x xs))),
        )

    from_list :
        (lists : ℕ → List ℕ) (xs : List ℕ)
        → lists bucket ≡ xs
        → IsFilled page chunks
            (if h.first_chunk bucket == 0 then init_chunk_page page bucket h else h)
            lists
        → ((x : ℕ) × (1 ≤ count x (lists bucket)))
        → bucket < 9
        → (after : ℕ → List ℕ) × IsServed page bucket chunks
            (pop_chunk bucket
              (if h.first_chunk bucket == 0 then init_chunk_page page bucket h else h)).0
            (pop_chunk bucket
              (if h.first_chunk bucket == 0 then init_chunk_page page bucket h else h)).1
            after
    from_list lists [] list filled (x, has) lt = absurd (
        let in_nil : 1 ≤ count x [] = subst (λ l. 1 ≤ count x l) list has in
        omega (arith, in_nil, count-nil x))
    from_list lists (x ∷ xs) list filled some lt =
        (put bucket xs lists, pop_chunk-IsServed page bucket x xs _ chunks lists filled lt list)

-- k_rt_SmallFree puts a chunk that no bucket holds, and that stands where the chunks of its bucket
-- stand, in front of its bucket, and the heap stays one whose chunks all go back to the bucket they are
-- in.
pub small_free-IsHeap :
    (chunk : ℕ) (h : SmallHeap) (chunks : ℕ → List ℕ)
    → IsHeap h chunks
    → chunk ≢ 0
    → bucket_of h.main_bucket chunk < 9
    → IsHome h.main_bucket (bucket_of h.main_bucket chunk) chunk
    → ((j : ℕ) → j < 9 → count chunk (chunks j) ≡ 0)
    → IsHeap (small_free chunk h) (
        put (bucket_of h.main_bucket chunk) (chunk ∷ chunks (bucket_of h.main_bucket chunk)) chunks)
unfolding small_free
small_free-IsHeap chunk h chunks whole some lt home out =
    push_chunk-IsHeap (bucket_of h.main_bucket chunk) chunk h chunks whole lt some out home

-- Where the bucket has a chunk, its first is handed out.
small_alloc-first :
    (page size : ℕ) (h : SmallHeap) (chunk : ℕ)
    → small_bucket_index_from_size size < 9
    → chunk ≢ 0
    → h.first_chunk (small_bucket_index_from_size size) ≡ chunk
    → (small_alloc page size h).0 ≡ chunk
unfolding small_alloc
small_alloc-first page size h chunk lt some first =
    let there : (h.first_chunk (small_bucket_index_from_size size) == 0) ≡ false = ground arith in
    let served : (small_bucket_index_from_size size == 0xffffffff) ≡ false = ground arith in
    rw (there, served) ((pop_links (small_bucket_index_from_size size) h).0 ∙ first)

-- A chunk that k_rt_SmallAlloc handed out and that is freed is what the next call of k_rt_SmallAlloc with
-- the same size hands out.
pub small_alloc-small_free :
    (page size : ℕ) (h : SmallHeap) (chunks : ℕ → List ℕ)
    → IsHeap h chunks
    → size ≤ 2048
    → page / 4096 * 4096 ≡ page
    → ((j z : ℕ) → j < 9 → 1 ≤ count z (chunks j) → (z < page) ⊎ (page + 4096 ≤ z))
    → (other_page : ℕ)
    → (small_alloc other_page size
        (small_free (small_alloc page size h).0 (small_alloc page size h).1)).0
      ≡ (small_alloc page size h).0
small_alloc-small_free page size h chunks whole small aligned away other_page =
    let (lt, fits) = small_bucket_index_from_size-lem size small in
    let (lists, s, room) = small_alloc-IsServed page size h chunks whole small aligned away in
    let chunk = (small_alloc page size h).0 in
    let freed =
      small_free-IsHeap chunk (small_alloc page size h).1 lists s.heap s.some
        (let e = s.home.bucket in omega arith)
        (subst (λ b. IsHome (small_alloc page size h).1.main_bucket b chunk) (sym s.home.bucket)
          s.home)
        s.out in
    let bucket = bucket_of (small_alloc page size h).1.main_bucket chunk in
    let chain =
      subst
        (IsChain (small_free chunk (small_alloc page size h).1).next
          ((small_free chunk (small_alloc page size h).1).first_chunk bucket))
        (put-same bucket (chunk ∷ lists bucket) lists)
        (freed.chain bucket (let e = s.home.bucket in omega arith)) in
    small_alloc-first other_page size (small_free chunk (small_alloc page size h).1) chunk lt s.some
      (ap (small_free chunk (small_alloc page size h).1).first_chunk (sym s.home.bucket) ∙ chain.0)
