-- ===== src/Rt/Heap/Tests.antt =====
-- Runs of the heap of small chunks, and the examples of the theorems on it.
use dogg_os.Base.{
  ◌⊎◌, ◌≢◌, ◌<◌, ◌+◌, sym, subst, ◌*◌, pow2, ℕ, ◌≤◌, ◌≡◌, refl, List, [], ◌∷◌, Array, arith, update,
}
use dogg_os.Chain.{count, count-nil, last_of}
use dogg_os.Rt.Heap.Place.{IsHome, IsMultiple}
use dogg_os.Rt.Heap.{
  SmallHeap, small_alloc, small_free, small_bucket_index_from_size, bucket_index_from, bucket_of,
  small_bucket_size, init_chunk_page, carve_chunks, carve_chunk, link_row, append_chunk,
  carve_front, pop_chunk,
}
use dogg_os.Rt.Heap.Chunks.{IsHeap, put}
use dogg_os.Rt.Heap.Apart.{small_alloc-apart}
use dogg_os.Rt.Heap.Serve.{
  IsServed, small_alloc-IsServed, small_free-IsHeap, small_alloc-small_free,
}

abbrev zeros : Array ℕ
zeros i = 0

-- A heap without chunks.
abbrev empty_heap : SmallHeap
empty_heap = record {
  first_chunk = zeros;
  last_chunk = zeros;
  next = zeros;
  prev = zeros;
  main_bucket = zeros;
}

abbrev no_chunks : ℕ → List ℕ
no_chunks j = []

empty_heap-IsHeap : IsHeap empty_heap no_chunks
unfolding last_of
empty_heap-IsHeap = record {
  chain = λ j lt. refl;
  ending = λ j lt. refl;
  home = λ j z lt has. absurd (omega (arith, has, count-nil z));
  once = λ j z lt. omega (arith, count-nil z);
}

-- A heap without free chunks, whose page at 0x5000 is cut for bucket 4.
abbrev used_heap : SmallHeap
used_heap = record empty_heap { main_bucket = update zeros 0x5000 4 }

used_heap-IsHeap : IsHeap used_heap no_chunks
unfolding last_of
used_heap-IsHeap = record {
  chain = λ j lt. refl;
  ending = λ j lt. refl;
  home = λ j z lt has. absurd (omega (arith, has, count-nil z));
  once = λ j z lt. omega (arith, count-nil z);
}

-- 100 bytes are a chunk of 128, the first behind those in front.
hundred_bytes : (small_alloc 0x5000 100 empty_heap).0 ≡ 0x5080
unfolding small_alloc small_bucket_index_from_size bucket_index_from init_chunk_page carve_chunks
    carve_chunk link_row append_chunk carve_front pop_chunk
hundred_bytes = refl

-- The chunk of 16 bytes of that page.
sixteen_bytes : (small_alloc 0x5000 100 empty_heap).1.first_chunk 1 ≡ 0x5010
unfolding small_alloc small_bucket_index_from_size bucket_index_from init_chunk_page carve_chunks
    carve_chunk link_row append_chunk carve_front pop_chunk
sixteen_bytes = refl

its_bucket : bucket_of used_heap.main_bucket 0x5010 ≡ 1
unfolding bucket_of small_bucket_index_from_size bucket_index_from
its_bucket = refl

used_chunk-IsHome : IsHome used_heap.main_bucket (bucket_of used_heap.main_bucket 0x5010) 0x5010
used_chunk-IsHome = record {
  bucket = refl;
  aligned =
      subst (λ b. IsMultiple (8 * pow2 b) 0x5010) (sym its_bucket)
        (record { quotient = 1281; product = refl });
  behind_header = omega arith;
}

small_alloc-IsServed_example :
    (lists : ℕ → List ℕ) × IsServed 0x5000
      (small_bucket_index_from_size 100)
      no_chunks
      (small_alloc 0x5000 100 empty_heap).0
      (small_alloc 0x5000 100 empty_heap).1
      lists
    × (100
        ≤ small_bucket_size (
            bucket_of
              (small_alloc 0x5000 100 empty_heap).1.main_bucket
              (small_alloc 0x5000 100 empty_heap).0))
small_alloc-IsServed_example =
    small_alloc-IsServed 0x5000 100 empty_heap no_chunks empty_heap-IsHeap (omega arith)
      (omega arith) (λ j z lt has. absurd (omega (arith, has, count-nil z)))

small_free-IsHeap_example : IsHeap (small_free 0x5010 used_heap) (
    put
      (bucket_of used_heap.main_bucket 0x5010)
      (0x5010 ∷ no_chunks (bucket_of used_heap.main_bucket 0x5010))
      no_chunks)
small_free-IsHeap_example =
    small_free-IsHeap 0x5010 used_heap no_chunks used_heap-IsHeap (λ e. absurd (omega arith))
      (omega (arith, its_bucket)) used_chunk-IsHome (λ j lt. count-nil 0x5010)

small_alloc-small_free_example :
    (small_alloc 0x6000 100
      (small_free (small_alloc 0x5000 100 empty_heap).0 (small_alloc 0x5000 100 empty_heap).1)).0
    ≡ (small_alloc 0x5000 100 empty_heap).0
small_alloc-small_free_example =
    small_alloc-small_free 0x5000 100 empty_heap no_chunks empty_heap-IsHeap (omega arith)
      (omega arith) (λ j z lt has. absurd (omega (arith, has, count-nil z))) 0x6000

small_alloc-apart_example :
    (lists : ℕ → List ℕ) × IsHeap (small_alloc 0x5000 100 empty_heap).1 lists
    × ((i w : ℕ)
        → i < 9
        → 1 ≤ count w (lists i)
        → ((small_alloc 0x5000 100 empty_heap).0 + 100 ≤ w)
          ⊎ (w + small_bucket_size i ≤ (small_alloc 0x5000 100 empty_heap).0))
    × ((i j w z : ℕ)
        → i < 9
        → j < 9
        → 1 ≤ count w (lists i)
        → 1 ≤ count z (lists j)
        → w ≢ z
        → (w + small_bucket_size i ≤ z) ⊎ (z + small_bucket_size j ≤ w))
small_alloc-apart_example =
    small_alloc-apart 0x5000 100 empty_heap no_chunks empty_heap-IsHeap (omega arith) (omega arith)
      (λ j z lt has. absurd (omega (arith, has, count-nil z)))
