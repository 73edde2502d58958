-- ===== src/Rt/Heap.antt =====
-- kernel/rt/alloc.c: the heap of small chunks, in buckets by size.
--
-- The links of the chunks are arrays over addresses, 0 is NULL, and so is main_bucket over the addresses of the
-- pages of chunks. The page that k_rt_BigAlloc returns is an argument.
pub mod Place
pub mod Chunks
pub mod Sizes
pub mod Take
pub mod Append
pub mod Carve
pub mod Homes
pub mod Front
pub mod Page
pub mod Serve
pub mod Apart
mod Tests
use dogg_os.Base.{
  ℕ, zero, suc, ◌+◌, ◌-◌, ◌*◌, ◌/◌, ◌%◌, Bool, true, false, ◌==◌, if◌then◌else◌, ltb, leb, Array,
  update, pow2,
}

-- k_rt_small_bucket_sizes: 8, 16, ... 2048
abbrev pub small_bucket_size : ℕ → ℕ
small_bucket_size bucket = 8 * pow2 bucket

-- struct k_rt_sheap_t, with the memory of its chunks.
pub record SmallHeap : Type 0 where
  pub first_chunk : Array ℕ
  pub last_chunk : Array ℕ
  pub next : Array ℕ
  pub prev : Array ℕ
  pub main_bucket : Array ℕ

-- The loop of k_rt_SmallBucketIndexFromSize, with `left` buckets from `bucket` on; 0xffffffff is none.
unfoldable pub bucket_index_from : ℕ → ℕ → ℕ → ℕ
bucket_index_from zero bucket size = 0xffffffff
bucket_index_from (suc left) bucket size =
    let rest = bucket_index_from left (bucket + 1) size in
    if leb size (small_bucket_size bucket) then bucket else rest

unfoldable pub small_bucket_index_from_size : ℕ → ℕ
small_bucket_index_from_size size = bucket_index_from 9 0 size

-- What the loops of k_rt_InitChunkPage change: `first` is next_chunk, `last` is last_chunk.
pub record Row : Type 0 where
  pub heap : SmallHeap
  pub cur_offset : ℕ
  pub first : ℕ
  pub last : ℕ

-- The chunk at an offset of the page, in units of 8 bytes behind its header.
abbrev pub chunk_at : ℕ → ℕ → ℕ
chunk_at page offset = page + 8 + 8 * offset

unfoldable pub carve_chunk : ℕ → ℕ → Row → Row
carve_chunk page slots_per_chunk r =
    let offset = r.cur_offset - slots_per_chunk in
    let chunk = chunk_at page offset in
    let h = r.heap in
    record {
      heap = record h {
        next = update h.next chunk r.first;
        prev = if r.first == 0 then h.prev else update h.prev r.first chunk;
      };
      cur_offset = offset;
      first = chunk;
      last = if r.first == 0 then chunk else r.last;
    }

unfoldable pub carve_chunks : ℕ → ℕ → ℕ → Row → Row
carve_chunks zero page slots_per_chunk r = r
carve_chunks (suc n) page slots_per_chunk r =
    carve_chunks n page slots_per_chunk (carve_chunk page slots_per_chunk r)

-- The chunks of the row go behind those of the bucket.
unfoldable pub link_row : ℕ → Row → SmallHeap
link_row bucket r =
    let h = r.heap in
    let tail = h.last_chunk bucket in
    let linked =
      if tail == 0
      then record h { first_chunk = update h.first_chunk bucket r.first }
      else record h { next = update h.next tail r.first; prev = update h.prev r.first tail } in
    record linked { last_chunk = update linked.last_chunk bucket r.last }

unfoldable pub append_chunk : ℕ → ℕ → SmallHeap → SmallHeap
append_chunk bucket chunk h =
    let tail = h.last_chunk bucket in
    let ended = update h.next chunk 0 in
    let linked =
      if tail == 0
      then record h { next = ended; first_chunk = update h.first_chunk bucket chunk }
      else record h { next = update ended tail chunk; prev = update h.prev chunk tail } in
    record linked { last_chunk = update linked.last_chunk bucket chunk }

-- The loop over the rest of the page, in front: on fuel, a round for each lower bucket.
unfoldable pub carve_front : ℕ → ℕ → ℕ → ℕ → ℕ → SmallHeap → SmallHeap
carve_front zero page slots_per_chunk cur_offset bucket h = h
carve_front (suc n) page slots_per_chunk cur_offset bucket h =
    let slots = slots_per_chunk / 2 in
    let offset = cur_offset - slots in
    let rest =
      carve_front n page slots offset (bucket - 1)
        (append_chunk (bucket - 1) (chunk_at page offset) h) in
    if cur_offset == 0 then h else rest

unfoldable pub init_chunk_page : ℕ → ℕ → SmallHeap → SmallHeap
init_chunk_page page bucket h =
    let chunk_size = small_bucket_size bucket in
    let slots_per_chunk = chunk_size / small_bucket_size 0 in
    let row = carve_chunks (4088 / chunk_size) page slots_per_chunk (record {
      heap = record h { main_bucket = update h.main_bucket page bucket };
      cur_offset = 511;
      first = 0;
      last = 0;
    }) in
    carve_front bucket page slots_per_chunk row.cur_offset bucket (link_row bucket row)

-- The first chunk of the bucket.
unfoldable pub pop_chunk : ℕ → SmallHeap → ℕ × SmallHeap
pop_chunk bucket h =
    let chunk = h.first_chunk bucket in
    let rest = h.next chunk in
    let popped = record h { first_chunk = update h.first_chunk bucket rest } in
    (
      chunk,
      if rest == 0
          then record popped { last_chunk = update h.last_chunk bucket 0 }
          else record popped { prev = update h.prev rest 0 },
    )

-- k_rt_SmallAlloc: the chunk, or NULL.
unfoldable pub small_alloc : ℕ → ℕ → SmallHeap → ℕ × SmallHeap
small_alloc page size h =
    let bucket = small_bucket_index_from_size size in
    let filled = if h.first_chunk bucket == 0 then init_chunk_page page bucket h else h in
    if bucket == 0xffffffff then (0, h) else pop_chunk bucket filled

-- The bucket to which a chunk goes back.
unfoldable pub bucket_of : Array ℕ → ℕ → ℕ
bucket_of main_bucket chunk =
    let page = chunk / 4096 * 4096 in
    let bucket = small_bucket_index_from_size (chunk - page) in
    if ltb (main_bucket page) bucket then main_bucket page else bucket

unfoldable pub push_chunk : ℕ → ℕ → SmallHeap → SmallHeap
push_chunk bucket chunk h =
    let rest = h.first_chunk bucket in
    let pushed = record h {
      next = update h.next chunk rest;
      prev = update h.prev chunk 0;
      first_chunk = update h.first_chunk bucket chunk;
    } in
    if rest == 0
    then record pushed { last_chunk = update h.last_chunk bucket chunk }
    else record pushed { prev = update pushed.prev rest chunk }

-- k_rt_SmallFree
unfoldable pub small_free : ℕ → SmallHeap → SmallHeap
small_free chunk h = push_chunk (bucket_of h.main_bucket chunk) chunk h
