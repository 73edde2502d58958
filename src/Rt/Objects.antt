-- ===== src/Rt/Objects.antt =====
-- kernel/rt/objlist.c: lists of objects that are addressed by index.
--
-- A freed index is kept in a stack of indices (preserve_free), or in a chain through the freed elements
-- themselves, which is the list of the indices they hold. The addresses of new memory are arguments.
pub mod Live
pub mod Count
pub mod Create
pub mod Take
pub mod Return
mod Tests
use dogg_os.Base.{
  ℕ, zero, suc, ◌+◌, ◌-◌, ◌*◌, ◌/◌, ◌%◌, ◌^◌, Bool, true, false, List, [], ◌∷◌, Option, none, some,
  ◌==◌, if◌then◌else◌, ltb, ◌&&◌, not, Array, update,
}

-- struct k_rt_objlist_t. has_buffers says that `buffers` is not NULL.
pub record ObjectList : Type 0 where
  pub elem_size : ℕ
  pub buffer_size : ℕ
  pub buffer_count : ℕ
  pub cursor : ℕ
  pub used : ℕ
  pub has_buffers : Bool
  pub buffers : Array ℕ
  pub preserve_free : Bool
  pub free_stack_top : ℕ
  pub free_stack : Array ℕ
  pub next_free : List ℕ

-- What the allocator returns: the address for each new buffer, and what the memory of a new stack holds.
pub record Memory : Type 0 where
  pub buffer_address : Array ℕ
  pub stack_words : Array ℕ

abbrev pub no_index : ℕ
no_index = 0xffffffff

-- The loop of k_rt_AddObjListBuffer.
unfoldable pub fill : ℕ → ℕ → Array ℕ → Array ℕ → Array ℕ
fill zero index address buffers = buffers
fill (suc n) index address buffers =
    fill n (index + 1) address (update buffers index (address index))

-- k_rt_AddObjListBuffer with a count that is not 0. The contents of an old stack are not copied.
unfoldable pub add_buffer : Memory → ℕ → ObjectList → ObjectList
add_buffer memory count l = record l {
  has_buffers = true;
  buffers = fill count l.buffer_count memory.buffer_address l.buffers;
  free_stack = if l.preserve_free then memory.stack_words else l.free_stack;
  buffer_count = l.buffer_count + count;
}

-- k_rt_CreateObjList; sizeof(struct k_rt_objlist_t) is 40. The list that is all zero has no buffers.
abbrev pub no_list : ObjectList
no_list = record {
  elem_size = 0;
  buffer_size = 0;
  buffer_count = 0;
  cursor = 0;
  used = 0;
  has_buffers = false;
  buffers = λ i. 0;
  preserve_free = false;
  free_stack_top = 0;
  free_stack = λ i. 0;
  next_free = [];
}

unfoldable pub create_list : Memory → ℕ → ℕ → Bool → Bool → ObjectList
create_list memory elem_size buffer_size has_heap preserve =
    let size = if not preserve && ltb elem_size 40 then 40 else elem_size in
    let l = record no_list {
      elem_size = size;
      buffer_size = buffer_size;
      preserve_free = preserve;
      free_stack_top = if preserve then no_index else 0;
    } in
    if not (elem_size == 0) && (not (buffer_size == 0) && has_heap)
    then add_buffer memory 1 l
    else no_list

-- k_rtl_DestroyObjList
unfoldable pub destroy_list : ObjectList → ObjectList
destroy_list l =
    if l.has_buffers
    then record l {
      preserve_free = false;
      has_buffers = false;
      buffer_size = 0;
      buffer_count = 0;
      cursor = 0;
      used = 0;
      elem_size = 0;
    }
    else l

-- The last branch of k_rt_AllocObjListElement.
unfoldable pub advance : Memory → ObjectList → ObjectList
advance memory l =
    let next = record l { cursor = l.cursor + 1; used = l.used + 1 } in
    if l.cursor + 1 == l.buffer_size * l.buffer_count then add_buffer memory 1 next else next

-- Its branches: are there buffers, is the stack in use, is the stack empty, and the chain.
abbrev pub allocate : Memory → ObjectList → Bool → Bool → Bool → List ℕ → Option ℕ × ObjectList
allocate memory l false preserve no_free chain = (none, l)
allocate memory l true true false chain = (
  some (l.free_stack l.free_stack_top),
  record l { free_stack_top = (l.free_stack_top + no_index) % 2 ^ 32; used = l.used + 1 },
)
allocate memory l true true true chain = (some l.cursor, advance memory l)
allocate memory l true false no_free (index ∷ rest) =
    (some index, record l { next_free = rest; used = l.used + 1 })
allocate memory l true false no_free [] = (some l.cursor, advance memory l)

-- k_rt_AllocObjListElement; none is 0xffffffff.
unfoldable pub alloc_element : Memory → ObjectList → Option ℕ × ObjectList
alloc_element memory l =
    allocate memory l l.has_buffers l.preserve_free (l.free_stack_top == no_index) l.next_free

-- k_rt_GetObjListElement; none is NULL.
unfoldable pub get_element : ObjectList → ℕ → Option ℕ
get_element l index =
    if l.has_buffers && ltb index l.cursor
    then some (l.buffers (index / l.buffer_size) + index % l.buffer_size * l.elem_size)
    else none

abbrev pub keep : ObjectList → ℕ → Bool → ObjectList
keep l index true = record l {
  free_stack_top = (l.free_stack_top + 1) % 2 ^ 32;
  free_stack = update l.free_stack ((l.free_stack_top + 1) % 2 ^ 32) index;
  used = l.used - 1;
}
keep l index false = record l { next_free = index ∷ l.next_free; used = l.used - 1 }

abbrev pub release : ObjectList → ℕ → Option ℕ → ObjectList
release l index none = l
release l index (some element) = keep l index l.preserve_free

-- k_rt_FreeObjListElement, where `used` is not 0.
unfoldable pub free_element : ObjectList → ℕ → ObjectList
free_element l index = release l index (get_element l index)
