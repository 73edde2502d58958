-- ===== src/Rt/Objects/Tests.antt =====
-- Runs of an object list, and the examples of the theorems on it.
use dogg_os.Base.{◌+◌, ◌*◌, ◌≡◌, refl, Bool, true, false, [], some, arith}
use dogg_os.Rt.Objects.{
  ObjectList, Memory, no_index, add_buffer, create_list, advance, alloc_element, get_element,
}
use dogg_os.Rt.Objects.Live.{distinct_below, stack_list, IsListed}
use dogg_os.Rt.Objects.Create.{IsCreated, create_list-IsCreated}
use dogg_os.Rt.Objects.Take.{Allocates, alloc_element-IsAllocated}

-- Two elements of 16 bytes to a buffer; one has been handed out.
abbrev objects : Bool → ObjectList
objects preserve = record {
  elem_size = 16;
  buffer_size = 2;
  buffer_count = 1;
  cursor = 1;
  used = 1;
  has_buffers = true;
  buffers = λ i. 4096 * (i + 1);
  preserve_free = preserve;
  free_stack_top = no_index;
  free_stack = λ i. 0;
  next_free = [];
}

abbrev memory : Memory
memory = record { buffer_address = λ i. 8192; stack_words = λ i. 0 }

objects-IsListed : (preserve : Bool) → IsListed (objects preserve)
unfolding distinct_below stack_list
objects-IsListed true = record {
  allocated = refl;
  listed = refl;
  counted = refl;
  room = omega arith;
  small = omega arith;
  top_small = omega arith;
}
objects-IsListed false = record {
  allocated = refl;
  listed = refl;
  counted = refl;
  room = omega arith;
  small = omega arith;
  top_small = omega arith;
}

-- The second element fills the buffer, and another is added.
grows : (alloc_element memory (objects true)).1.buffer_count ≡ 2
unfolding alloc_element advance add_buffer
grows = refl

-- The second element of the second buffer.
addressed : get_element (record (objects true) { cursor = 4; buffer_count = 3 }) 3 ≡ some 8208
unfolding get_element
addressed = refl

alloc_element-IsAllocated_example : Allocates memory (objects true)
alloc_element-IsAllocated_example =
    alloc_element-IsAllocated memory (objects true) (objects-IsListed true) (omega arith)

create_list-IsCreated_example : IsCreated (create_list memory 16 2 true false)
create_list-IsCreated_example =
    create_list-IsCreated memory 16 2 false (omega arith) (omega arith) (omega arith)
