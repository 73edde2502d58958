-- ===== src/Rt/Objects/Create.antt =====
-- k_rt_CreateObjList makes a list in order.
use dogg_os.Base.{ℕ, ◌^◌, ◌<◌, ◌≡◌, refl, Bool, true, false, ◌==◌, ltb, arith}
use dogg_os.Rt.Objects.{ObjectList, Memory, add_buffer, create_list}
use dogg_os.Rt.Objects.Live.{distinct_below, stack_list, is_live, IsListed}

-- A list that k_rt_CreateObjList makes.
pub record IsCreated (l : ObjectList) : Type 0 where
  pub in_order : IsListed l
  pub none_live : (j : ℕ) → is_live l j ≡ false

no_element : (j : ℕ) → ltb j 0 ≡ false
no_element j = ground arith

-- With sizes that are not 0, and a heap, the list is in order, and none of its elements is in use.
pub create_list-IsCreated :
    (memory : Memory) (elem_size buffer_size : ℕ) (preserve : Bool)
    → 0 < elem_size
    → 0 < buffer_size
    → buffer_size < 2 ^ 32
    → IsCreated (create_list memory elem_size buffer_size true preserve)
unfolding create_list add_buffer distinct_below stack_list
create_list-IsCreated memory elem_size buffer_size true pos room small =
    let elem : (elem_size == 0) ≡ false = ground arith in
    let buffer : (buffer_size == 0) ≡ false = ground arith in
    rw (elem, buffer)
      (record {
        in_order = record {
          allocated = refl;
          listed = refl;
          counted = refl;
          room = omega arith;
          small = omega arith;
          top_small = omega arith;
        };
        none_live = λ j. rw (no_element j) refl;
      })
create_list-IsCreated memory elem_size buffer_size false pos room small =
    let elem : (elem_size == 0) ≡ false = ground arith in
    let buffer : (buffer_size == 0) ≡ false = ground arith in
    rw (elem, buffer)
      (record {
        in_order = record {
          allocated = refl;
          listed = refl;
          counted = refl;
          room = omega arith;
          small = omega arith;
          top_small = omega arith;
        };
        none_live = λ j. rw (no_element j) refl;
      })
