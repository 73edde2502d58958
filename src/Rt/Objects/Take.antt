-- ===== src/Rt/Objects/Take.antt =====
-- k_rt_AllocObjListElement hands out an element that is not in use.
use native.Mathlib.Decide.{ℕ_discrete}
use dogg_os.Base.{
  ℕ, zero, suc, ◌+◌, ◌*◌, ◌%◌, ◌^◌, length, ◌<◌, ◌≡◌, ◌≢◌, refl, Bool, true, false, List, [], ◌∷◌,
  some, Bool-cases, inl, inr, ◌==◌, if◌then◌else◌, ltb, ◌&&◌, not, Array, arith, and-false,
}
use dogg_os.Rt.Objects.{ObjectList, Memory, no_index, add_buffer, advance, alloc_element}
use dogg_os.Rt.Objects.Live.{
  member, distinct_below, stack_list, free_list, is_live, IsListed, distinct_below-cons,
}

-- What an allocation has done: the element was not in use and is now, and nothing else changed.
pub record IsAllocated (l l' : ObjectList) (index : ℕ) : Type 0 where
  pub was_free : is_live l index ≡ false
  pub others : (j : ℕ) → is_live l' j ≡ (if j == index then true else is_live l j)
  pub now_listed : IsListed l'

ne_false : (i j : ℕ) → i ≢ j → (i == j) ≡ false
ne_false i j ne = ground arith

eq_true : (i : ℕ) → (i == i) ≡ true
eq_true i = ground arith

was_free-member : (n i : ℕ) (xs : List ℕ) → (ltb i n && not (member i (i ∷ xs))) ≡ false
unfolding member
was_free-member n i xs = rw (eq_true i) (and-false (ltb i n))

live-pop :
    (n i j : ℕ) (rest : List ℕ)
    → distinct_below n (i ∷ rest) ≡ true
    → (ltb j n && not (member j rest))
      ≡ (if j == i then true else ltb j n && not (member j (i ∷ rest)))
unfolding member
live-pop n i j rest e =
    let (below, outside, others) = distinct_below-cons n i rest e in
    elim (ℕ_discrete j i) [
      | yes same ↦ rw (same, eq_true i, below, outside) refl
      | no ne ↦ rw (ne_false j i ne) refl
    ]

-- An index comes off the free list.
pop-IsAllocated :
    (l l' : ObjectList) (index : ℕ) (rest : List ℕ)
    → IsListed l
    → free_list l ≡ index ∷ rest
    → free_list l' ≡ rest
    → l'.cursor ≡ l.cursor
    → l'.used ≡ l.used + 1
    → l'.has_buffers ≡ true
    → l'.buffer_size * l'.buffer_count ≡ l.buffer_size * l.buffer_count
    → l'.free_stack_top < 2 ^ 32
    → IsAllocated l l' index
pop-IsAllocated l l' index rest h before after same_cursor one_more has same_room top =
    let listed : distinct_below l.cursor (index ∷ rest) ≡ true = rw before at h.listed in
    let counted : l.used + suc (length rest) ≡ l.cursor = rw before at h.counted in
    let (below, outside, others) = distinct_below-cons l.cursor index rest listed in
    record {
      was_free = rw before (was_free-member l.cursor index rest);
      others = λ j. rw (before, after, same_cursor) (live-pop l.cursor index j rest listed);
      now_listed = record {
        allocated = has;
        listed = rw (after, same_cursor) others;
        counted = rw (after, same_cursor, one_more) (omega arith);
        room = rw (same_cursor, same_room) h.room;
        small = rw same_room h.small;
        top_small = top;
      };
    }

live-advance : (n j : ℕ) → ltb j (n + 1) ≡ (if j == n then true else ltb j n)
live-advance n j = ground arith

and-true : (b : Bool) → (b && true) ≡ b
and-true true = refl
and-true false = refl

-- A new index is taken where no index is free.
fresh-IsAllocated :
    (l l' : ObjectList)
    → IsListed l
    → free_list l ≡ []
    → free_list l' ≡ []
    → l'.cursor ≡ l.cursor + 1
    → l'.used ≡ l.used + 1
    → l'.has_buffers ≡ true
    → l'.cursor < l'.buffer_size * l'.buffer_count
    → l'.buffer_size * l'.buffer_count < 2 ^ 32
    → l'.free_stack_top < 2 ^ 32
    → IsAllocated l l' l.cursor
unfolding member distinct_below
fresh-IsAllocated l l' h before after next_cursor one_more has room small top =
    let counted : l.used + 0 ≡ l.cursor = rw before at h.counted in
    let end : ltb l.cursor l.cursor ≡ false = ground arith in
    record {
      was_free = rw end refl;
      others = λ j.
          rw
            (before, after, next_cursor, and-true (ltb j (l.cursor + 1)), and-true (ltb j l.cursor))
            (live-advance l.cursor j);
      now_listed = record {
        allocated = has;
        listed = rw after refl;
        counted = rw (after, next_cursor, one_more) (omega arith);
        room = room;
        small = small;
        top_small = top;
      };
    }

mul-suc : (a b : ℕ) → a * (b + 1) ≡ a * b + a
mul-suc a b = omega arith

pos-left : (a b n : ℕ) → n < a * b → 0 < a
pos-left zero b n lt = absurd (omega arith)
pos-left (suc a) b n lt = omega arith

advance-IsAllocated :
    (memory : Memory) (l : ObjectList)
    → IsListed l
    → free_list l ≡ []
    → free_list (advance memory l) ≡ []
    → l.buffer_size * (l.buffer_count + 1) < 2 ^ 32
    → IsAllocated l (advance memory l) l.cursor
unfolding advance add_buffer
advance-IsAllocated memory l h before after small =
    elim (Bool-cases (l.cursor + 1 == l.buffer_size * l.buffer_count)) [
      | inl full ↦
          let sum = mul-suc l.buffer_size l.buffer_count in
          let pos = pos-left l.buffer_size l.buffer_count l.cursor h.room in
          let room = h.room in
          rw full (
            fresh-IsAllocated l
              (add_buffer memory 1 (record l { cursor = l.cursor + 1; used = l.used + 1 })) h before
              (rw full at after) refl refl refl (ground arith) small h.top_small)
      | inr free ↦
          let room = h.room in
          rw free (
            fresh-IsAllocated l (record l { cursor = l.cursor + 1; used = l.used + 1 }) h before
              (rw free at after) refl refl h.allocated (ground arith) h.small h.top_small)
    ]

-- advance leaves the free list empty.
advance-chain :
    (memory : Memory) (l : ObjectList)
    → l.preserve_free ≡ false
    → l.next_free ≡ []
    → free_list (advance memory l) ≡ []
unfolding advance add_buffer
advance-chain memory l p e = elim (Bool-cases (l.cursor + 1 == l.buffer_size * l.buffer_count)) [
  | inl full ↦ rw (full, p) e
  | inr free ↦ rw (free, p) e
]

advance-stack :
    (memory : Memory) (l : ObjectList)
    → l.preserve_free ≡ true
    → l.free_stack_top ≡ no_index
    → free_list (advance memory l) ≡ []
unfolding advance add_buffer stack_list
advance-stack memory l p e = elim (Bool-cases (l.cursor + 1 == l.buffer_size * l.buffer_count)) [
  | inl full ↦ rw (full, p, e) refl
  | inr free ↦ rw (free, p, e) refl
]

stack-top :
    (top : ℕ) (stack : Array ℕ)
    → top < 2 ^ 32
    → top ≢ no_index
    → stack_list ((top + 1) % 2 ^ 32) stack
      ≡ stack top ∷ stack_list (((top + no_index) % 2 ^ 32 + 1) % 2 ^ 32) stack
unfolding stack_list
stack-top top stack small ne =
    let count : (top + 1) % 2 ^ 32 ≡ suc top = omega arith in
    let below : ((top + no_index) % 2 ^ 32 + 1) % 2 ^ 32 ≡ top = omega arith in
    rw (count, below) refl

-- What k_rt_AllocObjListElement does on a list in order.
abbrev pub Allocates : Memory → ObjectList → Type 0
Allocates memory l =
    (index : ℕ) × (l' : ObjectList) × (alloc_element memory l ≡ (some index, l'))
    × IsAllocated l l' index

alloc_chain :
    (memory : Memory) (l : ObjectList) (xs : List ℕ)
    → IsListed l
    → l.buffer_size * (l.buffer_count + 1) < 2 ^ 32
    → l.preserve_free ≡ false
    → l.next_free ≡ xs
    → Allocates memory l
unfolding alloc_element
alloc_chain memory l [] h small p e =
    let nothing : free_list l ≡ [] = rw p e in
    (
      l.cursor,
      advance memory l,
      rw (h.allocated, p, e) refl,
      advance-IsAllocated memory l h nothing (advance-chain memory l p e) small,
    )
alloc_chain memory l (index ∷ rest) h small p e =
    let l' = record l { next_free = rest; used = l.used + 1 } in
    (
      index,
      l',
      rw (h.allocated, p, e) refl,
      pop-IsAllocated l l' index rest h (rw p e) (rw p refl) refl refl h.allocated refl h.top_small,
    )

alloc_stack :
    (memory : Memory) (l : ObjectList)
    → IsListed l
    → l.buffer_size * (l.buffer_count + 1) < 2 ^ 32
    → l.preserve_free ≡ true
    → Allocates memory l
unfolding alloc_element stack_list
alloc_stack memory l h small p = elim (Bool-cases (l.free_stack_top == no_index)) [
  | inl is_empty ↦
      let top : l.free_stack_top ≡ no_index = ground arith in
      let nothing : free_list l ≡ [] = rw (p, top) refl in
      (
        l.cursor,
        advance memory l,
        rw (h.allocated, p, is_empty) refl,
        advance-IsAllocated memory l h nothing (advance-stack memory l p top) small,
      )
  | inr holds ↦
      let ne : l.free_stack_top ≢ no_index = λ e. ground arith in
      let l' = record l {
        free_stack_top = (l.free_stack_top + no_index) % 2 ^ 32;
        used = l.used + 1;
      } in
      let rest = stack_list (((l.free_stack_top + no_index) % 2 ^ 32 + 1) % 2 ^ 32) l.free_stack in
      (
        l.free_stack l.free_stack_top,
        l',
        rw (h.allocated, p, holds) refl,
        pop-IsAllocated l l' (l.free_stack l.free_stack_top) rest h
            (rw p (stack-top l.free_stack_top l.free_stack h.top_small ne)) (rw p refl) refl refl
            h.allocated refl (omega arith),
      )
]

-- On a list in order, with room for one more buffer, k_rt_AllocObjListElement succeeds: it hands out an
-- element that is not in use, which is in use then; no other changes, and the list stays in order.
pub alloc_element-IsAllocated :
    (memory : Memory) (l : ObjectList)
    → IsListed l
    → l.buffer_size * (l.buffer_count + 1) < 2 ^ 32
    → Allocates memory l
alloc_element-IsAllocated memory l h small = elim (Bool-cases l.preserve_free) [
  | inl keeps ↦ alloc_stack memory l h small keeps
  | inr chains ↦ alloc_chain memory l l.next_free h small chains refl
]
