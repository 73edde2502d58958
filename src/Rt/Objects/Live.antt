-- ===== src/Rt/Objects/Live.antt =====
-- The elements of an object list that are in use, and the invariant.
use dogg_os.Base.{
  ℕ, zero, suc, ◌+◌, ◌*◌, ◌%◌, ◌^◌, length, ◌≤◌, ◌<◌, ◌≡◌, refl, sym, ap, Bool, true, false, List,
  [], ◌∷◌, Bool-cases, inl, inr, ◌==◌, if◌then◌else◌, ltb, ◌&&◌, ◌||◌, not, Array, update,
  update_other, arith, ltb→lt, lt→ltb, true-ne-false,
}
use dogg_os.Rt.Objects.{ObjectList}

unfoldable pub member : ℕ → List ℕ → Bool
member i [] = false
member i (x ∷ xs) = (i == x) || member i xs

-- No index is there twice, and all are below the bound.
unfoldable pub distinct_below : ℕ → List ℕ → Bool
distinct_below n [] = true
distinct_below n (x ∷ xs) = ltb x n && (not (member x xs) && distinct_below n xs)

-- The stack of `n` indices, the last first.
unfoldable pub stack_list : ℕ → Array ℕ → List ℕ
stack_list zero stack = []
stack_list (suc n) stack = stack n ∷ stack_list n stack

abbrev pub free_list : ObjectList → List ℕ
free_list l =
    if l.preserve_free
    then stack_list ((l.free_stack_top + 1) % 2 ^ 32) l.free_stack
    else l.next_free

-- Element `index` has been allocated and not freed since.
abbrev pub is_live : ObjectList → ℕ → Bool
is_live l index = ltb index l.cursor && not (member index (free_list l))

-- The indices in the free list are different and were all handed out, `used` counts the others, and
-- there is room for one more element.
pub record IsListed (l : ObjectList) : Type 0 where
  pub allocated : l.has_buffers ≡ true
  pub listed : distinct_below l.cursor (free_list l) ≡ true
  pub counted : l.used + length (free_list l) ≡ l.cursor
  pub room : l.cursor < l.buffer_size * l.buffer_count
  pub small : l.buffer_size * l.buffer_count < 2 ^ 32
  pub top_small : l.free_stack_top < 2 ^ 32

pub stack_list-update :
    (n i v : ℕ) (stack : Array ℕ) → n ≤ i → stack_list n (update stack i v) ≡ stack_list n stack
unfolding stack_list
stack_list-update zero i v stack le = refl
stack_list-update (suc n) i v stack le =
    rw (update_other stack i v n (λ e. omega arith), stack_list-update n i v stack (omega arith))
      refl

pub length-stack_list : (n : ℕ) (stack : Array ℕ) → length (stack_list n stack) ≡ n
unfolding stack_list
length-stack_list zero stack = refl
length-stack_list (suc n) stack = ap suc (length-stack_list n stack)

pub and-cases : (a b : Bool) → (a && b) ≡ true → (a ≡ true) × (b ≡ true)
and-cases true b e = (refl, e)
and-cases false b e = absurd (true-ne-false (sym e))

pub distinct_below-cons :
    (n x : ℕ) (xs : List ℕ)
    → distinct_below n (x ∷ xs) ≡ true
    → (ltb x n ≡ true) × (member x xs ≡ false) × (distinct_below n xs ≡ true)
unfolding distinct_below
distinct_below-cons n x xs e = elim (Bool-cases (member x xs)) [
  | inl inside ↦
      let (below, rest) = and-cases (ltb x n) (not (member x xs) && distinct_below n xs) e in
      absurd (true-ne-false (sym (rw inside at rest)))
  | inr outside ↦
      let (below, rest) = and-cases (ltb x n) (not (member x xs) && distinct_below n xs) e in
      (below, outside, rw outside at rest)
]

-- A bound may be raised, and an index at the bound is not in the list.
pub distinct_below-suc :
    (n : ℕ) (xs : List ℕ) → distinct_below n xs ≡ true → distinct_below (n + 1) xs ≡ true
unfolding distinct_below
distinct_below-suc n [] e = refl
distinct_below-suc n (x ∷ xs) e =
    let (below, outside, rest) = distinct_below-cons n x xs e in
    let lt = ltb→lt x n below in
    let raised : ltb x (n + 1) ≡ true = lt→ltb x (n + 1) (omega arith) in
    rw (raised, outside, distinct_below-suc n xs rest) refl

pub member-below :
    (n i : ℕ) (xs : List ℕ) → n ≤ i → distinct_below n xs ≡ true → member i xs ≡ false
unfolding member
member-below n i [] le e = refl
member-below n i (x ∷ xs) le e =
    let (below, outside, rest) = distinct_below-cons n x xs e in
    let lt = ltb→lt x n below in
    let differ : (i == x) ≡ false = ground arith in rw (differ, member-below n i xs le rest) refl

pub or_cases : (a b : Bool) → (a || b) ≡ false → (a ≡ false) × (b ≡ false)
or_cases false b e = (refl, e)
or_cases true b e = absurd (true-ne-false e)
