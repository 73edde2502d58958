-- ===== src/Mem/Ranges/Moves.antt =====
-- The two loops that move ranges, and the search for a place among the used ones.
use native.Mathlib.Decide.{ℕ_discrete}
use dogg_os.Base.{
  ℕ, zero, suc, ◌+◌, ◌-◌, ◌≤◌, ◌<◌, ◌≡◌, refl, ◌∙◌, ◌&&◌, ltb, leb, if◌then◌else◌, Array, update,
  arith, Bool-cases, inl, inr, true, false,
}
use dogg_os.Mem.Ranges.{Range, move_up, move_down, first_from}

-- Each range above the lowest place moves up by one.
pub move_up-at :
    (n last : ℕ) (ranges : Array Range) (j : ℕ)
    → n ≤ last
    → move_up n last ranges j
      ≡ (if ltb (last - n) j && leb j last then ranges (j - 1) else ranges j)
unfolding move_up
move_up-at zero last ranges j h = ground arith
move_up-at (suc n) last ranges j h =
    move_up-at n (last - 1) (update ranges last (ranges (last - 1))) j (omega arith)
    ∙ elim (ℕ_discrete j last) [ yes e ↦ rw e (ground arith) | no ne ↦ ground arith ]

-- Each of the ranges from the first place on takes what stood one place above.
pub move_down-at :
    (n first : ℕ) (ranges : Array Range) (j : ℕ)
    → move_down n first ranges j
      ≡ (if leb first j && ltb j (first + n) then ranges (j + 1) else ranges j)
unfolding move_down
move_down-at zero first ranges j = ground arith
move_down-at (suc n) first ranges j =
    move_down-at n (first + 1) (update ranges first (ranges (first + 1))) j
    ∙ elim (ℕ_discrete j first) [ yes e ↦ rw e (ground arith) | no ne ↦ ground arith ]

-- The search stops at the first range that starts at the page or behind.
pub first_from-at :
    (n index page k : ℕ) (ranges : Array Range)
    → index ≤ k
    → k < index + n
    → ((j : ℕ) → index ≤ j → j < k → (ranges j).start < page)
    → page ≤ (ranges k).start
    → first_from n index page ranges ≡ k
unfolding first_from
first_from-at zero index page k ranges le lt before there = absurd (omega arith)
first_from-at (suc n) index page k ranges le lt before there = elim (ℕ_discrete index k) [
  | yes e ↦ let stop : leb page (ranges k).start ≡ true = ground arith in rw (e, stop) refl
  | no ne ↦
      let earlier : (ranges index).start < page = before index (omega arith) (omega arith) in
      let go_on : leb page (ranges index).start ≡ false = ground arith in
      rw go_on (
        first_from-at n (index + 1) page k ranges (omega arith) (omega arith)
          (λ j a b. before j (omega arith) b) there)
]

-- The place that is found lies in the array, all before it start earlier, and what is there starts
-- at the page or behind.
pub first_from-lem :
    (n index page : ℕ) (ranges : Array Range)
    → (index ≤ first_from n index page ranges)
      × (first_from n index page ranges ≤ index + n)
      × ((j : ℕ) → index ≤ j → j < first_from n index page ranges → (ranges j).start < page)
      × (first_from n index page ranges < index + n
          → page ≤ (ranges (first_from n index page ranges)).start)
unfolding first_from
first_from-lem zero index page ranges =
    (omega arith, omega arith, λ j a b. absurd (omega arith), λ h. absurd (omega arith))
first_from-lem (suc n) index page ranges = elim (Bool-cases (leb page (ranges index).start)) [
  | inl here ↦ rw here (omega arith, omega arith, λ j a b. absurd (omega arith), λ h. ground arith)
  | inr later ↦
      let (least, most, before, there) = first_from-lem n (index + 1) page ranges in
      rw later (
        omega arith,
        omega arith,
        λ j a b. elim (ℕ_discrete j index) [
          | yes e ↦ rw e (start-lt index later)
          | no ne ↦ before j (omega arith) b
        ],
        λ h. there (omega arith),
      )
]
  where
    start-lt : (i : ℕ) → leb page (ranges i).start ≡ false → (ranges i).start < page
    start-lt i h = ground arith
