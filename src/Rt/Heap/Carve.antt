-- ===== src/Rt/Heap/Carve.antt =====
-- The chunks of the main bucket of a new page.
use native.Mathlib.Decide.{ℕ_discrete}
use dogg_os.Base.{
  ℕ, zero, suc, ◌+◌, ◌-◌, ◌*◌, ◌≤◌, ◌<◌, ◌≡◌, ◌≢◌, ◌⊎◌, refl, sym, ap, subst, ◌∙◌, true, false,
  List, [], ◌∷◌, ◌==◌, if◌then◌else◌, Array, update, update_self, update_other, arith, inl, inr,
}
use dogg_os.Chain.{count, IsChain, IsChain-update, last_of, count_self, count-cons}
use dogg_os.Rt.Heap.Place.{IsHome, IsMultiple, IsMultiple-minus}
use dogg_os.Rt.Heap.{SmallHeap, Row, chunk_at, carve_chunk, carve_chunks, link_row}
use dogg_os.Rt.Heap.Chunks.{IsHeap, put, IsHeap-put, not_first, first_other, count-le-one}

-- A row of chunks on a page, from the offset `cur_offset` on.
pub record IsRow (h : SmallHeap) (page slots : ℕ) (r : Row) (xs : List ℕ) : Type 0 where
  pub end_aligned : IsMultiple (8 * slots) (chunk_at page r.cur_offset)
  pub aligned : (z : ℕ) → 1 ≤ count z xs → IsMultiple (8 * slots) z
  pub chain : IsChain r.heap.next r.first xs
  pub ending : r.last ≡ last_of 0 xs
  pub inside : (z : ℕ) → 1 ≤ count z xs → (chunk_at page r.cur_offset ≤ z) × (z < page + 4096)
  pub once : (z : ℕ) → count z xs ≤ 1
  pub carved : r.cur_offset < 511 → 1 ≤ count r.first xs
  pub outside : (z : ℕ) → (z < page) ⊎ (page + 4096 ≤ z) → r.heap.next z ≡ h.next z
  pub first_chunk : r.heap.first_chunk ≡ h.first_chunk
  pub last_chunk : r.heap.last_chunk ≡ h.last_chunk
  pub main_bucket : r.heap.main_bucket ≡ h.main_bucket

below_all :
    (chunk page offset : ℕ) (xs : List ℕ)
    → ((z : ℕ) → 1 ≤ count z xs → chunk_at page offset ≤ z)
    → chunk < chunk_at page offset
    → count chunk xs ≡ 0
below_all chunk page offset xs above lt = elim (ℕ_discrete (count chunk xs) 0) [
  | yes none ↦ none
  | no some ↦ absurd (let le = above chunk (omega arith) in omega arith)
]

last_row :
    (next : Array ℕ) (first last chunk : ℕ) (xs : List ℕ)
    → IsChain next first xs
    → last ≡ last_of 0 xs
    → (if first == 0 then chunk else last) ≡ last_of 0 (chunk ∷ xs)
unfolding last_of
last_row next first last chunk [] c e =
    let none : (first == 0) ≡ true = ground arith in rw none refl
last_row next first last chunk (x ∷ xs) (is, some, rest) e =
    let there : (first == 0) ≡ false = ground arith in rw there e

last_nil : last_of 0 [] ≡ 0
unfolding last_of
last_nil = refl

carved_offset :
    (page slots : ℕ) (r : Row) → (carve_chunk page slots r).cur_offset ≡ r.cur_offset - slots
unfolding carve_chunk
carved_offset page slots r = refl

carve_chunk-IsRow :
    (h : SmallHeap) (page slots : ℕ) (r : Row) (xs : List ℕ)
    → IsRow h page slots r xs
    → 0 < slots
    → slots ≤ r.cur_offset
    → r.cur_offset ≤ 511
    → IsRow h page slots (carve_chunk page slots r) (chunk_at page (r.cur_offset - slots) ∷ xs)
unfolding carve_chunk
carve_chunk-IsRow h page slots r xs row pos le small =
    let chunk : ℕ = chunk_at page (r.cur_offset - slots) in
    let none : count chunk xs ≡ 0 =
      below_all chunk page r.cur_offset xs (λ z has. (row.inside z has).0) (omega arith) in
    let even : IsMultiple (8 * slots) chunk =
      IsMultiple-minus (8 * slots) chunk (chunk_at page r.cur_offset) (omega arith) (omega arith)
        row.end_aligned in
    record {
      end_aligned = even;
      aligned = λ z has. elim (ℕ_discrete z chunk) [
        | yes same ↦ subst (IsMultiple (8 * slots)) (sym same) even
        | no other ↦ row.aligned z (not_first z chunk xs other has)
      ];
      chain = (
        refl,
        (λ e. absurd (omega arith)),
        subst (λ f. IsChain (update r.heap.next chunk r.first) f xs)
            (sym (update_self r.heap.next chunk r.first))
            (IsChain-update r.heap.next r.first chunk r.first xs none row.chain),
      );
      ending = last_row r.heap.next r.first r.last chunk xs row.chain row.ending;
      inside = λ z has. elim (ℕ_discrete z chunk) [
        | yes same ↦ (omega arith, omega arith)
        | no other ↦
            let (low, high) = row.inside z (not_first z chunk xs other has) in (omega arith, high)
      ];
      once = λ z. elim (ℕ_discrete z chunk) [
        | yes same ↦
            let out : count z xs ≡ 0 = ap (λ w. count w xs) same ∙ none in
            omega (arith, out, count-cons z chunk xs, count-le-one z chunk)
        | no other ↦ first_other z chunk xs other (row.once z)
      ];
      carved = λ lt. omega (arith, count_self chunk xs);
      outside = λ z away.
          update_other r.heap.next chunk r.first z (elsewhere z away) ∙ row.outside z away;
      first_chunk = row.first_chunk;
      last_chunk = row.last_chunk;
      main_bucket = row.main_bucket;
    }
  where
    elsewhere : (z : ℕ) → (z < page) ⊎ (page + 4096 ≤ z) → z ≢ chunk_at page (r.cur_offset - slots)
    elsewhere z (inl low) e = absurd (omega arith)
    elsewhere z (inr high) e = absurd (omega arith)

-- After n chunks.
pub carve_chunks-IsRow :
    (n : ℕ) (h : SmallHeap) (page slots : ℕ) (r : Row) (xs : List ℕ)
    → IsRow h page slots r xs
    → 0 < slots
    → n * slots ≤ r.cur_offset
    → r.cur_offset ≤ 511
    → (ys : List ℕ) × IsRow h page slots (carve_chunks n page slots r) ys
      × ((carve_chunks n page slots r).cur_offset + n * slots ≡ r.cur_offset)
unfolding carve_chunks
carve_chunks-IsRow zero h page slots r xs row pos le small = (xs, row, omega arith)
carve_chunks-IsRow (suc n) h page slots r xs row pos le small =
    let next : suc n * slots ≡ slots + n * slots = ground arith in
    let moved = carved_offset page slots r in
    let (ys, rest, at) =
      carve_chunks-IsRow n h page slots (carve_chunk page slots r)
        (chunk_at page (r.cur_offset - slots) ∷ xs)
        (carve_chunk-IsRow h page slots r xs row pos (omega arith) small) pos (omega arith)
        (omega arith) in
    (ys, rest, omega arith)

-- The row goes to a bucket that is empty.
pub link_row-IsHeap :
    (h : SmallHeap) (page bucket slots : ℕ) (r : Row) (xs : List ℕ) (chunks : ℕ → List ℕ)
    → IsHeap h chunks
    → bucket < 9
    → chunks bucket ≡ []
    → IsRow h page slots r xs
    → ((j z : ℕ) → j < 9 → 1 ≤ count z (chunks j) → (z < page) ⊎ (page + 4096 ≤ z))
    → ((z : ℕ)
        → chunk_at page r.cur_offset ≤ z
        → z < page + 4096
        → IsMultiple (8 * slots) z
        → IsHome h.main_bucket bucket z)
    → IsHeap (link_row bucket r) (put bucket xs chunks)
      × ((link_row bucket r).main_bucket ≡ h.main_bucket)
unfolding link_row
link_row-IsHeap h page bucket slots r xs chunks whole lt empty row away home =
    let nothing : r.heap.last_chunk bucket ≡ 0 =
      ap (λ (f : Array ℕ). f bucket) row.last_chunk
      ∙ whole.ending bucket lt
      ∙ ap (last_of 0) empty
      ∙ last_nil in
    let test : (r.heap.last_chunk bucket == 0) ≡ true = ground arith in
    rw test (
      IsHeap-put h _ chunks bucket xs whole row.main_bucket
          (λ j z below other has. row.outside z (away j z below has))
          (λ j other. (
            update_other r.heap.first_chunk bucket r.first j other
                ∙ ap (λ (f : Array ℕ). f j) row.first_chunk,
            update_other r.heap.last_chunk bucket r.last j other
                ∙ ap (λ (f : Array ℕ). f j) row.last_chunk,
          ))
          (subst (λ f. IsChain r.heap.next f xs)
            (sym (update_self r.heap.first_chunk bucket r.first)) row.chain)
          (update_self r.heap.last_chunk bucket r.last ∙ row.ending)
          (λ z has. let (low, high) = row.inside z has in home z low high (row.aligned z has))
          row.once,
      row.main_bucket,
    )
