-- ===== src/Rt/Text/Search.antt =====
-- k_rt_StrStr against the search that tries every position.
use dogg_os.Base.{
  ℕ, zero, suc, ◌+◌, ◌≤◌, ◌≡◌, ◌≢◌, refl, sym, ◌∙◌, Bool, true, false, ◌&&◌, ◌||◌, List, [], ◌∷◌,
  Option, none, some, length, drop, ◌==◌, Bool-cases, ◌⊎◌, inl, inr, if◌then◌else◌, arith,
}
use dogg_os.Rt.Text.{agree, matched, search, str_str}

-- Whether `s` begins with `t`.
abbrev pub is_prefix : List ℕ → List ℕ → Bool
is_prefix [] s = true
is_prefix (e ∷ t) [] = false
is_prefix (e ∷ t) (c ∷ s) = (c == e) && is_prefix t s

-- The first position, counted from `i`, at which `t` stands in `s`.
unfoldable pub find : ℕ → List ℕ → List ℕ → Option ℕ
find i [] t = none
find i (c ∷ s) t = let rest = find (i + 1) s t in if is_prefix t (c ∷ s) then some i else rest

abbrev pub contains : ℕ → List ℕ → Bool
contains e [] = false
contains e (d ∷ t) = (d == e) || contains e t

abbrev is_empty : List ℕ → Bool
is_empty [] = true
is_empty (d ∷ t) = false

agree-prefix : (s t : List ℕ) → is_empty (agree s t).2 ≡ is_prefix t s
agree-prefix [] [] = refl
agree-prefix [] (e ∷ t) = refl
agree-prefix (c ∷ s) [] = refl
agree-prefix (c ∷ s) (e ∷ t) = elim (Bool-cases (c == e)) [
  | inl same ↦ rw same (agree-prefix s t)
  | inr ne ↦ rw ne
]

agree-length : (s t : List ℕ) → length (agree s t).1 ≤ length s
agree-length [] t = omega arith
agree-length (c ∷ s) [] = omega arith
agree-length (c ∷ s) (e ∷ t) = elim (Bool-cases (c == e)) [
  | inl same ↦ rw same (omega (arith, agree-length s t))
  | inr ne ↦ rw ne (omega arith)
]

agree-drop : (s t : List ℕ) → (agree s t).1 ≡ drop (agree s t).0 s
agree-drop [] t = refl
agree-drop (c ∷ s) [] = refl
agree-drop (c ∷ s) (e ∷ t) = elim (Bool-cases (c == e)) [
  | inl same ↦ rw same (agree-drop s t)
  | inr ne ↦ rw ne
]

-- No occurrence starts at a byte that is not the first one of the needle.
find-agree :
    (s t u : List ℕ) (e i j : ℕ)
    → contains e t ≡ false
    → i + (agree s t).0 ≡ j
    → find i s (e ∷ u) ≡ find j (agree s t).1 (e ∷ u)
unfolding find
find-agree [] t u e i j absent at_j = refl
find-agree (c ∷ s) [] u e i j absent at_j = let same : i ≡ j = omega arith in rw same
find-agree (c ∷ s) (d ∷ t) u e i j absent at_j = elim (Bool-cases (c == d)) [
  | inr ne ↦ let sum : i + 0 ≡ j = rw ne at at_j in let here : i ≡ j = omega arith in rw (ne, here)
  | inl same ↦
      let other : (c == e) ≡ false = ground arith in
      let later : contains e t ≡ false = ground arith in
      rw (same, other)
        (find-agree s t u e (i + 1) j later
          (let sum : i + suc (agree s t).0 ≡ j = rw same at at_j in omega arith))
]

matched-find :
    (t : List ℕ) (i : ℕ) (x y : Option ℕ) (b : Bool)
    → is_empty t ≡ b
    → x ≡ y
    → matched t i x ≡ (if b then some i else y)
matched-find [] i x y b e same = rw (sym e)
matched-find (d ∷ t) i x y b e same = rw (sym e, same)

none-ne-some : {j : ℕ} → none ≢ some j
none-ne-some e = cc

-- With enough fuel the loop of the code finds what `find` finds, unless the first byte of the needle
-- comes back later in it.
search-find :
    (fuel i : ℕ) (s t : List ℕ) (e : ℕ)
    → length s ≤ fuel
    → contains e t ≡ false
    → search fuel i s (e ∷ t) ≡ find i s (e ∷ t)
unfolding search find
search-find zero i [] t e h absent = refl
search-find zero i (c ∷ s) t e h absent = absurd (omega arith)
search-find (suc fuel) i [] t e h absent = refl
search-find (suc fuel) i (c ∷ s) t e h absent = elim (Bool-cases (c == e)) [
  | inr ne ↦ rw ne (search-find fuel (i + 1) s t e (omega arith) absent)
  | inl same ↦ rw same (
      matched-find (agree s t).2 i _ _ (is_prefix t s) (agree-prefix s t) (
        search-find fuel (i + suc (agree s t).0) (agree s t).1 t e (omega (arith, agree-length s t))
          absent
        ∙ sym (find-agree s t t e (i + 1) (i + suc (agree s t).0) absent (omega arith))))
]

-- Where the first byte of the needle does not come back in it, k_rt_StrStr is the search that tries
-- every position.
pub str_str-find :
    (s t : List ℕ) (e : ℕ) → contains e t ≡ false → str_str s (e ∷ t) ≡ find 0 s (e ∷ t)
unfolding str_str
str_str-find s t e absent = search-find (length s) 0 s t e (omega arith) absent

drop-nil : (k : ℕ) → drop {A = ℕ} k [] ≡ []
drop-nil zero = refl
drop-nil (suc k) = refl

drop-drop : (n k : ℕ) (s : List ℕ) → drop k (drop n s) ≡ drop (n + k) s
drop-drop zero k s = let same : 0 + k ≡ k = omega arith in rw same
drop-drop (suc n) k [] = let same : suc n + k ≡ suc (n + k) = omega arith in rw same (drop-nil k)
drop-drop (suc n) k (c ∷ s) =
    let same : suc n + k ≡ suc (n + k) = omega arith in rw same (drop-drop n k s)

some-eq : {i j : ℕ} → some i ≡ some j → i ≡ j
some-eq e = cc

matched-some :
    (t : List ℕ) (i j : ℕ) (x : Option ℕ)
    → matched t i x ≡ some j
    → ((i ≡ j) × (is_empty t ≡ true)) ⊎ (x ≡ some j)
matched-some [] i j x e = inl (some-eq e, refl)
matched-some (d ∷ t) i j x e = inr e
