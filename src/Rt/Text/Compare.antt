-- ===== src/Rt/Text/Compare.antt =====
-- k_rt_StrCmp decides equality, and swapping its arguments negates the answer.
use dogg_os.Base.{ℕ, ◌<◌, ◌≡◌, ◌↔◌, refl, sym, List, [], ◌∷◌, ◌==◌, if◌then◌else◌, arith}
use dogg_os.Rt.Text.{diff, str_cmp}

-- The bytes of a C string: none of them is the NUL.
pub data IsText : List ℕ → Type 0 where
  nil : IsText []
  cons : {c : ℕ} {s : List ℕ} → 0 < c → c < 256 → IsText s → IsText (c ∷ s)

diff-zero : (c e : ℕ) → c < 256 → e < 256 → diff c e ≡ 0 → c ≡ e
diff-zero c e hc he h = ground arith

diff-same : (c : ℕ) → c < 256 → diff c c ≡ 0
diff-same c h = ground arith

str_cmp-same : (s : List ℕ) → IsText s → str_cmp s s ≡ 0
unfolding str_cmp
str_cmp-same [] h = refl
str_cmp-same (c ∷ s) (cons p b h) = rw (diff-same c b) (str_cmp-same s h)

diff-head : (c e : ℕ) (r : ℕ) → (if diff c e == 0 then r else diff c e) ≡ 0 → diff c e ≡ 0
diff-head c e r h = ground arith

str_cmp-eq : (s t : List ℕ) → IsText s → IsText t → str_cmp s t ≡ 0 → s ≡ t
unfolding str_cmp
str_cmp-eq [] [] h k e = refl
str_cmp-eq [] (d ∷ t) h (cons q b k) e = absurd (differ (diff-zero 0 d (omega arith) b e) q)
  where
    differ : 0 ≡ d → 0 < d → ⊥
    differ e q = omega arith
str_cmp-eq (c ∷ s) [] (cons p b h) k e = absurd (differ (diff-zero c 0 b (omega arith) e) p)
  where
    differ : c ≡ 0 → 0 < c → ⊥
    differ e p = omega arith
str_cmp-eq (c ∷ s) (d ∷ t) (cons p b h) (cons q b' k) e =
    let zero_diff = diff-head c d (str_cmp s t) e in
    let rest : str_cmp s t ≡ 0 = rw zero_diff at e in
    rw (diff-zero c d b b' zero_diff, str_cmp-eq s t h k rest)

-- The answer is 0 exactly for equal strings.
pub str_cmp-zero : (s t : List ℕ) → IsText s → IsText t → (str_cmp s t ≡ 0) ↔ (s ≡ t)
str_cmp-zero s t h k = (str_cmp-eq s t h k, λ e. rw (sym e) (str_cmp-same s h))
