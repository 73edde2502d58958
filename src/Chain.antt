-- ===== src/Chain.antt =====
-- Linked lists: chains of addresses, and queues with a last one.
use dogg_os.Base.{
  ℕ, ◌+◌, ◌≤◌, ◌≡◌, ◌≢◌, refl, sym, ◌∙◌, subst, true, false, List, [], ◌∷◌, ◌++◌, ◌==◌,
  if◌then◌else◌, Array, update, update_self, update_other, arith,
}

-- How often a thread is in a list.
unfoldable pub count : ℕ → List ℕ → ℕ
count x [] = 0
count x (y ∷ ys) = (if x == y then 1 else 0) + count x ys

pub count-append : (x : ℕ) (xs ys : List ℕ) → count x (xs ++ ys) ≡ count x xs + count x ys
unfolding count
count-append x [] ys = omega arith
count-append x (y ∷ xs) ys = omega (arith, count-append x xs ys)

pub count_self : (x : ℕ) (xs : List ℕ) → count x (x ∷ xs) ≡ 1 + count x xs
unfolding count
count_self x xs = ground arith

pub count-cons : (x y : ℕ) (ys : List ℕ) → count x (y ∷ ys) ≡ count x (y ∷ []) + count x ys
unfolding count
count-cons x y ys = omega arith

pub count-nil : (x : ℕ) → count x [] ≡ 0
unfolding count
count-nil x = refl

pub count-one : (x y : ℕ) → count x (y ∷ []) ≡ (if x == y then 1 else 0)
unfolding count
count-one x y = ground arith

pub count-zero : (x y : ℕ) (ys : List ℕ) → count x (y ∷ ys) ≡ 0 → (x ≢ y) × (count x ys ≡ 0)
unfolding count
count-zero x y ys e = (λ q. ground arith, omega arith)

pub apart-cons : (t c : ℕ) (ts : List ℕ) (rest : ℕ) → count c (t ∷ ts) + rest ≡ 0 → t ≢ c
apart-cons t c ts rest none e =
    let self = count_self c ts in
    let there : 1 ≤ count c (t ∷ ts) = rw e (omega arith) in omega arith

-- The chain that starts at `head` is the list.
abbrev pub IsChain : Array ℕ → ℕ → List ℕ → Type 0
IsChain next head [] = head ≡ 0
IsChain next head (x ∷ xs) = (head ≡ x) × (x ≢ 0) × IsChain next (next x) xs

-- Writing the link of a thread that is not in a chain leaves the chain.
pub IsChain-update :
    (next : Array ℕ) (head t v : ℕ) (xs : List ℕ)
    → count t xs ≡ 0
    → IsChain next head xs
    → IsChain (update next t v) head xs
IsChain-update next head t v [] out c = c
IsChain-update next head t v (x ∷ xs) out (first, some_thread, rest) =
    let (ne, out_rest) = count-zero t x xs out in
    (
      first,
      some_thread,
      rw (update_other next t v x (λ e. ne (sym e)))
          (IsChain-update next (next x) t v xs out_rest rest),
    )

-- A chain follows the links of its members only.
pub IsChain-same :
    (next other : Array ℕ) (head : ℕ) (xs : List ℕ)
    → ((z : ℕ) → 1 ≤ count z xs → other z ≡ next z)
    → IsChain next head xs
    → IsChain other head xs
IsChain-same next other head [] same c = c
IsChain-same next other head (x ∷ xs) same (first, some, rest) =
    let link : other x ≡ next x = same x (omega (arith, count_self x xs)) in
    (
      first,
      some,
      rw link (
          IsChain-same next other (next x) xs
            (λ z in_rest. same z (omega (arith, count-cons z x xs, in_rest))) rest),
    )

-- The last thread of a list, and what stands in for it where there is none.
unfoldable pub last_of : ℕ → List ℕ → ℕ
last_of t [] = t
last_of t (x ∷ xs) = last_of x xs

pub count-last : (x : ℕ) (xs : List ℕ) → 1 ≤ count (last_of x xs) (x ∷ xs)
unfolding last_of
count-last x [] = omega (arith, count_self x [])
count-last x (y ∷ ys) = omega (arith, count-last y ys, count-cons (last_of y ys) x (y ∷ ys))

-- Linking a thread behind the last of a chain appends it.
pub IsChain-append :
    (next : Array ℕ) (head t x : ℕ) (xs : List ℕ)
    → t ≢ 0
    → ((z : ℕ) → count z (x ∷ xs) ≤ 1)
    → count t (x ∷ xs) ≡ 0
    → IsChain next head (x ∷ xs)
    → IsChain (update (update next (last_of x xs) t) t 0) head (x ∷ (xs ++ t ∷ []))
unfolding last_of
IsChain-append next head t x [] some_t once out (first, some_x, rest) =
    let (ne, nothing) = count-zero t x [] out in
    (
      first,
      some_x,
      (
        rw (update_other (update next x t) t 0 x (λ e. ne (sym e))) (update_self next x t),
        some_t,
        update_self (update next x t) t 0,
      ),
    )
IsChain-append next head t x (y ∷ ys) some_t once out (first, some_x, rest) =
    let (ne, out_rest) = count-zero t x (y ∷ ys) out in
    let fewer : (z : ℕ) → count z (y ∷ ys) ≤ 1 =
      λ z. omega (arith, once z, count-cons z x (y ∷ ys)) in
    let not_last : x ≢ last_of y ys = λ e.
      let twice = count-last y ys in
      let its = once x in
      let self = count_self x (y ∷ ys) in
      absurd (let there : 1 ≤ count x (y ∷ ys) = rw e twice in omega arith) in
    let tail = IsChain-append next (next x) t y ys some_t fewer out_rest rest in
    let link : update (update next (last_of y ys) t) t 0 x ≡ next x =
      update_other (update next (last_of y ys) t) t 0 x (λ e. ne (sym e))
      ∙ update_other next (last_of y ys) t x not_last in
    (first, some_x, rw link tail)

-- A queue with its first and its last thread.
abbrev pub EndsWith : ℕ → List ℕ → Type 0
EndsWith last [] = true ≡ true
EndsWith last (x ∷ xs) = last_of x xs ≡ last

pub record IsQueue (next : Array ℕ) (head last : ℕ) (xs : List ℕ) : Type 0 where
  pub chain : IsChain next head xs
  pub ending : EndsWith last xs

-- The links after a thread is queued.
abbrev pub linked : Array ℕ → ℕ → ℕ → ℕ → Array ℕ
linked next head last t = update (if head == 0 then next else update next last t) t 0

pub last_of-append : (t x : ℕ) (xs : List ℕ) → last_of x (xs ++ t ∷ []) ≡ t
unfolding last_of
last_of-append t x [] = refl
last_of-append t x (y ∷ ys) = last_of-append t y ys

head-some :
    (next : Array ℕ) (head x : ℕ) (xs : List ℕ) → IsChain next head (x ∷ xs) → (head == 0) ≡ false
head-some next head x xs (first, some_x, rest) = ground arith

pub IsQueue-push :
    (next : Array ℕ) (head last t : ℕ) (xs : List ℕ)
    → t ≢ 0
    → ((z : ℕ) → count z xs ≤ 1)
    → count t xs ≡ 0
    → IsQueue next head last xs
    → IsQueue (linked next head last t) (if head == 0 then t else head) t (xs ++ t ∷ [])
unfolding last_of
IsQueue-push next head last t [] some_t once out q =
    let nothing : (head == 0) ≡ true = let e = q.chain in ground arith in
    rw nothing (record { chain = (refl, some_t, update_self next t 0); ending = refl })
IsQueue-push next head last t (x ∷ xs) some_t once out q =
    let something = head-some next head x xs q.chain in
    rw something (record {
      chain =
          subst (λ l. IsChain (update (update next l t) t 0) head (x ∷ (xs ++ t ∷ []))) q.ending
            (IsChain-append next head t x xs some_t once out q.chain);
      ending = last_of-append t x xs;
    })

-- Queuing a thread leaves the chains that are apart from the queue.
pub IsChain-linked :
    (next : Array ℕ) (head last t h : ℕ) (xs zs : List ℕ)
    → IsQueue next head last xs
    → count t zs ≡ 0
    → ((z : ℕ) → count z xs + count z zs ≤ 1)
    → IsChain next h zs
    → IsChain (linked next head last t) h zs
IsChain-linked next head last t h [] zs q out apart c =
    let nothing : (head == 0) ≡ true = let e = q.chain in ground arith in
    rw nothing (IsChain-update next h t 0 zs out c)
IsChain-linked next head last t h (x ∷ xs) zs q out apart c =
    let something = head-some next head x xs q.chain in
    let in_queue : 1 ≤ count last (x ∷ xs) = rw (sym q.ending) (count-last x xs) in
    let last_out : count last zs ≡ 0 = let its = apart last in omega arith in
    rw something (
      IsChain-update (update next last t) h t 0 zs out (IsChain-update next h last t zs last_out c))
