-- ===== src/Proc/Threads/Mid.antt =====
-- The lists while a thread has its turn, and what detaching another does to them.
use dogg_os.Base.{
  ℕ, ◌≡◌, ◌≢◌, refl, sym, ap, ◌∙◌, subst, Bool, true, false, List, [], ◌∷◌, ◌++◌, append-nil,
  Bool-cases, inl, inr, ◌==◌, ◌&&◌, not, Array, update, update_other, arith, true-ne-false,
}
use dogg_os.Proc.Threads.{
  ThreadState, running, detached, Kernel, is_valid, is_terminated, is_detached,
  queue_detached_thread, detach_thread,
}
use dogg_os.Chain.{count-cons, count-one}
use dogg_os.Proc.Threads.Queues.{places, Holds}
use dogg_os.Proc.Threads.Wake.{lists}
use dogg_os.Proc.Threads.Place.{IsOff, Holds-state, Holds-else}
use dogg_os.Proc.Threads.Ends.{to_delete, with_deleted, detach_thread-Holds}

-- A thread has its turn, and the lists of the others are these.
pub record IsMid (k : Kernel) (rs ws : List ℕ) : Type 0 where
  pub deleted_list : List ℕ
  pub free_list : List ℕ
  pub held : Holds k 0 0 (lists rs ws deleted_list free_list)
  pub off : IsOff k k.current_thread (lists rs ws deleted_list free_list)

-- What acts have done: threads may have been made ready, behind the others.
pub record IsActed (k : Kernel) (rs ws : List ℕ) : Type 0 where
  pub made_ready : List ℕ
  pub mid : IsMid k (rs ++ made_ready) ws

pub unmoved : (k : Kernel) (rs ws : List ℕ) → IsMid k rs ws → IsActed k rs ws
unmoved k rs ws m = record { made_ready = []; mid = rw (append-nil rs) m }

pub IsMid-state :
    (k : Kernel) (rs ws : List ℕ) (s : ThreadState) (wc rd c : Array ℕ)
    → IsMid k rs ws
    → IsMid
        (record k {
          state = update k.state k.current_thread s;
          wait_condition = wc;
          return_data = rd;
          conditions = c;
        })
        rs
        ws
IsMid-state k rs ws s wc rd c m = record {
  deleted_list = m.deleted_list;
  free_list = m.free_list;
  held =
      Holds-state k 0 0 k.current_thread (lists rs ws m.deleted_list m.free_list) s k.flags wc rd c
        k.current_thread m.off.nowhere m.held;
  off = record {
    some_thread = m.off.some_thread;
    nowhere = m.off.nowhere;
    not_cleanup = m.off.not_cleanup;
    alone = m.off.alone;
  };
}

pub IsMid-else :
    (k : Kernel) (rs ws : List ℕ) (wc c : Array ℕ)
    → IsMid k rs ws
    → IsMid (record k { wait_condition = wc; conditions = c }) rs ws
IsMid-else k rs ws wc c m = record {
  deleted_list = m.deleted_list;
  free_list = m.free_list;
  held =
      Holds-else k 0 0 (lists rs ws m.deleted_list m.free_list) k.flags wc k.return_data c
        k.current_thread m.held;
  off = record {
    some_thread = m.off.some_thread;
    nowhere = m.off.nowhere;
    not_cleanup = m.off.not_cleanup;
    alone = m.off.alone;
  };
}

-- Detaching another thread leaves these.
record IsBeside (k k' : Kernel) (c : ℕ) : Type 0 where
  same_cleanup : k'.cleanup_thread ≡ k.cleanup_thread
  same_current : k'.current_thread ≡ k.current_thread
  same_next : k'.queue_next c ≡ k.queue_next c

queue_detached_thread-IsBeside :
    (k : Kernel) (t c : ℕ) → c ≢ t → IsBeside k (queue_detached_thread k t) c
unfolding queue_detached_thread
queue_detached_thread-IsBeside k t c ne =
    elim (Bool-cases (is_valid k t && (is_detached (k.state t) && not (t == k.cleanup_thread)))) [
      | inl queued ↦ rw queued (record {
        same_cleanup = refl;
        same_current = refl;
        same_next = update_other k.queue_next t k.delete_list c ne;
      })
      | inr left ↦ rw left (record { same_cleanup = refl; same_current = refl; same_next = refl })
    ]

detach_thread-IsBeside :
    (k : Kernel) (t c : ℕ) → is_terminated (k.state c) ≡ false → IsBeside k (detach_thread k t) c
unfolding detach_thread
detach_thread-IsBeside k t c goes_on = elim (Bool-cases (not (t == 0) && not (k.flags t))) [
  | inl fresh ↦ elim (Bool-cases (is_terminated (k.state t))) [
    | inl over ↦
        let ne : c ≢ t =
          λ e. true-ne-false (sym over ∙ ap (λ x. is_terminated (k.state x)) (sym e) ∙ goes_on) in
        let beside =
          queue_detached_thread-IsBeside
            (record k { flags = update k.flags t true; state = update k.state t detached }) t c
            ne in
        rw (fresh, over)
          (record {
            same_cleanup = beside.same_cleanup;
            same_current = beside.same_current;
            same_next = beside.same_next;
          })
    | inr other ↦
        rw (fresh, other) (record { same_cleanup = refl; same_current = refl; same_next = refl })
  ]
  | inr nothing ↦ rw nothing (record { same_cleanup = refl; same_current = refl; same_next = refl })
]

last_true : (a b c : Bool) → (a && (b && c)) ≡ true → c ≡ true
last_true true true c e = e
last_true true false c e = absurd (true-ne-false (sym e))
last_true false b c e = absurd (true-ne-false (sym e))

to_delete-ne :
    (k : Kernel) (t c : ℕ) → is_terminated (k.state c) ≡ false → to_delete k t ≡ true → c ≢ t
to_delete-ne k t c goes_on e same =
    let over = last_true (not (t == 0)) (not (k.flags t)) (is_terminated (k.state t)) e in
    true-ne-false (sym over ∙ ap (λ x. is_terminated (k.state x)) (sym same) ∙ goes_on)

pub detach_thread-IsMid :
    (k : Kernel) (t : ℕ) (rs ws : List ℕ)
    → t ≢ k.cleanup_thread
    → k.state k.current_thread ≡ running
    → IsMid k rs ws
    → IsMid (detach_thread k t) rs ws
detach_thread-IsMid k t rs ws other runs m =
    let goes_on : is_terminated (k.state k.current_thread) ≡ false = rw runs refl in
    let beside = detach_thread-IsBeside k t k.current_thread goes_on in
    let held = detach_thread-Holds k 0 0 t (lists rs ws m.deleted_list m.free_list) other m.held in
    by_case (to_delete k t) refl beside held
  where
    off_with :
        (k' : Kernel) (ds : List ℕ)
        → IsBeside k k' k.current_thread
        → places k.current_thread (lists rs ws ds m.free_list) ≡ 0
        → IsOff k' k'.current_thread (lists rs ws ds m.free_list)
    off_with k' ds beside out =
        subst (λ c. IsOff k' c (lists rs ws ds m.free_list)) (sym beside.same_current)
          (record {
            some_thread = m.off.some_thread;
            nowhere = out;
            not_cleanup = λ e. m.off.not_cleanup (e ∙ beside.same_cleanup);
            alone = beside.same_next ∙ m.off.alone;
          })

    by_case :
        (b : Bool)
        → to_delete k t ≡ b
        → IsBeside k (detach_thread k t) k.current_thread
        → Holds (detach_thread k t) 0 0 (with_deleted b t (lists rs ws m.deleted_list m.free_list))
        → IsMid (detach_thread k t) rs ws
    by_case false e beside held = record {
      deleted_list = m.deleted_list;
      free_list = m.free_list;
      held = held;
      off = off_with (detach_thread k t) m.deleted_list beside m.off.nowhere;
    }
    by_case true e beside held =
        let ne = to_delete-ne k t k.current_thread (rw runs refl) e in
        let out = m.off.nowhere in
        let apart : places k.current_thread (lists rs ws (t ∷ m.deleted_list) m.free_list) ≡ 0 =
          ground (
            arith,
            out,
            count-cons k.current_thread t m.deleted_list,
            count-one k.current_thread t,
            ne,
          ) in
        record {
          deleted_list = t ∷ m.deleted_list;
          free_list = m.free_list;
          held = held;
          off = off_with (detach_thread k t) (t ∷ m.deleted_list) beside apart;
        }
