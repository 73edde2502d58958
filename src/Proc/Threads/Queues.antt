-- ===== src/Proc/Threads/Queues.antt =====
-- The queues of the scheduler as lists, and the operations that queue one thread or a chain.
use dogg_os.Base.{
  ℕ, ◌+◌, ◌≤◌, ◌≡◌, ◌≢◌, refl, sym, ◌∙◌, true, false, List, [], ◌∷◌, ◌++◌, ◌==◌, if◌then◌else◌,
  Array, update, update_self, update_other, arith,
}
use dogg_os.Proc.Threads.{
  ThreadState, cond_wait, ready, detached, invalid, is_invalid, Kernel, is_valid, push_ready,
  push_waiting,
}
use dogg_os.Chain.{
  count, count-append, count-one, count-zero, IsChain, IsQueue, IsQueue-push, IsChain-linked,
}

-- Every thread of the list is in the state.
abbrev pub AllIn : Array ThreadState → ThreadState → List ℕ → Type 0
AllIn state s [] = true ≡ true
AllIn state s (x ∷ xs) = (state x ≡ s) × AllIn state s xs

pub AllIn-append :
    (state : Array ThreadState) (s : ThreadState) (xs : List ℕ) (t : ℕ)
    → AllIn state s xs
    → state t ≡ s
    → AllIn state s (xs ++ t ∷ [])
AllIn-append state s [] t all its = (its, refl)
AllIn-append state s (x ∷ xs) t (here, all) its = (here, AllIn-append state s xs t all its)

pub AllIn-update :
    (state : Array ThreadState) (s : ThreadState) (xs : List ℕ) (t : ℕ) (v : ThreadState)
    → count t xs ≡ 0
    → AllIn state s xs
    → AllIn (update state t v) s xs
AllIn-update state s [] t v out all = refl
AllIn-update state s (x ∷ xs) t v out (here, all) =
    let (ne, out_rest) = count-zero t x xs out in
    (update_other state t v x (λ e. ne (sym e)) ∙ here, AllIn-update state s xs t v out_rest all)

-- The chains a thread can stand in: ready, waiting for a condition, still to be sorted, to be resumed,
-- to be deleted, and free.
pub record Lists : Type 0 where
  pub ready_list : List ℕ
  pub waiting_list : List ℕ
  pub sorted_list : List ℕ
  pub resumed_list : List ℕ
  pub deleted_list : List ℕ
  pub free_list : List ℕ

abbrev pub places : ℕ → Lists → ℕ
places t l =
    count t l.ready_list
    + count t l.waiting_list
    + count t l.sorted_list
    + count t l.resumed_list
    + count t l.deleted_list
    + count t l.free_list

-- The kernel holds these lists: each is chained up, no thread is in two places, and the state of a
-- thread says where it is. `waiting` and `resume` are the local variables of the scheduler.
pub record Holds (k : Kernel) (waiting resume : ℕ) (l : Lists) : Type 0 where
  pub ready_queue : IsQueue k.queue_next k.ready_threads k.last_ready_thread l.ready_list
  pub waiting_queue :
      IsQueue k.queue_next k.cond_wait_threads k.cond_wait_last_thread l.waiting_list
  pub sorted : IsChain k.queue_next waiting l.sorted_list
  pub resumed : IsChain k.queue_next resume l.resumed_list
  pub deleted : IsChain k.queue_next k.delete_list l.deleted_list
  pub free : IsChain k.queue_next k.pool_threads l.free_list
  pub once : (t : ℕ) → places t l ≤ 1
  pub all_ready : AllIn k.state ready l.ready_list
  pub all_waiting : AllIn k.state cond_wait l.waiting_list
  pub all_sorted : AllIn k.state cond_wait l.sorted_list
  pub all_resumed : AllIn k.state cond_wait l.resumed_list
  pub all_deleted : AllIn k.state detached l.deleted_list
  pub all_free : AllIn k.state invalid l.free_list
  pub cleanup_apart : places k.cleanup_thread l ≡ 0

pub is_valid-in :
    (k : Kernel) (t : ℕ) (s : ThreadState)
    → t ≢ 0
    → k.state t ≡ s
    → is_invalid s ≡ false
    → is_valid k t ≡ true
is_valid-in k t s some_t its fine =
    let there : (t == 0) ≡ false = ground arith in rw (there, its, fine) refl

-- A thread that is in no list, or has just been taken off one, goes to the end of the ready queue.
pub Holds-push_ready :
    (k : Kernel) (waiting resume t : ℕ) (l : Lists)
    → t ≢ 0
    → places t l ≡ 0
    → t ≢ k.cleanup_thread
    → Holds k waiting resume l
    → Holds (push_ready k t) waiting resume (record l { ready_list = l.ready_list ++ t ∷ [] })
unfolding push_ready
Holds-push_ready k waiting resume t l some_t out other h = record {
  ready_queue =
      IsQueue-push k.queue_next k.ready_threads k.last_ready_thread t l.ready_list some_t
        (λ z. omega (arith, h.once z)) (omega arith) h.ready_queue;
  waiting_queue = record {
    chain =
        keep l.waiting_list k.cond_wait_threads (omega arith) (λ z. omega (arith, h.once z))
          h.waiting_queue.chain;
    ending = h.waiting_queue.ending;
  };
  sorted = keep l.sorted_list waiting (omega arith) (λ z. omega (arith, h.once z)) h.sorted;
  resumed = keep l.resumed_list resume (omega arith) (λ z. omega (arith, h.once z)) h.resumed;
  deleted =
      keep l.deleted_list k.delete_list (omega arith) (λ z. omega (arith, h.once z)) h.deleted;
  free = keep l.free_list k.pool_threads (omega arith) (λ z. omega (arith, h.once z)) h.free;
  once = λ z. ground (arith, h.once z, count-append z l.ready_list (t ∷ []), count-one z t, out);
  all_ready =
      AllIn-append (update k.state t ready) ready l.ready_list t
        (AllIn-update k.state ready l.ready_list t ready (omega arith) h.all_ready)
        (update_self k.state t ready);
  all_waiting = AllIn-update k.state cond_wait l.waiting_list t ready (omega arith) h.all_waiting;
  all_sorted = AllIn-update k.state cond_wait l.sorted_list t ready (omega arith) h.all_sorted;
  all_resumed = AllIn-update k.state cond_wait l.resumed_list t ready (omega arith) h.all_resumed;
  all_deleted = AllIn-update k.state detached l.deleted_list t ready (omega arith) h.all_deleted;
  all_free = AllIn-update k.state invalid l.free_list t ready (omega arith) h.all_free;
  cleanup_apart =
      let none = h.cleanup_apart in
      ground (
        arith,
        none,
        count-append k.cleanup_thread l.ready_list (t ∷ []),
        count-one k.cleanup_thread t,
        other,
      );
}
  where
    keep :
        (zs : List ℕ) (head : ℕ)
        → count t zs ≡ 0
        → ((z : ℕ) → count z l.ready_list + count z zs ≤ 1)
        → IsChain k.queue_next head zs
        → IsChain
            (update
              (if k.ready_threads == 0
                then k.queue_next
                else update k.queue_next k.last_ready_thread t)
              t
              0)
            head
            zs
    keep zs head gone apart c =
        IsChain-linked k.queue_next k.ready_threads k.last_ready_thread t head l.ready_list zs
          h.ready_queue gone apart c

-- The same for the queue of waiting threads.
pub Holds-push_waiting :
    (k : Kernel) (waiting resume t : ℕ) (l : Lists)
    → t ≢ 0
    → places t l ≡ 0
    → t ≢ k.cleanup_thread
    → k.state t ≡ cond_wait
    → Holds k waiting resume l
    → Holds (push_waiting k t) waiting resume (record l { waiting_list = l.waiting_list ++ t ∷ [] })
unfolding push_waiting
Holds-push_waiting k waiting resume t l some_t out other waits h = record {
  ready_queue = record {
    chain =
        keep l.ready_list k.ready_threads (omega arith) (λ z. omega (arith, h.once z))
          h.ready_queue.chain;
    ending = h.ready_queue.ending;
  };
  waiting_queue =
      IsQueue-push k.queue_next k.cond_wait_threads k.cond_wait_last_thread t l.waiting_list some_t
        (λ z. omega (arith, h.once z)) (omega arith) h.waiting_queue;
  sorted = keep l.sorted_list waiting (omega arith) (λ z. omega (arith, h.once z)) h.sorted;
  resumed = keep l.resumed_list resume (omega arith) (λ z. omega (arith, h.once z)) h.resumed;
  deleted =
      keep l.deleted_list k.delete_list (omega arith) (λ z. omega (arith, h.once z)) h.deleted;
  free = keep l.free_list k.pool_threads (omega arith) (λ z. omega (arith, h.once z)) h.free;
  once = λ z. ground (arith, h.once z, count-append z l.waiting_list (t ∷ []), count-one z t, out);
  all_ready = h.all_ready;
  all_waiting = AllIn-append k.state cond_wait l.waiting_list t h.all_waiting waits;
  all_sorted = h.all_sorted;
  all_resumed = h.all_resumed;
  all_deleted = h.all_deleted;
  all_free = h.all_free;
  cleanup_apart =
      let none = h.cleanup_apart in
      ground (
        arith,
        none,
        count-append k.cleanup_thread l.waiting_list (t ∷ []),
        count-one k.cleanup_thread t,
        other,
      );
}
  where
    keep :
        (zs : List ℕ) (head : ℕ)
        → count t zs ≡ 0
        → ((z : ℕ) → count z l.waiting_list + count z zs ≤ 1)
        → IsChain k.queue_next head zs
        → IsChain
            (update
              (if k.cond_wait_threads == 0
                then k.queue_next
                else update k.queue_next k.cond_wait_last_thread t)
              t
              0)
            head
            zs
    keep zs head gone apart c =
        IsChain-linked k.queue_next k.cond_wait_threads k.cond_wait_last_thread t head
          l.waiting_list zs h.waiting_queue gone apart c
