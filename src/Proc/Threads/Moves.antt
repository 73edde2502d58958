-- ===== src/Proc/Threads/Moves.antt =====
-- Threads that move from one list to another, one at a time or as a chain.
use dogg_os.Base.{
  ℕ, zero, suc, ◌+◌, ◌≤◌, ◌≡◌, ◌≢◌, refl, sym, true, false, List, [], ◌∷◌, ◌++◌, append-nil,
  append_assoc, length, ◌==◌, update, update_self, arith,
}
use dogg_os.Proc.Threads.{cond_wait, Kernel, push_ready, push_chain}
use dogg_os.Chain.{count, count_self, count-cons, count-one, apart-cons, IsChain-update}
use dogg_os.Proc.Threads.Queues.{Lists, places, Holds, Holds-push_ready}

-- What the first thread of a chain was: it is in no list any more.
pub record IsTaken (k : Kernel) (waiting resume t : ℕ) (l : Lists) : Type 0 where
  pub others : Holds k waiting resume l
  pub some_thread : t ≢ 0
  pub nowhere : places t l ≡ 0
  pub not_cleanup : t ≢ k.cleanup_thread
  pub waits : k.state t ≡ cond_wait

pub take_resumed :
    (k : Kernel) (waiting resume t : ℕ) (l : Lists) (ts : List ℕ)
    → Holds k waiting resume (record l { resumed_list = t ∷ ts })
    → IsTaken k waiting (k.queue_next t) t (record l { resumed_list = ts })
take_resumed k waiting resume t l ts h =
    let (first, some_t, rest) = h.resumed in
    let (its, all) = h.all_resumed in
    record {
      others = record {
        ready_queue = h.ready_queue;
        waiting_queue = h.waiting_queue;
        sorted = h.sorted;
        resumed = rest;
        deleted = h.deleted;
        free = h.free;
        once = λ z. omega (arith, h.once z, count-cons z t ts);
        all_ready = h.all_ready;
        all_waiting = h.all_waiting;
        all_sorted = h.all_sorted;
        all_resumed = all;
        all_deleted = h.all_deleted;
        all_free = h.all_free;
        cleanup_apart = omega (arith, h.cleanup_apart, count-cons k.cleanup_thread t ts);
      };
      some_thread = some_t;
      nowhere = omega (arith, h.once t, count_self t ts);
      not_cleanup =
          apart-cons t k.cleanup_thread ts
            (count k.cleanup_thread l.ready_list
              + count k.cleanup_thread l.waiting_list
              + count k.cleanup_thread l.sorted_list
              + count k.cleanup_thread l.deleted_list
              + count k.cleanup_thread l.free_list)
            (omega (arith, h.cleanup_apart));
      waits = its;
    }

pub take_sorted :
    (k : Kernel) (waiting resume t : ℕ) (l : Lists) (ts : List ℕ)
    → Holds k waiting resume (record l { sorted_list = t ∷ ts })
    → IsTaken k (k.queue_next t) resume t (record l { sorted_list = ts })
take_sorted k waiting resume t l ts h =
    let (first, some_t, rest) = h.sorted in
    let (its, all) = h.all_sorted in
    record {
      others = record {
        ready_queue = h.ready_queue;
        waiting_queue = h.waiting_queue;
        sorted = rest;
        resumed = h.resumed;
        deleted = h.deleted;
        free = h.free;
        once = λ z. omega (arith, h.once z, count-cons z t ts);
        all_ready = h.all_ready;
        all_waiting = h.all_waiting;
        all_sorted = all;
        all_resumed = h.all_resumed;
        all_deleted = h.all_deleted;
        all_free = h.all_free;
        cleanup_apart = omega (arith, h.cleanup_apart, count-cons k.cleanup_thread t ts);
      };
      some_thread = some_t;
      nowhere = omega (arith, h.once t, count_self t ts);
      not_cleanup =
          apart-cons t k.cleanup_thread ts
            (count k.cleanup_thread l.ready_list
              + count k.cleanup_thread l.waiting_list
              + count k.cleanup_thread l.resumed_list
              + count k.cleanup_thread l.deleted_list
              + count k.cleanup_thread l.free_list)
            (omega (arith, h.cleanup_apart));
      waits = its;
    }

-- A thread goes to the front of the chain of those to be resumed.
pub Holds-resume :
    (k : Kernel) (waiting resume t : ℕ) (l : Lists)
    → IsTaken k waiting resume t l
    → Holds
        (record k { queue_next = update k.queue_next t resume })
        waiting
        t
        (record l { resumed_list = t ∷ l.resumed_list })
Holds-resume k waiting resume t l taken =
    let h = taken.others in
    let out = taken.nowhere in
    let other = taken.not_cleanup in
    let none = h.cleanup_apart in
    record {
      ready_queue = record {
        chain =
            IsChain-update k.queue_next k.ready_threads t resume l.ready_list (omega arith)
              h.ready_queue.chain;
        ending = h.ready_queue.ending;
      };
      waiting_queue = record {
        chain =
            IsChain-update k.queue_next k.cond_wait_threads t resume l.waiting_list (omega arith)
              h.waiting_queue.chain;
        ending = h.waiting_queue.ending;
      };
      sorted = IsChain-update k.queue_next waiting t resume l.sorted_list (omega arith) h.sorted;
      resumed = (
        refl,
        taken.some_thread,
        rw (update_self k.queue_next t resume)
            (IsChain-update k.queue_next resume t resume l.resumed_list (omega arith) h.resumed),
      );
      deleted =
          IsChain-update k.queue_next k.delete_list t resume l.deleted_list (omega arith) h.deleted;
      free = IsChain-update k.queue_next k.pool_threads t resume l.free_list (omega arith) h.free;
      once = λ z. ground (arith, h.once z, count-cons z t l.resumed_list, count-one z t, out);
      all_ready = h.all_ready;
      all_waiting = h.all_waiting;
      all_sorted = h.all_sorted;
      all_resumed = (taken.waits, h.all_resumed);
      all_deleted = h.all_deleted;
      all_free = h.all_free;
      cleanup_apart = ground (
        arith,
        none,
        count-cons k.cleanup_thread t l.resumed_list,
        count-one k.cleanup_thread t,
        other,
      );
    }

-- A chain of threads is queued: the ready queue grows by all of them, in order.
pub push_chain-Holds :
    (n : ℕ) (k : Kernel) (waiting t : ℕ) (l : Lists) (ts : List ℕ)
    → length ts ≤ n
    → Holds k waiting t (record l { resumed_list = ts })
    → Holds
        (push_chain n k t)
        waiting
        0
        (record l { ready_list = l.ready_list ++ ts; resumed_list = [] })
unfolding push_chain
push_chain-Holds zero k waiting t l [] le h = rw (append-nil l.ready_list, sym h.resumed) h
push_chain-Holds (suc n) k waiting t l [] le h =
    let nothing : (t == 0) ≡ true = let e = h.resumed in ground arith in
    rw (nothing, append-nil l.ready_list) (rw h.resumed at h)
push_chain-Holds zero k waiting t l (x ∷ ts) le h = absurd (omega arith)
push_chain-Holds (suc n) k waiting t l (x ∷ ts) le h =
    let (first, some_x, rest) = h.resumed in
    let something : (t == 0) ≡ false = ground arith in
    let taken = take_resumed k waiting t x l ts h in
    let pushed =
      Holds-push_ready k waiting (k.queue_next x) x (record l { resumed_list = ts }) some_x
        taken.nowhere taken.not_cleanup taken.others in
    let later =
      push_chain-Holds n (push_ready k x) waiting (k.queue_next x)
        (record l { ready_list = l.ready_list ++ x ∷ [] }) ts (omega arith) pushed in
    rw (something, first, sym (append_assoc l.ready_list (x ∷ []) ts)) later
