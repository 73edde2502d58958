-- ===== src/Proc/Threads/Create.antt =====
-- A new thread is taken from the pool and becomes ready; the cleanup thread has its turn.
use dogg_os.Base.{
  ℕ, zero, suc, ◌≤◌, ◌≡◌, refl, sym, ◌∙◌, true, false, List, [], ◌∷◌, ◌++◌, length, Bool-cases, inl,
  inr, ◌==◌, update_self, arith,
}
use dogg_os.Proc.Threads.{
  cond_wait, created, ready, running, detached, invalid, Kernel, is_valid, push_ready,
  queue_ready_thread, create_thread, ensure_pool, initialise, run_cleanup, stop_thread, cleanup,
  destroy_chain, destroy_thread, start_thread,
}
use dogg_os.Chain.{count-nil, count_self, count-cons, apart-cons, IsChain-update}
use dogg_os.Proc.Threads.Queues.{AllIn-update, Lists, places, Holds, is_valid-in, Holds-push_ready}
use dogg_os.Proc.Threads.Wake.{queue_ready_thread-valid}
use dogg_os.Proc.Threads.Place.{Holds-state}
use dogg_os.Proc.Threads.Stop.{push_chain-alone}
use dogg_os.Proc.Threads.Ends.{reverse_onto, cleanup-Holds}

-- The first free thread is taken off the pool.
pub initialise-Holds :
    (k : Kernel) (w r t : ℕ) (l : Lists) (fs : List ℕ)
    → Holds k w r (record l { free_list = t ∷ fs })
    → Holds (initialise k t) w r (record l { free_list = fs })
initialise-Holds k w r t l fs h =
    let (first, some_t, rest) = h.free in
    let (its, all) = h.all_free in
    let once = h.once t in
    let self = count_self t fs in
    let none = h.cleanup_apart in
    record {
      ready_queue = record {
        chain =
            IsChain-update k.queue_next k.ready_threads t 0 l.ready_list (omega arith)
              h.ready_queue.chain;
        ending = h.ready_queue.ending;
      };
      waiting_queue = record {
        chain =
            IsChain-update k.queue_next k.cond_wait_threads t 0 l.waiting_list (omega arith)
              h.waiting_queue.chain;
        ending = h.waiting_queue.ending;
      };
      sorted = IsChain-update k.queue_next w t 0 l.sorted_list (omega arith) h.sorted;
      resumed = IsChain-update k.queue_next r t 0 l.resumed_list (omega arith) h.resumed;
      deleted =
          IsChain-update k.queue_next k.delete_list t 0 l.deleted_list (omega arith) h.deleted;
      free = IsChain-update k.queue_next (k.queue_next t) t 0 fs (omega arith) rest;
      once = λ z. omega (arith, h.once z, count-cons z t fs);
      all_ready = AllIn-update k.state ready l.ready_list t created (omega arith) h.all_ready;
      all_waiting =
          AllIn-update k.state cond_wait l.waiting_list t created (omega arith) h.all_waiting;
      all_sorted =
          AllIn-update k.state cond_wait l.sorted_list t created (omega arith) h.all_sorted;
      all_resumed =
          AllIn-update k.state cond_wait l.resumed_list t created (omega arith) h.all_resumed;
      all_deleted =
          AllIn-update k.state detached l.deleted_list t created (omega arith) h.all_deleted;
      all_free = AllIn-update k.state invalid fs t created (omega arith) all;
      cleanup_apart = omega (arith, none, count-cons k.cleanup_thread t fs);
    }

-- With a free thread in the pool, it is the one created, and it is queued.
pub create_thread-push :
    (n page : ℕ) (k : Kernel) (w r t : ℕ) (l : Lists) (fs : List ℕ)
    → Holds k w r (record l { free_list = t ∷ fs })
    → create_thread (suc n) page true k ≡ (t, push_ready (initialise k t) t)
unfolding create_thread ensure_pool
create_thread-push n page k w r t l fs h =
    let (first, some_t, rest) = h.free in
    let pool : (k.pool_threads == 0) ≡ false = ground arith in
    let valid =
      is_valid-in (initialise k t) t created some_t (update_self k.state t created) refl in
    let queued : queue_ready_thread (suc n) (initialise k t) t ≡ push_ready (initialise k t) t =
      queue_ready_thread-valid (suc n) (initialise k t) t valid
      ∙ push_chain-alone n (initialise k t) t some_t (update_self k.queue_next t 0) in
    rw (pool, first, queued) refl

pub push_initialised-Holds :
    (k : Kernel) (w r t : ℕ) (l : Lists) (fs : List ℕ)
    → Holds k w r (record l { free_list = t ∷ fs })
    → Holds
        (push_ready (initialise k t) t)
        w
        r
        (record l { ready_list = l.ready_list ++ t ∷ []; free_list = fs })
push_initialised-Holds k w r t l fs h =
    let (first, some_t, rest) = h.free in
    let once = h.once t in
    let self = count_self t fs in
    let none = h.cleanup_apart in
    let other =
      apart-cons t k.cleanup_thread fs (places k.cleanup_thread (record l { free_list = [] }))
        (omega (arith, none, count-nil k.cleanup_thread)) in
    Holds-push_ready (initialise k t) w r t (record l { free_list = fs }) some_t (omega arith) other
      (initialise-Holds k w r t l fs h)

destroy_thread-cleanup_thread :
    (k : Kernel) (t : ℕ) → (destroy_thread k t).cleanup_thread ≡ k.cleanup_thread
unfolding destroy_thread
destroy_thread-cleanup_thread k t = elim (Bool-cases (is_valid k t)) [
  | inl valid ↦ rw valid refl
  | inr not_valid ↦ rw not_valid refl
]

destroy_chain-cleanup_thread :
    (n : ℕ) (k : Kernel) (t : ℕ) → (destroy_chain n k t).cleanup_thread ≡ k.cleanup_thread
unfolding destroy_chain
destroy_chain-cleanup_thread zero k t = refl
destroy_chain-cleanup_thread (suc n) k t = elim (Bool-cases (t == 0)) [
  | inl nothing ↦ rw nothing refl
  | inr something ↦
      rw something (destroy_chain-cleanup_thread n (destroy_thread k t) (k.queue_next t) ∙ once)
]
  where
    once : (destroy_thread k t).cleanup_thread ≡ k.cleanup_thread
    once = destroy_thread-cleanup_thread k t

pub stop_cleanup :
    (fuel : ℕ) (k : Kernel) (c : ℕ) (l : Lists)
    → k.cleanup_thread ≡ c
    → Holds k 0 0 l
    → Holds (stop_thread fuel k c) 0 0 l
unfolding stop_thread
stop_cleanup fuel k c l same h =
    let its : (c == k.cleanup_thread) ≡ true = ground arith in
    rw its (
      Holds-state k 0 0 c l ready k.flags k.wait_condition k.return_data k.conditions
        k.current_thread (rw (sym same) h.cleanup_apart) h)

pub cleanup-cleanup_thread :
    (fuel : ℕ) (k : Kernel) → (cleanup fuel k).cleanup_thread ≡ k.cleanup_thread
unfolding cleanup
cleanup-cleanup_thread fuel k =
    destroy_chain-cleanup_thread fuel (record k { delete_list = 0 }) k.delete_list

-- A turn of the cleanup thread.
pub run_cleanup-Holds :
    (fuel : ℕ) (k : Kernel) (l : Lists)
    → length l.deleted_list ≤ fuel
    → Holds k 0 0 l
    → Holds
        (run_cleanup fuel k)
        0
        0
        (record l { deleted_list = []; free_list = reverse_onto l.deleted_list l.free_list })
unfolding run_cleanup start_thread
run_cleanup-Holds fuel k l le h =
    let started =
      Holds-state k 0 0 k.cleanup_thread l running k.flags k.wait_condition k.return_data
        k.conditions k.cleanup_thread h.cleanup_apart h in
    stop_cleanup fuel _ k.cleanup_thread _ (cleanup-cleanup_thread fuel _)
      (cleanup-Holds fuel _ 0 0 l le started)
