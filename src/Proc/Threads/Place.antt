-- ===== src/Proc/Threads/Place.antt =====
-- The thread that runs: how it leaves the ready queue, and where it goes when it stops.
use dogg_os.Base.{
  ℕ, ◌+◌, ◌≡◌, ◌≢◌, refl, Bool, false, List, [], ◌∷◌, ◌==◌, Array, update, update_self, arith,
}
use dogg_os.Proc.Threads.{
  ThreadState, cond_wait, running, ready, detached, invalid, Kernel, start_thread, dispatch,
}
use dogg_os.Chain.{count, count_self, count-cons, apart-cons, last_of, EndsWith, IsChain-update}
use dogg_os.Proc.Threads.Queues.{AllIn-update, Lists, places, Holds}
use dogg_os.Proc.Threads.Wake.{lists}

-- A thread that is in no list: it runs, or has ended.
pub record IsOff (k : Kernel) (t : ℕ) (l : Lists) : Type 0 where
  pub some_thread : t ≢ 0
  pub nowhere : places t l ≡ 0
  pub not_cleanup : t ≢ k.cleanup_thread
  pub alone : k.queue_next t ≡ 0

-- The state of such a thread is no matter for the lists.
pub Holds-state :
    (k : Kernel) (w r t : ℕ) (l : Lists) (s : ThreadState) (f : Array Bool) (wc rd c : Array ℕ)
    (cur : ℕ)
    → places t l ≡ 0
    → Holds k w r l
    → Holds
        (record k {
          state = update k.state t s;
          flags = f;
          wait_condition = wc;
          return_data = rd;
          conditions = c;
          current_thread = cur;
        })
        w
        r
        l
Holds-state k w r t l s f wc rd c cur out h = record {
  ready_queue = h.ready_queue;
  waiting_queue = h.waiting_queue;
  sorted = h.sorted;
  resumed = h.resumed;
  deleted = h.deleted;
  free = h.free;
  once = h.once;
  all_ready = AllIn-update k.state ready l.ready_list t s (omega arith) h.all_ready;
  all_waiting = AllIn-update k.state cond_wait l.waiting_list t s (omega arith) h.all_waiting;
  all_sorted = AllIn-update k.state cond_wait l.sorted_list t s (omega arith) h.all_sorted;
  all_resumed = AllIn-update k.state cond_wait l.resumed_list t s (omega arith) h.all_resumed;
  all_deleted = AllIn-update k.state detached l.deleted_list t s (omega arith) h.all_deleted;
  all_free = AllIn-update k.state invalid l.free_list t s (omega arith) h.all_free;
  cleanup_apart = h.cleanup_apart;
}

pub Holds-else :
    (k : Kernel) (w r : ℕ) (l : Lists) (f : Array Bool) (wc rd c : Array ℕ) (cur : ℕ)
    → Holds k w r l
    → Holds
        (record k {
          flags = f;
          wait_condition = wc;
          return_data = rd;
          conditions = c;
          current_thread = cur;
        })
        w
        r
        l
Holds-else k w r l f wc rd c cur h = record {
  ready_queue = h.ready_queue;
  waiting_queue = h.waiting_queue;
  sorted = h.sorted;
  resumed = h.resumed;
  deleted = h.deleted;
  free = h.free;
  once = h.once;
  all_ready = h.all_ready;
  all_waiting = h.all_waiting;
  all_sorted = h.all_sorted;
  all_resumed = h.all_resumed;
  all_deleted = h.all_deleted;
  all_free = h.all_free;
  cleanup_apart = h.cleanup_apart;
}

EndsWith-tail : (last t : ℕ) (ts : List ℕ) → EndsWith last (t ∷ ts) → EndsWith last ts
unfolding last_of
EndsWith-tail last t [] e = refl
EndsWith-tail last t (x ∷ xs) e = e

-- What `dispatch` does where a thread is ready.
pub record IsStarted (k : Kernel) (t : ℕ) (l : Lists) : Type 0 where
  pub others : Holds k 0 0 l
  pub off : IsOff k t l
  pub runs : k.state t ≡ running
  pub its_turn : k.current_thread ≡ t

pub dispatch-IsStarted :
    (k : Kernel) (t : ℕ) (rs ws ds fs : List ℕ)
    → Holds k 0 0 (lists (t ∷ rs) ws ds fs)
    → IsStarted (dispatch k) t (lists rs ws ds fs)
unfolding dispatch start_thread
dispatch-IsStarted k t rs ws ds fs h =
    let (first, some_t, rest) = h.ready_queue.chain in
    let (is_ready, all) = h.all_ready in
    let something : (t == 0) ≡ false = ground arith in
    let none = h.cleanup_apart in
    let its = h.once t in
    let self = count_self t rs in
    let freed : Holds
        (record k { ready_threads = k.queue_next t; queue_next = update k.queue_next t 0 }) 0 0
        (lists rs ws ds fs) =
      record {
        ready_queue = record {
          chain = IsChain-update k.queue_next (k.queue_next t) t 0 rs (omega arith) rest;
          ending = EndsWith-tail k.last_ready_thread t rs h.ready_queue.ending;
        };
        waiting_queue = record {
          chain =
              IsChain-update k.queue_next k.cond_wait_threads t 0 ws (omega arith)
                h.waiting_queue.chain;
          ending = h.waiting_queue.ending;
        };
        sorted = h.sorted;
        resumed = h.resumed;
        deleted = IsChain-update k.queue_next k.delete_list t 0 ds (omega arith) h.deleted;
        free = IsChain-update k.queue_next k.pool_threads t 0 fs (omega arith) h.free;
        once = λ z. omega (arith, h.once z, count-cons z t rs);
        all_ready = all;
        all_waiting = h.all_waiting;
        all_sorted = h.all_sorted;
        all_resumed = h.all_resumed;
        all_deleted = h.all_deleted;
        all_free = h.all_free;
        cleanup_apart = omega (arith, none, count-cons k.cleanup_thread t rs);
      } in
    rw (first, something)
      (record {
        others =
            Holds-state _ 0 0 t (lists rs ws ds fs) running k.flags k.wait_condition k.return_data
              k.conditions t (omega arith) freed;
        off = record {
          some_thread = some_t;
          nowhere = omega arith;
          not_cleanup =
              apart-cons t k.cleanup_thread rs
                (count k.cleanup_thread ws + count k.cleanup_thread ds + count k.cleanup_thread fs)
                (omega (arith, none));
          alone = update_self k.queue_next t 0;
        };
        runs = update_self k.state t running;
        its_turn = refl;
      })
