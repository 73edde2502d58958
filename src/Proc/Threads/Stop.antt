-- ===== src/Proc/Threads/Stop.antt =====
-- Where a thread goes when it stops running, is detached, or is destroyed.
use dogg_os.Base.{
  ℕ, zero, suc, ◌≡◌, ◌≢◌, refl, sym, ap, ◌∙◌, true, false, List, [], ◌∷◌, ◌++◌, Bool-cases, inl,
  inr, ◌==◌, Array, update_self, arith, true-ne-false,
}
use dogg_os.Proc.Threads.{
  ThreadState, cond_wait, suspended, terminated, running, created, ready, detached, invalid, Kernel,
  is_terminated, push_ready, push_chain, queue_waiting_thread, queue_detached_thread, stop_thread,
  put_back,
}
use dogg_os.Chain.{count, count-cons, count-one, IsChain-update}
use dogg_os.Proc.Threads.Queues.{
  AllIn, Lists, places, Holds, is_valid-in, Holds-push_ready, Holds-push_waiting,
}
use dogg_os.Proc.Threads.Wake.{queue_ready_thread-valid}
use dogg_os.Proc.Threads.Place.{IsOff}

pub push_chain-alone :
    (n : ℕ) (k : Kernel) (t : ℕ)
    → t ≢ 0
    → k.queue_next t ≡ 0
    → push_chain (suc n) k t ≡ push_ready k t
unfolding push_chain
push_chain-alone zero k t some_t alone =
    let something : (t == 0) ≡ false = ground arith in rw something refl
push_chain-alone (suc n) k t some_t alone =
    let something : (t == 0) ≡ false = ground arith in rw (something, alone) refl

-- A detached thread goes to the front of the list of those to be deleted.
pub Holds-delete :
    (k : Kernel) (w r t : ℕ) (l : Lists)
    → t ≢ 0
    → places t l ≡ 0
    → t ≢ k.cleanup_thread
    → k.state t ≡ detached
    → Holds k w r l
    → Holds (queue_detached_thread k t) w r (record l { deleted_list = t ∷ l.deleted_list })
unfolding queue_detached_thread
Holds-delete k w r t l some_t out other its h =
    let none = h.cleanup_apart in
    let apart : (t == k.cleanup_thread) ≡ false = ground arith in
    rw (is_valid-in k t detached some_t its refl, its, apart)
      (record {
        ready_queue = record {
          chain =
              IsChain-update k.queue_next k.ready_threads t k.delete_list l.ready_list (omega arith)
                h.ready_queue.chain;
          ending = h.ready_queue.ending;
        };
        waiting_queue = record {
          chain =
              IsChain-update k.queue_next k.cond_wait_threads t k.delete_list l.waiting_list
                (omega arith) h.waiting_queue.chain;
          ending = h.waiting_queue.ending;
        };
        sorted = IsChain-update k.queue_next w t k.delete_list l.sorted_list (omega arith) h.sorted;
        resumed =
            IsChain-update k.queue_next r t k.delete_list l.resumed_list (omega arith) h.resumed;
        deleted = (
          refl,
          some_t,
          rw (update_self k.queue_next t k.delete_list) (
              IsChain-update k.queue_next k.delete_list t k.delete_list l.deleted_list (omega arith)
                h.deleted),
        );
        free =
            IsChain-update k.queue_next k.pool_threads t k.delete_list l.free_list (omega arith)
              h.free;
        once = λ z. ground (arith, h.once z, count-cons z t l.deleted_list, count-one z t, out);
        all_ready = h.all_ready;
        all_waiting = h.all_waiting;
        all_sorted = h.all_sorted;
        all_resumed = h.all_resumed;
        all_deleted = (its, h.all_deleted);
        all_free = h.all_free;
        cleanup_apart = ground (
          arith,
          none,
          count-cons k.cleanup_thread t l.deleted_list,
          count-one k.cleanup_thread t,
          other,
        );
      })

-- The list for a thread that has stopped, by its state.
abbrev pub placed : ThreadState → ℕ → Lists → Lists
placed cond_wait t l = record l { waiting_list = l.waiting_list ++ t ∷ [] }
placed running t l = record l { ready_list = l.ready_list ++ t ∷ [] }
placed detached t l = record l { deleted_list = t ∷ l.deleted_list }
placed suspended t l = l
placed terminated t l = l
placed created t l = l
placed ready t l = l
placed invalid t l = l

put_back-Holds :
    (n : ℕ) (k : Kernel) (t : ℕ) (l : Lists) (s : ThreadState)
    → IsOff k t l
    → k.state t ≡ s
    → Holds k 0 0 l
    → Holds (put_back (suc n) k t s) 0 0 (placed s t l)
unfolding queue_waiting_thread
put_back-Holds n k t l cond_wait off its h =
    let other = off.not_cleanup in
    let apart : (t == k.cleanup_thread) ≡ false = ground arith in
    rw (is_valid-in k t cond_wait off.some_thread its refl, apart)
      (Holds-push_waiting k 0 0 t l off.some_thread off.nowhere off.not_cleanup its h)
put_back-Holds n k t l running off its h =
    rw
      (
        queue_ready_thread-valid (suc n) k t (is_valid-in k t running off.some_thread its refl),
        push_chain-alone n k t off.some_thread off.alone,
      )
      (Holds-push_ready k 0 0 t l off.some_thread off.nowhere off.not_cleanup h)
put_back-Holds n k t l detached off its h =
    Holds-delete k 0 0 t l off.some_thread off.nowhere off.not_cleanup its h
put_back-Holds n k t l suspended off its h = h
put_back-Holds n k t l terminated off its h = h
put_back-Holds n k t l created off its h = h
put_back-Holds n k t l ready off its h = h
put_back-Holds n k t l invalid off its h = h

-- A thread that has stopped is put where its state says.
pub stop_thread-Holds :
    (n : ℕ) (k : Kernel) (t : ℕ) (l : Lists)
    → IsOff k t l
    → Holds k 0 0 l
    → Holds (stop_thread (suc n) k t) 0 0 (placed (k.state t) t l)
unfolding stop_thread
stop_thread-Holds n k t l off h =
    let other = off.not_cleanup in
    let apart : (t == k.cleanup_thread) ≡ false = ground arith in
    rw apart (put_back-Holds n k t l (k.state t) off refl h)

AllIn-other :
    (state : Array ThreadState) (s : ThreadState) (xs : List ℕ) (t : ℕ)
    → AllIn state s xs
    → state t ≢ s
    → count t xs ≡ 0
unfolding count
AllIn-other state s [] t all ne = refl
AllIn-other state s (x ∷ xs) t (here, all) ne = elim (Bool-cases (t == x)) [
  | inl same ↦ let e : t ≡ x = ground arith in absurd (ne (rw e here))
  | inr other ↦ rw other (omega (arith, AllIn-other state s xs t all ne))
]

ended :
    {s : ThreadState} → is_terminated s ≡ true → (r : ThreadState) → is_terminated r ≡ false → s ≢ r
ended e r f same = true-ne-false (sym e ∙ ap is_terminated same ∙ f)

-- A thread that has ended is in no list.
pub terminated-nowhere :
    (k : Kernel) (w r t : ℕ) (l : Lists)
    → is_terminated (k.state t) ≡ true
    → Holds k w r l
    → places t l ≡ 0
terminated-nowhere k w r t l e h =
    let a = AllIn-other k.state ready l.ready_list t h.all_ready (ended e ready refl) in
    let b = AllIn-other k.state cond_wait l.waiting_list t h.all_waiting (ended e cond_wait refl) in
    let c = AllIn-other k.state cond_wait l.sorted_list t h.all_sorted (ended e cond_wait refl) in
    let d = AllIn-other k.state cond_wait l.resumed_list t h.all_resumed (ended e cond_wait refl) in
    let f = AllIn-other k.state detached l.deleted_list t h.all_deleted (ended e detached refl) in
    let g = AllIn-other k.state invalid l.free_list t h.all_free (ended e invalid refl) in
    omega arith
