-- ===== src/Proc/Threads/Ends.antt =====
-- The end of a thread: it is detached, and the cleanup thread destroys it.
use dogg_os.Base.{
  ℕ, zero, suc, ◌≤◌, ◌≡◌, ◌≢◌, refl, sym, ◌∙◌, subst, Bool, true, false, List, [], ◌∷◌, length,
  Bool-cases, inl, inr, ◌==◌, ◌&&◌, not, update, update_self, arith,
}
use dogg_os.Proc.Threads.{
  cond_wait, ready, detached, invalid, Kernel, is_valid, is_terminated, queue_detached_thread,
  detach_thread, destroy_thread, destroy_chain, cleanup,
}
use dogg_os.Chain.{count_self, count-cons, IsChain-update}
use dogg_os.Proc.Threads.Queues.{AllIn-update, Lists, Holds, is_valid-in}
use dogg_os.Proc.Threads.Place.{Holds-state, Holds-else}
use dogg_os.Proc.Threads.Stop.{Holds-delete, terminated-nowhere}

-- Detaching a thread that has ended, and was not detached before, puts it on the list for deletion.
abbrev pub to_delete : Kernel → ℕ → Bool
to_delete k t = not (t == 0) && (not (k.flags t) && is_terminated (k.state t))

abbrev pub with_deleted : Bool → ℕ → Lists → Lists
with_deleted true t l = record l { deleted_list = t ∷ l.deleted_list }
with_deleted false t l = l

detach_ended :
    (k : Kernel) (w r t : ℕ) (l : Lists)
    → t ≢ 0
    → t ≢ k.cleanup_thread
    → is_terminated (k.state t) ≡ true
    → Holds k w r l
    → Holds
        (queue_detached_thread
          (record k { flags = update k.flags t true; state = update k.state t detached })
          t)
        w
        r
        (record l { deleted_list = t ∷ l.deleted_list })
detach_ended k w r t l some_t other over h =
    let out = terminated-nowhere k w r t l over h in
    Holds-delete (record k { flags = update k.flags t true; state = update k.state t detached }) w r
      t l some_t out other (update_self k.state t detached)
      (Holds-state k w r t l detached (update k.flags t true) k.wait_condition k.return_data
        k.conditions k.current_thread out h)

pub detach_thread-Holds :
    (k : Kernel) (w r t : ℕ) (l : Lists)
    → t ≢ k.cleanup_thread
    → Holds k w r l
    → Holds (detach_thread k t) w r (with_deleted (to_delete k t) t l)
unfolding detach_thread
detach_thread-Holds k w r t l other h = elim (Bool-cases (t == 0)) [
  | inl nothing ↦ rw nothing h
  | inr something ↦ elim (Bool-cases (k.flags t)) [
    | inl flagged ↦ rw (something, flagged) h
    | inr fresh ↦ elim (Bool-cases (is_terminated (k.state t))) [
      | inl over ↦
          let some_t : t ≢ 0 = λ e. ground arith in
          rw (something, fresh, over) (detach_ended k w r t l some_t other over h)
      | inr goes_on ↦
          rw (something, fresh, goes_on)
            (Holds-else k w r l (update k.flags t true) k.wait_condition k.return_data k.conditions
              k.current_thread h)
    ]
  ]
]

unfoldable pub reverse_onto : List ℕ → List ℕ → List ℕ
reverse_onto [] fs = fs
reverse_onto (d ∷ ds) fs = reverse_onto ds (d ∷ fs)

-- One thread of the list for deletion is destroyed.
pub destroy_thread-Holds :
    (k : Kernel) (w r d : ℕ) (l : Lists) (ds : List ℕ)
    → Holds (record k { delete_list = d }) w r (record l { deleted_list = d ∷ ds })
    → Holds
        (record (destroy_thread k d) { delete_list = k.queue_next d })
        w
        r
        (record l { deleted_list = ds; free_list = d ∷ l.free_list })
unfolding destroy_thread
destroy_thread-Holds k w r d l ds h =
    let (first, some_d, rest) = h.deleted in
    let (its, all) = h.all_deleted in
    let none = h.cleanup_apart in
    let once = h.once d in
    let self = count_self d ds in
    rw (is_valid-in k d detached some_d its refl) (record {
      ready_queue = record {
        chain =
            IsChain-update k.queue_next k.ready_threads d k.pool_threads l.ready_list (omega arith)
              h.ready_queue.chain;
        ending = h.ready_queue.ending;
      };
      waiting_queue = record {
        chain =
            IsChain-update k.queue_next k.cond_wait_threads d k.pool_threads l.waiting_list
              (omega arith) h.waiting_queue.chain;
        ending = h.waiting_queue.ending;
      };
      sorted = IsChain-update k.queue_next w d k.pool_threads l.sorted_list (omega arith) h.sorted;
      resumed =
          IsChain-update k.queue_next r d k.pool_threads l.resumed_list (omega arith) h.resumed;
      deleted = IsChain-update k.queue_next (k.queue_next d) d k.pool_threads ds (omega arith) rest;
      free = (
        refl,
        some_d,
        rw (update_self k.queue_next d k.pool_threads) (
            IsChain-update k.queue_next k.pool_threads d k.pool_threads l.free_list (omega arith)
              h.free),
      );
      once = λ z. omega (arith, h.once z, count-cons z d ds, count-cons z d l.free_list);
      all_ready = AllIn-update k.state ready l.ready_list d invalid (omega arith) h.all_ready;
      all_waiting =
          AllIn-update k.state cond_wait l.waiting_list d invalid (omega arith) h.all_waiting;
      all_sorted =
          AllIn-update k.state cond_wait l.sorted_list d invalid (omega arith) h.all_sorted;
      all_resumed =
          AllIn-update k.state cond_wait l.resumed_list d invalid (omega arith) h.all_resumed;
      all_deleted = AllIn-update k.state detached ds d invalid (omega arith) all;
      all_free = (
        update_self k.state d invalid,
        AllIn-update k.state invalid l.free_list d invalid (omega arith) h.all_free,
      );
      cleanup_apart = omega (
        arith,
        none,
        count-cons k.cleanup_thread d ds,
        count-cons k.cleanup_thread d l.free_list,
      );
    })

pub destroy_thread-clear :
    (k : Kernel) (d : ℕ) → k.delete_list ≡ 0 → (destroy_thread k d).delete_list ≡ 0
unfolding destroy_thread
destroy_thread-clear k d clear = elim (Bool-cases (is_valid k d)) [
  | inl valid ↦ rw valid clear
  | inr not_valid ↦ rw not_valid clear
]

destroy_chain-Holds :
    (n : ℕ) (k : Kernel) (w r t : ℕ) (l : Lists) (ds : List ℕ)
    → length ds ≤ n
    → k.delete_list ≡ 0
    → Holds (record k { delete_list = t }) w r (record l { deleted_list = ds })
    → Holds
        (destroy_chain n k t)
        w
        r
        (record l { deleted_list = []; free_list = reverse_onto ds l.free_list })
unfolding destroy_chain reverse_onto
destroy_chain-Holds zero k w r t l [] le clear h = same k t clear h.deleted h
  where
    same :
        (k : Kernel) (t : ℕ)
        → k.delete_list ≡ 0
        → t ≡ 0
        → Holds (record k { delete_list = t }) w r (record l { deleted_list = [] })
        → Holds k w r (record l { deleted_list = [] })
    same k t clear nothing h =
        subst (λ d. Holds (record k { delete_list = d }) w r (record l { deleted_list = [] }))
          (nothing ∙ sym clear) h
destroy_chain-Holds (suc n) k w r t l [] le clear h =
    let nothing : (t == 0) ≡ true = let e = h.deleted in ground arith in
    rw nothing (
      subst (λ d. Holds (record k { delete_list = d }) w r (record l { deleted_list = [] }))
        (h.deleted ∙ sym clear) h)
destroy_chain-Holds zero k w r t l (d ∷ ds) le clear h = absurd (omega arith)
destroy_chain-Holds (suc n) k w r t l (d ∷ ds) le clear h =
    let (first, some_d, rest) = h.deleted in
    let something : (d == 0) ≡ false = ground arith in
    let step = destroy_thread-Holds k w r d l ds (rw first at h) in
    rw (first, something)
      (destroy_chain-Holds n (destroy_thread k d) w r (k.queue_next d)
        (record l { free_list = d ∷ l.free_list }) ds (omega arith) (destroy_thread-clear k d clear)
        step)

-- A pass of the cleanup thread destroys the threads of the list for deletion, which are free then.
pub cleanup-Holds :
    (fuel : ℕ) (k : Kernel) (w r : ℕ) (l : Lists)
    → length l.deleted_list ≤ fuel
    → Holds k w r l
    → Holds
        (cleanup fuel k)
        w
        r
        (record l { deleted_list = []; free_list = reverse_onto l.deleted_list l.free_list })
unfolding cleanup
cleanup-Holds fuel k w r l le h =
    destroy_chain-Holds fuel (record k { delete_list = 0 }) w r k.delete_list l l.deleted_list le
      refl h
