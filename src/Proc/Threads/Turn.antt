-- ===== src/Proc/Threads/Turn.antt =====
-- What a running thread does keeps the lists: no other thread leaves its place, and those that are ready
-- stay so, in their order.
use dogg_os.Base.{
  ℕ, suc, ◌≤◌, ◌≡◌, ◌≢◌, refl, sym, ◌∙◌, subst, true, List, [], ◌∷◌, ◌++◌, append_assoc, Bool-cases,
  inl, inr, ◌==◌, ◌&&◌, not, Array, update, arith,
}
use dogg_os.Proc.Threads.{
  cond_wait, terminated, detached, Kernel, detach_thread, join_thread, wait_for_condition,
  terminate_thread, create_thread, grow_pool, push_ready, initialise, condition_of,
}
use dogg_os.Chain.{
  count, count-append, count_self, count-cons, count-one, IsChain, IsChain-update, IsChain-linked,
}
use dogg_os.Proc.Threads.Queues.{Holds}
use dogg_os.Proc.Threads.Wake.{lists}
use dogg_os.Proc.Threads.Place.{IsOff}
use dogg_os.Proc.Threads.Create.{create_thread-push, push_initialised-Holds, initialise-Holds}
use dogg_os.Proc.Threads.Grow.{page_list, grow_pool-Holds, grow_pool-IsOff, create_thread-grow_pool}
use dogg_os.Proc.Threads.Run.{
  IsNewPage, Act, waits, ends, writes, detaches, joins, creates, Acts, done, more,
}
use dogg_os.Proc.Threads.Mid.{IsMid, IsActed, unmoved, IsMid-state, IsMid-else, detach_thread-IsMid}

-- The chain of one thread.
alone-IsChain : (next : Array ℕ) (c : ℕ) → c ≢ 0 → next c ≡ 0 → IsChain next c (c ∷ [])
alone-IsChain next c some_c e = (refl, some_c, e)

push_initialised-IsMid :
    (k : Kernel) (rs ws ds : List ℕ) (t : ℕ) (fs : List ℕ)
    → Holds k 0 0 (lists rs ws ds (t ∷ fs))
    → IsOff k k.current_thread (lists rs ws ds (t ∷ fs))
    → IsMid (push_ready (initialise k t) t) (rs ++ t ∷ []) ws
unfolding push_ready
push_initialised-IsMid k rs ws ds t fs h off =
    let c = k.current_thread in
    let out = off.nowhere in
    let first = count-cons c t fs in
    let one = count-one c t in
    let ne : c ≢ t = λ e.
      let self = count_self t fs in
      let there : 1 ≤ count c (t ∷ fs) = rw e (omega arith) in omega arith in
    let nt : count t (c ∷ []) ≡ 0 = ground (arith, count-one t c, ne) in
    let start =
      IsChain-update k.queue_next c t 0 (c ∷ []) nt
        (alone-IsChain k.queue_next c off.some_thread off.alone) in
    let ready = (initialise-Holds k 0 0 t (lists rs ws ds []) fs h).ready_queue in
    let linked =
      IsChain-linked (update k.queue_next t 0) k.ready_threads k.last_ready_thread t c rs (c ∷ [])
        ready nt (λ z. ground (arith, count-one z c, h.once z, out)) start in
    record {
      deleted_list = ds;
      free_list = fs;
      held = push_initialised-Holds k 0 0 t (lists rs ws ds []) fs h;
      off = record {
        some_thread = off.some_thread;
        nowhere = ground (arith, out, first, count-append c rs (t ∷ []), one, ne);
        not_cleanup = off.not_cleanup;
        alone = linked.2;
      };
    }

create_thread-IsActed :
    (n page : ℕ) (k : Kernel) (rs ws : List ℕ)
    → k.pool_threads ≢ 0
    → IsMid k rs ws
    → IsActed (create_thread (suc n) page true k).1 rs ws
create_thread-IsActed n page k rs ws some_free m = by_case m.free_list m.held m.off
  where
    by_case :
        (fs : List ℕ)
        → Holds k 0 0 (lists rs ws m.deleted_list fs)
        → IsOff k k.current_thread (lists rs ws m.deleted_list fs)
        → IsActed (create_thread (suc n) page true k).1 rs ws
    by_case [] h off = absurd (some_free h.free)
    by_case (t ∷ fs) h off =
        rw (create_thread-push n page k 0 0 t (lists rs ws m.deleted_list []) fs h) (record {
          made_ready = t ∷ [];
          mid = push_initialised-IsMid k rs ws m.deleted_list t fs h off;
        })

-- A thread from a new page, where the pool is empty.
create_thread-grown :
    (n page : ℕ) (k : Kernel) (rs ws : List ℕ)
    → IsNewPage k page
    → IsMid k rs ws
    → IsActed (create_thread (suc n) page true k).1 rs ws
unfolding grow_pool
create_thread-grown n page k rs ws new m = by_case m.free_list m.held m.off
  where
    by_case :
        (fs : List ℕ)
        → Holds k 0 0 (lists rs ws m.deleted_list fs)
        → IsOff k k.current_thread (lists rs ws m.deleted_list fs)
        → IsActed (create_thread (suc n) page true k).1 rs ws
    by_case [] h off =
        let grown : IsMid (grow_pool page k) rs ws = record {
          deleted_list = m.deleted_list;
          free_list = page_list 28 0 page;
          held = grow_pool-Holds page k rs ws m.deleted_list h new;
          off = grow_pool-IsOff page k rs ws m.deleted_list off new;
        } in
        subst (λ created. IsActed created.1 rs ws)
          (sym (create_thread-grow_pool (suc n) page k new.pool_empty))
          (create_thread-IsActed n page (grow_pool page k) rs ws (λ e. omega arith) grown)
    by_case (t ∷ fs) h off =
        let (first, some_t, rest) = h.free in absurd (some_t (sym first ∙ new.pool_empty))

wait_for_condition-IsMid :
    (k : Kernel) (condition : ℕ) (rs ws : List ℕ)
    → IsMid k rs ws
    → IsMid (wait_for_condition k condition) rs ws
unfolding wait_for_condition
wait_for_condition-IsMid k condition rs ws m =
    elim (Bool-cases (not (condition == 0) && (k.conditions condition == 0))) [
      | inl clear ↦ rw clear (
          IsMid-state k rs ws cond_wait (update k.wait_condition k.current_thread condition)
            k.return_data k.conditions m)
      | inr set ↦ rw set m
    ]

terminate_thread-IsMid :
    (k : Kernel) (value : ℕ) (rs ws : List ℕ)
    → IsMid k rs ws
    → IsMid (terminate_thread k value) rs ws
unfolding terminate_thread
terminate_thread-IsMid k value rs ws m = elim (Bool-cases (k.flags k.current_thread)) [
  | inl flagged ↦ rw flagged (
      IsMid-state k rs ws detached k.wait_condition k.return_data
        (update k.conditions (condition_of k.current_thread) 1) m)
  | inr fresh ↦ rw fresh (
      IsMid-state k rs ws terminated k.wait_condition (update k.return_data k.current_thread value)
        (update k.conditions (condition_of k.current_thread) 1) m)
]

Act-IsActed : (k k' : Kernel) (rs ws : List ℕ) → Act k k' → IsMid k rs ws → IsActed k' rs ws
unfolding join_thread
Act-IsActed k _ rs ws (waits condition runs) m =
    unmoved (wait_for_condition k condition) rs ws (wait_for_condition-IsMid k condition rs ws m)
Act-IsActed k _ rs ws (ends value runs) m =
    unmoved (terminate_thread k value) rs ws (terminate_thread-IsMid k value rs ws m)
Act-IsActed k _ rs ws (writes condition value runs) m =
    unmoved _ rs ws (IsMid-else k rs ws k.wait_condition (update k.conditions condition value) m)
Act-IsActed k _ rs ws (detaches thread runs other) m =
    unmoved (detach_thread k thread) rs ws (detach_thread-IsMid k thread rs ws other runs m)
Act-IsActed k _ rs ws (joins thread runs other) m =
    let k' = record k { wait_condition = update k.wait_condition k.current_thread 0 } in
    unmoved (detach_thread k' thread) rs ws (
      detach_thread-IsMid k' thread rs ws other runs
        (IsMid-else k rs ws (update k.wait_condition k.current_thread 0) k.conditions m))
Act-IsActed k _ rs ws (creates fuel page runs (inl some_free)) m =
    create_thread-IsActed fuel page k rs ws some_free m
Act-IsActed k _ rs ws (creates fuel page runs (inr new)) m =
    create_thread-grown fuel page k rs ws new m

-- The acts of a turn.
pub Acts-IsActed : (k k' : Kernel) (rs ws : List ℕ) → Acts k k' → IsMid k rs ws → IsActed k' rs ws
Acts-IsActed k _ rs ws done m = unmoved k rs ws m
Acts-IsActed k _ rs ws (more {k'} {k''} acts act) m =
    let first = Acts-IsActed k k' rs ws acts m in
    let second = Act-IsActed k' k'' (rs ++ first.made_ready) ws act first.mid in
    record {
      made_ready = first.made_ready ++ second.made_ready;
      mid = rw (sym (append_assoc rs first.made_ready second.made_ready)) second.mid;
    }
