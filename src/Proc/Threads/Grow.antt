-- ===== src/Proc/Threads/Grow.antt =====
-- A page of new threads: they are chained up and become the free ones, and no queue changes.
use native.Mathlib.Decide.{ℕ_discrete}
use dogg_os.Base.{
  ℕ, zero, suc, ◌+◌, ◌≤◌, ◌<◌, ◌≡◌, ◌≢◌, refl, subst, ◌∙◌, true, false, List, [], ◌∷◌, ◌==◌, Array,
  update, update_self, update_other, arith,
}
use dogg_os.Proc.Threads.{
  invalid, Kernel, thread_at, thread_count, link_threads, grow_pool, ensure_pool, create_thread,
}
use dogg_os.Chain.{count, count-nil, count-cons, count-one, IsChain, IsChain-same}
use dogg_os.Proc.Threads.Queues.{AllIn, places, Holds}
use dogg_os.Proc.Threads.Wake.{lists}
use dogg_os.Proc.Threads.Place.{IsOff}
use dogg_os.Proc.Threads.Run.{InPage, IsNewPage}

-- So many threads of a page, from this one on.
unfoldable pub page_list : ℕ → ℕ → ℕ → List ℕ
page_list zero i page = []
page_list (suc n) i page = thread_at page i ∷ page_list n (i + 1) page

page_list-InPage :
    (n i page z : ℕ) → i + n ≤ thread_count → 1 ≤ count z (page_list n i page) → InPage page z
unfolding page_list
page_list-InPage zero i page z le has = absurd (omega (arith, count-nil z))
page_list-InPage (suc n) i page z le has = elim (ℕ_discrete z (thread_at page i)) [
  | yes same ↦ (i, omega arith, same)
  | no other ↦
      let first = count-cons z (thread_at page i) (page_list n (i + 1) page) in
      let one = count-one z (thread_at page i) in
      page_list-InPage n (i + 1) page z (omega arith) (ground arith)
]

count-page_list : (n i page z : ℕ) → z < thread_at page i → count z (page_list n i page) ≡ 0
unfolding page_list
count-page_list zero i page z lt = count-nil z
count-page_list (suc n) i page z lt =
    let first = count-cons z (thread_at page i) (page_list n (i + 1) page) in
    let one = count-one z (thread_at page i) in
    let rest = count-page_list n (i + 1) page z (omega arith) in ground arith

page_list-once : (n i page z : ℕ) → count z (page_list n i page) ≤ 1
unfolding page_list
page_list-once zero i page z = omega (arith, count-nil z)
page_list-once (suc n) i page z =
    let first = count-cons z (thread_at page i) (page_list n (i + 1) page) in
    let one = count-one z (thread_at page i) in
    elim (ℕ_discrete z (thread_at page i)) [
      | yes same ↦ let rest = count-page_list n (i + 1) page z (omega arith) in ground arith
      | no other ↦ let rest = page_list-once n (i + 1) page z in ground arith
    ]

-- Threads that are not on the page keep their links, and those in front of the ones that are linked.
link_threads-outside :
    (n i page : ℕ) (next : Array ℕ) (z : ℕ)
    → i + n ≤ thread_count
    → ¬ InPage page z
    → link_threads n i page next z ≡ next z
unfolding link_threads
link_threads-outside zero i page next z le out = refl
link_threads-outside (suc n) i page next z le out =
    link_threads-outside n (i + 1) page (update next (thread_at page i) (thread_at page (i + 1))) z
      (omega arith) out
    ∙ update_other next (thread_at page i) (thread_at page (i + 1)) z (λ e. out (i, omega arith, e))

link_threads-before :
    (n i page : ℕ) (next : Array ℕ) (z : ℕ)
    → z < thread_at page i
    → link_threads n i page next z ≡ next z
unfolding link_threads
link_threads-before zero i page next z lt = refl
link_threads-before (suc n) i page next z lt =
    link_threads-before n (i + 1) page (update next (thread_at page i) (thread_at page (i + 1))) z
      (omega arith)
    ∙ update_other next (thread_at page i) (thread_at page (i + 1)) z (λ e. omega arith)

-- The threads that the loop goes over, and the one behind them, are chained up.
link_threads-IsChain :
    (n i page last : ℕ) (next : Array ℕ)
    → last ≡ thread_at page (i + n)
    → IsChain
        (update (link_threads n i page next) last 0)
        (thread_at page i)
        (page_list (suc n) i page)
unfolding link_threads page_list
link_threads-IsChain zero i page last next e =
    let same : thread_at page i ≡ last = omega arith in
    (refl, (λ z. omega arith), rw same (update_self next last 0))
link_threads-IsChain (suc n) i page last next e =
    let linked = update next (thread_at page i) (thread_at page (i + 1)) in
    let link : update (link_threads n (i + 1) page linked) last 0 (thread_at page i)
        ≡ thread_at page (i + 1) =
      update_other (link_threads n (i + 1) page linked) last 0 (thread_at page i)
        (λ same. omega arith)
      ∙ link_threads-before n (i + 1) page linked (thread_at page i) (omega arith)
      ∙ update_self next (thread_at page i) (thread_at page (i + 1)) in
    (
      refl,
      (λ z. omega arith),
      rw link (link_threads-IsChain n (i + 1) page last linked (omega arith)),
    )

grow_pool-outside :
    (page : ℕ) (k : Kernel) (z : ℕ)
    → ¬ InPage page z
    → (grow_pool page k).queue_next z ≡ k.queue_next z
unfolding grow_pool
grow_pool-outside page k z out =
    update_other (link_threads 27 0 page k.queue_next) (thread_at page 27) 0 z
      (λ e. out (27, omega arith, e))
    ∙ link_threads-outside 27 0 page k.queue_next z (omega arith) out

-- A chain that starts outside a page to which nothing leads stays outside.
count-outside :
    (next : Array ℕ) (head page t : ℕ) (xs : List ℕ)
    → ((z : ℕ) → ¬ InPage page z → ¬ InPage page (next z))
    → ¬ InPage page head
    → InPage page t
    → IsChain next head xs
    → count t xs ≡ 0
count-outside next head page t [] unlinked out inside c = count-nil t
count-outside next head page t (x ∷ xs) unlinked out inside (first, some_x, rest) =
    let out_x : ¬ InPage page x = subst (λ z. ¬ InPage page z) first out in
    let ne : t ≢ x = λ e. out_x (subst (InPage page) e inside) in
    let more = count-outside next (next x) page t xs unlinked (unlinked x out_x) inside rest in
    ground (arith, count-cons t x xs, count-one t x, more, ne)

grow_pool-IsChain :
    (page : ℕ) (k : Kernel) (head : ℕ) (xs : List ℕ)
    → IsNewPage k page
    → ¬ InPage page head
    → IsChain k.queue_next head xs
    → IsChain (grow_pool page k).queue_next head xs
grow_pool-IsChain page k head xs new out c =
    IsChain-same k.queue_next (grow_pool page k).queue_next head xs
      (λ z has. grow_pool-outside page k z (λ inside.
        absurd (
          omega (arith, has, count-outside k.queue_next head page z xs new.unlinked out inside c))))
      c

page_list-AllIn :
    (n i page : ℕ) (k : Kernel)
    → IsNewPage k page
    → i + n ≤ thread_count
    → AllIn k.state invalid (page_list n i page)
unfolding page_list
page_list-AllIn zero i page k new le = refl
page_list-AllIn (suc n) i page k new le =
    (new.marked i (omega arith), page_list-AllIn n (i + 1) page k new (omega arith))

page_list-outside : (page t : ℕ) → ¬ InPage page t → count t (page_list 28 0 page) ≡ 0
page_list-outside page t out = elim (ℕ_discrete (count t (page_list 28 0 page)) 0) [
  | yes none ↦ none
  | no some_place ↦ absurd (out (page_list-InPage 28 0 page t (omega arith) (omega arith)))
]

-- No thread of the page was in a queue, so none is in two places now.
grown_once :
    (page : ℕ) (k : Kernel) (rs ws ds : List ℕ)
    → Holds k 0 0 (lists rs ws ds [])
    → IsNewPage k page
    → (t : ℕ) → places t (lists rs ws ds (page_list 28 0 page)) ≤ 1
grown_once page k rs ws ds h new t =
    let nil = count-nil t in
    elim (ℕ_discrete (count t (page_list 28 0 page)) 0) [
      | yes none ↦ omega (arith, h.once t)
      | no some_place ↦
          let inside = page_list-InPage 28 0 page t (omega arith) (omega arith) in
          let r =
            count-outside k.queue_next k.ready_threads page t rs new.unlinked new.not_ready inside
              h.ready_queue.chain in
          let w =
            count-outside k.queue_next k.cond_wait_threads page t ws new.unlinked new.not_waiting
              inside h.waiting_queue.chain in
          let d =
            count-outside k.queue_next k.delete_list page t ds new.unlinked new.not_deleted inside
              h.deleted in
          omega (arith, page_list-once 28 0 page t)
    ]

-- A new page leaves the queues as they are, and its threads are free.
pub grow_pool-Holds :
    (page : ℕ) (k : Kernel) (rs ws ds : List ℕ)
    → Holds k 0 0 (lists rs ws ds [])
    → IsNewPage k page
    → Holds (grow_pool page k) 0 0 (lists rs ws ds (page_list 28 0 page))
unfolding grow_pool
grow_pool-Holds page k rs ws ds h new = record {
  ready_queue = record {
    chain = grow_pool-IsChain page k k.ready_threads rs new new.not_ready h.ready_queue.chain;
    ending = h.ready_queue.ending;
  };
  waiting_queue = record {
    chain =
        grow_pool-IsChain page k k.cond_wait_threads ws new new.not_waiting h.waiting_queue.chain;
    ending = h.waiting_queue.ending;
  };
  sorted = refl;
  resumed = refl;
  deleted = grow_pool-IsChain page k k.delete_list ds new new.not_deleted h.deleted;
  free = link_threads-IsChain 27 0 page (thread_at page 27) k.queue_next refl;
  once = grown_once page k rs ws ds h new;
  all_ready = h.all_ready;
  all_waiting = h.all_waiting;
  all_sorted = refl;
  all_resumed = refl;
  all_deleted = h.all_deleted;
  all_free = page_list-AllIn 28 0 page k new (omega arith);
  cleanup_apart = omega (
    arith,
    h.cleanup_apart,
    count-nil k.cleanup_thread,
    page_list-outside page k.cleanup_thread new.not_cleanup,
  );
}

pub grow_pool-IsOff :
    (page : ℕ) (k : Kernel) (rs ws ds : List ℕ)
    → IsOff k k.current_thread (lists rs ws ds [])
    → IsNewPage k page
    → IsOff (grow_pool page k) k.current_thread (lists rs ws ds (page_list 28 0 page))
unfolding grow_pool
grow_pool-IsOff page k rs ws ds off new = record {
  some_thread = off.some_thread;
  nowhere = omega (
    arith,
    off.nowhere,
    count-nil k.current_thread,
    page_list-outside page k.current_thread new.not_current,
  );
  not_cleanup = off.not_cleanup;
  alone = grow_pool-outside page k k.current_thread new.not_current ∙ off.alone;
}

grown_pool : (page : ℕ) (k : Kernel) → ((grow_pool page k).pool_threads == 0) ≡ false
unfolding grow_pool
grown_pool page k = ground arith

-- Creating a thread where the pool is empty is creating it from the grown pool.
pub create_thread-grow_pool :
    (n page : ℕ) (k : Kernel)
    → k.pool_threads ≡ 0
    → create_thread n page true k ≡ create_thread n page true (grow_pool page k)
unfolding create_thread ensure_pool
create_thread-grow_pool n page k empty =
    let here : (k.pool_threads == 0) ≡ true = ground arith in rw (here, grown_pool page k) refl
