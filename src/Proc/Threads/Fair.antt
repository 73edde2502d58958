-- ===== src/Proc/Threads/Fair.antt =====
-- Passes of the scheduler keep its queues, and a ready thread has its turn after those in front of it.
use dogg_os.Base.{
  ℕ, zero, suc, ◌≡◌, ◌≢◌, refl, sym, ◌∙◌, true, List, [], ◌∷◌, ◌++◌, append_assoc, length, ◌==◌,
  arith,
}
use dogg_os.Proc.Threads.{running, Kernel, dispatch, stop_thread}
use dogg_os.Proc.Threads.Place.{dispatch-IsStarted}
use dogg_os.Proc.Threads.Between.{IsBetween, IsLater, Woken-IsLater, Tidied-IsBetween, turn-IsLater}
use dogg_os.Proc.Threads.Run.{Acts, Tidied, Woken, Pass, runs, idles, Passes, here, next}

-- Where no thread is ready, the core idles.
idle-IsBetween : (k : Kernel) → k.ready_threads ≡ 0 → IsBetween k [] → IsBetween (dispatch k) []
unfolding dispatch
idle-IsBetween k e b =
    let nothing : (k.ready_threads == 0) ≡ true = ground arith in
    let h = b.held in
    rw nothing (record {
      waiting_list = b.waiting_list;
      deleted_list = b.deleted_list;
      free_list = b.free_list;
      held = record {
        ready_queue = record { chain = e; ending = refl };
        waiting_queue = h.waiting_queue;
        sorted = h.sorted;
        resumed = h.resumed;
        deleted = h.deleted;
        free = h.free;
        once = h.once;
        all_ready = h.all_ready;
        all_waiting = h.all_waiting;
        all_sorted = h.all_sorted;
        all_resumed = h.all_resumed;
        all_deleted = h.all_deleted;
        all_free = h.all_free;
        cleanup_apart = h.cleanup_apart;
      };
    })

-- After the waiting threads were looked at, and the cleanup thread had its turn.
tidied : (k w t : Kernel) (rs : List ℕ) → Woken k w → Tidied w t → IsBetween k rs → IsLater t rs
tidied k w t rs woken tidies b =
    let a = Woken-IsLater k w rs woken b in
    record { later = a.later; state = Tidied-IsBetween w t (rs ++ a.later) tidies a.state }

-- A pass with a thread in front gives that thread its turn, and keeps the others in front of any new.
Pass-front :
    (k k' : Kernel) (t : ℕ) (rs : List ℕ) → Pass k k' → IsBetween k (t ∷ rs) → IsLater k' rs
Pass-front k _ t rs (runs {woken} {tidy} {ran} fuel wakes tidies some_ready acts) b =
    let a = tidied k woken tidy (t ∷ rs) wakes tidies b in
    let c = turn-IsLater fuel tidy ran t (rs ++ a.later) a.state acts in
    record {
      later = a.later ++ c.later;
      state = rw (sym (append_assoc rs a.later c.later)) c.state;
    }
Pass-front k _ t rs (idles {woken} {tidy} wakes tidies none_ready) b =
    let a = tidied k woken tidy (t ∷ rs) wakes tidies b in
    let (first, some_t, rest) = a.state.held.ready_queue.chain in
    absurd (some_t (sym first ∙ none_ready))

-- Some list of threads is ready.
abbrev pub IsKept : Kernel → Type 0
IsKept k = (rs : List ℕ) × IsBetween k rs

turn-IsKept :
    (fuel : ℕ) (k ran : Kernel) (rs : List ℕ)
    → k.ready_threads ≢ 0
    → Acts (dispatch k) ran
    → IsBetween k rs
    → IsKept (stop_thread (suc fuel) ran ran.current_thread)
turn-IsKept fuel k ran [] some_ready acts b = absurd (some_ready b.held.ready_queue.chain)
turn-IsKept fuel k ran (t ∷ rs) some_ready acts b =
    let c = turn-IsLater fuel k ran t rs b acts in (rs ++ c.later, c.state)

idle-IsKept :
    (k : Kernel) (rs : List ℕ) → k.ready_threads ≡ 0 → IsBetween k rs → IsKept (dispatch k)
idle-IsKept k [] e b = ([], idle-IsBetween k e b)
idle-IsKept k (t ∷ rs) e b =
    let (first, some_t, rest) = b.held.ready_queue.chain in absurd (some_t (sym first ∙ e))

Pass-IsKept : (k k' : Kernel) → Pass k k' → IsKept k → IsKept k'
Pass-IsKept k _ (runs {woken} {tidy} {ran} fuel wakes tidies some_ready acts) (rs, b) =
    let a = tidied k woken tidy rs wakes tidies b in
    turn-IsKept fuel tidy ran (rs ++ a.later) some_ready acts a.state
Pass-IsKept k _ (idles {woken} {tidy} wakes tidies none_ready) (rs, b) =
    let a = tidied k woken tidy rs wakes tidies b in
    idle-IsKept tidy (rs ++ a.later) none_ready a.state

-- However many passes the scheduler makes, and whatever the threads do in their turns, of what Act lists,
-- its queues stay chained up, no thread is in two of them, and the state of a thread says in which one it
-- is, INVALID for the free ones. The threads create others from the pool, or from a new page to which
-- nothing leads and whose memory marks them INVALID, which the code does not see to; and none has the
-- handle of the cleanup thread.
pub Passes-IsKept : (n : ℕ) (k k' : Kernel) → Passes n k k' → IsKept k → IsKept k'
Passes-IsKept zero k _ here kept = kept
Passes-IsKept (suc n) k k'' (next {k' = k'} pass passes) kept =
    Passes-IsKept n k' k'' passes (Pass-IsKept k k' pass kept)

Passes-front :
    (xs : List ℕ) (t : ℕ) (rs : List ℕ) (k k' : Kernel)
    → Passes (length xs) k k'
    → IsBetween k (xs ++ t ∷ rs)
    → (later : List ℕ) × IsBetween k' (t ∷ later)
Passes-front [] t rs k _ here b = (rs, b)
Passes-front (x ∷ xs) t rs k k'' (next {k' = k'} pass passes) b =
    let a = Pass-front k k' x (xs ++ t ∷ rs) pass b in
    Passes-front xs t (rs ++ a.later) k' k'' passes
      (rw (sym (append_assoc xs (t ∷ rs) a.later)) a.state)

-- A ready thread with these threads in front of it is started in the pass that follows as many passes
-- as there are such threads, whatever the threads do in their turns, of what Act lists. At the start the
-- queues are in order, the free threads INVALID among them. The threads create others from the pool, or
-- from a new page to which nothing leads and whose memory marks them INVALID, which the code does not see
-- to; and none has the handle of the cleanup thread.
pub ready_thread-runs :
    (xs : List ℕ) (t : ℕ) (rs : List ℕ) (k k' woken tidy : Kernel)
    → IsBetween k (xs ++ t ∷ rs)
    → Passes (length xs) k k'
    → Woken k' woken
    → Tidied woken tidy
    → ((dispatch tidy).current_thread ≡ t) × ((dispatch tidy).state t ≡ running)
ready_thread-runs xs t rs k k' woken tidy b passes wakes tidies =
    let (later, front) = Passes-front xs t rs k k' passes b in
    let a = tidied k' woken tidy (t ∷ later) wakes tidies front in
    let started =
      dispatch-IsStarted tidy t (later ++ a.later) a.state.waiting_list a.state.deleted_list
        a.state.free_list a.state.held in
    (started.its_turn, started.runs)
