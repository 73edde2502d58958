-- ===== src/Proc/Threads/Between.antt =====
-- The parts of a pass of the scheduler: what each does to the lists of threads.
use dogg_os.Base.{
  ℕ, suc, ◌≡◌, refl, sym, ◌∙◌, subst, List, [], ◌∷◌, ◌++◌, append-nil, append_assoc, Array,
}
use dogg_os.Proc.Threads.{
  ThreadState, running, ready, cond_wait, suspended, terminated, created, detached, invalid, Kernel,
  start_thread, dispatch, stop_thread,
}
use dogg_os.Chain.{IsChain}
use dogg_os.Proc.Threads.Queues.{Holds}
use dogg_os.Proc.Threads.Wake.{lists, woken, still_waiting, waits_on, wake_threads-Holds}
use dogg_os.Proc.Threads.Place.{IsOff, dispatch-IsStarted, Holds-state}
use dogg_os.Proc.Threads.Stop.{placed, stop_thread-Holds}
use dogg_os.Proc.Threads.Ends.{reverse_onto}
use dogg_os.Proc.Threads.Create.{run_cleanup-Holds, stop_cleanup}
use dogg_os.Proc.Threads.Mid.{IsMid}
use dogg_os.Proc.Threads.Turn.{Acts-IsActed}
use dogg_os.Proc.Threads.Run.{Acts, Tidied, locked, cleaned, Woken, looked}

-- The state between two passes: the kernel holds its lists, and these threads are ready, in this order.
pub record IsBetween (k : Kernel) (rs : List ℕ) : Type 0 where
  pub waiting_list : List ℕ
  pub deleted_list : List ℕ
  pub free_list : List ℕ
  pub held : Holds k 0 0 (lists rs waiting_list deleted_list free_list)

-- The same with more threads ready, behind these.
pub record IsLater (k : Kernel) (rs : List ℕ) : Type 0 where
  pub later : List ℕ
  pub state : IsBetween k (rs ++ later)

IsChain-unique :
    (links : Array ℕ) (head : ℕ) (xs ys : List ℕ)
    → IsChain links head xs
    → IsChain links head ys
    → xs ≡ ys
IsChain-unique links head [] [] c d = refl
IsChain-unique links head [] (y ∷ ys) c (first, some_y, rest) = absurd (some_y (sym first ∙ c))
IsChain-unique links head (x ∷ xs) [] (first, some_x, rest) d = absurd (some_x (sym first ∙ d))
IsChain-unique links head (x ∷ xs) (y ∷ ys) (first, some_x, rest) (first', some_y, rest') =
    let same : x ≡ y = sym first ∙ first' in
    let tails = IsChain-unique links (links x) xs ys rest (rw same rest') in rw (same, tails) refl

pub Woken-IsLater : (k k' : Kernel) (rs : List ℕ) → Woken k k' → IsBetween k rs → IsLater k' rs
Woken-IsLater k _ rs (looked fuel ws c le) b =
    let same =
      IsChain-unique k.queue_next k.cond_wait_threads ws b.waiting_list c
        b.held.waiting_queue.chain in
    record {
      later = woken (waits_on k) b.waiting_list [];
      state = record {
        waiting_list = still_waiting (waits_on k) b.waiting_list;
        deleted_list = b.deleted_list;
        free_list = b.free_list;
        held =
            wake_threads-Holds fuel k rs b.waiting_list b.deleted_list b.free_list (rw same at le)
              b.held;
      };
    }

pub Tidied-IsBetween :
    (k k' : Kernel) (rs : List ℕ) → Tidied k k' → IsBetween k rs → IsBetween k' rs
unfolding start_thread
Tidied-IsBetween k _ rs locked b =
    let l = lists rs b.waiting_list b.deleted_list b.free_list in
    record {
      waiting_list = b.waiting_list;
      deleted_list = b.deleted_list;
      free_list = b.free_list;
      held = stop_cleanup 1 (start_thread k k.cleanup_thread) k.cleanup_thread l refl (
          Holds-state k 0 0 k.cleanup_thread l running k.flags k.wait_condition k.return_data
            k.conditions k.cleanup_thread b.held.cleanup_apart b.held);
    }
Tidied-IsBetween k _ rs (cleaned fuel ds c le) b =
    let same = IsChain-unique k.queue_next k.delete_list ds b.deleted_list c b.held.deleted in
    record {
      waiting_list = b.waiting_list;
      deleted_list = [];
      free_list = reverse_onto b.deleted_list b.free_list;
      held =
          run_cleanup-Holds fuel k (lists rs b.waiting_list b.deleted_list b.free_list)
            (rw same at le) b.held;
    }

unchanged : (k : Kernel) (rs ws ds fs : List ℕ) → Holds k 0 0 (lists rs ws ds fs) → IsLater k rs
unchanged k rs ws ds fs h = record {
  later = [];
  state = record {
    waiting_list = ws;
    deleted_list = ds;
    free_list = fs;
    held = rw (append-nil rs) h;
  };
}

ready-IsLater :
    (k : Kernel) (t : ℕ) (rs ws ds fs : List ℕ) (s : ThreadState)
    → Holds k 0 0 (placed s t (lists rs ws ds fs))
    → IsLater k rs
ready-IsLater k t rs ws ds fs running h = record {
  later = t ∷ [];
  state = record { waiting_list = ws; deleted_list = ds; free_list = fs; held = h };
}
ready-IsLater k t rs ws ds fs cond_wait h = record {
  later = [];
  state = record {
    waiting_list = ws ++ t ∷ [];
    deleted_list = ds;
    free_list = fs;
    held = rw (append-nil rs) h;
  };
}
ready-IsLater k t rs ws ds fs detached h = record {
  later = [];
  state = record {
    waiting_list = ws;
    deleted_list = t ∷ ds;
    free_list = fs;
    held = rw (append-nil rs) h;
  };
}
ready-IsLater k t rs ws ds fs suspended h = unchanged k rs ws ds fs h
ready-IsLater k t rs ws ds fs terminated h = unchanged k rs ws ds fs h
ready-IsLater k t rs ws ds fs created h = unchanged k rs ws ds fs h
ready-IsLater k t rs ws ds fs ready h = unchanged k rs ws ds fs h
ready-IsLater k t rs ws ds fs invalid h = unchanged k rs ws ds fs h

-- A turn: the first ready thread leaves the queue, and it or others may come back behind the rest.
pub turn-IsLater :
    (fuel : ℕ) (k ran : Kernel) (t : ℕ) (rs : List ℕ)
    → IsBetween k (t ∷ rs)
    → Acts (dispatch k) ran
    → IsLater (stop_thread (suc fuel) ran ran.current_thread) rs
turn-IsLater fuel k ran t rs b acts =
    let started = dispatch-IsStarted k t rs b.waiting_list b.deleted_list b.free_list b.held in
    let mid : IsMid (dispatch k) rs b.waiting_list = record {
      deleted_list = b.deleted_list;
      free_list = b.free_list;
      held = started.others;
      off =
          subst (λ c. IsOff (dispatch k) c (lists rs b.waiting_list b.deleted_list b.free_list))
            (sym started.its_turn) started.off;
    } in
    let acted = Acts-IsActed (dispatch k) ran rs b.waiting_list acts mid in
    let l =
      lists (rs ++ acted.made_ready) b.waiting_list acted.mid.deleted_list acted.mid.free_list in
    let stopped = stop_thread-Holds fuel ran ran.current_thread l acted.mid.off acted.mid.held in
    let after =
      ready-IsLater _ ran.current_thread (rs ++ acted.made_ready) b.waiting_list
        acted.mid.deleted_list acted.mid.free_list (ran.state ran.current_thread) stopped in
    record {
      later = acted.made_ready ++ after.later;
      state = rw (sym (append_assoc rs acted.made_ready after.later)) after.state;
    }
