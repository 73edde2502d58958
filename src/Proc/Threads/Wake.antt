-- ===== src/Proc/Threads/Wake.antt =====
-- A pass over the waiting threads: those whose condition is set become ready, the others keep waiting,
-- in their order, and no thread is lost.
use dogg_os.Base.{
  ℕ, zero, suc, ◌+◌, ◌≤◌, ◌≡◌, refl, sym, Bool, true, false, List, [], ◌∷◌, ◌++◌, append-nil,
  append_assoc, length, Bool-cases, inl, inr, ◌==◌, if◌then◌else◌, update, arith,
}
use dogg_os.Proc.Threads.{
  cond_wait, Kernel, is_valid, push_chain, queue_ready_thread, push_waiting, queue_waiting_thread,
  take_waiting, sort_waiting, resume_threads, wake_threads,
}
use dogg_os.Chain.{count-nil}
use dogg_os.Proc.Threads.Queues.{Lists, Holds, is_valid-in, Holds-push_waiting}
use dogg_os.Proc.Threads.Moves.{IsTaken, take_resumed, take_sorted, Holds-resume, push_chain-Holds}

-- The threads of a list whose condition is not set, in their order.
unfoldable pub still_waiting : (ℕ → Bool) → List ℕ → List ℕ
still_waiting is_clear [] = []
still_waiting is_clear (t ∷ ts) =
    if is_clear t then t ∷ still_waiting is_clear ts else still_waiting is_clear ts

-- Those whose condition is set, the last first, in front of `acc`.
unfoldable pub woken : (ℕ → Bool) → List ℕ → List ℕ → List ℕ
woken is_clear [] acc = acc
woken is_clear (t ∷ ts) acc =
    if is_clear t then woken is_clear ts acc else woken is_clear ts (t ∷ acc)

pub length-woken :
    (is_clear : ℕ → Bool) (ts acc : List ℕ)
    → length (woken is_clear ts acc) ≤ length ts + length acc
unfolding woken
length-woken is_clear [] acc = omega arith
length-woken is_clear (t ∷ ts) acc = elim (Bool-cases (is_clear t)) [
  | inl clear ↦ rw clear (omega (arith, length-woken is_clear ts acc))
  | inr set ↦ rw set (omega (arith, length-woken is_clear ts (t ∷ acc)))
]

-- The condition that a thread waits for is not set.
abbrev pub waits_on : Kernel → ℕ → Bool
waits_on k t = k.conditions (k.wait_condition t) == 0

pub queue_waiting_thread-taken :
    (k : Kernel) (waiting resume t : ℕ) (l : Lists)
    → IsTaken k waiting resume t l
    → queue_waiting_thread k t ≡ push_waiting k t
unfolding queue_waiting_thread
queue_waiting_thread-taken k waiting resume t l taken =
    let ne = taken.not_cleanup in
    let other : (t == k.cleanup_thread) ≡ false = ground arith in
    rw (is_valid-in k t cond_wait taken.some_thread taken.waits refl, other) refl

pub sort_waiting-Holds :
    (n : ℕ) (k : Kernel) (waiting resume : ℕ) (l : Lists) (ts : List ℕ) (is_clear : ℕ → Bool)
    → ((t : ℕ) → waits_on k t ≡ is_clear t)
    → length ts ≤ n
    → Holds k waiting resume (record l { sorted_list = ts })
    → Holds (sort_waiting n k waiting resume).0 0 (sort_waiting n k waiting resume).1 (record l {
      waiting_list = l.waiting_list ++ still_waiting is_clear ts;
      sorted_list = [];
      resumed_list = woken is_clear ts l.resumed_list;
    })
unfolding sort_waiting still_waiting woken push_waiting
sort_waiting-Holds zero k waiting resume l [] is_clear same le h =
    rw (append-nil l.waiting_list) (rw h.sorted at h)
sort_waiting-Holds (suc n) k waiting resume l [] is_clear same le h =
    let nothing : (waiting == 0) ≡ true = let e = h.sorted in ground arith in
    rw (nothing, append-nil l.waiting_list) (rw h.sorted at h)
sort_waiting-Holds zero k waiting resume l (t ∷ ts) is_clear same le h = absurd (omega arith)
sort_waiting-Holds (suc n) k waiting resume l (t ∷ ts) is_clear same le h =
    let (first, some_t, rest) = h.sorted in
    let something : (t == 0) ≡ false = ground arith in
    let taken = take_sorted k waiting resume t l ts h in
    elim (Bool-cases (is_clear t)) [
      | inl clear ↦
          let kept =
            Holds-push_waiting k (k.queue_next t) resume t (record l { sorted_list = ts }) some_t
              taken.nowhere taken.not_cleanup taken.waits taken.others in
          let later =
            sort_waiting-Holds n (push_waiting k t) (k.queue_next t) resume
              (record l { waiting_list = l.waiting_list ++ t ∷ [] }) ts is_clear same (omega arith)
              kept in
          rw
            (
              first,
              something,
              same t,
              clear,
              queue_waiting_thread-taken k (k.queue_next t) resume t (record l { sorted_list = ts })
                  taken,
              sym (append_assoc l.waiting_list (t ∷ []) (still_waiting is_clear ts)),
            )
            later
      | inr set ↦
          let gone =
            Holds-resume k (k.queue_next t) resume t (record l { sorted_list = ts }) taken in
          let later =
            sort_waiting-Holds n (record k { queue_next = update k.queue_next t resume })
              (k.queue_next t) t (record l { resumed_list = t ∷ l.resumed_list }) ts is_clear same
              (omega arith) gone in
          rw (first, something, same t, set) later
    ]

pub queue_ready_thread-valid :
    (fuel : ℕ) (k : Kernel) (t : ℕ)
    → is_valid k t ≡ true
    → queue_ready_thread fuel k t ≡ push_chain fuel k t
unfolding queue_ready_thread
queue_ready_thread-valid fuel k t valid = rw valid refl

resume_threads-Holds :
    (fuel : ℕ) (k : Kernel) (resume : ℕ) (l : Lists) (ts : List ℕ)
    → length ts ≤ fuel
    → Holds k 0 resume (record l { resumed_list = ts })
    → Holds
        (resume_threads fuel (k, resume))
        0
        0
        (record l { ready_list = l.ready_list ++ ts; resumed_list = [] })
resume_threads-Holds fuel k resume l [] le h =
    let nothing : (resume == 0) ≡ true = let e = h.resumed in ground arith in
    rw (nothing, append-nil l.ready_list) (rw h.resumed at h)
resume_threads-Holds fuel k resume l (t ∷ ts) le h =
    let (first, some_t, rest) = h.resumed in
    let taken = take_resumed k 0 resume t l ts h in
    let something : (resume == 0) ≡ false = ground arith in
    let valid : is_valid k resume ≡ true =
      rw first (is_valid-in k t cond_wait some_t taken.waits refl) in
    rw (something, queue_ready_thread-valid fuel k resume valid)
      (push_chain-Holds fuel k 0 resume l (t ∷ ts) le h)

-- The lists between two passes.
abbrev pub lists : List ℕ → List ℕ → List ℕ → List ℕ → Lists
lists rs ws ds fs = record {
  ready_list = rs;
  waiting_list = ws;
  sorted_list = [];
  resumed_list = [];
  deleted_list = ds;
  free_list = fs;
}

-- The waiting threads are taken off their queue, to be sorted.
pub take_waiting-Holds :
    (k : Kernel) (rs ws ds fs : List ℕ)
    → Holds k 0 0 (lists rs ws ds fs)
    → Holds (take_waiting k) k.cond_wait_threads 0 (record (lists rs [] ds fs) { sorted_list = ws })
unfolding take_waiting
take_waiting-Holds k rs ws ds fs h = record {
  ready_queue = h.ready_queue;
  waiting_queue = record { chain = refl; ending = refl };
  sorted = h.waiting_queue.chain;
  resumed = refl;
  deleted = h.deleted;
  free = h.free;
  once = λ z. omega (arith, h.once z, count-nil z);
  all_ready = h.all_ready;
  all_waiting = refl;
  all_sorted = h.all_waiting;
  all_resumed = refl;
  all_deleted = h.all_deleted;
  all_free = h.all_free;
  cleanup_apart = omega (arith, h.cleanup_apart, count-nil k.cleanup_thread);
}

-- A pass over the waiting threads.
pub wake_threads-Holds :
    (fuel : ℕ) (k : Kernel) (rs ws ds fs : List ℕ)
    → length ws ≤ fuel
    → Holds k 0 0 (lists rs ws ds fs)
    → Holds
        (wake_threads fuel k)
        0
        0
        (lists (rs ++ woken (waits_on k) ws []) (still_waiting (waits_on k) ws) ds fs)
unfolding wake_threads take_waiting
wake_threads-Holds fuel k rs ws ds fs le h =
    let start =
      sort_waiting-Holds fuel (take_waiting k) k.cond_wait_threads 0 (lists rs [] ds fs) ws
        (waits_on k) (λ t. refl) le (take_waiting-Holds k rs ws ds fs h) in
    resume_threads-Holds fuel _ _ (lists rs (still_waiting (waits_on k) ws) ds fs)
      (woken (waits_on k) ws []) (omega (arith, length-woken (waits_on k) ws [])) start
