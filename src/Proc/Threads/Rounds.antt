-- ===== src/Proc/Threads/Rounds.antt =====
-- The loops of a pass, as loops that test and make a round: each ends, after as many rounds as its chain
-- has threads, in the state that the function on fuel gives.
use dogg_os.Base.{
  ℕ, zero, suc, ◌≤◌, ◌≡◌, refl, Bool, true, false, List, [], ◌∷◌, ◌++◌, length, Bool-cases, inl,
  inr, ◌==◌, not, if◌then◌else◌, update, arith,
}
use dogg_os.Proc.Threads.{
  cond_wait, Kernel, is_valid, push_chain, push_ready, push_waiting, sort_waiting, resume_threads,
  wake_threads, take_waiting, destroy_chain, destroy_thread, cleanup, queue_waiting_thread,
}
use dogg_os.Proc.Threads.Queues.{Lists, Holds, is_valid-in, Holds-push_ready, Holds-push_waiting}
use dogg_os.Proc.Threads.Moves.{take_resumed, take_sorted, Holds-resume}
use dogg_os.Proc.Threads.Wake.{
  lists, length-woken, woken, waits_on, still_waiting, queue_waiting_thread-taken,
  queue_ready_thread-valid, take_waiting-Holds, sort_waiting-Holds,
}
use dogg_os.Proc.Threads.Ends.{destroy_thread-Holds, destroy_thread-clear}

-- A while loop with this test and this body ends after so many rounds.
pub data EndsAfter {ℓ} {S : Type ℓ} (goes_on : S → Bool) (round : S → S) : ℕ → S → S → Type ℓ where
  over : {s : S} → goes_on s ≡ false → EndsAfter goes_on round 0 s s
  again :
      {n : ℕ} {s s' : S}
      → goes_on s ≡ true
      → EndsAfter goes_on round n (round s) s'
      → EndsAfter goes_on round (suc n) s s'

-- `while(waiting_thread)` of k_proc_RunScheduler, on the state, waiting_thread and resume_thread.
abbrev pub sort_goes_on : Kernel × ℕ × ℕ → Bool
sort_goes_on (k, waiting, resume) = not (waiting == 0)

abbrev pub sort_round : Kernel × ℕ × ℕ → Kernel × ℕ × ℕ
sort_round (k, waiting, resume) =
    if k.conditions (k.wait_condition waiting) == 0
    then (queue_waiting_thread k waiting, k.queue_next waiting, resume)
    else (
      record k { queue_next = update k.queue_next waiting resume },
      k.queue_next waiting,
      waiting,
    )

-- `while(thread)`, on the state and the thread: of k_proc_QueueReadyThread, …
abbrev pub chain_goes_on : Kernel × ℕ → Bool
chain_goes_on (k, thread) = not (thread == 0)

abbrev pub push_round : Kernel × ℕ → Kernel × ℕ
push_round (k, thread) = (push_ready k thread, k.queue_next thread)

-- … and of k_proc_CleanupThread.
abbrev pub destroy_round : Kernel × ℕ → Kernel × ℕ
destroy_round (k, thread) = (destroy_thread k thread, k.queue_next thread)

sort_waiting-EndsAfter :
    (n : ℕ) (k : Kernel) (waiting resume : ℕ) (l : Lists) (ts : List ℕ)
    → length ts ≤ n
    → Holds k waiting resume (record l { sorted_list = ts })
    → EndsAfter sort_goes_on sort_round
        (length ts)
        (k, waiting, resume)
        ((sort_waiting n k waiting resume).0, 0, (sort_waiting n k waiting resume).1)
unfolding sort_waiting push_waiting
sort_waiting-EndsAfter zero k waiting resume l [] le h = rw h.sorted (over refl)
sort_waiting-EndsAfter (suc n) k waiting resume l [] le h = rw h.sorted (over refl)
sort_waiting-EndsAfter zero k waiting resume l (t ∷ ts) le h = absurd (omega arith)
sort_waiting-EndsAfter (suc n) k waiting resume l (t ∷ ts) le h =
    let (first, some_t, rest) = h.sorted in
    let something : (t == 0) ≡ false = ground arith in
    let test : not (t == 0) ≡ true = rw something refl in
    let taken = take_sorted k waiting resume t l ts h in
    elim (Bool-cases (waits_on k t)) [
      | inl clear ↦
          let kept =
            Holds-push_waiting k (k.queue_next t) resume t (record l { sorted_list = ts }) some_t
              taken.nowhere taken.not_cleanup taken.waits taken.others in
          let queued =
            queue_waiting_thread-taken k (k.queue_next t) resume t (record l { sorted_list = ts })
              taken in
          let more =
            sort_waiting-EndsAfter n (push_waiting k t) (k.queue_next t) resume
              (record l { waiting_list = l.waiting_list ++ t ∷ [] }) ts (omega arith) kept in
          rw (first, something) (again test (rw (clear, queued) more))
      | inr set ↦
          let gone =
            Holds-resume k (k.queue_next t) resume t (record l { sorted_list = ts }) taken in
          let more =
            sort_waiting-EndsAfter n (record k { queue_next = update k.queue_next t resume })
              (k.queue_next t) t (record l { resumed_list = t ∷ l.resumed_list }) ts (omega arith)
              gone in
          rw (first, something) (again test (rw set more))
    ]

push_chain-EndsAfter :
    (n : ℕ) (k : Kernel) (t : ℕ) (l : Lists) (ts : List ℕ)
    → length ts ≤ n
    → Holds k 0 t (record l { resumed_list = ts })
    → EndsAfter chain_goes_on push_round (length ts) (k, t) (push_chain n k t, 0)
unfolding push_chain
push_chain-EndsAfter zero k t l [] le h = rw h.resumed (over refl)
push_chain-EndsAfter (suc n) k t l [] le h = rw h.resumed (over refl)
push_chain-EndsAfter zero k t l (x ∷ ts) le h = absurd (omega arith)
push_chain-EndsAfter (suc n) k t l (x ∷ ts) le h =
    let (first, some_x, rest) = h.resumed in
    let something : (x == 0) ≡ false = ground arith in
    let test : not (x == 0) ≡ true = rw something refl in
    let taken = take_resumed k 0 t x l ts h in
    let pushed =
      Holds-push_ready k 0 (k.queue_next x) x (record l { resumed_list = ts }) some_x taken.nowhere
        taken.not_cleanup taken.others in
    rw (first, something)
      (again test (
        push_chain-EndsAfter n (push_ready k x) (k.queue_next x)
          (record l { ready_list = l.ready_list ++ x ∷ [] }) ts (omega arith) pushed))

resume_threads-EndsAfter :
    (n : ℕ) (k : Kernel) (resume : ℕ) (l : Lists) (ts : List ℕ)
    → length ts ≤ n
    → Holds k 0 resume (record l { resumed_list = ts })
    → EndsAfter chain_goes_on push_round (length ts) (k, resume) (resume_threads n (k, resume), 0)
resume_threads-EndsAfter n k resume l [] le h = rw h.resumed (over refl)
resume_threads-EndsAfter n k resume l (t ∷ ts) le h =
    let (first, some_t, rest) = h.resumed in
    let something : (resume == 0) ≡ false = ground arith in
    let taken = take_resumed k 0 resume t l ts h in
    let valid : is_valid k resume ≡ true =
      rw first (is_valid-in k t cond_wait some_t taken.waits refl) in
    rw (something, queue_ready_thread-valid n k resume valid)
      (push_chain-EndsAfter n k resume l (t ∷ ts) le h)

destroy_chain-EndsAfter :
    (n : ℕ) (k : Kernel) (t : ℕ) (l : Lists) (ds : List ℕ)
    → length ds ≤ n
    → k.delete_list ≡ 0
    → Holds (record k { delete_list = t }) 0 0 (record l { deleted_list = ds })
    → EndsAfter chain_goes_on destroy_round (length ds) (k, t) (destroy_chain n k t, 0)
unfolding destroy_chain
destroy_chain-EndsAfter zero k t l [] le clear h = rw h.deleted (over refl)
destroy_chain-EndsAfter (suc n) k t l [] le clear h = rw h.deleted (over refl)
destroy_chain-EndsAfter zero k t l (d ∷ ds) le clear h = absurd (omega arith)
destroy_chain-EndsAfter (suc n) k t l (d ∷ ds) le clear h =
    let (first, some_d, rest) = h.deleted in
    let something : (d == 0) ≡ false = ground arith in
    let test : not (d == 0) ≡ true = rw something refl in
    let step = destroy_thread-Holds k 0 0 d l ds (rw first at h) in
    rw (first, something)
      (again test (
        destroy_chain-EndsAfter n (destroy_thread k d) (k.queue_next d)
          (record l { free_list = d ∷ l.free_list }) ds (omega arith)
          (destroy_thread-clear k d clear) step))

-- What the loop over the waiting threads leaves: the state, and the head of those to be resumed.
abbrev pub sorted_out : ℕ → Kernel → Kernel × ℕ
sorted_out fuel k = sort_waiting fuel (take_waiting k) k.cond_wait_threads 0

-- Where the queues are in order, the loops of a pass end, and the functions on fuel, given that many
-- rounds or more, are what they end in: the loop over the waiting threads makes a round for each, that of
-- k_proc_QueueReadyThread one for each whose condition is set, and that of k_proc_CleanupThread one for
-- each thread to be deleted.
pub wake_threads-cleanup-EndsAfter :
    (m n : ℕ) (k : Kernel) (rs ws ds fs : List ℕ)
    → Holds k 0 0 (lists rs ws ds fs)
    → length ws ≤ m
    → length ds ≤ n
    → EndsAfter sort_goes_on sort_round
        (length ws)
        (take_waiting k, k.cond_wait_threads, 0)
        ((sorted_out m k).0, 0, (sorted_out m k).1)
      × EndsAfter chain_goes_on push_round
          (length (woken (waits_on k) ws []))
          (sorted_out m k)
          (wake_threads m k, 0)
      × EndsAfter chain_goes_on destroy_round
          (length ds)
          (record k { delete_list = 0 }, k.delete_list)
          (cleanup n k, 0)
unfolding wake_threads take_waiting cleanup
wake_threads-cleanup-EndsAfter m n k rs ws ds fs h le le' =
    let start = take_waiting-Holds k rs ws ds fs h in
    let len = length-woken (waits_on k) ws [] in
    (
      sort_waiting-EndsAfter m (take_waiting k) k.cond_wait_threads 0 (lists rs [] ds fs) ws le
          start,
      resume_threads-EndsAfter m _ _ (lists rs (still_waiting (waits_on k) ws) ds fs)
          (woken (waits_on k) ws []) (omega arith)
          (sort_waiting-Holds m (take_waiting k) k.cond_wait_threads 0 (lists rs [] ds fs) ws
            (waits_on k) (λ t. refl) le start),
      destroy_chain-EndsAfter n (record k { delete_list = 0 }) k.delete_list (lists rs ws ds fs) ds
          le' refl h,
    )
