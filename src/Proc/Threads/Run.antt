-- ===== src/Proc/Threads/Run.antt =====
-- Runs of the core: what a thread does in its turn, and the passes of the scheduler as a step relation.
use dogg_os.Base.{ℕ, suc, ◌≤◌, ◌<◌, ◌≡◌, ◌≢◌, ◌⊎◌, List, true, update, length}
use dogg_os.Proc.Threads.{
  running, invalid, Kernel, thread_at, thread_count, wake_threads, start_thread, dispatch,
  stop_thread, detach_thread, join_thread, wait_for_condition, terminate_thread, create_thread,
  run_cleanup,
}
use dogg_os.Chain.{IsChain}

abbrev pub InPage : ℕ → ℕ → Type 0
InPage page thread = (i : ℕ) × (i < thread_count) × (thread ≡ thread_at page i)

-- The pool is empty, and this page may become one of new threads: nothing outside it leads to a thread
-- of it, and its memory marks them INVALID, which k_proc_CreateThread does not see to.
pub record IsNewPage (k : Kernel) (page : ℕ) : Type 0 where
  pub pool_empty : k.pool_threads ≡ 0
  pub marked : (i : ℕ) → i < thread_count → k.state (thread_at page i) ≡ invalid
  pub unlinked : (thread : ℕ) → ¬ InPage page thread → ¬ InPage page (k.queue_next thread)
  pub not_ready : ¬ InPage page k.ready_threads
  pub not_waiting : ¬ InPage page k.cond_wait_threads
  pub not_deleted : ¬ InPage page k.delete_list
  pub not_cleanup : ¬ InPage page k.cleanup_thread
  pub not_current : ¬ InPage page k.current_thread

-- What a running thread does: it waits, ends, sets or clears a condition, detaches or joins another, or
-- creates one, from the pool or, where that is empty, from a new page. Only the scheduler has the handle
-- of the cleanup thread.
pub data Act (k : Kernel) : Kernel → Type 0 where
  waits :
      (condition : ℕ) → k.state k.current_thread ≡ running → Act k (wait_for_condition k condition)
  ends : (value : ℕ) → k.state k.current_thread ≡ running → Act k (terminate_thread k value)
  writes :
      (condition value : ℕ)
      → k.state k.current_thread ≡ running
      → Act k (record k { conditions = update k.conditions condition value })
  detaches :
      (thread : ℕ)
      → k.state k.current_thread ≡ running
      → thread ≢ k.cleanup_thread
      → Act k (detach_thread k thread)
  joins :
      (thread : ℕ)
      → k.state k.current_thread ≡ running
      → thread ≢ k.cleanup_thread
      → Act k (join_thread k thread).1
  creates :
      (fuel page : ℕ)
      → k.state k.current_thread ≡ running
      → (k.pool_threads ≢ 0) ⊎ IsNewPage k page
      → Act k (create_thread (suc fuel) page true k).1

pub data Acts (k : Kernel) : Kernel → Type 0 where
  done : Acts k k
  more : {k' k'' : Kernel} → Acts k k' → Act k' k'' → Acts k k''

-- The turn of the cleanup thread, which does nothing where the lock of the pool is taken.
pub data Tidied (k : Kernel) : Kernel → Type 0 where
  locked : Tidied k (stop_thread 1 (start_thread k k.cleanup_thread) k.cleanup_thread)
  cleaned :
      (fuel : ℕ) (ds : List ℕ)
      → IsChain k.queue_next k.delete_list ds
      → length ds ≤ fuel
      → Tidied k (run_cleanup fuel k)

-- The fuel lets the loop over the waiting threads reach their end.
pub data Woken (k : Kernel) : Kernel → Type 0 where
  looked :
      (fuel : ℕ) (ws : List ℕ)
      → IsChain k.queue_next k.cond_wait_threads ws
      → length ws ≤ fuel
      → Woken k (wake_threads fuel k)

-- A pass of k_proc_RunScheduler: a thread has its turn, or none is ready.
pub data Pass (k : Kernel) : Kernel → Type 0 where
  runs :
      {woken tidy ran : Kernel} (fuel : ℕ)
      → Woken k woken
      → Tidied woken tidy
      → tidy.ready_threads ≢ 0
      → Acts (dispatch tidy) ran
      → Pass k (stop_thread (suc fuel) ran ran.current_thread)
  idles :
      {woken tidy : Kernel}
      → Woken k woken
      → Tidied woken tidy
      → tidy.ready_threads ≡ 0
      → Pass k (dispatch tidy)

pub data Passes : ℕ → Kernel → Kernel → Type 0 where
  here : {k : Kernel} → Passes 0 k k
  next : {n : ℕ} {k k' k'' : Kernel} → Pass k k' → Passes n k' k'' → Passes (suc n) k k''
