-- ===== src/Proc/Threads/Tests.antt =====
-- Runs of the scheduler, and the examples of the theorems on it.
use dogg_os.Base.{
  ℕ, inr, true, length, ◌≡◌, refl, [], ◌∷◌, ◌++◌, ◌==◌, if◌then◌else◌, Array, update, update_self,
  arith,
}
use dogg_os.Proc.Threads.{
  ThreadState, cond_wait, ready, running, detached, invalid, Kernel, wake_threads, sort_waiting,
  take_waiting, queue_waiting_thread, queue_ready_thread, push_waiting, push_chain, push_ready,
  start_thread, dispatch, stop_thread, cleanup, run_cleanup, grow_pool, link_threads, thread_at,
  create_thread, wait_thread, waits, detached_thread,
}
use dogg_os.Chain.{count, last_of}
use dogg_os.Proc.Threads.Queues.{Lists, Holds}
use dogg_os.Proc.Threads.Wake.{lists, woken, still_waiting, waits_on, wake_threads-Holds}
use dogg_os.Proc.Threads.Place.{IsOff, Holds-state}
use dogg_os.Proc.Threads.Stop.{placed, stop_thread-Holds}
use dogg_os.Proc.Threads.Ends.{reverse_onto, cleanup-Holds}
use dogg_os.Proc.Threads.Run.{
  IsNewPage, Act, creates, Pass, here, next, runs, done, looked, locked, cleaned,
}
use dogg_os.Proc.Threads.Between.{IsBetween}
use dogg_os.Proc.Threads.Fair.{IsKept, Passes-IsKept, ready_thread-runs}
use dogg_os.Proc.Threads.Rounds.{
  EndsAfter, sort_goes_on, sort_round, chain_goes_on, push_round, destroy_round, sorted_out,
  wake_threads-cleanup-EndsAfter,
}

-- Threads 100 and 200 are ready, 300 and 400 wait for conditions 7, which is set, and 8, 500 is to be
-- deleted, and 600 is free. 900 is the cleanup thread.
abbrev links : Array ℕ
links t = if t == 100 then 200 else if t == 300 then 400 else 0

abbrev states : Array ThreadState
states t =
    if t == 100
    then ready
    else if t == 200
    then ready
    else if t == 300
    then cond_wait
    else if t == 400
    then cond_wait
    else if t == 500
    then detached
    else invalid

abbrev kernel : Kernel
kernel = record {
  queue_next = links;
  state = states;
  flags = λ t. t == 500;
  wait_condition = λ t. if t == 300 then 7 else 8;
  return_data = λ t. 0;
  conditions = λ c. if c == 7 then 1 else 0;
  ready_threads = 100;
  last_ready_thread = 200;
  cond_wait_threads = 300;
  cond_wait_last_thread = 400;
  delete_list = 500;
  pool_threads = 600;
  cleanup_thread = 900;
  current_thread = 0;
}

abbrev kernel_lists : Lists
kernel_lists = lists (100 ∷ 200 ∷ []) (300 ∷ 400 ∷ []) (500 ∷ []) (600 ∷ [])

kernel-Holds : Holds kernel 0 0 kernel_lists
unfolding count last_of
kernel-Holds = record {
  ready_queue = record {
    chain = (refl, (λ e. omega arith), (refl, (λ e. omega arith), refl));
    ending = refl;
  };
  waiting_queue = record {
    chain = (refl, (λ e. omega arith), (refl, (λ e. omega arith), refl));
    ending = refl;
  };
  sorted = refl;
  resumed = refl;
  deleted = (refl, (λ e. omega arith), refl);
  free = (refl, (λ e. omega arith), refl);
  once = λ t. ground arith;
  all_ready = (refl, (refl, refl));
  all_waiting = (refl, (refl, refl));
  all_sorted = refl;
  all_resumed = refl;
  all_deleted = (refl, refl);
  all_free = (refl, refl);
  cleanup_apart = refl;
}

kernel-IsBetween : IsBetween kernel (100 ∷ 200 ∷ [])
kernel-IsBetween = record {
  waiting_list = 300 ∷ 400 ∷ [];
  deleted_list = 500 ∷ [];
  free_list = 600 ∷ [];
  held = kernel-Holds;
}

-- Thread 300 is behind the ready threads, and 400 waits.
wakes : (wake_threads 2 kernel).last_ready_thread ≡ 300
unfolding wake_threads sort_waiting take_waiting queue_waiting_thread queue_ready_thread
    push_waiting push_chain push_ready
wakes = refl

still_waits : (wake_threads 2 kernel).cond_wait_threads ≡ 400
unfolding wake_threads sort_waiting take_waiting queue_waiting_thread queue_ready_thread
    push_waiting push_chain push_ready
still_waits = refl

waits_for_200 : wait_thread kernel 200 ≡ waits
unfolding wait_thread
waits_for_200 = refl

not_for_500 : wait_thread kernel 500 ≡ detached_thread
unfolding wait_thread
not_for_500 = refl

-- A page of the pool.
page_links : (grow_pool 4096 kernel).queue_next (thread_at 4096 26) ≡ thread_at 4096 27
unfolding grow_pool link_threads
page_links = refl

wake_threads-Holds_example : Holds (wake_threads 2 kernel) 0 0 (
    lists
      ((100 ∷ 200 ∷ []) ++ woken (waits_on kernel) (300 ∷ 400 ∷ []) [])
      (still_waiting (waits_on kernel) (300 ∷ 400 ∷ []))
      (500 ∷ [])
      (600 ∷ []))
wake_threads-Holds_example =
    wake_threads-Holds 2 kernel (100 ∷ 200 ∷ []) (300 ∷ 400 ∷ []) (500 ∷ []) (600 ∷ [])
      (omega arith) kernel-Holds

cleanup-Holds_example :
    Holds
      (cleanup 1 kernel)
      0
      0
      (record kernel_lists { deleted_list = []; free_list = reverse_onto (500 ∷ []) (600 ∷ []) })
cleanup-Holds_example = cleanup-Holds 1 kernel 0 0 kernel_lists (omega arith) kernel-Holds

-- Thread 700 has run up to the end of its time.
abbrev busy : Kernel
busy = record kernel { state = update states 700 running; current_thread = 700 }

busy-Holds : Holds busy 0 0 kernel_lists
unfolding count
busy-Holds =
    Holds-state kernel 0 0 700 kernel_lists running kernel.flags kernel.wait_condition
      kernel.return_data kernel.conditions 700 refl kernel-Holds

busy-IsOff : IsOff busy 700 kernel_lists
unfolding count
busy-IsOff = record {
  some_thread = λ e. omega arith;
  nowhere = refl;
  not_cleanup = λ e. omega arith;
  alone = refl;
}

stop_thread-Holds_example : Holds (stop_thread 1 busy 700) 0 0 (placed running 700 kernel_lists)
stop_thread-Holds_example = stop_thread-Holds 0 busy 700 kernel_lists busy-IsOff busy-Holds

-- A pass in which thread 100 runs and gives up the core at once.
abbrev woken_kernel : Kernel
woken_kernel = wake_threads 2 kernel

abbrev tidy_kernel : Kernel
tidy_kernel = stop_thread 1 (start_thread woken_kernel 900) 900

abbrev next_kernel : Kernel
next_kernel = stop_thread 1 (dispatch tidy_kernel) (dispatch tidy_kernel).current_thread

first_turn : Pass kernel next_kernel
unfolding wake_threads sort_waiting take_waiting queue_waiting_thread queue_ready_thread
    push_waiting push_chain push_ready start_thread stop_thread
first_turn =
    runs 0
      (looked 2 (300 ∷ 400 ∷ []) (refl, (λ e. omega arith), (refl, (λ e. omega arith), refl))
        (omega arith))
      locked (λ e. omega arith) done

Passes-IsKept_example : IsKept next_kernel
Passes-IsKept_example =
    Passes-IsKept 1 kernel next_kernel (next first_turn here) (100 ∷ 200 ∷ [], kernel-IsBetween)

wake_threads-cleanup-EndsAfter_example :
    EndsAfter sort_goes_on sort_round 2
      (take_waiting kernel, 300, 0)
      ((sorted_out 5 kernel).0, 0, (sorted_out 5 kernel).1)
    × EndsAfter chain_goes_on push_round
        (length (woken (waits_on kernel) (300 ∷ 400 ∷ []) []))
        (sorted_out 5 kernel)
        (wake_threads 5 kernel, 0)
    × EndsAfter chain_goes_on destroy_round 1
        (record kernel { delete_list = 0 }, 500)
        (cleanup 9 kernel, 0)
wake_threads-cleanup-EndsAfter_example =
    wake_threads-cleanup-EndsAfter 5 9 kernel (100 ∷ 200 ∷ []) (300 ∷ 400 ∷ []) (500 ∷ [])
      (600 ∷ []) kernel-Holds (omega arith) (omega arith)

abbrev next_woken : Kernel
next_woken = wake_threads 2 next_kernel

ready_thread-runs_example :
    ((dispatch (run_cleanup 1 next_woken)).current_thread ≡ 200)
    × ((dispatch (run_cleanup 1 next_woken)).state 200 ≡ running)
unfolding wake_threads sort_waiting take_waiting queue_waiting_thread queue_ready_thread
    push_waiting push_chain push_ready start_thread stop_thread dispatch
ready_thread-runs_example =
    ready_thread-runs (100 ∷ []) 200 [] kernel next_kernel next_woken (run_cleanup 1 next_woken)
      kernel-IsBetween (next first_turn here)
      (looked 2 (400 ∷ []) (refl, (λ e. omega arith), refl) (omega arith))
      (cleaned 1 (500 ∷ []) (refl, (λ e. omega arith), refl) (omega arith))

-- The same without a free thread, and a page that may become one of new threads.
abbrev empty_kernel : Kernel
empty_kernel = record kernel {
  pool_threads = 0;
  current_thread = 700;
  state = update states 700 running;
}

empty_kernel-IsNewPage : IsNewPage empty_kernel 4096
empty_kernel-IsNewPage = record {
  pool_empty = refl;
  marked = λ i lt. ground arith;
  unlinked = λ t out (i, lt, e). ground arith;
  not_ready = λ (i, lt, e). omega arith;
  not_waiting = λ (i, lt, e). omega arith;
  not_deleted = λ (i, lt, e). omega arith;
  not_cleanup = λ (i, lt, e). omega arith;
  not_current = λ (i, lt, e). omega arith;
}

new_thread : Act empty_kernel (create_thread 1 4096 true empty_kernel).1
new_thread = creates 0 4096 (update_self states 700 running) (inr empty_kernel-IsNewPage)
