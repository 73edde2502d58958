-- ===== src/Proc/Threads.antt =====
-- kernel/proc/thread.c and kernel/proc/proc.c: the states of the threads, the queues they stand in, and
-- the passes of the scheduler.
--
-- A thread is known by its address, and each field of struct k_proc_thread_t is an array over the
-- addresses. One core runs at a time, and a function here runs to its next switch; what runs in between
-- is another function, in the order the caller chooses.
pub mod Queues
pub mod Moves
pub mod Wake
pub mod Place
pub mod Stop
pub mod Ends
pub mod Create
pub mod Run
pub mod Grow
pub mod Mid
pub mod Turn
pub mod Between
pub mod Fair
pub mod Rounds
mod Tests
use dogg_os.Base.{
  ℕ, zero, suc, ◌+◌, ◌-◌, ◌*◌, Bool, true, false, ◌==◌, ◌&&◌, not, if◌then◌else◌, Array, update,
}

-- enum K_PROC_THREAD_STATES
pub data ThreadState : Type 0 where
  cond_wait : ThreadState
  suspended : ThreadState
  terminated : ThreadState
  running : ThreadState
  created : ThreadState
  ready : ThreadState
  detached : ThreadState
  invalid : ThreadState

-- The fields of the threads that the scheduler uses (flags holds one flag, K_PROC_THREAD_FLAG_DETACHED),
-- the conditions in memory, the heads and tails of the queues, and the state of the core.
pub record Kernel : Type 0 where
  pub queue_next : Array ℕ
  pub state : Array ThreadState
  pub flags : Array Bool
  pub wait_condition : Array ℕ
  pub return_data : Array ℕ
  pub conditions : Array ℕ
  pub ready_threads : ℕ
  pub last_ready_thread : ℕ
  pub cond_wait_threads : ℕ
  pub cond_wait_last_thread : ℕ
  pub delete_list : ℕ
  pub pool_threads : ℕ
  pub cleanup_thread : ℕ
  pub current_thread : ℕ

-- `&thread->condition`
abbrev pub condition_of : ℕ → ℕ
condition_of thread = thread + 52

abbrev pub is_invalid : ThreadState → Bool
is_invalid invalid = true
is_invalid _ = false

abbrev pub is_detached : ThreadState → Bool
is_detached detached = true
is_detached _ = false

abbrev pub is_terminated : ThreadState → Bool
is_terminated terminated = true
is_terminated _ = false

-- K_PROC_THREAD_VALID
abbrev pub is_valid : Kernel → ℕ → Bool
is_valid k thread = not (thread == 0) && not (is_invalid (k.state thread))

-- The body of the loop of k_proc_QueueReadyThread.
unfoldable pub push_ready : Kernel → ℕ → Kernel
push_ready k thread =
    let linked =
      if k.ready_threads == 0
      then k.queue_next
      else update k.queue_next k.last_ready_thread thread in
    record k {
      state = update k.state thread ready;
      ready_threads = if k.ready_threads == 0 then thread else k.ready_threads;
      last_ready_thread = thread;
      queue_next = update linked thread 0;
    }

-- The loop, which queues a chain of threads; the fuel bounds the length of the chain.
unfoldable pub push_chain : ℕ → Kernel → ℕ → Kernel
push_chain zero k thread = k
push_chain (suc n) k thread =
    let rest = push_chain n (push_ready k thread) (k.queue_next thread) in
    if thread == 0 then k else rest

-- k_proc_QueueReadyThread
unfoldable pub queue_ready_thread : ℕ → Kernel → ℕ → Kernel
queue_ready_thread fuel k thread = if is_valid k thread then push_chain fuel k thread else k

unfoldable pub push_waiting : Kernel → ℕ → Kernel
push_waiting k thread =
    let linked =
      if k.cond_wait_threads == 0
      then k.queue_next
      else update k.queue_next k.cond_wait_last_thread thread in
    record k {
      cond_wait_threads = if k.cond_wait_threads == 0 then thread else k.cond_wait_threads;
      cond_wait_last_thread = thread;
      queue_next = update linked thread 0;
    }

-- k_proc_QueueWaitingThread
unfoldable pub queue_waiting_thread : Kernel → ℕ → Kernel
queue_waiting_thread k thread =
    if is_valid k thread && not (thread == k.cleanup_thread) then push_waiting k thread else k

-- k_proc_QueueDetachedThread
unfoldable pub queue_detached_thread : Kernel → ℕ → Kernel
queue_detached_thread k thread =
    if is_valid k thread && (is_detached (k.state thread) && not (thread == k.cleanup_thread))
    then record k { queue_next = update k.queue_next thread k.delete_list; delete_list = thread }
    else k

-- k_proc_RunScheduler, the start of a pass: the waiting threads are taken off their queue, …
unfoldable pub take_waiting : Kernel → Kernel
take_waiting k = record k { cond_wait_threads = 0; cond_wait_last_thread = 0 }

-- … those whose condition is set are chained up, the last first, and the others queued again.
unfoldable pub sort_waiting : ℕ → Kernel → ℕ → ℕ → Kernel × ℕ
sort_waiting zero k waiting resume = (k, resume)
sort_waiting (suc n) k waiting resume =
    let next = k.queue_next waiting in
    let woken =
      sort_waiting n (record k { queue_next = update k.queue_next waiting resume }) next waiting in
    let kept = sort_waiting n (queue_waiting_thread k waiting) next resume in
    if waiting == 0
    then (k, resume)
    else if k.conditions (k.wait_condition waiting) == 0
    then kept
    else woken

abbrev pub resume_threads : ℕ → Kernel × ℕ → Kernel
resume_threads fuel (k, resume) = if resume == 0 then k else queue_ready_thread fuel k resume

unfoldable pub wake_threads : ℕ → Kernel → Kernel
wake_threads fuel k = resume_threads fuel (sort_waiting fuel (take_waiting k) k.cond_wait_threads 0)

-- k_proc_RunThread up to the switch.
unfoldable pub start_thread : Kernel → ℕ → Kernel
start_thread k thread = record k { state = update k.state thread running; current_thread = thread }

-- The end of a pass: the first ready thread is taken and started, where there is one.
unfoldable pub dispatch : Kernel → Kernel
dispatch k =
    let taken = record k {
      ready_threads = k.queue_next k.ready_threads;
      queue_next = update k.queue_next k.ready_threads 0;
    } in
    if k.ready_threads == 0
    then record k { last_ready_thread = 0 }
    else start_thread taken k.ready_threads

-- k_proc_RunThread behind the switch, by the state in which the thread has left the core.
abbrev pub put_back : ℕ → Kernel → ℕ → ThreadState → Kernel
put_back fuel k thread detached = queue_detached_thread k thread
put_back fuel k thread cond_wait = queue_waiting_thread k thread
put_back fuel k thread running = queue_ready_thread fuel k thread
put_back fuel k thread _ = k

unfoldable pub stop_thread : ℕ → Kernel → ℕ → Kernel
stop_thread fuel k thread =
    if thread == k.cleanup_thread
    then record k { state = update k.state thread ready }
    else put_back fuel k thread (k.state thread)

-- k_proc_DetachThread
unfoldable pub detach_thread : Kernel → ℕ → Kernel
detach_thread k thread =
    let flagged = record k { flags = update k.flags thread true } in
    let ended = record flagged { state = update k.state thread detached } in
    if not (thread == 0) && not (k.flags thread)
    then if is_terminated (k.state thread) then queue_detached_thread ended thread else flagged
    else k

-- k_proc_WaitCondition of a thread, up to the switch; a condition at address 0 is NULL.
unfoldable pub wait_for_condition : Kernel → ℕ → Kernel
wait_for_condition k condition =
    if not (condition == 0) && (k.conditions condition == 0)
    then record k {
      wait_condition = update k.wait_condition k.current_thread condition;
      state = update k.state k.current_thread cond_wait;
    }
    else k

-- k_proc_TerminateThread, up to the switch.
unfoldable pub terminate_thread : Kernel → ℕ → Kernel
terminate_thread k return_value =
    let thread = k.current_thread in
    let signalled = update k.conditions (condition_of thread) 1 in
    if k.flags thread
    then record k { state = update k.state thread detached; conditions = signalled }
    else record k {
      state = update k.state thread terminated;
      return_data = update k.return_data thread return_value;
      conditions = signalled;
    }

-- k_proc_WaitThread: what it answers at once, and whether it waits for the thread's condition.
pub data Answer : Type 0 where
  invalid_thread : Answer
  detached_thread : Answer
  waits : Answer
  ends : Answer

abbrev pub answer : Kernel → ℕ → Bool → Bool → Bool → Answer
answer k thread true false true = ends
answer k thread true false false = waits
answer k thread true true is_ended = detached_thread
answer k thread false is_flagged is_ended = invalid_thread

unfoldable pub wait_thread : Kernel → ℕ → Answer
wait_thread k thread =
    answer k thread (is_valid k thread && not (k.current_thread == thread)) (k.flags thread)
      (is_terminated (k.state thread))

-- k_proc_WaitThread behind the wait: the value, and the state.
unfoldable pub join_thread : Kernel → ℕ → ℕ × Kernel
join_thread k thread = (
  k.return_data thread,
  detach_thread (record k { wait_condition = update k.wait_condition k.current_thread 0 }) thread,
)

-- k_proc_DestroyThread, what it does to the thread: it is put on the list of free ones.
unfoldable pub destroy_thread : Kernel → ℕ → Kernel
destroy_thread k thread =
    if is_valid k thread
    then record k {
      state = update k.state thread invalid;
      queue_next = update k.queue_next thread k.pool_threads;
      pool_threads = thread;
    }
    else k

unfoldable pub destroy_chain : ℕ → Kernel → ℕ → Kernel
destroy_chain zero k thread = k
destroy_chain (suc n) k thread =
    let rest = destroy_chain n (destroy_thread k thread) (k.queue_next thread) in
    if thread == 0 then k else rest

-- A pass of k_proc_CleanupThread that gets the lock of the pool.
unfoldable pub cleanup : ℕ → Kernel → Kernel
cleanup fuel k = destroy_chain fuel (record k { delete_list = 0 }) k.delete_list

-- The threads of a page of the pool, behind its two fields.
abbrev pub thread_at : ℕ → ℕ → ℕ
thread_at page index = page + 8 + index * 144

-- K_PROC_THREAD_PAGE_THREAD_COUNT
abbrev pub thread_count : ℕ
thread_count = 28

-- The loop of k_proc_CreateThread that links the threads of a new page.
unfoldable pub link_threads : ℕ → ℕ → ℕ → Array ℕ → Array ℕ
link_threads zero index page next = next
link_threads (suc n) index page next =
    link_threads n (index + 1) page
      (update next (thread_at page index) (thread_at page (index + 1)))

unfoldable pub grow_pool : ℕ → Kernel → Kernel
grow_pool page k = record k {
  queue_next =
      update (link_threads (thread_count - 1) 0 page k.queue_next)
        (thread_at page (thread_count - 1)) 0;
  pool_threads = thread_at page 0;
}

-- Where there is no free thread, a new page of them is made at the address `page`.
unfoldable pub ensure_pool : ℕ → Kernel → Kernel
ensure_pool page k = if k.pool_threads == 0 then grow_pool page k else k

abbrev pub initialise : Kernel → ℕ → Kernel
initialise k thread = record k {
  pool_threads = k.queue_next thread;
  queue_next = update k.queue_next thread 0;
  state = update k.state thread created;
  flags = update k.flags thread false;
  conditions = update k.conditions (condition_of thread) 0;
  wait_condition = update k.wait_condition thread 0;
}

abbrev pub create_with : ℕ → Kernel → ℕ → ℕ × Kernel
create_with fuel k thread = (thread, queue_ready_thread fuel (initialise k thread) thread)

-- k_proc_CreateThread, what it does to the pool and the queues; is_ready says that the stack and the
-- entry point are given. The answer 0 is NULL.
unfoldable pub create_thread : ℕ → ℕ → Bool → Kernel → ℕ × Kernel
create_thread fuel page is_ready k =
    let grown = ensure_pool page k in
    if is_ready then create_with fuel grown grown.pool_threads else (0, k)

-- k_proc_RunThread of the cleanup thread, which runs up to its next switch.
unfoldable pub run_cleanup : ℕ → Kernel → Kernel
run_cleanup fuel k =
    stop_thread fuel (cleanup fuel (start_thread k k.cleanup_thread)) k.cleanup_thread
