-- ===== src/Lib.antt =====
-- doggOS, a small kernel for x86: models of its parts and their theorems.
--
-- The kernel (kernel/) boots into k_main.c, sets up memory (mem/), devices (dev/), processes and
-- threads (proc/), file systems (fs/) and a terminal (sys/). The parts call each other directly; the
-- run-time library (rt/) serves them all.
--
-- Files:
--   Base          names from the libraries, Boolean tests, lists, arrays in memory and copies
--                 of their bytes, bits
--   Chain         linked lists, as the scheduler and the heap have them
--   Mem.Paging    kernel/mem/pmap.c: the page map. State: the frames of physical memory that hold
--                 tables, the frame of the directory, the log of TLB flushes. One function for each of
--                 k_mem_MapLinearAddress (its two halves are ensure_table and install),
--                 k_mem_UnmapLinearAddress, k_mem_LinearAddressPhysicalPage (physical_page) and
--                 k_mem_IsLinearAddressMapped (is_mapped). Its children: Entry (flags and indices),
--                 Layout (the recursive mapping), Clear, Extend and Ensure (a new page table), Edit
--                 (one entry), Map, Unmap, Refusal (the theorems), Tests (their examples)
--   Mem.Ranges    kernel/mem/mngr.c, virtual ranges: k_mem_AllocVirtualRange (split_range, take_range),
--                 k_mem_UsedVirtualRangeIndex, k_mem_FreeVirtualRange (free_before, with merge_end and
--                 keep_end). Its children: Moves (the loops that move ranges), Writes, Split, Allocate,
--                 Free, Tests
--   Mem.Pages     kernel/mem/mngr.c, physical pages: k_mem_AllocPhysicalPage and
--                 k_mem_FreePhysicalPages. Its children: Take, Return, Tests
--   Rt.Text       kernel/rt/string.c: strings. k_rt_StrCmp is str_cmp, and so on. Its children:
--                 Compare, Search, Copy, Digits and Numbers, Tests
--   Sys.Line      kernel/sys/term.c: k_sys_TerminalReadLine (read_line, with its loop read_keys). Its
--                 children: Edit (the editor it refines), Bounds, Tests
--   Rt.Objects    kernel/rt/objlist.c: object lists. State: the counts, the addresses of the buffers, and
--                 the free indices (a stack, or a chain through the freed elements). One function for
--                 each of k_rt_CreateObjList (create_list), k_rtl_DestroyObjList,
--                 k_rt_AllocObjListElement (alloc_element, with allocate and advance),
--                 k_rt_FreeObjListElement (with release and keep), k_rt_GetObjListElement and
--                 k_rt_AddObjListBuffer (with fill). Its children: Live (elements in use, the invariant),
--                 Count, Create, Take, Return, Tests
--   Rt.Heap       kernel/rt/alloc.c: the heap of small chunks. State: the ends of the buckets, the links of
--                 the chunks and the headers of their pages. One function for each of
--                 k_rt_SmallBucketIndexFromSize, k_rt_InitChunkPage (carve_chunks and link_row for the
--                 bucket it is called for, carve_front for the lower ones), k_rt_SmallAlloc (with
--                 pop_chunk) and k_rt_SmallFree (bucket_of and push_chunk). Its children: Place and Chunks (the
--                 lists that a heap holds, and where the chunks stand), Sizes, Homes (buckets by size and by
--                 address), Take, Append, Carve and Front (the operations on lists), Page, Serve, Apart
--                 (chunks do not overlap), Tests
--   Dev.Keyboard  kernel/dev/kb.c: k_dev_kb_KeyboardHandler and its tables. State: the modifier flags,
--                 and the bytes sent to the terminal of the focused process, if there is one. Its
--                 children: Tables, Typing, Tests
--   KernelText    kernel/k_string.c: k_itoa and k_xtoa. Its children: Nibbles, Hex, Decimal, Tests
--   Sys.Terminal  kernel/sys/term.c: the cursors and cells of the terminal, k_sys_TerminalPutSingleChar
--                 and its cases, k_sys_TerminalPuts with k_sys_TerminalScroll. Its children: Signed (lines
--                 above the screen), Sync, Screen, Tests
--   Fs.Cache      kernel/fs/pup.c, the cache of blocks: k_fs_PupFindOrLoadCacheEntry (find_or_load),
--                 k_fs_PupRead, k_fs_PupStoreCacheEntry and k_fs_PupFlushCache, over the reads and writes of
--                 kernel/fs/fs.c and kernel/dev/dsk.c. Its children: Entries (searching and loading), Read,
--                 Store, Tests
--   Fs.Blocks     kernel/fs/pup.c, the bitmap of the blocks of a volume: k_fs_PupAllocBlock and
--                 k_fs_PupFreeBlock. Its children: Bytes (one bit), Alloc, Free, Tests
--   Streams       kernel/io.c: streams. State: the cursors, the chain of buffers and their memory. One function
--                 for each of k_io_AllocStream, k_io_AllocStreamBuffer (take_buffer, link_buffer),
--                 k_io_WriteStreamData (its loop is write_rounds, its rest written), k_io_ReadStreamData (its
--                 loop is read_rounds, its rest after_read with free_read), k_io_BlockStream and
--                 k_io_UnblockStream. Its children: Tape (the bytes by position, which buffers hold
--                 them), Grow, Write and Append, Rounds and Read, Fifo, Tests
--   Proc.Threads  kernel/proc/thread.c and proc.c: the threads and the scheduler. State: the fields of the
--                 threads by address, the ready queue, the queue of those that wait for a condition, the
--                 list for deletion, the pool, and the thread that runs. One function for each function of
--                 thread.c; the body of the loop of k_proc_RunScheduler is wake_threads, run_cleanup,
--                 dispatch and stop_thread. Its children: Queues (the lists that a
--                 state holds), Moves, Wake, Place, Stop, Ends and Create (what each operation does to the
--                 lists), Run (turns and passes as a step relation), Grow (a page of
--                 new threads), Mid, Turn, Between, Fair (the theorems on passes), Rounds (their loops end), Tests
--
-- Numbers are natural numbers below 2^32; a signed one is its bit pattern. Memory accesses of the page
-- map go through the recursive mapping, as the processor makes them: the model has no TLB, and takes
-- each access as walked anew. The spinlocks are not modelled. The page that k_mem_AllocPhysicalPage
-- returns is an argument.
--
-- Fuel: the outer loop of k_rt_StrStr has the length of the string searched, since each round takes a
-- byte; the loops of k_rt_ItoA and of k_itoa have as many rounds as their tables have rows to go over;
-- k_rt_StrLen of a buffer has fuel as an argument, and the theorem asks for more than the length of
-- what the buffer holds; the loops of Mem.Ranges have the number of ranges they go over; the do loop
-- of k_mem_FreePhysicalPages has one round more than the range has pages, since it may run behind the
-- last; the loops of k_xtoa have the 16 nibbles of a word; the loop of k_sys_TerminalReadLine has one
-- round for each byte of input, and where these are used up the call waits; the loop of
-- k_fs_PupAllocBlock has as many rounds as the volume has blocks, and starts over once for each state
-- of the bitmap in a list, those that failed exchanges find. The loop of k_fs_PupRead has as many
-- rounds as there are blocks to read, since each copies one or more. The loop of k_rt_InitChunkPage
-- over the chunks in front has as many rounds as there are lower buckets. The loops of
-- k_io_WriteStreamData and k_io_ReadStreamData have as many rounds as there are bytes, since each
-- moves one or more. The loops of the scheduler have the length of the chain they follow; a pass takes
-- fuel that its queues show to be enough.
--
-- One core runs the threads: a turn is a list of acts, each run to its end, and a switch happens where the
-- code yields or, between two acts, where the timer preempts it. The memory of a page of new threads is
-- taken to mark them INVALID, which the code does not see to.
--
-- Not modelled: the assembly, the ports and interrupts, and the parts that the list of files does not
-- name.
pub mod Base
pub mod Chain
pub mod Mem
pub mod Rt
pub mod Dev
pub mod KernelText
pub mod Sys
pub mod Fs
pub mod Proc
pub mod Streams
