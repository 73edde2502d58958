-- ===== src/Streams.antt =====
-- kernel/io.c: streams, bytes in a chain of buffers with a cursor to write at and one to read at.
--
-- The links and the bytes of the buffers are arrays over addresses, 0 is NULL. `malloc n` is the address that
-- the n-th call of k_rt_Malloc for a buffer returns. k_rt_CmpXchg meets no other processor here. The target of
-- a stream, its function `read` and its condition are not modelled.
pub mod Tape
pub mod Grow
pub mod Write
pub mod Append
pub mod Rounds
pub mod Read
pub mod Fifo
mod Tests
use dogg_os.Base.{
  ℕ, zero, suc, ◌+◌, ◌-◌, ◌*◌, ◌/◌, ◌%◌, ◌^◌, bit_and, bit_or, Bool, true, false, ◌==◌, ◌&&◌, ◌||◌,
  not, if◌then◌else◌, leb, Array, update, copy_bytes,
}

-- The K_STATUS_CODES of streams.
pub data StreamStatus : Type 0 where
  ok empty_stream blocked_stream invalid_data : StreamStatus

-- struct k_io_stream_t, with the memory of its buffers: `next`, `prev` and `bytes` are the fields of struct
-- k_io_stream_buf_t. `calls` counts the calls of k_rt_Malloc.
pub record Stream : Type 0 where
  pub read_offset : ℕ
  pub write_offset : ℕ
  pub available_count : ℕ
  pub flags : ℕ
  pub buffers : ℕ
  pub last_buffer : ℕ
  pub read_buffer : ℕ
  pub write_buffer : ℕ
  pub free_buffers : ℕ
  pub next : Array ℕ
  pub prev : Array ℕ
  pub bytes : Array (Array ℕ)
  pub calls : ℕ

-- A buffer of the free ones, or of the heap.
unfoldable pub take_buffer : Array ℕ → Stream → ℕ × Stream
take_buffer malloc s =
    if s.free_buffers == 0
    then (malloc s.calls, record s { calls = suc s.calls })
    else (s.free_buffers, record s { free_buffers = s.next s.free_buffers })

unfoldable pub link_buffer : ℕ → Stream → Stream
link_buffer buffer s =
    let linked =
      if s.buffers == 0
      then record s { buffers = buffer }
      else record s { next = update s.next s.last_buffer buffer } in
    record linked { prev = update linked.prev buffer linked.last_buffer; last_buffer = buffer }

unfoldable pub alloc_stream_buffer : Array ℕ → Stream → Stream
alloc_stream_buffer malloc s = link_buffer (take_buffer malloc s).0 (take_buffer malloc s).1

-- `next`, `prev` and `bytes` are what memory holds.
unfoldable pub alloc_stream : Array ℕ → Array ℕ → Array ℕ → Array (Array ℕ) → ℕ → Stream
alloc_stream malloc next prev bytes flags =
    let stream = alloc_stream_buffer malloc (record {
      read_offset = 0;
      write_offset = 0;
      available_count = 0;
      flags = bit_and flags 6;
      buffers = 0;
      last_buffer = 0;
      read_buffer = 0;
      write_buffer = 0;
      free_buffers = 0;
      next = next;
      prev = prev;
      bytes = bytes;
      calls = 0;
    }) in
    record stream { read_buffer = stream.buffers; write_buffer = stream.buffers }

-- Up to the end of the buffer of `offset`, and `size` bytes at most.
unfoldable pub copy_size : ℕ → ℕ → ℕ
copy_size offset size = let full = 4088 - offset % 4088 in if leb full size then full else size

-- The next buffer to write to, where one is filled up.
unfoldable pub next_write_buffer : Array ℕ → Stream → Stream
next_write_buffer malloc s =
    let grown = if s.next s.write_buffer == 0 then alloc_stream_buffer malloc s else s in
    record grown { write_buffer = grown.next grown.write_buffer }

-- The bytes go to `buffer`, the write buffer as it was.
unfoldable pub put_bytes : ℕ → Array ℕ → ℕ → ℕ → Stream → Stream
put_bytes buffer data_bytes data_offset count s = record s {
  bytes =
      update s.bytes buffer
        (copy_bytes (s.bytes buffer) (s.write_offset % 4088) data_bytes data_offset count);
  write_offset = (s.write_offset + count) % 2 ^ 32;
}

unfoldable pub write_round : Array ℕ → Stream → Array ℕ → ℕ → ℕ → Stream
write_round malloc s data_bytes data_offset size =
    put_bytes s.write_buffer data_bytes data_offset (copy_size s.write_offset size)
      (if leb (4088 - s.write_offset % 4088) size then next_write_buffer malloc s else s)

-- The loop, on fuel: it returns the stream and `data_offset`.
unfoldable pub write_rounds : ℕ → Array ℕ → Stream → Array ℕ → ℕ → ℕ → Stream × ℕ
write_rounds zero malloc s data_bytes data_offset size = (s, data_offset)
write_rounds (suc n) malloc s data_bytes data_offset size =
    let count = copy_size s.write_offset size in
    let rest =
      write_rounds n malloc (write_round malloc s data_bytes data_offset size) data_bytes
        (data_offset + count) (size - count) in
    if size == 0 then (s, data_offset) else rest

-- What follows the loop.
unfoldable pub written : ℕ → Stream × ℕ → Stream
written cur_write_buffer (s, data_offset) = record s {
  available_count = (s.available_count + data_offset) % 2 ^ 32;
  read_buffer = if s.read_buffer == 0 then cur_write_buffer else s.read_buffer;
}

-- k_io_WriteStreamData with a stream; `given` is whether `data` is not NULL. Each round writes a byte at least.
unfoldable pub write_stream_data : Array ℕ → Stream → Bool → Array ℕ → ℕ → StreamStatus × Stream
write_stream_data malloc s given data_bytes size =
    if not given || size == 0
    then (invalid_data, s)
    else if not (bit_and s.flags 8 == 0)
    then (blocked_stream, s)
    else (ok, written s.write_buffer (write_rounds size malloc s data_bytes 0 size))

-- The variables of the loop that reads: `last_freed` is last_freed_buffers.
pub record Reading : Type 0 where
  pub stream : Stream
  pub target : Array ℕ
  pub data_offset : ℕ
  pub last_freed : ℕ

unfoldable pub read_round : Reading → ℕ → Reading
read_round r size =
    let s = r.stream in
    let count = copy_size s.read_offset size in
    let emptied = leb (4088 - s.read_offset % 4088) size in
    record {
      stream = record s {
        read_buffer = if emptied then s.next s.read_buffer else s.read_buffer;
        read_offset = (s.read_offset + count) % 2 ^ 32;
      };
      target =
          copy_bytes r.target r.data_offset (s.bytes s.read_buffer) (s.read_offset % 4088) count;
      data_offset = r.data_offset + count;
      last_freed = if emptied then s.read_buffer else r.last_freed;
    }

unfoldable pub read_rounds : ℕ → Reading → ℕ → Reading
read_rounds zero r size = r
read_rounds (suc n) r size =
    let rest = read_rounds n (read_round r size) (size - copy_size r.stream.read_offset size) in
    if size == 0 then r else rest

-- The buffers from `first` to `last` leave the chain, and go to the free ones.
unfoldable pub free_read : ℕ → ℕ → Stream → Stream
free_read first last s =
    let cut =
      if first == s.buffers
      then record s { buffers = s.next last }
      else record s { next = update s.next (s.prev first) (s.next last) } in
    let closed =
      if last == cut.last_buffer
      then record cut { last_buffer = cut.prev first }
      else record cut { prev = update cut.prev (cut.next last) (cut.prev first) } in
    record closed { next = update closed.next last closed.free_buffers; free_buffers = first }

unfoldable pub after_read : ℕ → Reading → Stream
after_read first r =
    let s = record r.stream {
      available_count = (r.stream.available_count + (2 ^ 32 - r.data_offset)) % 2 ^ 32;
    } in
    if not (bit_and s.flags 16 == 0) && not (r.last_freed == 0)
    then free_read first r.last_freed s
    else s

-- k_io_ReadStreamData with a stream.
unfoldable pub read_stream_data : Stream → Bool → Array ℕ → ℕ → StreamStatus × (Stream × Array ℕ)
read_stream_data s given target size =
    if not (bit_and s.flags 8 == 0)
    then (blocked_stream, (s, target))
    else if not given || size == 0
    then (invalid_data, (s, target))
    else if s.buffers == 0 || s.read_offset == s.write_offset
    then (empty_stream, (s, target))
    else let count = if leb size s.available_count then size else s.available_count in
      let r =
        read_rounds count (record { stream = s; target = target; data_offset = 0; last_freed = 0 })
          count in
      (ok, (after_read s.read_buffer r, r.target))

unfoldable pub unblock_stream : Stream → Stream
unblock_stream s = record s { flags = bit_and s.flags 0xfffffff7 }

unfoldable pub block_stream : Stream → Stream
block_stream s = record s { flags = bit_or s.flags 8 }
