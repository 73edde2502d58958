-- ===== src/Streams/Tests.antt =====
-- Runs of streams, and the examples of the theorems on them.
use dogg_os.Base.{ℕ, suc, ◌+◌, ◌*◌, ◌<◌, ◌≡◌, refl, true, bit_and, Array, copy_bytes, arith, min}
use dogg_os.Streams.{
  Stream, ok, empty_stream, blocked_stream, alloc_stream, block_stream, write_stream_data,
  read_stream_data, alloc_stream_buffer, take_buffer, link_buffer, write_rounds, write_round,
  next_write_buffer, put_bytes, copy_size, written, read_rounds, read_round, after_read,
}
use dogg_os.Streams.Tape.{IsClear, IsMemory, IsStream}
use dogg_os.Streams.Append.{IsWritten, write_stream_data-IsWritten, alloc_stream-IsStream}
use dogg_os.Streams.Read.{IsRead, read_stream_data-IsRead}
use dogg_os.Streams.Fifo.{write_stream_data-read_stream_data}

-- Three pages of a heap, and a new stream.
abbrev heap : Array ℕ
heap i = suc i * 4096

heap-IsMemory : IsMemory heap 2
heap-IsMemory = record {
  there = λ i le e. absurd (omega arith);
  apart = λ i j le lt e. omega arith;
}

abbrev zeros : Array ℕ
zeros i = 0

abbrev new_stream : Stream
new_stream = alloc_stream heap zeros zeros (λ b i. 7) 22

-- The bytes 40, 41, 42, ...
abbrev counting : Array ℕ
counting i = 40 + i

-- 4100 bytes fill a buffer, and 12 bytes of the next.
abbrev filled : Stream
filled = (write_stream_data heap new_stream true counting 4100).1

-- Streams that have three bytes, and what is read of them.
abbrev three_bytes : Stream
three_bytes = (write_stream_data heap new_stream true counting 3).1

two_read : (read_stream_data three_bytes true zeros 2).1.1 1 ≡ 41
unfolding read_stream_data write_stream_data alloc_stream alloc_stream_buffer take_buffer
    link_buffer write_rounds write_round next_write_buffer put_bytes copy_size written read_rounds
    read_round after_read copy_bytes
two_read = refl

one_left : (read_stream_data three_bytes true zeros 2).1.0.available_count ≡ 1
unfolding read_stream_data write_stream_data alloc_stream alloc_stream_buffer take_buffer
    link_buffer write_rounds write_round next_write_buffer put_bytes copy_size written read_rounds
    read_round after_read
one_left = refl

nothing_left : (read_stream_data new_stream true zeros 2).0 ≡ empty_stream
unfolding read_stream_data alloc_stream alloc_stream_buffer take_buffer link_buffer
nothing_left = refl

blocked : (write_stream_data heap (block_stream new_stream) true counting 1).0 ≡ blocked_stream
unfolding write_stream_data block_stream alloc_stream alloc_stream_buffer take_buffer link_buffer
blocked = refl

new_stream-open : bit_and new_stream.flags 8 ≡ 0
unfolding alloc_stream alloc_stream_buffer take_buffer link_buffer
new_stream-open = refl

new_stream-start : new_stream.write_offset ≡ 0
unfolding alloc_stream alloc_stream_buffer take_buffer link_buffer
new_stream-start = refl

alloc_stream-IsStream_example :
    IsStream heap 2 zeros new_stream × IsClear heap 2 new_stream × (new_stream.available_count ≡ 0)
alloc_stream-IsStream_example =
    alloc_stream-IsStream heap 2 zeros zeros zeros (λ b i. 7) 22 heap-IsMemory (λ i le. refl)

new_stream-IsStream : IsStream heap 2 zeros new_stream
new_stream-IsStream =
    (alloc_stream-IsStream heap 2 zeros zeros zeros (λ b i. 7) 22 heap-IsMemory (λ i le. refl)).0

new_stream-IsClear : IsClear heap 2 new_stream
new_stream-IsClear =
    (alloc_stream-IsStream heap 2 zeros zeros zeros (λ b i. 7) 22 heap-IsMemory (λ i le. refl)).1

write_stream_data-IsWritten_example :
    ((write_stream_data heap new_stream true counting 4100).0 ≡ ok)
    × IsWritten heap 2 zeros counting 4100 new_stream filled
write_stream_data-IsWritten_example =
    write_stream_data-IsWritten heap 2 zeros new_stream counting 4100 heap-IsMemory
      new_stream-IsStream new_stream-IsClear new_stream-open (omega arith)
      (omega (arith, new_stream-start)) (omega (arith, new_stream-start))

filled-IsWritten : IsWritten heap 2 zeros counting 4100 new_stream filled
filled-IsWritten =
    (write_stream_data-IsWritten heap 2 zeros new_stream counting 4100 heap-IsMemory
      new_stream-IsStream new_stream-IsClear new_stream-open (omega arith)
      (omega (arith, new_stream-start)) (omega (arith, new_stream-start))).1

filled-open : bit_and filled.flags 8 ≡ 0
filled-open = let same = filled-IsWritten.flags in rw same new_stream-open

filled-some : 0 < filled.available_count
filled-some =
    let w = filled-IsWritten.write_offset in
    let r = filled-IsWritten.read_offset in
    let c = filled-IsWritten.stream.counted in
    let d = new_stream-IsStream.counted in let e = alloc_stream-IsStream_example.2 in omega arith

read_stream_data-IsRead_example :
    ((read_stream_data filled true zeros 4095).0 ≡ ok)
    × IsRead heap 2
        (copy_bytes zeros new_stream.write_offset counting 0 4100)
        (min 4095 filled.available_count)
        filled
        zeros
        (read_stream_data filled true zeros 4095).1.0
        (read_stream_data filled true zeros 4095).1.1
read_stream_data-IsRead_example =
    read_stream_data-IsRead heap 2 (copy_bytes zeros new_stream.write_offset counting 0 4100) filled
      zeros 4095 heap-IsMemory filled-IsWritten.stream filled-open (omega arith) filled-some

abbrev drained : Stream × Array ℕ
drained = (read_stream_data filled true zeros (new_stream.available_count + 4100)).1

write_stream_data-read_stream_data_example :
    ((i : ℕ) → i < new_stream.available_count → drained.1 i ≡ zeros (new_stream.read_offset + i))
    × ((i : ℕ) → i < 4100 → drained.1 (new_stream.available_count + i) ≡ counting i)
    × (drained.0.available_count ≡ 0)
write_stream_data-read_stream_data_example =
    write_stream_data-read_stream_data heap 2 zeros new_stream counting zeros 4100 heap-IsMemory
      new_stream-IsStream new_stream-IsClear new_stream-open (omega arith)
      (omega (arith, new_stream-start)) (omega (arith, new_stream-start))
