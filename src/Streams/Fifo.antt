-- ===== src/Streams/Fifo.antt =====
-- Streams as queues of bytes: what is read is what was written, in its order.
use dogg_os.Base.{
  ℕ, ◌+◌, ◌/◌, ◌^◌, ◌≤◌, ◌<◌, ◌≡◌, ap, ◌∙◌, true, bit_and, Array, copy_bytes, copy_bytes-inside,
  copy_bytes-before, arith,
}
use dogg_os.Streams.{Stream, write_stream_data, read_stream_data}
use dogg_os.Streams.Tape.{IsClear, IsMemory, IsStream}
use dogg_os.Streams.Append.{write_stream_data-IsWritten}
use dogg_os.Streams.Read.{read_stream_data-IsRead}

-- A stream that is written to, and then read until nothing is left, delivers the bytes that were there
-- and then those that were written, in their order, and is empty then. The stream is not blocked and its
-- buffers do not go back to the free ones; its positions stay below 2^32, the heap has the buffers, and
-- the memory that it has not handed out yet holds NULL links, which k_rt_Malloc does not see to.
pub write_stream_data-read_stream_data :
    (malloc : Array ℕ) (limit : ℕ) (h : Array ℕ) (s : Stream) (data_bytes target : Array ℕ)
    (size : ℕ)
    → IsMemory malloc limit
    → IsStream malloc limit h s
    → IsClear malloc limit s
    → bit_and s.flags 8 ≡ 0
    → 0 < size
    → s.write_offset + size < 2 ^ 32
    → (s.write_offset + size) / 4088 ≤ limit
    → ((i : ℕ)
        → i < s.available_count
        → (read_stream_data
              (write_stream_data malloc s true data_bytes size).1
              true
              target
              (s.available_count + size)).1.1
            i
          ≡ h (s.read_offset + i))
      × ((i : ℕ)
          → i < size
          → (read_stream_data
                (write_stream_data malloc s true data_bytes size).1
                true
                target
                (s.available_count + size)).1.1
              (s.available_count + i)
            ≡ data_bytes i)
      × ((read_stream_data
            (write_stream_data malloc s true data_bytes size).1
            true
            target
            (s.available_count + size)).1.0.available_count
          ≡ 0)
write_stream_data-read_stream_data malloc limit h s data_bytes target size m st clear free pos small
      room =
    let w =
      (write_stream_data-IsWritten malloc limit h s data_bytes size m st clear free pos small
        room).1 in
    let after = (write_stream_data malloc s true data_bytes size).1 in
    let counted = st.counted in
    let from = w.read_offset in
    let to = w.write_offset in
    let total = w.stream.counted in
    let available : after.available_count ≡ s.available_count + size = omega arith in
    let r =
      (read_stream_data-IsRead malloc limit (copy_bytes h s.write_offset data_bytes 0 size) after
        target (s.available_count + size) m w.stream (ap (λ f. bit_and f 8) w.flags ∙ free)
        (omega arith) (omega arith)).1 in
    (
      λ i lt.
          let at : after.read_offset + i ≡ s.read_offset + i = omega arith in
          r.inside i (omega arith)
          ∙ ap (copy_bytes h s.write_offset data_bytes 0 size) at
          ∙ copy_bytes-before h s.write_offset data_bytes 0 size (s.read_offset + i) (omega arith),
      λ i lt.
          let at : after.read_offset + (s.available_count + i) ≡ s.write_offset + i = omega arith in
          let first_byte : 0 + i ≡ i = omega arith in
          r.inside (s.available_count + i) (omega arith)
          ∙ ap (copy_bytes h s.write_offset data_bytes 0 size) at
          ∙ copy_bytes-inside h s.write_offset data_bytes 0 size i lt
          ∙ ap data_bytes first_byte,
      let left = r.stream.counted in
          let read = r.read_offset in let wrote = r.write_offset in omega arith,
    )
