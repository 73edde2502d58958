-- ===== src/Streams/Append.antt =====
-- k_io_WriteStreamData and k_io_AllocStream: streams stay streams, and the bytes go behind what is there.
use dogg_os.Base.{
  ℕ, ◌+◌, ◌/◌, ◌^◌, ◌≤◌, ◌<◌, ◌≡◌, ◌≢◌, refl, ap, sym, ◌∙◌, bit_and, true, false, ◌==◌, Array,
  copy_bytes, arith, bit, bit_and-pow2, bit-bit_and,
}
use dogg_os.Streams.{
  Stream, ok, written, write_rounds, write_stream_data, alloc_stream, alloc_stream_buffer,
  take_buffer, link_buffer,
}
use dogg_os.Streams.Tape.{IsClear, IsMemory, IsStream}
use dogg_os.Streams.Write.{IsAppended, write_rounds-IsAppended}

-- What writing `size` bytes of `data_bytes` does to a stream.
pub record IsWritten (malloc : Array ℕ) (limit : ℕ) (h data_bytes : Array ℕ) (size : ℕ)
    (before after : Stream) : Type 0 where
  pub stream : IsStream malloc limit (copy_bytes h before.write_offset data_bytes 0 size) after
  pub clear : IsClear malloc limit after
  pub write_offset : after.write_offset ≡ before.write_offset + size
  pub read_offset : after.read_offset ≡ before.read_offset
  pub flags : after.flags ≡ before.flags

-- What follows the loop, where it wrote `size` bytes.
written-IsWritten :
    (malloc : Array ℕ) (limit : ℕ) (h data_bytes : Array ℕ) (size cur data_offset : ℕ)
    (s after : Stream)
    → IsMemory malloc limit
    → IsStream malloc limit h s
    → s.write_offset + size < 2 ^ 32
    → IsAppended malloc limit h data_bytes 0 size s after
    → data_offset ≡ size
    → IsWritten malloc limit h data_bytes size s (written cur (after, data_offset))
unfolding written
written-IsWritten malloc limit h data_bytes size cur data_offset s after m st small a moved =
    let counted = st.counted in
    let room = st.tape.room in
    let reads : after.read_buffer ≡ malloc (s.read_offset / 4088) = a.read_buffer ∙ st.reads in
    let some : after.read_buffer ≢ 0 =
      λ e. m.there (s.read_offset / 4088) (omega arith) (sym reads ∙ e) in
    let test : (after.read_buffer == 0) ≡ false = ground arith in
    record {
      stream = record {
        tape = record {
          room = a.tape.room;
          calls = a.tape.calls;
          first = a.tape.first;
          last = a.tape.last;
          write = a.tape.write;
          links = a.tape.links;
          end = a.tape.end;
          content = a.tape.content;
          no_spare = a.tape.no_spare;
        };
        reads = rw test (reads ∙ ap (λ o. malloc (o / 4088)) (sym a.read_offset));
        counted =
            let p = a.position in let q = a.read_offset in let r = a.available_count in omega arith;
        small = let p = a.position in omega arith;
        kept = ap (λ f. bit_and f 16) a.flags ∙ st.kept;
      };
      clear = a.clear;
      write_offset = a.position;
      read_offset = a.read_offset;
      flags = a.flags;
    }

-- On a stream that is not blocked, k_io_WriteStreamData succeeds and puts all of the bytes on the tape
-- behind those that are there, over the ends of buffers and into new ones; it stays a stream, and the
-- cursor that reads stays. The positions stay below 2^32, the heap has the buffers, and the memory that
-- it has not handed out yet holds NULL links, which k_rt_Malloc does not see to.
pub write_stream_data-IsWritten :
    (malloc : Array ℕ) (limit : ℕ) (h : Array ℕ) (s : Stream) (data_bytes : Array ℕ) (size : ℕ)
    → IsMemory malloc limit
    → IsStream malloc limit h s
    → IsClear malloc limit s
    → bit_and s.flags 8 ≡ 0
    → 0 < size
    → s.write_offset + size < 2 ^ 32
    → (s.write_offset + size) / 4088 ≤ limit
    → ((write_stream_data malloc s true data_bytes size).0 ≡ ok)
      × IsWritten malloc limit h data_bytes size s
          (write_stream_data malloc s true data_bytes size).1
unfolding write_stream_data
write_stream_data-IsWritten malloc limit h s data_bytes size m st clear free pos small room =
    let some : (size == 0) ≡ false = ground arith in
    let open_stream : (bit_and s.flags 8 == 0) ≡ true = ground arith in
    let (a, moved) =
      write_rounds-IsAppended size malloc limit h s data_bytes 0 size m st.tape clear (omega arith)
        small room in
    rw (some, open_stream)
      (
        refl,
        written-IsWritten malloc limit h data_bytes size s.write_buffer
            (write_rounds size malloc s data_bytes 0 size).1 s
            (write_rounds size malloc s data_bytes 0 size).0 m st small a
            (let e = moved in omega arith),
      )

-- k_io_AllocStream makes a stream that is empty, where the links of the memory that the heap hands out are
-- NULL; those of the memory that is not handed out yet stay so.
pub alloc_stream-IsStream :
    (malloc : Array ℕ) (limit : ℕ) (h next prev : Array ℕ) (bytes : Array (Array ℕ)) (flags : ℕ)
    → IsMemory malloc limit
    → ((i : ℕ) → i ≤ limit → next (malloc i) ≡ 0)
    → IsStream malloc limit h (alloc_stream malloc next prev bytes flags)
      × IsClear malloc limit (alloc_stream malloc next prev bytes flags)
      × ((alloc_stream malloc next prev bytes flags).available_count ≡ 0)
unfolding alloc_stream alloc_stream_buffer take_buffer link_buffer bit
alloc_stream-IsStream malloc limit h next prev bytes flags m clear = (
  record {
    tape = record {
      room = omega arith;
      calls = refl;
      first = refl;
      last = refl;
      write = refl;
      links = λ i lt. absurd (omega arith);
      end = clear 0 (omega arith);
      content = λ p lt. absurd (omega arith);
      no_spare = refl;
    };
    reads = refl;
    counted = refl;
    small = omega arith;
    kept = no_clear;
  },
  (λ i lt there. clear i there),
  refl,
)
  where
    no_clear : bit_and (bit_and flags 6) 16 ≡ 0
    no_clear =
        let none : bit 6 4 ≡ 0 = refl in
        omega (arith, bit_and-pow2 (bit_and flags 6) 4, bit-bit_and flags 6 4)
