-- ===== src/Streams/Read.antt =====
-- k_io_ReadStreamData delivers the next bytes of the tape.
use dogg_os.Base.{
  ℕ, ◌+◌, ◌/◌, ◌≤◌, ◌<◌, ◌≡◌, ◌≢◌, refl, ap, sym, ◌∙◌, subst, bit_and, true, false, ◌==◌,
  if◌then◌else◌, leb, Array, arith, min,
}
use dogg_os.Streams.{Stream, ok, Reading, after_read, read_stream_data}
use dogg_os.Streams.Tape.{IsMemory, IsTape, IsStream}
use dogg_os.Streams.Rounds.{IsTaken, IsTape-at, read_rounds-IsTaken}

-- What a read of `size` bytes does: they are the next ones of the tape, and nothing behind them is written.
pub record IsRead (malloc : Array ℕ) (limit : ℕ) (h : Array ℕ) (size : ℕ) (before : Stream)
    (target : Array ℕ) (after : Stream) (delivered : Array ℕ) : Type 0 where
  pub stream : IsStream malloc limit h after
  pub read_offset : after.read_offset ≡ before.read_offset + size
  pub write_offset : after.write_offset ≡ before.write_offset
  pub flags : after.flags ≡ before.flags
  pub next : after.next ≡ before.next
  pub inside : (i : ℕ) → i < size → delivered i ≡ h (before.read_offset + i)
  pub behind : (j : ℕ) → size ≤ j → delivered j ≡ target j

after_read-IsRead :
    (malloc : Array ℕ) (limit : ℕ) (h : Array ℕ) (size first : ℕ) (s : Stream) (target : Array ℕ)
    (r : Reading)
    → IsStream malloc limit h s
    → size ≤ s.available_count
    → IsTaken malloc h size
        (record { stream = s; target = target; data_offset = 0; last_freed = 0 })
        r
    → IsRead malloc limit h size s target (after_read first r) r.target
unfolding after_read
after_read-IsRead malloc limit h size first s target r st le taken =
    let flags : r.stream.flags ≡ s.flags = ap (λ x. x.flags) taken.stream in
    let available : r.stream.available_count ≡ s.available_count =
      ap (λ x. x.available_count) taken.stream in
    let read : r.stream.read_offset ≡ s.read_offset + size = ap (λ x. x.read_offset) taken.stream in
    let wrote : r.stream.write_offset ≡ s.write_offset = ap (λ x. x.write_offset) taken.stream in
    let moved = taken.data_offset in
    let counted = st.counted in
    let kept = ap (λ f. bit_and f 16) flags ∙ st.kept in
    let test : (bit_and r.stream.flags 16 == 0) ≡ true = ground arith in
    let tape =
      subst (IsTape malloc limit h) (sym taken.stream)
        (IsTape-at malloc limit h (s.read_offset + size) s st.tape) in
    rw test (record {
      stream = record {
        tape = record {
          room = tape.room;
          calls = tape.calls;
          first = tape.first;
          last = tape.last;
          write = tape.write;
          links = tape.links;
          end = tape.end;
          content = tape.content;
          no_spare = tape.no_spare;
        };
        reads = ap (λ x. x.read_buffer) taken.stream ∙ ap (λ o. malloc (o / 4088)) (sym read);
        counted = let small = st.small in omega arith;
        small = let small = st.small in omega arith;
        kept = kept;
      };
      read_offset = read;
      write_offset = wrote;
      flags = flags;
      next = ap (λ x. x.next) taken.stream;
      inside = λ i lt.
          let first_byte : 0 + i ≡ i = omega arith in
          ap r.target (sym first_byte) ∙ taken.inside i lt;
      behind = λ j le. taken.behind j (omega arith);
    })

-- On a stream with bytes that is not blocked, k_io_ReadStreamData succeeds and delivers the next bytes of
-- the tape, as many as were asked for and are there, and writes nothing behind them; it stays a stream.
pub read_stream_data-IsRead :
    (malloc : Array ℕ) (limit : ℕ) (h : Array ℕ) (s : Stream) (target : Array ℕ) (size : ℕ)
    → IsMemory malloc limit
    → IsStream malloc limit h s
    → bit_and s.flags 8 ≡ 0
    → 0 < size
    → 0 < s.available_count
    → ((read_stream_data s true target size).0 ≡ ok)
      × IsRead malloc limit h
          (min size s.available_count)
          s
          target
          (read_stream_data s true target size).1.0
          (read_stream_data s true target size).1.1
unfolding read_stream_data
read_stream_data-IsRead malloc limit h s target size m st free pos avail =
    let counted = st.counted in
    let open_stream : (bit_and s.flags 8 == 0) ≡ true = ground arith in
    let some : (size == 0) ≡ false = ground arith in
    let not_null : s.buffers ≢ 0 = λ e. m.there 0 (omega arith) (sym st.tape.first ∙ e) in
    let buffered : (s.buffers == 0) ≡ false = ground arith in
    let waiting : (s.read_offset == s.write_offset) ≡ false = ground arith in
    let count : (if leb size s.available_count then size else s.available_count)
        ≡ min size s.available_count =
      ground arith in
    rw (open_stream, some, buffered, waiting, count)
      (
        refl,
        after_read-IsRead malloc limit h (min size s.available_count) s.read_buffer s target _ st
            (omega arith)
            (read_rounds-IsTaken (min size s.available_count) malloc limit h _
              (min size s.available_count) st.tape st.reads (omega arith) (omega arith) st.small),
      )
