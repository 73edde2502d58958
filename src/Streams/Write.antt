-- ===== src/Streams/Write.antt =====
-- The loop of k_io_WriteStreamData appends to the tape.
use native.Mathlib.Decide.{dec_lt}
use dogg_os.Base.{
  Bool-cases, inl, inr, ℕ, zero, suc, ◌+◌, ◌-◌, ◌/◌, ◌%◌, ◌^◌, ◌≤◌, ◌<◌, ◌≡◌, refl, ap, sym, ◌∙◌,
  subst, ◌==◌, leb, Array, copy_bytes, copy_bytes-inside, copy_bytes-before, arith,
}
use dogg_os.Streams.{Stream, copy_size, put_bytes, write_round, write_rounds}
use dogg_os.Streams.Tape.{IsClear, IsMemory, IsTape, copy_size-bounds}
use dogg_os.Streams.Grow.{grown-IsClear, next_write_buffer-tape, put-IsTape, fill-IsTape}

-- What writing `count` bytes of `data_bytes` from `data_offset` on leaves.
pub record IsAppended (malloc : Array ℕ) (limit : ℕ) (h data_bytes : Array ℕ)
    (data_offset count : ℕ) (before after : Stream) : Type 0 where
  pub tape :
      IsTape malloc limit (copy_bytes h before.write_offset data_bytes data_offset count) after
  pub clear : IsClear malloc limit after
  pub position : after.write_offset ≡ before.write_offset + count
  pub read_offset : after.read_offset ≡ before.read_offset
  pub read_buffer : after.read_buffer ≡ before.read_buffer
  pub available_count : after.available_count ≡ before.available_count
  pub flags : after.flags ≡ before.flags

write_round-IsAppended :
    (malloc : Array ℕ) (limit : ℕ) (h : Array ℕ) (s : Stream) (data_bytes : Array ℕ)
    (data_offset size : ℕ)
    → IsMemory malloc limit
    → IsTape malloc limit h s
    → IsClear malloc limit s
    → 0 < size
    → s.write_offset + size < 2 ^ 32
    → (s.write_offset + size) / 4088 ≤ limit
    → IsAppended malloc limit h data_bytes data_offset
        (copy_size s.write_offset size)
        s
        (write_round malloc s data_bytes data_offset size)
unfolding write_round copy_size put_bytes
write_round-IsAppended malloc limit h s data_bytes data_offset size m t clear pos small room =
    elim (Bool-cases (leb (4088 - s.write_offset % 4088) size)) [
      | inl full ↦
          let le : 4088 - s.write_offset % 4088 ≤ size = ground arith in
          rw (full, next_write_buffer-tape malloc limit h s m t)
            (record {
              tape =
                  fill-IsTape malloc limit h s data_bytes data_offset (4088 - s.write_offset % 4088)
                    m t clear (omega arith) (omega arith) (omega arith);
              clear = λ i lt there.
                  grown-IsClear malloc limit h s (s.write_offset + (4088 - s.write_offset % 4088)) m
                    t clear (omega arith) i (omega arith) there;
              position = omega arith;
              read_offset = refl;
              read_buffer = refl;
              available_count = refl;
              flags = refl;
            })
      | inr part ↦
          let lt : size < 4088 - s.write_offset % 4088 = ground arith in
          rw part (record {
            tape = put-IsTape malloc limit h s data_bytes data_offset size m t (omega arith) small;
            clear = λ i lt there. clear i (omega arith) there;
            position = omega arith;
            read_offset = refl;
            read_buffer = refl;
            available_count = refl;
            flags = refl;
          })
    ]

-- Two copies, one behind the other.
copy_bytes-copy_bytes :
    (h : Array ℕ) (w : ℕ) (data_bytes : Array ℕ) (data_offset count size p : ℕ)
    → count ≤ size
    → p < w + size
    → copy_bytes
        (copy_bytes h w data_bytes data_offset count)
        (w + count)
        data_bytes
        (data_offset + count)
        (size - count)
        p
      ≡ copy_bytes h w data_bytes data_offset size p
copy_bytes-copy_bytes h w data_bytes data_offset count size p le lt = elim (dec_lt p w) [
  | yes old ↦
      copy_bytes-before (copy_bytes h w data_bytes data_offset count) (w + count) data_bytes
        (data_offset + count) (size - count) p (omega arith)
      ∙ copy_bytes-before h w data_bytes data_offset count p old
      ∙ sym (copy_bytes-before h w data_bytes data_offset size p old)
  | no new ↦
      let i : ℕ = p - w in
      let at : w + i ≡ p = omega arith in
      let whole : copy_bytes h w data_bytes data_offset size p ≡ data_bytes (data_offset + i) =
        ap (copy_bytes h w data_bytes data_offset size) (sym at)
        ∙ copy_bytes-inside h w data_bytes data_offset size i (omega arith) in
      elim (dec_lt i count) [
        | yes here ↦
            copy_bytes-before (copy_bytes h w data_bytes data_offset count) (w + count) data_bytes
              (data_offset + count) (size - count) p (omega arith)
            ∙ ap (copy_bytes h w data_bytes data_offset count) (sym at)
            ∙ copy_bytes-inside h w data_bytes data_offset count i here
            ∙ sym whole
        | no later ↦
            let j : ℕ = i - count in
            let at2 : w + count + j ≡ p = omega arith in
            let from : data_offset + count + j ≡ data_offset + i = omega arith in
            ap
              (copy_bytes (copy_bytes h w data_bytes data_offset count) (w + count) data_bytes
                (data_offset + count) (size - count))
              (sym at2)
            ∙ copy_bytes-inside (copy_bytes h w data_bytes data_offset count) (w + count) data_bytes
                (data_offset + count) (size - count) j (omega arith)
            ∙ ap data_bytes from
            ∙ sym whole
      ]
]

-- A tape knows its bytes up to the end only.
pub IsTape-content :
    (malloc : Array ℕ) (limit : ℕ) (h k : Array ℕ) (s : Stream)
    → ((p : ℕ) → p < s.write_offset → h p ≡ k p)
    → IsTape malloc limit h s
    → IsTape malloc limit k s
IsTape-content malloc limit h k s same t = record {
  room = t.room;
  calls = t.calls;
  first = t.first;
  last = t.last;
  write = t.write;
  links = t.links;
  end = t.end;
  content = λ p lt. t.content p lt ∙ same p lt;
  no_spare = t.no_spare;
}

IsAppended-join :
    (malloc : Array ℕ) (limit : ℕ) (h data_bytes : Array ℕ) (data_offset count size : ℕ)
    (s round after : Stream)
    → count ≤ size
    → IsAppended malloc limit h data_bytes data_offset count s round
    → IsAppended malloc limit
        (copy_bytes h s.write_offset data_bytes data_offset count)
        data_bytes
        (data_offset + count)
        (size - count)
        round
        after
    → IsAppended malloc limit h data_bytes data_offset size s after
IsAppended-join malloc limit h data_bytes data_offset count size s round after le a b =
    let end : after.write_offset ≡ s.write_offset + size =
      let p = a.position in let q = b.position in omega arith in
    record {
      tape =
          IsTape-content malloc limit _ _ after
            (λ p lt.
              copy_bytes-copy_bytes h s.write_offset data_bytes data_offset count size p le
                (omega arith))
            (subst
              (λ w.
                IsTape malloc limit
                  (copy_bytes (copy_bytes h s.write_offset data_bytes data_offset count) w
                    data_bytes (data_offset + count) (size - count))
                  after)
              a.position b.tape);
      clear = b.clear;
      position = end;
      read_offset = b.read_offset ∙ a.read_offset;
      read_buffer = b.read_buffer ∙ a.read_buffer;
      available_count = b.available_count ∙ a.available_count;
      flags = b.flags ∙ a.flags;
    }

-- Nothing to write.
nothing-IsAppended :
    (malloc : Array ℕ) (limit : ℕ) (h : Array ℕ) (s : Stream) (data_bytes : Array ℕ)
    (data_offset : ℕ)
    → IsTape malloc limit h s
    → IsClear malloc limit s
    → IsAppended malloc limit h data_bytes data_offset 0 s s
nothing-IsAppended malloc limit h s data_bytes data_offset t clear = record {
  tape =
      IsTape-content malloc limit _ _ s
        (λ p lt. sym (copy_bytes-before h s.write_offset data_bytes data_offset 0 p lt)) t;
  clear = clear;
  position = omega arith;
  read_offset = refl;
  read_buffer = refl;
  available_count = refl;
  flags = refl;
}

pub write_rounds-IsAppended :
    (n : ℕ) (malloc : Array ℕ) (limit : ℕ) (h : Array ℕ) (s : Stream) (data_bytes : Array ℕ)
    (data_offset size : ℕ)
    → IsMemory malloc limit
    → IsTape malloc limit h s
    → IsClear malloc limit s
    → size ≤ n
    → s.write_offset + size < 2 ^ 32
    → (s.write_offset + size) / 4088 ≤ limit
    → IsAppended malloc limit h data_bytes data_offset size s
        (write_rounds n malloc s data_bytes data_offset size).0
      × ((write_rounds n malloc s data_bytes data_offset size).1 ≡ data_offset + size)
unfolding write_rounds
write_rounds-IsAppended zero malloc limit h s data_bytes data_offset size m t clear enough small
      room =
    let none : size ≡ 0 = omega arith in
    rw none (nothing-IsAppended malloc limit h s data_bytes data_offset t clear, omega arith)
write_rounds-IsAppended (suc n) malloc limit h s data_bytes data_offset size m t clear enough small
      room =
    elim (Bool-cases (size == 0)) [
      | inl end ↦
          let none : size ≡ 0 = ground arith in
          rw none (nothing-IsAppended malloc limit h s data_bytes data_offset t clear, omega arith)
      | inr more ↦
          let (pos, few, fits) = copy_size-bounds s.write_offset size (ground arith) in
          let count = copy_size s.write_offset size in
          let round = write_round malloc s data_bytes data_offset size in
          let a =
            write_round-IsAppended malloc limit h s data_bytes data_offset size m t clear
              (ground arith) small room in
          let at = a.position in
          let (b, moved) =
            write_rounds-IsAppended n malloc limit
              (copy_bytes h s.write_offset data_bytes data_offset count) round data_bytes
              (data_offset + count) (size - count) m a.tape a.clear (omega arith) (omega arith)
              (omega arith) in
          rw more (
            IsAppended-join malloc limit h data_bytes data_offset count size s round _ few a b,
            omega arith,
          )
    ]
