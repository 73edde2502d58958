-- ===== src/Streams/Rounds.antt =====
-- The loop of k_io_ReadStreamData delivers the next bytes of the tape.
use native.Mathlib.Decide.{dec_lt}
use dogg_os.Base.{
  Bool-cases, inl, inr, ℕ, zero, suc, ◌+◌, ◌-◌, ◌/◌, ◌%◌, ◌^◌, ◌≤◌, ◌<◌, ◌≡◌, refl, ap, sym, ◌∙◌,
  subst, ◌==◌, if◌then◌else◌, leb, Array, copy_bytes-inside, copy_bytes-before, copy_bytes-behind,
  arith,
}
use dogg_os.Streams.{Stream, Reading, copy_size, read_round, read_rounds}
use dogg_os.Streams.Tape.{IsTape, copy_size-bounds, copy_size-full, copy_size-part}

-- The stream with the cursor that reads at position o.
abbrev pub at : Array ℕ → ℕ → Stream → Stream
at malloc o s = record s { read_offset = o; read_buffer = malloc (o / 4088) }

-- What reading `size` bytes does, where `h` is the tape.
pub record IsTaken (malloc h : Array ℕ) (size : ℕ) (before after : Reading) : Type 0 where
  pub stream : after.stream ≡ at malloc (before.stream.read_offset + size) before.stream
  pub data_offset : after.data_offset ≡ before.data_offset + size
  pub inside :
      (i : ℕ) → i < size → after.target (before.data_offset + i) ≡ h (before.stream.read_offset + i)
  pub in_front : (j : ℕ) → j < before.data_offset → after.target j ≡ before.target j
  pub behind : (j : ℕ) → before.data_offset + size ≤ j → after.target j ≡ before.target j

-- A round.
round-IsTaken :
    (malloc : Array ℕ) (limit : ℕ) (h : Array ℕ) (r : Reading) (size : ℕ)
    → IsTape malloc limit h r.stream
    → r.stream.read_buffer ≡ malloc (r.stream.read_offset / 4088)
    → 0 < size
    → r.stream.read_offset + size ≤ r.stream.write_offset
    → r.stream.write_offset < 2 ^ 32
    → IsTaken malloc h (copy_size r.stream.read_offset size) r (read_round r size)
unfolding read_round
round-IsTaken malloc limit h r size t reads pos le small =
    let s = r.stream in
    let count = copy_size s.read_offset size in
    let (some, few, fits) = copy_size-bounds s.read_offset size pos in
    let whole : (s.read_offset + count) % 2 ^ 32 ≡ s.read_offset + count = omega arith in
    record {
      stream = rw (whole, moved) refl;
      data_offset = refl;
      inside = λ i lt.
          let here : (s.read_offset + i) / 4088 ≡ s.read_offset / 4088 = omega arith in
          let off : (s.read_offset + i) % 4088 ≡ s.read_offset % 4088 + i = omega arith in
          copy_bytes-inside r.target r.data_offset (s.bytes s.read_buffer) (s.read_offset % 4088)
            count i lt
          ∙ ap (λ b. s.bytes b (s.read_offset % 4088 + i)) reads
          ∙ ap (λ k. s.bytes (malloc k) (s.read_offset % 4088 + i)) (sym here)
          ∙ ap (s.bytes (malloc ((s.read_offset + i) / 4088))) (sym off)
          ∙ t.content (s.read_offset + i) (omega arith);
      in_front = λ j lt.
          copy_bytes-before r.target r.data_offset (s.bytes s.read_buffer) (s.read_offset % 4088)
            count j lt;
      behind = λ j lt.
          copy_bytes-behind r.target r.data_offset (s.bytes s.read_buffer) (s.read_offset % 4088)
            count j lt;
    }
  where
    moved :
        (if leb (4088 - r.stream.read_offset % 4088) size
          then r.stream.next r.stream.read_buffer
          else r.stream.read_buffer)
        ≡ malloc ((r.stream.read_offset + copy_size r.stream.read_offset size) / 4088)
    moved = elim (Bool-cases (leb (4088 - r.stream.read_offset % 4088) size)) [
      | inl full ↦
          let filled : copy_size r.stream.read_offset size ≡ 4088 - r.stream.read_offset % 4088 =
            copy_size-full r.stream.read_offset size full in
          let next_one : suc (r.stream.read_offset / 4088)
              ≡ (r.stream.read_offset + copy_size r.stream.read_offset size) / 4088 =
            omega arith in
          let fit = (copy_size-bounds r.stream.read_offset size pos).1 in
          rw full (
            ap r.stream.next reads
            ∙ t.links (r.stream.read_offset / 4088) (omega arith)
            ∙ ap malloc next_one)
      | inr part ↦
          let same : r.stream.read_offset / 4088
              ≡ (r.stream.read_offset + copy_size r.stream.read_offset size) / 4088 =
            copy_size-part r.stream.read_offset size part in
          rw part (reads ∙ ap malloc same)
    ]

-- A round, and the rest of the read behind it.
IsTaken-join :
    (malloc h : Array ℕ) (count size : ℕ) (r round after : Reading)
    → count ≤ size
    → IsTaken malloc h count r round
    → IsTaken malloc h (size - count) round after
    → IsTaken malloc h size r after
IsTaken-join malloc h count size r round after le a b =
    let read : round.stream.read_offset ≡ r.stream.read_offset + count =
      ap (λ s. s.read_offset) a.stream in
    let put = a.data_offset in
    let end : round.stream.read_offset + (size - count) ≡ r.stream.read_offset + size =
      omega arith in
    record {
      stream =
          b.stream
          ∙ ap (λ o. at malloc o round.stream) end
          ∙ ap (at malloc (r.stream.read_offset + size)) a.stream;
      data_offset = let moved = b.data_offset in omega arith;
      inside = λ i lt. by_place i lt read put (dec_lt i count);
      in_front = λ j lt. b.in_front j (omega arith) ∙ a.in_front j lt;
      behind = λ j le. b.behind j (omega arith) ∙ a.behind j (omega arith);
    }
  where
    by_place :
        (i : ℕ)
        → i < size
        → round.stream.read_offset ≡ r.stream.read_offset + count
        → round.data_offset ≡ r.data_offset + count
        → Dec (i < count)
        → after.target (r.data_offset + i) ≡ h (r.stream.read_offset + i)
    by_place i lt read put (yes here) =
        b.in_front (r.data_offset + i) (omega arith) ∙ a.inside i here
    by_place i lt read put (no later) =
        let to : round.data_offset + (i - count) ≡ r.data_offset + i = omega arith in
        let from : round.stream.read_offset + (i - count) ≡ r.stream.read_offset + i =
          omega arith in
        ap after.target (sym to) ∙ b.inside (i - count) (omega arith) ∙ ap h from

nothing-IsTaken :
    (malloc h : Array ℕ) (r : Reading)
    → r.stream.read_buffer ≡ malloc (r.stream.read_offset / 4088)
    → IsTaken malloc h 0 r r
nothing-IsTaken malloc h r reads =
    let same : r.stream.read_offset + 0 ≡ r.stream.read_offset = omega arith in
    record {
      stream =
          ap (λ b. record r.stream { read_buffer = b }) reads
          ∙ ap (λ o. at malloc o r.stream) (sym same);
      data_offset = omega arith;
      inside = λ i lt. absurd (omega arith);
      in_front = λ j lt. refl;
      behind = λ j le. refl;
    }

-- The tape under another cursor that reads.
pub IsTape-at :
    (malloc : Array ℕ) (limit : ℕ) (h : Array ℕ) (o : ℕ) (s : Stream)
    → IsTape malloc limit h s
    → IsTape malloc limit h (at malloc o s)
IsTape-at malloc limit h o s t = record {
  room = t.room;
  calls = t.calls;
  first = t.first;
  last = t.last;
  write = t.write;
  links = t.links;
  end = t.end;
  content = t.content;
  no_spare = t.no_spare;
}

pub read_rounds-IsTaken :
    (n : ℕ) (malloc : Array ℕ) (limit : ℕ) (h : Array ℕ) (r : Reading) (size : ℕ)
    → IsTape malloc limit h r.stream
    → r.stream.read_buffer ≡ malloc (r.stream.read_offset / 4088)
    → size ≤ n
    → r.stream.read_offset + size ≤ r.stream.write_offset
    → r.stream.write_offset < 2 ^ 32
    → IsTaken malloc h size r (read_rounds n r size)
unfolding read_rounds
read_rounds-IsTaken zero malloc limit h r size t reads enough le small =
    let none : size ≡ 0 = omega arith in rw none (nothing-IsTaken malloc h r reads)
read_rounds-IsTaken (suc n) malloc limit h r size t reads enough le small =
    elim (Bool-cases (size == 0)) [
      | inl end ↦ let none : size ≡ 0 = ground arith in rw none (nothing-IsTaken malloc h r reads)
      | inr more ↦
          let pos : 0 < size = ground arith in
          let (some, few, fits) = copy_size-bounds r.stream.read_offset size pos in
          let count = copy_size r.stream.read_offset size in
          let round = read_round r size in
          let a = round-IsTaken malloc limit h r size t reads pos le small in
          let read : round.stream.read_offset ≡ r.stream.read_offset + count =
            ap (λ s. s.read_offset) a.stream in
          let wrote : round.stream.write_offset ≡ r.stream.write_offset =
            ap (λ s. s.write_offset) a.stream in
          let b =
            read_rounds-IsTaken n malloc limit h round (size - count)
              (subst (IsTape malloc limit h) (sym a.stream)
                (IsTape-at malloc limit h (r.stream.read_offset + count) r.stream t))
              (ap (λ s. s.read_buffer) a.stream ∙ ap (λ o. malloc (o / 4088)) (sym read))
              (omega arith) (omega arith) (omega arith) in
          rw more (IsTaken-join malloc h count size r round _ few a b)
    ]
