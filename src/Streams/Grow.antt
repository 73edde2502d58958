-- ===== src/Streams/Grow.antt =====
-- One round of k_io_WriteStreamData, which fills a buffer or does not.
use native.Mathlib.Decide.{dec_lt}
use dogg_os.Base.{
  ℕ, suc, ◌+◌, ◌/◌, ◌%◌, ◌^◌, ◌≤◌, ◌<◌, ◌≡◌, ◌≢◌, refl, ap, sym, ◌∙◌, subst, true, false, ◌==◌,
  Array, update, update_self, update_other, copy_bytes, arith,
}
use dogg_os.Streams.{
  Stream, put_bytes, next_write_buffer, alloc_stream_buffer, take_buffer, link_buffer,
}
use dogg_os.Streams.Tape.{IsClear, IsMemory, IsTape, put_content}

-- The stream with one more buffer behind the last, where that is written.
abbrev grown : Array ℕ → Stream → Stream
grown malloc s = record s {
  calls = suc s.calls;
  next = update s.next s.last_buffer (malloc s.calls);
  prev = update s.prev (malloc s.calls) s.last_buffer;
  last_buffer = malloc s.calls;
  write_buffer = update s.next s.last_buffer (malloc s.calls) s.write_buffer;
}

alloc_stream_buffer-grown :
    (malloc : Array ℕ) (s : Stream)
    → (s.free_buffers == 0) ≡ true
    → (s.buffers == 0) ≡ false
    → alloc_stream_buffer malloc s ≡ record (grown malloc s) { write_buffer = s.write_buffer }
unfolding alloc_stream_buffer take_buffer link_buffer
alloc_stream_buffer-grown malloc s spare some = rw (spare, some) refl

next_write_buffer-grown :
    (malloc : Array ℕ) (s : Stream)
    → (s.next s.write_buffer == 0) ≡ true
    → (s.free_buffers == 0) ≡ true
    → (s.buffers == 0) ≡ false
    → next_write_buffer malloc s ≡ grown malloc s
unfolding next_write_buffer
next_write_buffer-grown malloc s end spare some =
    rw (end, alloc_stream_buffer-grown malloc s spare some) refl

pub next_write_buffer-tape :
    (malloc : Array ℕ) (limit : ℕ) (h : Array ℕ) (s : Stream)
    → IsMemory malloc limit
    → IsTape malloc limit h s
    → next_write_buffer malloc s ≡ grown malloc s
next_write_buffer-tape malloc limit h s m t =
    let zero_next : s.next s.write_buffer ≡ 0 = ap s.next t.write ∙ t.end in
    let some : s.buffers ≢ 0 = λ e. m.there 0 (omega arith) (sym t.first ∙ e) in
    next_write_buffer-grown malloc s (ground arith) (let e = t.no_spare in ground arith)
      (ground arith)

-- A round that does not fill the buffer.
pub put-IsTape :
    (malloc : Array ℕ) (limit : ℕ) (h : Array ℕ) (s : Stream) (data_bytes : Array ℕ)
    (data_offset count : ℕ)
    → IsMemory malloc limit
    → IsTape malloc limit h s
    → s.write_offset % 4088 + count < 4088
    → s.write_offset + count < 2 ^ 32
    → IsTape malloc limit
        (copy_bytes h s.write_offset data_bytes data_offset count)
        (put_bytes s.write_buffer data_bytes data_offset count s)
unfolding put_bytes
put-IsTape malloc limit h s data_bytes data_offset count m t fits small =
    let whole : (s.write_offset + count) % 2 ^ 32 ≡ s.write_offset + count = omega arith in
    let same : s.write_offset / 4088 ≡ (s.write_offset + count) / 4088 = omega arith in
    subst
      (λ e.
        IsTape malloc limit (copy_bytes h s.write_offset data_bytes data_offset count) (record s {
          bytes = update s.bytes s.write_buffer (
              copy_bytes (s.bytes s.write_buffer) (s.write_offset % 4088) data_bytes data_offset
                count);
          write_offset = e;
        }))
      (sym whole)
      (record {
        room = let r = t.room in omega arith;
        calls = t.calls ∙ ap suc same;
        first = t.first;
        last = t.last ∙ ap malloc same;
        write = t.write ∙ ap malloc same;
        links = λ i lt. t.links i (omega arith);
        end = ap (λ k. s.next (malloc k)) (sym same) ∙ t.end;
        content = λ p lt.
            subst
              (λ b.
                update s.bytes b
                  (copy_bytes (s.bytes b) (s.write_offset % 4088) data_bytes data_offset count)
                  (malloc (p / 4088)) (p % 4088)
                ≡ copy_bytes h s.write_offset data_bytes data_offset count p)
              (sym t.write)
              (put_content malloc limit h s.bytes s.write_offset data_bytes data_offset count m
                t.room (omega arith) t.content p lt);
        no_spare = t.no_spare;
      })

-- A round that fills the buffer.
pub fill-IsTape :
    (malloc : Array ℕ) (limit : ℕ) (h : Array ℕ) (s : Stream) (data_bytes : Array ℕ)
    (data_offset count : ℕ)
    → IsMemory malloc limit
    → IsTape malloc limit h s
    → IsClear malloc limit s
    → s.write_offset % 4088 + count ≡ 4088
    → s.write_offset + count < 2 ^ 32
    → (s.write_offset + count) / 4088 ≤ limit
    → IsTape malloc limit
        (copy_bytes h s.write_offset data_bytes data_offset count)
        (put_bytes s.write_buffer data_bytes data_offset count (grown malloc s))
unfolding put_bytes
fill-IsTape malloc limit h s data_bytes data_offset count m t clear fits small room =
    let whole : (s.write_offset + count) % 2 ^ 32 ≡ s.write_offset + count = omega arith in
    let k : ℕ = s.write_offset / 4088 in
    let same : suc k ≡ (s.write_offset + count) / 4088 = omega arith in
    let behind : malloc s.calls ≡ malloc (suc k) = ap malloc t.calls in
    subst
      (λ e.
        IsTape malloc limit (copy_bytes h s.write_offset data_bytes data_offset count)
          (record (grown malloc s) {
            bytes = update s.bytes s.write_buffer (
                copy_bytes (s.bytes s.write_buffer) (s.write_offset % 4088) data_bytes data_offset
                  count);
            write_offset = e;
          }))
      (sym whole)
      (record {
        room = room;
        calls = ap suc t.calls ∙ ap suc same;
        first = t.first;
        last = behind ∙ ap malloc same;
        write =
            ap (update s.next s.last_buffer (malloc s.calls)) (t.write ∙ sym t.last)
            ∙ update_self s.next s.last_buffer (malloc s.calls)
            ∙ behind
            ∙ ap malloc same;
        links = λ i lt. linked i (dec_lt i k) (omega arith);
        end =
            ap (λ j. update s.next s.last_buffer (malloc s.calls) (malloc j)) (sym same)
            ∙ update_other s.next s.last_buffer (malloc s.calls) (malloc (suc k))
                (λ e. let bad = m.apart (suc k) k (omega arith) t.room (e ∙ t.last) in omega arith)
            ∙ clear (suc k) (omega arith) (omega arith);
        content = λ p lt.
            subst
              (λ b.
                update s.bytes b
                  (copy_bytes (s.bytes b) (s.write_offset % 4088) data_bytes data_offset count)
                  (malloc (p / 4088)) (p % 4088)
                ≡ copy_bytes h s.write_offset data_bytes data_offset count p)
              (sym t.write)
              (put_content malloc limit h s.bytes s.write_offset data_bytes data_offset count m
                t.room (omega arith) t.content p lt);
        no_spare = t.no_spare;
      })
  where
    linked :
        (i : ℕ)
        → Dec (i < s.write_offset / 4088)
        → i < suc (s.write_offset / 4088)
        → update s.next s.last_buffer (malloc s.calls) (malloc i) ≡ malloc (suc i)
    linked i (yes earlier) lt =
        let r = t.room in
        update_other s.next s.last_buffer (malloc s.calls) (malloc i) (λ e.
          let bad = m.apart i (s.write_offset / 4088) (omega arith) t.room (e ∙ t.last) in
          omega arith)
        ∙ t.links i earlier
    linked i (no later) lt =
        let it : i ≡ s.write_offset / 4088 = omega arith in
        ap (λ j. update s.next s.last_buffer (malloc s.calls) (malloc j)) it
        ∙ ap (update s.next s.last_buffer (malloc s.calls)) (sym t.last)
        ∙ update_self s.next s.last_buffer (malloc s.calls)
        ∙ ap malloc (t.calls ∙ ap suc (sym it))

-- The memory behind the new buffer stays as it is.
pub grown-IsClear :
    (malloc : Array ℕ) (limit : ℕ) (h : Array ℕ) (s : Stream) (w : ℕ)
    → IsMemory malloc limit
    → IsTape malloc limit h s
    → IsClear malloc limit s
    → s.write_offset ≤ w
    → (i : ℕ) → w / 4088 < i
    → i ≤ limit
    → (grown malloc s).next (malloc i) ≡ 0
grown-IsClear malloc limit h s w m t clear le i lt there =
    update_other s.next s.last_buffer (malloc s.calls) (malloc i)
      (λ e. let bad = m.apart i (s.write_offset / 4088) there t.room (e ∙ t.last) in omega arith)
    ∙ clear i (omega arith) there
