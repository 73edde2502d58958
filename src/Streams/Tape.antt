-- ===== src/Streams/Tape.antt =====
-- Streams as tapes: the chain of buffers holds every byte that was written, at the position where it was
-- written.
use native.Mathlib.Decide.{ℕ_discrete, dec_lt}
use dogg_os.Base.{
  ℕ, suc, ◌+◌, ◌-◌, ◌/◌, ◌%◌, ◌^◌, ◌≤◌, ◌<◌, ◌≡◌, ◌≢◌, refl, ap, sym, ◌∙◌, bit_and, true, false,
  leb, Array, update, update_self, update_other, copy_bytes, copy_bytes-inside, copy_bytes-before,
  arith,
}
use dogg_os.Streams.{Stream, copy_size}

-- The first `limit` + 1 buffers that the heap hands out are there, and differ.
pub record IsMemory (malloc : Array ℕ) (limit : ℕ) : Type 0 where
  pub there : (i : ℕ) → i ≤ limit → malloc i ≢ 0
  pub apart : (i j : ℕ) → i ≤ limit → j ≤ limit → malloc i ≡ malloc j → i ≡ j

-- `h p` is the byte that was written at position p.
pub record IsTape (malloc : Array ℕ) (limit : ℕ) (h : Array ℕ) (s : Stream) : Type 0 where
  pub room : s.write_offset / 4088 ≤ limit
  pub calls : s.calls ≡ suc (s.write_offset / 4088)
  pub first : s.buffers ≡ malloc 0
  pub last : s.last_buffer ≡ malloc (s.write_offset / 4088)
  pub write : s.write_buffer ≡ malloc (s.write_offset / 4088)
  pub links : (i : ℕ) → i < s.write_offset / 4088 → s.next (malloc i) ≡ malloc (suc i)
  pub end : s.next (malloc (s.write_offset / 4088)) ≡ 0
  pub content : (p : ℕ) → p < s.write_offset → s.bytes (malloc (p / 4088)) (p % 4088) ≡ h p
  pub no_spare : s.free_buffers ≡ 0

-- The memory that the heap has not handed out yet holds NULL where a buffer has its next. This is so of
-- memory that is clear; k_rt_Malloc does not see to it, and k_io_AllocStreamBuffer does not set the next.
abbrev pub IsClear : Array ℕ → ℕ → Stream → Type 0
IsClear malloc limit s = (i : ℕ) → s.write_offset / 4088 < i → i ≤ limit → s.next (malloc i) ≡ 0

-- A round moves a byte at least, and stays inside the buffer.
pub copy_size-bounds :
    (offset size : ℕ)
    → 0 < size
    → (0 < copy_size offset size)
      × (copy_size offset size ≤ size)
      × (offset % 4088 + copy_size offset size ≤ 4088)
unfolding copy_size
copy_size-bounds offset size pos = ground arith

pub copy_size-full :
    (offset size : ℕ)
    → leb (4088 - offset % 4088) size ≡ true
    → copy_size offset size ≡ 4088 - offset % 4088
unfolding copy_size
copy_size-full offset size full = rw full refl

pub copy_size-part :
    (offset size : ℕ)
    → leb (4088 - offset % 4088) size ≡ false
    → offset / 4088 ≡ (offset + copy_size offset size) / 4088
unfolding copy_size
copy_size-part offset size part =
    rw part (let lt : size < 4088 - offset % 4088 = ground arith in omega arith)

-- Bytes put at the position `w`, into its buffer.
pub put_content :
    (malloc : Array ℕ) (limit : ℕ) (h : Array ℕ) (bytes : Array (Array ℕ)) (w : ℕ)
    (data_bytes : Array ℕ) (data_offset count : ℕ)
    → IsMemory malloc limit
    → w / 4088 ≤ limit
    → w % 4088 + count ≤ 4088
    → ((p : ℕ) → p < w → bytes (malloc (p / 4088)) (p % 4088) ≡ h p)
    → (p : ℕ) → p < w + count
    → update bytes
        (malloc (w / 4088))
        (copy_bytes (bytes (malloc (w / 4088))) (w % 4088) data_bytes data_offset count)
        (malloc (p / 4088))
        (p % 4088)
      ≡ copy_bytes h w data_bytes data_offset count p
put_content malloc limit h bytes w data_bytes data_offset count m room fits content p lt =
    elim (dec_lt p w) [
      | yes old ↦ elim (ℕ_discrete (p / 4088) (w / 4088)) [
        | yes same ↦
            let there : copy_bytes (bytes (malloc (w / 4088))) (w % 4088) data_bytes data_offset
                  count (p % 4088)
                ≡ bytes (malloc (w / 4088)) (p % 4088) =
              copy_bytes-before (bytes (malloc (w / 4088))) (w % 4088) data_bytes data_offset count
                (p % 4088) (omega arith) in
            ap
              (λ a.
                update bytes (malloc (w / 4088))
                  (copy_bytes (bytes (malloc (w / 4088))) (w % 4088) data_bytes data_offset count)
                  (malloc a) (p % 4088))
              same
            ∙ ap (λ (f : Array ℕ). f (p % 4088)) (update_self bytes (malloc (w / 4088)) _)
            ∙ there
            ∙ ap (λ a. bytes (malloc a) (p % 4088)) (sym same)
            ∙ content p old
            ∙ sym (copy_bytes-before h w data_bytes data_offset count p old)
        | no other ↦
            ap (λ (f : Array ℕ). f (p % 4088))
              (update_other bytes (malloc (w / 4088)) _ (malloc (p / 4088))
                (λ e. other (m.apart (p / 4088) (w / 4088) (omega arith) room e)))
            ∙ content p old
            ∙ sym (copy_bytes-before h w data_bytes data_offset count p old)
      ]
      | no new ↦
          let i : ℕ = p - w in
          let at : w + i ≡ p = omega arith in
          let same : p / 4088 ≡ w / 4088 = omega arith in
          let off : p % 4088 ≡ w % 4088 + i = omega arith in
          ap
            (λ a.
              update bytes (malloc (w / 4088))
                (copy_bytes (bytes (malloc (w / 4088))) (w % 4088) data_bytes data_offset count)
                (malloc a) (p % 4088))
            same
          ∙ ap (λ (f : Array ℕ). f (p % 4088)) (update_self bytes (malloc (w / 4088)) _)
          ∙ ap (copy_bytes (bytes (malloc (w / 4088))) (w % 4088) data_bytes data_offset count) off
          ∙ copy_bytes-inside (bytes (malloc (w / 4088))) (w % 4088) data_bytes data_offset count i
              (omega arith)
          ∙ sym (copy_bytes-inside h w data_bytes data_offset count i (omega arith))
          ∙ ap (copy_bytes h w data_bytes data_offset count) at
    ]

-- A stream whose tape is `h`, from the cursor that reads to the one that writes. Its flags keep what was read.
pub record IsStream (malloc : Array ℕ) (limit : ℕ) (h : Array ℕ) (s : Stream) : Type 0 where
  pub tape : IsTape malloc limit h s
  pub reads : s.read_buffer ≡ malloc (s.read_offset / 4088)
  pub counted : s.write_offset ≡ s.read_offset + s.available_count
  pub small : s.write_offset < 2 ^ 32
  pub kept : bit_and s.flags 16 ≡ 0
