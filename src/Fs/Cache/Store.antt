-- ===== src/Fs/Cache/Store.antt =====
-- k_fs_PupStoreCacheEntry and k_fs_PupFlushCache write the entries of the cache to the disk.
use dogg_os.Base.{
  ℕ, ◌+◌, ◌*◌, ◌%◌, ◌^◌, ◌≤◌, ◌<◌, ◌≡◌, refl, sym, ap, ◌∙◌, subst, ◌⊎◌, Bool, true, false, List, [],
  ◌∷◌, inl, inr, Array, arith, true-ne-false, copy_bytes-inside, copy_bytes-before,
  copy_bytes-behind, copy_bytes,
}
use dogg_os.Fs.Cache.{
  DiskType, ram, boot, disk_drive, usb, cdrom, Disk, disk_write, disk_write_as, CacheEntry,
  CachedVolume, write_volume_bytes, write_volume_blocks, store_entry, store_entries, flush_cache,
}
use dogg_os.Fs.Cache.Entries.{address_of}

-- The driver of the disk serves writes.
abbrev pub is_written : DiskType → Bool
is_written ram = true
is_written disk_drive = true
is_written _ = false

-- Where the code writes a block: the address modulo 2^32.
abbrev pub written_at : CachedVolume → ℕ → ℕ
written_at v block = address_of v.disk v.partition_first_block block % 2 ^ 32

-- A volume with other bytes on its disk.
abbrev with_bytes : CachedVolume → Array ℕ → CachedVolume
with_bytes v bytes = record v { disk = record v.disk { bytes = bytes } }

store_entry-copy :
    (v : CachedVolume) (e : CacheEntry)
    → is_written v.disk.kind ≡ true
    → store_entry v e
      ≡ with_bytes v (copy_bytes v.disk.bytes (written_at v e.first_block) e.buffer 0 16384)
unfolding store_entry write_volume_blocks write_volume_bytes disk_write
store_entry-copy v e served =
    let here : (v.partition_first_block * v.disk.block_size % 2 ^ 32
            + e.first_block % 2 ^ 32 * 4096
            + 0)
          % 2 ^ 32
        ≡ written_at v e.first_block =
      omega arith in
    rw here (by_kind v.disk.kind served)
  where
    by_kind :
        (k : DiskType)
        → is_written k ≡ true
        → (record v { disk = disk_write_as k v.disk (written_at v e.first_block) 16384 e.buffer })
          ≡ with_bytes v (copy_bytes v.disk.bytes (written_at v e.first_block) e.buffer 0 16384)
    by_kind ram s = refl
    by_kind disk_drive s = refl
    by_kind usb s = absurd (true-ne-false (sym s))
    by_kind cdrom s = absurd (true-ne-false (sym s))
    by_kind boot s = absurd (true-ne-false (sym s))

-- What storing an entry does to the disk.
pub record IsStored (v v' : CachedVolume) (e : CacheEntry) : Type 0 where
  pub written : (i : ℕ) → i < 16384 → v'.disk.bytes (written_at v e.first_block + i) ≡ e.buffer i
  pub in_front : (j : ℕ) → j < written_at v e.first_block → v'.disk.bytes j ≡ v.disk.bytes j
  pub behind : (j : ℕ) → written_at v e.first_block + 16384 ≤ j → v'.disk.bytes j ≡ v.disk.bytes j

-- k_fs_PupStoreCacheEntry writes the entry to its address modulo 2^32, and nothing else: below 4 GB that
-- is its address, and behind it the bytes of another block are lost.
store_entry-IsStored :
    (v : CachedVolume) (e : CacheEntry)
    → is_written v.disk.kind ≡ true
    → IsStored v (store_entry v e) e
store_entry-IsStored v e served = rw (store_entry-copy v e served) (record {
  written = λ i lt.
      copy_bytes-inside v.disk.bytes (written_at v e.first_block) e.buffer 0 16384 i lt
      ∙ ap e.buffer (omega arith);
  in_front =
      λ j lt. copy_bytes-before v.disk.bytes (written_at v e.first_block) e.buffer 0 16384 j lt;
  behind =
      λ j le. copy_bytes-behind v.disk.bytes (written_at v e.first_block) e.buffer 0 16384 j le;
})

-- The entry has blocks that no other of the list has, and their addresses fit in 32 bits.
abbrev pub IsApart : CacheEntry → List CacheEntry → Type 0
IsApart e [] = true ≡ true
IsApart e (x ∷ xs) =
    ((e.first_block + 4 ≤ x.first_block) ⊎ (x.first_block + 4 ≤ e.first_block)) × IsApart e xs

abbrev pub AreApart : List CacheEntry → Type 0
AreApart [] = true ≡ true
AreApart (e ∷ es) = IsApart e es × AreApart es

abbrev pub AreLow : Disk → ℕ → List CacheEntry → Type 0
AreLow d p [] = true ≡ true
AreLow d p (e ∷ es) = (address_of d p (e.first_block + 4) < 2 ^ 32) × AreLow d p es

-- Storing the entries of a list leaves the blocks of an entry apart from them.
store_entries-keeps :
    (v : CachedVolume) (es : List CacheEntry) (e : CacheEntry)
    → is_written v.disk.kind ≡ true
    → address_of v.disk v.partition_first_block (e.first_block + 4) < 2 ^ 32
    → AreLow v.disk v.partition_first_block es
    → IsApart e es
    → (i : ℕ) → i < 16384
    → (store_entries v es).disk.bytes (address_of v.disk v.partition_first_block e.first_block + i)
      ≡ v.disk.bytes (address_of v.disk v.partition_first_block e.first_block + i)
unfolding store_entries
store_entries-keeps v [] e served low lows apart i lt = refl
store_entries-keeps v (x ∷ xs) e served low (low_x, lows) (side, apart) i lt =
    let stored = store_entry-IsStored v x served in
    let here : written_at v x.first_block
        ≡ address_of v.disk v.partition_first_block x.first_block =
      omega arith in
    let kept : (store_entry v x).disk.bytes
          (address_of v.disk v.partition_first_block e.first_block + i)
        ≡ v.disk.bytes (address_of v.disk v.partition_first_block e.first_block + i) =
      elim side [
        | inl left ↦
            stored.in_front (address_of v.disk v.partition_first_block e.first_block + i)
              (omega arith)
        | inr right ↦
            stored.behind (address_of v.disk v.partition_first_block e.first_block + i)
              (omega arith)
      ] in
    let w = with_bytes v (copy_bytes v.disk.bytes (written_at v x.first_block) x.buffer 0 16384) in
    let same = store_entry-copy v x served in
    let at = address_of v.disk v.partition_first_block e.first_block + i in
    ap (λ u. (store_entries u xs).disk.bytes at) same
    ∙ store_entries-keeps w xs e served low lows apart i lt
    ∙ sym (ap (λ u. u.disk.bytes at) same)
    ∙ kept

-- The bytes of the disk are those of the entries.
abbrev pub AreOn : Array ℕ → CachedVolume → List CacheEntry → Type 0
AreOn bytes v [] = true ≡ true
AreOn bytes v (e ∷ es) =
    ((i : ℕ)
      → i < 16384
      → bytes (address_of v.disk v.partition_first_block e.first_block + i) ≡ e.buffer i)
    × AreOn bytes v es

store_entries-AreOn :
    (v : CachedVolume) (es : List CacheEntry)
    → is_written v.disk.kind ≡ true
    → AreLow v.disk v.partition_first_block es
    → AreApart es
    → AreOn (store_entries v es).disk.bytes v es
unfolding store_entries
store_entries-AreOn v [] served lows apart = refl
store_entries-AreOn v (e ∷ es) served (low, lows) (apart, others) =
    let w = with_bytes v (copy_bytes v.disk.bytes (written_at v e.first_block) e.buffer 0 16384) in
    let same = store_entry-copy v e served in
    let here : written_at v e.first_block
        ≡ address_of v.disk v.partition_first_block e.first_block =
      omega arith in
    (
      (λ i lt.
          ap
            (λ u.
              (store_entries u es).disk.bytes
                (address_of v.disk v.partition_first_block e.first_block + i))
            same
          ∙ store_entries-keeps w es e served low lows apart i lt
          ∙ ap (λ a. w.disk.bytes (a + i)) (sym here)
          ∙ copy_bytes-inside v.disk.bytes (written_at v e.first_block) e.buffer 0 16384 i lt
          ∙ ap e.buffer (omega arith)),
      subst (λ u. AreOn (store_entries u es).disk.bytes v es) (sym same)
          (store_entries-AreOn w es served lows others),
    )

-- After k_fs_PupFlushCache the disk holds what the cache holds, where the entries have different blocks
-- and their addresses are below 4 GB.
pub flush_cache-AreOn :
    (v : CachedVolume)
    → is_written v.disk.kind ≡ true
    → AreLow v.disk v.partition_first_block v.entries
    → AreApart v.entries
    → AreOn (flush_cache v).disk.bytes v v.entries
unfolding flush_cache
flush_cache-AreOn v served lows apart = store_entries-AreOn v v.entries served lows apart
