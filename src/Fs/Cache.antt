-- ===== src/Fs/Cache.antt =====
-- kernel/fs/pup.c: the cache of blocks of a volume, over the reads and writes of kernel/fs/fs.c and
-- kernel/dev/dsk.c.
--
-- The bytes of a disk are an array; its driver copies them. The entries of the set of the cache are a
-- list, in the order of their chain. A call here finds the lock of the set free, and no entry
-- that another is still loading.
pub mod Entries
pub mod Read
pub mod Store
mod Tests
use dogg_os.Base.{
  ℕ, zero, suc, ◌+◌, ◌-◌, ◌*◌, ◌/◌, ◌%◌, ◌^◌, Bool, true, false, List, [], ◌∷◌, ◌++◌, Option, none,
  some, ◌==◌, ◌&&◌, if◌then◌else◌, ltb, leb, Array, copy_bytes,
}

-- enum K_DEV_DSK_TYPES
pub data DiskType : Type 0 where
  ram : DiskType
  disk_drive : DiskType
  usb : DiskType
  cdrom : DiskType
  boot : DiskType

pub record Disk : Type 0 where
  pub kind : DiskType
  pub block_size : ℕ
  pub bytes : Array ℕ

-- k_dev_DiskRead and k_dev_DiskWrite, by the type of the disk: only some are served.
abbrev pub disk_read_as : DiskType → Disk → ℕ → ℕ → Array ℕ → Array ℕ
disk_read_as ram d start count buffer = copy_bytes buffer 0 d.bytes start count
disk_read_as boot d start count buffer = copy_bytes buffer 0 d.bytes start count
disk_read_as disk_drive d start count buffer = copy_bytes buffer 0 d.bytes start count
disk_read_as usb d start count buffer = buffer
disk_read_as cdrom d start count buffer = buffer

unfoldable pub disk_read : Disk → ℕ → ℕ → Array ℕ → Array ℕ
disk_read d start count buffer = disk_read_as d.kind d start count buffer

abbrev pub disk_write_as : DiskType → Disk → ℕ → ℕ → Array ℕ → Disk
disk_write_as ram d start count buffer = record d {
  bytes = copy_bytes d.bytes start buffer 0 count;
}
disk_write_as disk_drive d start count buffer = record d {
  bytes = copy_bytes d.bytes start buffer 0 count;
}
disk_write_as usb d start count buffer = d
disk_write_as cdrom d start count buffer = d
disk_write_as boot d start count buffer = d

unfoldable pub disk_write : Disk → ℕ → ℕ → Array ℕ → Disk
disk_write d start count buffer = disk_write_as d.kind d start count buffer

-- An entry holds four blocks of 4096 bytes.
pub record CacheEntry : Type 0 where
  pub first_block : ℕ
  pub buffer : Array ℕ
  pub ref_count : ℕ

-- The partition of a volume, and its cache.
pub record CachedVolume : Type 0 where
  pub disk : Disk
  pub partition_first_block : ℕ
  pub entries : List CacheEntry

-- k_fs_ReadVolumeBytes and k_fs_ReadVolumeBlocks: the start of the partition is computed in 32 bits, the
-- rest in 64.
unfoldable pub read_volume_bytes : CachedVolume → ℕ → ℕ → ℕ → ℕ → Array ℕ → Array ℕ
read_volume_bytes v block_size first_block offset size buffer =
    let read_start = v.partition_first_block * v.disk.block_size % 2 ^ 32 in
    disk_read v.disk ((read_start + first_block * block_size + offset) % 2 ^ 64) size buffer

unfoldable pub read_volume_blocks : CachedVolume → ℕ → ℕ → ℕ → Array ℕ → Array ℕ
read_volume_blocks v block_size first_block block_count buffer =
    read_volume_bytes v block_size first_block 0 (block_size * block_count) buffer

-- k_fs_WriteVolumeBytes and k_fs_WriteVolumeBlocks compute in 32 bits, as the code has it.
unfoldable pub write_volume_bytes : CachedVolume → ℕ → ℕ → ℕ → ℕ → Array ℕ → CachedVolume
write_volume_bytes v block_size first_block offset size buffer =
    let write_start = v.partition_first_block * v.disk.block_size % 2 ^ 32 in
    record v {
      disk =
          disk_write v.disk ((write_start + first_block % 2 ^ 32 * block_size + offset) % 2 ^ 32)
            size buffer;
    }

unfoldable pub write_volume_blocks : CachedVolume → ℕ → ℕ → ℕ → Array ℕ → CachedVolume
write_volume_blocks v block_size first_block block_count buffer =
    write_volume_bytes v block_size first_block 0 (block_size * block_count) buffer

abbrev pub logical_block_size : ℕ
logical_block_size = 4096

abbrev pub blocks_per_entry : ℕ
blocks_per_entry = 4

-- The test of k_fs_PupFindCacheEntry, for the entry that has the block.
abbrev pub covers : ℕ → CacheEntry → Bool
covers block e = leb e.first_block block && leb block (e.first_block + (blocks_per_entry - 1))

-- k_fs_PupAcquireEntry and k_fs_PupReleaseEntry
abbrev pub acquire : CacheEntry → CacheEntry
acquire e = record e { ref_count = (e.ref_count + 1) % 2 ^ 32 }

abbrev pub release_entry : CacheEntry → CacheEntry
release_entry e = record e { ref_count = if e.ref_count == 0 then 0 else e.ref_count - 1 }

abbrev pub after_miss :
    CacheEntry → Option CacheEntry × List CacheEntry → Option CacheEntry × List CacheEntry
after_miss e (found, es) = (found, e ∷ es)

-- k_fs_PupFindCacheEntry, which acquires the entry it finds.
unfoldable pub find_cache_entry : ℕ → List CacheEntry → Option CacheEntry × List CacheEntry
find_cache_entry block [] = (none, [])
find_cache_entry block (e ∷ es) =
    let rest = after_miss e (find_cache_entry block es) in
    if covers block e then (some (acquire e), acquire e ∷ es) else rest

-- The release of the entry that was found for the block.
unfoldable pub release_found : ℕ → List CacheEntry → List CacheEntry
release_found block [] = []
release_found block (e ∷ es) =
    let rest = e ∷ release_found block es in if covers block e then release_entry e ∷ es else rest

-- A new entry for the block, filled from the disk; `memory` is what its buffer held before.
unfoldable pub load_entry : Array ℕ → CachedVolume → ℕ → CacheEntry
load_entry memory v block =
    let first = block / 4 * 4 in
    record {
      first_block = first;
      buffer = read_volume_blocks v logical_block_size first blocks_per_entry memory;
      ref_count = 0;
    }

abbrev pub or_load :
    Array ℕ → CachedVolume → ℕ → Option CacheEntry × List CacheEntry → CacheEntry × List CacheEntry
or_load memory v block (some e, es) = (e, es)
or_load memory v block (none, es) =
    (load_entry memory v block, es ++ load_entry memory v block ∷ [])

-- k_fs_PupFindOrLoadCacheEntry
unfoldable pub find_or_load : Array ℕ → CachedVolume → ℕ → CacheEntry × List CacheEntry
find_or_load memory v block = or_load memory v block (find_cache_entry block v.entries)

-- How many blocks are copied from an entry.
abbrev pub blocks_from : CacheEntry → ℕ → ℕ → ℕ
blocks_from e first_block block_count =
    let size = blocks_per_entry - (first_block - e.first_block) in
    if ltb block_count size then block_count else size

-- One round of the loop of k_fs_PupRead.
abbrev pub copy_from : CacheEntry → ℕ → ℕ → Array ℕ → ℕ → Array ℕ
copy_from e first_block block_count buffer cursor =
    copy_bytes buffer cursor e.buffer ((first_block - e.first_block) * logical_block_size)
      (blocks_from e first_block block_count * logical_block_size)

-- The loop: each round copies a block or more, so that there are not more rounds than blocks.
unfoldable pub read_loop :
    ℕ → Array ℕ → CachedVolume → ℕ → ℕ → ℕ → Array ℕ → ℕ → CachedVolume × Array ℕ
read_loop zero memory v first_block last_block block_count buffer cursor = (v, buffer)
read_loop (suc n) memory v first_block last_block block_count buffer cursor =
    let (e, es) = find_or_load memory v first_block in
    let size = blocks_from e first_block block_count in
    let rest =
      read_loop n memory (record v { entries = release_found first_block es }) (first_block + size)
        last_block (block_count - size) (copy_from e first_block block_count buffer cursor)
        (cursor + size * logical_block_size) in
    if ltb first_block last_block then rest else (v, buffer)

-- k_fs_PupRead
unfoldable pub pup_read : Array ℕ → CachedVolume → ℕ → ℕ → Array ℕ → CachedVolume × Array ℕ
pup_read memory v first_block block_count buffer =
    let read =
      read_loop block_count memory v first_block (first_block + block_count) block_count buffer 0 in
    if block_count == 0 then (v, buffer) else read

-- k_fs_PupStoreCacheEntry
unfoldable pub store_entry : CachedVolume → CacheEntry → CachedVolume
store_entry v e = write_volume_blocks v logical_block_size e.first_block blocks_per_entry e.buffer

unfoldable pub store_entries : CachedVolume → List CacheEntry → CachedVolume
store_entries v [] = v
store_entries v (e ∷ es) = store_entries (store_entry v e) es

-- k_fs_PupFlushCache
unfoldable pub flush_cache : CachedVolume → CachedVolume
flush_cache v = store_entries v v.entries
