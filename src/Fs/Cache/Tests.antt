-- ===== src/Fs/Cache/Tests.antt =====
-- Runs of the cache, and the examples of the theorems on it.
use dogg_os.Base.{ℕ, ◌+◌, ◌*◌, ◌%◌, ◌≡◌, refl, [], ◌∷◌, Array, inl, arith, copy_bytes}
use dogg_os.Fs.Cache.{
  Disk, ram, CacheEntry, CachedVolume, disk_read, find_cache_entry, find_or_load, load_entry,
  read_volume_blocks, read_volume_bytes, release_found, read_loop, pup_read, flush_cache,
}
use dogg_os.Fs.Cache.Store.{AreOn, flush_cache-AreOn}

-- A disk whose byte at an address is the address modulo 251.
abbrev disk : Disk
disk = record { kind = ram; block_size = 512; bytes = λ a. a % 251 }

abbrev entry : CacheEntry
entry = record { first_block = 4; buffer = λ i. (512 + 4 * 4096 + i) % 251; ref_count = 0 }

abbrev volume : CachedVolume
volume = record { disk = disk; partition_first_block = 1; entries = entry ∷ [] }

abbrev zeros : Array ℕ
zeros i = 0

-- Blocks 7 and 8: the first is in the cache, the second is loaded.
reads_both : (pup_read zeros volume 7 2 zeros).1 5000 ≡ (512 + 7 * 4096 + 5000) % 251
unfolding pup_read read_loop find_or_load find_cache_entry load_entry read_volume_blocks
    read_volume_bytes disk_read copy_bytes release_found
reads_both = refl

-- Another content of the entry.
abbrev changed : CacheEntry
changed = record entry { buffer = λ i. 9 }

abbrev dirty : CachedVolume
dirty = record volume { entries = changed ∷ record entry { first_block = 8 } ∷ [] }

flush_cache-AreOn_example : AreOn (flush_cache dirty).disk.bytes dirty dirty.entries
flush_cache-AreOn_example =
    flush_cache-AreOn dirty refl (omega arith, (omega arith, refl))
      ((inl (omega arith), refl), (refl, refl))
