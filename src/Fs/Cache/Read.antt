-- ===== src/Fs/Cache/Read.antt =====
-- k_fs_PupRead delivers what is on the disk, whatever the cache holds of it.
use dogg_os.Base.{ℕ, ◌+◌, ◌*◌, ◌≤◌, ◌<◌, ◌≡◌, List, Array}
use dogg_os.Fs.Cache.{Disk, CacheEntry}
use dogg_os.Fs.Cache.Entries.{address_of, AreLoaded}

-- A read of `count` blocks from `first` on, to `cursor`.
pub record IsRead (d : Disk) (p first count cursor : ℕ) (before after : Array ℕ)
    (es : List CacheEntry) : Type 0 where
  pub loaded : AreLoaded d p es
  pub content : (i : ℕ) → i < count * 4096 → after (cursor + i) ≡ d.bytes (address_of d p first + i)
  pub in_front : (j : ℕ) → j < cursor → after j ≡ before j
  pub behind : (j : ℕ) → cursor + count * 4096 ≤ j → after j ≡ before j
