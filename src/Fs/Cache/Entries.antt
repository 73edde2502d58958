-- ===== src/Fs/Cache/Entries.antt =====
-- Entries of the cache hold what is on the disk, and searching, loading and releasing them keeps that.
use dogg_os.Base.{
  ℕ, ◌+◌, ◌*◌, ◌/◌, ◌%◌, ◌^◌, ◌≤◌, ◌<◌, ◌≡◌, ◌≢◌, refl, sym, subst, Bool, true, false, List, [],
  ◌∷◌, ◌++◌, Option, none, some, Bool-cases, inl, inr, Array, arith, true-ne-false,
  copy_bytes-start,
}
use dogg_os.Fs.Cache.{
  DiskType, ram, boot, disk_drive, usb, cdrom, Disk, disk_read, disk_read_as, CacheEntry,
  CachedVolume, read_volume_bytes, read_volume_blocks, covers, acquire, find_cache_entry,
  release_found, load_entry, or_load, find_or_load,
}

-- The driver of the disk serves reads.
abbrev pub is_read : DiskType → Bool
is_read ram = true
is_read boot = true
is_read disk_drive = true
is_read _ = false

-- Where the bytes of a block of the volume are on the disk.
abbrev pub address_of : Disk → ℕ → ℕ → ℕ
address_of d partition block = partition * d.block_size + block * 4096

-- The entry holds what is on the disk.
pub record IsLoaded (d : Disk) (p : ℕ) (e : CacheEntry) : Type 0 where
  pub content : (i : ℕ) → i < 16384 → e.buffer i ≡ d.bytes (address_of d p e.first_block + i)

abbrev pub AreLoaded : Disk → ℕ → List CacheEntry → Type 0
AreLoaded d p [] = true ≡ true
AreLoaded d p (e ∷ es) = IsLoaded d p e × AreLoaded d p es

AreLoaded-append :
    (d : Disk) (p : ℕ) (es : List CacheEntry) (e : CacheEntry)
    → AreLoaded d p es
    → IsLoaded d p e
    → AreLoaded d p (es ++ e ∷ [])
AreLoaded-append d p [] e h k = (k, refl)
AreLoaded-append d p (x ∷ es) e (first, h) k = (first, AreLoaded-append d p es e h k)

covers-bounds :
    (block : ℕ) (e : CacheEntry)
    → covers block e ≡ true
    → (e.first_block ≤ block) × (block < e.first_block + 4)
covers-bounds block e c = ground arith

-- What a search for a block yields.
pub record IsFound (d : Disk) (p : ℕ) (block : ℕ) (e : CacheEntry) (es : List CacheEntry)
    : Type 0 where
  pub loaded : IsLoaded d p e
  pub first_le : e.first_block ≤ block
  pub block_lt : block < e.first_block + 4
  pub others : AreLoaded d p es

find_cache_entry-some :
    (d : Disk) (p : ℕ) (block : ℕ) (es : List CacheEntry) (e : CacheEntry)
    → AreLoaded d p es
    → (find_cache_entry block es).0 ≡ some e
    → IsFound d p block e (find_cache_entry block es).1
unfolding find_cache_entry
find_cache_entry-some d p block [] e h found = absurd (no_entry found)
  where
    no_entry : {x : CacheEntry} → none ≢ some x
    no_entry e = cc
find_cache_entry-some d p block (x ∷ es) e (first, h) found = elim (Bool-cases (covers block x)) [
  | inl here ↦
      let its : acquire x ≡ e = the_entry (rw here at found) in
      let (le, lt) = covers-bounds block x here in
      rw here (
        subst (λ y. IsFound d p block y (acquire x ∷ es)) its
          (record {
            loaded = record { content = first.content };
            first_le = le;
            block_lt = lt;
            others = (record { content = first.content }, h);
          }))
  | inr elsewhere ↦
      let later = find_cache_entry-some d p block es e h (rw elsewhere at found) in
      rw elsewhere (record {
        loaded = later.loaded;
        first_le = later.first_le;
        block_lt = later.block_lt;
        others = (first, later.others);
      })
]
  where
    the_entry : {x y : CacheEntry} → some x ≡ some y → x ≡ y
    the_entry e = cc

find_cache_entry-others :
    (d : Disk) (p : ℕ) (block : ℕ) (es : List CacheEntry)
    → AreLoaded d p es
    → AreLoaded d p (find_cache_entry block es).1
unfolding find_cache_entry
find_cache_entry-others d p block [] h = refl
find_cache_entry-others d p block (x ∷ es) (first, h) = elim (Bool-cases (covers block x)) [
  | inl here ↦ rw here (record { content = first.content }, h)
  | inr elsewhere ↦ rw elsewhere (first, find_cache_entry-others d p block es h)
]

read_volume_blocks-at :
    (v : CachedVolume) (first count i : ℕ) (memory : Array ℕ)
    → is_read v.disk.kind ≡ true
    → v.partition_first_block * v.disk.block_size < 2 ^ 32
    → address_of v.disk v.partition_first_block (first + count) < 2 ^ 64
    → i < 4096 * count
    → read_volume_blocks v 4096 first count memory i
      ≡ v.disk.bytes (address_of v.disk v.partition_first_block first + i)
unfolding read_volume_blocks read_volume_bytes disk_read
read_volume_blocks-at v first count i memory served start small lt =
    let here : (v.partition_first_block * v.disk.block_size % 2 ^ 32 + first * 4096 + 0) % 2 ^ 64
        ≡ address_of v.disk v.partition_first_block first =
      omega arith in
    rw here (by_kind v.disk.kind served)
  where
    by_kind :
        (k : DiskType)
        → is_read k ≡ true
        → disk_read_as k v.disk
            (address_of v.disk v.partition_first_block first)
            (4096 * count)
            memory
            i
          ≡ v.disk.bytes (address_of v.disk v.partition_first_block first + i)
    by_kind ram s =
        copy_bytes-start memory v.disk.bytes (address_of v.disk v.partition_first_block first)
          (4096 * count) i lt
    by_kind boot s =
        copy_bytes-start memory v.disk.bytes (address_of v.disk v.partition_first_block first)
          (4096 * count) i lt
    by_kind usb s = absurd (true-ne-false (sym s))
    by_kind cdrom s = absurd (true-ne-false (sym s))
    by_kind disk_drive s =
        copy_bytes-start memory v.disk.bytes (address_of v.disk v.partition_first_block first)
          (4096 * count) i lt

load_entry-IsLoaded :
    (memory : Array ℕ) (v : CachedVolume) (block : ℕ)
    → is_read v.disk.kind ≡ true
    → v.partition_first_block * v.disk.block_size < 2 ^ 32
    → address_of v.disk v.partition_first_block (block + 4) < 2 ^ 64
    → IsLoaded v.disk v.partition_first_block (load_entry memory v block)
unfolding load_entry
load_entry-IsLoaded memory v block served start small = record {
  content = λ i lt.
      read_volume_blocks-at v (block / 4 * 4) 4 i memory served start (omega arith) (omega arith);
}

loaded_new :
    (memory : Array ℕ) (v : CachedVolume) (block : ℕ)
    → is_read v.disk.kind ≡ true
    → v.partition_first_block * v.disk.block_size < 2 ^ 32
    → address_of v.disk v.partition_first_block (block + 4) < 2 ^ 64
    → (es : List CacheEntry) → AreLoaded v.disk v.partition_first_block es
    → IsFound v.disk v.partition_first_block block
        (load_entry memory v block)
        (es ++ load_entry memory v block ∷ [])
unfolding load_entry
loaded_new memory v block served start small es h =
    let its = load_entry-IsLoaded memory v block served start small in
    record {
      loaded = its;
      first_le = omega arith;
      block_lt = omega arith;
      others = AreLoaded-append v.disk v.partition_first_block es (load_entry memory v block) h its;
    }

-- Searching for a block, and loading it where the cache does not have it.
pub find_or_load-IsFound :
    (memory : Array ℕ) (v : CachedVolume) (block : ℕ)
    → is_read v.disk.kind ≡ true
    → v.partition_first_block * v.disk.block_size < 2 ^ 32
    → address_of v.disk v.partition_first_block (block + 4) < 2 ^ 64
    → AreLoaded v.disk v.partition_first_block v.entries
    → IsFound v.disk v.partition_first_block block
        (find_or_load memory v block).0
        (find_or_load memory v block).1
unfolding find_or_load
find_or_load-IsFound memory v block served start small h =
    by_case (find_cache_entry block v.entries).0 (find_cache_entry block v.entries).1 refl
      (find_cache_entry-others v.disk v.partition_first_block block v.entries h)
  where
    by_case :
        (found : Option CacheEntry) (es : List CacheEntry)
        → (find_cache_entry block v.entries).0 ≡ found
        → AreLoaded v.disk v.partition_first_block (find_cache_entry block v.entries).1
        → IsFound v.disk v.partition_first_block block
            (or_load memory v block (found, (find_cache_entry block v.entries).1)).0
            (or_load memory v block (found, (find_cache_entry block v.entries).1)).1
    by_case none es e others =
        loaded_new memory v block served start small (find_cache_entry block v.entries).1 others
    by_case (some x) es e others =
        find_cache_entry-some v.disk v.partition_first_block block v.entries x h e

pub release_found-AreLoaded :
    (d : Disk) (p block : ℕ) (es : List CacheEntry)
    → AreLoaded d p es
    → AreLoaded d p (release_found block es)
unfolding release_found
release_found-AreLoaded d p block [] h = refl
release_found-AreLoaded d p block (e ∷ es) (first, h) = elim (Bool-cases (covers block e)) [
  | inl here ↦ rw here (record { content = first.content }, h)
  | inr elsewhere ↦ rw elsewhere (first, release_found-AreLoaded d p block es h)
]
