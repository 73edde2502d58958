-- ===== src/Mem/Paging/Layout.antt =====
-- The layout that the recursive mapping of kernel/mem/pmap.c depends on, and what a walk over the
-- tables finds under it.
use mathlib.Core.Path.{fun_ext}
use dogg_os.Base.{
  ℕ, ◌<◌, ◌≡◌, ◌≢◌, inl, inr, refl, sym, Bool, true, false, Bool-cases, if◌then◌else◌, arith, Array,
  update₂,
}
use dogg_os.Mem.Paging.{
  PageMap, has, page_of, frame_of, flag_used, flag_big_page, out_of_reach, pdir_index, ptable_index,
  read, write, table_frame, physical_page, is_mapped, Status, in_use, not_in_use,
}
use dogg_os.Mem.Paging.Entry.{pdir_index-eq}

module _ (f : Array (Array ℕ)) (c : ℕ) where
  -- Directory entry `d` names a page table.
  pub record HasTable (d : ℕ) : Type 0 where
    pub below : d < 0x3fe
    pub used : has (f c d) flag_used ≡ true
    pub small : has (f c d) flag_big_page ≡ false

  -- `c` is the frame of the directory. Its last entry leads to the table that maps the directory
  -- and itself.
  pub record IsRecursive : Type 0 where
    pub self_dir : frame_of (f (frame_of (f c 0x3ff)) 0x3ff) ≡ c
    pub self_table : frame_of (f (frame_of (f c 0x3ff)) 0x3fe) ≡ frame_of (f c 0x3ff)
    pub apart : frame_of (f c 0x3ff) ≢ c

  -- That table also maps every page table, and no two tables share a frame.
  pub record IsLayout : Type 0 where
    pub recursive : IsRecursive
    pub open recursive use *
    pub window : (d : ℕ) → HasTable d → f (frame_of (f c 0x3ff)) d ≡ f c d
    pub not_dir : (d : ℕ) → HasTable d → frame_of (f c d) ≢ c
    pub not_table : (d : ℕ) → HasTable d → frame_of (f c d) ≢ frame_of (f c 0x3ff)
    pub distinct : (d e : ℕ) → HasTable d → HasTable e → d ≢ e → frame_of (f c d) ≢ frame_of (f c e)

  -- The entry that translates the page with indices `d` and `t`.
  abbrev pub walk : ℕ → ℕ → ℕ
  walk d t =
      if has (f c d) flag_used
      then if has (f c d) flag_big_page then f c d else f (frame_of (f c d)) t
      else 0

abbrev pub IsPageMap : PageMap → Type 0
IsPageMap m = IsLayout m.frames m.cr3

abbrev pub translation : PageMap → ℕ → ℕ → ℕ
translation m = walk m.frames m.cr3

-- The addresses whose mapping the code may edit without touching the recursive mapping.
abbrev pub Mappable : ℕ → Type 0
Mappable a = (0 < a) × (a < 0xff800000)

pub reachable : {a : ℕ} → Mappable a → out_of_reach a ≡ false
reachable h = ground arith

pub pdir_index-lt : {a : ℕ} → Mappable a → pdir_index a < 0x3fe
pdir_index-lt {a} h = omega (arith, pdir_index-eq a)

-- The page that an entry names, or no page.
abbrev pub entry_page : ℕ → ℕ
entry_page e = if has e flag_used then page_of e else 0

-- What the two queries of the code say about an address.
abbrev pub view : PageMap → ℕ → ℕ × Status
view m a = (physical_page m a, is_mapped m a)

abbrev pub entry_view : ℕ → ℕ × Status
entry_view e = if has e flag_used then (page_of e, in_use) else (0, not_in_use)

pub row-update₂ : (f : Array (Array ℕ)) (p i v q : ℕ) → q ≢ p → update₂ f p i v q ≡ f q
row-update₂ f p i v q ne = fun_ext λ j. ground arith

pub HasTable-row : (f g : Array (Array ℕ)) (c d : ℕ) → g c ≡ f c → HasTable f c d → HasTable g c d
HasTable-row f g c d row h = record {
  below = h.below;
  used = rw row h.used;
  small = rw row h.small;
}

-- A layout lives in the rows of the directory and of its table.
pub IsLayout-rows :
    (f g : Array (Array ℕ)) (c : ℕ)
    → g c ≡ f c
    → g (frame_of (f c 0x3ff)) ≡ f (frame_of (f c 0x3ff))
    → IsLayout f c
    → IsLayout g c
IsLayout-rows f g c dir table l = record {
  recursive = record {
    self_dir = rw (dir, table) l.self_dir;
    self_table = rw (dir, table) l.self_table;
    apart = rw dir l.apart;
  };
  window = λ d h. rw (dir, table) (l.window d (back d h));
  not_dir = λ d h. rw dir (l.not_dir d (back d h));
  not_table = λ d h. rw dir (l.not_table d (back d h));
  distinct = λ d e h k ne. rw dir (l.distinct d e (back d h) (back e k) ne);
}
  where
    back : (d : ℕ) → HasTable g c d → HasTable f c d
    back d = HasTable-row g f c d (sym dir)

pub IsRecursive-entries :
    (f g : Array (Array ℕ)) (c : ℕ)
    → g c 0x3ff ≡ f c 0x3ff
    → g (frame_of (f c 0x3ff)) 0x3ff ≡ f (frame_of (f c 0x3ff)) 0x3ff
    → g (frame_of (f c 0x3ff)) 0x3fe ≡ f (frame_of (f c 0x3ff)) 0x3fe
    → IsRecursive f c
    → IsRecursive g c
IsRecursive-entries f g c dir self own r = record {
  self_dir = rw (dir, self) r.self_dir;
  self_table = rw (dir, own) r.self_table;
  apart = rw dir r.apart;
}

module _ (m : PageMap) (l : IsRecursive m.frames m.cr3) where
  pub read-dir : (d : ℕ) → read m 0x3ff d ≡ m.frames m.cr3 d
  unfolding read
  read-dir d = rw (read, l.self_dir)

  pub write-dir : (d v : ℕ) → write m 0x3ff d v ≡ record m { frames = update₂ m.frames m.cr3 d v }
  unfolding write
  write-dir d v = rw (write, l.self_dir)

  pub write-window :
      (d v : ℕ) → write m 0x3fe d v ≡ record m { frames = update₂ m.frames (table_frame m) d v }
  unfolding write
  write-window d v = rw (write, l.self_table)

module _ (m : PageMap) (l : IsPageMap m) where
  pub read-table :
      (d t : ℕ) → HasTable m.frames m.cr3 d → read m d t ≡ m.frames (frame_of (m.frames m.cr3 d)) t
  unfolding read
  read-table d t h = rw (read, l.window d h)

  pub write-table :
      (d t v : ℕ)
      → HasTable m.frames m.cr3 d
      → write m d t v ≡ record m { frames = update₂ m.frames (frame_of (m.frames m.cr3 d)) t v }
  unfolding write
  write-table d t v h = rw (write, l.window d h)

  -- k_mem_LinearAddressPhysicalPage returns the page of the entry that the walk finds.
  pub physical_page-walk :
      (a : ℕ)
      → Mappable a
      → physical_page m a ≡ entry_page (translation m (pdir_index a) (ptable_index a))
  unfolding physical_page
  physical_page-walk a h = elim (Bool-cases (has (m.frames m.cr3 (pdir_index a)) flag_used)) [
    | inr unused ↦ rw (reachable h, read-dir m l.recursive, unused)
    | inl used ↦ elim (Bool-cases (has (m.frames m.cr3 (pdir_index a)) flag_big_page)) [
      | inl big ↦ rw (reachable h, read-dir m l.recursive, used, big)
      | inr small ↦ rw (
        reachable h,
        read-dir m l.recursive,
        used,
        small,
        read-table (pdir_index a) (ptable_index a)
            (record { below = pdir_index-lt h; used = used; small = small }),
      )
    ]
  ]

  -- k_mem_IsLinearAddressMapped says whether that entry is marked as used.
  pub is_mapped-walk :
      (a : ℕ)
      → Mappable a
      → is_mapped m a ≡ (
          if has (translation m (pdir_index a) (ptable_index a)) flag_used
          then in_use
          else not_in_use)
  unfolding is_mapped
  is_mapped-walk a h = elim (Bool-cases (has (m.frames m.cr3 (pdir_index a)) flag_used)) [
    | inr unused ↦ rw (reachable h, read-dir m l.recursive, unused)
    | inl used ↦ elim (Bool-cases (has (m.frames m.cr3 (pdir_index a)) flag_big_page)) [
      | inl big ↦ rw (reachable h, read-dir m l.recursive, used, big, used)
      | inr small ↦ rw (
        reachable h,
        read-dir m l.recursive,
        used,
        small,
        read-table (pdir_index a) (ptable_index a)
            (record { below = pdir_index-lt h; used = used; small = small }),
      )
    ]
  ]

  pub view-walk :
      (a : ℕ) → Mappable a → view m a ≡ entry_view (translation m (pdir_index a) (ptable_index a))
  view-walk a h =
      rw (physical_page-walk a h, is_mapped-walk a h)
        (if-pair (has (translation m (pdir_index a) (ptable_index a)) flag_used)
          (page_of (translation m (pdir_index a) (ptable_index a))))
    where
      if-pair :
          (b : Bool) (p : ℕ)
          → ◌≡◌ {A = ℕ × Status}
              ((if b then p else 0), (if b then in_use else not_in_use))
              (if b then (p, in_use) else (0, not_in_use))
      if-pair true p = refl
      if-pair false p = refl
