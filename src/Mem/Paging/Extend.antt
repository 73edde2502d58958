-- ===== src/Mem/Paging/Extend.antt =====
-- A layout that has got one page table more is a layout, and translates as before.
use native.Mathlib.Decide.{ℕ_discrete}
use dogg_os.Base.{
  ℕ, ◌%◌, ◌<◌, ◌≡◌, ◌≢◌, sym, ◌∙◌, inl, inr, true, false, ◌==◌, Bool-cases, if◌then◌else◌, arith,
}
use dogg_os.Mem.Paging.{PageMap, has, frame_of, flag_used, flag_big_page, table_frame}
use dogg_os.Mem.Paging.Layout.{HasTable, IsPageMap, translation}

-- A page that the allocator may hand out: aligned, and not in use by the page map.
pub record IsFresh (page : ℕ) (m : PageMap) : Type 0 where
  pub aligned : page % 4096 ≡ 0
  pub not_dir : frame_of page ≢ m.cr3
  pub not_table : frame_of page ≢ table_frame m
  pub unused : (d : ℕ) → HasTable m.frames m.cr3 d → frame_of (m.frames m.cr3 d) ≢ frame_of page

-- What ensure_table leaves behind: a layout in which the entry has a small page table, with every
-- translation as it was.
pub record IsEnsured (d : ℕ) (m m' : PageMap) : Type 0 where
  pub layout : IsPageMap m'
  pub table : HasTable m'.frames m'.cr3 d
  pub same : (e t : ℕ) → e < 0x3fe → t < 1024 → translation m' e t ≡ translation m e t
  pub flushed : m'.flushed ≡ m.flushed

-- The frames once an unused directory entry `d` has got the table `e`, cleared.
pub record IsExtended (d e : ℕ) (m m' : PageMap) : Type 0 where
  pub root : m'.cr3 ≡ m.cr3
  pub log : m'.flushed ≡ m.flushed
  pub dir : (j : ℕ) → m'.frames m.cr3 j ≡ (if j == d then e else m.frames m.cr3 j)
  pub table :
      (j : ℕ) → m'.frames (table_frame m) j ≡ (if j == d then e else m.frames (table_frame m) j)
  pub zeros : (j : ℕ) → j < 1024 → m'.frames (frame_of e) j ≡ 0
  pub others :
      (q j : ℕ) → q ≢ m.cr3 → q ≢ table_frame m → q ≢ frame_of e → m'.frames q j ≡ m.frames q j

module _ (d e : ℕ) (m m' : PageMap) (l : IsPageMap m) (below : d < 0x3fe) where
  module _ (unused : has (m.frames m.cr3 d) flag_used ≡ false) (x : IsExtended d e m m') where
    old_entry : (j : ℕ) → j ≢ d → m'.frames m'.cr3 j ≡ m.frames m.cr3 j
    old_entry j ne = rw (x.root) (ground (arith, x.dir j))

    new_entry : m'.frames m'.cr3 d ≡ e
    new_entry = rw (x.root) (ground (arith, x.dir d))

    same_table : table_frame m' ≡ table_frame m
    same_table = rw (old_entry 0x3ff (omega arith))

    old_table : (j : ℕ) → HasTable m'.frames m'.cr3 j → j ≢ d → HasTable m.frames m.cr3 j
    old_table j h ne = record {
      below = h.below;
      used = rw (old_entry j ne) at (h.used);
      small = rw (old_entry j ne) at (h.small);
    }

    module _ (used : has e flag_used ≡ true) (small : has e flag_big_page ≡ false)
        (ne_dir : frame_of e ≢ m.cr3) (ne_table : frame_of e ≢ table_frame m)
        (fresh : (j : ℕ)
          → HasTable m.frames m.cr3 j
          → frame_of (m.frames m.cr3 j) ≢ frame_of e) where
      new_HasTable : HasTable m'.frames m'.cr3 d
      new_HasTable = record { below = below; used = rw new_entry used; small = rw new_entry small }

      -- Each table of the new layout is the new one or an old one.
      split :
          (P : ℕ → Type 0)
          → P e
          → ((j : ℕ) → HasTable m.frames m.cr3 j → P (m.frames m.cr3 j))
          → (j : ℕ) → HasTable m'.frames m'.cr3 j
          → P (m'.frames m'.cr3 j)
      split P new old j h = elim (ℕ_discrete j d) [
        | yes same ↦ rw (same, new_entry) new
        | no ne ↦ rw (old_entry j ne) (old j (old_table j h ne))
      ]

      window_of :
          (j : ℕ) → HasTable m'.frames m'.cr3 j → m'.frames (table_frame m') j ≡ m'.frames m'.cr3 j
      window_of j h = elim (ℕ_discrete j d) [
        | yes same ↦ rw (same, new_entry, same_table) (ground (arith, x.table d))
        | no ne ↦
            rw (old_entry j ne, same_table)
              (ground (arith, x.table j, l.window j (old_table j h ne)))
      ]

      tables_distinct :
          (i j : ℕ)
          → HasTable m'.frames m'.cr3 i
          → HasTable m'.frames m'.cr3 j
          → i ≢ j
          → frame_of (m'.frames m'.cr3 i) ≢ frame_of (m'.frames m'.cr3 j)
      tables_distinct i j h k ne = elim (ℕ_discrete i d) [
        | yes i_new ↦
            let j_old : j ≢ d = λ eq. ne (i_new ∙ sym eq) in
            rw (i_new, new_entry, old_entry j j_old) (λ eq. fresh j (old_table j k j_old) (sym eq))
        | no i_old ↦ elim (ℕ_discrete j d) [
          | yes j_new ↦ rw (j_new, new_entry, old_entry i i_old) (fresh i (old_table i h i_old))
          | no j_old ↦
              rw (old_entry i i_old, old_entry j j_old)
                (l.distinct i j (old_table i h i_old) (old_table j k j_old) ne)
        ]
      ]

      new_IsPageMap : IsPageMap m'
      new_IsPageMap = record {
        recursive = record {
          self_dir = rw (same_table) (ground (arith, x.table 0x3ff, l.self_dir, x.root));
          self_table = rw (same_table) (ground (arith, x.table 0x3fe, l.self_table));
          apart = rw (same_table, x.root) l.apart;
        };
        window = window_of;
        not_dir = split (λ v. frame_of v ≢ m'.cr3) (rw (x.root) ne_dir) (rw (x.root) l.not_dir);
        not_table = rw (same_table) (split (λ v. frame_of v ≢ table_frame m) ne_table l.not_table);
        distinct = tables_distinct;
      }

      -- The new table translates nothing, as the unused entry did.
      same_translation : (i t : ℕ) → i < 0x3fe → t < 1024 → translation m' i t ≡ translation m i t
      same_translation i t hi ht = elim (ℕ_discrete i d) [
        | yes i_new ↦ rw (i_new, new_entry, unused, used, small) (x.zeros t ht)
        | no i_old ↦ elim (Bool-cases (has (m.frames m.cr3 i) flag_used)) [
          | inr free ↦ rw (old_entry i i_old, free)
          | inl taken ↦ elim (Bool-cases (has (m.frames m.cr3 i) flag_big_page)) [
            | inl big ↦ rw (old_entry i i_old, taken, big)
            | inr little ↦
                let h : HasTable m.frames m.cr3 i = record {
                  below = hi;
                  used = taken;
                  small = little;
                } in
                rw (old_entry i i_old, taken, little)
                  (x.others _ t (l.not_dir i h) (l.not_table i h) (fresh i h))
          ]
        ]
      ]

      pub extended-IsEnsured : IsEnsured d m m'
      extended-IsEnsured = record {
        layout = new_IsPageMap;
        table = new_HasTable;
        same = same_translation;
        flushed = x.log;
      }
