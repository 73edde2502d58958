-- ===== src/Mem/Paging/Ensure.antt =====
-- The first half of k_mem_MapLinearAddress: an unused directory entry gets a new page table.
use dogg_os.Base.{
  ℕ, ◌<◌, ◌≡◌, ◌≢◌, refl, sym, ◌∙◌, true, false, ◌==◌, if◌then◌else◌, Bool-cases, inl, inr, subst,
  arith, Array, update₂, bit_or,
}
use dogg_os.Mem.Paging.{
  PageMap, has, frame_of, flag_used, flag_big_page, read, write, table_frame, entry_flags,
  clear_table, ensure_table, ok,
}
use dogg_os.Mem.Paging.Entry.{
  used-entry, frame_of-entry, entry_flags-lt, big-entry, big-entry_flags,
}
use dogg_os.Mem.Paging.Layout.{
  IsPageMap, IsRecursive, IsRecursive-entries, read-dir, write-dir, write-window,
}
use dogg_os.Mem.Paging.Clear.{IsOwnFrame, IsCleared, clear_table-IsCleared}
use dogg_os.Mem.Paging.Extend.{IsFresh, IsEnsured, IsExtended, extended-IsEnsured}

-- The two writes of the entry, into the directory and into its table.
record IsLinked (d e : ℕ) (m : PageMap) (g : Array (Array ℕ)) : Type 0 where
  dir : (j : ℕ) → g m.cr3 j ≡ (if j == d then e else m.frames m.cr3 j)
  table : (j : ℕ) → g (table_frame m) j ≡ (if j == d then e else m.frames (table_frame m) j)
  others : (q j : ℕ) → q ≢ m.cr3 → q ≢ table_frame m → g q j ≡ m.frames q j

module _ (d e : ℕ) (m : PageMap) (g : Array (Array ℕ)) (x : IsLinked d e m g)
    (below : d < 0x3fe) where
  module _ (not_dir : m.cr3 ≢ frame_of e) (not_table : table_frame m ≢ frame_of e) where
    abbrev linked : PageMap
    linked = record m { frames = g }

    abbrev extended : PageMap
    extended = clear_table 1024 d 0 linked

    table-linked : table_frame linked ≡ table_frame m
    table-linked = rw (x.dir 0x3ff) (ground arith)

    linked-IsOwnFrame : IsOwnFrame (frame_of e) d linked
    linked-IsOwnFrame = record {
      here = rw (table-linked, x.table d) (ground arith);
      not_dir = not_dir;
      not_table = rw table-linked not_table;
    }

    extended-IsCleared : IsCleared (frame_of e) 0 1024 linked extended
    extended-IsCleared = clear_table-IsCleared 1024 (frame_of e) d 0 linked linked-IsOwnFrame

    extended-IsExtended : IsExtended d e m extended
    extended-IsExtended = record {
      root = c.root;
      log = c.log;
      dir = λ j. rw (c.others m.cr3 not_dir) (x.dir j);
      table = λ j. rw (c.others (table_frame m) not_table) (x.table j);
      zeros = λ j h. c.zeros j ∙ ground arith;
      others = λ q j nd nt ne. rw (c.others q ne) (x.others q j nd nt);
    }
      where
        c : IsCleared (frame_of e) 0 1024 linked extended
        c = extended-IsCleared

-- Both halves of the new table, as the code writes them.
module _ (d page flags : ℕ) (m : PageMap) (l : IsPageMap m) (below : d < 0x3fe) where
  abbrev entry : ℕ
  entry = bit_or page (entry_flags flags)

  abbrev both : Array (Array ℕ)
  both = update₂ (update₂ m.frames m.cr3 d entry) (table_frame m) d entry

  both-IsLinked : IsLinked d entry m both
  both-IsLinked = record {
    dir = λ j. ground (arith, l.apart);
    table = λ j. ground (arith, l.apart);
    others = λ q j nd nt. ground arith;
  }

  abbrev half : PageMap
  half = record m { frames = update₂ m.frames m.cr3 d entry }

  half-IsRecursive : IsRecursive half.frames m.cr3
  half-IsRecursive =
      IsRecursive-entries m.frames half.frames m.cr3 (ground arith) (ground (arith, l.apart))
        (ground (arith, l.apart)) l.recursive

  read-half : read half 0x3ff d ≡ entry
  read-half = read-dir half half-IsRecursive d ∙ ground arith

  table-half : table_frame half ≡ table_frame m
  table-half = ground arith

  write-half : write half 0x3fe d entry ≡ record m { frames = both }
  write-half = rw (write-window half half-IsRecursive d entry, table-half)

  entry-ne-zero : (entry == 0) ≡ false
  entry-ne-zero = elim (Bool-cases (entry == 0)) [
    | inr e ↦ e
    | inl e ↦
        let z : entry ≡ 0 = ground arith in
        let u : has 0 flag_used ≡ true =
          subst (λ v. has v flag_used ≡ true) z (used-entry page flags) in
        cc
  ]

  ensure_table-new :
      has (m.frames m.cr3 d) flag_used ≡ false
      → has flags flag_big_page ≡ false
      → ensure_table d page (entry_flags flags) m
        ≡ (ok, clear_table 1024 d 0 (record m { frames = both }))
  unfolding ensure_table
  ensure_table-new unused small = rw (
    read-dir m l.recursive,
    unused,
    big-entry_flags,
    small,
    write-dir m l.recursive,
    read-half,
    entry-ne-zero,
    write-half,
  )

  pub ensure_table-old :
      has (m.frames m.cr3 d) flag_used ≡ true → ensure_table d page (entry_flags flags) m ≡ (ok, m)
  unfolding ensure_table
  ensure_table-old used = rw (read-dir m l.recursive, used)

  -- The step never fails.
  pub ensure_table-ok : (m' : PageMap) × (ensure_table d page (entry_flags flags) m ≡ (ok, m'))
  unfolding ensure_table
  ensure_table-ok = elim (Bool-cases (has (m.frames m.cr3 d) flag_used)) [
    | inl used ↦ (m, ensure_table-old used)
    | inr unused ↦ elim (Bool-cases (has flags flag_big_page)) [
      | inl big ↦ (m, rw (read-dir m l.recursive, unused, big-entry_flags, big))
      | inr small ↦
          (clear_table 1024 d 0 (record m { frames = both }), ensure_table-new unused small)
    ]
  ]

  -- In both cases the step succeeds, and the directory entry has a page table afterwards.
  pub ensure_table-IsEnsured :
      IsFresh page m
      → flags < 4096
      → has flags flag_big_page ≡ false
      → (has (m.frames m.cr3 d) flag_used ≡ true → has (m.frames m.cr3 d) flag_big_page ≡ false)
      → (m' : PageMap) × (ensure_table d page (entry_flags flags) m ≡ (ok, m')) × IsEnsured d m m'
  ensure_table-IsEnsured fresh low_flags small dir_small =
      elim (Bool-cases (has (m.frames m.cr3 d) flag_used)) [
        | inl used ↦ (
          m,
          ensure_table-old used,
          record {
            layout = l;
            table = record { below = below; used = used; small = dir_small used };
            same = λ e t he ht. refl;
            flushed = refl;
          },
        )
        | inr unused ↦ (
          clear_table 1024 d 0 (record m { frames = both }),
          ensure_table-new unused small,
          extended-IsEnsured d entry m _ l below unused
              (extended-IsExtended d entry m both both-IsLinked below
                (λ e. fresh.not_dir (sym (e ∙ same))) (λ e. fresh.not_table (sym (e ∙ same))))
              (used-entry page flags) (big-entry page flags fresh.aligned small)
              (λ e. fresh.not_dir (sym same ∙ e)) (λ e. fresh.not_table (sym same ∙ e))
              (λ j h e. fresh.unused j h (e ∙ same)),
        )
      ]
    where
      same : frame_of entry ≡ frame_of page
      same = frame_of-entry page (entry_flags flags) (entry_flags-lt flags low_flags)
