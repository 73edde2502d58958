-- ===== src/Mem/Paging/Map.antt =====
-- What k_mem_MapLinearAddress and k_mem_UnmapLinearAddress do to the translations.
use dogg_os.Base.{
  true-ne-false, ℕ, ◌/◌, subst, ◌<◌, ◌≡◌, ◌≢◌, refl, sym, ◌∙◌, ap, inl, inr, true, false, ◌==◌,
  ◌&&◌, ◌∷◌, Bool-cases, if◌then◌else◌, arith, bit_or, List, Bool,
}
use dogg_os.Mem.Paging.{
  Status, ok, in_use, not_in_use, PageMap, has, page_of, flag_used, flag_big_page, pdir_index,
  ptable_index, read, entry_flags, install, map_linear_address, is_mapped,
}
use dogg_os.Mem.Paging.Entry.{
  used-entry, frame_of-entry, entry_flags-lt, big-entry_flags, page_of-frame_of, pdir_index-eq,
  ptable_index-eq, ptable_index-lt,
}
use dogg_os.Mem.Paging.Layout.{
  HasTable, IsPageMap, Mappable, translation, view, entry_view, reachable, pdir_index-lt, read-dir,
  read-table, write-table, view-walk, is_mapped-walk,
}
use dogg_os.Mem.Paging.Extend.{IsFresh, IsEnsured}
use dogg_os.Mem.Paging.Ensure.{ensure_table-IsEnsured}
use dogg_os.Mem.Paging.Edit.{edited, edited-IsPageMap, edited-HasTable, translation-edited}

-- The page of an entry is that of its address.
page_of-entry : (p f : ℕ) → f < 4096 → page_of (bit_or p (entry_flags f)) ≡ page_of p
page_of-entry p f h =
    page_of-frame_of (bit_or p (entry_flags f))
    ∙ rw (frame_of-entry p (entry_flags f) (entry_flags-lt f h)) (sym (page_of-frame_of p))

entry_view-entry :
    (p f : ℕ) → f < 4096 → entry_view (bit_or p (entry_flags f)) ≡ (page_of p, in_use)
entry_view-entry p f h = rw (used-entry p f, page_of-entry p f h)

module _ (a : ℕ) (m : PageMap) (l : IsPageMap m) (h : Mappable a) where
  abbrev d : ℕ
  d = pdir_index a

  abbrev t : ℕ
  t = ptable_index a

  -- The entry is read through the window of its table.
  read-entry :
      (k : HasTable m.frames m.cr3 d)
      → has (read m d t) flag_used ≡ has (translation m d t) flag_used
  read-entry k = rw (read-table m l d t k, k.used, k.small)

  -- A free entry in an existing table is filled.
  install-free :
      (physical flags : ℕ) (k : HasTable m.frames m.cr3 d)
      → has flags flag_big_page ≡ false
      → has (translation m d t) flag_used ≡ false
      → install a physical (entry_flags flags) m
        ≡ (ok, edited m l d t (bit_or physical (entry_flags flags)) k (a ∷ m.flushed))
  unfolding install
  install-free physical flags k small free = rw (
    read-dir m l.recursive,
    k.small,
    big-entry_flags,
    small,
    read-entry k,
    free,
    write-table m l d t (bit_or physical (entry_flags flags)) k,
  )

-- Two addresses with the same two indices, and no others, lie on the same page.
same_page :
    (a b : ℕ)
    → Mappable a
    → Mappable b
    → ((pdir_index b == pdir_index a) && (ptable_index b == ptable_index a))
      ≡ (b / 4096 == a / 4096)
same_page a b h k =
    ground (arith, pdir_index-eq a, pdir_index-eq b, ptable_index-eq a, ptable_index-eq b)

in_use-ne-not_in_use : in_use ≢ not_in_use
in_use-ne-not_in_use e = cc

entry_view-if :
    (c : Bool) (v w : ℕ)
    → entry_view (if c then v else w) ≡ (if c then entry_view v else entry_view w)
entry_view-if true v w = refl
entry_view-if false v w = refl

module _ (a : ℕ) (m : PageMap) (l : IsPageMap m) (h : Mappable a)
    (k : HasTable m.frames m.cr3 (pdir_index a)) (v : ℕ) (log : List ℕ) where
  abbrev changed : PageMap
  changed = edited m l (pdir_index a) (ptable_index a) v k log

  -- The written entry decides for the addresses of its page, and no others.
  view-edited :
      (b : ℕ)
      → Mappable b
      → view changed b ≡ (if b / 4096 == a / 4096 then entry_view v else view m b)
  view-edited b hb =
      view-walk changed (edited-IsPageMap m l (pdir_index a) (ptable_index a) v k log) b hb
      ∙ rw
          (
            translation-edited m l (pdir_index a) (ptable_index a) v k log (pdir_index b)
                (ptable_index b) (pdir_index-lt hb),
            same_page a b h hb,
            view-walk m l b hb,
          )
          (entry_view-if (b / 4096 == a / 4096) v (translation m (pdir_index b) (ptable_index b)))

-- What the code leaves behind when it makes `v` the answer of its queries about the page of `a`.
pub record IsRetranslated (a : ℕ) (v : ℕ × Status) (m m' : PageMap) : Type 0 where
  pub layout : IsPageMap m'
  pub table : HasTable m'.frames m'.cr3 (pdir_index a)
  pub own : (b : ℕ) → Mappable b → b / 4096 ≡ a / 4096 → view m' b ≡ v
  pub others : (b : ℕ) → Mappable b → b / 4096 ≢ a / 4096 → view m' b ≡ view m b
  pub log : m'.flushed ≡ a ∷ m.flushed

module _ (a : ℕ) (m : PageMap) (l : IsPageMap m) (h : Mappable a) where
  pub edited-IsRetranslated :
      (k : HasTable m.frames m.cr3 (pdir_index a)) (v : ℕ)
      → IsRetranslated a
          (entry_view v)
          m
          (edited m l (pdir_index a) (ptable_index a) v k (a ∷ m.flushed))
  edited-IsRetranslated k v = record {
    layout = edited-IsPageMap m l (pdir_index a) (ptable_index a) v k (a ∷ m.flushed);
    table = edited-HasTable m l (pdir_index a) (ptable_index a) v k (a ∷ m.flushed);
    own = λ b hb e. view-edited a m l h k v (a ∷ m.flushed) b hb ∙ ground arith;
    others = λ b hb ne. view-edited a m l h k v (a ∷ m.flushed) b hb ∙ ground arith;
    log = refl;
  }

module _ (a : ℕ) (m : PageMap) (l : IsPageMap m) (h : Mappable a) where
  -- An address that is not mapped has no entry that is in use.
  pub free-translation :
      is_mapped m a ≡ not_in_use
      → has (translation m (pdir_index a) (ptable_index a)) flag_used ≡ false
  free-translation free =
      elim (Bool-cases (has (translation m (pdir_index a) (ptable_index a)) flag_used)) [
        | inr e ↦ e
        | inl e ↦
            let taken : is_mapped m a ≡ in_use = rw (is_mapped-walk m l a h, e) in
            absurd (in_use-ne-not_in_use (sym taken ∙ free))
      ]

  pub free-view : is_mapped m a ≡ not_in_use → view m a ≡ (0, not_in_use)
  free-view free = view-walk m l a h ∙ rw (free-translation free)

  pub taken-translation :
      is_mapped m a ≡ in_use → has (translation m (pdir_index a) (ptable_index a)) flag_used ≡ true
  taken-translation taken =
      elim (Bool-cases (has (translation m (pdir_index a) (ptable_index a)) flag_used)) [
        | inl e ↦ e
        | inr e ↦
            let free : is_mapped m a ≡ not_in_use = rw (is_mapped-walk m l a h, e) in
            absurd (in_use-ne-not_in_use (sym taken ∙ free))
      ]

  pub view-same_page : (b : ℕ) → Mappable b → b / 4096 ≡ a / 4096 → view m b ≡ view m a
  view-same_page b hb e =
      view-walk m l b hb
      ∙ rw (dir_index-same_page e, table_index-same_page e) (sym (view-walk m l a h))
    where
      dir_index-same_page : b / 4096 ≡ a / 4096 → pdir_index b ≡ pdir_index a
      dir_index-same_page e = omega (arith, pdir_index-eq a, pdir_index-eq b)

      table_index-same_page : b / 4096 ≡ a / 4096 → ptable_index b ≡ ptable_index a
      table_index-same_page e = omega (arith, ptable_index-eq a, ptable_index-eq b)

  -- In particular the directory entry is not a big page in use.
  pub free-small :
      is_mapped m a ≡ not_in_use
      → has (m.frames m.cr3 (pdir_index a)) flag_used ≡ true
      → has (m.frames m.cr3 (pdir_index a)) flag_big_page ≡ false
  free-small free used = elim (Bool-cases (has (m.frames m.cr3 (pdir_index a)) flag_big_page)) [
    | inr e ↦ e
    | inl big ↦
        let entry : translation m (pdir_index a) (ptable_index a) ≡ m.frames m.cr3 (pdir_index a) =
          rw (used, big) in
        let clash : has (translation m (pdir_index a) (ptable_index a)) flag_used ≡ true =
          rw entry used in
        absurd (true-ne-false (sym clash ∙ free-translation free))
  ]

  -- A new page table changes no translation.
  view-IsEnsured :
      (m₁ : PageMap) → IsEnsured (pdir_index a) m m₁ → (b : ℕ) → Mappable b → view m₁ b ≡ view m b
  view-IsEnsured m₁ e b hb =
      view-walk m₁ e.layout b hb
      ∙ rw (e.same (pdir_index b) (ptable_index b) (pdir_index-lt hb) (ptable_index-lt b))
          (sym (view-walk m l b hb))

  IsRetranslated-IsEnsured :
      (m₁ m' : PageMap) (p : ℕ × Status)
      → IsEnsured (pdir_index a) m m₁
      → IsRetranslated a p m₁ m'
      → IsRetranslated a p m m'
  IsRetranslated-IsEnsured m₁ m' p e r = record {
    layout = r.layout;
    table = r.table;
    own = r.own;
    others = λ b hb ne. r.others b hb ne ∙ view-IsEnsured m₁ e b hb;
    log = r.log ∙ ap (λ log. a ∷ log) e.flushed;
  }

  -- On a page map with the recursive layout, mapping a free address from 1 to 0xff7fffff, with flags below
  -- 4096 that do not ask for a big page, succeeds: the queries answer for its page with the physical
  -- page, for every other address from 1 to 0xff7fffff as before, the layout is kept, and the address is
  -- flushed from the TLB. The page that the allocator may be asked for must be aligned and not yet in
  -- the page map.
  pub map_linear_address-IsRetranslated :
      (page physical flags : ℕ)
      → IsFresh page m
      → flags < 4096
      → has flags flag_big_page ≡ false
      → is_mapped m a ≡ not_in_use
      → (m' : PageMap) × (map_linear_address page a physical flags m ≡ (ok, m'))
        × IsRetranslated a (page_of physical, in_use) m m'
  unfolding map_linear_address
  map_linear_address-IsRetranslated page physical flags fresh low small free =
      let (m₁, step, e) =
        ensure_table-IsEnsured (pdir_index a) page flags m l (pdir_index-lt h) fresh low small
          (free-small free) in
      let none : has (translation m₁ (pdir_index a) (ptable_index a)) flag_used ≡ false =
        rw (e.same (pdir_index a) (ptable_index a) (pdir_index-lt h) (ptable_index-lt a))
          (free-translation free) in
      (
        edited m₁ e.layout (pdir_index a) (ptable_index a) (bit_or physical (entry_flags flags))
            e.table (a ∷ m₁.flushed),
        rw (reachable h, step) (install-free a m₁ e.layout h physical flags e.table small none),
        IsRetranslated-IsEnsured m₁ _ (page_of physical, in_use) e
            (subst
              (λ p. IsRetranslated a p m₁ (
                edited m₁ e.layout (pdir_index a) (ptable_index a)
                  (bit_or physical (entry_flags flags)) e.table (a ∷ m₁.flushed)))
              (entry_view-entry physical flags low)
              (edited-IsRetranslated a m₁ e.layout h e.table
                (bit_or physical (entry_flags flags)))),
      )
