-- ===== src/Mem/Paging/Edit.antt =====
-- Writing one entry of a page table: the translations of every page under the new frames.
use native.Mathlib.Decide.{ℕ_discrete}
use dogg_os.Base.{
  ℕ, ◌<◌, ◌≡◌, ◌≢◌, sym, ◌∙◌, inl, inr, ◌==◌, ◌&&◌, Bool-cases, if◌then◌else◌, arith, List, Array,
  update₂,
}
use dogg_os.Mem.Paging.{PageMap, has, frame_of, flag_used, flag_big_page, table_frame}
use dogg_os.Mem.Paging.Layout.{
  HasTable, IsPageMap, IsLayout-rows, HasTable-row, row-update₂, translation, walk,
}

-- Under the same directory a walk differs only in the last read.
walk-dir :
    (f g : Array (Array ℕ)) (c : ℕ)
    → g c ≡ f c
    → (e u : ℕ)
    → walk g c e u ≡ (
        if has (f c e) flag_used
        then if has (f c e) flag_big_page then f c e else g (frame_of (f c e)) u
        else 0)
walk-dir f g c dir e u = rw dir

module _ (m : PageMap) (l : IsPageMap m) (d t v : ℕ) (h : HasTable m.frames m.cr3 d)
    (log : List ℕ) where
  abbrev frame : ℕ
  frame = frame_of (m.frames m.cr3 d)

  -- The state with the entry written and the flushes `log`.
  abbrev pub edited : PageMap
  edited = record m { frames = update₂ m.frames frame t v; flushed = log }

  dir_row : edited.frames m.cr3 ≡ m.frames m.cr3
  dir_row = row-update₂ m.frames frame t v m.cr3 (λ e. l.not_dir d h (sym e))

  table_row : edited.frames (table_frame m) ≡ m.frames (table_frame m)
  table_row = row-update₂ m.frames frame t v (table_frame m) (λ e. l.not_table d h (sym e))

  pub edited-IsPageMap : IsPageMap edited
  edited-IsPageMap = IsLayout-rows m.frames edited.frames m.cr3 dir_row table_row l

  pub edited-HasTable : HasTable edited.frames edited.cr3 d
  edited-HasTable = HasTable-row m.frames edited.frames m.cr3 d dir_row h

  -- A table of another directory entry is another frame.
  other_table :
      (e u : ℕ)
      → HasTable m.frames m.cr3 e
      → e ≢ d
      → edited.frames (frame_of (m.frames m.cr3 e)) u ≡ m.frames (frame_of (m.frames m.cr3 e)) u
  other_table e u k ne = ground (arith, l.distinct e d k h ne)

  walk-own : (u : ℕ) → translation edited d u ≡ (if u == t then v else translation m d u)
  walk-own u =
      walk-dir m.frames edited.frames m.cr3 dir_row d u ∙ rw (h.used, h.small) (ground arith)

  walk-other : (e u : ℕ) → e < 0x3fe → e ≢ d → translation edited e u ≡ translation m e u
  walk-other e u he ne =
      walk-dir m.frames edited.frames m.cr3 dir_row e u
      ∙ elim (Bool-cases (has (m.frames m.cr3 e) flag_used)) [
        | inr free ↦ rw free
        | inl used ↦ elim (Bool-cases (has (m.frames m.cr3 e) flag_big_page)) [
          | inl big ↦ rw (used, big)
          | inr small ↦
              rw (used, small)
                (other_table e u (record { below = he; used = used; small = small }) ne)
        ]
      ]

  pub translation-edited :
      (e u : ℕ)
      → e < 0x3fe
      → translation edited e u ≡ (if (e == d) && (u == t) then v else translation m e u)
  translation-edited e u he = elim (ℕ_discrete e d) [
    | yes same ↦ rw same (walk-own u ∙ ground arith)
    | no ne ↦ walk-other e u he ne ∙ ground arith
  ]
