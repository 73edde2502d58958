-- ===== src/Mem/Paging/Unmap.antt =====
-- What k_mem_UnmapLinearAddress does to the translations, and what it undoes.
use dogg_os.Base.{ℕ, ◌/◌, ◌<◌, ◌≡◌, refl, sym, ◌∙◌, ap, true, false, ◌∷◌}
use native.Mathlib.Decide.{ℕ_discrete}
use dogg_os.Mem.Paging.{
  ok, in_use, not_in_use, PageMap, has, frame_of, flag_used, flag_big_page, pdir_index,
  ptable_index, map_linear_address, unmap_linear_address, is_mapped,
}
use dogg_os.Mem.Paging.Layout.{
  HasTable, IsPageMap, Mappable, view, reachable, read-dir, read-table, write-table,
}
use dogg_os.Mem.Paging.Extend.{IsFresh}
use dogg_os.Mem.Paging.Edit.{edited}
use dogg_os.Mem.Paging.Map.{
  IsRetranslated, edited-IsRetranslated, taken-translation, free-view, view-same_page,
  map_linear_address-IsRetranslated,
}

module _ (a : ℕ) (m : PageMap) (l : IsPageMap m) (h : Mappable a) where
  -- On a page map with the recursive layout, unmapping an address from 1 to 0xff7fffff that is mapped
  -- through a page table succeeds: the page of the address is free afterwards, the page map keeps its
  -- layout, and every other address from 1 to 0xff7fffff answers as before.
  pub unmap_linear_address-IsRetranslated :
      HasTable m.frames m.cr3 (pdir_index a)
      → is_mapped m a ≡ in_use
      → (m' : PageMap) × (unmap_linear_address a m ≡ (ok, m'))
        × IsRetranslated a (0, not_in_use) m m'
  unfolding unmap_linear_address
  unmap_linear_address-IsRetranslated k taken = (
    edited m l (pdir_index a) (ptable_index a) 0 k (a ∷ m.flushed),
    rw (
      reachable h,
      read-dir m l.recursive,
      k.used,
      k.small,
      read-table m l (pdir_index a) (ptable_index a) k,
      table_entry k taken,
      write-table m l (pdir_index a) (ptable_index a) 0 k,
    ),
    edited-IsRetranslated a m l h k 0,
  )
    where
      table_entry :
          (k : HasTable m.frames m.cr3 (pdir_index a))
          → is_mapped m a ≡ in_use
          → has (m.frames (frame_of (m.frames m.cr3 (pdir_index a))) (ptable_index a)) flag_used
            ≡ true
      table_entry k taken = rw (k.used, k.small) at (taken-translation a m l h taken)

-- On a page map with the recursive layout, mapping a free address from 1 to 0xff7fffff, with flags below
-- 4096 that do not ask for a big page, and unmapping it again succeeds, and restores the answer of both
-- queries at every address from 1 to 0xff7fffff. The page that the allocator may be asked for must be
-- aligned and not yet in the page map.
pub map_linear_address-unmap_linear_address :
    (page a physical flags : ℕ) (m : PageMap)
    → IsPageMap m
    → Mappable a
    → IsFresh page m
    → flags < 4096
    → has flags flag_big_page ≡ false
    → is_mapped m a ≡ not_in_use
    → (m₁ m₂ : PageMap) × (map_linear_address page a physical flags m ≡ (ok, m₁))
      × (unmap_linear_address a m₁ ≡ (ok, m₂))
      × ((b : ℕ) → Mappable b → view m₂ b ≡ view m b)
map_linear_address-unmap_linear_address page a physical flags m l h fresh low small free =
    let (m₁, step₁, r₁) =
      map_linear_address-IsRetranslated a m l h page physical flags fresh low small free in
    let (m₂, step₂, r₂) =
      unmap_linear_address-IsRetranslated a m₁ r₁.layout h r₁.table
        (ap (λ v. v.1) (r₁.own a h refl)) in
    (
      m₁,
      m₂,
      step₁,
      step₂,
      λ b hb. elim (ℕ_discrete (b / 4096) (a / 4096)) [
        | yes e ↦ r₂.own b hb e ∙ sym (free-view a m l h free) ∙ sym (view-same_page a m l h b hb e)
        | no ne ↦ r₂.others b hb ne ∙ r₁.others b hb ne
      ],
    )
