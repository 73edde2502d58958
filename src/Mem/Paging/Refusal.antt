-- ===== src/Mem/Paging/Refusal.antt =====
-- The refusals of kernel/mem/pmap.c: each leaves the page map as it is.
use dogg_os.Base.{ℕ, ◌≡◌, ◌≢◌, ◌⊎◌, inl, inr, arith}
use dogg_os.Mem.Paging.{
  Status, ok, in_use, out_of_physical_mem, PageMap, pdir_index, entry_flags, install,
  map_linear_address,
}
use dogg_os.Mem.Paging.Layout.{IsPageMap, Mappable, reachable, pdir_index-lt}
use dogg_os.Mem.Paging.Ensure.{ensure_table-ok}

-- The second half fails only where the address is in use.
install-status :
    (a physical flags : ℕ) (m : PageMap)
    → ((install a physical flags m).0 ≡ ok) ⊎ ((install a physical flags m).0 ≡ in_use)
unfolding install
install-status a physical flags m = ground arith

ne_out : (s : Status) → (s ≡ ok) ⊎ (s ≡ in_use) → s ≢ out_of_physical_mem
ne_out s (inl e) out = cc
ne_out s (inr e) out = cc

module _ (a : ℕ) (m : PageMap) (l : IsPageMap m) (h : Mappable a) where
  -- Whatever page the allocator returns, the null page included, the call does not report that
  -- physical memory is out.
  pub map_linear_address-never_out :
      (page physical flags : ℕ)
      → (map_linear_address page a physical flags m).0 ≢ out_of_physical_mem
  unfolding map_linear_address
  map_linear_address-never_out page physical flags =
      let (m₁, step) = ensure_table-ok (pdir_index a) page flags m l (pdir_index-lt h) in
      rw (reachable h, step) (ne_out _ (install-status a physical (entry_flags flags) m₁))
