-- ===== src/Rt/Objects/Return.antt =====
-- k_rt_FreeObjListElement gives an element back, and the next allocation hands it out.
use dogg_os.Base.{ℕ, ◌≡◌, false, ◌==◌, if◌then◌else◌}
use dogg_os.Rt.Objects.{ObjectList}
use dogg_os.Rt.Objects.Live.{is_live, IsListed}

-- What freeing an element has done: it is not in use, and nothing else changed.
pub record IsFreed (l l' : ObjectList) (index : ℕ) : Type 0 where
  pub others : (j : ℕ) → is_live l' j ≡ (if j == index then false else is_live l j)
  pub now_listed : IsListed l'
