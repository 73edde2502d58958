-- ===== src/Mem/Paging/Clear.antt =====
-- The loop of k_mem_MapLinearAddress that clears a new page table through its window.
use dogg_os.Base.{
  ℕ, zero, suc, ◌+◌, ◌≡◌, ◌≢◌, refl, ◌∙◌, ◌&&◌, ltb, leb, if◌then◌else◌, arith, Array, update₂,
}
use dogg_os.Mem.Paging.{PageMap, write, table_frame, window_frame, clear_table}
use dogg_os.Mem.Paging.Layout.{row-update₂}

-- What the clearing loop has done when it stops: entries `i` to `i + n` of the frame are zero.
pub record IsCleared (p i n : ℕ) (m m' : PageMap) : Type 0 where
  pub root : m'.cr3 ≡ m.cr3
  pub log : m'.flushed ≡ m.flushed
  pub others : (q : ℕ) → q ≢ p → m'.frames q ≡ m.frames q
  pub zeros : (j : ℕ) → m'.frames p j ≡ (if leb i j && ltb j (i + n) then 0 else m.frames p j)

-- Writing to a frame of its own leaves the windows where they are.
pub record IsOwnFrame (p d : ℕ) (m : PageMap) : Type 0 where
  pub here : window_frame m d ≡ p
  pub not_dir : m.cr3 ≢ p
  pub not_table : table_frame m ≢ p

IsOwnFrame-rows :
    (p d : ℕ) (m : PageMap) (g : Array (Array ℕ))
    → g m.cr3 ≡ m.frames m.cr3
    → g (table_frame m) ≡ m.frames (table_frame m)
    → IsOwnFrame p d m
    → IsOwnFrame p d (record m { frames = g })
IsOwnFrame-rows p d m g dir table o = record {
  here = rw (dir, table) o.here;
  not_dir = o.not_dir;
  not_table = rw dir o.not_table;
}

write-IsOwnFrame : (p d i v : ℕ) (m : PageMap) → IsOwnFrame p d m → IsOwnFrame p d (write m d i v)
unfolding write
write-IsOwnFrame p d i v m o =
    rw (write, o.here)
      (IsOwnFrame-rows p d m (update₂ m.frames p i v) (row-update₂ m.frames p i v m.cr3 o.not_dir)
        (row-update₂ m.frames p i v (table_frame m) o.not_table) o)

IsCleared-step :
    (p d i n : ℕ) (m m' : PageMap)
    → IsOwnFrame p d m
    → IsCleared p (i + 1) n (write m d i 0) m'
    → IsCleared p i (suc n) m m'
unfolding write
IsCleared-step p d i n m m' o c = record {
  root = c.root;
  log = c.log;
  others = λ q ne. c.others q ne ∙ rw o.here (row-update₂ m.frames p i 0 q ne);
  zeros = λ j. ground (arith, c.zeros j, o.here);
}

pub clear_table-IsCleared :
    (n p d i : ℕ) (m : PageMap) → IsOwnFrame p d m → IsCleared p i n m (clear_table n d i m)
unfolding clear_table
clear_table-IsCleared zero p d i m o = record {
  root = refl;
  log = refl;
  others = λ q ne. refl;
  zeros = λ j. ground arith;
}
clear_table-IsCleared (suc n) p d i m o =
    IsCleared-step p d i n m _ o
      (clear_table-IsCleared n p d (i + 1) (write m d i 0) (write-IsOwnFrame p d i 0 m o))
