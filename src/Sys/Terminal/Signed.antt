-- ===== src/Sys/Terminal/Signed.antt =====
-- A line of the screen and a line of the ring that are the same line.
use dogg_os.Base.{
  ℕ, zero, suc, ◌+◌, ◌-◌, ◌%◌, ◌≤◌, ◌<◌, ◌≡◌, leb, ◌==◌, if◌then◌else◌, true, false, arith,
}
use dogg_os.Sys.Terminal.{ℤ, pos, negsuc, plus, minus}

-- Line `display` of the window that starts at `scroll` is line `line` of the ring.
abbrev pub Aligned : ℤ → ℕ → ℕ → Type 0
Aligned (pos d) scroll line = (scroll + d) % 8192 ≡ line
Aligned (negsuc n) scroll line = (line + (n + 1)) % 8192 ≡ scroll

-- At most `k` lines above the window.
abbrev pub Above : ℤ → ℕ → Type 0
Above (pos d) k = 0 ≤ k
Above (negsuc n) k = n + 1 ≤ k

pub Aligned-plus :
    (z : ℤ) (scroll line : ℕ)
    → scroll < 8192
    → line < 8192
    → Aligned z scroll line
    → Aligned (plus z 1) scroll ((line + 1) % 8192)
Aligned-plus (pos d) scroll line s l a = omega arith
Aligned-plus (negsuc zero) scroll line s l a = omega arith
Aligned-plus (negsuc (suc n)) scroll line s l a =
    let below : leb (suc n + 1) 1 ≡ false = ground arith in rw below (omega arith)

pub Aligned-minus :
    (z : ℤ) (scroll line : ℕ)
    → scroll < 8192
    → line < 8192
    → Aligned z scroll line
    → Aligned (minus z 1) scroll (if line == 0 then 8191 else line - 1)
Aligned-minus (pos zero) scroll line s l a = ground arith
Aligned-minus (pos (suc d)) scroll line s l a =
    let low : leb 1 (suc d) ≡ true = ground arith in rw low (ground arith)
Aligned-minus (negsuc n) scroll line s l a = ground arith

pub Above-plus : (z : ℤ) (k : ℕ) → Above z k → Above (plus z 1) (k + 1)
Above-plus (pos d) k a = omega arith
Above-plus (negsuc zero) k a = omega arith
Above-plus (negsuc (suc n)) k a =
    let below : leb (suc n + 1) 1 ≡ false = ground arith in rw below (omega arith)

pub Above-minus : (z : ℤ) (k : ℕ) → Above z k → Above (minus z 1) (k + 1)
Above-minus (pos zero) k a = omega arith
Above-minus (pos (suc d)) k a =
    let low : leb 1 (suc d) ≡ true = ground arith in rw low (omega arith)
Above-minus (negsuc n) k a = omega arith

pub Above-more : (z : ℤ) (k : ℕ) → Above z k → Above z (k + 1)
Above-more (pos d) k a = omega arith
Above-more (negsuc n) k a = omega arith

pub Above-le : (z : ℤ) (k m : ℕ) → k ≤ m → Above z k → Above z m
Above-le (pos d) k m le a = omega arith
Above-le (negsuc n) k m le a = omega arith
