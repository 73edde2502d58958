-- ===== src/KernelText/Tests.antt =====
-- Runs of kernel/k_string.c, and the examples of the theorems on it.
use dogg_os.Base.{ℕ, ◌≡◌, refl, List, [], ◌∷◌, length, some, arith}
use dogg_os.Rt.Text.{ito_a}
use dogg_os.KernelText.{itoa, xtoa, hex_length, skip_zeros, write_nibbles}
use dogg_os.KernelText.Hex.{read_hex, xtoa-read_hex}
use dogg_os.KernelText.Decimal.{outcome, itoa-ito_a}

-- 0xbeef has four characters.
four : hex_length 0xbeef ≡ 4
unfolding skip_zeros
four = refl

xtoa-read_hex_example :
    (text : List ℕ) × (xtoa 8 0xbeef ≡ (length text, some text)) × (read_hex 0 text ≡ 0xbeef)
xtoa-read_hex_example = xtoa-read_hex 0xbeef 8 (omega arith) (rw four (omega arith))

xtoa_run : xtoa 8 0xbeef ≡ (4, some (98 ∷ 101 ∷ 101 ∷ 102 ∷ []))
unfolding xtoa skip_zeros write_nibbles
xtoa_run = refl

itoa-ito_a_example : itoa 12 2048 ≡ outcome (ito_a 2048 12)
itoa-ito_a_example = itoa-ito_a 12 2048
