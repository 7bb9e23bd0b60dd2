-- ===== src/Samples.antt =====
-- Concrete instances of what the repository does not implement, for the tests and the witnesses.
use Prim.Native.Nat.{ℕ, ◌+◌, ◌%◌, ◌^◌, ◌<◌}
use mathlib.Core.List.{List, [], ◌∷◌}
use zephyr_zyx_modem.Base.{arith}
use zephyr_zyx_modem.Crc.{CrcService, HasWidths}

-- a 16-bit sum in the place of a CRC
unfoldable pub sum16 : ℕ → List ℕ → ℕ
sum16 c [] = c % 2 ^ 16
sum16 c (b ∷ bs) = sum16 (c + b) bs

sum16-lt : (c : ℕ) (bs : List ℕ) → sum16 c bs < 2 ^ 16
unfolding sum16
sum16-lt c [] = omega arith
sum16-lt c (b ∷ bs) = sum16-lt (c + b) bs

abbrev pub sums : CrcService
sums = record { crc16_ccitt = sum16; crc32_ieee = sum16 0; crc32_ieee_update = sum16 }

pub sums-HasWidths : HasWidths sums
sums-HasWidths = record { crc16_fits = sum16-lt }
