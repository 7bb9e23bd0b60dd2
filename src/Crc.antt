-- ===== src/Crc.antt =====
-- src/crc.h and src/crc.c: the checksum, and the wrappers of Zephyr's CRC service.
use zephyr_zyx_modem.Base.{
  ℕ, ◌+◌, ◌*◌, ◌/◌, ◌%◌, ◌^◌, ◌<◌, ◌≡◌, true, arith, ◌==◌, Option, none, some, List, [], ◌∷◌,
  add_u8, bit_xor,
}

-- `<zephyr/sys/crc.h>`, which is not part of the repository: the CRC of a buffer from a seed.
pub record CrcService : Type 0 where
  pub crc16_ccitt : ℕ → List ℕ → ℕ
  pub crc32_ieee : List ℕ → ℕ
  pub crc32_ieee_update : ℕ → List ℕ → ℕ

checksum8_loop : ℕ → List ℕ → ℕ
checksum8_loop sum [] = sum
checksum8_loop sum (b ∷ buf) = checksum8_loop (add_u8 sum b) buf

-- `none` is the NULL buffer.
unfoldable pub modem_checksum8 : Option (List ℕ) → ℕ
unfolding checksum8_loop
modem_checksum8 none = 0
modem_checksum8 (some buf) = checksum8_loop 0 buf

-- CRC-16 of a buffer from the seed 0xFFFF
abbrev pub modem_crc16 : CrcService → List ℕ → ℕ
modem_crc16 crc buf = crc.crc16_ccitt 0xFFFF buf

abbrev pub modem_crc16_update : CrcService → ℕ → List ℕ → ℕ
modem_crc16_update crc seed buf = crc.crc16_ccitt seed buf

abbrev pub modem_crc32 : CrcService → List ℕ → ℕ
modem_crc32 crc buf = crc.crc32_ieee buf

abbrev pub modem_crc32_update : CrcService → ℕ → List ℕ → ℕ
modem_crc32_update crc seed buf = crc.crc32_ieee_update seed buf

abbrev pub modem_crc32_finalize : ℕ → ℕ
modem_crc32_finalize crc = bit_xor crc 0xFFFF_FFFF

-- The service returns words of the width that its C types say.
pub record HasWidths (crc : CrcService) : Type 0 where
  pub crc16_fits : (seed : ℕ) (buf : List ℕ) → crc.crc16_ccitt seed buf < 2 ^ 16

-- A 16-bit CRC goes over the line high byte first, and is put together as `(hi << 8) | lo`; the
-- bits of the two are disjoint, so the `|` is a sum.
abbrev pub crc16_bytes : ℕ → List ℕ
crc16_bytes crc = (crc / 256 % 256) ∷ (crc % 256) ∷ []

abbrev pub join16 : ℕ → ℕ → ℕ
join16 hi lo = hi * 256 + lo

-- A 16-bit word comes back from its two bytes.
pub join16-crc16_bytes : (c : ℕ) → c < 2 ^ 16 → (join16 (c / 256 % 256) (c % 256) == c) ≡ true
join16-crc16_bytes c h = ground arith
