-- ===== src/Zmodem/Platform.antt =====
-- What the ZMODEM engine takes from outside of its files.
-- `send_hex_header` of src/zmodem.c has `uint8_t buf[20]` and stores a 21st byte, the XON, behind it
-- for every type but ZFIN and ZACK, which C leaves undefined. Here the store touches nothing else of
-- the program, and `behind_buf` is what `write_bytes` then finds at that place when a byte was
-- stored there.
use zephyr_zyx_modem.Base.{ℕ, ◌≡◌}
use zephyr_zyx_modem.Crc.{CrcService, HasWidths}

pub record Platform : Type 0 where
  pub crc : CrcService
  pub behind_buf : ℕ → ℕ

-- The CRC service returns 16-bit words, and the memory behind `buf` keeps the XON.
pub record IsPlatform (svc : Platform) : Type 0 where
  pub widths : HasWidths svc.crc
  pub keeps_xon : svc.behind_buf 0x11 ≡ 0x11
