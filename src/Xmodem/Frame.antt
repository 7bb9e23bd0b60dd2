-- ===== src/Xmodem/Frame.antt =====
-- The wire format of an XMODEM block, stated by itself: docs/protocols.md, "XMODEM".
use zephyr_zyx_modem.Base.{
  ℕ, ◌+◌, ◌-◌, ◌%◌, ◌<◌, ◌≡◌, ◌⊎◌, Bool, some, List, [], ◌∷◌, ◌++◌, length, ◌==◌, if◌then◌else◌,
}
use zephyr_zyx_modem.Crc.{CrcService, modem_crc16, modem_checksum8, crc16_bytes}
use zephyr_zyx_modem.Xmodem.{soh, stx, Block}

-- the header byte that announces a payload of this length
abbrev pub header_of : ℕ → ℕ
header_of len = if len == 1024 then stx else soh

-- the bytes behind the payload, in CRC mode or in checksum mode
abbrev pub check_bytes : CrcService → Bool → List ℕ → List ℕ
check_bytes svc crc_mode payload =
    if crc_mode then crc16_bytes (modem_crc16 svc payload) else modem_checksum8 (some payload) ∷ []

-- header, number, its complement, payload, check
abbrev pub frame : CrcService → Bool → Block → List ℕ
frame svc crc_mode b =
    header_of (length b.payload)
    ∷ b.num
    ∷ (255 - b.num)
    ∷ (b.payload ++ check_bytes svc crc_mode b.payload)

-- A payload of 128 or 1024 bytes, and a number that fits in a byte.
pub record IsWellFormed (b : Block) : Type 0 where
  pub num_fits : b.num < 256
  pub size : (length b.payload ≡ 128) ⊎ (length b.payload ≡ 1024)

-- The frames of these blocks, one behind the other.
abbrev pub frames : CrcService → Bool → List Block → List ℕ
frames svc crc_mode [] = []
frames svc crc_mode (b ∷ bs) = frame svc crc_mode b ++ frames svc crc_mode bs

-- The blocks carry the numbers n, n + 1, ... modulo 256.
abbrev pub IsNumbered : ℕ → List Block → Type 0
IsNumbered n [] = Unit {0}
IsNumbered n (b ∷ bs) = (b.num ≡ n % 256) × IsNumbered (n + 1) bs

-- the payloads' lengths together
abbrev pub total_length : List Block → ℕ
total_length [] = 0
total_length (b ∷ bs) = length b.payload + total_length bs
