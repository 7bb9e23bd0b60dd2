-- ===== src/Ymodem.antt =====
-- include/modem/ymodem.h, and what the two engines of src/ymodem.c share. The control characters are
-- those of include/modem/xmodem.h.
pub mod Info
pub mod Receive
pub mod Transmit
mod Examples
use zephyr_zyx_modem.Base.{
  ℕ, ◌+◌, ◌-◌, Bool, ◌&&◌, not, Option, none, some, List, [], ◌∷◌, ◌++◌, length, take, drop, get_or,
  replicate, ltb, ◌==◌, if◌then◌else◌,
}
use zephyr_zyx_modem.Io.{Read, byte, cancelled, failed}
use zephyr_zyx_modem.Clib.{until_nul, strtoul, print_size}

-- `ymodem_status_t`
pub data Status : Type 0 where
  ok error error_timeout error_cancel error_sequence error_crc error_io : Status

-- `ymodem_file_info_t`; the name without its NUL
pub record FileInfo : Type 0 where
  pub filename : List ℕ
  pub size : ℕ

-- MAX_RETRIES
abbrev pub max_retries : ℕ
max_retries = 10

-- the size in a block 0, from a byte behind the name: at most 31 digits go to `num_buf`
abbrev pub parse_size : (pos : ℕ) → List ℕ → ℕ
parse_size pos text =
    if ltb pos (length text) && not (get_or text pos 0 == 0)
    then strtoul (take 31 (until_nul (drop pos text)) ++ (0 ∷ []))
    else 0

-- `parse_block0`; the name has at most 255 bytes.
unfoldable pub parse_block0 : List ℕ → (len : ℕ) → FileInfo
parse_block0 payload len =
    let text = take len payload in
    let name = take 255 (until_nul text) in
    if get_or payload 0 0 == 0
    then record { filename = []; size = 0 }
    else record { filename = name; size = parse_size (length name + 1) text }

-- The block 0 of `ymodem_transmit`: the name, cut to 100 bytes, and the size in decimal, each with
-- its NUL, filled up with NULs to 128 bytes.
unfoldable pub block0 : FileInfo → List ℕ
block0 info =
    let text = take 100 info.filename ++ (0 ∷ print_size info.size) in
    text ++ replicate (128 - length text) 0

-- Two reads, of which the second is not made when the first fails.
unfoldable pub two_bytes : List Read → Option (ℕ × ℕ) × List Read
two_bytes (byte a ∷ byte b ∷ rs) = (some (a, b), rs)
two_bytes (byte a ∷ cancelled ∷ rs) = (none, rs)
two_bytes (byte a ∷ failed ∷ rs) = (none, rs)
two_bytes (byte a ∷ []) = (none, [])
two_bytes (cancelled ∷ rs) = (none, rs)
two_bytes (failed ∷ rs) = (none, rs)
two_bytes [] = (none, [])
