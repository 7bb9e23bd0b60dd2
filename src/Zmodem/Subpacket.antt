-- ===== src/Zmodem/Subpacket.antt =====
-- The data subpackets of src/zmodem.c: `send_subpacket_tx` and `read_subpacket_rx`.
pub mod Laws
use zephyr_zyx_modem.Base.{
  ℕ, zero, suc, Bool, true, false, Option, none, some, List, [], ◌∷◌, ◌++◌, ◌==◌, if◌then◌else◌,
}
use zephyr_zyx_modem.Io.{Read}
use zephyr_zyx_modem.Crc.{
  CrcService, modem_crc16, modem_crc16_update, modem_crc32_update, modem_crc32_finalize,
  crc16_bytes, join16,
}
use zephyr_zyx_modem.Zmodem.{zdle, join32}
use zephyr_zyx_modem.Zmodem.Escape.{
  Zdle, plain, ender, read_zdle_byte_rx, read_zdle_bytes, send_zdle_bytes,
}

-- what a subpacket carries, and the ender that closes it
pub record Subpacket : Type 0 where
  pub payload : List ℕ
  pub ending : ℕ

abbrev pub subpacket_crc16 : CrcService → Subpacket → ℕ
subpacket_crc16 svc p = modem_crc16_update svc (modem_crc16 svc p.payload) (p.ending ∷ [])

abbrev pub subpacket_crc32 : CrcService → Subpacket → ℕ
subpacket_crc32 svc p =
    modem_crc32_finalize
      (modem_crc32_update svc (modem_crc32_update svc 0xFFFF_FFFF p.payload) (p.ending ∷ []))

-- `send_subpacket_tx`: what it writes
unfoldable pub send_subpacket : CrcService → Subpacket → List ℕ
send_subpacket svc p =
    send_zdle_bytes p.payload
    ++ (zdle ∷ p.ending ∷ send_zdle_bytes (crc16_bytes (subpacket_crc16 svc p)))

abbrev pub with_data : ℕ → Option Subpacket → Option Subpacket
with_data b none = none
with_data b (some p) = some (record p { payload = b ∷ p.payload })

-- One turn of the loop, with `room` bytes of the buffer free: what `read_zdle_byte_rx` gave, and
-- what the loop does behind a byte that still has room.
abbrev pub data_turn :
    (room : ℕ) → Zdle → Option Subpacket × List Read → List Read → Option Subpacket × List Read
data_turn zero (plain b) more rs = (none, rs)
data_turn (suc room) (plain b) more rs = (with_data b more.0, more.1)
data_turn room (ender e) more rs = (some (record { payload = []; ending = e }), rs)
data_turn room _ more rs = (none, rs)

-- The loop up to the ender. It stops at the first byte that has no room.
unfoldable pub read_data_loop : (room : ℕ) → List Read → Option Subpacket × List Read
read_data_loop zero rs = let (z, rs') = read_zdle_byte_rx rs in data_turn zero z (none, rs') rs'
read_data_loop (suc room) rs =
    let (z, rs') = read_zdle_byte_rx rs in
    let more = read_data_loop room rs' in data_turn (suc room) z more rs'

unfoldable pub subpacket16 : CrcService → Subpacket → Option (List ℕ) → Option Subpacket
subpacket16 svc p (some (hi ∷ lo ∷ [])) =
    if join16 hi lo == subpacket_crc16 svc p then some p else none
subpacket16 svc p _ = none

unfoldable pub subpacket32 : CrcService → Subpacket → Option (List ℕ) → Option Subpacket
subpacket32 svc p (some (c0 ∷ c1 ∷ c2 ∷ c3 ∷ [])) =
    if join32 c0 c1 c2 c3 == subpacket_crc32 svc p then some p else none
subpacket32 svc p _ = none

-- the check bytes behind the ender
unfoldable pub read_subpacket_check :
    CrcService → Bool → Option Subpacket → List Read → Option Subpacket × List Read
unfolding subpacket16 subpacket32
read_subpacket_check svc is_crc32 none rs = (none, rs)
read_subpacket_check svc true (some p) rs =
    let (check, rs') = read_zdle_bytes read_zdle_byte_rx 4 rs in (subpacket32 svc p check, rs')
read_subpacket_check svc false (some p) rs =
    let (check, rs') = read_zdle_bytes read_zdle_byte_rx 2 rs in (subpacket16 svc p check, rs')

-- `read_subpacket_rx`; `none` is its -1.
unfoldable pub read_subpacket_rx :
    CrcService → (max_len : ℕ) → Bool → List Read → Option Subpacket × List Read
read_subpacket_rx svc max_len is_crc32 rs =
    let (p, rs') = read_data_loop max_len rs in read_subpacket_check svc is_crc32 p rs'
