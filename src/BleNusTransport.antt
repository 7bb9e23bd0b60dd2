-- ===== src/BleNusTransport.antt =====
-- src/ble_nus_transport.c: the transport over the Nordic UART Service, whose receive callback and
-- `read_byte` share a ring of 512 bytes.
pub mod Queue
mod Examples
use zephyr_zyx_modem.Base.{
  ℕ, Bool, true, false, Option, none, some, List, [], ◌∷◌, length, ltb, ◌==◌, if◌then◌else◌, ℤ, pos,
  negsuc,
}
use zephyr_zyx_modem.Ring.{Ring, reset, zeroed, offer, oldest, advance}

-- `BLE_NUS_DEFAULT_BUF_SIZE`
abbrev pub ble_nus_default_buf_size : ℕ
ble_nus_default_buf_size = 512

pub record BleNus : Type 0 where
  pub nus_rx : Ring
  pub nus_connected : Bool

-- the static variables before any call
abbrev pub unused : BleNus
unused = record { nus_rx = zeroed ble_nus_default_buf_size; nus_connected = false }

abbrev pub ble_nus_transport_init : BleNus → ℤ × BleNus
ble_nus_transport_init nus = (pos 0, record { nus_rx = reset nus.nus_rx; nus_connected = true })

-- the loop over the data: a byte that finds the ring full is dropped
unfoldable pub rx_loop : List ℕ → Ring → Ring
rx_loop [] rx = rx
rx_loop (b ∷ bytes) rx = rx_loop bytes (offer ble_nus_default_buf_size b rx)

-- `none` is the NULL data.
unfoldable pub ble_nus_transport_rx_callback : Option (List ℕ) → BleNus → BleNus
ble_nus_transport_rx_callback none nus = nus
ble_nus_transport_rx_callback (some bytes) nus =
    if length bytes == 0 then nus else record nus { nus_rx = rx_loop bytes nus.nus_rx }

-- The result, the byte when there is one, and the state behind; the pointer is not NULL.
unfoldable pub ble_nus_transport_read_byte : BleNus → ℤ × (Option ℕ × BleNus)
ble_nus_transport_read_byte nus = if nus.nus_rx.count == 0 then (negsuc 0, (none, nus)) else (
  pos 0,
  (some (oldest nus.nus_rx), record nus { nus_rx = advance ble_nus_default_buf_size nus.nus_rx }),
)

-- The bytes go nowhere: the function only looks at the buffer and its length.
abbrev pub ble_nus_transport_write_bytes : Option (List ℕ) → ℤ
ble_nus_transport_write_bytes none = negsuc 0
ble_nus_transport_write_bytes (some buf) = if length buf == 0 then negsuc 0 else pos 0

abbrev pub ble_nus_transport_is_connected : BleNus → Bool
ble_nus_transport_is_connected nus = nus.nus_connected
