-- ===== src/NfcTransport/Record.antt =====
-- The state of the transport, and the NDEF records.
use zephyr_zyx_modem.Base.{
  is_zero, ℕ, ◌+◌, ◌%◌, ◌^◌, Bool, true, false, not, ◌&&◌, Option, none, some, List, [], ◌∷◌, ◌++◌,
  length, ltb, if◌then◌else◌, ℤ, pos, negsuc,
}
use zephyr_zyx_modem.Ring.{Ring, reset}

pub record Stats : Type 0 where
  pub rx_bytes : ℕ
  pub tx_bytes : ℕ
  pub ndef_records_rx : ℕ
  pub ndef_records_tx : ℕ
  pub field_loss_count : ℕ
  pub overflow_count : ℕ
  pub t4t_events_handled : ℕ

abbrev pub no_stats : Stats
no_stats = record {
  rx_bytes = 0;
  tx_bytes = 0;
  ndef_records_rx = 0;
  ndef_records_tx = 0;
  field_loss_count = 0;
  overflow_count = 0;
  t4t_events_handled = 0;
}

-- `raw_tx_cb` says whether the callback is set; what it is given is kept in the state.
pub record Config : Type 0 where
  pub rx_ring_size : ℕ
  pub tx_ring_size : ℕ
  pub rx_buffer_size : ℕ
  pub tx_buffer_size : ℕ
  pub field_timeout_ms : ℕ
  pub auto_ndef_framing : Bool
  pub raw_tx_cb : Bool

-- The static variables, and the messages that `raw_tx_cb` was given, in order.
pub record Nfc : Type 0 where
  pub rx : Ring
  pub tx : Ring
  pub field_active : Bool
  pub emulation_running : Bool
  pub config : Config
  pub stats : Stats
  pub published : List (List ℕ)

abbrev pub nfc_ring_buf_size : ℕ
nfc_ring_buf_size = 1024

-- "application/x-modem", and its length
abbrev pub nfc_mime_type : List ℕ
nfc_mime_type =
    b'a' ∷ b'p' ∷ b'p' ∷ b'l' ∷ b'i' ∷ b'c' ∷ b'a' ∷ b't' ∷ b'i' ∷ b'o' ∷ b'n' ∷ b'/' ∷ b'x' ∷ b'-'
    ∷ b'm' ∷ b'o' ∷ b'd' ∷ b'e' ∷ b'l' ∷ []

abbrev pub nfc_mime_type_len : ℕ
nfc_mime_type_len = 19

abbrev pub default_config : Config
default_config = record {
  rx_ring_size = nfc_ring_buf_size;
  tx_ring_size = nfc_ring_buf_size;
  rx_buffer_size = 0;
  tx_buffer_size = 0;
  field_timeout_ms = 1000;
  auto_ndef_framing = true;
  raw_tx_cb = false;
}

abbrev pub configured : Option Config → Config
configured none = default_config
configured (some config) = config

abbrev pub nfc_transport_init : Option Config → Nfc → ℤ × Nfc
nfc_transport_init config nfc = (
  pos 0,
  record nfc {
    config = configured config;
    rx = reset nfc.rx;
    tx = reset nfc.tx;
    field_active = false;
    emulation_running = false;
    stats = no_stats;
  },
)

-- What `nfc_t4t_setup` and `nfc_t4t_emulation_start` of the SDK return.
pub record T4t : Type 0 where
  pub setup : ℤ
  pub emulation_start : ℤ

unfoldable pub nfc_transport_start : T4t → Nfc → ℤ × Nfc
nfc_transport_start t4t nfc =
    if not (is_zero t4t.setup)
    then (t4t.setup, nfc)
    else (if not (is_zero t4t.emulation_start)
        then (t4t.emulation_start, nfc)
        else (pos 0, record nfc { field_active = true; emulation_running = true }))

abbrev pub nfc_transport_stop : Nfc → ℤ × Nfc
nfc_transport_stop nfc = (pos 0, record nfc { field_active = false; emulation_running = false })

-- `uint32_t` addition
abbrev pub count_u32 : ℕ → ℕ
count_u32 n = (n + 1) % 2 ^ 32

unfoldable pub nfc_transport_set_field_active : Bool → Nfc → Nfc
nfc_transport_set_field_active active nfc =
    let lost =
      if nfc.field_active && not active
      then count_u32 nfc.stats.field_loss_count
      else nfc.stats.field_loss_count in
    record nfc { stats = record nfc.stats { field_loss_count = lost }; field_active = active }

abbrev pub nfc_transport_is_active : Nfc → Bool
nfc_transport_is_active nfc = nfc.field_active

abbrev pub nfc_transport_get_stats : Nfc → Stats
nfc_transport_get_stats nfc = nfc.stats

abbrev pub nfc_transport_reset_stats : Nfc → Nfc
nfc_transport_reset_stats nfc = record nfc { stats = no_stats }

-- The result and the record, `none` when there is none. The output buffer and its length are not
-- NULL; `none` is the NULL payload.
unfoldable pub encode_ndef_record : Option (List ℕ) → ℕ → ℤ × Option (List ℕ)
encode_ndef_record none buf_capacity = (negsuc 0, none)
encode_ndef_record (some payload) buf_capacity =
    let required = 3 + nfc_mime_type_len + length payload in
    if ltb 255 (length payload)
    then (negsuc 0, none)
    else (if ltb buf_capacity required then (negsuc 0, none) else (
      pos 0,
      some (0xD2 ∷ nfc_mime_type_len ∷ (length payload % 256) ∷ (nfc_mime_type ++ payload)),
    ))

-- the record is counted when there is one
unfoldable pub nfc_transport_encode_ndef_record :
    Option (List ℕ) → ℕ → Nfc → ℤ × (Option (List ℕ) × Nfc)
nfc_transport_encode_ndef_record payload buf_capacity nfc =
    let (result, message) = encode_ndef_record payload buf_capacity in
    elim message [
      | none ↦ (result, (none, nfc))
      | some ndef ↦ (
        result,
        (
          some ndef,
          record nfc {
            stats = record nfc.stats { ndef_records_tx = count_u32 nfc.stats.ndef_records_tx };
          },
        ),
      )
    ]
