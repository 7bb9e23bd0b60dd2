-- ===== src/Console/Config/Table.antt =====
-- What each text of the configuration command sets, as a table that says nothing of the code: the
-- place of the setting in `console_modem_settings_t`, and how the value is read.
use zephyr_zyx_modem.Base.{
  ℕ, ◌%◌, ◌^◌, Bool, ◌||◌, Option, none, some, List, [], ◌∷◌, set, take, if◌then◌else◌, ℤ, pos,
  negsuc,
}
use zephyr_zyx_modem.Clib.{strtoul}
use zephyr_zyx_modem.Console.{Settings}
use zephyr_zyx_modem.Console.Shell.{same_text}

-- the value of a setting
pub data Value : Type 0 where
  number : ℕ → Value
  flag : Bool → Value
  text : List ℕ → Value

-- all settings, in the order of the structure
abbrev pub values : Settings → List Value
values s =
    number s.packet_timeout_ms
    ∷ number s.byte_timeout_ms
    ∷ number s.max_retries
    ∷ number s.inter_block_delay_ms
    ∷ number s.handshake_delay_ms
    ∷ number s.overwrite_mode
    ∷ flag s.enable_resume
    ∷ text s.default_target_dir
    ∷ number s.sync_interval_blocks
    ∷ flag s.auto_start
    ∷ flag s.async_storage
    ∷ flag s.progress_bar
    ∷ flag s.directory_transfers
    ∷ flag s.ring_buffer
    ∷ flag s.abort_key
    ∷ number s.abort_key_char
    ∷ flag s.flow_control
    ∷ text s.flash_partition
    ∷ flag s.mcuboot_update
    ∷ flag s.nvs_checkpoints
    ∷ flag s.crypto_stream
    ∷ flag s.uart_dma
    ∷ flag s.usb_cdc_acm
    ∷ flag s.mcuboot_validate
    ∷ flag s.signature_verify
    ∷ flag s.encrypted_envelope
    ∷ flag s.session_dispatcher
    ∷ flag s.log_rotation
    ∷ flag s.nfc_transport
    ∷ []

-- A value is a decimal number of 32 or of 8 bits, an "on" or "off", where "true" and "1" are on, or a
-- text of so many bytes at most.
pub data Kind : Type 0 where
  word octet switch : Kind
  line : ℕ → Kind

abbrev pub interpret : Kind → List ℕ → Value
interpret word val = number (strtoul val % 2 ^ 32)
interpret octet val = number (strtoul val % 2 ^ 32 % 256)
interpret switch val =
    flag (same_text val (b't' ∷ b'r' ∷ b'u' ∷ b'e' ∷ []) || same_text val (b'1' ∷ []))
interpret (line n) val = text (take n val)

-- each text, the place of its setting, and how its value is read
abbrev pub Row : Type 0
Row = List ℕ × (ℕ × Kind)

abbrev pub table : List Row
table =
    (
      b'p' ∷ b'a' ∷ b'c' ∷ b'k' ∷ b'e' ∷ b't' ∷ b'_' ∷ b't' ∷ b'i' ∷ b'm' ∷ b'e' ∷ b'o' ∷ b'u'
          ∷ b't' ∷ [],
      (0, word),
    )
    ∷ (b'p' ∷ b'k' ∷ b't' ∷ b'_' ∷ b't' ∷ b'i' ∷ b'm' ∷ b'e' ∷ b'o' ∷ b'u' ∷ b't' ∷ [], (0, word))
    ∷ (
      b'b' ∷ b'y' ∷ b't' ∷ b'e' ∷ b'_' ∷ b't' ∷ b'i' ∷ b'm' ∷ b'e' ∷ b'o' ∷ b'u' ∷ b't' ∷ [],
      (1, word),
    )
    ∷ (b'm' ∷ b'a' ∷ b'x' ∷ b'_' ∷ b'r' ∷ b'e' ∷ b't' ∷ b'r' ∷ b'i' ∷ b'e' ∷ b's' ∷ [], (2, octet))
    ∷ (b'r' ∷ b'e' ∷ b't' ∷ b'r' ∷ b'i' ∷ b'e' ∷ b's' ∷ [], (2, octet))
    ∷ (
      b'i' ∷ b'n' ∷ b't' ∷ b'e' ∷ b'r' ∷ b'_' ∷ b'b' ∷ b'l' ∷ b'o' ∷ b'c' ∷ b'k' ∷ b'_' ∷ b'd'
          ∷ b'e' ∷ b'l' ∷ b'a' ∷ b'y' ∷ [],
      (3, word),
    )
    ∷ (
      b'h' ∷ b'a' ∷ b'n' ∷ b'd' ∷ b's' ∷ b'h' ∷ b'a' ∷ b'k' ∷ b'e' ∷ b'_' ∷ b'd' ∷ b'e' ∷ b'l'
          ∷ b'a' ∷ b'y' ∷ [],
      (4, word),
    )
    ∷ (
      b'o' ∷ b'v' ∷ b'e' ∷ b'r' ∷ b'w' ∷ b'r' ∷ b'i' ∷ b't' ∷ b'e' ∷ b'_' ∷ b'm' ∷ b'o' ∷ b'd'
          ∷ b'e' ∷ [],
      (5, word),
    )
    ∷ (
      b'e' ∷ b'n' ∷ b'a' ∷ b'b' ∷ b'l' ∷ b'e' ∷ b'_' ∷ b'r' ∷ b'e' ∷ b's' ∷ b'u' ∷ b'm' ∷ b'e' ∷ [],
      (6, switch),
    )
    ∷ (b'r' ∷ b'e' ∷ b's' ∷ b'u' ∷ b'm' ∷ b'e' ∷ [], (6, switch))
    ∷ (b't' ∷ b'a' ∷ b'r' ∷ b'g' ∷ b'e' ∷ b't' ∷ b'_' ∷ b'd' ∷ b'i' ∷ b'r' ∷ [], (7, line 127))
    ∷ (
      b's' ∷ b'y' ∷ b'n' ∷ b'c' ∷ b'_' ∷ b'i' ∷ b'n' ∷ b't' ∷ b'e' ∷ b'r' ∷ b'v' ∷ b'a' ∷ b'l' ∷ [],
      (8, word),
    )
    ∷ (b'a' ∷ b'u' ∷ b't' ∷ b'o' ∷ b'_' ∷ b's' ∷ b't' ∷ b'a' ∷ b'r' ∷ b't' ∷ [], (9, switch))
    ∷ (
      b'a' ∷ b's' ∷ b'y' ∷ b'n' ∷ b'c' ∷ b'_' ∷ b's' ∷ b't' ∷ b'o' ∷ b'r' ∷ b'a' ∷ b'g' ∷ b'e' ∷ [],
      (10, switch),
    )
    ∷ (
      b'p' ∷ b'r' ∷ b'o' ∷ b'g' ∷ b'r' ∷ b'e' ∷ b's' ∷ b's' ∷ b'_' ∷ b'b' ∷ b'a' ∷ b'r' ∷ [],
      (11, switch),
    )
    ∷ (
      b'd' ∷ b'i' ∷ b'r' ∷ b'e' ∷ b'c' ∷ b't' ∷ b'o' ∷ b'r' ∷ b'y' ∷ b'_' ∷ b't' ∷ b'r' ∷ b'a'
          ∷ b'n' ∷ b's' ∷ b'f' ∷ b'e' ∷ b'r' ∷ b's' ∷ [],
      (12, switch),
    )
    ∷ (
      b'r' ∷ b'i' ∷ b'n' ∷ b'g' ∷ b'_' ∷ b'b' ∷ b'u' ∷ b'f' ∷ b'f' ∷ b'e' ∷ b'r' ∷ [],
      (13, switch),
    )
    ∷ (b'a' ∷ b'b' ∷ b'o' ∷ b'r' ∷ b't' ∷ b'_' ∷ b'k' ∷ b'e' ∷ b'y' ∷ [], (14, switch))
    ∷ (b'a' ∷ b'b' ∷ b'o' ∷ b'r' ∷ b't' ∷ b'_' ∷ b'c' ∷ b'h' ∷ b'a' ∷ b'r' ∷ [], (15, octet))
    ∷ (
      b'a' ∷ b'b' ∷ b'o' ∷ b'r' ∷ b't' ∷ b'_' ∷ b'k' ∷ b'e' ∷ b'y' ∷ b'_' ∷ b'c' ∷ b'h' ∷ b'a'
          ∷ b'r' ∷ [],
      (15, octet),
    )
    ∷ (
      b'f' ∷ b'l' ∷ b'o' ∷ b'w' ∷ b'_' ∷ b'c' ∷ b'o' ∷ b'n' ∷ b't' ∷ b'r' ∷ b'o' ∷ b'l' ∷ [],
      (16, switch),
    )
    ∷ (
      b'f' ∷ b'l' ∷ b'a' ∷ b's' ∷ b'h' ∷ b'_' ∷ b'p' ∷ b'a' ∷ b'r' ∷ b't' ∷ b'i' ∷ b't' ∷ b'i'
          ∷ b'o' ∷ b'n' ∷ [],
      (17, line 31),
    )
    ∷ (b'p' ∷ b'a' ∷ b'r' ∷ b't' ∷ b'i' ∷ b't' ∷ b'i' ∷ b'o' ∷ b'n' ∷ [], (17, line 31))
    ∷ (
      b'm' ∷ b'c' ∷ b'u' ∷ b'b' ∷ b'o' ∷ b'o' ∷ b't' ∷ b'_' ∷ b'u' ∷ b'p' ∷ b'd' ∷ b'a' ∷ b't'
          ∷ b'e' ∷ [],
      (18, switch),
    )
    ∷ (
      b'n' ∷ b'v' ∷ b's' ∷ b'_' ∷ b'c' ∷ b'h' ∷ b'e' ∷ b'c' ∷ b'k' ∷ b'p' ∷ b'o' ∷ b'i' ∷ b'n'
          ∷ b't' ∷ b's' ∷ [],
      (19, switch),
    )
    ∷ (
      b'c' ∷ b'r' ∷ b'y' ∷ b'p' ∷ b't' ∷ b'o' ∷ b'_' ∷ b's' ∷ b't' ∷ b'r' ∷ b'e' ∷ b'a' ∷ b'm' ∷ [],
      (20, switch),
    )
    ∷ (b'u' ∷ b'a' ∷ b'r' ∷ b't' ∷ b'_' ∷ b'd' ∷ b'm' ∷ b'a' ∷ [], (21, switch))
    ∷ (
      b'u' ∷ b's' ∷ b'b' ∷ b'_' ∷ b'c' ∷ b'd' ∷ b'c' ∷ b'_' ∷ b'a' ∷ b'c' ∷ b'm' ∷ [],
      (22, switch),
    )
    ∷ (
      b'm' ∷ b'c' ∷ b'u' ∷ b'b' ∷ b'o' ∷ b'o' ∷ b't' ∷ b'_' ∷ b'v' ∷ b'a' ∷ b'l' ∷ b'i' ∷ b'd'
          ∷ b'a' ∷ b't' ∷ b'e' ∷ [],
      (23, switch),
    )
    ∷ (
      b's' ∷ b'i' ∷ b'g' ∷ b'n' ∷ b'a' ∷ b't' ∷ b'u' ∷ b'r' ∷ b'e' ∷ b'_' ∷ b'v' ∷ b'e' ∷ b'r'
          ∷ b'i' ∷ b'f' ∷ b'y' ∷ [],
      (24, switch),
    )
    ∷ (
      b'e' ∷ b'n' ∷ b'c' ∷ b'r' ∷ b'y' ∷ b'p' ∷ b't' ∷ b'e' ∷ b'd' ∷ b'_' ∷ b'e' ∷ b'n' ∷ b'v'
          ∷ b'e' ∷ b'l' ∷ b'o' ∷ b'p' ∷ b'e' ∷ [],
      (25, switch),
    )
    ∷ (
      b's' ∷ b'e' ∷ b's' ∷ b's' ∷ b'i' ∷ b'o' ∷ b'n' ∷ b'_' ∷ b'd' ∷ b'i' ∷ b's' ∷ b'p' ∷ b'a'
          ∷ b't' ∷ b'c' ∷ b'h' ∷ b'e' ∷ b'r' ∷ [],
      (26, switch),
    )
    ∷ (
      b'l' ∷ b'o' ∷ b'g' ∷ b'_' ∷ b'r' ∷ b'o' ∷ b't' ∷ b'a' ∷ b't' ∷ b'i' ∷ b'o' ∷ b'n' ∷ [],
      (27, switch),
    )
    ∷ (
      b'n' ∷ b'f' ∷ b'c' ∷ b'_' ∷ b't' ∷ b'r' ∷ b'a' ∷ b'n' ∷ b's' ∷ b'p' ∷ b'o' ∷ b'r' ∷ b't' ∷ [],
      (28, switch),
    )
    ∷ (b'n' ∷ b'f' ∷ b'c' ∷ [], (28, switch))
    ∷ []

unfoldable pub look_up : List Row → List ℕ → Option (ℕ × Kind)
look_up [] param = none
look_up ((name, entry) ∷ rows) param =
    let later = look_up rows param in if same_text param name then some entry else later

-- the result and the settings behind a command
abbrev pub expected : Option (ℕ × Kind) → List ℕ → List Value → ℤ × List Value
expected none val vs = (negsuc 0, vs)
expected (some entry) val vs = (pos 0, set vs entry.0 (interpret entry.1 val))
