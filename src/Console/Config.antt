-- ===== src/Console/Config.antt =====
-- `cmd_modem_config` of src/zephyr_console_modem.c with a parameter and a value, with every feature
-- of the build enabled. Without arguments it reports the settings and returns 0, and with one it
-- returns -1.
pub mod Widths
pub mod Commands
pub mod Table
pub mod Assigns
use zephyr_zyx_modem.Base.{
  ℕ, ◌+◌, ◌%◌, ◌^◌, Bool, true, false, ◌||◌, Option, none, some, List, [], ◌∷◌, take, if◌then◌else◌,
  ℤ, pos, negsuc,
}
use zephyr_zyx_modem.Clib.{strtoul}
use zephyr_zyx_modem.Console.{Settings}
use zephyr_zyx_modem.Console.Shell.{same_text}

-- what a parameter of the command names
pub data Param : Type 0 where
  set_packet_timeout : Param
  set_byte_timeout : Param
  set_max_retries : Param
  set_inter_block_delay : Param
  set_handshake_delay : Param
  set_overwrite_mode : Param
  set_enable_resume : Param
  set_target_dir : Param
  set_sync_interval : Param
  set_auto_start : Param
  set_async_storage : Param
  set_progress_bar : Param
  set_directory_transfers : Param
  set_ring_buffer : Param
  set_abort_key : Param
  set_abort_char : Param
  set_flow_control : Param
  set_flash_partition : Param
  set_mcuboot_update : Param
  set_nvs_checkpoints : Param
  set_crypto_stream : Param
  set_uart_dma : Param
  set_usb_cdc_acm : Param
  set_mcuboot_validate : Param
  set_signature_verify : Param
  set_encrypted_envelope : Param
  set_session_dispatcher : Param
  set_log_rotation : Param
  set_nfc_transport : Param

-- "true" or "1"
abbrev pub is_true : List ℕ → Bool
is_true val_str =
    same_text val_str (b't' ∷ b'r' ∷ b'u' ∷ b'e' ∷ []) || same_text val_str (b'1' ∷ [])

-- The chain of `strcmp`, in the order of the code: each text with what it names.
abbrev pub names : List (List ℕ × Param)
names =
    (
      b'p' ∷ b'a' ∷ b'c' ∷ b'k' ∷ b'e' ∷ b't' ∷ b'_' ∷ b't' ∷ b'i' ∷ b'm' ∷ b'e' ∷ b'o' ∷ b'u'
          ∷ b't' ∷ [],
      set_packet_timeout,
    )
    ∷ (
      b'p' ∷ b'k' ∷ b't' ∷ b'_' ∷ b't' ∷ b'i' ∷ b'm' ∷ b'e' ∷ b'o' ∷ b'u' ∷ b't' ∷ [],
      set_packet_timeout,
    )
    ∷ (
      b'b' ∷ b'y' ∷ b't' ∷ b'e' ∷ b'_' ∷ b't' ∷ b'i' ∷ b'm' ∷ b'e' ∷ b'o' ∷ b'u' ∷ b't' ∷ [],
      set_byte_timeout,
    )
    ∷ (
      b'm' ∷ b'a' ∷ b'x' ∷ b'_' ∷ b'r' ∷ b'e' ∷ b't' ∷ b'r' ∷ b'i' ∷ b'e' ∷ b's' ∷ [],
      set_max_retries,
    )
    ∷ (b'r' ∷ b'e' ∷ b't' ∷ b'r' ∷ b'i' ∷ b'e' ∷ b's' ∷ [], set_max_retries)
    ∷ (
      b'i' ∷ b'n' ∷ b't' ∷ b'e' ∷ b'r' ∷ b'_' ∷ b'b' ∷ b'l' ∷ b'o' ∷ b'c' ∷ b'k' ∷ b'_' ∷ b'd'
          ∷ b'e' ∷ b'l' ∷ b'a' ∷ b'y' ∷ [],
      set_inter_block_delay,
    )
    ∷ (
      b'h' ∷ b'a' ∷ b'n' ∷ b'd' ∷ b's' ∷ b'h' ∷ b'a' ∷ b'k' ∷ b'e' ∷ b'_' ∷ b'd' ∷ b'e' ∷ b'l'
          ∷ b'a' ∷ b'y' ∷ [],
      set_handshake_delay,
    )
    ∷ (
      b'o' ∷ b'v' ∷ b'e' ∷ b'r' ∷ b'w' ∷ b'r' ∷ b'i' ∷ b't' ∷ b'e' ∷ b'_' ∷ b'm' ∷ b'o' ∷ b'd'
          ∷ b'e' ∷ [],
      set_overwrite_mode,
    )
    ∷ (
      b'e' ∷ b'n' ∷ b'a' ∷ b'b' ∷ b'l' ∷ b'e' ∷ b'_' ∷ b'r' ∷ b'e' ∷ b's' ∷ b'u' ∷ b'm' ∷ b'e' ∷ [],
      set_enable_resume,
    )
    ∷ (b'r' ∷ b'e' ∷ b's' ∷ b'u' ∷ b'm' ∷ b'e' ∷ [], set_enable_resume)
    ∷ (b't' ∷ b'a' ∷ b'r' ∷ b'g' ∷ b'e' ∷ b't' ∷ b'_' ∷ b'd' ∷ b'i' ∷ b'r' ∷ [], set_target_dir)
    ∷ (
      b's' ∷ b'y' ∷ b'n' ∷ b'c' ∷ b'_' ∷ b'i' ∷ b'n' ∷ b't' ∷ b'e' ∷ b'r' ∷ b'v' ∷ b'a' ∷ b'l' ∷ [],
      set_sync_interval,
    )
    ∷ (b'a' ∷ b'u' ∷ b't' ∷ b'o' ∷ b'_' ∷ b's' ∷ b't' ∷ b'a' ∷ b'r' ∷ b't' ∷ [], set_auto_start)
    ∷ (
      b'a' ∷ b's' ∷ b'y' ∷ b'n' ∷ b'c' ∷ b'_' ∷ b's' ∷ b't' ∷ b'o' ∷ b'r' ∷ b'a' ∷ b'g' ∷ b'e' ∷ [],
      set_async_storage,
    )
    ∷ (
      b'p' ∷ b'r' ∷ b'o' ∷ b'g' ∷ b'r' ∷ b'e' ∷ b's' ∷ b's' ∷ b'_' ∷ b'b' ∷ b'a' ∷ b'r' ∷ [],
      set_progress_bar,
    )
    ∷ (
      b'd' ∷ b'i' ∷ b'r' ∷ b'e' ∷ b'c' ∷ b't' ∷ b'o' ∷ b'r' ∷ b'y' ∷ b'_' ∷ b't' ∷ b'r' ∷ b'a'
          ∷ b'n' ∷ b's' ∷ b'f' ∷ b'e' ∷ b'r' ∷ b's' ∷ [],
      set_directory_transfers,
    )
    ∷ (
      b'r' ∷ b'i' ∷ b'n' ∷ b'g' ∷ b'_' ∷ b'b' ∷ b'u' ∷ b'f' ∷ b'f' ∷ b'e' ∷ b'r' ∷ [],
      set_ring_buffer,
    )
    ∷ (b'a' ∷ b'b' ∷ b'o' ∷ b'r' ∷ b't' ∷ b'_' ∷ b'k' ∷ b'e' ∷ b'y' ∷ [], set_abort_key)
    ∷ (b'a' ∷ b'b' ∷ b'o' ∷ b'r' ∷ b't' ∷ b'_' ∷ b'c' ∷ b'h' ∷ b'a' ∷ b'r' ∷ [], set_abort_char)
    ∷ (
      b'a' ∷ b'b' ∷ b'o' ∷ b'r' ∷ b't' ∷ b'_' ∷ b'k' ∷ b'e' ∷ b'y' ∷ b'_' ∷ b'c' ∷ b'h' ∷ b'a'
          ∷ b'r' ∷ [],
      set_abort_char,
    )
    ∷ (
      b'f' ∷ b'l' ∷ b'o' ∷ b'w' ∷ b'_' ∷ b'c' ∷ b'o' ∷ b'n' ∷ b't' ∷ b'r' ∷ b'o' ∷ b'l' ∷ [],
      set_flow_control,
    )
    ∷ (
      b'f' ∷ b'l' ∷ b'a' ∷ b's' ∷ b'h' ∷ b'_' ∷ b'p' ∷ b'a' ∷ b'r' ∷ b't' ∷ b'i' ∷ b't' ∷ b'i'
          ∷ b'o' ∷ b'n' ∷ [],
      set_flash_partition,
    )
    ∷ (b'p' ∷ b'a' ∷ b'r' ∷ b't' ∷ b'i' ∷ b't' ∷ b'i' ∷ b'o' ∷ b'n' ∷ [], set_flash_partition)
    ∷ (
      b'm' ∷ b'c' ∷ b'u' ∷ b'b' ∷ b'o' ∷ b'o' ∷ b't' ∷ b'_' ∷ b'u' ∷ b'p' ∷ b'd' ∷ b'a' ∷ b't'
          ∷ b'e' ∷ [],
      set_mcuboot_update,
    )
    ∷ (
      b'n' ∷ b'v' ∷ b's' ∷ b'_' ∷ b'c' ∷ b'h' ∷ b'e' ∷ b'c' ∷ b'k' ∷ b'p' ∷ b'o' ∷ b'i' ∷ b'n'
          ∷ b't' ∷ b's' ∷ [],
      set_nvs_checkpoints,
    )
    ∷ (
      b'c' ∷ b'r' ∷ b'y' ∷ b'p' ∷ b't' ∷ b'o' ∷ b'_' ∷ b's' ∷ b't' ∷ b'r' ∷ b'e' ∷ b'a' ∷ b'm' ∷ [],
      set_crypto_stream,
    )
    ∷ (b'u' ∷ b'a' ∷ b'r' ∷ b't' ∷ b'_' ∷ b'd' ∷ b'm' ∷ b'a' ∷ [], set_uart_dma)
    ∷ (
      b'u' ∷ b's' ∷ b'b' ∷ b'_' ∷ b'c' ∷ b'd' ∷ b'c' ∷ b'_' ∷ b'a' ∷ b'c' ∷ b'm' ∷ [],
      set_usb_cdc_acm,
    )
    ∷ (
      b'm' ∷ b'c' ∷ b'u' ∷ b'b' ∷ b'o' ∷ b'o' ∷ b't' ∷ b'_' ∷ b'v' ∷ b'a' ∷ b'l' ∷ b'i' ∷ b'd'
          ∷ b'a' ∷ b't' ∷ b'e' ∷ [],
      set_mcuboot_validate,
    )
    ∷ (
      b's' ∷ b'i' ∷ b'g' ∷ b'n' ∷ b'a' ∷ b't' ∷ b'u' ∷ b'r' ∷ b'e' ∷ b'_' ∷ b'v' ∷ b'e' ∷ b'r'
          ∷ b'i' ∷ b'f' ∷ b'y' ∷ [],
      set_signature_verify,
    )
    ∷ (
      b'e' ∷ b'n' ∷ b'c' ∷ b'r' ∷ b'y' ∷ b'p' ∷ b't' ∷ b'e' ∷ b'd' ∷ b'_' ∷ b'e' ∷ b'n' ∷ b'v'
          ∷ b'e' ∷ b'l' ∷ b'o' ∷ b'p' ∷ b'e' ∷ [],
      set_encrypted_envelope,
    )
    ∷ (
      b's' ∷ b'e' ∷ b's' ∷ b's' ∷ b'i' ∷ b'o' ∷ b'n' ∷ b'_' ∷ b'd' ∷ b'i' ∷ b's' ∷ b'p' ∷ b'a'
          ∷ b't' ∷ b'c' ∷ b'h' ∷ b'e' ∷ b'r' ∷ [],
      set_session_dispatcher,
    )
    ∷ (
      b'l' ∷ b'o' ∷ b'g' ∷ b'_' ∷ b'r' ∷ b'o' ∷ b't' ∷ b'a' ∷ b't' ∷ b'i' ∷ b'o' ∷ b'n' ∷ [],
      set_log_rotation,
    )
    ∷ (
      b'n' ∷ b'f' ∷ b'c' ∷ b'_' ∷ b't' ∷ b'r' ∷ b'a' ∷ b'n' ∷ b's' ∷ b'p' ∷ b'o' ∷ b'r' ∷ b't' ∷ [],
      set_nfc_transport,
    )
    ∷ (b'n' ∷ b'f' ∷ b'c' ∷ [], set_nfc_transport)
    ∷ []

unfoldable pub find_param : List (List ℕ × Param) → List ℕ → Option Param
find_param [] param = none
find_param ((text, named) ∷ more) param =
    let later = find_param more param in if same_text param text then some named else later

-- `(uint32_t)strtoul(val_str, NULL, 10)`
abbrev pub value_of : List ℕ → ℕ
value_of val_str = strtoul val_str % 2 ^ 32

-- the assignment of the branch
unfoldable pub assign : Param → List ℕ → Settings → Settings
assign set_packet_timeout val_str settings = record settings {
  packet_timeout_ms = value_of val_str;
}
assign set_byte_timeout val_str settings = record settings { byte_timeout_ms = value_of val_str }
assign set_max_retries val_str settings = record settings { max_retries = value_of val_str % 256 }
assign set_inter_block_delay val_str settings = record settings {
  inter_block_delay_ms = value_of val_str;
}
assign set_handshake_delay val_str settings = record settings {
  handshake_delay_ms = value_of val_str;
}
assign set_overwrite_mode val_str settings = record settings { overwrite_mode = value_of val_str }
assign set_enable_resume val_str settings = record settings { enable_resume = is_true val_str }
assign set_target_dir val_str settings = record settings { default_target_dir = take 127 val_str }
assign set_sync_interval val_str settings = record settings {
  sync_interval_blocks = value_of val_str;
}
assign set_auto_start val_str settings = record settings { auto_start = is_true val_str }
assign set_async_storage val_str settings = record settings { async_storage = is_true val_str }
assign set_progress_bar val_str settings = record settings { progress_bar = is_true val_str }
assign set_directory_transfers val_str settings = record settings {
  directory_transfers = is_true val_str;
}
assign set_ring_buffer val_str settings = record settings { ring_buffer = is_true val_str }
assign set_abort_key val_str settings = record settings { abort_key = is_true val_str }
assign set_abort_char val_str settings = record settings { abort_key_char = value_of val_str % 256 }
assign set_flow_control val_str settings = record settings { flow_control = is_true val_str }
assign set_flash_partition val_str settings = record settings { flash_partition = take 31 val_str }
assign set_mcuboot_update val_str settings = record settings { mcuboot_update = is_true val_str }
assign set_nvs_checkpoints val_str settings = record settings { nvs_checkpoints = is_true val_str }
assign set_crypto_stream val_str settings = record settings { crypto_stream = is_true val_str }
assign set_uart_dma val_str settings = record settings { uart_dma = is_true val_str }
assign set_usb_cdc_acm val_str settings = record settings { usb_cdc_acm = is_true val_str }
assign set_mcuboot_validate val_str settings = record settings {
  mcuboot_validate = is_true val_str;
}
assign set_signature_verify val_str settings = record settings {
  signature_verify = is_true val_str;
}
assign set_encrypted_envelope val_str settings = record settings {
  encrypted_envelope = is_true val_str;
}
assign set_session_dispatcher val_str settings = record settings {
  session_dispatcher = is_true val_str;
}
assign set_log_rotation val_str settings = record settings { log_rotation = is_true val_str }
assign set_nfc_transport val_str settings = record settings { nfc_transport = is_true val_str }

-- the result, and the settings behind
unfoldable pub assign_found : Option Param → List ℕ → Settings → ℤ × Settings
assign_found none val_str settings = (negsuc 0, settings)
assign_found (some named) val_str settings = (pos 0, assign named val_str settings)

unfoldable pub cmd_modem_config : List ℕ → List ℕ → Settings → ℤ × Settings
cmd_modem_config param val_str settings = assign_found (find_param names param) val_str settings
