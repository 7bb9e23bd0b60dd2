-- ===== src/Console.antt =====
-- src/zephyr_console_modem.h and the settings of src/zephyr_console_modem.c, with every feature of
-- the build that they depend on enabled.
pub mod Read
pub mod Abort
pub mod Files
pub mod Stored
pub mod Xmodem
pub mod Zmodem
pub mod Ymodem
pub mod Transmit
pub mod XmodemTransmit
pub mod Statistics
pub mod Shell
pub mod Config
mod Examples
use zephyr_zyx_modem.Base.{ℕ, Bool, true, false, Option, none, some, List, [], ℤ, pos}

-- `modem_overwrite_mode_t`; the shell sets it to any number.
abbrev pub overwrite_always : ℕ
overwrite_always = 0

abbrev pub overwrite_skip : ℕ
overwrite_skip = 1

abbrev pub overwrite_abort : ℕ
overwrite_abort = 2

-- `console_modem_settings_t`; the two texts are without their NUL.
pub record Settings : Type 0 where
  pub packet_timeout_ms : ℕ
  pub byte_timeout_ms : ℕ
  pub max_retries : ℕ
  pub inter_block_delay_ms : ℕ
  pub handshake_delay_ms : ℕ
  pub overwrite_mode : ℕ
  pub enable_resume : Bool
  pub default_target_dir : List ℕ
  pub sync_interval_blocks : ℕ
  pub auto_start : Bool
  pub async_storage : Bool
  pub progress_bar : Bool
  pub directory_transfers : Bool
  pub ring_buffer : Bool
  pub abort_key : Bool
  pub abort_key_char : ℕ
  pub flow_control : Bool
  pub flash_partition : List ℕ
  pub mcuboot_update : Bool
  pub nvs_checkpoints : Bool
  pub crypto_stream : Bool
  pub uart_dma : Bool
  pub usb_cdc_acm : Bool
  pub mcuboot_validate : Bool
  pub signature_verify : Bool
  pub encrypted_envelope : Bool
  pub session_dispatcher : Bool
  pub log_rotation : Bool
  pub nfc_transport : Bool

-- `g_modem_settings` before any change, with the defaults at the head of the file
abbrev pub default_settings : Settings
default_settings = record {
  packet_timeout_ms = 3000;
  byte_timeout_ms = 1000;
  max_retries = 10;
  inter_block_delay_ms = 0;
  handshake_delay_ms = 1000;
  overwrite_mode = overwrite_always;
  enable_resume = true;
  default_target_dir = [];
  sync_interval_blocks = 10;
  auto_start = true;
  async_storage = true;
  progress_bar = true;
  directory_transfers = true;
  ring_buffer = true;
  abort_key = true;
  abort_key_char = 3;
  flow_control = true;
  flash_partition = [];
  mcuboot_update = true;
  nvs_checkpoints = true;
  crypto_stream = true;
  uart_dma = true;
  usb_cdc_acm = true;
  mcuboot_validate = true;
  signature_verify = true;
  encrypted_envelope = true;
  session_dispatcher = true;
  log_rotation = true;
  nfc_transport = true;
}

-- `none` is the NULL pointer.
abbrev pub console_modem_settings_get : Option Settings → Settings → Option Settings
console_modem_settings_get none current = none
console_modem_settings_get (some out) current = some current

abbrev pub console_modem_settings_set : Option Settings → Settings → Settings
console_modem_settings_set none current = current
console_modem_settings_set (some settings) current = settings

-- The result, and the channel that is bound behind the call; `none` is NULL.
abbrev pub console_modem_bind_device {ℓ} :
    {Channel : Type ℓ} → Option Channel → Option Channel → ℤ × Option Channel
console_modem_bind_device channel bound = (pos 0, channel)
