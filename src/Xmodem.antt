-- ===== src/Xmodem.antt =====
-- include/modem/xmodem.h and the helpers at the top of src/xmodem.c.
pub mod Frame
pub mod Receive
pub mod Transmit
pub mod Session
mod Examples
use zephyr_zyx_modem.Base.{ℕ, Bool, true, false, ◌&&◌, Option, none, some, List}

-- control characters
abbrev pub soh : ℕ
soh = 0x01

abbrev pub stx : ℕ
stx = 0x02

abbrev pub eot : ℕ
eot = 0x04

abbrev pub ack : ℕ
ack = 0x06

abbrev pub nak : ℕ
nak = 0x15

abbrev pub can : ℕ
can = 0x18

-- XMODEM_C, which asks for CRC-16
abbrev pub crc_request : ℕ
crc_request = b'C'

abbrev pub block_size_128 : ℕ
block_size_128 = 128

abbrev pub block_size_1024 : ℕ
block_size_1024 = 1024

-- `xmodem_status_t`
pub data Status : Type 0 where
  ok error error_timeout error_cancel error_sequence error_crc error_io : Status

-- `xmodem_mode_t`
pub data Mode : Type 0 where
  standard crc one_k : Mode

-- `mode == XMODEM_MODE_1K`
abbrev pub is_one_k : Mode → Bool
is_one_k one_k = true
is_one_k _ = false

-- `xmodem_config_t`; the timeouts are handed to `read_byte` only.
pub record Config : Type 0 where
  pub mode : Mode
  pub byte_timeout_ms : ℕ
  pub packet_timeout_ms : ℕ
  pub max_retries : ℕ

-- `xmodem_config_init`
abbrev pub config_init : Config
config_init = record {
  mode = one_k;
  byte_timeout_ms = 1000;
  packet_timeout_ms = 3000;
  max_retries = 10;
}

-- Which callbacks of `xmodem_callbacks_t` are not NULL.
pub record Callbacks : Type 0 where
  pub read_byte : Bool
  pub write_bytes : Bool
  pub data_cb : Bool

-- The guard at the head of both engines; `none` is a NULL `callbacks`.
abbrev pub usable : Option Callbacks → Bool
usable none = false
usable (some cbs) = cbs.read_byte && cbs.write_bytes && cbs.data_cb

-- A NULL configuration stands for the default one.
abbrev pub config_or_default : Option Config → Config
config_or_default none = config_init
config_or_default (some cfg) = cfg

-- A payload with its sequence number, as it goes to `data_cb` and over the line.
pub record Block : Type 0 where
  pub num : ℕ
  pub payload : List ℕ
