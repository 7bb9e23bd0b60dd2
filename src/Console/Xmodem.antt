-- ===== src/Console/Xmodem.antt =====
-- `console_modem_rx_xmodem` of src/zephyr_console_modem.c: the XMODEM receiver over the files.
pub mod Stores
use zephyr_zyx_modem.Base.{
  is_zero, ℕ, Bool, true, false, Option, none, some, List, [], ◌∷◌, if◌then◌else◌, ℤ, pos, negsuc,
}
use zephyr_zyx_modem.Io.{Io}
use zephyr_zyx_modem.Crc.{CrcService}
use zephyr_zyx_modem.Xmodem.{Block, Callbacks, Config, Status, config_init}
use zephyr_zyx_modem.Xmodem.{
  ok, error, error_timeout, error_cancel, error_sequence, error_crc, error_io,
}
use zephyr_zyx_modem.Xmodem.Receive.{Result, xmodem_receive}
use zephyr_zyx_modem.Console.{Settings}
use zephyr_zyx_modem.Console.Read.{Calls, console_line}
use zephyr_zyx_modem.Console.Files.{
  FileSystem, Context, context_for, open_output_file, write_file_data, close_file,
}

-- `xmodem_rx_data_cb`, whose context is not NULL
abbrev pub xmodem_rx_data_cb : FileSystem → Settings → Block → Context → ℤ × Context
xmodem_rx_data_cb fs settings block ctx = write_file_data fs settings block.payload ctx

-- the context behind these blocks
unfoldable pub context_behind : FileSystem → Settings → List Block → Context → Context
context_behind fs settings [] ctx = ctx
context_behind fs settings (block ∷ blocks) ctx =
    context_behind fs settings blocks (xmodem_rx_data_cb fs settings block ctx).1

-- whether the callback takes a block behind those that it took before
abbrev pub takes : FileSystem → Settings → Context → List Block → Block → Bool
takes fs settings ctx past block =
    is_zero (xmodem_rx_data_cb fs settings block (context_behind fs settings past ctx)).0

abbrev pub all_callbacks : Callbacks
all_callbacks = record { read_byte = true; write_bytes = true; data_cb = true }

-- the default configuration with the settings
abbrev pub config_of : Settings → Config
config_of settings = record config_init {
  byte_timeout_ms = settings.byte_timeout_ms;
  packet_timeout_ms = settings.packet_timeout_ms;
  max_retries = settings.max_retries;
}

-- `(status == XMODEM_OK) ? 0 : -1`
abbrev pub result_of : Status → ℤ
result_of ok = pos 0
result_of _ = negsuc 0

-- Behind the opening of the file: the result and the context behind. What a last block that
-- `data_cb` does not take leaves in the file is not followed.
unfoldable pub rx_opened :
    CrcService → FileSystem → Settings → ℤ × Context → Io → Option (ℤ × Context)
rx_opened svc fs settings (opened, ctx) io =
    if is_zero opened
    then elim (xmodem_receive svc (takes fs settings ctx) (some all_callbacks)
        (some (config_of settings)) io) [
          | none ↦ none
          | some r ↦
              some (result_of r.status, close_file (context_behind fs settings r.received ctx))
        ]
    else some (negsuc 0, ctx)

-- `none` is the NULL file name. The engine reads with `console_read_byte`.
unfoldable pub console_modem_rx_xmodem :
    CrcService → FileSystem → Settings → Option (List ℕ) → Calls → Option (ℤ × Context)
console_modem_rx_xmodem svc fs settings none calls =
    rx_opened svc fs settings (pos 0, context_for []) (console_line settings calls)
console_modem_rx_xmodem svc fs settings (some name) calls =
    rx_opened svc fs settings (open_output_file fs settings name (context_for name))
      (console_line settings calls)
