-- ===== src/Console/Ymodem.antt =====
-- `console_modem_rx_ymodem` of src/zephyr_console_modem.c: the YMODEM receiver over the files.
use zephyr_zyx_modem.Base.{ℕ, true, Option, none, some, List, [], ◌∷◌, take, ℤ, pos, negsuc}
use zephyr_zyx_modem.Crc.{CrcService}
use zephyr_zyx_modem.Ymodem.{FileInfo, Status, ok}
use zephyr_zyx_modem.Ymodem.Receive.{
  Callbacks, Event, file_start, data_at, file_end, ymodem_receive,
}
use zephyr_zyx_modem.Console.{Settings}
use zephyr_zyx_modem.Console.Read.{Calls, console_line}
use zephyr_zyx_modem.Console.Files.{
  FileSystem, Context, context_for, open_output_file, write_file_data, close_file,
}
use zephyr_zyx_modem.Console.Zmodem.{chosen_name, started, target_of}

unfoldable pub ymodem_on_file_start : FileSystem → Settings → FileInfo → Context → ℤ × Context
ymodem_on_file_start fs settings info ctx =
    started info.size (open_output_file fs settings (chosen_name info.filename ctx.target_path) ctx)

-- what a call of the engine does to the context
unfoldable pub handle : FileSystem → Settings → Event → Context → Context
handle fs settings (file_start info) ctx = (ymodem_on_file_start fs settings info ctx).1
handle fs settings (data_at buf len offset) ctx = (write_file_data fs settings (take len buf) ctx).1
handle fs settings (file_end info status) ctx = close_file ctx

unfoldable pub handle_all : FileSystem → Settings → List Event → Context → Context
handle_all fs settings [] ctx = ctx
handle_all fs settings (event ∷ events) ctx =
    handle_all fs settings events (handle fs settings event ctx)

abbrev pub all_callbacks : Callbacks
all_callbacks = record {
  read_byte = true;
  write_bytes = true;
  on_file_start = true;
  on_data = true;
  on_file_end = true;
}

-- `(status == YMODEM_OK) ? 0 : -1`
abbrev pub result_of : Status → ℤ
result_of ok = pos 0
result_of _ = negsuc 0

-- The name is `none` for NULL. The engine reads with `console_read_byte`.
unfoldable pub console_modem_rx_ymodem :
    CrcService → FileSystem → Settings → Option (List ℕ) → Calls → Option (ℤ × Context)
console_modem_rx_ymodem svc fs settings name calls =
    elim (ymodem_receive svc (some all_callbacks) (console_line settings calls)) [
      | none ↦ none
      | some (status, rx) ↦
          some (result_of status, handle_all fs settings rx.events (context_for (target_of name)))
    ]
