-- ===== src/Console/Zmodem.antt =====
-- `console_modem_rx_zmodem` of src/zephyr_console_modem.c: the ZMODEM receiver over the files.
pub mod Stores
use zephyr_zyx_modem.Base.{
  is_zero, ℕ, Bool, true, false, Option, none, some, List, [], ◌∷◌, length, ◌==◌, if◌then◌else◌, ℤ,
  pos, negsuc,
}
use zephyr_zyx_modem.Io.{Io}
use zephyr_zyx_modem.Crc.{CrcService}
use zephyr_zyx_modem.Zmodem.Platform.{Platform, IsPlatform}
use zephyr_zyx_modem.Zmodem.{FileInfo, Status, ok}
use zephyr_zyx_modem.Zmodem.Receive.{
  Callbacks, Event, file_start, data_at, file_end, zmodem_receive,
}
use zephyr_zyx_modem.Console.{Settings}
use zephyr_zyx_modem.Console.Read.{Calls, console_line}
use zephyr_zyx_modem.Console.Files.{
  FileSystem, Context, context_for, open_output_file, write_file_data, close_file,
}

-- "received_file.bin"
abbrev pub received_file : List ℕ
received_file =
    b'r' ∷ b'e' ∷ b'c' ∷ b'e' ∷ b'i' ∷ b'v' ∷ b'e' ∷ b'd' ∷ b'_' ∷ b'f' ∷ b'i' ∷ b'l' ∷ b'e' ∷ b'.'
    ∷ b'b' ∷ b'i' ∷ b'n' ∷ []

-- the first of the three names that is not empty
abbrev pub chosen_name : List ℕ → List ℕ → List ℕ
chosen_name [] [] = received_file
chosen_name [] (c ∷ target) = c ∷ target
chosen_name (c ∷ filename) target = c ∷ filename

-- behind the opening: the result and the context
abbrev pub started : ℕ → ℤ × Context → ℤ × Context
started size (res, ctx) =
    if is_zero res
    then (pos 0, record ctx { file_size = size; bytes_transferred = 0 })
    else (negsuc 0, ctx)

unfoldable pub zmodem_on_file_start : FileSystem → Settings → FileInfo → Context → ℤ × Context
zmodem_on_file_start fs settings info ctx =
    started info.size (open_output_file fs settings (chosen_name info.filename ctx.target_path) ctx)

-- What a call of the engine does to the context. The engine looks at none of the results.
unfoldable pub handle : FileSystem → Settings → Event → Context → Context
handle fs settings (file_start info) ctx = (zmodem_on_file_start fs settings info ctx).1
handle fs settings (data_at buf offset) ctx = (write_file_data fs settings buf ctx).1
handle fs settings (file_end info status) ctx = close_file ctx

unfoldable pub handle_all : FileSystem → Settings → List Event → Context → Context
handle_all fs settings [] ctx = ctx
handle_all fs settings (event ∷ events) ctx =
    handle_all fs settings events (handle fs settings event ctx)

abbrev pub all_callbacks : Callbacks
all_callbacks = record {
  read_byte = true;
  write_bytes = true;
  on_file_start = true;
  on_data = true;
  on_file_end = true;
}

-- `(status == ZMODEM_OK) ? 0 : -1`
abbrev pub result_of : Status → ℤ
result_of ok = pos 0
result_of _ = negsuc 0

abbrev pub target_of : Option (List ℕ) → List ℕ
target_of none = []
target_of (some name) = name

-- The name is `none` for NULL. The engine reads with `console_read_byte`. `stale` is what the engine's buffer holds, as for `zmodem_receive`.
unfoldable pub console_modem_rx_zmodem :
    Platform
    → (List Event → List ℕ)
    → FileSystem
    → Settings
    → Option (List ℕ)
    → Calls
    → Option (ℤ × Context)
console_modem_rx_zmodem svc stale fs settings name calls =
    elim (zmodem_receive svc stale (some all_callbacks) (console_line settings calls)) [
      | none ↦ none
      | some (status, rx) ↦
          some (result_of status, handle_all fs settings rx.events (context_for (target_of name)))
    ]
