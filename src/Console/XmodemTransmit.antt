-- ===== src/Console/XmodemTransmit.antt =====
-- `console_modem_tx_xmodem` of src/zephyr_console_modem.c.
-- Its data callback reads at a position of its own, `bytes_transferred`, which moves by what each
-- call reads. The engine tells its calls apart by the bytes sent before them, and makes one for each
-- block, so that the position of a call follows from the blocks before it.
use zephyr_zyx_modem.Base.{
  ℕ, zero, suc, ◌+◌, ◌/◌, Option, none, some, List, [], length, ltb, if◌then◌else◌, add_size, ℤ,
  negsuc,
}
use zephyr_zyx_modem.Io.{Io}
use zephyr_zyx_modem.Crc.{CrcService}
use zephyr_zyx_modem.Xmodem.{Config, Status}
use zephyr_zyx_modem.Xmodem.Transmit.{Supply, zero_returned, negative, block_size, xmodem_transmit}
use zephyr_zyx_modem.Console.{Settings}
use zephyr_zyx_modem.Console.Read.{Calls, console_line}
use zephyr_zyx_modem.Console.Transmit.{InputFiles, open_input_file}
use zephyr_zyx_modem.Console.Xmodem.{config_of, all_callbacks, result_of}

-- `fs_seek` to a position and `fs_read` of a length: the bytes, or nothing when it fails
pub record Reads : Type 0 where
  pub read : List ℕ → ℕ → ℕ → Option (List ℕ)

-- what a call reads moves the position
abbrev pub advanced : Option (List ℕ) → ℕ → ℕ
advanced none position = position
advanced (some bytes) position = add_size position (length bytes)

-- The position of the call behind `sent` bytes, from a call behind `at` bytes on; every block has 128
-- bytes at least, so that `sent / 128 + 1` rounds are enough.
unfoldable pub position_behind : ℕ → (ℕ → ℕ → Option (List ℕ)) → (ℕ → ℕ) → ℕ → ℕ → ℕ → ℕ
position_behind zero read size_at at position sent = position
position_behind (suc rounds) read size_at at position sent =
    let size = size_at at in
    let later =
      position_behind rounds read size_at (at + size) (advanced (read position size) position)
        sent in
    if ltb at sent then later else position

-- a call that reads returns 0
abbrev pub supplied : Option (List ℕ) → Supply
supplied none = record { returned = negative; written = [] }
supplied (some bytes) = record { returned = zero_returned; written = bytes }

unfoldable pub xmodem_tx_data_cb : Reads → Config → List ℕ → ℕ → ℕ → ℕ → ℕ → Supply
xmodem_tx_data_cb reads config path file_size sent block_num len = supplied (
    reads.read path
      (position_behind (sent / 128 + 1) (reads.read path) (block_size config file_size) 0 0 sent)
      len)

abbrev pub xmodem_sent : Option (Status × Io) → Option (ℤ × Io)
xmodem_sent none = none
xmodem_sent (some (status, io)) = some (result_of status, io)

-- `none` is the NULL file name. The engine reads with `console_read_byte`. The blocks have a round for every 128 bytes and two more.
unfoldable pub console_modem_tx_xmodem :
    CrcService → InputFiles → Reads → Settings → Option (List ℕ) → Calls → Option (ℤ × Io)
console_modem_tx_xmodem svc files reads settings none calls =
    some (negsuc 0, console_line settings calls)
console_modem_tx_xmodem svc files reads settings (some path) calls =
    elim (open_input_file files path) [
      | none ↦ some (negsuc 0, console_line settings calls)
      | some size ↦ xmodem_sent (
          xmodem_transmit svc (xmodem_tx_data_cb reads (config_of settings) path size)
            (size / 128 + 2) (some all_callbacks) size (some (config_of settings))
            (console_line settings calls))
    ]
