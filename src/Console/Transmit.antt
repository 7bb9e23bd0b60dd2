-- ===== src/Console/Transmit.antt =====
-- The transmit functions of src/zephyr_console_modem.c for YMODEM and ZMODEM, and for a directory.
-- Zephyr's file system is a parameter; a name of NULL is `none`.
pub mod Relay
use zephyr_zyx_modem.Base.{
  is_zero, ℕ, zero, suc, ◌+◌, Bool, true, false, not, ◌&&◌, ◌||◌, Option, none, some, List, [], ◌∷◌,
  ◌++◌, take, ltb, ◌==◌, if◌then◌else◌, ℤ, pos, negsuc,
}
use zephyr_zyx_modem.Io.{Io}
use zephyr_zyx_modem.Crc.{CrcService}
use zephyr_zyx_modem.Zmodem.Platform.{Platform, IsPlatform}
use zephyr_zyx_modem.Zmodem
use zephyr_zyx_modem.Zmodem.Transmit.{zmodem_transmit}
use zephyr_zyx_modem.Ymodem
use zephyr_zyx_modem.Ymodem.Transmit.{ymodem_transmit}
use zephyr_zyx_modem.Console.{Settings}
use zephyr_zyx_modem.Console.Read.{Calls, console_line}
use zephyr_zyx_modem.Console.Zmodem as ZmodemFiles
use zephyr_zyx_modem.Console.Ymodem as YmodemFiles

-- `fs_open` of a path for reading, the size that `fs_stat` gives, and the buffer of a length behind
-- `fs_seek` to an offset and `fs_read`.
pub record InputFiles : Type 0 where
  pub open_for_reading : List ℕ → ℤ
  pub stat_size : List ℕ → Option ℕ
  pub buffer : List ℕ → ℕ → ℕ → List ℕ

-- `file_size` behind `open_input_file`, when it succeeds
unfoldable pub open_input_file : InputFiles → List ℕ → Option ℕ
open_input_file files path =
    if is_zero (files.open_for_reading path)
    then elim (files.stat_size path) [ none ↦ some 0 | some size ↦ some size ]
    else none

abbrev pub has_slash : List ℕ → Bool
has_slash [] = false
has_slash (c ∷ cs) = (c == b'/') || has_slash cs

-- what is behind the last slash
unfoldable pub base_name : List ℕ → List ℕ
base_name [] = []
base_name (c ∷ cs) =
    let behind = base_name cs in if (c == b'/') || has_slash cs then behind else c ∷ cs

-- `info->filename` from `target_path`, a copy of the name of at most 255 bytes
abbrev pub sent_name : List ℕ → List ℕ
sent_name path = take 255 (base_name (take 255 path))

unfoldable pub zmodem_tx_get_file_metadata : List ℕ → ℕ → ℕ → Option Zmodem.FileInfo
zmodem_tx_get_file_metadata path size file_index =
    if ltb 0 file_index then none else some (record { filename = sent_name path; size = size })

abbrev pub zmodem_tx_read_file_bytes : InputFiles → List ℕ → ℕ → ℕ → ℕ → List ℕ
zmodem_tx_read_file_bytes files path file_index offset len = files.buffer path offset len

unfoldable pub ymodem_tx_get_file_info : List ℕ → ℕ → ℕ → Option Ymodem.FileInfo
ymodem_tx_get_file_info path size file_index =
    if ltb 0 file_index then none else some (record { filename = sent_name path; size = size })

abbrev pub ymodem_tx_read_file_data : InputFiles → List ℕ → ℕ → ℕ → ℕ → List ℕ
ymodem_tx_read_file_data files path file_index offset len = files.buffer path offset len

abbrev pub zmodem_callbacks : Zmodem.Transmit.Callbacks
zmodem_callbacks = record {
  read_byte = true;
  write_bytes = true;
  get_file_info = true;
  read_data = true;
}

abbrev pub ymodem_callbacks : Ymodem.Transmit.Callbacks
ymodem_callbacks = record {
  read_byte = true;
  write_bytes = true;
  get_file_info = true;
  read_data = true;
}

-- the result of a transfer, and what the line is then
abbrev pub zmodem_sent : Option (Zmodem.Status × Io) → Option (ℤ × Io)
zmodem_sent none = none
zmodem_sent (some (status, io)) = some (ZmodemFiles.result_of status, io)

abbrev pub ymodem_sent : Option (Ymodem.Status × Io) → Option (ℤ × Io)
ymodem_sent none = none
ymodem_sent (some (status, io)) = some (YmodemFiles.result_of status, io)

-- On a line that is part of a longer transfer; the console's functions stand below.
unfoldable pub tx_zmodem_over : Platform → InputFiles → Option (List ℕ) → Io → Option (ℤ × Io)
tx_zmodem_over svc files none io = some (negsuc 0, io)
tx_zmodem_over svc files (some path) io = elim (open_input_file files path) [
  | none ↦ some (negsuc 0, io)
  | some size ↦ zmodem_sent (
      zmodem_transmit svc (zmodem_tx_get_file_metadata path size)
        (zmodem_tx_read_file_bytes files path) (some zmodem_callbacks) io)
]

unfoldable pub tx_ymodem_over : Platform → InputFiles → Option (List ℕ) → Io → Option (ℤ × Io)
tx_ymodem_over svc files none io = some (negsuc 0, io)
tx_ymodem_over svc files (some path) io = elim (open_input_file files path) [
  | none ↦ some (negsuc 0, io)
  | some size ↦ ymodem_sent (
      ymodem_transmit svc.crc (ymodem_tx_get_file_info path size)
        (ymodem_tx_read_file_data files path) (some ymodem_callbacks) io)
]

-- The engines read with `console_read_byte`.
abbrev pub console_modem_tx_zmodem :
    Platform → InputFiles → Settings → Option (List ℕ) → Calls → Option (ℤ × Io)
console_modem_tx_zmodem svc files settings name calls =
    tx_zmodem_over svc files name (console_line settings calls)

abbrev pub console_modem_tx_ymodem :
    Platform → InputFiles → Settings → Option (List ℕ) → Calls → Option (ℤ × Io)
console_modem_tx_ymodem svc files settings name calls =
    tx_ymodem_over svc files name (console_line settings calls)

-- an entry of a directory: its name, and whether it is a file
pub record DirEntry : Type 0 where
  pub name : List ℕ
  pub is_file : Bool

-- one entry of the loop, with 1 for YMODEM; the result of the transfer is not looked at
unfoldable pub tx_entry : Platform → InputFiles → List ℕ → ℕ → DirEntry → Io → Option Io
tx_entry svc files dir_path protocol entry io =
    let path = take 255 (dir_path ++ (b'/' ∷ entry.name)) in
    let sent =
      if protocol == 1
      then tx_ymodem_over svc files (some path) io
      else tx_zmodem_over svc files (some path) io in
    if entry.is_file then elim sent [ none ↦ none | some (result, io') ↦ some io' ] else some io

-- the entries that `fs_readdir` gives, up to the first without a name
unfoldable pub tx_entries : Platform → InputFiles → List ℕ → ℕ → List DirEntry → Io → Option Io
tx_entries svc files dir_path protocol [] io = some io
tx_entries svc files dir_path protocol (entry ∷ entries) io =
    elim (tx_entry svc files dir_path protocol entry io) [
      | none ↦ none
      | some io' ↦ tx_entries svc files dir_path protocol entries io'
    ]

-- `none` of the directory says that it does not open.
unfoldable pub console_modem_tx_directory :
    Platform
    → InputFiles
    → Settings
    → Option (List ℕ)
    → ℕ
    → Option (List DirEntry)
    → Calls
    → Option (ℤ × Io)
console_modem_tx_directory svc files settings none protocol entries calls =
    some (negsuc 0, console_line settings calls)
console_modem_tx_directory svc files settings (some dir_path) protocol none calls =
    some (negsuc 0, console_line settings calls)
console_modem_tx_directory svc files settings (some dir_path) protocol (some entries) calls =
    if not settings.directory_transfers
    then some (negsuc 0, console_line settings calls)
    else elim (tx_entries svc files dir_path protocol entries (console_line settings calls)) [
      | none ↦ none
      | some io' ↦ some (pos 0, io')
    ]
