-- ===== src/Console/Shell.antt =====
-- The shell commands of src/zephyr_console_modem.c that receive and transmit, and
-- `console_modem_mcuboot_update`. A text is a list of its bytes, without the NUL.
use zephyr_zyx_modem.Base.{
  ℕ, Bool, true, false, ◌&&◌, ◌||◌, Option, none, some, List, [], ◌∷◌, take, drop, ◌==◌,
  if◌then◌else◌, ℤ, negsuc,
}
use zephyr_zyx_modem.Console.Statistics.{ModemStats, console_modem_stats_reset}

-- `strcmp(a, b) == 0`
abbrev pub same_text : List ℕ → List ℕ → Bool
same_text [] [] = true
same_text [] (y ∷ ys) = false
same_text (x ∷ xs) [] = false
same_text (x ∷ xs) (y ∷ ys) = (x == y) && same_text xs ys

pub data Protocol : Type 0 where
  xmodem ymodem zmodem : Protocol

abbrev pub modem_text : List ℕ
modem_text = b'm' ∷ b'o' ∷ b'd' ∷ b'e' ∷ b'm' ∷ []

-- "xmodem" or "x", and so on
abbrev pub names_xmodem : List ℕ → Bool
names_xmodem text = same_text text (b'x' ∷ modem_text) || same_text text (b'x' ∷ [])

abbrev pub names_ymodem : List ℕ → Bool
names_ymodem text = same_text text (b'y' ∷ modem_text) || same_text text (b'y' ∷ [])

abbrev pub names_zmodem : List ℕ → Bool
names_zmodem text = same_text text (b'z' ∷ modem_text) || same_text text (b'z' ∷ [])

-- the call that a command ends in: the receive or transmit function of a protocol, with its name
-- argument, `none` for NULL; the transmission of a directory; or a return
pub data Call : Type 0 where
  rx : Protocol → Option (List ℕ) → Call
  tx : Protocol → Option (List ℕ) → Call
  tx_directory : List ℕ → ℕ → Call
  return : ℤ → Call

-- "flash:", "flash_image.bin", "xmodem.bin" and "firmware.bin"
abbrev pub flash_prefix : List ℕ
flash_prefix = b'f' ∷ b'l' ∷ b'a' ∷ b's' ∷ b'h' ∷ b':' ∷ []

abbrev pub flash_image : List ℕ
flash_image =
    b'f' ∷ b'l' ∷ b'a' ∷ b's' ∷ b'h' ∷ b'_' ∷ b'i' ∷ b'm' ∷ b'a' ∷ b'g' ∷ b'e' ∷ b'.' ∷ b'b' ∷ b'i'
    ∷ b'n' ∷ []

abbrev pub xmodem_bin : List ℕ
xmodem_bin = b'x' ∷ b'm' ∷ b'o' ∷ b'd' ∷ b'e' ∷ b'm' ∷ b'.' ∷ b'b' ∷ b'i' ∷ b'n' ∷ []

abbrev pub firmware_bin : List ℕ
firmware_bin =
    b'f' ∷ b'i' ∷ b'r' ∷ b'm' ∷ b'w' ∷ b'a' ∷ b'r' ∷ b'e' ∷ b'.' ∷ b'b' ∷ b'i' ∷ b'n' ∷ []

-- `argv[1]` and `argv[2]`, of a command with at most two arguments
pub data Args : Type 0 where
  no_args : Args
  one_arg : List ℕ → Args
  two_args : List ℕ → List ℕ → Args

abbrev pub proto_of : Args → List ℕ
proto_of no_args = b'z' ∷ modem_text
proto_of (one_arg a) = a
proto_of (two_args a b) = a

abbrev pub path_of : Args → Option (List ℕ)
path_of no_args = none
path_of (one_arg a) = none
path_of (two_args a b) = some b

-- `argv[1]` where there is one; behind the last argument stands a NULL
abbrev pub first_arg : Args → Option (List ℕ)
first_arg no_args = none
first_arg (one_arg a) = some a
first_arg (two_args a b) = some a

-- the output path, and the flash partition when the path names one
unfoldable pub flash_target : Option (List ℕ) → List ℕ → Option (List ℕ) × List ℕ
flash_target none partition = (none, partition)
flash_target (some path) partition =
    if same_text (take 6 path) flash_prefix
    then (some flash_image, take 31 (drop 6 path))
    else (some path, partition)

abbrev pub or_xmodem_bin : Option (List ℕ) → List ℕ
or_xmodem_bin none = xmodem_bin
or_xmodem_bin (some path) = path

-- What `cmd_modem_rx` calls, the partition setting behind it, and the statistics behind it: the
-- command counts in a copy of its own.
unfoldable pub cmd_modem_rx : Args → List ℕ → ModemStats → Call × (List ℕ × ModemStats)
cmd_modem_rx args partition stats =
    let proto = proto_of args in
    let (out_path, partition') = flash_target (path_of args) partition in
    (
      if names_xmodem proto
          then rx xmodem (some (or_xmodem_bin out_path))
          else (if names_ymodem proto
              then rx ymodem out_path
              else (if names_zmodem proto then rx zmodem out_path else rx zmodem (first_arg args))),
      (partition', stats),
    )

-- the code of the protocol for a directory
abbrev pub directory_code : List ℕ → ℕ
directory_code proto = if names_ymodem proto then 1 else 2

abbrev pub tx_file : List ℕ → List ℕ → Call
tx_file proto path =
    if names_xmodem proto
    then tx xmodem (some path)
    else (if names_ymodem proto then tx ymodem (some path) else tx zmodem (some path))

-- `is_directory` is what `fs_stat` says of the path.
unfoldable pub cmd_modem_tx : (List ℕ → Bool) → Args → Call
cmd_modem_tx is_directory no_args = return (negsuc 0)
cmd_modem_tx is_directory (one_arg path) =
    if is_directory path
    then tx_directory path (directory_code (b'z' ∷ modem_text))
    else tx_file (b'z' ∷ modem_text) path
cmd_modem_tx is_directory (two_args proto path) =
    if is_directory path then tx_directory path (directory_code proto) else tx_file proto path

-- the name given, unless it is NULL or empty
abbrev pub update_target : Option (List ℕ) → List ℕ
update_target none = firmware_bin
update_target (some []) = firmware_bin
update_target (some (c ∷ name)) = c ∷ name

-- `enabled` is the setting `mcuboot_update`.
unfoldable pub console_modem_mcuboot_update : Bool → Option (List ℕ) → ℕ → Call
console_modem_mcuboot_update false name protocol = return (negsuc 0)
console_modem_mcuboot_update true name protocol =
    if protocol == 1
    then rx ymodem (some (update_target name))
    else (if protocol == 2
        then rx xmodem (some (update_target name))
        else rx zmodem (some (update_target name)))

-- "reset"
abbrev pub reset_text : List ℕ
reset_text = b'r' ∷ b'e' ∷ b's' ∷ b'e' ∷ b't' ∷ []

-- The statistics behind the command, from `argv[1]` where there is one; otherwise it prints them.
unfoldable pub cmd_modem_stats : Option (List ℕ) → ModemStats → ModemStats
cmd_modem_stats none stats = stats
cmd_modem_stats (some arg) stats =
    if same_text arg reset_text then console_modem_stats_reset stats else stats
