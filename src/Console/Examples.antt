-- ===== src/Console/Examples.antt =====
-- A console with the default settings, writing at once, over a file system that takes everything.
use zephyr_zyx_modem.Base.{
  ℕ, ℤ, inl, true, false, Option, none, some, List, [], ◌∷◌, ◌++◌, ◌≡◌, ◌≤◌, refl, ap, sym, length,
  length-replicate, map, replicate, arith, pos,
}
use zephyr_zyx_modem.Io.{cancelled, bytes_of}
use zephyr_zyx_modem.Zmodem.Samples.{platform, platform-IsPlatform}
use zephyr_zyx_modem.Xmodem.{Callbacks, Config, ok, crc}
use zephyr_zyx_modem.Xmodem.Session.{line}
use zephyr_zyx_modem.Zmodem
use zephyr_zyx_modem.Zmodem.Receive.{Event}
use zephyr_zyx_modem.Zmodem.Transmit.{zmodem_transmit}
use zephyr_zyx_modem.Zmodem.Session.{Source, IsSource}
use zephyr_zyx_modem.Zmodem.Session.Contents.{read_from}
use zephyr_zyx_modem.Zmodem.Session.Pieces.{Reads}
use zephyr_zyx_modem.Zmodem.Session.Answers
use zephyr_zyx_modem.Zmodem.Session.Turns
use zephyr_zyx_modem.Zmodem.Session.Both.{session_stream, session_answers}
use zephyr_zyx_modem.Console.{Settings, default_settings}
use zephyr_zyx_modem.Console.Config.{cmd_modem_config}
use zephyr_zyx_modem.Console.Config.Widths.{IsSettings}
use zephyr_zyx_modem.Console.Config.Commands.{configure, cmd_modem_config-IsSettings}
use zephyr_zyx_modem.Console.Config.Table.{Value, values, table, look_up, expected}
use zephyr_zyx_modem.Console.Read.{console_script}
use zephyr_zyx_modem.Console.Abort.{
  Passes, arriving, ready, plain, one_can, nothing, console_script-abort,
}
use zephyr_zyx_modem.Console.Files.{FileSystem, Context, full_path}
use zephyr_zyx_modem.Console.Stored.{WillStore}
use zephyr_zyx_modem.Console.Zmodem.{console_modem_rx_zmodem}
use zephyr_zyx_modem.Console.Zmodem.Stores.{stored_files, console_rx_zmodem-WillStore}
use zephyr_zyx_modem.Console.Transmit.{
  InputFiles, base_name, open_input_file, sent_name, zmodem_tx_get_file_metadata,
  zmodem_tx_read_file_bytes, console_modem_tx_zmodem,
}
use zephyr_zyx_modem.Console.Transmit.Relay.{
  source, source-Serves, console_tx_zmodem-console_rx_zmodem,
}

abbrev at_once : Settings
at_once = record default_settings {
  async_storage = false;
  default_target_dir = b'/' ∷ b'd' ∷ [];
  abort_key = false;
  ring_buffer = true;
}

at_once-Passes : (bytes : List ℕ) → Passes at_once 0 bytes
at_once-Passes bytes = record { ring = refl; clean = inl refl }

abbrev empty_disk : FileSystem
empty_disk = record {
  stat = λ path. false;
  open_for_writing = λ path. pos 0;
  write = λ path past buf. pos (length buf);
}

empty_disk-WillStore : (name : List ℕ) → WillStore empty_disk at_once name
empty_disk-WillStore name = record {
  synchronous = refl;
  is_new = refl;
  opens = refl;
  writes = λ past buf. refl;
}

console_script-abort_example :
    (cans : ℕ) × (console_script default_settings 0
        (map ready (5 ∷ 0x18 ∷ 7 ∷ []) ++ (ready 3 ∷ []))
      ≡ bytes_of (5 ∷ 0x18 ∷ 7 ∷ []) ++ (cancelled ∷ console_script default_settings cans []))
console_script-abort_example =
    console_script-abort default_settings (5 ∷ 0x18 ∷ 7 ∷ []) [] refl refl (
      plain 0 5 _ (λ e. omega (arith, e)) (λ e. omega (arith, e))
        (one_can _ (λ e. omega (arith, e))
          (plain 1 7 _ (λ e. omega (arith, e)) (λ e. omega (arith, e)) (nothing 0))))

abbrev all_set : Option Callbacks
all_set = some (record { read_byte = true; write_bytes = true; data_cb = true })

abbrev small_blocks : Config
small_blocks = record {
  mode = crc;
  byte_timeout_ms = 1000;
  packet_timeout_ms = 3000;
  max_retries = 10;
}

abbrev note : List ℕ
note = b'h' ∷ b'i' ∷ []

-- with the abort key of the defaults
abbrev watched : Settings
watched = record at_once { abort_key = true }

abbrev sevens : InputFiles
sevens = record {
  open_for_reading = λ path. pos 0;
  stat_size = λ path. some 1500;
  buffer = λ path. read_from (replicate 1500 7);
}

sevens-Reads : Reads (sevens.buffer (b'/' ∷ b'a' ∷ [])) (replicate 1500 7)
sevens-Reads = record { within = λ offset n h. refl }

abbrev sevens_source : Source
sevens_source = source (b'/' ∷ b'a' ∷ []) (replicate 1500 7)

sevens_source-IsSource : IsSource sevens_source
unfolding base_name
sevens_source-IsSource = record {
  named = omega arith;
  short_name = omega arith;
  no_nul = (refl, tt);
  nonempty = omega (arith, length-replicate {A = ℕ} 1500 7);
  size_fits = omega (arith, length-replicate {A = ℕ} 1500 7);
  sized = refl;
}

sevens_source-named : 1 ≤ length (sent_name (b'/' ∷ b'a' ∷ []))
unfolding base_name
sevens_source-named = omega arith

abbrev stale_none : List Event → List ℕ
stale_none events = []

console_rx_zmodem-WillStore_example :
    (zmodem_transmit platform
        (zmodem_tx_get_file_metadata (b'/' ∷ b'a' ∷ []) (length (replicate {A = ℕ} 1500 7)))
        (zmodem_tx_read_file_bytes sevens (b'/' ∷ b'a' ∷ []))
        (some Answers.all_callbacks_tx)
        (Turns.line (bytes_of (session_answers platform (sevens_source ∷ [])) ++ []) [])
      ≡ some (
        Zmodem.ok,
        Turns.line (Turns.end_of_line platform []) (session_stream platform (sevens_source ∷ [])),
      ))
    × ((ctx : Context) × ((console_modem_rx_zmodem platform stale_none empty_disk at_once none
              (arriving 0 (session_stream platform (sevens_source ∷ [])))
            ≡ some (pos 0, ctx))
          × (ctx.closed ≡ stored_files at_once (sevens_source ∷ []))))
console_rx_zmodem-WillStore_example =
    console_rx_zmodem-WillStore platform stale_none empty_disk at_once none
      (zmodem_tx_get_file_metadata (b'/' ∷ b'a' ∷ []) (length (replicate {A = ℕ} 1500 7)))
      (zmodem_tx_read_file_bytes sevens (b'/' ∷ b'a' ∷ [])) (sevens_source ∷ []) 0
      platform-IsPlatform (sevens_source-IsSource, tt)
      (source-Serves sevens (b'/' ∷ b'a' ∷ []) (replicate 1500 7) sevens_source-named sevens-Reads)
      (empty_disk-WillStore _, tt) (at_once-Passes _)

console_tx_zmodem-console_rx_zmodem_example :
    (console_modem_tx_zmodem platform sevens at_once
        (some (b'/' ∷ b'a' ∷ []))
        (arriving 0 (session_answers platform (sevens_source ∷ [])))
      ≡ some (
        pos 0,
        Turns.line (Turns.end_of_line platform []) (session_stream platform (sevens_source ∷ [])),
      ))
    × ((ctx : Context) × ((console_modem_rx_zmodem platform stale_none empty_disk at_once none
              (arriving 0 (session_stream platform (sevens_source ∷ [])))
            ≡ some (pos 0, ctx))
          × (ctx.closed
              ≡ (full_path at_once (sent_name (b'/' ∷ b'a' ∷ [])), replicate 1500 7) ∷ [])))
unfolding open_input_file
console_tx_zmodem-console_rx_zmodem_example =
    console_tx_zmodem-console_rx_zmodem platform stale_none sevens empty_disk at_once at_once
      (b'/' ∷ b'a' ∷ []) (replicate 1500 7) none 0 0 platform-IsPlatform sevens_source-IsSource
      (ap some (sym (length-replicate {A = ℕ} 1500 7))) sevens-Reads (empty_disk-WillStore _)
      (at_once-Passes _) (at_once-Passes _)

abbrev two_commands : List (List ℕ × List ℕ)
two_commands =
    (b'r' ∷ b'e' ∷ b't' ∷ b'r' ∷ b'i' ∷ b'e' ∷ b's' ∷ [], b'3' ∷ b'0' ∷ b'0' ∷ [])
    ∷ (b'n' ∷ b'f' ∷ b'c' ∷ [], b'1' ∷ [])
    ∷ []

cmd_modem_config-IsSettings_example :
    IsSettings (configure two_commands default_settings)
    × ◌≡◌ {A = ℤ × List Value}
        (
          (cmd_modem_config
              (b'n' ∷ b'f' ∷ b'c' ∷ [])
              (b'1' ∷ [])
              (configure two_commands default_settings)).0,
          values
              (cmd_modem_config
                (b'n' ∷ b'f' ∷ b'c' ∷ [])
                (b'1' ∷ [])
                (configure two_commands default_settings)).1,
        )
        (expected
          (look_up table (b'n' ∷ b'f' ∷ b'c' ∷ []))
          (b'1' ∷ [])
          (values (configure two_commands default_settings)))
cmd_modem_config-IsSettings_example =
    cmd_modem_config-IsSettings two_commands (b'n' ∷ b'f' ∷ b'c' ∷ []) (b'1' ∷ [])
