-- ===== src/Console/Transmit/Relay.antt =====
-- A file goes by ZMODEM from the console of one device to the console of another.
use zephyr_zyx_modem.Base.{
  ℕ, ◌≤◌, ◌≡◌, ◌∙◌, refl, ap, true, Option, none, some, List, [], ◌∷◌, ◌++◌, length, ℤ, pos, negsuc,
  arith,
}
use zephyr_zyx_modem.Io.{Io, bytes_of}
use zephyr_zyx_modem.Zmodem.Platform.{Platform, IsPlatform}
use zephyr_zyx_modem.Zmodem.{FileInfo}
use zephyr_zyx_modem.Zmodem.Receive.{Event}
use zephyr_zyx_modem.Zmodem.Transmit.{zmodem_transmit, named}
use zephyr_zyx_modem.Zmodem.Session.{Source, IsSource}
use zephyr_zyx_modem.Zmodem.Session.Pieces.{Reads}
use zephyr_zyx_modem.Zmodem.Session.Turns.{Serves, line, end_of_line}
use zephyr_zyx_modem.Zmodem.Session.Both.{session_stream, session_answers}
use zephyr_zyx_modem.Console.{Settings}
use zephyr_zyx_modem.Console.Abort.{Passes, arriving, console_line-arriving}
use zephyr_zyx_modem.Console.Files.{FileSystem, Context, full_path}
use zephyr_zyx_modem.Console.Stored.{WillStore}
use zephyr_zyx_modem.Console.Zmodem.{console_modem_rx_zmodem}
use zephyr_zyx_modem.Console.Zmodem.Stores.{console_rx_zmodem-WillStore}
use zephyr_zyx_modem.Console.Transmit.{
  InputFiles, open_input_file, sent_name, zmodem_tx_get_file_metadata, zmodem_tx_read_file_bytes,
  zmodem_sent, tx_zmodem_over, console_modem_tx_zmodem,
}

-- the file as the protocol carries it
abbrev pub source : List ℕ → List ℕ → Source
source path contents = record {
  info = record { filename = sent_name path; size = length contents };
  contents = contents;
}

named-some :
    (info : FileInfo) (name : List ℕ) (size : ℕ)
    → 1 ≤ length name
    → named (some (record { filename = name; size = size }))
      ≡ some (record { filename = name; size = size })
named-some info [] size h = absurd (omega (arith, h))
named-some info (c ∷ cs) size h = refl

pub source-Serves :
    (files : InputFiles) (path contents : List ℕ)
    → 1 ≤ length (sent_name path)
    → Reads (files.buffer path) contents
    → Serves
        (zmodem_tx_get_file_metadata path (length contents))
        (zmodem_tx_read_file_bytes files path)
        0
        (source path contents ∷ [])
unfolding zmodem_tx_get_file_metadata
source-Serves files path contents h reads =
    (named-some (source path contents).info (sent_name path) (length contents) h, (reads, refl))

-- The console of one device transmits a file by ZMODEM and the console of another is told to
-- receive, where the line loses the receiver's first ZRINIT and nothing else, and the receiver's
-- file system takes what it is given. Both consoles return 0, and the receiver has closed one file,
-- at the sent name within its target directory, with all the bytes of the file as the
-- transmitter's file system holds it. Both consoles read with `console_read_byte`: of each, the ring
-- buffer is on and holds each byte when it is asked for, and the abort key is off, or what it reads
-- holds neither the abort key nor two CAN bytes in a row. The receiver writes at once (async_storage
-- is off). The sent name has 1 to 200 bytes without a NUL, the file is not empty and shorter
-- than 2^64 bytes, the CRC service returns 16-bit words, and the memory behind the 20-byte buffer of
-- `send_hex_header` keeps the XON that is stored there.
pub console_tx_zmodem-console_rx_zmodem :
    (svc : Platform) (stale : List Event → List ℕ) (files : InputFiles) (fs : FileSystem)
    (settings tx_settings : Settings) (path contents : List ℕ) (name : Option (List ℕ))
    (cans tx_cans : ℕ)
    → IsPlatform svc
    → IsSource (source path contents)
    → open_input_file files path ≡ some (length contents)
    → Reads (files.buffer path) contents
    → WillStore fs settings (sent_name path)
    → Passes settings cans (session_stream svc (source path contents ∷ []))
    → Passes tx_settings tx_cans (session_answers svc (source path contents ∷ []))
    → (console_modem_tx_zmodem svc files tx_settings
          (some path)
          (arriving tx_cans (session_answers svc (source path contents ∷ [])))
        ≡ some (pos 0, line (end_of_line svc []) (session_stream svc (source path contents ∷ []))))
      × ((ctx : Context) × ((console_modem_rx_zmodem svc stale fs settings name
                (arriving cans (session_stream svc (source path contents ∷ [])))
              ≡ some (pos 0, ctx))
            × (ctx.closed ≡ (full_path settings (sent_name path), contents) ∷ [])))
unfolding tx_zmodem_over
console_tx_zmodem-console_rx_zmodem svc stale files fs settings tx_settings path contents name cans
      tx_cans w is opens reads will passes tx_passes =
    let src = source path contents in
    let (sends, receives) =
      console_rx_zmodem-WillStore svc stale fs settings name
        (zmodem_tx_get_file_metadata path (length contents)) (zmodem_tx_read_file_bytes files path)
        (src ∷ []) cans w (is, tt) (source-Serves files path contents is.named reads) (will, tt)
        passes in
    (
      ap (tx_zmodem_over svc files (some path))
            (console_line-arriving tx_settings tx_cans (session_answers svc (src ∷ [])) tx_passes)
          ∙ ap
              (λ (o : Option ℕ). elim o as (λ x. Option (ℤ × Io)) [
                | none ↦ some (negsuc 0, line (bytes_of (session_answers svc (src ∷ [])) ++ []) [])
                | some n ↦ zmodem_sent (
                    zmodem_transmit svc (zmodem_tx_get_file_metadata path n)
                      (zmodem_tx_read_file_bytes files path)
                      (some (record {
                        read_byte = true;
                        write_bytes = true;
                        get_file_info = true;
                        read_data = true;
                      }))
                      (line (bytes_of (session_answers svc (src ∷ [])) ++ []) []))
              ])
              opens
          ∙ ap zmodem_sent sends,
      receives,
    )
