-- ===== src/Zmodem/Session/Both.antt =====
-- The two engines on one line.
use zephyr_zyx_modem.Base.{
  ℕ, ◌≡◌, ap, ◌∙◌, sym, Option, some, List, [], ◌∷◌, ◌++◌, append_assoc, All,
}
use zephyr_zyx_modem.Io.{bytes_of}
use zephyr_zyx_modem.Io.Laws.{bytes_of-append}
use zephyr_zyx_modem.Zmodem.Platform.{Platform, IsPlatform}
use zephyr_zyx_modem.Zmodem.{FileInfo, ok, zrqinit, zrinit, zfin, zero_flags}
use zephyr_zyx_modem.Zmodem.Headers.Laws.{hex_tail}
use zephyr_zyx_modem.Zmodem.Receive.{Event, zmodem_receive}
use zephyr_zyx_modem.Zmodem.Transmit.{hex_header, zmodem_transmit}
use zephyr_zyx_modem.Zmodem.Session.{Source, IsSource, batch_stream, batch_events, batch_answers}
use zephyr_zyx_modem.Zmodem.Session.Data.{all_callbacks, state}
use zephyr_zyx_modem.Zmodem.Session.Batch.{zmodem_receive-batch}
use zephyr_zyx_modem.Zmodem.Session.Turns.{Serves, line, end_of_line}
use zephyr_zyx_modem.Zmodem.Session.Answers.{all_callbacks_tx, zmodem_transmit-batch}

-- what the transmitter sends in a session
abbrev pub session_stream : Platform → List Source → List ℕ
session_stream svc fs =
    hex_header svc zrqinit zero_flags ++ (batch_stream svc fs ++ (b'O' ∷ b'O' ∷ []))

-- what the receiver sends behind the ZRINIT of its start
abbrev pub session_answers : Platform → List Source → List ℕ
session_answers svc fs = hex_header svc zrinit zero_flags ++ batch_answers svc fs

-- A whole session, in which the line loses the receiver's first ZRINIT and nothing else. The
-- transmitter reads all the rest that the receiver sends, the receiver reads all that the
-- transmitter sends, both return ZMODEM_OK, and the receiver hands on each file: its information,
-- its bytes in pieces of 1024 at their offsets, and its end. Each file has a name of 1 to 200 bytes
-- without a NUL, is not empty and is shorter than 2^64 bytes, and the application gives its bytes
-- wherever they are asked for; every callback is there; the CRC service returns 16-bit words; and the
-- memory behind the 20-byte buffer of `send_hex_header` keeps the XON that is stored there.
pub zmodem_session :
    (svc : Platform)
    → IsPlatform svc
    → (stale : List Event → List ℕ) (get_file_info : ℕ → Option FileInfo)
      (read_data : ℕ → ℕ → ℕ → List ℕ) (fs : List Source)
    → All IsSource fs
    → Serves get_file_info read_data 0 fs
    → (zmodem_transmit svc get_file_info read_data
          (some all_callbacks_tx)
          (line (bytes_of (session_answers svc fs) ++ []) [])
        ≡ some (ok, line (end_of_line svc []) (session_stream svc fs)))
      × (zmodem_receive svc stale
            (some all_callbacks)
            (record { input = bytes_of (session_stream svc fs) ++ []; sent = [] })
          ≡ some (
            ok,
            state
                (bytes_of (hex_tail svc zfin) ++ (bytes_of (b'O' ∷ b'O' ∷ []) ++ []))
                (hex_header svc zrinit zero_flags ++ session_answers svc fs)
                (batch_events fs),
          ))
zmodem_session svc w stale get_file_info read_data fs are serves =
    let rqinit = hex_header svc zrqinit zero_flags in
    let oo : List ℕ = b'O' ∷ b'O' ∷ [] in
    let same : bytes_of (session_stream svc fs) ++ []
        ≡ bytes_of (rqinit ++ batch_stream svc fs) ++ (bytes_of oo ++ []) =
      ap (λ l. bytes_of l ++ []) (sym (append_assoc rqinit (batch_stream svc fs) oo))
      ∙ bytes_of-append (rqinit ++ batch_stream svc fs) oo [] in
    (
      zmodem_transmit-batch svc w get_file_info read_data fs [] are serves,
      ap (λ l. zmodem_receive svc stale (some all_callbacks) (record { input = l; sent = [] })) same
          ∙ zmodem_receive-batch svc w stale fs (bytes_of oo ++ []) are,
    )
