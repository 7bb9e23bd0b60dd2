-- ===== src/Zmodem/Examples.antt =====
-- Tests of the ZMODEM engine, and the theorems at concrete inputs.
use zephyr_zyx_modem.Base.{
  ℕ, ◌≡◌, refl, sym, ◌++◌, ◌/◌, ◌+◌, false, some, Option, List, [], ◌∷◌, arith, replicate,
  length-replicate, length, drop,
}
use zephyr_zyx_modem.Samples.{sums, sums-HasWidths}
use zephyr_zyx_modem.Zmodem.Samples.{platform, platform-IsPlatform}
use zephyr_zyx_modem.Io.{byte, failed, bytes_of}
use zephyr_zyx_modem.Zmodem.{
  FileInfo, Header, Status, ok, zrqinit, zrinit, zfin, zfile, zcrcw, zero_flags,
}
use zephyr_zyx_modem.Zmodem.Escape.{read_zdle_byte_rx, read_zdle_byte_tx}
use zephyr_zyx_modem.Zmodem.Escape.Laws.{read_zdle_byte_rx-ReadsBack}
use zephyr_zyx_modem.Zmodem.Headers.{send_hex_header, send_binary_header, read_header}
use zephyr_zyx_modem.Zmodem.Headers.Laws.{
  IsHeader, hex_tail, read_header-send_binary_header, read_header-send_hex_header,
}
use zephyr_zyx_modem.Zmodem.Subpacket.{Subpacket, send_subpacket, read_subpacket_rx}
use zephyr_zyx_modem.Zmodem.Subpacket.Laws.{read_subpacket_rx-send_subpacket}
use zephyr_zyx_modem.Zmodem.Receive.{Event, Rx, file_info, zmodem_receive}
use zephyr_zyx_modem.Zmodem.Receive.Returns.{zmodem_receive-returns}
use zephyr_zyx_modem.Zmodem.Transmit.{file_subpacket, hex_header, data_subpackets}
use zephyr_zyx_modem.Zmodem.Session.{Source, IsSource, batch_stream, batch_events, batch_answers}
use zephyr_zyx_modem.Zmodem.Session.Info.{file_info-file_subpacket}
use zephyr_zyx_modem.Zmodem.Session.Data.{all_callbacks, state}
use zephyr_zyx_modem.Zmodem.Session.Batch.{zmodem_receive-batch}
use zephyr_zyx_modem.Base.{zero, suc, none}
use zephyr_zyx_modem.Zmodem.{error_timeout}
use zephyr_zyx_modem.Zmodem.Transmit.{binary_header, zmodem_transmit}
use zephyr_zyx_modem.Zmodem.Session.Turns.{Serves, line, end_of_line}
use zephyr_zyx_modem.Zmodem.Session.Answers.{
  all_callbacks_tx, zmodem_transmit-batch, zmodem_transmit_two_zrinit,
}
use zephyr_zyx_modem.Zmodem.Session.Both.{session_stream, session_answers, zmodem_session}
use zephyr_zyx_modem.Zmodem.Session.Contents.{payloads, read_from, data_subpackets-contents}

abbrev position : Header
position = record { kind = 9; flags = 0x18 ∷ 0x11 ∷ 0x81 ∷ 0 ∷ [] }

position-IsHeader : IsHeader position
position-IsHeader = record {
  kind_fits = omega arith;
  flags_fit = (omega arith, (omega arith, (omega arith, (omega arith, tt))));
  four = refl;
}

read_header-send_binary_header_example :
    read_header sums read_zdle_byte_rx
      (bytes_of (send_binary_header sums position) ++ (byte 0x7F ∷ failed ∷ []))
    ≡ (some (record { header = position; is_crc32 = false }), byte 0x7F ∷ failed ∷ [])
read_header-send_binary_header_example =
    read_header-send_binary_header sums sums-HasWidths read_zdle_byte_rx read_zdle_byte_rx-ReadsBack
      position position-IsHeader (byte 0x7F ∷ failed ∷ [])

read_header-send_hex_header_example :
    read_header platform.crc read_zdle_byte_tx (bytes_of (send_hex_header platform position) ++ [])
    ≡ (some (record { header = position; is_crc32 = false }), bytes_of (hex_tail platform 9) ++ [])
read_header-send_hex_header_example =
    read_header-send_hex_header platform sums-HasWidths read_zdle_byte_tx position position-IsHeader
      []

abbrev escaped_data : Subpacket
escaped_data = record { payload = 0x18 ∷ 0x13 ∷ 0x83 ∷ 0x41 ∷ []; ending = zcrcw }

read_subpacket_rx-send_subpacket_example :
    read_subpacket_rx sums 1024 false (bytes_of (send_subpacket sums escaped_data) ++ (failed ∷ []))
    ≡ (some escaped_data, failed ∷ [])
read_subpacket_rx-send_subpacket_example =
    read_subpacket_rx-send_subpacket sums sums-HasWidths 1024 escaped_data (failed ∷ []) refl
      (omega arith)

abbrev notes : FileInfo
notes = record { filename = b'a' ∷ b'b' ∷ []; size = 1500 }

file_info-file_subpacket_example : file_info (b'7' ∷ []) (file_subpacket notes).payload ≡ notes
file_info-file_subpacket_example =
    file_info-file_subpacket (b'7' ∷ []) notes (omega arith) (refl, (refl, tt)) (omega arith)

abbrev nothing_stale : List Event → List ℕ
nothing_stale events = []

zmodem_receive-returns_example :
    (r : Status × Rx) × (zmodem_receive platform nothing_stale
        (some all_callbacks)
        (record { input = byte 0x2A ∷ failed ∷ []; sent = [] })
      ≡ some r)
zmodem_receive-returns_example =
    zmodem_receive-returns platform nothing_stale (some all_callbacks)
      (record { input = byte 0x2A ∷ failed ∷ []; sent = [] })

abbrev sevens : Source
sevens = record { info = notes; contents = replicate 1500 7 }

sevens-IsSource : IsSource sevens
sevens-IsSource = record {
  named = omega arith;
  short_name = omega arith;
  no_nul = (refl, (refl, tt));
  nonempty = omega arith;
  size_fits = omega arith;
  sized = sym (length-replicate {A = ℕ} 1500 7);
}

zmodem_receive-batch_example :
    zmodem_receive platform nothing_stale (some all_callbacks) (record {
      input =
          bytes_of (hex_header platform zrqinit zero_flags ++ batch_stream platform (sevens ∷ []))
          ++ [];
      sent = [];
    })
    ≡ some (
      ok,
      state
          (bytes_of (hex_tail platform zfin) ++ [])
          (hex_header platform zrinit zero_flags
            ++ (hex_header platform zrinit zero_flags ++ batch_answers platform (sevens ∷ [])))
          (batch_events (sevens ∷ [])),
    )
zmodem_receive-batch_example =
    zmodem_receive-batch platform platform-IsPlatform nothing_stale (sevens ∷ []) []
      (sevens-IsSource, tt)

abbrev one_two_three : List ℕ
one_two_three = 1 ∷ 2 ∷ 3 ∷ []

data_subpackets-contents_example :
    payloads (
      data_subpackets
        (length one_two_three / 1024 + 1)
        (read_from one_two_three)
        1
        (length one_two_three))
    ≡ drop 1 one_two_three
data_subpackets-contents_example = data_subpackets-contents one_two_three 1

abbrev sevens_info : ℕ → Option FileInfo
sevens_info zero = some notes
sevens_info (suc n) = none

abbrev sevens_data : ℕ → ℕ → ℕ → List ℕ
sevens_data idx = read_from (replicate 1500 7)

sevens-Serves : Serves sevens_info sevens_data 0 (sevens ∷ [])
sevens-Serves = (refl, (record { within = λ offset n h. refl }, refl))

zmodem_session_example :
    (zmodem_transmit platform sevens_info sevens_data
        (some all_callbacks_tx)
        (line (bytes_of (session_answers platform (sevens ∷ [])) ++ []) [])
      ≡ some (ok, line (end_of_line platform []) (session_stream platform (sevens ∷ []))))
    × (zmodem_receive platform nothing_stale
          (some all_callbacks)
          (record { input = bytes_of (session_stream platform (sevens ∷ [])) ++ []; sent = [] })
        ≡ some (
          ok,
          state
              (bytes_of (hex_tail platform zfin) ++ (bytes_of (b'O' ∷ b'O' ∷ []) ++ []))
              (hex_header platform zrinit zero_flags ++ session_answers platform (sevens ∷ []))
              (batch_events (sevens ∷ [])),
        ))
zmodem_session_example =
    zmodem_session platform platform-IsPlatform nothing_stale sevens_info sevens_data (sevens ∷ [])
      (sevens-IsSource, tt) sevens-Serves

zmodem_transmit-batch_example :
    zmodem_transmit platform sevens_info sevens_data (some all_callbacks_tx) (
      line
        (bytes_of (hex_header platform zrinit zero_flags ++ batch_answers platform (sevens ∷ []))
          ++ (failed ∷ []))
        [])
    ≡ some (
      ok,
      line (end_of_line platform (failed ∷ [])) (
          hex_header platform zrqinit zero_flags
          ++ (batch_stream platform (sevens ∷ []) ++ (b'O' ∷ b'O' ∷ []))),
    )
zmodem_transmit-batch_example =
    zmodem_transmit-batch platform platform-IsPlatform sevens_info sevens_data (sevens ∷ [])
      (failed ∷ []) (sevens-IsSource, tt) sevens-Serves

zmodem_transmit_two_zrinit_example :
    zmodem_transmit platform sevens_info sevens_data (some all_callbacks_tx) (
      line
        (bytes_of (
            hex_header platform zrinit zero_flags
            ++ (hex_header platform zrinit zero_flags ++ batch_answers platform (sevens ∷ [])))
          ++ [])
        [])
    ≡ some (
      error_timeout,
      line
          (bytes_of (hex_tail platform zrinit)
            ++ (bytes_of (batch_answers platform (sevens ∷ [])) ++ []))
          ((hex_header platform zrqinit zero_flags ++ binary_header platform.crc zfile zero_flags)
            ++ send_subpacket platform.crc (file_subpacket notes)),
    )
zmodem_transmit_two_zrinit_example =
    zmodem_transmit_two_zrinit platform platform-IsPlatform sevens_info sevens_data (sevens ∷ []) []
      notes refl
