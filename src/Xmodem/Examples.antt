-- ===== src/Xmodem/Examples.antt =====
-- The theorems on XMODEM at concrete inputs, and runs of the two engines.
use zephyr_zyx_modem.Base.{
  ℕ, ◌≡◌, refl, inl, Bool, true, Option, none, some, List, [], ◌∷◌, ◌++◌, arith, replicate,
}
use zephyr_zyx_modem.Samples.{sum16, sums, sums-HasWidths}
use zephyr_zyx_modem.Io.{byte, Io, bytes_of}
use zephyr_zyx_modem.Xmodem.{
  Config, Callbacks, Block, ok, standard, eot, ack, config_init, crc_request,
}
use zephyr_zyx_modem.Xmodem.Frame.{frames}
use zephyr_zyx_modem.Xmodem.Receive.{Result, receive_start, receive_loop, xmodem_receive}
use zephyr_zyx_modem.Xmodem.Receive.Progress.{xmodem_receive-returns, receive_loop-silent_forever}
use zephyr_zyx_modem.Xmodem.Receive.Transfer.{xmodem_receive-frames}
use zephyr_zyx_modem.Xmodem.Receive.Sound.Delivery.{IsSound, xmodem_receive-IsSound}
use zephyr_zyx_modem.Xmodem.Transmit.{overlay, padding, xmodem_transmit}
use zephyr_zyx_modem.Xmodem.Transmit.Acks.{xmodem_transmit-acks}
use zephyr_zyx_modem.Xmodem.Session.{
  from_file, contents, line, to_receiver, to_transmitter, xmodem_session, xmodem_session-file,
}

abbrev all_set : Option Callbacks
all_set = some (record { read_byte = true; write_bytes = true; data_cb = true })

abbrev checksum_config : Config
checksum_config = record config_init { mode = standard }

abbrev takes_any : List Block → Block → Bool
takes_any past b = true

abbrev hello : List ℕ
hello = b'h' ∷ b'i' ∷ []

abbrev hello_block : Block
hello_block = record { num = 1; payload = b'h' ∷ b'i' ∷ replicate 126 padding }

xmodem_session-file_example :
    (r : Result) × (xmodem_transmit sums
        (from_file hello)
        2
        all_set
        2
        (some checksum_config)
        (line r.final.sent)
      ≡ some (ok, record { input = []; sent = to_receiver sums true (hello_block ∷ []) }))
    × (xmodem_receive sums takes_any all_set none (line (to_receiver sums true (hello_block ∷ [])))
        ≡ some r)
    × (r.status ≡ ok)
    × (r.total_received ≡ some 128)
    × (contents r.received ≡ hello ++ replicate 126 padding)
unfolding overlay
xmodem_session-file_example =
    xmodem_session-file sums takes_any sums-HasWidths hello all_set all_set (some checksum_config)
      none 1 2 refl refl (omega arith) (omega arith) (omega arith) (omega arith) (omega arith)
      (omega arith) (λ past b. refl)

xmodem_session_example :
    (xmodem_transmit sums
        (from_file hello)
        2
        all_set
        2
        (some checksum_config)
        (line (to_transmitter true (hello_block ∷ [])))
      ≡ some (ok, record { input = []; sent = to_receiver sums true (hello_block ∷ []) }))
    × (xmodem_receive sums takes_any all_set none (line (to_receiver sums true (hello_block ∷ [])))
        ≡ some (record {
          status = ok;
          total_received = some 128;
          final = record { input = []; sent = to_transmitter true (hello_block ∷ []) };
          received = hello_block ∷ [];
        }))
unfolding overlay
xmodem_session_example =
    xmodem_session sums takes_any sums-HasWidths (from_file hello) all_set all_set
      (some checksum_config) none 2 1 2 refl refl (omega arith) (omega arith) (omega arith)
      (omega arith) (omega arith) (refl, tt) (refl, tt)

-- the line of a receiver that is given one block and then an EOT
abbrev one_block : Io
one_block = record {
  input = bytes_of (frames sums true (hello_block ∷ [])) ++ (byte eot ∷ []);
  sent = [];
}

abbrev one_block_result : Result
one_block_result = record {
  status = ok;
  total_received = some 128;
  final = record { input = []; sent = crc_request ∷ ack ∷ ack ∷ [] };
  received = hello_block ∷ [];
}

xmodem_receive-frames_example :
    xmodem_receive sums takes_any all_set none one_block ≡ some one_block_result
xmodem_receive-frames_example =
    xmodem_receive-frames sums takes_any sums-HasWidths all_set none (hello_block ∷ []) [] refl
      (omega arith) (record { num_fits = omega arith; size = inl refl }, tt) (refl, tt) (refl, tt)

xmodem_receive-IsSound_example : IsSound sums takes_any one_block.input one_block_result
unfolding sum16
xmodem_receive-IsSound_example =
    xmodem_receive-IsSound sums takes_any all_set none one_block one_block_result (omega arith)
      xmodem_receive-frames_example

xmodem_receive-returns_example :
    (r : Result) × (xmodem_receive sums takes_any all_set none one_block ≡ some r)
xmodem_receive-returns_example =
    xmodem_receive-returns sums takes_any all_set none one_block (omega arith)

abbrev patient : Config
patient = record config_init { max_retries = 255 }

receive_loop-silent_forever_example :
    receive_loop sums takes_any 10000 patient
      (receive_start patient (record { input = []; sent = [] }))
    ≡ none
unfolding receive_start
receive_loop-silent_forever_example =
    receive_loop-silent_forever sums takes_any 10000 patient
      (receive_start patient (record { input = []; sent = [] })) refl refl

xmodem_transmit-acks_example :
    xmodem_transmit sums
      (from_file hello)
      2
      all_set
      2
      (some checksum_config)
      (line (to_transmitter true (hello_block ∷ [])))
    ≡ some (ok, record { input = []; sent = to_receiver sums true (hello_block ∷ []) })
unfolding overlay
xmodem_transmit-acks_example =
    xmodem_transmit-acks sums (from_file hello) all_set (some checksum_config) 2 1 2 true [] refl
      (omega arith) (omega arith) (omega arith) (omega arith) (omega arith) (refl, tt)
