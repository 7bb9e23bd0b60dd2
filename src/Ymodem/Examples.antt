-- ===== src/Ymodem/Examples.antt =====
-- The YMODEM theorems at concrete inputs.
use zephyr_zyx_modem.Base.{
  ℕ, ◌≡◌, inl, refl, ◌++◌, ◌-◌, min, true, ◌&&◌, List, [], ◌∷◌, arith, length, replicate,
  length-replicate, ltb, ◌==◌, leb, ◌^◌, if◌then◌else◌, add_u8, add_size,
}
use zephyr_zyx_modem.Samples.{sums, sums-HasWidths}
use zephyr_zyx_modem.Io.{failed, bytes_of}
use zephyr_zyx_modem.Xmodem.{ack}
use zephyr_zyx_modem.Ymodem.{FileInfo, parse_block0, block0}
use zephyr_zyx_modem.Ymodem.Info.{parse_block0-block0}
use zephyr_zyx_modem.Ymodem.Receive.{
  Callbacks, data_at, receiving, continue, write_len, receive_round,
}
use zephyr_zyx_modem.Ymodem.Receive.{Rx, ymodem_receive}
use zephyr_zyx_modem.Ymodem.Receive.Returns.{ymodem_receive-returns}
use zephyr_zyx_modem.Base.{some}
use zephyr_zyx_modem.Io.{byte}
use zephyr_zyx_modem.Ymodem.{Status}
use zephyr_zyx_modem.Ymodem.Receive.Accept.{write_len-min, receive_round-packet}
use zephyr_zyx_modem.Ymodem.Transmit.{packet}

abbrev notes : FileInfo
notes = record { filename = b'a' ∷ b'b' ∷ []; size = 1500 }

parse_block0-block0_example : parse_block0 (block0 notes) 128 ≡ notes
parse_block0-block0_example =
    parse_block0-block0 notes (omega arith) (omega arith) (refl, (refl, tt)) (omega arith)

write_len-min_example : write_len notes 1600 128 ≡ (
    if notes.size == 0
    then 128
    else (if leb 1600 notes.size
        then min 128 (notes.size - 1600)
        else 2 ^ 64 - (1600 - notes.size)))
write_len-min_example = write_len-min notes 1600 128 (omega arith) (omega arith)

abbrev listening : Callbacks
listening = record {
  read_byte = true;
  write_bytes = true;
  on_file_start = true;
  on_data = true;
  on_file_end = true;
}

abbrev sevens : List ℕ
sevens = replicate 128 7

receive_round-packet_example :
    receive_round sums listening (receiving notes 3 255 1408) (record {
      io = record { input = bytes_of (packet sums 255 sevens) ++ (failed ∷ []); sent = [] };
      events = [];
    })
    ≡ continue (receiving notes 0 (add_u8 255 1) (add_size 1408 (length sevens))) (record {
      io = record { input = failed ∷ []; sent = [] ++ (ack ∷ []) };
      events =
          if listening.on_data && ltb 0 (write_len notes 1408 (length sevens))
          then [] ++ (data_at sevens (write_len notes 1408 (length sevens)) 1408 ∷ [])
          else [];
    })
receive_round-packet_example =
    receive_round-packet sums sums-HasWidths listening notes 3 255 1408 sevens (failed ∷ []) [] []
      (inl (length-replicate {A = ℕ} 128 7))

ymodem_receive-returns_example :
    (r : Status × Rx) × (ymodem_receive sums
        (some listening)
        (record { input = byte 1 ∷ failed ∷ []; sent = [] })
      ≡ some r)
ymodem_receive-returns_example =
    ymodem_receive-returns sums (some listening)
      (record { input = byte 1 ∷ failed ∷ []; sent = [] })
