-- ===== src/NfcTransport/Examples.antt =====
-- Two transports with empty rings and the field on.
use zephyr_zyx_modem.Base.{ℕ, true, none, some, List, [], ◌∷◌, ◌++◌, ◌≡◌, refl, pos, negsuc, arith}
use zephyr_zyx_modem.Ring.{zeroed}
use zephyr_zyx_modem.Ring.Queue.{Holds, zeroed-Holds}
use zephyr_zyx_modem.Ring.Bounded.{bounded}
use zephyr_zyx_modem.NfcTransport.Record.{
  Nfc, default_config, no_stats, nfc_transport_encode_ndef_record,
}
use zephyr_zyx_modem.NfcTransport.Receive.{nfc_transport_rx_callback, nfc_transport_read_byte}
use zephyr_zyx_modem.NfcTransport.Transmit.{nfc_transport_write_bytes}
use zephyr_zyx_modem.NfcTransport.Roundtrip.{
  IsReady, rx_callback-encode_ndef_record, rx_callback-write_bytes,
}
use zephyr_zyx_modem.NfcTransport.Poll.{outcome, quiet, arrival, field_loss, read_byte-wait}

abbrev idle : Nfc
idle = record {
  rx = zeroed 1024;
  tx = zeroed 1024;
  field_active = true;
  emulation_running = true;
  config = record default_config { raw_tx_cb = true };
  stats = no_stats;
  published = [];
}

abbrev greeting : List ℕ
greeting = b'h' ∷ b'i' ∷ []

rx_callback-encode_ndef_record_example :
    (ndef : List ℕ) × (((nfc_transport_encode_ndef_record (some greeting) 512 idle).1.0 ≡ some ndef)
      × Holds 1024 (bounded 1024 [] greeting) (nfc_transport_rx_callback (some ndef) idle).rx)
rx_callback-encode_ndef_record_example =
    rx_callback-encode_ndef_record idle idle greeting [] 512 (omega arith) (omega arith)
      (omega arith) (zeroed-Holds 1024 (omega arith))

rx_callback-write_bytes_example :
    (ndef : List ℕ) × (((nfc_transport_write_bytes (some greeting) idle).0 ≡ pos 0)
      × (((nfc_transport_write_bytes (some greeting) idle).1.published ≡ [] ++ (ndef ∷ []))
          × (IsReady (nfc_transport_write_bytes (some greeting) idle).1
              × Holds 1024
                  (bounded 1024 [] greeting)
                  (nfc_transport_rx_callback (some ndef) idle).rx)))
rx_callback-write_bytes_example =
    rx_callback-write_bytes idle idle greeting []
      (record { field_on = refl; framing = refl; drained = zeroed-Holds 1024 (omega arith) })
      (omega arith) (omega arith) (zeroed-Holds 1024 (omega arith))

read_byte-wait_example :
    ((nfc' : Nfc) × ((nfc_transport_read_byte 100
            (quiet (0 ∷ 5 ∷ []) ++ (arrival (b'h' ∷ b'i' ∷ []) 10 ∷ []))
            idle
          ≡ some (pos 0, (some b'h', nfc')))
        × Holds 1024 (b'i' ∷ []) nfc'.rx))
    × ((outcome (nfc_transport_read_byte 100 (quiet (0 ∷ 5 ∷ []) ++ (field_loss 10 ∷ [])) idle)
          ≡ some (negsuc 1, none))
        × ((nfc_transport_read_byte 100 (quiet (0 ∷ 5 ∷ [])) idle ≡ none)
            × (outcome (
                  nfc_transport_read_byte 100
                    (quiet (0 ∷ 5 ∷ []) ++ (arrival (b'h' ∷ b'i' ∷ []) 101 ∷ []))
                    idle)
                ≡ some (negsuc 0, none))))
read_byte-wait_example =
    read_byte-wait 100 10 101 b'h' (0 ∷ 5 ∷ []) (b'i' ∷ []) [] idle (omega arith, (omega arith, tt))
      (omega arith) (omega arith) (omega arith) refl (zeroed-Holds 1024 (omega arith)) (omega arith)
