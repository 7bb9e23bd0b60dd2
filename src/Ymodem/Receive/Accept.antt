-- ===== src/Ymodem/Receive/Accept.antt =====
-- The blocks that `ymodem_transmit` sends, as `ymodem_receive` takes them.
use zephyr_zyx_modem.Base.{
  ℕ, ◌+◌, ◌-◌, ◌/◌, ◌%◌, ◌<◌, ◌^◌, ◌≡◌, ◌⊎◌, inl, inr, refl, ap, ◌∙◌, subst, min, true, ◌&&◌, some,
  List, [], ◌∷◌, ◌++◌, arith, length, ltb, ◌==◌, ==_refl, leb, if◌then◌else◌, add_u8, add_size,
}
use zephyr_zyx_modem.Io.{Read, byte, bytes_of, full, read_payload}
use zephyr_zyx_modem.Io.Laws.{bytes_of-append, read_payload-bytes_of}
use zephyr_zyx_modem.Crc.{
  CrcService, HasWidths, crc16_bytes, join16, join16-crc16_bytes, modem_crc16,
}
use zephyr_zyx_modem.Xmodem.{soh, stx, ack}
use zephyr_zyx_modem.Ymodem.{FileInfo, two_bytes}
use zephyr_zyx_modem.Ymodem.Receive.{
  Callbacks, Event, data_at, receiving, Next, continue, checked_packet, read_packet, write_len,
  receive_packet, receive_data, receive_round,
}
use zephyr_zyx_modem.Ymodem.Transmit.{packet}

-- Below 2^64, the write length of a block is the whole block when the announced size is 0; the
-- smaller of the block and what the size leaves when the block starts within the size; and, when it
-- starts behind it, 2^64 less the distance, which the code passes to on_data as a length.
pub write_len-min :
    (info : FileInfo) (file_offset blk_size : ℕ)
    → info.size < 2 ^ 64
    → file_offset + blk_size < 2 ^ 64
    → write_len info file_offset blk_size ≡ (
        if info.size == 0
        then blk_size
        else (if leb file_offset info.size
            then min blk_size (info.size - file_offset)
            else 2 ^ 64 - (file_offset - info.size)))
write_len-min info file_offset blk_size h k = ground arith

read_packet-bytes :
    (svc : CrcService)
    → HasWidths svc
    → (num inv len : ℕ) (payload : List ℕ) (rs : List Read) → length payload ≡ len
    → read_packet svc len
        (byte num ∷ byte inv ∷ (bytes_of (payload ++ crc16_bytes (modem_crc16 svc payload)) ++ rs))
      ≡ (some (record { num = num; payload = payload }), rs)
unfolding read_packet two_bytes checked_packet
read_packet-bytes svc w num inv len payload rs e =
    let crc = crc16_bytes (modem_crc16 svc payload) in
    let right : (join16 (modem_crc16 svc payload / 256 % 256) (modem_crc16 svc payload % 256)
          == modem_crc16 svc payload)
        ≡ true =
      join16-crc16_bytes (modem_crc16 svc payload) (w.crc16_fits 0xFFFF payload) in
    let read : read_payload len (bytes_of (payload ++ crc) ++ rs)
        ≡ (full payload, bytes_of crc ++ rs) =
      ap (read_payload len) (bytes_of-append payload crc rs)
      ∙ subst
          (λ n.
            read_payload n (bytes_of payload ++ (bytes_of crc ++ rs))
            ≡ (full payload, bytes_of crc ++ rs))
          e (read_payload-bytes_of payload (bytes_of crc ++ rs)) in
    ap (λ r. (checked_packet svc num r.0 (two_bytes r.1).0, (two_bytes r.1).1)) read ∙ rw right refl

module _ (svc : CrcService) (w : HasWidths svc) (cbs : Callbacks) where
  abbrev tail_of : (num : ℕ) → List ℕ → List Read → List Read
  tail_of num payload rs =
      byte num
      ∷ byte (255 - num)
      ∷ (bytes_of (payload ++ crc16_bytes (modem_crc16 svc payload)) ++ rs)

  -- what the receiver does with the block that it expects
  abbrev taken : FileInfo → (num file_offset : ℕ) → List ℕ → List Read → List ℕ → List Event → Next
  taken info num file_offset payload rs sent events =
      continue (receiving info 0 (add_u8 num 1) (add_size file_offset (length payload))) (record {
        io = record { input = rs; sent = sent ++ (ack ∷ []) };
        events =
            if cbs.on_data && ltb 0 (write_len info file_offset (length payload))
            then events
              ++ (data_at payload (write_len info file_offset (length payload)) file_offset ∷ [])
            else events;
      })

  receive_packet-taken :
      (info : FileInfo) (retries num file_offset : ℕ) (payload : List ℕ) (rs : List Read)
      (sent : List ℕ) (events : List Event)
      → receive_packet svc cbs info retries num file_offset
          (some (record { num = num; payload = payload }))
          (record { io = record { input = rs; sent = sent }; events = events })
        ≡ taken info num file_offset payload rs sent events
  unfolding receive_packet
  receive_packet-taken info retries num file_offset payload rs sent events = rw (==_refl num) refl

  -- behind the header
  receive_packet-read :
      (info : FileInfo) (retries num file_offset len : ℕ) (payload : List ℕ) (rs : List Read)
      (sent : List ℕ) (events : List Event)
      → length payload ≡ len
      → receive_packet svc cbs info retries num file_offset
          (read_packet svc len (tail_of num payload rs)).0
          (record {
            io = record { input = (read_packet svc len (tail_of num payload rs)).1; sent = sent };
            events = events;
          })
        ≡ taken info num file_offset payload rs sent events
  receive_packet-read info retries num file_offset len payload rs sent events e =
      ap
        (λ r.
          receive_packet svc cbs info retries num file_offset r.0
            (record { io = record { input = r.1; sent = sent }; events = events }))
        (read_packet-bytes svc w num (255 - num) len payload rs e)
      ∙ receive_packet-taken info retries num file_offset payload rs sent events

  -- Within a file, a block that `ymodem_transmit` sends with the number that is expected is taken:
  -- the receiver answers ACK, hands the block on at the file's offset with its write length, if
  -- that is not 0 and `on_data` is there, advances the number modulo 256 and the offset, clears the
  -- retries, and leaves the rest of the line. The payload has 128 or 1024 bytes, and the CRC service
  -- returns 16-bit words.
  pub receive_round-packet :
      (info : FileInfo) (retries num file_offset : ℕ) (payload : List ℕ) (rs : List Read)
      (sent : List ℕ) (events : List Event)
      → (length payload ≡ 128) ⊎ (length payload ≡ 1024)
      → receive_round svc cbs (receiving info retries num file_offset) (record {
        io = record { input = bytes_of (packet svc num payload) ++ rs; sent = sent };
        events = events;
      })
        ≡ continue
            (receiving info 0 (add_u8 num 1) (add_size file_offset (length payload)))
            (record {
              io = record { input = rs; sent = sent ++ (ack ∷ []) };
              events =
                  if cbs.on_data && ltb 0 (write_len info file_offset (length payload))
                  then events
                    ++ (data_at payload (write_len info file_offset (length payload)) file_offset
                        ∷ [])
                  else events;
            })
  unfolding receive_round receive_data packet
  receive_round-packet info retries num file_offset payload rs sent events (inl e) =
      let header : (if length payload == 1024 then stx else soh) ≡ soh = ground arith in
      ap
        (λ h.
          receive_data svc cbs info retries num file_offset (byte h) (record {
            io = record { input = tail_of num payload rs; sent = sent };
            events = events;
          }))
        header
      ∙ receive_packet-read info retries num file_offset 128 payload rs sent events e
  receive_round-packet info retries num file_offset payload rs sent events (inr e) =
      let header : (if length payload == 1024 then stx else soh) ≡ stx = ground arith in
      ap
        (λ h.
          receive_data svc cbs info retries num file_offset (byte h) (record {
            io = record { input = tail_of num payload rs; sent = sent };
            events = events;
          }))
        header
      ∙ receive_packet-read info retries num file_offset 1024 payload rs sent events e
