-- ===== src/Zmodem/Subpacket/Laws.antt =====
-- A subpacket that was sent is read back.
use zephyr_zyx_modem.Base.{
  ℕ, zero, suc, ◌/◌, ◌%◌, ◌≤◌, ◌≡◌, refl, ap, ◌∙◌, true, false, none, some, List, [], ◌∷◌, ◌++◌,
  ◌==◌, arith, length,
}
use zephyr_zyx_modem.Io.{Read, byte, bytes_of}
use zephyr_zyx_modem.Crc.{
  CrcService, HasWidths, crc16_bytes, join16, join16-crc16_bytes, modem_crc16,
}
use zephyr_zyx_modem.Zmodem.{zdle}
use zephyr_zyx_modem.Zmodem.Escape.{
  ender, is_ender, read_zdle_byte_rx, send_zdle_byte, send_zdle_bytes,
}
use zephyr_zyx_modem.Zmodem.Escape.Laws.{
  read_zdle_byte_rx-ReadsBack, read_zdle_bytes-send_zdle_bytes,
}
use zephyr_zyx_modem.Io.Laws.{bytes_of-append}
use zephyr_zyx_modem.Zmodem.Subpacket.{
  Subpacket, subpacket_crc16, send_subpacket, with_data, data_turn, read_data_loop, subpacket16,
  read_subpacket_check, read_subpacket_rx,
}

read_zdle_byte_rx-ender :
    (e : ℕ) (rs : List Read)
    → is_ender e ≡ true
    → read_zdle_byte_rx (byte zdle ∷ byte e ∷ rs) ≡ (ender e, rs)
unfolding read_zdle_byte_rx
read_zdle_byte_rx-ender e rs h = rw h refl

-- The loop reads a payload that has room, up to its ender.
read_data_loop-send :
    (room : ℕ) (bs : List ℕ) (e : ℕ) (rs : List Read)
    → is_ender e ≡ true
    → length bs ≤ room
    → read_data_loop room (bytes_of (send_zdle_bytes bs) ++ (byte zdle ∷ byte e ∷ rs))
      ≡ (some (record { payload = bs; ending = e }), rs)
unfolding read_data_loop send_zdle_bytes
read_data_loop-send zero [] e rs h fits =
    ap (λ r. data_turn zero r.0 (none, r.1) r.1) (read_zdle_byte_rx-ender e rs h)
read_data_loop-send (suc room) [] e rs h fits =
    ap (λ r. data_turn (suc room) r.0 (read_data_loop room r.1) r.1)
      (read_zdle_byte_rx-ender e rs h)
read_data_loop-send zero (b ∷ bs) e rs h fits = absurd (omega arith)
read_data_loop-send (suc room) (b ∷ bs) e rs h fits =
    ap
      (λ l.
        data_turn (suc room) (read_zdle_byte_rx l).0 (read_data_loop room (read_zdle_byte_rx l).1)
          (read_zdle_byte_rx l).1)
      (bytes_of-append (send_zdle_byte b) (send_zdle_bytes bs) (byte zdle ∷ byte e ∷ rs))
    ∙ ap (λ r. data_turn (suc room) r.0 (read_data_loop room r.1) r.1)
        (read_zdle_byte_rx-ReadsBack b (bytes_of (send_zdle_bytes bs) ++ (byte zdle ∷ byte e ∷ rs)))
    ∙ ap (λ m. (with_data b m.0, m.1)) (read_data_loop-send room bs e rs h (omega arith))

-- A subpacket that `send_subpacket_tx` writes is read back by `read_subpacket_rx`, whatever bytes
-- it carries: its payload, its ender, and the rest of the line untouched. The ender is one of the
-- four, the payload fits the receiver's buffer, and the CRC service returns 16-bit words.
pub read_subpacket_rx-send_subpacket :
    (svc : CrcService)
    → HasWidths svc
    → (max_len : ℕ) (p : Subpacket) (rs : List Read) → is_ender p.ending ≡ true
    → length p.payload ≤ max_len
    → read_subpacket_rx svc max_len false (bytes_of (send_subpacket svc p) ++ rs) ≡ (some p, rs)
unfolding read_subpacket_rx read_subpacket_check subpacket16 send_subpacket
read_subpacket_rx-send_subpacket svc w max_len p rs h fits =
    let check = crc16_bytes (subpacket_crc16 svc p) in
    let tail = bytes_of (send_zdle_bytes check) ++ rs in
    let right : (join16 (subpacket_crc16 svc p / 256 % 256) (subpacket_crc16 svc p % 256)
          == subpacket_crc16 svc p)
        ≡ true =
      join16-crc16_bytes (subpacket_crc16 svc p)
        (w.crc16_fits (modem_crc16 svc p.payload) (p.ending ∷ [])) in
    ap
      (λ l.
        read_subpacket_check svc false (read_data_loop max_len l).0 (read_data_loop max_len l).1)
      (bytes_of-append (send_zdle_bytes p.payload) (zdle ∷ p.ending ∷ send_zdle_bytes check) rs)
    ∙ ap (λ r. read_subpacket_check svc false r.0 r.1)
        (read_data_loop-send max_len p.payload p.ending tail h fits)
    ∙ ap (λ r. (subpacket16 svc p r.0, r.1))
        (read_zdle_bytes-send_zdle_bytes read_zdle_byte_rx read_zdle_byte_rx-ReadsBack check rs)
    ∙ rw right refl
