-- ===== src/Zmodem/Headers/Laws.antt =====
-- A header that was sent is read back, in either format that the program sends.
use zephyr_zyx_modem.Base.{
  ℕ, ◌+◌, ◌*◌, ◌/◌, ◌%◌, ◌<◌, ◌≡◌, refl, ap, ◌∙◌, true, false, not, ◌&&◌, some, List, [], ◌∷◌, ◌++◌,
  ◌==◌, arith, length, if◌then◌else◌, IsByte, All, length-append, All-append, subst,
}
use zephyr_zyx_modem.Io.{Read, bytes_of, full, read_payload}
use zephyr_zyx_modem.Io.Laws.{read_payload-bytes_of}
use zephyr_zyx_modem.Crc.{
  CrcService, HasWidths, crc16_bytes, join16, join16-crc16_bytes, modem_crc16,
}
use zephyr_zyx_modem.Zmodem.{Header, zfin, zack}
use zephyr_zyx_modem.Zmodem.Platform.{Platform}
use zephyr_zyx_modem.Zmodem.Escape.{Zdle, read_zdle_bytes, send_zdle_bytes}
use zephyr_zyx_modem.Zmodem.Escape.Laws.{ReadsBack, read_zdle_bytes-send_zdle_bytes}
use zephyr_zyx_modem.Io.Laws.{bytes_of-append}
use zephyr_zyx_modem.Zmodem.Headers.{
  hex_to_nibble, hex_digit, hex_bytes, with_crc16, send_hex_header, send_binary_header, scan_header,
  decode_hex, check16, framed, read_format, read_header, decoded, payload_bytes,
}

-- A type and four flags, all bytes.
pub record IsHeader (h : Header) : Type 0 where
  pub kind_fits : IsByte h.kind
  pub flags_fit : All IsByte h.flags
  pub four : length h.flags ≡ 4

hex_to_nibble-hex_digit : (n : ℕ) → n < 16 → hex_to_nibble (hex_digit n) ≡ some n
hex_to_nibble-hex_digit n h = ground arith

decode_hex-hex_bytes : (bs : List ℕ) → All IsByte bs → decode_hex (hex_bytes bs) ≡ some bs
unfolding decode_hex hex_bytes
decode_hex-hex_bytes [] h = refl
decode_hex-hex_bytes (b ∷ bs) h =
    let e : b / 16 % 16 * 16 + b % 16 ≡ b = omega (arith, h.0) in
    rw
      (
        hex_to_nibble-hex_digit (b / 16 % 16) (omega arith),
        hex_to_nibble-hex_digit (b % 16) (omega arith),
        decode_hex-hex_bytes bs h.1,
      )
      (ap (λ x. some (x ∷ bs)) e)

-- The right CRC passes.
check16-right :
    (svc : CrcService)
    → HasWidths svc
    → (kind : ℕ) (flags : List ℕ) → length flags ≡ 4
    → check16 svc (some ((kind ∷ flags) ++ crc16_bytes (modem_crc16 svc (kind ∷ flags))))
      ≡ some (record { kind = kind; flags = flags })
unfolding check16
check16-right svc w kind (f0 ∷ f1 ∷ f2 ∷ f3 ∷ []) four =
    let flags : List ℕ = f0 ∷ f1 ∷ f2 ∷ f3 ∷ [] in
    let right : (join16 (modem_crc16 svc (kind ∷ flags) / 256 % 256)
            (modem_crc16 svc (kind ∷ flags) % 256)
          == modem_crc16 svc (kind ∷ flags))
        ≡ true =
      join16-crc16_bytes (modem_crc16 svc (kind ∷ flags)) (w.crc16_fits 0xFFFF (kind ∷ flags)) in
    rw right refl
check16-right svc w kind [] four = absurd (omega arith)
check16-right svc w kind (f0 ∷ []) four = absurd (omega arith)
check16-right svc w kind (f0 ∷ f1 ∷ []) four = absurd (omega arith)
check16-right svc w kind (f0 ∷ f1 ∷ f2 ∷ []) four = absurd (omega arith)
check16-right svc w kind (f0 ∷ f1 ∷ f2 ∷ f3 ∷ f4 ∷ fs) four = absurd (omega arith)

length-with_crc16 :
    (svc : CrcService) (h : Header) → length h.flags ≡ 4 → length (with_crc16 svc h) ≡ 7
length-with_crc16 svc h four =
    omega (arith, length-append h.flags (crc16_bytes (modem_crc16 svc (h.kind ∷ h.flags))))

with_crc16-IsByte : (svc : CrcService) (h : Header) → IsHeader h → All IsByte (with_crc16 svc h)
with_crc16-IsByte svc h is = (
  is.kind_fits,
  All-append IsByte h.flags (crc16_bytes (modem_crc16 svc (h.kind ∷ h.flags))) is.flags_fit
      (omega arith, (omega arith, tt)),
)

length-hex_bytes : (bs : List ℕ) → length (hex_bytes bs) ≡ 2 * length bs
unfolding hex_bytes
length-hex_bytes [] = refl
length-hex_bytes (b ∷ bs) = omega (arith, length-hex_bytes bs)

-- A header that `send_binary_header_tx` writes is read back by `read_header`, over any reader of
-- escapes that reads back what `send_zdle_byte_tx` writes: its type, its four flags, the 16-bit CRC
-- format, and the rest of the line untouched. The type and the flags are bytes, and the CRC service
-- returns 16-bit words.
pub read_header-send_binary_header :
    (svc : CrcService)
    → HasWidths svc
    → (read_zdle : List Read → Zdle × List Read) → ReadsBack read_zdle
    → (h : Header) → IsHeader h
    → (rs : List Read)
    → read_header svc read_zdle (bytes_of (send_binary_header svc h) ++ rs)
      ≡ (some (record { header = h; is_crc32 = false }), rs)
unfolding read_header scan_header read_format send_binary_header
read_header-send_binary_header svc w read_zdle back h is rs =
    let seven : length (with_crc16 svc h) ≡ 7 = length-with_crc16 svc h is.four in
    let back7 : read_zdle_bytes read_zdle 7 (bytes_of (send_zdle_bytes (with_crc16 svc h)) ++ rs)
        ≡ (some (with_crc16 svc h), rs) =
      subst
        (λ n.
          read_zdle_bytes read_zdle n (bytes_of (send_zdle_bytes (with_crc16 svc h)) ++ rs)
          ≡ (some (with_crc16 svc h), rs))
        seven (read_zdle_bytes-send_zdle_bytes read_zdle back (with_crc16 svc h) rs) in
    ap (λ r. (framed false (check16 svc r.0), r.1)) back7
    ∙ ap (λ o. (framed false o, rs)) (check16-right svc w h.kind h.flags is.four)

-- the line end of a hexadecimal header, and its XON
abbrev pub hex_tail : Platform → ℕ → List ℕ
hex_tail svc kind =
    b'\r'
    ∷ b'\n'
    ∷ (if not (kind == zfin) && not (kind == zack) then svc.behind_buf 0x11 ∷ [] else [])

-- A header that `send_hex_header` writes is read back by `read_header`, over any reader of escapes,
-- and its line end stays on the line, with whatever the memory behind the code's 20-byte buffer
-- gives back for the XON that is stored there as the 21st byte, which every type but ZFIN and ZACK
-- has. The type and the four flags are bytes, and the CRC service returns 16-bit words.
pub read_header-send_hex_header :
    (svc : Platform)
    → HasWidths svc.crc
    → (read_zdle : List Read → Zdle × List Read) (h : Header) → IsHeader h
    → (rs : List Read)
    → read_header svc.crc read_zdle (bytes_of (send_hex_header svc h) ++ rs)
      ≡ (some (record { header = h; is_crc32 = false }), bytes_of (hex_tail svc h.kind) ++ rs)
unfolding read_header scan_header read_format send_hex_header
read_header-send_hex_header svc w read_zdle h is rs =
    let digits = hex_bytes (with_crc16 svc.crc h) in
    let tail = bytes_of (hex_tail svc h.kind) ++ rs in
    let fourteen : length digits ≡ 14 =
      omega (arith, length-hex_bytes (with_crc16 svc.crc h), length-with_crc16 svc.crc h is.four) in
    let read : read_payload 14 (bytes_of digits ++ tail) ≡ (full digits, tail) =
      subst (λ n. read_payload n (bytes_of digits ++ tail) ≡ (full digits, tail)) fourteen
        (read_payload-bytes_of digits tail) in
    ap (λ r. (framed false (check16 svc.crc (decoded (payload_bytes r.0))), r.1))
      (ap (read_payload 14) (bytes_of-append digits (hex_tail svc h.kind) rs) ∙ read)
    ∙ ap (λ o. (framed false (check16 svc.crc o), tail))
        (decode_hex-hex_bytes (with_crc16 svc.crc h) (with_crc16-IsByte svc.crc h is))
    ∙ ap (λ o. (framed false o, tail)) (check16-right svc.crc w h.kind h.flags is.four)
