-- ===== src/Zmodem/Headers.antt =====
-- The headers of src/zmodem.c: `send_hex_header` and `send_binary_header_tx`, and the two copies
-- `read_header_rx` and `read_header_tx`, which differ in the escapes that they read.
pub mod Laws
pub mod Behind
use zephyr_zyx_modem.Base.{
  ℕ, zero, suc, ◌+◌, ◌-◌, ◌*◌, ◌/◌, ◌%◌, Bool, true, false, not, ◌&&◌, ◌||◌, Option, none, some,
  List, [], ◌∷◌, ◌++◌, ltb, leb, ◌==◌, if◌then◌else◌,
}
use zephyr_zyx_modem.Io.{Read, byte, cancelled, failed, Payload, full, read_payload}
use zephyr_zyx_modem.Crc.{CrcService, modem_crc16, modem_crc32, crc16_bytes, join16}
use zephyr_zyx_modem.Zmodem.{zpad, zdle, zbin, zhex, zbin32, zfin, zack, Header, join32}
use zephyr_zyx_modem.Zmodem.Platform.{Platform}
use zephyr_zyx_modem.Zmodem.Escape.{
  Zdle, read_zdle_byte_rx, read_zdle_byte_tx, read_zdle_bytes, send_zdle_bytes,
}

abbrev pub hex_to_nibble : ℕ → Option ℕ
hex_to_nibble c =
    if leb b'0' c && leb c b'9'
    then some (c - b'0')
    else if leb b'a' c && leb c b'f'
    then some (c - b'a' + 10)
    else if leb b'A' c && leb c b'F'
    then some (c - b'A' + 10)
    else none

-- `hex_digits[n]`
abbrev pub hex_digit : ℕ → ℕ
hex_digit n = if ltb n 10 then b'0' + n else b'a' + (n - 10)

-- two digits for each byte
unfoldable pub hex_bytes : List ℕ → List ℕ
hex_bytes [] = []
hex_bytes (b ∷ bs) = hex_digit (b / 16 % 16) ∷ hex_digit (b % 16) ∷ hex_bytes bs

-- the header's bytes with their CRC-16, high byte first
abbrev pub with_crc16 : CrcService → Header → List ℕ
with_crc16 svc h = (h.kind ∷ h.flags) ++ crc16_bytes (modem_crc16 svc (h.kind ∷ h.flags))

-- `send_hex_header`: what it writes. Its XON is stored behind the end of `buf`.
unfoldable pub send_hex_header : Platform → Header → List ℕ
send_hex_header svc h =
    zpad ∷ zpad ∷ zdle ∷ zhex ∷ hex_bytes (with_crc16 svc.crc h)
    ++ (b'\r'
        ∷ b'\n'
        ∷ (if not (h.kind == zfin) && not (h.kind == zack) then svc.behind_buf 0x11 ∷ [] else []))

-- `send_binary_header_tx`: what it writes
unfoldable pub send_binary_header : CrcService → Header → List ℕ
send_binary_header svc h = zpad ∷ zdle ∷ zbin ∷ send_zdle_bytes (with_crc16 svc h)

pub data Format : Type 0 where
  hex bin bin32 : Format

-- Where the scan for the start of a header stands.
pub data Scan : Type 0 where
  idle pad pad_pad format : Scan

pub data Scanned : Type 0 where
  scan : Scan → Scanned
  found : Format → Scanned

-- One byte of the scan. Behind `ZPAD`, a byte that is neither ZPAD nor ZDLE is dropped, and so is a
-- byte behind `ZPAD ZPAD` that is no ZDLE, and an unknown format.
abbrev pub scan_byte : Scan → ℕ → Scanned
scan_byte idle b = scan (if b == zpad then pad else idle)
scan_byte pad b = scan (if b == zpad then pad_pad else if b == zdle then format else idle)
scan_byte pad_pad b = scan (if b == zdle then format else idle)
scan_byte format b =
    if b == zhex
    then found hex
    else if b == zbin
    then found bin
    else if b == zbin32
    then found bin32
    else scan idle

-- the loop around it, until a format or a read that fails
unfoldable pub scan_header : Scan → List Read → Option Format × List Read
scan_header s [] = (none, [])
scan_header s (byte b ∷ rs) = elim (scan_byte s b) [
  | scan s' ↦ scan_header s' rs
  | found f ↦ (some f, rs)
]
scan_header s (cancelled ∷ rs) = (none, rs)
scan_header s (failed ∷ rs) = (none, rs)

abbrev pub join_nibbles : Option ℕ → Option ℕ → Option (List ℕ) → Option (List ℕ)
join_nibbles (some hi) (some lo) (some bs) = some ((hi * 16 + lo) ∷ bs)
join_nibbles _ _ _ = none

-- the bytes that pairs of digits stand for
unfoldable pub decode_hex : List ℕ → Option (List ℕ)
decode_hex (hi ∷ lo ∷ cs) = join_nibbles (hex_to_nibble hi) (hex_to_nibble lo) (decode_hex cs)
decode_hex _ = some []

-- A header with its CRC-16, when that is right.
unfoldable pub check16 : CrcService → Option (List ℕ) → Option Header
check16 svc (some (kind ∷ f0 ∷ f1 ∷ f2 ∷ f3 ∷ hi ∷ lo ∷ [])) =
    let flags : List ℕ = f0 ∷ f1 ∷ f2 ∷ f3 ∷ [] in
    if join16 hi lo == modem_crc16 svc (kind ∷ flags)
    then some (record { kind = kind; flags = flags })
    else none
check16 svc _ = none

-- A header with its CRC-32.
unfoldable pub check32 : CrcService → Option (List ℕ) → Option Header
check32 svc (some (kind ∷ f0 ∷ f1 ∷ f2 ∷ f3 ∷ c0 ∷ c1 ∷ c2 ∷ c3 ∷ [])) =
    let flags : List ℕ = f0 ∷ f1 ∷ f2 ∷ f3 ∷ [] in
    if join32 c0 c1 c2 c3 == modem_crc32 svc (kind ∷ flags)
    then some (record { kind = kind; flags = flags })
    else none
check32 svc _ = none

abbrev pub payload_bytes : Payload → Option (List ℕ)
payload_bytes (full bs) = some bs
payload_bytes _ = none

abbrev pub decoded : Option (List ℕ) → Option (List ℕ)
decoded none = none
decoded (some cs) = decode_hex cs

-- a header that was read, and whether its format has CRC-32
pub record Framed : Type 0 where
  pub header : Header
  pub is_crc32 : Bool

abbrev pub framed : Bool → Option Header → Option Framed
framed is_crc32 none = none
framed is_crc32 (some h) = some (record { header = h; is_crc32 = is_crc32 })

-- behind the format
unfoldable pub read_format :
    CrcService
    → (List Read → Zdle × List Read)
    → Option Format
    → List Read
    → Option Framed × List Read
unfolding check16 check32
read_format svc read_zdle none rs = (none, rs)
read_format svc read_zdle (some hex) rs =
    let (digits, rs') = read_payload 14 rs in
    (framed false (check16 svc (decoded (payload_bytes digits))), rs')
read_format svc read_zdle (some bin) rs =
    let (bs, rs') = read_zdle_bytes read_zdle 7 rs in (framed false (check16 svc bs), rs')
read_format svc read_zdle (some bin32) rs =
    let (bs, rs') = read_zdle_bytes read_zdle 9 rs in (framed true (check32 svc bs), rs')

-- what both copies do
unfoldable pub read_header :
    CrcService → (List Read → Zdle × List Read) → List Read → Option Framed × List Read
read_header svc read_zdle rs = let (f, rs') = scan_header idle rs in read_format svc read_zdle f rs'

abbrev pub read_header_rx : CrcService → List Read → Option Framed × List Read
read_header_rx svc = read_header svc read_zdle_byte_rx

abbrev pub read_header_tx : CrcService → List Read → Option Framed × List Read
read_header_tx svc = read_header svc read_zdle_byte_tx
