-- ===== src/Zmodem/Receive/Progress.antt =====
-- Every round of the ZMODEM receiver that goes on uses up an entry of the script.
use zephyr_zyx_modem.Base.{
  ℕ, zero, suc, ◌≤◌, ◌<◌, Bool, true, false, Bool-cases, Option, none, some, List, [], ◌∷◌, arith,
  length, ◌==◌, inl, inr,
}
use zephyr_zyx_modem.Io.{Read, byte, cancelled, failed, rest, first}
use zephyr_zyx_modem.Io.Laws.{length-rest, length-read_payload}
use zephyr_zyx_modem.Crc.{CrcService}
use zephyr_zyx_modem.Zmodem.{zdle}
use zephyr_zyx_modem.Zmodem.Escape.{
  Zdle, plain, ender, unescape_rx, read_zdle_byte_rx, any_byte, continue_with, read_zdle_bytes,
}
use zephyr_zyx_modem.Zmodem.Headers.{
  Format, hex, bin, bin32, Scan, scan, found, scan_byte, scan_header, idle, read_format,
  read_header, read_header_rx,
}
use zephyr_zyx_modem.Zmodem.Subpacket.{
  Subpacket, data_turn, read_data_loop, read_subpacket_check, read_subpacket_rx,
}

length-read_zdle_byte_rx : (rs : List Read) → length (read_zdle_byte_rx rs).1 ≤ length rs
unfolding read_zdle_byte_rx
length-read_zdle_byte_rx [] = omega arith
length-read_zdle_byte_rx (byte ch ∷ rs) = elim (Bool-cases (ch == zdle)) [
  | inl e ↦ rw e (omega (arith, length-rest rs))
  | inr e ↦ rw e (omega arith)
]
length-read_zdle_byte_rx (cancelled ∷ rs) = omega arith
length-read_zdle_byte_rx (failed ∷ rs) = omega arith

length-continue_with :
    (n : ℕ) (more : Option (List ℕ) × List Read) (rs' : List Read) (o : Option ℕ)
    → length rs' ≤ n
    → length more.1 ≤ length rs'
    → length (continue_with o more rs').1 ≤ n
length-continue_with n more rs' none h k = h
length-continue_with n more rs' (some b) h k = omega arith

length-read_zdle_bytes :
    (n : ℕ) (rs : List Read) → length (read_zdle_bytes read_zdle_byte_rx n rs).1 ≤ length rs
unfolding read_zdle_bytes
length-read_zdle_bytes zero rs = omega arith
length-read_zdle_bytes (suc n) rs =
    let (z, rs') = read_zdle_byte_rx rs in
    length-continue_with (length rs) (read_zdle_bytes read_zdle_byte_rx n (read_zdle_byte_rx rs).1)
      (read_zdle_byte_rx rs).1 (any_byte (read_zdle_byte_rx rs).0) (length-read_zdle_byte_rx rs)
      (length-read_zdle_bytes n (read_zdle_byte_rx rs).1)

-- If there is a result, at least one entry of the script is gone.
abbrev pub Shorter {ℓ} : {A : Type ℓ} → ℕ → Option A × List Read → Type 0
Shorter n (none, rs) = Unit {0}
Shorter n (some a, rs) = length rs < n

pub Shorter-le {ℓ} :
    {A : Type ℓ} {n m : ℕ} (r : Option A × List Read) → Shorter n r → n ≤ m → Shorter m r
Shorter-le (none, rs) h k = tt
Shorter-le (some a, rs) h k = omega arith

Shorter-any {ℓ} : {A : Type ℓ} {n : ℕ} (r : Option A × List Read) → length r.1 < n → Shorter n r
Shorter-any (none, rs) h = tt
Shorter-any (some a, rs) h = h

scan_header-Shorter : (s : Scan) (rs : List Read) → Shorter (length rs) (scan_header s rs)
unfolding scan_header
scan_header-Shorter s [] = tt
scan_header-Shorter s (byte b ∷ rs) =
    elim (scan_byte s b)
      as (λ x.
        Shorter {A = Format} (suc (length rs))
          (elim x [ scan s' ↦ scan_header s' rs | found f ↦ (some f, rs) ])) [
            | scan s' ↦
                Shorter-le {m = suc (length rs)} (scan_header s' rs) (scan_header-Shorter s' rs)
                  (omega arith)
            | found f ↦ omega arith
          ]
scan_header-Shorter s (cancelled ∷ rs) = tt
scan_header-Shorter s (failed ∷ rs) = tt

read_format-Shorter :
    (svc : CrcService) (n : ℕ) (r : Option Format × List Read)
    → Shorter n r
    → Shorter n (read_format svc read_zdle_byte_rx r.0 r.1)
unfolding read_format
read_format-Shorter svc n (none, rs) h = tt
read_format-Shorter svc n (some hex, rs) h =
    Shorter-any _ (omega (arith, length-read_payload 14 rs))
read_format-Shorter svc n (some bin, rs) h =
    Shorter-any _ (omega (arith, length-read_zdle_bytes 7 rs))
read_format-Shorter svc n (some bin32, rs) h =
    Shorter-any _ (omega (arith, length-read_zdle_bytes 9 rs))

-- A header that is read uses up an entry of the script.
pub read_header_rx-Shorter :
    (svc : CrcService) (rs : List Read) → Shorter (length rs) (read_header_rx svc rs)
unfolding read_header
read_header_rx-Shorter svc rs =
    read_format-Shorter svc (length rs) (scan_header idle rs) (scan_header-Shorter idle rs)

-- a read that gives a byte or an ender
abbrev Consumes : ℕ → Zdle × List Read → Type 0
Consumes n (plain b, rs) = length rs < n
Consumes n (ender e, rs) = length rs < n
Consumes n _ = Unit {0}

unescape_rx-Consumes :
    (n : ℕ) (r : Read) (rs : List Read) → length rs < n → Consumes n (unescape_rx r, rs)
unescape_rx-Consumes n r rs h = ground arith

read_zdle_byte_rx-Consumes : (rs : List Read) → Consumes (length rs) (read_zdle_byte_rx rs)
unfolding read_zdle_byte_rx
read_zdle_byte_rx-Consumes [] = tt
read_zdle_byte_rx-Consumes (byte ch ∷ rs) = elim (Bool-cases (ch == zdle)) [
  | inl e ↦
      rw e (
        unescape_rx-Consumes (suc (length rs)) (first rs) (rest rs) (omega (arith, length-rest rs)))
  | inr e ↦ rw e (omega arith)
]
read_zdle_byte_rx-Consumes (cancelled ∷ rs) = tt
read_zdle_byte_rx-Consumes (failed ∷ rs) = tt

data_turn-Shorter :
    (n room : ℕ) (zr : Zdle × List Read) (more : Option Subpacket × List Read)
    → Consumes n zr
    → Shorter (length zr.1) more
    → Shorter n (data_turn room zr.0 more zr.1)
data_turn-Shorter n zero (plain b, rs) more h k = tt
data_turn-Shorter n (suc room) (plain b, rs) (none, rs') h k = tt
data_turn-Shorter n (suc room) (plain b, rs) (some p, rs') h k = omega arith
data_turn-Shorter n zero (ender e, rs) more h k = h
data_turn-Shorter n (suc room) (ender e, rs) more h k = h
data_turn-Shorter n zero (Zdle.cancelled, rs) more h k = tt
data_turn-Shorter n (suc room) (Zdle.cancelled, rs) more h k = tt
data_turn-Shorter n zero (Zdle.failed, rs) more h k = tt
data_turn-Shorter n (suc room) (Zdle.failed, rs) more h k = tt

read_data_loop-Shorter : (room : ℕ) (rs : List Read) → Shorter (length rs) (read_data_loop room rs)
unfolding read_data_loop
read_data_loop-Shorter zero rs =
    data_turn-Shorter (length rs) zero (read_zdle_byte_rx rs) (none, (read_zdle_byte_rx rs).1)
      (read_zdle_byte_rx-Consumes rs) tt
read_data_loop-Shorter (suc room) rs =
    data_turn-Shorter (length rs) (suc room) (read_zdle_byte_rx rs)
      (read_data_loop room (read_zdle_byte_rx rs).1) (read_zdle_byte_rx-Consumes rs)
      (read_data_loop-Shorter room (read_zdle_byte_rx rs).1)

read_subpacket_check-Shorter :
    (svc : CrcService) (n : ℕ) (is_crc32 : Bool) (r : Option Subpacket × List Read)
    → Shorter n r
    → Shorter n (read_subpacket_check svc is_crc32 r.0 r.1)
unfolding read_subpacket_check
read_subpacket_check-Shorter svc n is_crc32 (none, rs) h = tt
read_subpacket_check-Shorter svc n true (some p, rs) h =
    Shorter-any _ (omega (arith, length-read_zdle_bytes 4 rs))
read_subpacket_check-Shorter svc n false (some p, rs) h =
    Shorter-any _ (omega (arith, length-read_zdle_bytes 2 rs))

-- So does a subpacket that is read.
pub read_subpacket_rx-Shorter :
    (svc : CrcService) (max_len : ℕ) (is_crc32 : Bool) (rs : List Read)
    → Shorter (length rs) (read_subpacket_rx svc max_len is_crc32 rs)
unfolding read_subpacket_rx
read_subpacket_rx-Shorter svc max_len is_crc32 rs =
    read_subpacket_check-Shorter svc (length rs) is_crc32 (read_data_loop max_len rs)
      (read_data_loop-Shorter max_len rs)
