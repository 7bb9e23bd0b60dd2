-- ===== src/Zmodem/Headers/Behind.antt =====
-- A header that stands behind other bytes on the line, such as the line end of the one before it.
use zephyr_zyx_modem.Base.{
  ℕ, not, ◌&&◌, Bool-cases, inl, inr, ◌<◌, ◌≡◌, refl, ap, ◌∙◌, false, some, List, [], ◌∷◌, ◌++◌,
  arith, ◌==◌, All,
}
use zephyr_zyx_modem.Io.{Read, bytes_of}
use zephyr_zyx_modem.Crc.{CrcService, HasWidths}
use zephyr_zyx_modem.Zmodem.{Header, zfin, zack, zpad, zero_flags, position_flags}
use zephyr_zyx_modem.Zmodem.Platform.{Platform, IsPlatform}
use zephyr_zyx_modem.Zmodem.Escape.{Zdle}
use zephyr_zyx_modem.Zmodem.Escape.Laws.{ReadsBack}
use zephyr_zyx_modem.Zmodem.Headers.{
  idle, scan_header, read_format, read_header, send_hex_header, send_binary_header,
}
use zephyr_zyx_modem.Zmodem.Headers.Laws.{
  IsHeader, hex_tail, read_header-send_binary_header, read_header-send_hex_header,
}

-- bytes that the scan for a header passes over
abbrev pub Quiet : List ℕ → Type 0
Quiet bs = All (λ b. (b == zpad) ≡ false) bs

scan_header-Quiet :
    (lead : List ℕ) (rs : List Read)
    → Quiet lead
    → scan_header idle (bytes_of lead ++ rs) ≡ scan_header idle rs
unfolding scan_header
scan_header-Quiet [] rs h = refl
scan_header-Quiet (b ∷ lead) rs h = rw h.0 (scan_header-Quiet lead rs h.1)

read_header-Quiet :
    (svc : CrcService) (read_zdle : List Read → Zdle × List Read) (lead : List ℕ) (rs : List Read)
    → Quiet lead
    → read_header svc read_zdle (bytes_of lead ++ rs) ≡ read_header svc read_zdle rs
unfolding read_header
read_header-Quiet svc read_zdle lead rs h =
    ap (λ r. read_format svc read_zdle r.0 r.1) (scan_header-Quiet lead rs h)

pub zero_flags-IsHeader :
    (kind : ℕ) → kind < 256 → IsHeader (record { kind = kind; flags = zero_flags })
zero_flags-IsHeader kind h = record {
  kind_fits = h;
  flags_fit = (omega arith, (omega arith, (omega arith, (omega arith, tt))));
  four = refl;
}

pub position_flags-IsHeader :
    (kind n : ℕ) → kind < 256 → IsHeader (record { kind = kind; flags = position_flags n })
position_flags-IsHeader kind n h = record {
  kind_fits = h;
  flags_fit = (omega arith, (omega arith, (omega arith, (omega arith, tt))));
  four = refl;
}

-- With the XON kept, nothing of the tail of a header looks like a header.
pub hex_tail-Quiet : (svc : Platform) → IsPlatform svc → (kind : ℕ) → Quiet (hex_tail svc kind)
hex_tail-Quiet svc w kind = elim (Bool-cases (not (kind == zfin) && not (kind == zack))) [
  | inl has ↦ rw (has, w.keeps_xon) (refl, (refl, (refl, tt)))
  | inr has_none ↦ rw has_none (refl, (refl, tt))
]

pub read_header-hex :
    (svc : Platform)
    → HasWidths svc.crc
    → (read_zdle : List Read → Zdle × List Read) (lead : List ℕ) (h : Header) (rs : List Read)
    → Quiet lead
    → IsHeader h
    → read_header svc.crc read_zdle (bytes_of lead ++ (bytes_of (send_hex_header svc h) ++ rs))
      ≡ (some (record { header = h; is_crc32 = false }), bytes_of (hex_tail svc h.kind) ++ rs)
read_header-hex svc w read_zdle lead h rs quiet is =
    read_header-Quiet svc.crc read_zdle lead (bytes_of (send_hex_header svc h) ++ rs) quiet
    ∙ read_header-send_hex_header svc w read_zdle h is rs

pub read_header-binary :
    (svc : CrcService)
    → HasWidths svc
    → (read_zdle : List Read → Zdle × List Read) → ReadsBack read_zdle
    → (lead : List ℕ) (h : Header) (rs : List Read) → Quiet lead
    → IsHeader h
    → read_header svc read_zdle (bytes_of lead ++ (bytes_of (send_binary_header svc h) ++ rs))
      ≡ (some (record { header = h; is_crc32 = false }), rs)
read_header-binary svc w read_zdle back lead h rs quiet is =
    read_header-Quiet svc read_zdle lead (bytes_of (send_binary_header svc h) ++ rs) quiet
    ∙ read_header-send_binary_header svc w read_zdle back h is rs
