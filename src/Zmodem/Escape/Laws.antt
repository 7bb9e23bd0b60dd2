-- ===== src/Zmodem/Escape/Laws.antt =====
-- What the transmitter escapes, the receiver and the transmitter read back.
use zephyr_zyx_modem.Base.{
  ℕ, ◌≡◌, ◌⊎◌, refl, ap, true, false, Bool-cases, inl, inr, some, List, [], ◌∷◌, ◌++◌, ◌==◌, arith,
  length, bit_xor,
}
use zephyr_zyx_modem.Io.Laws.{bytes_of-append}
use zephyr_zyx_modem.Io.{Read, byte, bytes_of}
use zephyr_zyx_modem.Zmodem.{zdle}
use zephyr_zyx_modem.Zmodem.Escape.{
  Zdle, plain, unescape_rx, unescape_tx, read_zdle_byte, read_zdle_byte_rx, read_zdle_byte_tx,
  read_zdle_bytes, is_escaped, send_zdle_byte, send_zdle_bytes,
}

escaped-cases :
    (b : ℕ) → is_escaped b ≡ true → (b ≡ 0x18) ⊎ (b ≡ 0x11) ⊎ (b ≡ 0x13) ⊎ (b ≡ 0x81) ⊎ (b ≡ 0x83)
escaped-cases b h = ground arith

not_zdle : (b : ℕ) → is_escaped b ≡ false → (b == zdle) ≡ false
not_zdle b h = ground arith

-- A reader that gets back every byte that `send_zdle_byte_tx` sends.
abbrev pub ReadsBack : (List Read → Zdle × List Read) → Type 0
ReadsBack read_zdle =
    (b : ℕ) (rs : List Read) → read_zdle (bytes_of (send_zdle_byte b) ++ rs) ≡ (plain b, rs)

-- It does when it reads the five escapes back.
module _ (unescape : Read → Zdle)
    (back : (b : ℕ) → is_escaped b ≡ true → unescape (byte (bit_xor b 0x40)) ≡ plain b) where
  pub read_zdle_byte-send_zdle_byte :
      (b : ℕ) (rs : List Read)
      → read_zdle_byte unescape (bytes_of (send_zdle_byte b) ++ rs) ≡ (plain b, rs)
  read_zdle_byte-send_zdle_byte b rs = elim (Bool-cases (is_escaped b)) [
    | inl escaped ↦ rw escaped (ap (λ z. (z, rs)) (back b escaped))
    | inr clear ↦ let other : (b == zdle) ≡ false = not_zdle b clear in rw (clear, other) refl
  ]

unescape_rx-escaped : (b : ℕ) → is_escaped b ≡ true → unescape_rx (byte (bit_xor b 0x40)) ≡ plain b
unescape_rx-escaped b h = elim (escaped-cases b h) [
  | inl e ↦ rw e refl
  | inr (inl e) ↦ rw e refl
  | inr (inr (inl e)) ↦ rw e refl
  | inr (inr (inr (inl e))) ↦ rw e refl
  | inr (inr (inr (inr e))) ↦ rw e refl
]

unescape_tx-escaped : (b : ℕ) → is_escaped b ≡ true → unescape_tx (byte (bit_xor b 0x40)) ≡ plain b
unescape_tx-escaped b h = elim (escaped-cases b h) [
  | inl e ↦ rw e refl
  | inr (inl e) ↦ rw e refl
  | inr (inr (inl e)) ↦ rw e refl
  | inr (inr (inr (inl e))) ↦ rw e refl
  | inr (inr (inr (inr e))) ↦ rw e refl
]

pub read_zdle_byte_rx-ReadsBack : ReadsBack read_zdle_byte_rx
unfolding read_zdle_byte_rx
read_zdle_byte_rx-ReadsBack b rs =
    read_zdle_byte-send_zdle_byte unescape_rx unescape_rx-escaped b rs

pub read_zdle_byte_tx-ReadsBack : ReadsBack read_zdle_byte_tx
unfolding read_zdle_byte_tx
read_zdle_byte_tx-ReadsBack b rs =
    read_zdle_byte-send_zdle_byte unescape_tx unescape_tx-escaped b rs

-- It gets back a run of them.
pub read_zdle_bytes-send_zdle_bytes :
    (read_zdle : List Read → Zdle × List Read)
    → ReadsBack read_zdle
    → (bs : List ℕ) (rs : List Read)
    → read_zdle_bytes read_zdle (length bs) (bytes_of (send_zdle_bytes bs) ++ rs) ≡ (some bs, rs)
unfolding read_zdle_bytes send_zdle_bytes
read_zdle_bytes-send_zdle_bytes read_zdle back [] rs = refl
read_zdle_bytes-send_zdle_bytes read_zdle back (b ∷ bs) rs =
    rw
      (
        bytes_of-append (send_zdle_byte b) (send_zdle_bytes bs) rs,
        back b (bytes_of (send_zdle_bytes bs) ++ rs),
        read_zdle_bytes-send_zdle_bytes read_zdle back bs rs,
      )
      refl
