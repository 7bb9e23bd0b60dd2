-- ===== src/Zmodem/Escape.antt =====
-- The ZDLE escapes of src/zmodem.c: `read_zdle_byte_rx`, `read_zdle_byte_tx` and
-- `send_zdle_byte_tx`.
pub mod Laws
use zephyr_zyx_modem.Base.{
  ℕ, zero, suc, Bool, true, false, ◌||◌, Option, none, some, List, [], ◌∷◌, ◌++◌, ◌==◌,
  if◌then◌else◌, bit_xor,
}
use zephyr_zyx_modem.Io.{Read, byte, first, rest}
use zephyr_zyx_modem.Zmodem.{zdle, zdlee, zcrce, zcrcg, zcrcq, zcrcw, zrub0, zrub1}

-- The result of a read: 0 and a byte, 1 and an ender, -2, or -1.
pub data Zdle : Type 0 where
  plain : ℕ → Zdle
  ender : ℕ → Zdle
  cancelled : Zdle
  failed : Zdle

abbrev pub is_ender : ℕ → Bool
is_ender ch = ch == zcrce || ch == zcrcg || ch == zcrcq || ch == zcrcw

-- the byte behind a ZDLE, for the receiver
abbrev pub unescape_rx : Read → Zdle
unescape_rx (byte ch) =
    if is_ender ch
    then ender ch
    else if ch == zdlee
    then plain zdle
    else if ch == zrub0
    then plain 0x7F
    else if ch == zrub1
    then plain 0xFF
    else plain (bit_xor ch 0x40)
unescape_rx _ = Zdle.failed

-- the byte behind a ZDLE, for the transmitter
abbrev pub unescape_tx : Read → Zdle
unescape_tx (byte ch) =
    if is_ender ch then ender ch else if ch == zdlee then plain zdle else plain (bit_xor ch 0x40)
unescape_tx _ = Zdle.failed

-- what both read, from the way they read an escape
abbrev pub read_zdle_byte : (Read → Zdle) → List Read → Zdle × List Read
read_zdle_byte unescape [] = (Zdle.failed, [])
read_zdle_byte unescape (byte ch ∷ rs) =
    if ch == zdle then (unescape (first rs), rest rs) else (plain ch, rs)
read_zdle_byte unescape (Read.cancelled ∷ rs) = (Zdle.cancelled, rs)
read_zdle_byte unescape (Read.failed ∷ rs) = (Zdle.failed, rs)

unfoldable pub read_zdle_byte_rx : List Read → Zdle × List Read
read_zdle_byte_rx rs = read_zdle_byte unescape_rx rs

unfoldable pub read_zdle_byte_tx : List Read → Zdle × List Read
read_zdle_byte_tx rs = read_zdle_byte unescape_tx rs

-- Header and check bytes are read with a test for a negative result only, so that an ender counts
-- as a byte.
abbrev pub any_byte : Zdle → Option ℕ
any_byte (plain b) = some b
any_byte (ender b) = some b
any_byte _ = none

abbrev pub with_front : ℕ → Option (List ℕ) → Option (List ℕ)
with_front b none = none
with_front b (some bs) = some (b ∷ bs)

abbrev pub continue_with :
    Option ℕ → Option (List ℕ) × List Read → List Read → Option (List ℕ) × List Read
continue_with none more rs = (none, rs)
continue_with (some b) more rs = (with_front b more.0, more.1)

-- `n` reads, which stop at the first that fails
unfoldable pub read_zdle_bytes :
    (List Read → Zdle × List Read) → ℕ → List Read → Option (List ℕ) × List Read
read_zdle_bytes read_zdle zero rs = (some [], rs)
read_zdle_bytes read_zdle (suc n) rs =
    let (z, rs') = read_zdle rs in
    let more = read_zdle_bytes read_zdle n rs' in continue_with (any_byte z) more rs'

abbrev pub is_escaped : ℕ → Bool
is_escaped b = b == zdle || b == 0x11 || b == 0x13 || b == 0x81 || b == 0x83

-- `send_zdle_byte_tx`: the bytes it writes
abbrev pub send_zdle_byte : ℕ → List ℕ
send_zdle_byte b = if is_escaped b then zdle ∷ bit_xor b 0x40 ∷ [] else b ∷ []

unfoldable pub send_zdle_bytes : List ℕ → List ℕ
send_zdle_bytes [] = []
send_zdle_bytes (b ∷ bs) = send_zdle_byte b ++ send_zdle_bytes bs
