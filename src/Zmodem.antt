-- ===== src/Zmodem.antt =====
-- include/modem/zmodem.h: the bytes, the frame types, the status codes and the file information of
-- ZMODEM. The engine is src/zmodem.c.
pub mod Escape
pub mod Platform
pub mod Samples
pub mod Headers
pub mod Subpacket
pub mod Receive
pub mod Transmit
pub mod Session
mod Examples
use zephyr_zyx_modem.Base.{ℕ, zero, suc, ◌+◌, ◌*◌, ◌/◌, ◌%◌, ◌^◌, Bool, List, [], ◌∷◌}

-- Framing bytes
abbrev pub zpad : ℕ
zpad = b'*'

abbrev pub zdle : ℕ
zdle = 0x18

abbrev pub zdlee : ℕ
zdlee = 0x58

abbrev pub zbin : ℕ
zbin = b'A'

abbrev pub zhex : ℕ
zhex = b'B'

abbrev pub zbin32 : ℕ
zbin32 = b'C'

-- Frame types
abbrev pub zrqinit : ℕ
zrqinit = 0

abbrev pub zrinit : ℕ
zrinit = 1

abbrev pub zack : ℕ
zack = 3

abbrev pub zfile : ℕ
zfile = 4

abbrev pub zfin : ℕ
zfin = 8

abbrev pub zrpos : ℕ
zrpos = 9

abbrev pub zdata : ℕ
zdata = 10

abbrev pub zeof : ℕ
zeof = 11

-- Subpacket enders, and the two escapes that stand for a byte of their own
abbrev pub zcrce : ℕ
zcrce = b'h'

abbrev pub zcrcg : ℕ
zcrcg = b'i'

abbrev pub zcrcq : ℕ
zcrcq = b'j'

abbrev pub zcrcw : ℕ
zcrcw = b'k'

abbrev pub zrub0 : ℕ
zrub0 = b'l'

abbrev pub zrub1 : ℕ
zrub1 = b'm'

pub data Status : Type 0 where
  ok : Status
  error : Status
  error_timeout : Status
  error_cancel : Status
  error_crc : Status
  error_io : Status

-- `zmodem_file_info_t`; the name without its NUL
pub record FileInfo : Type 0 where
  pub filename : List ℕ
  pub size : ℕ

-- A header: its type, and its four flag bytes.
pub record Header : Type 0 where
  pub kind : ℕ
  pub flags : List ℕ

abbrev pub zero_flags : List ℕ
zero_flags = 0 ∷ 0 ∷ 0 ∷ 0 ∷ []

-- A position in a header goes low byte first.
abbrev pub position_flags : ℕ → List ℕ
position_flags n = (n % 256) ∷ (n / 256 % 256) ∷ (n / 65536 % 256) ∷ (n / 16777216 % 256) ∷ []

-- four bytes, low byte first, put together by shifts and `|`
abbrev pub join32 : ℕ → ℕ → ℕ → ℕ → ℕ
join32 c0 c1 c2 c3 = c0 + c1 * 256 + c2 * 65536 + c3 * 16777216
