-- ===== src/Zmodem/Transmit.antt =====
-- `zmodem_transmit` of src/zmodem.c. Its loop over the files takes fuel, and `none` means that it
-- ran out.
use zephyr_zyx_modem.Base.{
  ℕ, zero, suc, ◌+◌, ◌-◌, ◌/◌, min, Bool, false, ◌&&◌, Option, none, some, List, [], ◌∷◌, ◌++◌,
  length, take, ltb, leb, ◌==◌, if◌then◌else◌, add_size,
}
use zephyr_zyx_modem.Io.{Read, Io, send}
use zephyr_zyx_modem.Crc.{CrcService}
use zephyr_zyx_modem.Zmodem.Platform.{Platform}
use zephyr_zyx_modem.Clib.{print_size}
use zephyr_zyx_modem.Zmodem.{
  zrqinit, zrinit, zfile, zfin, zrpos, zdata, zeof, zcrcg, zcrcw, Status, ok, error_timeout,
  error_io, FileInfo, zero_flags, position_flags, join32,
}
use zephyr_zyx_modem.Zmodem.Headers.{send_hex_header, send_binary_header, read_header_tx, Framed}
use zephyr_zyx_modem.Zmodem.Subpacket.{Subpacket, send_subpacket}

-- Which callbacks of `zmodem_tx_callbacks_t` are not NULL.
pub record Callbacks : Type 0 where
  pub read_byte : Bool
  pub write_bytes : Bool
  pub get_file_info : Bool
  pub read_data : Bool

abbrev pub usable : Option Callbacks → Bool
usable none = false
usable (some cbs) = cbs.read_byte && cbs.write_bytes && cbs.get_file_info && cbs.read_data

-- the ZFILE subpacket: the name, cut to 200 bytes, and the size in decimal, each with its NUL
abbrev pub file_subpacket : FileInfo → Subpacket
file_subpacket info = record {
  payload = take 200 info.filename ++ (0 ∷ print_size info.size ++ (0 ∷ []));
  ending = zcrcw;
}

-- the position in a ZRPOS header
abbrev pub file_offset : List ℕ → ℕ
file_offset (f0 ∷ f1 ∷ f2 ∷ f3 ∷ []) = join32 f0 f1 f2 f3
file_offset _ = 0

-- one subpacket of file data
abbrev pub data_subpacket : (ℕ → ℕ → List ℕ) → (offset size : ℕ) → Subpacket
data_subpacket read_data offset size =
    let chunk = min (size - offset) 1024 in
    record {
      payload = read_data offset chunk;
      ending = if leb size (offset + chunk) then zcrcw else zcrcg;
    }

-- `while (file_offset < info.size)`: the subpackets. Each round takes 1024 bytes, or all that is
-- left, so that `size / 1024 + 1` rounds are enough.
unfoldable pub data_subpackets : ℕ → (ℕ → ℕ → List ℕ) → (offset size : ℕ) → List Subpacket
data_subpackets zero read_data offset size = []
data_subpackets (suc fuel) read_data offset size =
    let more = data_subpackets fuel read_data (offset + min (size - offset) 1024) size in
    if ltb offset size then data_subpacket read_data offset size ∷ more else []

unfoldable pub send_subpackets : CrcService → List Subpacket → List ℕ
send_subpackets svc [] = []
send_subpackets svc (p ∷ ps) = send_subpacket svc p ++ send_subpackets svc ps

abbrev pub is_kind : ℕ → Option Framed → Bool
is_kind kind none = false
is_kind kind (some f) = f.header.kind == kind

abbrev pub flags_of : Option Framed → List ℕ
flags_of none = []
flags_of (some f) = f.header.flags

-- `file_idx++` and the next round, or `return`
pub data Next : Type 0 where
  next_file : Io → Next
  stop : Status → Io → Next

abbrev pub with_input : List Read → Io → Io
with_input rs io = record io { input = rs }

abbrev pub hex_header : Platform → ℕ → List ℕ → List ℕ
hex_header svc kind flags = send_hex_header svc (record { kind = kind; flags = flags })

abbrev pub binary_header : CrcService → ℕ → List ℕ → List ℕ
binary_header svc kind flags = send_binary_header svc (record { kind = kind; flags = flags })

module _ (svc : Platform) (read_data : ℕ → ℕ → List ℕ) (info : FileInfo) where
  -- the ZDATA frame from an offset, and ZEOF
  unfoldable pub file_contents : (offset : ℕ) → List ℕ
  file_contents offset =
      binary_header svc.crc zdata (position_flags offset)
      ++ (send_subpackets svc.crc
            (data_subpackets (info.size / 1024 + 1) read_data offset info.size)
          ++ hex_header svc zeof (position_flags info.size))

  -- behind ZEOF
  unfoldable pub transmit_end : Io → Next
  transmit_end io =
      let (f, rs) = read_header_tx svc.crc io.input in
      if is_kind zrinit f
      then next_file (with_input rs io)
      else stop error_timeout (with_input rs io)

  -- behind ZFILE
  unfoldable pub transmit_contents : Io → Next
  unfolding transmit_end file_contents
  transmit_contents io =
      let (f, rs) = read_header_tx svc.crc io.input in
      if is_kind zrpos f
      then transmit_end (send (file_contents (file_offset (flags_of f))) (with_input rs io))
      else stop error_timeout (with_input rs io)

  unfoldable pub transmit_file : Io → Next
  unfolding transmit_contents
  transmit_file io = transmit_contents (
      send (send_subpacket svc.crc (file_subpacket info))
        (send (binary_header svc.crc zfile zero_flags) io))

-- The end of the batch. The answer to ZFIN does not matter for the status.
unfoldable pub transmit_finish : Platform → Io → Io
transmit_finish svc io =
    let io' = send (hex_header svc zfin zero_flags) io in
    let (f, rs) = read_header_tx svc.crc io'.input in
    if is_kind zfin f
    then send (b'O' ∷ []) (send (b'O' ∷ []) (with_input rs io'))
    else with_input rs io'

-- What `get_file_info` gives, without a result that has no name.
abbrev pub named : Option FileInfo → Option FileInfo
named (some info) = elim info.filename [ [] ↦ none | c ∷ cs ↦ some info ]
named none = none

module _ (svc : Platform) (get_file_info : ℕ → Option FileInfo)
    (read_data : ℕ → ℕ → ℕ → List ℕ) where
  unfoldable pub transmit_loop : ℕ → ℕ → Io → Option (Status × Io)
  transmit_loop zero file_idx io = none
  transmit_loop (suc fuel) file_idx io = elim (named (get_file_info file_idx)) [
    | none ↦ some (ok, transmit_finish svc io)
    | some info ↦ elim (transmit_file svc (read_data file_idx) info io) [
      | next_file io' ↦ transmit_loop fuel (add_size file_idx 1) io'
      | stop st io' ↦ some (st, io')
    ]
  ]

  -- Every file uses up entries of the script.
  unfoldable pub zmodem_transmit : Option Callbacks → Io → Option (Status × Io)
  zmodem_transmit cbs io =
      let io' = send (hex_header svc zrqinit zero_flags) io in
      let (f, rs) = read_header_tx svc.crc io'.input in
      if usable cbs
      then (if is_kind zrinit f
          then transmit_loop (suc (length io.input)) 0 (with_input rs io')
          else some (error_timeout, with_input rs io'))
      else some (error_io, io)
