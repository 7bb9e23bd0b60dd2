-- ===== src/Zmodem/Receive.antt =====
-- `zmodem_receive` of src/zmodem.c. The two loops of the source, and the loop over the subpackets of
-- a ZDATA frame, are the phases of one loop. It takes fuel, and `none` means that it ran out.
pub mod Progress
pub mod Returns
use zephyr_zyx_modem.Base.{
  ℕ, zero, suc, ◌+◌, Bool, true, false, ◌&&◌, ◌||◌, Option, none, some, List, [], ◌∷◌, ◌++◌, length,
  take, drop, ltb, ◌==◌, if◌then◌else◌, add_size,
}
use zephyr_zyx_modem.Io.{Read, Io, send}
use zephyr_zyx_modem.Crc.{CrcService}
use zephyr_zyx_modem.Zmodem.Platform.{Platform, IsPlatform}
use zephyr_zyx_modem.Clib.{until_nul, strtoul}
use zephyr_zyx_modem.Zmodem.{
  zrqinit, zrinit, zfile, zfin, zrpos, zdata, zeof, zcrce, zcrcw, Status, ok, error_timeout,
  error_io, FileInfo, Header, zero_flags,
}
use zephyr_zyx_modem.Zmodem.Headers.{send_hex_header, read_header_rx, Framed}
use zephyr_zyx_modem.Zmodem.Subpacket.{Subpacket, read_subpacket_rx}

-- Which callbacks of `zmodem_rx_callbacks_t` are not NULL.
pub record Callbacks : Type 0 where
  pub read_byte : Bool
  pub write_bytes : Bool
  pub on_file_start : Bool
  pub on_data : Bool
  pub on_file_end : Bool

abbrev pub usable : Option Callbacks → Bool
usable none = false
usable (some cbs) = cbs.read_byte && cbs.write_bytes

-- a call of the application
pub data Event : Type 0 where
  file_start : FileInfo → Event
  data_at : List ℕ → ℕ → Event
  file_end : FileInfo → Status → Event

pub record Rx : Type 0 where
  pub io : Io
  -- the calls made so far, oldest first
  pub events : List Event

-- Between the files, within a file at an offset, or within a ZDATA frame of it.
pub data Phase : Type 0 where
  between : Phase
  within : FileInfo → ℕ → Phase
  streaming : FileInfo → ℕ → Bool → Phase

pub data Next : Type 0 where
  continue : Phase → Rx → Next
  stop : Status → Rx → Next

-- a callback that is NULL is not called
abbrev pub log : Bool → Event → Rx → Rx
log present e s = record s { events = if present then s.events ++ (e ∷ []) else s.events }

abbrev pub with_input : List Read → Rx → Rx
with_input rs s = record s { io = record s.io { input = rs } }

abbrev pub send_rx : List ℕ → Rx → Rx
send_rx bytes s = record s { io = send bytes s.io }

-- The file information in a ZFILE subpacket. The name has at most 255 bytes, and the size is read
-- from the buffer, of which `stale` are the bytes behind the subpacket.
unfoldable pub file_info : (stale sub : List ℕ) → FileInfo
file_info stale sub =
    let name = take 255 (until_nul sub) in
    record {
      filename = name;
      size =
          if ltb (length name + 1) (length sub)
          then strtoul (drop (length name + 1) sub ++ stale)
          else 0;
    }

abbrev pub header : ℕ → Header
header kind = record { kind = kind; flags = zero_flags }

-- Every round uses up an entry of the script.
abbrev pub receive_fuel : Io → ℕ
receive_fuel io = suc (length io.input)

abbrev pub is_nonempty : List ℕ → Bool
is_nonempty [] = false
is_nonempty _ = true

-- `stale` gives the bytes of `sub_buf` behind a subpacket, after these events.
module _ (svc : Platform) (stale : List Event → List ℕ) (cbs : Callbacks) where
  -- behind ZFILE
  unfoldable pub receive_file : Option Subpacket → Rx → Next
  receive_file none s = stop error_io s
  receive_file (some p) s =
      let info = file_info (stale s.events) p.payload in
      continue (within info 0)
        (send_rx (send_hex_header svc (header zrpos)) (log cbs.on_file_start (file_start info) s))

  -- the header loop between the files
  unfoldable pub receive_between : Option Framed → Rx → Next
  receive_between none s = stop error_timeout s
  receive_between (some f) s =
      if f.header.kind == zrqinit
      then continue between (send_rx (send_hex_header svc (header zrinit)) s)
      else if f.header.kind == zfile
      then (let (p, rs) = read_subpacket_rx svc.crc 1024 f.is_crc32 s.io.input in
          receive_file p (with_input rs s))
      else if f.header.kind == zfin
      then stop ok (
          send_rx (b'O' ∷ []) (send_rx (b'O' ∷ []) (send_rx (send_hex_header svc (header zfin)) s)))
      else continue between s

  -- the header loop within a file
  unfoldable pub receive_within : FileInfo → ℕ → Option Framed → Rx → Next
  receive_within info offset none s =
      stop error_timeout (log cbs.on_file_end (file_end info error_timeout) s)
  receive_within info offset (some f) s =
      if f.header.kind == zdata
      then continue (streaming info offset f.is_crc32) s
      else if f.header.kind == zeof
      then continue between
          (send_rx (send_hex_header svc (header zrinit)) (log cbs.on_file_end (file_end info ok) s))
      else if f.header.kind == zfin
      then stop ok (send_rx (send_hex_header svc (header zfin)) s)
      else continue (within info offset) s

  -- `while (!data_done)`
  unfoldable pub receive_data : FileInfo → ℕ → Bool → Option Subpacket → Rx → Next
  receive_data info offset is_crc32 none s =
      stop error_io (log cbs.on_file_end (file_end info error_io) s)
  receive_data info offset is_crc32 (some p) s =
      let s' = log (cbs.on_data && is_nonempty p.payload) (data_at p.payload offset) s in
      let offset' = add_size offset (length p.payload) in
      if p.ending == zcrce || p.ending == zcrcw
      then continue (within info offset') s'
      else continue (streaming info offset' is_crc32) s'

  unfoldable pub receive_round : Phase → Rx → Next
  receive_round between s =
      let (f, rs) = read_header_rx svc.crc s.io.input in receive_between f (with_input rs s)
  receive_round (within info offset) s =
      let (f, rs) = read_header_rx svc.crc s.io.input in
      receive_within info offset f (with_input rs s)
  receive_round (streaming info offset is_crc32) s =
      let (p, rs) = read_subpacket_rx svc.crc 1024 is_crc32 s.io.input in
      receive_data info offset is_crc32 p (with_input rs s)

  unfoldable pub receive_loop : ℕ → Phase → Rx → Option (Status × Rx)
  receive_loop zero phase s = none
  receive_loop (suc fuel) phase s = elim (receive_round phase s) [
    | continue phase' s' ↦ receive_loop fuel phase' s'
    | stop st s' ↦ some (st, s')
  ]

  unfoldable pub receive_start : Io → Rx
  receive_start io = record { io = send (send_hex_header svc (header zrinit)) io; events = [] }

-- The status, and the line and the calls it leaves.
unfoldable pub zmodem_receive :
    Platform → (List Event → List ℕ) → Option Callbacks → Io → Option (Status × Rx)
zmodem_receive svc stale none io = some (error_io, record { io = io; events = [] })
zmodem_receive svc stale (some cbs) io =
    if usable (some cbs)
    then receive_loop svc stale cbs (receive_fuel io) between (receive_start svc stale cbs io)
    else some (error_io, record { io = io; events = [] })
