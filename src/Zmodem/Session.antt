-- ===== src/Zmodem/Session.antt =====
-- A ZMODEM session: what `zmodem_transmit` sends for a batch, and what `zmodem_receive` makes of it.
pub mod Info
pub mod Data
pub mod Rounds
pub mod Batch
pub mod Contents
pub mod Pieces
pub mod Turns
pub mod Answers
pub mod Both
use zephyr_zyx_modem.Base.{
  ℕ, zero, suc, take, drop, leb, if◌then◌else◌, ◌+◌, ◌/◌, ◌≤◌, ◌<◌, ◌^◌, ◌≡◌, false, List, [], ◌∷◌,
  ◌++◌, length, ◌==◌, All,
}
use zephyr_zyx_modem.Crc.{CrcService}
use zephyr_zyx_modem.Zmodem.Platform.{Platform, IsPlatform}
use zephyr_zyx_modem.Zmodem.{
  FileInfo, zfile, zfin, zrinit, zrpos, zdata, zeof, zcrcg, zcrcw, zero_flags, position_flags, ok,
}
use zephyr_zyx_modem.Zmodem.Subpacket.{Subpacket, send_subpacket}
use zephyr_zyx_modem.Zmodem.Receive.{Event, file_start, data_at, file_end}
use zephyr_zyx_modem.Zmodem.Transmit.{file_subpacket, binary_header, hex_header, send_subpackets}

-- A file of the batch: its information, and its bytes.
pub record Source : Type 0 where
  pub info : FileInfo
  pub contents : List ℕ

-- A file that the protocol carries over: its name has 1 to 200 bytes, none of them NUL, it is not
-- empty, and its size is that of its bytes.
pub record IsSource (f : Source) : Type 0 where
  pub named : 1 ≤ length f.info.filename
  pub short_name : length f.info.filename ≤ 200
  pub no_nul : All (λ b. (b == 0) ≡ false) f.info.filename
  pub nonempty : 1 ≤ f.info.size
  pub size_fits : f.info.size < 2 ^ 64
  pub sized : f.info.size ≡ length f.contents

-- A file in pieces of 1024 bytes, where only the last may be shorter; the pieces before the last end
-- with ZCRCG and the last with ZCRCW. The first argument bounds their number.
unfoldable pub pieces : ℕ → List ℕ → List Subpacket
pieces zero bytes = []
pieces (suc most) bytes =
    let more = pieces most (drop 1024 bytes) in
    if length bytes == 0
    then []
    else record {
      payload = take 1024 bytes;
      ending = if leb (length bytes) 1024 then zcrcw else zcrcg;
    }
      ∷ more

abbrev pub subpackets_of : Source → List Subpacket
subpackets_of f = pieces (length f.contents / 1024 + 1) f.contents

-- what goes over the line for a file that the receiver wants from its start
abbrev pub file_stream : Platform → Source → List ℕ
file_stream svc f =
    binary_header svc.crc zfile zero_flags
    ++ (send_subpacket svc.crc (file_subpacket f.info)
        ++ (binary_header svc.crc zdata (position_flags 0)
            ++ (send_subpackets svc.crc (subpackets_of f)
                ++ hex_header svc zeof (position_flags f.info.size))))

-- the calls of `on_data` for subpackets that lie one behind the other
abbrev pub data_events : ℕ → List Subpacket → List Event
data_events offset [] = []
data_events offset (p ∷ ps) = data_at p.payload offset ∷ data_events (offset + length p.payload) ps

-- the calls of the receiver for a file
abbrev pub file_events : Source → List Event
file_events f = file_start f.info ∷ (data_events 0 (subpackets_of f) ++ (file_end f.info ok ∷ []))

-- what the transmitter sends from the first file to ZFIN
abbrev pub batch_stream : Platform → List Source → List ℕ
batch_stream svc [] = hex_header svc zfin zero_flags
batch_stream svc (f ∷ fs) = file_stream svc f ++ batch_stream svc fs

abbrev pub batch_events : List Source → List Event
batch_events [] = []
batch_events (f ∷ fs) = file_events f ++ batch_events fs

-- the receiver's answers to them
abbrev pub batch_answers : Platform → List Source → List ℕ
batch_answers svc [] = hex_header svc zfin zero_flags ++ (b'O' ∷ b'O' ∷ [])
batch_answers svc (f ∷ fs) =
    hex_header svc zrpos zero_flags ++ (hex_header svc zrinit zero_flags ++ batch_answers svc fs)
