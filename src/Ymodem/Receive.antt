-- ===== src/Ymodem/Receive.antt =====
-- `ymodem_receive` of src/ymodem.c. The loop that waits for a block 0 and the loop over the blocks of
-- a file are the phases of one loop. It takes fuel, and `none` means that it ran out.
pub mod Accept
pub mod Returns
use zephyr_zyx_modem.Base.{
  ℕ, zero, suc, ◌+◌, ◌-◌, ◌%◌, ◌^◌, Bool, true, false, ◌&&◌, ◌||◌, Option, none, some, List, [],
  ◌∷◌, ◌++◌, length, ltb, ◌==◌, if◌then◌else◌, add_u8, add_size,
}
use zephyr_zyx_modem.Io.{
  Read, byte, cancelled, failed, Io, first, rest, after_read, send, purge, Payload, full,
  read_payload,
}
use zephyr_zyx_modem.Crc.{CrcService, modem_crc16, join16}
use zephyr_zyx_modem.Xmodem.{soh, stx, eot, ack, nak, can, crc_request}
use zephyr_zyx_modem.Ymodem.{
  Status, ok, error_timeout, error_cancel, error_sequence, error_io, FileInfo, max_retries,
  parse_block0, two_bytes,
}

-- Which callbacks of `ymodem_rx_callbacks_t` are not NULL.
pub record Callbacks : Type 0 where
  pub read_byte : Bool
  pub write_bytes : Bool
  pub on_file_start : Bool
  pub on_data : Bool
  pub on_file_end : Bool

abbrev pub usable : Option Callbacks → Bool
usable none = false
usable (some cbs) = cbs.read_byte && cbs.write_bytes

-- A call of the application. `on_data` gets a buffer, a length and an offset.
pub data Event : Type 0 where
  file_start : FileInfo → Event
  data_at : List ℕ → (len offset : ℕ) → Event
  file_end : FileInfo → Status → Event

pub record Rx : Type 0 where
  pub io : Io
  -- the calls made so far, oldest first
  pub events : List Event

-- Waiting for a block 0, or within a file.
pub data Phase : Type 0 where
  waiting : (retries : ℕ) → Phase
  receiving : FileInfo → (retries expected_blk file_offset : ℕ) → Phase

pub data Next : Type 0 where
  continue : Phase → Rx → Next
  stop : Status → Rx → Next

abbrev pub log : Bool → Event → Rx → Rx
log present e s = record s { events = if present then s.events ++ (e ∷ []) else s.events }

abbrev pub send_rx : List ℕ → Rx → Rx
send_rx bytes s = record s { io = send bytes s.io }

abbrev pub read_rx : Rx → Rx
read_rx s = record s { io = after_read s.io }

-- a block that passed its CRC
pub record Packet : Type 0 where
  pub num : ℕ
  pub payload : List ℕ

unfoldable pub checked_packet : CrcService → ℕ → Payload → Option (ℕ × ℕ) → Option Packet
checked_packet svc num (full payload) (some (hi, lo)) =
    if join16 hi lo == modem_crc16 svc payload
    then some (record { num = num; payload = payload })
    else none
checked_packet svc num _ _ = none

-- What follows a header that announces `len` bytes. The CRC bytes are read even when the payload
-- failed. The complement of the number is read and not looked at.
unfoldable pub read_packet : CrcService → ℕ → List Read → Option Packet × List Read
unfolding two_bytes checked_packet
read_packet svc len rs =
    let (numbers, rs1) = two_bytes rs in
    elim numbers [
      | none ↦ (none, rs1)
      | some numbers' ↦ (
        checked_packet svc numbers'.0 (read_payload len rs1).0
            (two_bytes (read_payload len rs1).1).0,
        (two_bytes (read_payload len rs1).1).1,
      )
    ]

abbrev pub block_len : ℕ → ℕ
block_len header = if header == stx then 1024 else 128

abbrev pub is_block : ℕ → Bool
is_block header = header == soh || header == stx

-- the head of `while (1)`
abbrev pub next_file : Rx → Next
next_file s = continue (waiting 0) (send_rx (crc_request ∷ []) s)

-- `retries++; send_byte(C); continue`
abbrev pub ask_again : ℕ → Rx → Next
ask_again retries s = continue (waiting (add_u8 retries 1)) (send_rx (crc_request ∷ []) s)

abbrev pub purge_rx : Rx → Rx
purge_rx s = record s { io = purge s.io }

-- How much of a block belongs to the file: `info.size - file_offset` in `size_t`.
abbrev pub write_len : FileInfo → (file_offset blk_size : ℕ) → ℕ
write_len info file_offset blk_size =
    if ltb 0 info.size && ltb info.size (add_size file_offset blk_size)
    then (info.size + 2 ^ 64 - file_offset) % 2 ^ 64
    else blk_size

module _ (svc : CrcService) (cbs : Callbacks) where
  -- the test of the name's first byte
  abbrev pub receive_named : ℕ → FileInfo → (filename : List ℕ) → Rx → Next
  receive_named retries info [] s = stop ok (send_rx (ack ∷ []) s)
  receive_named retries info (c ∷ cs) s =
      continue (receiving info retries 1 0) (
        log cbs.on_file_start (file_start info) (send_rx (crc_request ∷ []) (send_rx (ack ∷ []) s)))

  -- behind the loop, with a block 0
  unfoldable pub receive_info : ℕ → FileInfo → Rx → Next
  receive_info retries info s = receive_named retries info info.filename s

  unfoldable pub receive_block0 : ℕ → Option Packet → Rx → Next
  receive_block0 retries none s = ask_again retries (purge_rx s)
  receive_block0 retries (some p) s =
      if p.num == 0
      then receive_info retries (parse_block0 p.payload 128) s
      else ask_again retries (purge_rx s)

  unfoldable pub receive_waiting : ℕ → Read → Rx → Next
  receive_waiting retries cancelled s =
      stop error_cancel (send_rx (can ∷ []) (send_rx (can ∷ []) s))
  receive_waiting retries failed s = ask_again retries s
  receive_waiting retries (byte header) s =
      if header == can
      then stop error_cancel s
      else if is_block header
      then (let (p, rs) = read_packet svc (block_len header) s.io.input in
          receive_block0 retries p (record s { io = record s.io { input = rs } }))
      else ask_again retries (purge_rx s)

  -- `file_end` and `return`
  abbrev pub stop_file : FileInfo → Status → Rx → Next
  stop_file info st s = stop st (log cbs.on_file_end (file_end info st) s)

  unfoldable pub receive_packet :
      FileInfo → (retries expected_blk file_offset : ℕ) → Option Packet → Rx → Next
  receive_packet info retries expected_blk file_offset none s =
      continue (receiving info retries expected_blk file_offset) (send_rx (nak ∷ []) (purge_rx s))
  receive_packet info retries expected_blk file_offset (some p) s =
      let len = write_len info file_offset (length p.payload) in
      if p.num == expected_blk
      then continue
          (receiving info 0 (add_u8 expected_blk 1) (add_size file_offset (length p.payload)))
          (send_rx (ack ∷ [])
            (log (cbs.on_data && ltb 0 len) (data_at p.payload len file_offset) s))
      else if p.num == (expected_blk + 255) % 256
      then continue (receiving info retries expected_blk file_offset) (send_rx (ack ∷ []) s)
      else stop_file info error_sequence (send_rx (can ∷ []) s)

  unfoldable pub receive_data : FileInfo → (retries expected_blk file_offset : ℕ) → Read → Rx → Next
  receive_data info retries expected_blk file_offset cancelled s =
      stop_file info error_cancel (send_rx (can ∷ []) (send_rx (can ∷ []) s))
  receive_data info retries expected_blk file_offset failed s =
      let retries' = add_u8 retries 1 in
      if ltb max_retries retries'
      then stop_file info error_timeout (send_rx (can ∷ []) s)
      else continue (receiving info retries' expected_blk file_offset) (send_rx (nak ∷ []) s)
  receive_data info retries expected_blk file_offset (byte header) s =
      if header == eot
      then next_file (
          log cbs.on_file_end (file_end info ok)
            (send_rx (ack ∷ []) (read_rx (send_rx (nak ∷ []) s))))
      else if header == can
      then stop_file info error_cancel s
      else if is_block header
      then (let (p, rs) = read_packet svc (block_len header) s.io.input in
          receive_packet info retries expected_blk file_offset p
            (record s { io = record s.io { input = rs } }))
      else continue (receiving info retries expected_blk file_offset)
          (send_rx (nak ∷ []) (purge_rx s))

  unfoldable pub receive_round : Phase → Rx → Next
  receive_round (waiting retries) s =
      if ltb retries max_retries
      then receive_waiting retries (first s.io.input) (read_rx s)
      else stop error_timeout (send_rx (can ∷ []) s)
  receive_round (receiving info retries expected_blk file_offset) s =
      receive_data info retries expected_blk file_offset (first s.io.input) (read_rx s)

  unfoldable pub receive_loop : ℕ → Phase → Rx → Option (Status × Rx)
  receive_loop zero phase s = none
  receive_loop (suc fuel) phase s = elim (receive_round phase s) [
    | continue phase' s' ↦ receive_loop fuel phase' s'
    | stop st s' ↦ some (st, s')
  ]

-- Every round uses up an entry of the script or, once that is empty, a retry.
abbrev pub receive_fuel : Io → ℕ
receive_fuel io = length io.input + 13

-- The status, and the line and the calls it leaves.
unfoldable pub ymodem_receive : CrcService → Option Callbacks → Io → Option (Status × Rx)
ymodem_receive svc none io = some (error_io, record { io = io; events = [] })
ymodem_receive svc (some cbs) io =
    if usable (some cbs)
    then receive_loop svc cbs (receive_fuel io) (waiting 0)
        (record { io = send (crc_request ∷ []) io; events = [] })
    else some (error_io, record { io = io; events = [] })
