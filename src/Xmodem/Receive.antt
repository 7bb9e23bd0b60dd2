-- ===== src/Xmodem/Receive.antt =====
-- `xmodem_receive` of src/xmodem.c. Its local variables and its line are one record; each step of
-- the comments in the source is a function from that record to the way the loop goes on.
-- A round of the loop is `receive_round`; the loop takes fuel, and `none` means that it ran out.
pub mod Rounds
pub mod Accept
pub mod Transfer
pub mod Progress
pub mod Sound
use zephyr_zyx_modem.Base.{
  ℕ, zero, suc, ◌+◌, ◌/◌, ◌%◌, Bool, true, false, ◌&&◌, Option, none, some, List, [], ◌∷◌, ◌++◌,
  length, ltb, ◌==◌, if◌then◌else◌, add_u8, add_size,
}
use zephyr_zyx_modem.Io.{
  Read, byte, cancelled, failed, Io, first, rest, after_read, send, purge, Pair, bytes, pair,
  Payload, full, read_payload,
}
use zephyr_zyx_modem.Crc.{CrcService, modem_crc16, modem_checksum8, join16}
use zephyr_zyx_modem.Xmodem.{
  soh, stx, eot, ack, nak, can, crc_request, is_one_k, block_size_128, block_size_1024, Status, ok,
  error, error_timeout, error_cancel, error_sequence, error_io, Mode, standard, one_k, Config,
  Callbacks, usable, config_or_default, Block,
}

pub record Rx : Type 0 where
  pub io : Io
  pub open io use *
  -- what `data_cb` has accepted so far, oldest first
  pub stored : List Block
  pub expected_block : ℕ
  pub total_bytes : ℕ
  pub retries : ℕ
  pub crc_mode : Bool
  pub req : ℕ

-- `continue` with the loop, or `return`
pub data Next : Type 0 where
  continue : Rx → Next
  stop : Status → Rx → Next

abbrev pub send_rx : List ℕ → Rx → Rx
send_rx bs s = record s { io = send bs s.io }

-- `send_byte(CAN)` twice, and the return
abbrev pub cancel : Status → Rx → Next
cancel st s = stop st (send_rx (can ∷ []) (send_rx (can ∷ []) s))

-- `purge_rx; retries++; send_byte(NAK); continue`
abbrev pub reject : Rx → Next
reject s = continue (record s { io = send (nak ∷ []) (purge s.io); retries = add_u8 s.retries 1 })

-- whether the receiver asks for CRC-16 at first
abbrev pub asks_crc : Mode → Bool
asks_crc standard = false
asks_crc _ = true

-- Step 2a, a header read that failed, behind `retries++`: the CRC handshake falls back to the
-- checksum. `mode != CRC` in CRC mode leaves the mode 1K.
fall_back : Config → Rx → Rx
fall_back cfg s =
    if s.total_bytes == 0 && ltb (cfg.max_retries / 2) s.retries && s.crc_mode && is_one_k cfg.mode
    then record s { crc_mode = false; req = nak }
    else s

pub receive_timeout : Config → Rx → Next
unfolding fall_back
receive_timeout cfg s =
    let s1 = record s { retries = add_u8 s.retries 1 } in
    if ltb cfg.max_retries s1.retries
    then cancel error_timeout s1
    else (let s2 = fall_back cfg s1 in
        continue (send_rx ((if s2.total_bytes == 0 then s2.req else nak) ∷ []) s2))

-- Step 2d, a header that starts no block
pub receive_bad_header : Config → Rx → Next
receive_bad_header cfg s =
    let s1 = record s { io = purge s.io; retries = add_u8 s.retries 1 } in
    if ltb cfg.max_retries s1.retries
    then stop error (send_rx (can ∷ []) s1)
    else continue (send_rx (nak ∷ []) s1)

-- The result: the status, what is written through `total_received`, the line, and the blocks
-- that `data_cb` took.
pub record Result : Type 0 where
  pub status : Status
  pub total_received : Option ℕ
  pub final : Io
  pub received : List Block

abbrev pub total_out : Status → ℕ → Option ℕ
total_out ok total = some total
total_out _ total = none

abbrev finish : Status → Rx → Result
finish st s = record {
  status = st;
  total_received = total_out st s.total_bytes;
  final = s.io;
  received = s.stored;
}

-- Step 1
unfoldable pub receive_start : Config → Io → Rx
receive_start cfg io =
    let crc_mode = asks_crc cfg.mode in
    let req : ℕ = if crc_mode then crc_request else nak in
    record {
      io = send (req ∷ []) io;
      stored = [];
      expected_block = 1;
      total_bytes = 0;
      retries = 0;
      crc_mode = crc_mode;
      req = req;
    }

-- Every round uses up an entry of the script or, once that is empty, a retry.
pub receive_fuel : Io → ℕ
receive_fuel io = length io.input + 258

-- `accepts` is `data_cb`: whether it takes a block, behind those that it took before.
module _ (svc : CrcService) (accepts : List Block → Block → Bool) where
  -- Step 2h; `block_len` is the length of the payload.
  pub receive_accept : ℕ → List ℕ → Rx → Next
  receive_accept num payload s =
      let block : Block = record { num = s.expected_block; payload = payload } in
      if num == s.expected_block
      then (if accepts s.stored block
          then continue (record s {
            io = send (ack ∷ []) s.io;
            stored = s.stored ++ (block ∷ []);
            expected_block = add_u8 s.expected_block 1;
            total_bytes = add_size s.total_bytes (length payload);
            retries = 0;
            req = ack;
          })
          else cancel error_io s)
      else if num == (s.expected_block + 255) % 256
      then continue (send_rx (ack ∷ []) s)
      else cancel error_sequence s

  -- Step 2g in CRC mode, from the two bytes read
  pub receive_crc : ℕ → List ℕ → Pair → Rx → Next
  receive_crc num payload (bytes hi lo) s =
      if join16 hi lo == modem_crc16 svc payload then receive_accept num payload s else reject s
  receive_crc num payload Pair.cancelled s = cancel error_cancel s
  receive_crc num payload Pair.failed s = reject s

  -- Step 2g in checksum mode, from the byte read
  pub receive_checksum : ℕ → List ℕ → Read → Rx → Next
  receive_checksum num payload (byte sum) s =
      if sum == modem_checksum8 (some payload) then receive_accept num payload s else reject s
  receive_checksum num payload cancelled s = cancel error_cancel s
  receive_checksum num payload failed s = reject s

  -- Step 2g
  pub receive_check : ℕ → List ℕ → Rx → Next
  receive_check num payload s =
      if s.crc_mode
      then receive_crc num payload (pair (first s.input) (first (rest s.input)))
          (record s { io = after_read (after_read s.io) })
      else receive_checksum num payload (first s.input) (record s { io = after_read s.io })

  -- Step 2f, from what the payload loop read
  pub receive_payload : ℕ → Payload → Rx → Next
  receive_payload num (full payload) s = receive_check num payload s
  receive_payload num Payload.cancelled s = cancel error_cancel s
  receive_payload num Payload.failed s = reject s

  -- Step 2e, from the two bytes read, and the payload loop
  pub receive_numbers : ℕ → Pair → Rx → Next
  receive_numbers len (bytes num inv) s =
      if add_u8 num inv == 0xFF
      then (let (p, rs) = read_payload len s.input in
          receive_payload num p (record s { io = record s.io { input = rs } }))
      else reject s
  receive_numbers len Pair.cancelled s = cancel error_cancel s
  receive_numbers len Pair.failed s = reject s

  -- Steps 2e to 2h, behind a header that announces `len` bytes
  pub receive_block : ℕ → Rx → Next
  receive_block len s =
      receive_numbers len (pair (first s.input) (first (rest s.input)))
        (record s { io = after_read (after_read s.io) })

  -- Steps 2b to 2d
  pub receive_header : Config → ℕ → Rx → Next
  receive_header cfg header s =
      if header == eot
      then stop ok (send_rx (ack ∷ []) s)
      else if header == can
      then stop error_cancel (record s { io = after_read s.io })
      else if header == soh
      then receive_block block_size_128 s
      else if header == stx
      then receive_block block_size_1024 s
      else receive_bad_header cfg s

  -- Step 2a, and the rest behind a header
  pub receive_answer : Config → Read → Rx → Next
  receive_answer cfg (byte header) s = receive_header cfg header s
  receive_answer cfg cancelled s = cancel error_cancel s
  receive_answer cfg failed s = receive_timeout cfg s

  -- one round of `while (1)`
  pub receive_round : Config → Rx → Next
  receive_round cfg s = receive_answer cfg (first s.input) (record s { io = after_read s.io })

  pub receive_loop : ℕ → Config → Rx → Option (Status × Rx)
  receive_loop zero cfg s = none
  receive_loop (suc fuel) cfg s = elim (receive_round cfg s) [
    | continue s' ↦ receive_loop fuel cfg s'
    | stop st s' ↦ some (st, s')
  ]

  pub xmodem_receive : Option Callbacks → Option Config → Io → Option Result
  xmodem_receive callbacks config io =
      if usable callbacks
      then (let cfg = config_or_default config in
          elim (receive_loop (receive_fuel io) cfg (receive_start cfg io)) [
            | none ↦ none
            | some (st, s) ↦ some (finish st s)
          ])
      else some (record { status = error_io; total_received = none; final = io; received = [] })
