-- ===== src/Ymodem/Transmit.antt =====
-- `ymodem_transmit` of src/ymodem.c. Its loops over the files and over the blocks of a file take
-- fuel, and `none` means that it ran out.
use zephyr_zyx_modem.Base.{
  ℕ, zero, suc, ◌+◌, ◌-◌, ◌/◌, min, Bool, false, ◌&&◌, Option, none, some, List, [], ◌∷◌, ◌++◌,
  length, replicate, ltb, ◌==◌, if◌then◌else◌, add_u8, add_size,
}
use zephyr_zyx_modem.Io.{Read, byte, Io, first, after_read, send}
use zephyr_zyx_modem.Xmodem.Transmit.{overlay}
use zephyr_zyx_modem.Crc.{CrcService, modem_crc16, crc16_bytes}
use zephyr_zyx_modem.Xmodem.{soh, stx, eot, ack, nak, can, crc_request}
use zephyr_zyx_modem.Ymodem.{
  Status, ok, error_timeout, error_cancel, error_io, FileInfo, max_retries, block0,
}

-- Which callbacks of `ymodem_tx_callbacks_t` are not NULL.
pub record Callbacks : Type 0 where
  pub read_byte : Bool
  pub write_bytes : Bool
  pub get_file_info : Bool
  pub read_data : Bool

abbrev pub usable : Option Callbacks → Bool
usable none = false
usable (some cbs) = cbs.read_byte && cbs.write_bytes && cbs.get_file_info && cbs.read_data

-- what an answer of the receiver is, where `wanted` is waited for
pub data Answer : Type 0 where
  wanted : Answer
  cancel : Answer
  other : Answer

abbrev pub answer : ℕ → Read → Answer
answer c (byte b) = if b == c then wanted else if b == can then cancel else other
answer c _ = other

-- How a loop of retries ends: with the answer, with CAN, or with no retry left.
pub data Outcome : Type 0 where
  done : Io → Outcome
  cancelled_by_peer : Io → Outcome
  gave_up : Io → Outcome

-- the wait for 'C', with the retries that are left
unfoldable pub wait_c : (left : ℕ) → Io → Outcome
wait_c zero io = gave_up io
wait_c (suc left) io = elim (answer crc_request (first io.input)) [
  | wanted ↦ done (after_read io)
  | cancel ↦ cancelled_by_peer (after_read io)
  | other ↦ wait_c left (after_read io)
]

-- a block with its header, its number, the complement `~num`, its payload and its CRC
unfoldable pub packet : CrcService → (num : ℕ) → List ℕ → List ℕ
packet svc num payload =
    (if length payload == 1024 then stx else soh)
    ∷ num
    ∷ (255 - num)
    ∷ (payload ++ crc16_bytes (modem_crc16 svc payload))

-- a block until it is acknowledged, with the retries that are left
unfoldable pub send_block : CrcService → (left num : ℕ) → List ℕ → Io → Outcome
unfolding packet
send_block svc zero num payload io = gave_up io
send_block svc (suc left) num payload io =
    let io' = send (packet svc num payload) io in
    elim (answer ack (first io'.input)) [
      | wanted ↦ done (after_read io')
      | cancel ↦ cancelled_by_peer (after_read io')
      | other ↦ send_block svc left num payload (after_read io')
    ]

abbrev pub block_size : (remaining : ℕ) → ℕ
block_size remaining = if ltb 128 remaining then 1024 else 128

abbrev pub read_bytes : (remaining : ℕ) → ℕ
read_bytes remaining = min remaining (block_size remaining)

-- `memset(payload, 0x1A, block_size)`, and what `read_data` writes over it from the start on
abbrev pub block_payload : (ℕ → ℕ → List ℕ) → (offset remaining : ℕ) → List ℕ
block_payload read_data offset remaining =
    overlay (read_data offset (read_bytes remaining)) (replicate (block_size remaining) 0x1A)

-- `file_idx++` and the next round, or `return`
pub data Next : Type 0 where
  next_file : Io → Next
  stop : Status → Io → Next

-- the end of a file
unfoldable pub send_eot : Io → Io
send_eot io =
    let io1 = send (eot ∷ []) io in
    elim (answer nak (first io1.input)) [
      | wanted ↦ after_read (send (eot ∷ []) (after_read io1))
      | _ ↦ after_read io1
    ]

module _ (svc : CrcService) (read_data : ℕ → ℕ → List ℕ) (size : ℕ) where
  -- `while (file_offset < info.size)`, and the end of the file. Each round takes 128 bytes at
  -- least, or all that is left.
  unfoldable pub send_contents : ℕ → (offset block_num : ℕ) → Io → Option Next
  send_contents zero offset block_num io =
      if ltb offset size then none else some (next_file (send_eot io))
  send_contents (suc fuel) offset block_num io =
      let remaining = size - offset in
      if ltb offset size
      then elim (send_block svc max_retries block_num (block_payload read_data offset remaining)
          io) [
            | done io' ↦
                send_contents fuel (add_size offset (read_bytes remaining)) (add_u8 block_num 1) io'
            | cancelled_by_peer io' ↦ some (stop error_cancel io')
            | gave_up io' ↦ some (stop error_timeout io')
          ]
      else some (next_file (send_eot io))

-- What `get_file_info` gives, without a result that has no name.
abbrev pub named : Option FileInfo → Option FileInfo
named (some info) = elim info.filename [ [] ↦ none | c ∷ cs ↦ some info ]
named none = none

-- the block 0 that is sent for it
abbrev pub block0_of : Option FileInfo → List ℕ
block0_of none = replicate 128 0
block0_of (some info) = block0 info

abbrev pub is_answer : ℕ → Read → Bool
is_answer c (byte b) = b == c
is_answer c _ = false

module _ (svc : CrcService) (read_data : ℕ → ℕ → List ℕ) where
  -- behind the ACK of a block 0
  unfoldable pub transmit_contents : Option FileInfo → Io → Option Next
  transmit_contents none io = some (stop ok io)
  transmit_contents (some info) io =
      if is_answer crc_request (first io.input)
      then send_contents svc read_data info.size (info.size / 128 + 1) 0 1 (after_read io)
      else some (stop error_timeout (after_read io))

  -- behind the 'C' for a block 0
  unfoldable pub transmit_block0 : Option FileInfo → Io → Option Next
  transmit_block0 info io =
      let block = block0_of info in
      let io' = send (soh ∷ 0 ∷ 0xFF ∷ (block ++ crc16_bytes (modem_crc16 svc block))) io in
      if is_answer ack (first io'.input)
      then transmit_contents info (after_read io')
      else some (stop error_timeout (after_read io'))

  -- one round of `while (1)`
  unfoldable pub transmit_file : Option FileInfo → Io → Option Next
  transmit_file info io = elim (wait_c max_retries io) [
    | done io' ↦ transmit_block0 info io'
    | cancelled_by_peer io' ↦ some (stop error_cancel io')
    | gave_up io' ↦ some (stop error_timeout io')
  ]

module _ (svc : CrcService) (get_file_info : ℕ → Option FileInfo)
    (read_data : ℕ → ℕ → ℕ → List ℕ) where
  unfoldable pub transmit_loop : ℕ → (file_idx : ℕ) → Io → Option (Status × Io)
  transmit_loop zero file_idx io = none
  transmit_loop (suc fuel) file_idx io =
      elim (transmit_file svc (read_data file_idx) (named (get_file_info file_idx)) io) [
        | none ↦ none
        | some (next_file io') ↦ transmit_loop fuel (add_size file_idx 1) io'
        | some (stop st io') ↦ some (st, io')
      ]

  -- Every file uses up entries of the script.
  unfoldable pub ymodem_transmit : Option Callbacks → Io → Option (Status × Io)
  ymodem_transmit cbs io =
      if usable cbs then transmit_loop (suc (length io.input)) 0 io else some (error_io, io)
