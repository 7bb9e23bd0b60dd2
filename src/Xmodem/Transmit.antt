-- ===== src/Xmodem/Transmit.antt =====
-- `xmodem_transmit` of src/xmodem.c. The retry loops run a known number of rounds; the handshake and
-- the block loop take fuel, and `none` means that it ran out.
pub mod Acks
use zephyr_zyx_modem.Base.{
  ℕ, zero, suc, ◌+◌, ◌-◌, Bool, true, false, not, ◌&&◌, ◌||◌, Option, none, some, List, [], ◌∷◌,
  length, replicate, ltb, ◌==◌, if◌then◌else◌, add_u8, add_size,
}
use zephyr_zyx_modem.Io.{Read, byte, cancelled, failed, Io, first, after_read, send}
use zephyr_zyx_modem.Crc.{CrcService, modem_crc16, modem_checksum8, crc16_bytes}
use zephyr_zyx_modem.Xmodem.{
  soh, stx, eot, ack, nak, can, crc_request, block_size_128, block_size_1024, Status, ok,
  error_timeout, error_cancel, error_io, Mode, Config, Callbacks, is_one_k, usable,
  config_or_default, Block,
}

-- The sign of what `data_cb` returns.
pub data Sign : Type 0 where
  negative zero_returned positive : Sign

-- A call of `data_cb` by the transmitter: what it returns, and what it writes at the start of the
-- buffer, which is filled with the padding byte before.
pub record Supply : Type 0 where
  pub returned : Sign
  pub written : List ℕ

-- CPM EOF
abbrev pub padding : ℕ
padding = 0x1A

-- The buffer behind a write at its start, which never goes past its end.
unfoldable pub overlay : List ℕ → List ℕ → List ℕ
overlay [] buf = buf
overlay (w ∷ ws) [] = []
overlay (w ∷ ws) (p ∷ buf) = w ∷ overlay ws buf

-- How the handshake ends.
pub data Start : Type 0 where
  started : Bool → Io → Start
  start_failed : Status → Io → Start

-- How the sending of one block ends.
pub data Outcome : Type 0 where
  acked : Io → Outcome
  gave_up : Io → Outcome
  peer_cancelled : Io → Outcome

pub record Tx : Type 0 where
  pub io : Io
  pub block_num : ℕ
  pub bytes_sent : ℕ

-- How a round of the block loop ends: with the next round, with the loop left, or with a return.
pub data Step : Type 0 where
  next_block : Tx → Step
  sent_all : Tx → Step
  stopped : Status → Io → Step

-- What the transmitter does with the answer to its wait for a start byte.
pub data StartAnswer : Type 0 where
  begin_crc begin_checksum refused wait : StartAnswer

pub start_answer : Read → StartAnswer
start_answer (byte b) =
    if b == crc_request
    then begin_crc
    else if b == nak
    then begin_checksum
    else if b == can
    then refused
    else wait
start_answer cancelled = wait
start_answer failed = wait

-- Step 1
pub start_loop : ℕ → Config → ℕ → Io → Option Start
unfolding start_answer
start_loop zero cfg retries io = none
start_loop (suc fuel) cfg retries io =
    let io1 = after_read io in
    let retries1 = add_u8 retries 1 in
    let again = start_loop fuel cfg retries1 io1 in
    elim (start_answer (first io.input)) [
      | begin_crc ↦ some (started true io1)
      | begin_checksum ↦ some (started false io1)
      | refused ↦ some (start_failed error_cancel io1)
      | wait ↦ if ltb cfg.max_retries retries1 then some (start_failed error_timeout io1) else again
    ]

-- The answer to a packet: an ACK, a CAN, a cancelled read, or anything else.
pub data PacketAnswer : Type 0 where
  acknowledged refused local_cancel no_answer : PacketAnswer

pub packet_answer : Read → PacketAnswer
packet_answer (byte b) =
    if b == ack then acknowledged else if b == can then PacketAnswer.refused else no_answer
packet_answer cancelled = local_cancel
packet_answer failed = no_answer

abbrev pub size_of_mode : Mode → ℕ
size_of_mode mode = if is_one_k mode then block_size_1024 else block_size_128

pub block_size : Config → ℕ → ℕ → ℕ
block_size cfg total_len bytes_sent =
    let size = size_of_mode cfg.mode in
    if ltb 0 total_len && ltb (total_len - bytes_sent) size && not (is_one_k cfg.mode)
    then block_size_128
    else size

pub after_block : ℕ → Tx → Outcome → Step
after_block size t (acked io) =
    next_block (record {
      io = io;
      block_num = add_u8 t.block_num 1;
      bytes_sent = add_size t.bytes_sent size;
    })
after_block size t (gave_up io) = stopped error_timeout (send (can ∷ []) io)
after_block size t (peer_cancelled io) = stopped error_cancel io

abbrev pub is_zero : Sign → Bool
is_zero zero_returned = true
is_zero _ = false

abbrev pub is_negative : Sign → Bool
is_negative negative = true
is_negative _ = false

module _ (svc : CrcService) where
  -- one packet, as the calls of `write_bytes` put it on the line
  pub send_packet : Bool → Block → Io → Io
  send_packet crc_mode b io =
      let header : ℕ = if length b.payload == block_size_1024 then stx else soh in
      let io1 = send (header ∷ []) io in
      let io2 = send (b.num ∷ []) io1 in
      let io3 = send ((255 - b.num) ∷ []) io2 in
      let io4 = send b.payload io3 in
      if crc_mode
      then send (crc16_bytes (modem_crc16 svc b.payload)) io4
      else send (modem_checksum8 (some b.payload) ∷ []) io4

  -- `while (retries < max_retries && !acked)`, by the rounds that are left
  pub send_block : ℕ → Bool → Block → Io → Outcome
  unfolding send_packet packet_answer
  send_block zero crc_mode b io = gave_up io
  send_block (suc rounds) crc_mode b io =
      let io1 = send_packet crc_mode b io in
      let io2 = after_read io1 in
      let again = send_block rounds crc_mode b io2 in
      elim (packet_answer (first io1.input)) [
        | acknowledged ↦ acked io2
        | refused ↦ peer_cancelled io2
        | local_cancel ↦ peer_cancelled (send (can ∷ []) (send (can ∷ []) io2))
        | no_answer ↦ again
      ]

  -- `supply` is `data_cb`. Its calls are told apart by the bytes sent before them.
  module _ (supply : ℕ → ℕ → ℕ → Supply) (cfg : Config) (total_len : ℕ) where
    -- the block of this round, and how its sending ends
    pub transmit_block : Bool → ℕ → Supply → Tx → Step
    transmit_block crc_mode size given t =
        let block : Block = record {
          num = t.block_num;
          payload = overlay given.written (replicate size padding);
        } in
        if is_negative given.returned
        then stopped error_io (send (can ∷ []) t.io)
        else if is_zero given.returned && total_len == 0 && ltb 0 t.bytes_sent
        then sent_all t
        else after_block size t (send_block cfg.max_retries crc_mode block t.io)

    -- one round of `while (total_len == 0 || bytes_sent < total_len)`
    pub transmit_round : Bool → Tx → Step
    transmit_round crc_mode t =
        if total_len == 0 || ltb t.bytes_sent total_len
        then (let size = block_size cfg total_len t.bytes_sent in
            transmit_block crc_mode size (supply t.bytes_sent t.block_num size) t)
        else sent_all t

    -- Step 3, by the rounds that are left
    pub send_eot : ℕ → Io → Status × Io
    send_eot zero io = (error_timeout, io)
    send_eot (suc rounds) io =
        let io1 = send (eot ∷ []) io in
        let io2 = after_read io1 in
        let again = send_eot rounds io2 in
        elim (packet_answer (first io1.input)) [ acknowledged ↦ (ok, io2) | _ ↦ again ]

    -- Steps 2 and 3
    pub transmit_loop : ℕ → Bool → Tx → Option (Status × Io)
    transmit_loop zero crc_mode t = none
    transmit_loop (suc fuel) crc_mode t = elim (transmit_round crc_mode t) [
      | next_block t' ↦ transmit_loop fuel crc_mode t'
      | sent_all t' ↦ some (send_eot cfg.max_retries t'.io)
      | stopped st io ↦ some (st, io)
    ]

    after_start : ℕ → Start → Option (Status × Io)
    after_start fuel (started crc_mode io) =
        transmit_loop fuel crc_mode (record { io = io; block_num = 1; bytes_sent = 0 })
    after_start fuel (start_failed st io) = some (st, io)

    transmit_from : ℕ → Option Start → Option (Status × Io)
    transmit_from fuel none = none
    transmit_from fuel (some start) = after_start fuel start

  -- The fuel of the block loop is a parameter: a stream of unknown length (`total_len` 0) ends when
  -- `data_cb` says so.
  pub xmodem_transmit :
      (supply : ℕ → ℕ → ℕ → Supply)
      → ℕ
      → Option Callbacks
      → ℕ
      → Option Config
      → Io
      → Option (Status × Io)
  xmodem_transmit supply fuel callbacks total_len config io =
      if usable callbacks
      then (let cfg = config_or_default config in
          transmit_from supply cfg total_len fuel (start_loop (length io.input + 258) cfg 0 io))
      else some (error_io, io)
