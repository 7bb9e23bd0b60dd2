-- ===== src/Xmodem/Receive/Transfer.antt =====
-- A whole transfer as the receiver sees it: the frames of a file on the line, then EOT.
use zephyr_zyx_modem.Base.{
  ℕ, zero, suc, ◌+◌, ◌%◌, ◌^◌, ◌≤◌, ◌<◌, ◌≡◌, refl, ◌∙◌, ap, sym, if◌then◌else◌, Bool, true, Option,
  some, List, [], ◌∷◌, ◌++◌, append_assoc, append-nil, arith, length, length-append, length-map,
  replicate, All,
}
use mathlib.Core.List.{map-append}
use zephyr_zyx_modem.Io.{Read, byte, Io, bytes_of, rest}
use zephyr_zyx_modem.Crc.{CrcService, HasWidths}
use zephyr_zyx_modem.Xmodem.{
  Config, Block, ok, eot, ack, usable, crc_request, nak, config_or_default, Callbacks,
}
use zephyr_zyx_modem.Xmodem.Frame.{
  frame, frames, check_bytes, IsWellFormed, IsNumbered, total_length,
}
use zephyr_zyx_modem.Xmodem.Receive.{
  Rx, continue, stop, receive_round, receive_accept, receive_header, receive_answer, receive_loop,
  receive_start, receive_fuel, xmodem_receive, asks_crc,
}
use zephyr_zyx_modem.Xmodem.Receive.Rounds.{
  receive_round-answer, receive_loop-continue, receive_loop-stop,
}
use zephyr_zyx_modem.Xmodem.Receive.Accept.{with_input, receive_round-frame}

-- `data_cb` takes each of these blocks behind those that it took before.
abbrev pub Takes : (List Block → Block → Bool) → List Block → List Block → Type 0
Takes accepts past [] = Unit {0}
Takes accepts past (b ∷ bs) = (accepts past b ≡ true) × Takes accepts (past ++ (b ∷ [])) bs

-- the state behind a block that `data_cb` took
abbrev took : Block → Rx → Rx
took b s = record s {
  io = record s.io { sent = s.sent ++ (ack ∷ []) };
  stored = s.stored ++ (b ∷ []);
  expected_block = (s.expected_block + 1) % 256;
  total_bytes = (s.total_bytes + length b.payload) % 2 ^ 64;
  retries = 0;
  req = ack;
}

module _ (svc : CrcService) (accepts : List Block → Block → Bool) where
  receive_accept-expected :
      (b : Block) (s : Rx)
      → b.num ≡ s.expected_block
      → accepts s.stored b ≡ true
      → receive_accept svc accepts b.num b.payload s ≡ continue (took b s)
  unfolding receive_accept
  receive_accept-expected b s e t = ground (arith, t)

  receive_round-eot :
      (cfg : Config) (s : Rx) {rs : List Read}
      → s.input ≡ byte eot ∷ rs
      → receive_round svc accepts cfg s
        ≡ stop ok (record s { io = record { input = rs; sent = s.sent ++ (ack ∷ []) } })
  receive_round-eot cfg s {rs} e =
      receive_round-answer svc accepts cfg s e
      ∙ unfold receive_answer receive_header in
        (ap (λ t. stop ok (record s { io = record { input = t; sent = s.sent ++ (ack ∷ []) } }))
          (ap rest e))

  -- What the loop leaves when it has taken these blocks and the EOT.
  record Took (s : Rx) (bs : List Block) (rs : List Read) (s' : Rx) : Type 0 where
    left : s'.input ≡ rs
    acks : s'.sent ≡ s.sent ++ replicate (suc (length bs)) ack
    blocks : s'.stored ≡ s.stored ++ bs
    total : s'.total_bytes ≡ s.total_bytes + total_length bs

  module _ (widths : HasWidths svc) (cfg : Config) (crc_mode : Bool) where
    receive_loop-frames :
        (bs : List Block) (n fuel : ℕ) (s : Rx) (rs : List Read)
        → s.crc_mode ≡ crc_mode
        → s.expected_block ≡ n % 256
        → s.total_bytes + total_length bs < 2 ^ 64
        → length bs < fuel
        → All IsWellFormed bs
        → IsNumbered n bs
        → Takes accepts s.stored bs
        → s.input ≡ bytes_of (frames svc crc_mode bs) ++ (byte eot ∷ rs)
        → (s' : Rx) × (receive_loop svc accepts fuel cfg s ≡ some (ok, s')) × Took s bs rs s'
    receive_loop-frames bs n zero s rs m x t f w k a e = absurd (omega arith)
    receive_loop-frames [] n (suc fuel) s rs m x t f w k a e = (
      _,
      receive_loop-stop svc accepts fuel cfg s _ (receive_round-eot cfg s e),
      record { left = refl; acks = refl; blocks = rw append-nil; total = omega arith },
    )
    receive_loop-frames (b ∷ bs) n (suc fuel) s rs m x t f w k a e =
        let (s', ran, h) =
          receive_loop-frames bs (n + 1) fuel (took b (with_input later s)) rs m (omega arith)
            (omega arith) (omega arith) w.1 k.1 a.1 refl in
        (
          s',
          receive_loop-continue svc accepts fuel cfg s _ round ∙ ran,
          record {
            left = h.left;
            acks = h.acks ∙ append_assoc s.sent (ack ∷ []) _;
            blocks = h.blocks ∙ append_assoc s.stored (b ∷ []) bs;
            total = omega (arith, h.total);
          },
        )
      where
        later : List Read
        later = bytes_of (frames svc crc_mode bs) ++ (byte eot ∷ rs)

        line : s.input ≡ bytes_of (frame svc s.crc_mode b) ++ later
        line = rw (m, e) (simp (map-append, append_assoc))

        round : receive_round svc accepts cfg s ≡ continue (took b (with_input later s))
        round =
            receive_round-frame svc accepts widths cfg b later s w.0 line
            ∙ receive_accept-expected b (with_input later s) (k.0 ∙ sym x) a.0

  length-frames : (crc_mode : Bool) (bs : List Block) → length bs ≤ length (frames svc crc_mode bs)
  length-frames crc_mode [] = omega arith
  length-frames crc_mode (b ∷ bs) = omega (
    arith,
    length-append (b.payload ++ check_bytes svc crc_mode b.payload) (frames svc crc_mode bs),
    length-frames crc_mode bs,
  )

  -- A transfer that reaches the receiver intact: the line carries the frames of well-formed blocks,
  -- numbered from 1, in the receiver's own check mode, then EOT; `data_cb` takes every block; and
  -- the total fits `size_t`. Then the receiver returns OK with the total, has handed exactly these
  -- blocks to `data_cb`, leaves what follows the EOT unread, and has sent its request and one ACK for
  -- each block and the EOT.
  pub xmodem_receive-frames :
      (widths : HasWidths svc) (callbacks : Option Callbacks) (config : Option Config)
      (bs : List Block) (rs : List Read)
      → usable callbacks ≡ true
      → total_length bs < 2 ^ 64
      → All IsWellFormed bs
      → IsNumbered 1 bs
      → Takes accepts [] bs
      → let mode = asks_crc (config_or_default config).mode in
        xmodem_receive svc accepts callbacks config
          (record { input = bytes_of (frames svc mode bs) ++ (byte eot ∷ rs); sent = [] })
        ≡ some (record {
          status = ok;
          total_received = some (total_length bs);
          final = record {
            input = rs;
            sent = (if mode then crc_request else nak) ∷ replicate (suc (length bs)) ack;
          };
          received = bs;
        })
  unfolding xmodem_receive receive_start receive_fuel
  xmodem_receive-frames widths callbacks config bs rs u t w k a =
      let (s', ran, h) =
        receive_loop-frames widths cfg mode bs 1 (length line + 258) (receive_start cfg io) rs refl
          refl (omega arith) fuel w k a refl in
      let total : s'.total_bytes ≡ total_length bs = omega (arith, h.total) in
      rw (u, ran)
        (λ i. some (record {
          status = ok;
          total_received = some (total i);
          final = record { input = h.left i; sent = h.acks i };
          received = h.blocks i;
        }))
    where
      cfg : Config
      cfg = config_or_default config

      mode : Bool
      mode = asks_crc cfg.mode

      line : List Read
      line = bytes_of (frames svc mode bs) ++ (byte eot ∷ rs)

      io : Io
      io = record { input = line; sent = [] }

      fuel : length bs < length line + 258
      fuel = omega (
        arith,
        length-append (bytes_of (frames svc mode bs)) (byte eot ∷ rs),
        length-map byte (frames svc mode bs),
        length-frames mode bs,
      )
