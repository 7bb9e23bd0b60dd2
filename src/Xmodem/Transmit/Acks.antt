-- ===== src/Xmodem/Transmit/Acks.antt =====
-- What `xmodem_transmit` puts on its line when the receiver acknowledges every packet.
use zephyr_zyx_modem.Base.{
  ℕ, zero, suc, ◌+◌, ◌*◌, ◌%◌, ◌^◌, ◌≤◌, ◌<◌, ◌≡◌, refl, ◌∙◌, ap, Bool, true, false, Option, some,
  List, [], ◌∷◌, ◌++◌, append_assoc, arith, length, replicate, lt→ltb, if◌then◌else◌,
}
use mathlib.Core.Bool.{or-true}
use zephyr_zyx_modem.Io.{Read, byte, Io, bytes_of, send}
use zephyr_zyx_modem.Crc.{CrcService}
use zephyr_zyx_modem.Xmodem.{
  Config, Block, ok, eot, ack, nak, crc_request, Callbacks, usable, config_or_default,
}
use zephyr_zyx_modem.Xmodem.Frame.{frame, frames}
use zephyr_zyx_modem.Xmodem.Transmit.{
  Supply, Tx, overlay, padding, acked, next_block, sent_all, send_packet, send_block, packet_answer,
  size_of_mode, block_size, after_block, is_negative, transmit_block, transmit_round, send_eot,
  started, transmit_loop, after_start, transmit_from, start_loop, start_answer, xmodem_transmit,
}

-- The block that `data_cb` supplies behind `sent` bytes.
abbrev pub block_at : (ℕ → ℕ → ℕ → Supply) → ℕ → ℕ → ℕ → Block
block_at supply size sent num = record {
  num = num;
  payload = overlay (supply sent num size).written (replicate size padding);
}

-- The next `n` blocks, from `sent` bytes and the number `num` on.
abbrev pub blocks_from : (ℕ → ℕ → ℕ → Supply) → ℕ → ℕ → ℕ → ℕ → List Block
blocks_from supply size zero sent num = []
blocks_from supply size (suc n) sent num =
    block_at supply size sent num ∷ blocks_from supply size n (sent + size) ((num + 1) % 256)

-- No call for these blocks reports an error.
abbrev pub Supplies : (ℕ → ℕ → ℕ → Supply) → ℕ → ℕ → ℕ → ℕ → Type 0
Supplies supply size zero sent num = Unit {0}
Supplies supply size (suc n) sent num =
    (is_negative (supply sent num size).returned ≡ false)
    × Supplies supply size n (sent + size) ((num + 1) % 256)

-- `n` blocks from `sent` bytes on reach the total, and no fewer do.
abbrev pub Covers : ℕ → ℕ → ℕ → ℕ → Type 0
Covers total size zero sent = total ≤ sent
Covers total size (suc n) sent = (sent < total) × Covers total size n (sent + size)

module _ (svc : CrcService) where
  send_packet-frame :
      (crc_mode : Bool) (b : Block) (io : Io)
      → send_packet svc crc_mode b io ≡ send (frame svc crc_mode b) io
  unfolding send_packet
  send_packet-frame true b io = simp append_assoc
  send_packet-frame false b io = simp append_assoc

  send_block-acked :
      (rounds : ℕ) (crc_mode : Bool) (b : Block) (io : Io) {rs : List Read}
      → 0 < rounds
      → io.input ≡ byte ack ∷ rs
      → send_block svc rounds crc_mode b io
        ≡ acked (record { input = rs; sent = io.sent ++ frame svc crc_mode b })
  unfolding send_block packet_answer
  send_block-acked zero crc_mode b io h e = absurd (omega arith)
  send_block-acked (suc rounds) crc_mode b io h e = ground (arith, send_packet-frame crc_mode b io)

  module _ (supply : ℕ → ℕ → ℕ → Supply) (cfg : Config) (total_len : ℕ) where
    -- the state behind an acknowledged block
    abbrev after_ack : Bool → ℕ → Tx → List Read → Tx
    after_ack crc_mode size t rs = record {
      io = record {
        input = rs;
        sent = t.io.sent ++ frame svc crc_mode (block_at supply size t.bytes_sent t.block_num);
      };
      block_num = (t.block_num + 1) % 256;
      bytes_sent = t.bytes_sent + size;
    }

    transmit_block-acked :
        (crc_mode : Bool) (size : ℕ) (t : Tx) {rs : List Read}
        → 0 < cfg.max_retries
        → t.bytes_sent < total_len
        → t.bytes_sent + size < 2 ^ 64
        → is_negative (supply t.bytes_sent t.block_num size).returned ≡ false
        → t.io.input ≡ byte ack ∷ rs
        → transmit_block svc supply cfg total_len crc_mode size
            (supply t.bytes_sent t.block_num size)
            t
          ≡ next_block (after_ack crc_mode size t rs)
    unfolding transmit_block after_block
    transmit_block-acked crc_mode size t m h w s e = rw s (
        ground (
          arith,
          send_block-acked cfg.max_retries crc_mode (block_at supply size t.bytes_sent t.block_num)
              t.io m e,
        ))

    block_size-mode : (sent : ℕ) → block_size cfg total_len sent ≡ size_of_mode cfg.mode
    unfolding block_size
    block_size-mode sent = ground arith

    transmit_round-acked :
        (crc_mode : Bool) (t : Tx) {rs : List Read}
        → 0 < cfg.max_retries
        → t.bytes_sent < total_len
        → t.bytes_sent + size_of_mode cfg.mode < 2 ^ 64
        → is_negative (supply t.bytes_sent t.block_num (size_of_mode cfg.mode)).returned ≡ false
        → t.io.input ≡ byte ack ∷ rs
        → transmit_round svc supply cfg total_len crc_mode t
          ≡ next_block (after_ack crc_mode (size_of_mode cfg.mode) t rs)
    unfolding transmit_round
    transmit_round-acked crc_mode t m h w s e =
        rw (block_size-mode t.bytes_sent, lt→ltb _ _ h, or-true)
          (transmit_block-acked crc_mode (size_of_mode cfg.mode) t m h w s e)

    transmit_round-done :
        (crc_mode : Bool) (t : Tx)
        → 0 < total_len
        → total_len ≤ t.bytes_sent
        → transmit_round svc supply cfg total_len crc_mode t ≡ sent_all t
    unfolding transmit_round
    transmit_round-done crc_mode t h l = ground arith

    send_eot-acked :
        (rounds : ℕ) (io : Io) {rs : List Read}
        → 0 < rounds
        → io.input ≡ byte ack ∷ rs
        → send_eot svc supply cfg total_len rounds io
          ≡ (ok, record { input = rs; sent = io.sent ++ (eot ∷ []) })
    unfolding send_eot packet_answer
    send_eot-acked zero io h e = absurd (omega arith)
    send_eot-acked (suc rounds) io h e = rw e

    transmit_loop-acked :
        (n fuel : ℕ) (crc_mode : Bool) (t : Tx) {rs : List Read}
        → 0 < cfg.max_retries
        → 0 < total_len
        → n < fuel
        → Covers total_len (size_of_mode cfg.mode) n t.bytes_sent
        → t.bytes_sent + n * size_of_mode cfg.mode < 2 ^ 64
        → Supplies supply (size_of_mode cfg.mode) n t.bytes_sent t.block_num
        → t.io.input ≡ bytes_of (replicate (suc n) ack) ++ rs
        → transmit_loop svc supply cfg total_len fuel crc_mode t
          ≡ some (
            ok,
            record {
              input = rs;
              sent =
                  t.io.sent
                  ++ (frames svc crc_mode
                        (blocks_from supply (size_of_mode cfg.mode) n t.bytes_sent t.block_num)
                      ++ (eot ∷ []));
            },
          )
    unfolding transmit_loop
    transmit_loop-acked n zero crc_mode t m p f c w s e = absurd (omega arith)
    transmit_loop-acked zero (suc fuel) crc_mode t m p f c w s e =
        rw (transmit_round-done crc_mode t p c, transmit_loop)
          (ap some (send_eot-acked cfg.max_retries t.io m e))
    transmit_loop-acked (suc n) (suc fuel) crc_mode t {rs} m p f c w s e =
        let size = size_of_mode cfg.mode in
        let t' = after_ack crc_mode size t (bytes_of (replicate (suc n) ack) ++ rs) in
        rw (transmit_round-acked crc_mode t m c.0 (omega arith) s.0 e, transmit_loop)
          (transmit_loop-acked n fuel crc_mode t' m p (omega arith) c.1 (omega arith) s.1 refl
            ∙ simp append_assoc)

  start_loop-started :
      (fuel : ℕ) (cfg : Config) (crc_mode : Bool) (rs : List Read) (sent : List ℕ)
      → 0 < fuel
      → start_loop fuel cfg 0
          (record { input = byte (if crc_mode then crc_request else nak) ∷ rs; sent = sent })
        ≡ some (started crc_mode (record { input = rs; sent = sent }))
  unfolding start_loop start_answer
  start_loop-started zero cfg crc_mode rs sent h = absurd (omega arith)
  start_loop-started (suc fuel) cfg true rs sent h = refl
  start_loop-started (suc fuel) cfg false rs sent h = refl

  -- With a receiver that asks once and acknowledges every packet, and a `data_cb` that reports no
  -- error, the transmitter of `total_len` bytes (not 0) returns OK. It has sent the frames of the
  -- blocks that `data_cb` supplied, in the check mode asked for, and one EOT. The `n` blocks are as
  -- many as cover the total; the fuel is above `n`, the retry limit is not 0, and the bytes sent fit
  -- `size_t`.
  pub xmodem_transmit-acks :
      (supply : ℕ → ℕ → ℕ → Supply) (callbacks : Option Callbacks) (config : Option Config)
      (total_len n fuel : ℕ) (crc_mode : Bool) (rs : List Read)
      → let cfg = config_or_default config in
        usable callbacks ≡ true
        → 0 < cfg.max_retries
        → 0 < total_len
        → n < fuel
        → Covers total_len (size_of_mode cfg.mode) n 0
        → n * size_of_mode cfg.mode < 2 ^ 64
        → Supplies supply (size_of_mode cfg.mode) n 0 1
        → xmodem_transmit svc supply fuel callbacks total_len config (record {
          input =
              byte (if crc_mode then crc_request else nak)
              ∷ (bytes_of (replicate (suc n) ack) ++ rs);
          sent = [];
        })
          ≡ some (
            ok,
            record {
              input = rs;
              sent =
                  frames svc crc_mode (blocks_from supply (size_of_mode cfg.mode) n 0 1)
                  ++ (eot ∷ []);
            },
          )
  unfolding xmodem_transmit transmit_from after_start
  xmodem_transmit-acks supply callbacks config total_len n fuel crc_mode rs u m p f c w s =
      let cfg = config_or_default config in
      let line = bytes_of (replicate (suc n) ack) ++ rs in
      rw (u, start_loop-started (suc (length line) + 258) cfg crc_mode line [] (omega arith))
        (transmit_loop-acked supply cfg total_len n fuel crc_mode
          (record { io = record { input = line; sent = [] }; block_num = 1; bytes_sent = 0 }) m p f
          c (omega arith) s refl)
