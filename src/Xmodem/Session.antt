-- ===== src/Xmodem/Session.antt =====
-- `xmodem_transmit` and `xmodem_receive` at the two ends of one line.
pub mod Padding
use zephyr_zyx_modem.Base.{
  ℕ, zero, suc, ◌+◌, ◌-◌, ◌*◌, ◌%◌, ◌^◌, ◌≤◌, ◌<◌, ◌≡◌, refl, ◌∙◌, ap, sym, ◌⊎◌, inl, inr, Bool,
  true, false, Option, some, List, [], ◌∷◌, ◌++◌, append_assoc, append-nil, arith, length,
  length-replicate, replicate, All, take, drop, if◌then◌else◌,
}
use mathlib.Core.List.{map-append}
use zephyr_zyx_modem.Io.{Read, byte, Io, bytes_of}
use zephyr_zyx_modem.Crc.{CrcService, HasWidths}
use zephyr_zyx_modem.Xmodem.{
  Config, Mode, standard, crc, one_k, Block, Status, ok, eot, ack, nak, crc_request, Callbacks,
  usable, config_or_default,
}
use zephyr_zyx_modem.Xmodem.Frame.{frame, frames, IsWellFormed, IsNumbered, total_length}
use zephyr_zyx_modem.Xmodem.Receive.{xmodem_receive, asks_crc, Result}
use zephyr_zyx_modem.Xmodem.Receive.Transfer.{Takes, xmodem_receive-frames}
use zephyr_zyx_modem.Xmodem.Transmit.{
  Supply, zero_returned, padding, overlay, size_of_mode, xmodem_transmit,
}
use zephyr_zyx_modem.Xmodem.Transmit.Acks.{
  block_at, blocks_from, Supplies, Covers, xmodem_transmit-acks,
}
use zephyr_zyx_modem.Xmodem.Session.Padding.{
  length-overlay, overlay-nil, overlay-split, overlay-replicate, drop-drop,
}

module _ (supply : ℕ → ℕ → ℕ → Supply) (size : ℕ) where
  length-payload : (sent num : ℕ) → length (block_at supply size sent num).payload ≡ size
  length-payload sent num =
      length-overlay (supply sent num size).written (replicate size padding)
      ∙ length-replicate size padding

  pub length-blocks_from : (n sent num : ℕ) → length (blocks_from supply size n sent num) ≡ n
  length-blocks_from zero sent num = refl
  length-blocks_from (suc n) sent num =
      ap suc (length-blocks_from n (sent + size) ((num + 1) % 256))

  total_length-blocks_from :
      (n sent num : ℕ) → total_length (blocks_from supply size n sent num) ≡ n * size
  total_length-blocks_from zero sent num = omega arith
  total_length-blocks_from (suc n) sent num =
      omega
        (arith, length-payload sent num, total_length-blocks_from n (sent + size) ((num + 1) % 256))

  blocks_from-IsNumbered :
      (n sent num k : ℕ) → num ≡ k % 256 → IsNumbered k (blocks_from supply size n sent num)
  blocks_from-IsNumbered zero sent num k e = tt
  blocks_from-IsNumbered (suc n) sent num k e =
      (e, blocks_from-IsNumbered n (sent + size) ((num + 1) % 256) (k + 1) (omega arith))

  blocks_from-IsWellFormed :
      (n sent num : ℕ)
      → (size ≡ 128) ⊎ (size ≡ 1024)
      → num < 256
      → All IsWellFormed (blocks_from supply size n sent num)
  blocks_from-IsWellFormed zero sent num z h = tt
  blocks_from-IsWellFormed (suc n) sent num z h = (
    record { num_fits = h; size = omega (arith, length-payload sent num) },
    blocks_from-IsWellFormed n (sent + size) ((num + 1) % 256) z (omega arith),
  )

size_of_mode-cases : (m : Mode) → (size_of_mode m ≡ 128) ⊎ (size_of_mode m ≡ 1024)
size_of_mode-cases standard = inl refl
size_of_mode-cases crc = inl refl
size_of_mode-cases one_k = inr refl

-- what the two ends say to each other about these blocks
abbrev pub to_receiver : CrcService → Bool → List Block → List ℕ
to_receiver svc crc_mode bs = frames svc crc_mode bs ++ (eot ∷ [])

abbrev pub to_transmitter : Bool → List Block → List ℕ
to_transmitter crc_mode bs =
    (if crc_mode then crc_request else nak) ∷ replicate (suc (length bs)) ack

-- a line on which exactly these bytes arrive
abbrev pub line : List ℕ → Io
line bs = record { input = bytes_of bs; sent = [] }

module _ (svc : CrcService) (accepts : List Block → Block → Bool) (widths : HasWidths svc) where
  -- A transmitter and a receiver on one line, each with its own configuration. If the limits of the
  -- configurations are positive, `data_cb` reports no error at either end, and the sizes fit, then
  -- what the transmitter sends is what the receiver reads and the other way round, both return OK,
  -- and the receiver's `data_cb` has taken exactly the blocks that the transmitter's supplied.
  pub xmodem_session :
      (supply : ℕ → ℕ → ℕ → Supply) (tx_callbacks rx_callbacks : Option Callbacks)
      (tx_config rx_config : Option Config) (total_len n fuel : ℕ)
      → let size = size_of_mode (config_or_default tx_config).mode in
        let asked = asks_crc (config_or_default rx_config).mode in
        let bs = blocks_from supply size n 0 1 in
        usable tx_callbacks ≡ true
        → usable rx_callbacks ≡ true
        → 0 < (config_or_default tx_config).max_retries
        → 0 < total_len
        → n < fuel
        → Covers total_len size n 0
        → n * size < 2 ^ 64
        → Supplies supply size n 0 1
        → Takes accepts [] bs
        → (xmodem_transmit svc supply fuel tx_callbacks total_len tx_config
              (line (to_transmitter asked bs))
            ≡ some (ok, record { input = []; sent = to_receiver svc asked bs }))
          × (xmodem_receive svc accepts rx_callbacks rx_config (line (to_receiver svc asked bs))
              ≡ some (record {
                status = ok;
                total_received = some (n * size);
                final = record { input = []; sent = to_transmitter asked bs };
                received = bs;
              }))
  xmodem_session supply txc rxc txf rxf total_len n fuel u v m p f c w s a =
      let size = size_of_mode (config_or_default txf).mode in
      let asked = asks_crc (config_or_default rxf).mode in
      let bs = blocks_from supply size n 0 1 in
      let sends = xmodem_transmit-acks svc supply txc txf total_len n fuel asked [] u m p f c w s in
      let takes =
        xmodem_receive-frames svc accepts widths rxc rxf bs [] v
          (rw (total_length-blocks_from supply size n 0 1) w)
          (blocks_from-IsWellFormed supply size n 0 1 (size_of_mode-cases _) (omega arith))
          (blocks_from-IsNumbered supply size n 0 1 1 refl) a in
      (
        rw (length-blocks_from supply size n 0 1) (rw append-nil at sends),
        rw (map-append, ← total_length-blocks_from supply size n 0 1) takes,
      )

-- A `data_cb` of the transmitter that reads a file in order: it writes the file's next bytes, at
-- most a buffer of them, and returns 0.
abbrev pub from_file : List ℕ → ℕ → ℕ → ℕ → Supply
from_file file sent num size = record {
  returned = zero_returned;
  written = take size (drop sent file);
}

-- the payloads of these blocks, one behind the other
abbrev pub contents : List Block → List ℕ
contents [] = []
contents (b ∷ bs) = b.payload ++ contents bs

from_file-Supplies :
    (file : List ℕ) (size n sent num : ℕ) → Supplies (from_file file) size n sent num
from_file-Supplies file size zero sent num = tt
from_file-Supplies file size (suc n) sent num =
    (refl, from_file-Supplies file size n (sent + size) ((num + 1) % 256))

contents-blocks_from :
    (file : List ℕ) (size n sent num : ℕ)
    → contents (blocks_from (from_file file) size n sent num)
      ≡ overlay (drop sent file) (replicate (n * size) padding)
contents-blocks_from file size zero sent num = sym (
    ap (λ k. overlay (drop sent file) (replicate k padding)) {y = 0} (omega arith)
    ∙ overlay-nil (drop sent file))
contents-blocks_from file size (suc n) sent num =
    let rest = drop sent file in
    ap (◌++◌ (overlay (take size rest) (replicate size padding))) (
      contents-blocks_from file size n (sent + size) ((num + 1) % 256)
      ∙ rw (← drop-drop sent size file))
    ∙ overlay-split rest size (n * size) padding
    ∙ ap (λ k. overlay rest (replicate k padding)) (omega arith)

covers :
    (total size n sent : ℕ)
    → total ≤ sent + n * size
    → sent + n * size < total + size
    → Covers total size n sent
covers total size zero sent h l = omega arith
covers total size (suc n) sent h l =
    (omega arith, covers total size n (sent + size) (omega arith) (omega arith))

Takes-all :
    (accepts : List Block → Block → Bool)
    → ((past : List Block) (b : Block) → accepts past b ≡ true)
    → (bs past : List Block) → Takes accepts past bs
Takes-all accepts a [] past = tt
Takes-all accepts a (b ∷ bs) past = (a past b, Takes-all accepts a bs (past ++ (b ∷ [])))

module _ (svc : CrcService) (accepts : List Block → Block → Bool) (widths : HasWidths svc) where
  -- A file goes over the line whole. A transmitter that reads a file of `total_len` bytes in order and
  -- a receiver whose `data_cb` takes every block, each with its own configuration: both return OK,
  -- each reads exactly what the other sends, the receiver reports `n` full blocks, and the blocks
  -- that it took hold the file, followed by the padding that fills the last block. The callbacks are
  -- usable on both sides, the transmitter's max_retries is not 0, the CRC service returns 16-bit
  -- words, the file is not empty, `n` is the number of blocks that covers it, `n` is below the fuel,
  -- and the sizes fit `size_t`.
  pub xmodem_session-file :
      (file : List ℕ) (tx_callbacks rx_callbacks : Option Callbacks)
      (tx_config rx_config : Option Config) (n fuel : ℕ)
      → let size = size_of_mode (config_or_default tx_config).mode in
        let asked = asks_crc (config_or_default rx_config).mode in
        let bs = blocks_from (from_file file) size n 0 1 in
        usable tx_callbacks ≡ true
        → usable rx_callbacks ≡ true
        → 0 < (config_or_default tx_config).max_retries
        → 0 < length file
        → length file ≤ n * size
        → n * size < length file + size
        → n * size < 2 ^ 64
        → n < fuel
        → ((past : List Block) (b : Block) → accepts past b ≡ true)
        → (r : Result) × (xmodem_transmit svc
              (from_file file)
              fuel
              tx_callbacks
              (length file)
              tx_config
              (line r.final.sent)
            ≡ some (ok, record { input = []; sent = to_receiver svc asked bs }))
          × (xmodem_receive svc accepts rx_callbacks rx_config (line (to_receiver svc asked bs))
              ≡ some r)
          × (r.status ≡ ok)
          × (r.total_received ≡ some (n * size))
          × (contents r.received ≡ file ++ replicate (n * size - length file) padding)
  xmodem_session-file file txc rxc txf rxf n fuel u v m p c d w f a =
      let size = size_of_mode (config_or_default txf).mode in
      let asked = asks_crc (config_or_default rxf).mode in
      let (sends, takes) =
        xmodem_session svc accepts widths (from_file file) txc rxc txf rxf (length file) n fuel u v
          m p f (covers (length file) size n 0 (omega arith) (omega arith)) w
          (from_file-Supplies file size n 0 1) (Takes-all accepts a _ []) in
      (
        _,
        sends,
        takes,
        refl,
        refl,
        contents-blocks_from file size n 0 1 ∙ overlay-replicate file (n * size) padding c,
      )
