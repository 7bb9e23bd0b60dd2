-- ===== src/Xmodem/Receive/Sound.antt =====
-- What one round of `xmodem_receive` can do, seen from what it hands to `data_cb`.
pub mod Check
pub mod Header
pub mod Delivery
use zephyr_zyx_modem.Base.{
  ℕ, zero, suc, ◌+◌, ◌-◌, ◌*◌, ◌/◌, ◌%◌, ◌^◌, ◌≤◌, ◌<◌, ◌≡◌, refl, ap, subst, sym, ◌∙◌, ◌⊎◌, inl,
  inr, Bool, true, false, Bool-cases, Option, none, some, List, [], ◌∷◌, ◌++◌, map, append_assoc,
  append-nil, arith, length, ◌==◌, ==_refl, ==_iff, if◌then◌else◌, All, IsByte, add_u8, add_size,
}
use mathlib.Core.List.{map-append}
use zephyr_zyx_modem.Io.{
  Read, byte, cancelled, failed, Io, bytes_of, full, read_payload, Pair, bytes, pair, Payload,
  first, rest, after_read, drop_bytes,
}
use zephyr_zyx_modem.Io.Laws.{
  Suffix, here, past, Suffix-trans, Suffix-append, rest-Suffix, drop_bytes-Suffix,
  read_payload-Suffix, IsLine, Suffix-IsLine, first-byte, script-pair, script-payload, length-full,
}
use zephyr_zyx_modem.Crc.{CrcService, modem_crc16, modem_checksum8, join16}
use zephyr_zyx_modem.Xmodem.{Config, Block, Status, ack, soh, stx}
use zephyr_zyx_modem.Xmodem.Frame.{frame, check_bytes, header_of, IsWellFormed}
use zephyr_zyx_modem.Xmodem.Receive.{
  Rx, Next, continue, stop, reject, cancel, receive_accept, receive_crc, receive_check,
  receive_payload, receive_numbers, receive_block, receive_header, receive_answer, receive_checksum,
  receive_round, receive_timeout, receive_bad_header, fall_back, receive_loop,
}

-- The loop has read on, and stored nothing.
pub record Quiet (s s' : Rx) : Type 0 where
  pub read_on : Suffix s'.input s.input
  pub same_stored : s'.stored ≡ s.stored
  pub same_expected : s'.expected_block ≡ s.expected_block
  pub same_total : s'.total_bytes ≡ s.total_bytes

-- The loop has read the frame of the expected block `b`, up to its end, and stored the block.
pub record Stored (svc : CrcService) (accepts : List Block → Block → Bool) (s s' : Rx) (b : Block)
    : Type 0 where
  pub crc_mode : Bool
  pub on_line : s.input ≡ bytes_of (frame svc crc_mode b) ++ s'.input
  pub expected : b.num ≡ s.expected_block
  pub size : (length b.payload ≡ 128) ⊎ (length b.payload ≡ 1024)
  pub accepted : accepts s.stored b ≡ true
  pub stored : s'.stored ≡ s.stored ++ (b ∷ [])
  pub next_expected : s'.expected_block ≡ (s.expected_block + 1) % 256
  pub total : s'.total_bytes ≡ (s.total_bytes + length b.payload) % 2 ^ 64

-- A round that goes on is quiet or stores a block; one that ends the loop stores nothing.
abbrev pub Round : CrcService → (List Block → Block → Bool) → Rx → Next → Type 0
Round svc accepts s (continue s') = Quiet s s' ⊎ ((b : Block) × Stored svc accepts s s' b)
Round svc accepts s (stop st s') = (s'.stored ≡ s.stored) × (s'.total_bytes ≡ s.total_bytes)

-- A change of the other fields keeps quiet.
pub quiet :
    {s0 s s' : Rx}
    → Quiet s0 s
    → s'.input ≡ s.input
    → s'.stored ≡ s.stored
    → s'.expected_block ≡ s.expected_block
    → s'.total_bytes ≡ s.total_bytes
    → Quiet s0 s'
quiet {s0} q i t e b = record {
  read_on = subst (λ rs. Suffix rs s0.input) (sym i) q.read_on;
  same_stored = t ∙ q.same_stored;
  same_expected = e ∙ q.same_expected;
  same_total = b ∙ q.same_total;
}

pub Quiet-refl : (s : Rx) → Quiet s s
Quiet-refl s = record {
  read_on = here;
  same_stored = refl;
  same_expected = refl;
  same_total = refl;
}

-- further down the same script
pub Quiet-on :
    {s0 s : Rx} {rs : List Read}
    → Suffix rs s.input
    → Quiet s0 s
    → Quiet s0 (record s { io = record s.io { input = rs } })
Quiet-on x q = record {
  read_on = Suffix-trans x q.read_on;
  same_stored = q.same_stored;
  same_expected = q.same_expected;
  same_total = q.same_total;
}
