-- ===== src/Xmodem/Receive/Accept.antt =====
-- What `xmodem_receive` does with an intact frame on its line.
use zephyr_zyx_modem.Base.{
  ℕ, ◌-◌, ◌<◌, ◌≡◌, refl, ap, ◌∙◌, inl, inr, Bool, true, false, List, ◌∷◌, ◌++◌, append_assoc,
  arith, length, ◌==◌, add_u8,
}
use mathlib.Core.List.{map-append}
use zephyr_zyx_modem.Io.{Read, byte, bytes_of, pair, rest}
use zephyr_zyx_modem.Io.Laws.{read_payload-bytes_of}
use zephyr_zyx_modem.Crc.{CrcService, HasWidths}
use zephyr_zyx_modem.Xmodem.{Config, Block}
use zephyr_zyx_modem.Xmodem.Receive.Rounds.{receive_round-answer}
use zephyr_zyx_modem.Xmodem.Frame.{frame, header_of, check_bytes, IsWellFormed}
use zephyr_zyx_modem.Xmodem.Receive.{
  Rx, receive_accept, receive_crc, receive_check, receive_payload, receive_numbers, receive_block,
  receive_header, receive_answer, receive_checksum, receive_round,
}

abbrev pub with_input : List Read → Rx → Rx
with_input rs s = record s { io = record s.io { input = rs } }

module _ (svc : CrcService) (accepts : List Block → Block → Bool) (widths : HasWidths svc) where
  receive_check-intact :
      (crc_mode : Bool) (num : ℕ) (payload : List ℕ) (rs : List Read) (s : Rx)
      → s.crc_mode ≡ crc_mode
      → s.input ≡ bytes_of (check_bytes svc crc_mode payload) ++ rs
      → receive_check svc accepts num payload s
        ≡ receive_accept svc accepts num payload (with_input rs s)
  unfolding receive_check receive_crc receive_checksum pair
  receive_check-intact true num payload rs s m e =
      rw (m, e) (ground (arith, widths.crc16_fits 0xFFFF payload))
  receive_check-intact false num payload rs s m e = rw (m, e) (ground arith)

  complement : (num : ℕ) → num < 256 → (add_u8 num (255 - num) == 0xFF) ≡ true
  complement num h = ground arith

  receive_block-intact :
      (b : Block) (rs : List Read) (s : Rx)
      → b.num < 256
      → s.input
        ≡ byte b.num
          ∷ byte (255 - b.num)
          ∷ (bytes_of b.payload ++ (bytes_of (check_bytes svc s.crc_mode b.payload) ++ rs))
      → receive_block svc accepts (length b.payload) s
        ≡ receive_accept svc accepts b.num b.payload (with_input rs s)
  unfolding receive_block receive_numbers receive_payload pair
  receive_block-intact b rs s h e =
      rw
        (
          e,
          complement b.num h,
          read_payload-bytes_of b.payload (bytes_of (check_bytes svc s.crc_mode b.payload) ++ rs),
        )
        (receive_check-intact s.crc_mode b.num b.payload rs
          (with_input (bytes_of (check_bytes svc s.crc_mode b.payload) ++ rs) s) refl refl)

  -- A frame on the line, as single answers.
  bytes_of-frame :
      (crc_mode : Bool) (b : Block) (rs : List Read)
      → bytes_of (frame svc crc_mode b) ++ rs
        ≡ byte (header_of (length b.payload))
          ∷ byte b.num
          ∷ byte (255 - b.num)
          ∷ (bytes_of b.payload ++ (bytes_of (check_bytes svc crc_mode b.payload) ++ rs))
  bytes_of-frame crc_mode b rs = simp (map-append, append_assoc)

  header_round :
      (cfg : Config) (b : Block) (s : Rx)
      → IsWellFormed b
      → receive_header svc accepts cfg (header_of (length b.payload)) s
        ≡ receive_block svc accepts (length b.payload) s
  unfolding receive_header
  header_round cfg b s w = elim w.size [ inl e ↦ rw e | inr e ↦ rw e ]

  -- A well-formed frame in the receiver's check mode reaches the sequence test with its payload, and
  -- the line behind it is left.
  pub receive_round-frame :
      (cfg : Config) (b : Block) (rs : List Read) (s : Rx)
      → IsWellFormed b
      → s.input ≡ bytes_of (frame svc s.crc_mode b) ++ rs
      → receive_round svc accepts cfg s
        ≡ receive_accept svc accepts b.num b.payload (with_input rs s)
  unfolding receive_answer
  receive_round-frame cfg b rs s w e =
      receive_round-answer svc accepts cfg s (e ∙ bytes_of-frame s.crc_mode b rs)
      ∙ header_round cfg b _ w
      ∙ receive_block-intact b rs _ w.num_fits (ap rest (e ∙ bytes_of-frame s.crc_mode b rs))
