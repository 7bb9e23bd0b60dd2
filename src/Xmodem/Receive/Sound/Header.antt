-- ===== src/Xmodem/Receive/Sound/Header.antt =====
-- Steps 2a to 2f: a round is quiet, or stores the block whose frame starts it.
use zephyr_zyx_modem.Base.{
  ℕ, ◌-◌, ◌≡◌, refl, ap, subst, ◌∙◌, ◌⊎◌, inl, inr, Bool, true, List, ◌∷◌, arith, ◌==◌, ==_iff, ltb,
  All, IsByte, add_u8,
}
use zephyr_zyx_modem.Io.{
  Read, byte, cancelled, failed, full, read_payload, Pair, bytes, pair, Payload, first, rest,
  after_read,
}
use zephyr_zyx_modem.Io.Laws.{
  rest-Suffix, drop_bytes-Suffix, read_payload-Suffix, IsLine, Suffix-IsLine, first-byte,
  script-pair, script-payload, length-full,
}
use zephyr_zyx_modem.Crc.{CrcService}
use zephyr_zyx_modem.Xmodem.{Config, Block, eot, can, soh, stx}
use zephyr_zyx_modem.Xmodem.Frame.{header_of}
use zephyr_zyx_modem.Xmodem.Receive.Sound.{Quiet, Round, quiet, Quiet-refl, Quiet-on}
use zephyr_zyx_modem.Xmodem.Receive.Progress.{TimedOut, receive_timeout-TimedOut}
use zephyr_zyx_modem.Xmodem.Receive.Sound.Check.{
  if-Round, reject-Round, two_on, receive_check-Round,
}
use zephyr_zyx_modem.Xmodem.Receive.{
  Rx, Next, continue, stop, receive_payload, receive_numbers, receive_block, receive_header,
  receive_answer, receive_round, receive_bad_header,
}

complement :
    (num inv : ℕ) → IsByte num → IsByte inv → (add_u8 num inv == 0xFF) ≡ true → inv ≡ 255 - num
complement num inv h k e = ground arith

module _ (svc : CrcService) (accepts : List Block → Block → Bool) (s0 : Rx) where
  -- a header byte that announces `len` bytes starts the round
  record Announced (len : ℕ) (s : Rx) : Type 0 where
    on_line : s0.input ≡ byte (header_of len) ∷ s.input
    size : (len ≡ 128) ⊎ (len ≡ 1024)
    bytes_left : All IsLine s.input

  receive_payload-Round :
      (num len : ℕ) (s : Rx)
      → Quiet s0 s
      → s0.input ≡ byte (header_of len) ∷ byte num ∷ byte (255 - num) ∷ s.input
      → (len ≡ 128) ⊎ (len ≡ 1024)
      → All IsLine s.input
      → (p : Payload) → (read_payload len s.input).0 ≡ p
      → Round svc accepts s0 (
          receive_payload svc accepts num p
            (record s { io = record s.io { input = (read_payload len s.input).1 } }))
  unfolding receive_payload
  receive_payload-Round num len s q line size left (full payload) e =
      receive_check-Round svc accepts s0 num payload _
        (Quiet-on (read_payload-Suffix len s.input) q)
        (record {
          on_line =
              rw (length-full len s.input payload e, ← script-payload len s.input payload e) line;
          size = rw (length-full len s.input payload e) size;
          bytes_left = Suffix-IsLine (read_payload-Suffix len s.input) left;
        })
  receive_payload-Round num len s q line size left Payload.cancelled e =
      (q.same_stored, q.same_total)
  receive_payload-Round num len s q line size left Payload.failed e =
      reject-Round svc accepts s0 _ (Quiet-on (read_payload-Suffix len s.input) q)

  receive_numbers-Round :
      (len : ℕ) (s : Rx)
      → Quiet s0 s
      → Announced len s
      → (p : Pair) → pair (first s.input) (first (rest s.input)) ≡ p
      → Round svc accepts s0
          (receive_numbers svc accepts len p (record s { io = after_read (after_read s.io) }))
  unfolding receive_numbers
  receive_numbers-Round len s q a (bytes num inv) e =
      if-Round svc accepts s0 (add_u8 num inv == 0xFF) _ _
        (λ c.
          receive_payload-Round num len _ (two_on svc accepts s0 q)
            (a.on_line ∙ ap (◌∷◌ (byte (header_of len))) (two c)) a.size two_bytes.1.1 _ refl)
        (λ _. reject-Round svc accepts s0 _ (two_on svc accepts s0 q))
    where
      two_bytes : All IsLine (byte num ∷ byte inv ∷ rest (rest s.input))
      two_bytes = subst (All IsLine) (script-pair s.input e) a.bytes_left

      two :
          (add_u8 num inv == 0xFF) ≡ true
          → s.input ≡ byte num ∷ byte (255 - num) ∷ rest (rest s.input)
      two c = rw (← complement num inv two_bytes.0 two_bytes.1.0 c) (script-pair s.input e)
  receive_numbers-Round len s q a Pair.cancelled e = (q.same_stored, q.same_total)
  receive_numbers-Round len s q a Pair.failed e =
      reject-Round svc accepts s0 _ (two_on svc accepts s0 q)

  receive_header-Round :
      (cfg : Config) (header : ℕ) (s : Rx)
      → Quiet s0 s
      → s0.input ≡ byte header ∷ s.input
      → All IsLine s.input
      → Round svc accepts s0 (receive_header svc accepts cfg header s)
  unfolding receive_header receive_block receive_bad_header
  receive_header-Round cfg header s q line left =
      if-Round svc accepts s0 (header == eot) _ _ (λ _. (q.same_stored, q.same_total))
        (λ _.
          if-Round svc accepts s0 (header == can) _ _ (λ _. (q.same_stored, q.same_total))
            (λ _.
              if-Round svc accepts s0 (header == soh) _ _
                (λ e. receive_numbers-Round 128 s q (announced 128 (inl refl) e) _ refl)
                (λ _.
                  if-Round svc accepts s0 (header == stx) _ _
                    (λ e. receive_numbers-Round 1024 s q (announced 1024 (inr refl) e) _ refl)
                    (λ _.
                      if-Round svc accepts s0 (ltb cfg.max_retries (add_u8 s.retries 1)) _ _
                        (λ _. (q.same_stored, q.same_total))
                        (λ _.
                          inl (
                            quiet (Quiet-on (drop_bytes-Suffix s.input) q) refl refl refl refl))))))
    where
      announced :
          (len : ℕ)
          → (len ≡ 128) ⊎ (len ≡ 1024)
          → (header == header_of len) ≡ true
          → Announced len s
      announced len size e = record {
        on_line = rw (← (==_iff _ _).0 e) line;
        size = size;
        bytes_left = left;
      }

  TimedOut-Round :
      (cfg : Config) (s : Rx) (next : Next)
      → Quiet s0 s
      → TimedOut cfg s next
      → Round svc accepts s0 next
  TimedOut-Round cfg s (continue s') q h = inl (quiet q h.0 h.3 h.4 h.5)
  TimedOut-Round cfg s (stop st s') q h = (h.1 ∙ q.same_stored, h.2 ∙ q.same_total)

  receive_answer-Round :
      (cfg : Config) (r : Read) (s : Rx)
      → Quiet s0 s
      → first s0.input ≡ r
      → s.input ≡ rest s0.input
      → All IsLine s.input
      → Round svc accepts s0 (receive_answer svc accepts cfg r s)
  unfolding receive_answer
  receive_answer-Round cfg (byte header) s q e i left =
      receive_header-Round cfg header s q (rw i (first-byte s0.input e)) left
  receive_answer-Round cfg cancelled s q e i left = (q.same_stored, q.same_total)
  receive_answer-Round cfg failed s q e i left =
      TimedOut-Round cfg s _ q (receive_timeout-TimedOut cfg s)

  -- A round on a line of bytes is quiet, stores the block whose frame starts it, or ends the loop.
  pub receive_round-Round :
      (cfg : Config) → All IsLine s0.input → Round svc accepts s0 (receive_round svc accepts cfg s0)
  unfolding receive_round
  receive_round-Round cfg left =
      receive_answer-Round cfg _ _ (Quiet-on (rest-Suffix s0.input) (Quiet-refl s0)) refl refl
        (Suffix-IsLine (rest-Suffix s0.input) left)
