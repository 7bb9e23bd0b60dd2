-- ===== src/Xmodem/Receive/Rounds.antt =====
-- How `receive_loop` runs: one round, and what follows it.
use zephyr_zyx_modem.Base.{ℕ, suc, ◌≡◌, ap, Bool, some, List}
use zephyr_zyx_modem.Io.{Read, first, after_read}
use zephyr_zyx_modem.Crc.{CrcService}
use zephyr_zyx_modem.Xmodem.{Config, Block, Status}
use zephyr_zyx_modem.Xmodem.Receive.{
  Rx, continue, stop, receive_answer, receive_round, receive_loop,
}

module _ (svc : CrcService) (accepts : List Block → Block → Bool) where
  -- A round is decided by what its first read answers.
  pub receive_round-answer :
      (cfg : Config) (s : Rx) {rs : List Read}
      → s.input ≡ rs
      → receive_round svc accepts cfg s
        ≡ receive_answer svc accepts cfg (first rs) (record s { io = after_read s.io })
  unfolding receive_round
  receive_round-answer cfg s e =
      ap (λ r. receive_answer svc accepts cfg (first r) (record s { io = after_read s.io })) e

  module _ (fuel : ℕ) (cfg : Config) (s s' : Rx) where
    pub receive_loop-continue :
        receive_round svc accepts cfg s ≡ continue s'
        → receive_loop svc accepts (suc fuel) cfg s ≡ receive_loop svc accepts fuel cfg s'
    unfolding receive_loop
    receive_loop-continue e = rw (e, receive_loop)

    pub receive_loop-stop :
        {st : Status}
        → receive_round svc accepts cfg s ≡ stop st s'
        → receive_loop svc accepts (suc fuel) cfg s ≡ some (st, s')
    unfolding receive_loop
    receive_loop-stop e = rw (e, receive_loop)
