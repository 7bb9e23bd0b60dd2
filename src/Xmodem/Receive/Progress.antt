-- ===== src/Xmodem/Receive/Progress.antt =====
-- `xmodem_receive` returns: each round of its loop reads on, or counts a retry on a silent line.
use zephyr_zyx_modem.Base.{
  ℕ, zero, suc, ◌+◌, ◌-◌, ◌≤◌, ◌<◌, ◌%◌, ◌≡◌, refl, inl, inr, Bool, Bool-cases, ◌∙◌, ap, Option,
  none, some, List, [], ◌∷◌, arith, length, ltb, if◌then◌else◌,
}
use zephyr_zyx_modem.Io.{
  Read, byte, cancelled, failed, Io, first, rest, after_read, Pair, bytes, Payload, full,
  read_payload,
}
use zephyr_zyx_modem.Io.Laws.{length-rest, length-drop_bytes, length-read_payload}
use zephyr_zyx_modem.Crc.{CrcService}
use zephyr_zyx_modem.Xmodem.Receive.Rounds.{receive_round-answer, receive_loop-continue}
use zephyr_zyx_modem.Xmodem.{Config, Callbacks, usable, config_or_default, Block, Status, error_io}
use zephyr_zyx_modem.Xmodem.Receive.{
  Rx, Next, continue, stop, fall_back, receive_timeout, receive_bad_header, receive_accept,
  receive_crc, receive_checksum, receive_check, receive_payload, receive_numbers, receive_block,
  receive_header, receive_answer, receive_round, receive_loop, receive_start, receive_fuel, Result,
  xmodem_receive, reject, finish,
}

-- If the loop goes on, at most `n` entries of the script are left.
abbrev Leaves : ℕ → Next → Type 0
Leaves n (continue s) = length s.input ≤ n
Leaves n (stop st s) = Unit {0}

reject-Leaves : (s : Rx) {n : ℕ} → length s.input ≤ n → Leaves n (reject s)
reject-Leaves s h = omega (arith, length-drop_bytes s.input)

-- A bound on the rounds that are left. On a silent line the retries count up to the limit; a
-- counter above the limit ends the loop, or wraps to 0.
abbrev silent_rounds : ℕ → ℕ → ℕ
silent_rounds max retries = if ltb max retries then max + 2 else max + 1 - retries

abbrev rounds_left : Config → Rx → List Read → ℕ
rounds_left cfg s [] = silent_rounds cfg.max_retries s.retries
rounds_left cfg s (r ∷ rs) = length rs + 257

abbrev Decreases : Config → Rx → List Read → Next → Type 0
Decreases cfg s rs (continue s') = rounds_left cfg s' s'.input < rounds_left cfg s rs
Decreases cfg s rs (stop st s') = Unit {0}

rounds_left-le :
    (cfg : Config) (s : Rx) (rs : List Read)
    → cfg.max_retries < 255
    → rounds_left cfg s rs ≤ length rs + 256
rounds_left-le cfg s [] h = ground arith
rounds_left-le cfg s (r ∷ rs) h = omega arith

Leaves-Decreases :
    (cfg : Config) (s : Rx) (r : Read) (rs : List Read) (next : Next)
    → cfg.max_retries < 255
    → Leaves (length rs) next
    → Decreases cfg s (r ∷ rs) next
Leaves-Decreases cfg s r rs (continue s') h l = omega (arith, rounds_left-le cfg s' s'.input h)
Leaves-Decreases cfg s r rs (stop st s') h l = tt

-- A timeout counts one retry and leaves the line alone.
abbrev pub TimedOut : Config → Rx → Next → Type 0
TimedOut cfg s (continue s') =
    (s'.input ≡ s.input)
    × (s'.retries ≡ (s.retries + 1) % 256)
    × (s'.retries ≤ cfg.max_retries)
    × (s'.stored ≡ s.stored)
    × (s'.expected_block ≡ s.expected_block)
    × (s'.total_bytes ≡ s.total_bytes)
TimedOut cfg s (stop st s') =
    (cfg.max_retries < (s.retries + 1) % 256)
    × (s'.stored ≡ s.stored)
    × (s'.total_bytes ≡ s.total_bytes)

fall_back-keeps :
    (cfg : Config) (s : Rx)
    → ((fall_back cfg s).input ≡ s.input)
      × ((fall_back cfg s).retries ≡ s.retries)
      × ((fall_back cfg s).stored ≡ s.stored)
      × ((fall_back cfg s).expected_block ≡ s.expected_block)
      × ((fall_back cfg s).total_bytes ≡ s.total_bytes)
unfolding fall_back
fall_back-keeps cfg s = ground arith

pub receive_timeout-TimedOut : (cfg : Config) (s : Rx) → TimedOut cfg s (receive_timeout cfg s)
unfolding receive_timeout
receive_timeout-TimedOut cfg s =
    ground (arith, fall_back-keeps cfg (record s { retries = (s.retries + 1) % 256 }))

TimedOut-Leaves :
    (cfg : Config) (s : Rx) (next : Next) → TimedOut cfg s next → Leaves (length s.input) next
TimedOut-Leaves cfg s (continue s') h = rw h.0 (omega arith)
TimedOut-Leaves cfg s (stop st s') h = tt

TimedOut-Decreases :
    (cfg : Config) (s : Rx) (next : Next)
    → cfg.max_retries < 255
    → s.input ≡ []
    → TimedOut cfg s next
    → Decreases cfg s [] next
TimedOut-Decreases cfg s (continue s') m e h = rw (h.0, e) (ground arith)
TimedOut-Decreases cfg s (stop st s') m e h = tt

module _ (svc : CrcService) (accepts : List Block → Block → Bool) where
  receive_accept-Leaves :
      (num : ℕ) (payload : List ℕ) (s : Rx) {n : ℕ}
      → length s.input ≤ n
      → Leaves n (receive_accept svc accepts num payload s)
  unfolding receive_accept
  receive_accept-Leaves num payload s h = ground arith

  receive_crc-Leaves :
      (num : ℕ) (payload : List ℕ) (p : Pair) (s : Rx) {n : ℕ}
      → length s.input ≤ n
      → Leaves n (receive_crc svc accepts num payload p s)
  unfolding receive_crc
  receive_crc-Leaves num payload (bytes hi lo) s h =
      ground (arith, receive_accept-Leaves num payload s h, reject-Leaves s h)
  receive_crc-Leaves num payload Pair.cancelled s h = tt
  receive_crc-Leaves num payload Pair.failed s h = reject-Leaves s h

  receive_checksum-Leaves :
      (num : ℕ) (payload : List ℕ) (r : Read) (s : Rx) {n : ℕ}
      → length s.input ≤ n
      → Leaves n (receive_checksum svc accepts num payload r s)
  unfolding receive_checksum
  receive_checksum-Leaves num payload (byte sum) s h =
      ground (arith, receive_accept-Leaves num payload s h, reject-Leaves s h)
  receive_checksum-Leaves num payload cancelled s h = tt
  receive_checksum-Leaves num payload failed s h = reject-Leaves s h

  receive_check-Leaves :
      (num : ℕ) (payload : List ℕ) (s : Rx) {n : ℕ}
      → length s.input ≤ n
      → Leaves n (receive_check svc accepts num payload s)
  unfolding receive_check
  receive_check-Leaves num payload s h = elim (Bool-cases s.crc_mode) [
    | inl e ↦
        rw e (receive_crc-Leaves num payload _ _ (omega (arith, shorter, length-rest s.input)))
    | inr e ↦ rw e (receive_checksum-Leaves num payload _ _ (omega (arith, length-rest s.input)))
  ]
    where
      shorter : length (rest (rest s.input)) ≤ length (rest s.input)
      shorter = length-rest (rest s.input)

  receive_payload-Leaves :
      (num : ℕ) (p : Payload) (s : Rx) {n : ℕ}
      → length s.input ≤ n
      → Leaves n (receive_payload svc accepts num p s)
  unfolding receive_payload
  receive_payload-Leaves num (full payload) s h = receive_check-Leaves num payload s h
  receive_payload-Leaves num Payload.cancelled s h = tt
  receive_payload-Leaves num Payload.failed s h = reject-Leaves s h

  receive_numbers-Leaves :
      (len : ℕ) (p : Pair) (s : Rx) {n : ℕ}
      → length s.input ≤ n
      → Leaves n (receive_numbers svc accepts len p s)
  unfolding receive_numbers
  receive_numbers-Leaves len (bytes num inv) s {n} h = ground (
    arith,
    receive_payload-Leaves num (read_payload len s.input).0
        (record s { io = record s.io { input = (read_payload len s.input).1 } }) {n = n}
        (omega (arith, length-read_payload len s.input)),
    reject-Leaves s h,
  )
  receive_numbers-Leaves len Pair.cancelled s h = tt
  receive_numbers-Leaves len Pair.failed s h = reject-Leaves s h

  receive_block-Leaves :
      (len : ℕ) (s : Rx) {n : ℕ} → length s.input ≤ n → Leaves n (receive_block svc accepts len s)
  unfolding receive_block
  receive_block-Leaves len s h =
      receive_numbers-Leaves len _ _
        (omega (arith, length-rest s.input, length-rest (rest s.input)))

  receive_header-Leaves :
      (cfg : Config) (header : ℕ) (s : Rx)
      → Leaves (length s.input) (receive_header svc accepts cfg header s)
  unfolding receive_header receive_bad_header
  receive_header-Leaves cfg header s = ground (
    arith,
    receive_block-Leaves 128 s {n = length s.input},
    receive_block-Leaves 1024 s {n = length s.input},
    length-drop_bytes s.input,
  )

  receive_answer-Leaves :
      (cfg : Config) (r : Read) (s : Rx)
      → Leaves (length s.input) (receive_answer svc accepts cfg r s)
  unfolding receive_answer
  receive_answer-Leaves cfg (byte header) s = receive_header-Leaves cfg header s
  receive_answer-Leaves cfg cancelled s = tt
  receive_answer-Leaves cfg failed s = TimedOut-Leaves cfg s _ (receive_timeout-TimedOut cfg s)

  answer-Decreases :
      (cfg : Config) (s : Rx) (rs : List Read)
      → cfg.max_retries < 255
      → Decreases cfg s rs (
          receive_answer svc accepts cfg
            (first rs)
            (record s { io = record s.io { input = rest rs } }))
  unfolding receive_answer
  answer-Decreases cfg s [] h =
      TimedOut-Decreases cfg (record s { io = record s.io { input = [] } }) _ h refl
        (receive_timeout-TimedOut cfg (record s { io = record s.io { input = [] } }))
  answer-Decreases cfg s (r ∷ rs) h =
      Leaves-Decreases cfg s r rs _ h
        (receive_answer-Leaves cfg r (record s { io = record s.io { input = rs } }))

  receive_loop_total :
      (fuel : ℕ) (cfg : Config) (s : Rx)
      → cfg.max_retries < 255
      → rounds_left cfg s s.input < fuel
      → (r : Status × Rx) × (receive_loop svc accepts fuel cfg s ≡ some r)
  unfolding receive_loop receive_round
  receive_loop_total zero cfg s h f = absurd (omega arith)
  receive_loop_total (suc fuel) cfg s h f =
      go _ (answer-Decreases cfg s s.input h) (receive_loop_total fuel cfg)
    where
      go :
          (next : Next)
          → Decreases cfg s s.input next
          → ((s' : Rx)
              → cfg.max_retries < 255
              → rounds_left cfg s' s'.input < fuel
              → (r : Status × Rx) × (receive_loop svc accepts fuel cfg s' ≡ some r))
          → (r : Status × Rx) × (◌≡◌ {A = Option (Status × Rx)}
              (elim next [
                | continue s' ↦ receive_loop svc accepts fuel cfg s'
                | stop st s' ↦ some (st, s')
              ])
              (some r))
      go (continue s') d ih = ih s' h (omega arith)
      go (stop st s') d ih = ((st, s'), refl)

  -- With a retry limit below 255 the receiver returns, whatever the callbacks answer: the fuel of
  -- `xmodem_receive` suffices.
  pub xmodem_receive-returns :
      (callbacks : Option Callbacks) (config : Option Config) (io : Io)
      → (config_or_default config).max_retries < 255
      → (r : Result) × (xmodem_receive svc accepts callbacks config io ≡ some r)
  unfolding xmodem_receive receive_fuel receive_start
  xmodem_receive-returns callbacks config io h = elim (Bool-cases (usable callbacks)) [
    | inl e ↦
        let (r, ran) = receive_loop_total (length io.input + 258) cfg start h fits in
        (finish r.0 r.1, rw (e, ran))
    | inr e ↦ (record { status = error_io; total_received = none; final = io; received = [] }, rw e)
  ]
    where
      cfg : Config
      cfg = config_or_default config

      start : Rx
      start = receive_start cfg io

      fits : rounds_left cfg start start.input < length io.input + 258
      fits = omega (arith, rounds_left-le cfg start io.input h)

  silent_round :
      (cfg : Config) (s : Rx) (next : Next)
      → cfg.max_retries ≡ 255
      → s.input ≡ []
      → TimedOut cfg s next
      → (s' : Rx) × (next ≡ continue s') × (s'.input ≡ [])
  silent_round cfg s (continue s') m e h = (s', refl, h.0 ∙ e)
  silent_round cfg s (stop st s') m e h = absurd (omega arith)

  -- With a retry limit of 255 the receiver never gives up on a silent line: the 8-bit retry counter
  -- wraps before it passes the limit, however many rounds the loop runs.
  pub receive_loop-silent_forever :
      (fuel : ℕ) (cfg : Config) (s : Rx)
      → cfg.max_retries ≡ 255
      → s.input ≡ []
      → receive_loop svc accepts fuel cfg s ≡ none
  unfolding receive_loop receive_answer
  receive_loop-silent_forever zero cfg s m e = refl
  receive_loop-silent_forever (suc fuel) cfg s m e =
      let waiting : Rx = record s { io = after_read s.io } in
      let (s', next, e') =
        silent_round cfg waiting _ m (ap rest e) (receive_timeout-TimedOut cfg waiting) in
      receive_loop-continue svc accepts fuel cfg s s'
        (receive_round-answer svc accepts cfg s e ∙ next)
      ∙ receive_loop-silent_forever fuel cfg s' m e'
