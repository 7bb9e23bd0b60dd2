-- ===== src/Ymodem/Receive/Returns.antt =====
-- `ymodem_receive` returns: each round of its loop reads on, or counts a retry on a silent line.
use zephyr_zyx_modem.Base.{
  ℕ, zero, suc, ◌+◌, ◌-◌, ◌%◌, ◌≤◌, ◌<◌, ◌≡◌, refl, inl, inr, Bool-cases, Option, none, some, List,
  [], ◌∷◌, arith, length, ltb, ltb→lt, ◌==◌, add_u8,
}
use zephyr_zyx_modem.Io.{Read, byte, cancelled, failed, Io, read_payload}
use zephyr_zyx_modem.Io.Laws.{length-rest, length-drop_bytes, length-read_payload}
use zephyr_zyx_modem.Crc.{CrcService}
use zephyr_zyx_modem.Xmodem.{eot, can}
use zephyr_zyx_modem.Ymodem.{Status, FileInfo, two_bytes, parse_block0}
use zephyr_zyx_modem.Ymodem.Receive.{
  Callbacks, usable, Event, Rx, Phase, waiting, receiving, Next, continue, stop, Packet,
  checked_packet, read_packet, block_len, is_block, receive_named, receive_info, receive_block0,
  receive_waiting, receive_packet, receive_data, receive_round, receive_loop, receive_fuel,
  ymodem_receive,
}

length-two_bytes : (rs : List Read) → length (two_bytes rs).1 ≤ length rs
unfolding two_bytes
length-two_bytes [] = omega arith
length-two_bytes (byte a ∷ []) = omega arith
length-two_bytes (byte a ∷ byte b ∷ rs) = omega arith
length-two_bytes (byte a ∷ cancelled ∷ rs) = omega arith
length-two_bytes (byte a ∷ failed ∷ rs) = omega arith
length-two_bytes (cancelled ∷ rs) = omega arith
length-two_bytes (failed ∷ rs) = omega arith

length-read_rest :
    (svc : CrcService) (len n : ℕ) (o : Option (ℕ × ℕ)) (rs : List Read)
    → length rs ≤ n
    → (let r : Option Packet × List Read = elim o [
      | none ↦ (none, rs)
      | some numbers ↦ (
        checked_packet svc numbers.0 (read_payload len rs).0 (two_bytes (read_payload len rs).1).0,
        (two_bytes (read_payload len rs).1).1,
      )
    ] in
        length r.1 ≤ n)
length-read_rest svc len n none rs h = h
length-read_rest svc len n (some numbers) rs h =
    omega (arith, length-read_payload len rs, length-two_bytes (read_payload len rs).1)

length-read_packet :
    (svc : CrcService) (len : ℕ) (rs : List Read) → length (read_packet svc len rs).1 ≤ length rs
unfolding read_packet
length-read_packet svc len rs =
    length-read_rest svc len (length rs) (two_bytes rs).0 (two_bytes rs).1 (length-two_bytes rs)

abbrev retries_of : Phase → ℕ
retries_of (waiting retries) = retries
retries_of (receiving info retries expected_blk file_offset) = retries

-- If the loop goes on, at most `n` entries are left, and no more than ten retries are counted.
abbrev Leaves : ℕ → Next → Type 0
Leaves n (continue phase s) = (length s.io.input ≤ n) × (retries_of phase ≤ 10)
Leaves n (stop st s) = Unit {0}

module _ (svc : CrcService) (cbs : Callbacks) where
  receive_named-Leaves :
      (n retries : ℕ) (info : FileInfo) (name : List ℕ) (s : Rx)
      → length s.io.input ≤ n
      → retries ≤ 10
      → Leaves n (receive_named svc cbs retries info name s)
  receive_named-Leaves n retries info [] s h k = tt
  receive_named-Leaves n retries info (c ∷ cs) s h k = (h, k)

  receive_block0-Leaves :
      (n retries : ℕ) (p : Option Packet) (s : Rx)
      → length s.io.input ≤ n
      → retries < 10
      → Leaves n (receive_block0 svc cbs retries p s)
  unfolding receive_block0 receive_info
  receive_block0-Leaves n retries none s h k =
      (omega (arith, length-drop_bytes s.io.input), omega arith)
  receive_block0-Leaves n retries (some p) s h k = elim (Bool-cases (p.num == 0)) [
    | inl e ↦ rw e (
        receive_named-Leaves n retries (parse_block0 p.payload 128)
          (parse_block0 p.payload 128).filename s h (omega arith))
    | inr e ↦ rw e (omega (arith, length-drop_bytes s.io.input), omega arith)
  ]

  receive_waiting-Leaves :
      (n retries : ℕ) (r : Read) (s : Rx)
      → length s.io.input ≤ n
      → retries < 10
      → Leaves n (receive_waiting svc cbs retries r s)
  unfolding receive_waiting
  receive_waiting-Leaves n retries cancelled s h k = tt
  receive_waiting-Leaves n retries failed s h k = (h, omega arith)
  receive_waiting-Leaves n retries (byte header) s h k = elim (Bool-cases (header == can)) [
    | inl e ↦ rw e tt
    | inr e ↦ elim (Bool-cases (is_block header)) [
      | inl e' ↦
          rw (e, e')
            (receive_block0-Leaves n retries (read_packet svc (block_len header) s.io.input).0
              (record s {
                io = record s.io { input = (read_packet svc (block_len header) s.io.input).1 };
              })
              (omega (arith, length-read_packet svc (block_len header) s.io.input)) k)
      | inr e' ↦ rw (e, e') (omega (arith, length-drop_bytes s.io.input), omega arith)
    ]
  ]

  receive_packet-Leaves :
      (n : ℕ) (info : FileInfo) (retries expected_blk file_offset : ℕ) (p : Option Packet) (s : Rx)
      → length s.io.input ≤ n
      → retries ≤ 10
      → Leaves n (receive_packet svc cbs info retries expected_blk file_offset p s)
  unfolding receive_packet
  receive_packet-Leaves n info retries expected_blk file_offset none s h k =
      (omega (arith, length-drop_bytes s.io.input), k)
  receive_packet-Leaves n info retries expected_blk file_offset (some p) s h k =
      elim (Bool-cases (p.num == expected_blk)) [
        | inl e ↦ rw e (h, omega arith)
        | inr e ↦ elim (Bool-cases (p.num == (expected_blk + 255) % 256)) [
          | inl e' ↦ rw (e, e') (h, k)
          | inr e' ↦ rw (e, e') tt
        ]
      ]

  receive_data-Leaves :
      (n : ℕ) (info : FileInfo) (retries expected_blk file_offset : ℕ) (r : Read) (s : Rx)
      → length s.io.input ≤ n
      → retries ≤ 10
      → Leaves n (receive_data svc cbs info retries expected_blk file_offset r s)
  unfolding receive_data
  receive_data-Leaves n info retries expected_blk file_offset cancelled s h k = tt
  receive_data-Leaves n info retries expected_blk file_offset failed s h k =
      elim (Bool-cases (ltb 10 (add_u8 retries 1))) [
        | inl e ↦ rw e tt
        | inr e ↦ rw e (h, ground (arith, e))
      ]
  receive_data-Leaves n info retries expected_blk file_offset (byte header) s h k =
      elim (Bool-cases (header == eot)) [
        | inl e ↦ rw e (omega (arith, length-rest s.io.input), omega arith)
        | inr e ↦ elim (Bool-cases (header == can)) [
          | inl e' ↦ rw (e, e') tt
          | inr e' ↦ elim (Bool-cases (is_block header)) [
            | inl e'' ↦
                rw (e, e', e'')
                  (receive_packet-Leaves n info retries expected_blk file_offset
                    (read_packet svc (block_len header) s.io.input).0
                    (record s {
                      io = record s.io {
                        input = (read_packet svc (block_len header) s.io.input).1;
                      };
                    })
                    (omega (arith, length-read_packet svc (block_len header) s.io.input)) k)
            | inr e'' ↦ rw (e, e', e'') (omega (arith, length-drop_bytes s.io.input), k)
          ]
        ]
      ]

-- A bound on the rounds that are left.
abbrev rounds_left : Phase → List Read → ℕ
rounds_left phase [] = 11 - retries_of phase
rounds_left phase (r ∷ rs) = length rs + 12

abbrev Decreases : ℕ → Next → Type 0
Decreases n (continue phase s) = (rounds_left phase s.io.input < n) × (retries_of phase ≤ 10)
Decreases n (stop st s) = Unit {0}

rounds_left-le : (phase : Phase) (rs : List Read) → rounds_left phase rs ≤ length rs + 11
rounds_left-le phase [] = omega arith
rounds_left-le phase (r ∷ rs) = omega arith

Leaves-Decreases : (n : ℕ) (next : Next) → Leaves n next → Decreases (n + 12) next
Leaves-Decreases n (continue phase s) h = (omega (arith, h.0, rounds_left-le phase s.io.input), h.1)
Leaves-Decreases n (stop st s) h = tt

module _ (svc : CrcService) (cbs : Callbacks) where
  receive_round-Decreases :
      (phase : Phase) (rs : List Read) (sent : List ℕ) (events : List Event)
      → retries_of phase ≤ 10
      → Decreases (rounds_left phase rs) (
          receive_round svc cbs phase
            (record { io = record { input = rs; sent = sent }; events = events }))
  unfolding receive_round receive_waiting receive_data
  receive_round-Decreases (waiting retries) [] sent events h = elim (Bool-cases (ltb retries 10)) [
    | inl e ↦ rw e (ground (arith, e), ground (arith, e))
    | inr e ↦ rw e tt
  ]
  receive_round-Decreases (waiting retries) (r ∷ rs) sent events h =
      elim (Bool-cases (ltb retries 10)) [
        | inl e ↦ rw e (
            Leaves-Decreases (length rs) _ (
              receive_waiting-Leaves svc cbs (length rs) retries r
                (record { io = record { input = rs; sent = sent }; events = events }) (omega arith)
                (ltb→lt retries 10 e)))
        | inr e ↦ rw e tt
      ]
  receive_round-Decreases (receiving info retries expected_blk file_offset) [] sent events h =
      elim (Bool-cases (ltb 10 (add_u8 retries 1))) [
        | inl e ↦ rw e tt
        | inr e ↦ rw e (ground (arith, e), ground (arith, e))
      ]
  receive_round-Decreases (receiving info retries expected_blk file_offset) (r ∷ rs) sent events h =
      Leaves-Decreases (length rs) _ (
        receive_data-Leaves svc cbs (length rs) info retries expected_blk file_offset r
          (record { io = record { input = rs; sent = sent }; events = events }) (omega arith) h)

  receive_loop-returns :
      (fuel : ℕ) (phase : Phase) (s : Rx)
      → retries_of phase ≤ 10
      → rounds_left phase s.io.input < fuel
      → (r : Status × Rx) × (receive_loop svc cbs fuel phase s ≡ some r)
  unfolding receive_loop
  receive_loop-returns zero phase s k h = absurd (omega arith)
  receive_loop-returns (suc fuel) phase s k h =
      (elim (receive_round svc cbs phase s)
          as (λ x.
            Decreases (rounds_left phase s.io.input) x
            → (r : Status × Rx) × ((elim x [
              | continue phase' s' ↦ receive_loop svc cbs fuel phase' s'
              | stop st s' ↦ some (st, s')
            ])
                ≡ some r)) [
                  | continue phase' s' ↦
                      λ less. receive_loop-returns fuel phase' s' less.1 (omega (arith, less.0))
                  | stop st s' ↦ λ less. ((st, s'), refl)
                ])
        (receive_round-Decreases phase s.io.input s.io.sent s.events k)

-- `ymodem_receive` returns, whatever the line delivers and whatever callbacks are there: the fuel of
-- one round for each entry of the script and 13 more is enough.
pub ymodem_receive-returns :
    (svc : CrcService) (cbs : Option Callbacks) (io : Io)
    → (r : Status × Rx) × (ymodem_receive svc cbs io ≡ some r)
unfolding ymodem_receive
ymodem_receive-returns svc none io = (_, refl)
ymodem_receive-returns svc (some cbs) io = elim (Bool-cases (usable (some cbs))) [
  | inl e ↦ rw e (
      receive_loop-returns svc cbs (receive_fuel io) (waiting 0) _ (omega arith)
        (omega (arith, rounds_left-le (waiting 0) io.input)))
  | inr e ↦ rw e (_, refl)
]
