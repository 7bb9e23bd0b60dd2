-- ===== src/Zmodem/Receive/Returns.antt =====
-- `zmodem_receive` returns: no round goes on without reading on.
use zephyr_zyx_modem.Base.{
  ℕ, zero, suc, ◌<◌, ◌≡◌, refl, subst, Bool, Bool-cases, Option, none, some, List, arith, length,
  ◌==◌, inl, inr,
}
use zephyr_zyx_modem.Io.{Read, Io}
use zephyr_zyx_modem.Zmodem.Platform.{Platform}
use zephyr_zyx_modem.Zmodem.{Status, FileInfo, zrqinit, zfile, zfin}
use zephyr_zyx_modem.Zmodem.Headers.{Framed, read_header_rx}
use zephyr_zyx_modem.Zmodem.Subpacket.{Subpacket, read_subpacket_rx}
use zephyr_zyx_modem.Zmodem.Receive.{
  Callbacks, usable, Event, Rx, Phase, between, within, streaming, Next, continue, stop, with_input,
  receive_file, receive_between, receive_within, receive_data, receive_round, receive_loop,
  receive_start, receive_fuel, zmodem_receive,
}
use zephyr_zyx_modem.Zmodem.Receive.Progress.{
  Shorter, Shorter-le, read_header_rx-Shorter, read_subpacket_rx-Shorter,
}

-- If the loop goes on, fewer than `n` entries of the script are left.
abbrev pub Leaves : ℕ → Next → Type 0
Leaves n (continue phase s) = length s.io.input < n
Leaves n (stop st s) = Unit {0}

module _ (svc : Platform) (stale : List Event → List ℕ) (cbs : Callbacks) where
  receive_file-Leaves :
      (n : ℕ) (r : Option Subpacket × List Read) (s : Rx)
      → Shorter n r
      → Leaves n (receive_file svc stale cbs r.0 (with_input r.1 s))
  unfolding receive_file
  receive_file-Leaves n (none, rs) s h = tt
  receive_file-Leaves n (some p, rs) s h = h

  receive_between-Leaves :
      (n : ℕ) (r : Option Framed × List Read) (s : Rx)
      → Shorter n r
      → Leaves n (receive_between svc stale cbs r.0 (with_input r.1 s))
  unfolding receive_between
  receive_between-Leaves n (none, rs) s h = tt
  receive_between-Leaves n (some f, rs) s h = elim (Bool-cases (f.header.kind == zrqinit)) [
    | inl e ↦ rw e h
    | inr e ↦ elim (Bool-cases (f.header.kind == zfile)) [
      | inl e' ↦
          rw (e, e')
            (receive_file-Leaves n (read_subpacket_rx svc.crc 1024 f.is_crc32 rs) (with_input rs s)
              (Shorter-le {m = n} (read_subpacket_rx svc.crc 1024 f.is_crc32 rs)
                (read_subpacket_rx-Shorter svc.crc 1024 f.is_crc32 rs) (omega arith)))
      | inr e' ↦ elim (Bool-cases (f.header.kind == zfin)) [
        | inl e'' ↦ rw (e, e', e'') tt
        | inr e'' ↦ rw (e, e', e'') h
      ]
    ]
  ]

  receive_within-Leaves :
      (n : ℕ) (info : FileInfo) (offset : ℕ) (r : Option Framed × List Read) (s : Rx)
      → Shorter n r
      → Leaves n (receive_within svc stale cbs info offset r.0 (with_input r.1 s))
  unfolding receive_within
  receive_within-Leaves n info offset (none, rs) s h = tt
  receive_within-Leaves n info offset (some f, rs) s h = ground arith

  receive_data-Leaves :
      (n : ℕ) (info : FileInfo) (offset : ℕ) (is_crc32 : Bool) (r : Option Subpacket × List Read)
      (s : Rx)
      → Shorter n r
      → Leaves n (receive_data svc stale cbs info offset is_crc32 r.0 (with_input r.1 s))
  unfolding receive_data
  receive_data-Leaves n info offset is_crc32 (none, rs) s h = tt
  receive_data-Leaves n info offset is_crc32 (some p, rs) s h = ground arith

  pub receive_round-Leaves :
      (phase : Phase) (s : Rx) → Leaves (length s.io.input) (receive_round svc stale cbs phase s)
  unfolding receive_round
  receive_round-Leaves between s =
      receive_between-Leaves (length s.io.input) (read_header_rx svc.crc s.io.input) s
        (read_header_rx-Shorter svc.crc s.io.input)
  receive_round-Leaves (within info offset) s =
      receive_within-Leaves (length s.io.input) info offset (read_header_rx svc.crc s.io.input) s
        (read_header_rx-Shorter svc.crc s.io.input)
  receive_round-Leaves (streaming info offset is_crc32) s =
      receive_data-Leaves (length s.io.input) info offset is_crc32
        (read_subpacket_rx svc.crc 1024 is_crc32 s.io.input) s
        (read_subpacket_rx-Shorter svc.crc 1024 is_crc32 s.io.input)

  -- the loop goes on after a round that goes on
  abbrev pub Runs : Phase → Rx → Status → Rx → Type 0
  Runs phase s st s' =
      (fuel : ℕ)
      → length s.io.input < fuel
      → receive_loop svc stale cbs fuel phase s ≡ some (st, s')

  pub stop-Runs :
      (phase : Phase) (s : Rx) {st : Status} {s' : Rx}
      → receive_round svc stale cbs phase s ≡ stop st s'
      → Runs phase s st s'
  unfolding receive_loop
  stop-Runs phase s e zero h = absurd (omega arith)
  stop-Runs phase s e (suc fuel) h = rw (receive_loop, e) refl

  pub continue-Runs :
      (phase : Phase) (s : Rx) {phase' : Phase} {s' : Rx} {st : Status} {s'' : Rx}
      → receive_round svc stale cbs phase s ≡ continue phase' s'
      → Runs phase' s' st s''
      → Runs phase s st s''
  unfolding receive_loop
  continue-Runs phase s e runs zero h = absurd (omega arith)
  continue-Runs phase s {phase'} {s'} e runs (suc fuel) h =
      let less : length s'.io.input < length s.io.input =
        subst (Leaves (length s.io.input)) e (receive_round-Leaves phase s) in
      rw (receive_loop, e) (runs fuel (omega arith))

  receive_loop-returns :
      (fuel : ℕ) (phase : Phase) (s : Rx)
      → length s.io.input < fuel
      → (r : Status × Rx) × (receive_loop svc stale cbs fuel phase s ≡ some r)
  unfolding receive_loop
  receive_loop-returns zero phase s h = absurd (omega arith)
  receive_loop-returns (suc fuel) phase s h =
      (elim (receive_round svc stale cbs phase s)
          as (λ x.
            Leaves (length s.io.input) x
            → (r : Status × Rx) × ((elim x [
              | continue phase' s' ↦ receive_loop svc stale cbs fuel phase' s'
              | stop st s' ↦ some (st, s')
            ])
                ≡ some r)) [
                  | continue phase' s' ↦ λ less. receive_loop-returns fuel phase' s' (omega arith)
                  | stop st s' ↦ λ less. ((st, s'), refl)
                ])
        (receive_round-Leaves phase s)

-- `zmodem_receive` returns, whatever the line delivers, whatever callbacks are there, and whatever
-- its buffer held: the fuel of one round for each entry of the script is enough.
pub zmodem_receive-returns :
    (svc : Platform) (stale : List Event → List ℕ) (cbs : Option Callbacks) (io : Io)
    → (r : Status × Rx) × (zmodem_receive svc stale cbs io ≡ some r)
unfolding zmodem_receive receive_start
zmodem_receive-returns svc stale none io = (_, refl)
zmodem_receive-returns svc stale (some cbs) io = elim (Bool-cases (usable (some cbs))) [
  | inl e ↦ rw e (
      receive_loop-returns svc stale cbs (receive_fuel io) between (receive_start svc stale cbs io)
        (omega arith))
  | inr e ↦ rw e (_, refl)
]
