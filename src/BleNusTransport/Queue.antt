-- ===== src/BleNusTransport/Queue.antt =====
-- The transport is a bounded queue of 512 bytes.
use zephyr_zyx_modem.Base.{
  ℕ, suc, ◌≡◌, ◌∙◌, ap, sym, refl, subst, Option, none, some, List, [], ◌∷◌, length, ◌==◌,
  if◌then◌else◌, ℤ, pos, negsuc, arith, Bool, false,
}
use zephyr_zyx_modem.Ring.{Ring, oldest, advance, offer}
use zephyr_zyx_modem.Ring.Queue.{Holds, reset-Holds, oldest-Holds, advance-Holds}
use zephyr_zyx_modem.Ring.Bounded.{bounded, bounded-nil, bounded-cons, offer-Holds}
use zephyr_zyx_modem.BleNusTransport.{
  BleNus, ble_nus_default_buf_size, ble_nus_transport_init, rx_loop, ble_nus_transport_rx_callback,
  ble_nus_transport_read_byte,
}

-- what the service and the engine do, in the order in which they do it
pub data Op : Type 0 where
  received : List ℕ → Op
  read : Op

-- the results of the reads
unfoldable pub run : List Op → BleNus → List (ℤ × Option ℕ)
run [] nus = []
run (received bytes ∷ ops) nus = run ops (ble_nus_transport_rx_callback (some bytes) nus)
run (read ∷ ops) nus =
    let (result, (byte, nus')) = ble_nus_transport_read_byte nus in (result, byte) ∷ run ops nus'

-- the same of a queue that keeps the first 512 bytes of what it is given
unfoldable pub run_queue : List Op → List ℕ → List (ℤ × Option ℕ)
run_queue [] queue = []
run_queue (received bytes ∷ ops) queue =
    run_queue ops (bounded ble_nus_default_buf_size queue bytes)
run_queue (read ∷ ops) [] = (negsuc 0, none) ∷ run_queue ops []
run_queue (read ∷ ops) (b ∷ queue) = (pos 0, some b) ∷ run_queue ops queue

rx_loop-Holds :
    (bytes queue : List ℕ) (rx : Ring)
    → Holds 512 queue rx
    → Holds 512 (bounded 512 queue bytes) (rx_loop bytes rx)
unfolding rx_loop
rx_loop-Holds [] queue rx is =
    subst (λ q. Holds 512 q rx) (sym (bounded-nil 512 queue is.bounded)) is
rx_loop-Holds (b ∷ bytes) queue rx is =
    subst (λ q. Holds 512 q (rx_loop bytes (offer 512 b rx))) (bounded-cons 512 b queue bytes)
      (rx_loop-Holds bytes _ _ (offer-Holds 512 b queue rx is))

rx_callback-Holds :
    (bytes queue : List ℕ) (nus : BleNus)
    → Holds 512 queue nus.nus_rx
    → Holds 512 (bounded 512 queue bytes) (ble_nus_transport_rx_callback (some bytes) nus).nus_rx
unfolding ble_nus_transport_rx_callback
rx_callback-Holds [] queue nus is =
    subst (λ q. Holds 512 q nus.nus_rx) (sym (bounded-nil 512 queue is.bounded)) is
rx_callback-Holds (b ∷ bytes) queue nus is =
    subst
      (λ (c : Bool).
        Holds 512 (bounded 512 queue (b ∷ bytes))
          (if c then nus else record nus { nus_rx = rx_loop (b ∷ bytes) nus.nus_rx }).nus_rx)
      (sym nonempty) (rx_loop-Holds (b ∷ bytes) queue nus.nus_rx is)
  where
    nonempty : (suc (length bytes) == 0) ≡ false
    nonempty = ground arith

-- a read of an empty queue, and of one with a first byte
read_byte_empty :
    (nus : BleNus)
    → Holds 512 [] nus.nus_rx
    → ble_nus_transport_read_byte nus ≡ (negsuc 0, (none, nus))
unfolding ble_nus_transport_read_byte
read_byte_empty nus is =
    ap
      (λ n.
        if n == 0
        then (negsuc 0, (none, nus))
        else (pos 0, (some (oldest nus.nus_rx), record nus { nus_rx = advance 512 nus.nus_rx })))
      is.counted

read_byte_first :
    (b : ℕ) (queue : List ℕ) (nus : BleNus)
    → Holds 512 (b ∷ queue) nus.nus_rx
    → ble_nus_transport_read_byte nus
      ≡ (pos 0, (some b, record nus { nus_rx = advance 512 nus.nus_rx }))
unfolding ble_nus_transport_read_byte
read_byte_first b queue nus is =
    ap
      (λ (c : Bool).
        if c
        then (negsuc 0, (none, nus))
        else (pos 0, (some (oldest nus.nus_rx), record nus { nus_rx = advance 512 nus.nus_rx })))
      nonempty
    ∙ ap (λ v. (pos 0, (some v, record nus { nus_rx = advance 512 nus.nus_rx })))
        (oldest-Holds 512 b queue nus.nus_rx is)
  where
    nonempty : (nus.nus_rx.count == 0) ≡ false
    nonempty = ground (arith, is.counted)

run-queue :
    (ops : List Op) (queue : List ℕ) (nus : BleNus)
    → Holds 512 queue nus.nus_rx
    → run ops nus ≡ run_queue ops queue
unfolding run run_queue
run-queue [] queue nus is = refl
run-queue (received bytes ∷ ops) queue nus is =
    run-queue ops (bounded 512 queue bytes) (ble_nus_transport_rx_callback (some bytes) nus)
      (rx_callback-Holds bytes queue nus is)
run-queue (read ∷ ops) [] nus is =
    ap (λ (r : ℤ × (Option ℕ × BleNus)). (r.0, r.1.0) ∷ run ops r.1.1) (read_byte_empty nus is)
    ∙ ap (◌∷◌ (negsuc 0, none)) (run-queue ops [] nus is)
run-queue (read ∷ ops) (b ∷ queue) nus is =
    ap (λ (r : ℤ × (Option ℕ × BleNus)). (r.0, r.1.0) ∷ run ops r.1.1)
      (read_byte_first b queue nus is)
    ∙ ap (◌∷◌ (pos 0, some b)) (
        run-queue ops queue (record nus { nus_rx = advance 512 nus.nus_rx })
          (advance-Holds 512 b queue nus.nus_rx is))

-- Behind `ble_nus_transport_init` of a transport in any state, the reads among any sequence of
-- receive callbacks and reads give what they give on a queue that keeps at most 512 bytes, drops
-- what comes when it is full, and answers -1 when it is empty.
pub ble_nus-queue :
    (nus : BleNus) (ops : List Op)
    → length nus.nus_rx.buf ≡ ble_nus_default_buf_size
    → run ops (ble_nus_transport_init nus).1 ≡ run_queue ops []
ble_nus-queue nus ops is =
    run-queue ops [] (ble_nus_transport_init nus).1 (reset-Holds 512 nus.nus_rx (omega arith) is)
