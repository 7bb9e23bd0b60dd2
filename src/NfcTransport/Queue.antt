-- ===== src/NfcTransport/Queue.antt =====
-- The two rings as queues of at most 1024 bytes.
use zephyr_zyx_modem.Base.{ℕ, ◌≡◌, ◌∙◌, ap, sym, refl, subst, List, [], ◌∷◌, ◌++◌, length}
use zephyr_zyx_modem.Ring.{Ring, advance}
use zephyr_zyx_modem.Ring.Queue.{Holds, oldest-Holds, advance-Holds}
use zephyr_zyx_modem.Ring.Bounded.{bounded, bounded-nil, bounded-cons, offer-Holds}
use zephyr_zyx_modem.NfcTransport.Record.{Stats}
use zephyr_zyx_modem.NfcTransport.Receive.{rx_loop}
use zephyr_zyx_modem.NfcTransport.Transmit.{tx_loop, extract}

pub rx_loop-Holds :
    (payload queue : List ℕ) (rx : Ring) (stats : Stats)
    → Holds 1024 queue rx
    → Holds 1024 (bounded 1024 queue payload) (rx_loop payload rx stats).0
unfolding rx_loop
rx_loop-Holds [] queue rx stats is =
    subst (λ q. Holds 1024 q rx) (sym (bounded-nil 1024 queue is.bounded)) is
rx_loop-Holds (b ∷ payload) queue rx stats is =
    subst (λ q. Holds 1024 q (rx_loop (b ∷ payload) rx stats).0) (bounded-cons 1024 b queue payload)
      (rx_loop-Holds payload _ _ _ (offer-Holds 1024 b queue rx is))

pub tx_loop-Holds :
    (buf queue : List ℕ) (tx : Ring) (sent : ℕ)
    → Holds 1024 queue tx
    → Holds 1024 (bounded 1024 queue buf) (tx_loop buf tx sent).0
unfolding tx_loop
tx_loop-Holds [] queue tx sent is =
    subst (λ q. Holds 1024 q tx) (sym (bounded-nil 1024 queue is.bounded)) is
tx_loop-Holds (b ∷ buf) queue tx sent is =
    subst (λ q. Holds 1024 q (tx_loop (b ∷ buf) tx sent).0) (bounded-cons 1024 b queue buf)
      (tx_loop-Holds buf _ _ _ (offer-Holds 1024 b queue tx is))

-- As many bytes as are asked for come off the queue's front.
pub extract-Holds :
    (front back : List ℕ) (tx : Ring)
    → Holds 1024 (front ++ back) tx
    → ((extract (length front) tx).0 ≡ front) × Holds 1024 back (extract (length front) tx).1
unfolding extract
extract-Holds [] back tx is = (refl, is)
extract-Holds (b ∷ front) back tx is =
    let (same, is') =
      extract-Holds front back (advance 1024 tx) (advance-Holds 1024 b (front ++ back) tx is) in
    (
      ap (λ v. v ∷ (extract (length front) (advance 1024 tx)).0)
            (oldest-Holds 1024 b (front ++ back) tx is)
          ∙ ap (◌∷◌ b) same,
      is',
    )
