-- ===== src/NfcTransport/Roundtrip.antt =====
-- A record that one side encodes is read by the other.
use zephyr_zyx_modem.Base.{
  take_whole, ℕ, ◌+◌, ◌%◌, ◌≤◌, ◌<◌, ◌≡◌, ◌∙◌, ap, sym, refl, subst, Option, none, some, List, [],
  ◌∷◌, ◌++◌, append-nil, length, take, ltb, leb, ◌==◌, if◌then◌else◌, arith, true, false, Bool,
  ◌&&◌, not, ℤ, pos, negsuc,
}
use zephyr_zyx_modem.Ring.{Ring}
use zephyr_zyx_modem.Ring.Queue.{Holds}
use zephyr_zyx_modem.Ring.Bounded.{bounded, bounded_fits}
use zephyr_zyx_modem.NfcTransport.Record.{
  Nfc, Stats, nfc_mime_type, encode_ndef_record, nfc_transport_encode_ndef_record, count_u32,
}
use zephyr_zyx_modem.NfcTransport.Receive.{
  is_ndef_record, ndef_payload, rx_loop, unwrap, nfc_transport_rx_callback,
}
use zephyr_zyx_modem.NfcTransport.Transmit.{
  tx_loop, extract, nfc_transport_flush_tx_ndef, publish, write_framed, nfc_transport_write_bytes,
  ndef_max_size,
}
use zephyr_zyx_modem.NfcTransport.Queue.{rx_loop-Holds, tx_loop-Holds, extract-Holds}

-- the record of a payload
abbrev pub ndef_of : List ℕ → List ℕ
ndef_of payload = 0xD2 ∷ 19 ∷ (length payload % 256) ∷ (nfc_mime_type ++ payload)

encode-ndef_of :
    (payload : List ℕ) (capacity : ℕ)
    → length payload ≤ 255
    → 22 + length payload ≤ capacity
    → encode_ndef_record (some payload) capacity ≡ (pos 0, some (ndef_of payload))
unfolding encode_ndef_record
encode-ndef_of payload capacity short room = rw (not_long, has_room) refl
  where
    not_long : ltb 255 (length payload) ≡ false
    not_long = ground (arith, short)

    has_room : ltb capacity (3 + 19 + length payload) ≡ false
    has_room = ground (arith, room)

module _ (payload : List ℕ) (some_byte : 0 < length payload) (short : length payload ≤ 255) where
  ndef_of-is_ndef_record : is_ndef_record (ndef_of payload) ≡ true
  unfolding is_ndef_record
  ndef_of-is_ndef_record = rw (long, complete) refl
    where
      long : ltb (3 + 19) (length (ndef_of payload)) ≡ true
      long = ground (arith, some_byte)

      complete : leb (3 + 19 + length payload % 256) (length (ndef_of payload)) ≡ true
      complete = ground (arith, short)

  ndef_payload-ndef_of : ndef_payload (ndef_of payload) ≡ payload
  ndef_payload-ndef_of = ap (λ n. take n payload) same ∙ take_whole payload
    where
      same : length payload % 256 ≡ length payload
      same = omega (arith, short)

  unwrap-ndef_of :
      (stats : Stats)
      → unwrap (ndef_of payload) stats
        ≡ (payload, record stats { ndef_records_rx = count_u32 stats.ndef_records_rx })
  unfolding unwrap
  unwrap-ndef_of stats =
      ap
        (λ (b : Bool).
          if b
          then (
            ndef_payload (ndef_of payload),
            record stats { ndef_records_rx = count_u32 stats.ndef_records_rx },
          )
          else (ndef_of payload, stats))
        ndef_of-is_ndef_record
      ∙ ap (λ bs. (bs, record stats { ndef_records_rx = count_u32 stats.ndef_records_rx }))
          ndef_payload-ndef_of

  -- The other side queues the payload, as far as its ring has room.
  pub rx_callback-ndef_of :
      (queue : List ℕ) (nfc : Nfc)
      → Holds 1024 queue nfc.rx
      → Holds 1024
          (bounded 1024 queue payload)
          (nfc_transport_rx_callback (some (ndef_of payload)) nfc).rx
  unfolding nfc_transport_rx_callback
  rx_callback-ndef_of queue nfc is =
      subst
        (λ (b : Bool). Holds 1024 (bounded 1024 queue payload) (if b then nfc else delivered).rx)
        (sym nonempty)
        (subst
          (λ (u : List ℕ × Stats).
            Holds 1024 (bounded 1024 queue payload) (rx_loop u.0 nfc.rx u.1).0)
          (sym (unwrap-ndef_of nfc.stats)) (rx_loop-Holds payload queue nfc.rx _ is))
    where
      delivered : Nfc
      delivered =
          let (bs, stats) = unwrap (ndef_of payload) nfc.stats in
          let (rx, stats') = rx_loop bs nfc.rx stats in record nfc { rx = rx; stats = stats' }

      nonempty : (length (ndef_of payload) == 0) ≡ false
      nonempty = ground arith

-- the state with one more record counted
abbrev counted_tx : Nfc → Nfc
counted_tx nfc = record nfc {
  stats = record nfc.stats { ndef_records_tx = count_u32 nfc.stats.ndef_records_tx };
}

transport_encode-ndef_of :
    (payload : List ℕ) (capacity : ℕ) (nfc : Nfc)
    → length payload ≤ 255
    → 22 + length payload ≤ capacity
    → nfc_transport_encode_ndef_record (some payload) capacity nfc
      ≡ (pos 0, (some (ndef_of payload), counted_tx nfc))
unfolding nfc_transport_encode_ndef_record
transport_encode-ndef_of payload capacity nfc short room =
    ap
      (λ (e : ℤ × Option (List ℕ)).
        let (result, message) = e in
        elim message as (λ m. ℤ × (Option (List ℕ) × Nfc)) [
          | none ↦ (result, (none, nfc))
          | some ndef ↦ (result, (some ndef, counted_tx nfc))
        ])
      (encode-ndef_of payload capacity short room)

-- A flush of a ring that holds up to 255 bytes empties it.
flush-ndef_of :
    (buf : List ℕ) (nfc : Nfc)
    → 0 < length buf
    → length buf ≤ 255
    → Holds 1024 buf nfc.tx
    → (tx : Ring) × ((nfc_transport_flush_tx_ndef ndef_max_size nfc
          ≡ (pos 0, (some (ndef_of buf), counted_tx (record nfc { tx = tx }))))
        × Holds 1024 [] tx)
unfolding nfc_transport_flush_tx_ndef
flush-ndef_of buf nfc some_byte short is = (
  (extract (length buf) nfc.tx).1,
  (
    ap (flushed (nfc.tx.count == 0)) all
        ∙ ap (λ b. flushed b (length buf)) nonempty
        ∙ ap
            (λ bs.
              nfc_transport_encode_ndef_record (some bs) ndef_max_size
                (record nfc { tx = (extract (length buf) nfc.tx).1 }))
            extracted.0
        ∙ transport_encode-ndef_of buf 512 _ short (omega (arith, short)),
    extracted.1,
  ),
)
  where
    flushed : Bool → ℕ → ℤ × (Option (List ℕ) × Nfc)
    flushed b n =
        let (payload, tx) = extract n nfc.tx in
        if b
        then (negsuc 0, (none, nfc))
        else nfc_transport_encode_ndef_record (some payload) ndef_max_size (record nfc { tx = tx })

    all : (if ltb nfc.tx.count 255 then nfc.tx.count else 255) ≡ length buf
    all = ground (arith, is.counted, short)

    nonempty : (nfc.tx.count == 0) ≡ false
    nonempty = ground (arith, is.counted, some_byte)

    extracted :
        ((extract (length buf) nfc.tx).0 ≡ buf) × Holds 1024 [] (extract (length buf) nfc.tx).1
    extracted =
        extract-Holds buf [] nfc.tx (subst (λ q. Holds 1024 q nfc.tx) (sym (append-nil buf)) is)

-- An encoded record of 1 to 255 bytes, given room for it, comes back as those bytes: the receive
-- callback of another transport queues them behind what its ring holds, up to 1024 bytes in all.
pub rx_callback-encode_ndef_record :
    (sender receiver : Nfc) (payload queue : List ℕ) (capacity : ℕ)
    → 0 < length payload
    → length payload ≤ 255
    → 22 + length payload ≤ capacity
    → Holds 1024 queue receiver.rx
    → (ndef : List ℕ) × (((nfc_transport_encode_ndef_record (some payload) capacity sender).1.0
          ≡ some ndef)
        × Holds 1024
            (bounded 1024 queue payload)
            (nfc_transport_rx_callback (some ndef) receiver).rx)
rx_callback-encode_ndef_record sender receiver payload queue capacity some_byte short room is = (
  ndef_of payload,
  (
    ap (λ (r : ℤ × (Option (List ℕ) × Nfc)). r.1.0)
        (transport_encode-ndef_of payload capacity sender short room),
    rx_callback-ndef_of payload some_byte short queue receiver is,
  ),
)

-- the transport is ready to send: the field is on, its ring is empty and records are published
pub record IsReady (nfc : Nfc) : Type 0 where
  pub field_on : nfc.field_active ≡ true
  pub framing : (nfc.config.auto_ndef_framing && nfc.config.raw_tx_cb) ≡ true
  pub drained : Holds 1024 [] nfc.tx

write-ndef_of :
    (sender : Nfc) (buf : List ℕ)
    → IsReady sender
    → 0 < length buf
    → length buf ≤ 255
    → ((nfc_transport_write_bytes (some buf) sender).0 ≡ pos 0)
      × (((nfc_transport_write_bytes (some buf) sender).1.published
            ≡ sender.published ++ (ndef_of buf ∷ []))
          × IsReady (nfc_transport_write_bytes (some buf) sender).1)
unfolding nfc_transport_write_bytes write_framed
write-ndef_of sender buf is some_byte short =
    let (tx, (flushed, drained)) = flush-ndef_of buf loaded some_byte short queued in
    subst
      (λ (r : ℤ × Nfc).
        (r.0 ≡ pos 0) × ((r.1.published ≡ sender.published ++ (ndef_of buf ∷ [])) × IsReady r.1))
      (sym (written ∙ ap (λ r. (pos 0, publish r)) flushed))
      (refl, (refl, record { field_on = is.field_on; framing = is.framing; drained = drained }))
  where
    loop : Ring × ℕ
    loop = tx_loop buf sender.tx sender.stats.tx_bytes

    loaded : Nfc
    loaded = record sender { tx = loop.0; stats = record sender.stats { tx_bytes = loop.1 } }

    queued : Holds 1024 buf loop.0
    queued =
        subst (λ q. Holds 1024 q loop.0) (bounded_fits 1024 [] buf (omega (arith, short)))
          (tx_loop-Holds buf [] sender.tx sender.stats.tx_bytes is.drained)

    nonempty : (length buf == 0) ≡ false
    nonempty = ground (arith, some_byte)

    written :
        nfc_transport_write_bytes (some buf) sender
        ≡ (pos 0, publish (nfc_transport_flush_tx_ndef ndef_max_size loaded))
    written =
        ap
          (λ (b : Bool).
            if b
            then (negsuc 0, sender)
            else (if not sender.field_active
                then (negsuc 1, sender)
                else (pos 0, write_framed buf sender)))
          nonempty
        ∙ ap (λ b. if not b then (negsuc 1, sender) else (pos 0, write_framed buf sender))
            is.field_on
        ∙ ap
            (λ (b : Bool). (
              pos 0,
              if b then publish (nfc_transport_flush_tx_ndef ndef_max_size loaded) else loaded,
            ))
            is.framing

-- A write of 1 to 255 bytes on a transport that is ready to send succeeds and publishes one record.
-- The receive callback of another transport queues its bytes, up to 1024 in all, and the sender is
-- ready again.
pub rx_callback-write_bytes :
    (sender receiver : Nfc) (buf queue : List ℕ)
    → IsReady sender
    → 0 < length buf
    → length buf ≤ 255
    → Holds 1024 queue receiver.rx
    → (ndef : List ℕ) × (((nfc_transport_write_bytes (some buf) sender).0 ≡ pos 0)
        × (((nfc_transport_write_bytes (some buf) sender).1.published
              ≡ sender.published ++ (ndef ∷ []))
            × (IsReady (nfc_transport_write_bytes (some buf) sender).1
                × Holds 1024
                    (bounded 1024 queue buf)
                    (nfc_transport_rx_callback (some ndef) receiver).rx)))
rx_callback-write_bytes sender receiver buf queue ready some_byte short is =
    let (result, (published, ready')) = write-ndef_of sender buf ready some_byte short in
    (
      ndef_of buf,
      (result, (published, (ready', rx_callback-ndef_of buf some_byte short queue receiver is))),
    )
