-- ===== src/NfcTransport/Transmit.antt =====
-- What the engines write.
use zephyr_zyx_modem.Base.{
  ℕ, zero, suc, not, ◌&&◌, Option, none, some, List, [], ◌∷◌, ◌++◌, length, ltb, ◌==◌,
  if◌then◌else◌, add_size, ℤ, pos, negsuc,
}
use zephyr_zyx_modem.Ring.{Ring, put, oldest, advance}
use zephyr_zyx_modem.NfcTransport.Record.{Nfc, nfc_ring_buf_size, nfc_transport_encode_ndef_record}

-- the loop over the bytes: one that finds the ring full is dropped
unfoldable pub tx_loop : List ℕ → Ring → ℕ → Ring × ℕ
tx_loop [] tx sent = (tx, sent)
tx_loop (b ∷ buf) tx sent =
    let fits = ltb tx.count nfc_ring_buf_size in
    tx_loop buf (if fits then put nfc_ring_buf_size b tx else tx)
      (if fits then add_size sent 1 else sent)

-- the `extract_len` oldest bytes, and the ring without them
unfoldable pub extract : ℕ → Ring → List ℕ × Ring
extract zero tx = ([], tx)
extract (suc n) tx =
    let (bytes, tx') = extract n (advance nfc_ring_buf_size tx) in (oldest tx ∷ bytes, tx')

-- The result, the record when there is one, and the state behind; the two pointers are not NULL.
unfoldable pub nfc_transport_flush_tx_ndef : ℕ → Nfc → ℤ × (Option (List ℕ) × Nfc)
nfc_transport_flush_tx_ndef out_capacity nfc =
    let extract_len = if ltb nfc.tx.count 255 then nfc.tx.count else 255 in
    let (payload, tx) = extract extract_len nfc.tx in
    if nfc.tx.count == 0
    then (negsuc 0, (none, nfc))
    else nfc_transport_encode_ndef_record (some payload) out_capacity (record nfc { tx = tx })

-- `NFC_TRANSPORT_NDEF_MAX_SIZE`
abbrev pub ndef_max_size : ℕ
ndef_max_size = 512

-- the record that a flush gives goes to `raw_tx_cb`
abbrev pub publish : ℤ × (Option (List ℕ) × Nfc) → Nfc
publish (result, (none, nfc)) = nfc
publish (result, (some ndef, nfc)) = record nfc { published = nfc.published ++ (ndef ∷ []) }

-- the bytes in the ring, and the record when the configuration asks for one
unfoldable pub write_framed : List ℕ → Nfc → Nfc
write_framed buf nfc =
    let (tx, sent) = tx_loop buf nfc.tx nfc.stats.tx_bytes in
    let nfc' = record nfc { tx = tx; stats = record nfc.stats { tx_bytes = sent } } in
    if nfc'.config.auto_ndef_framing && nfc'.config.raw_tx_cb
    then publish (nfc_transport_flush_tx_ndef ndef_max_size nfc')
    else nfc'

-- `none` is the NULL buffer.
unfoldable pub nfc_transport_write_bytes : Option (List ℕ) → Nfc → ℤ × Nfc
nfc_transport_write_bytes none nfc = (negsuc 0, nfc)
nfc_transport_write_bytes (some buf) nfc =
    if length buf == 0
    then (negsuc 0, nfc)
    else (if not nfc.field_active then (negsuc 1, nfc) else (pos 0, write_framed buf nfc))
