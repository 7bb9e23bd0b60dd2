-- ===== src/NfcTransport/Receive.antt =====
-- What the T4T library delivers.
use zephyr_zyx_modem.Base.{
  ℕ, ◌+◌, Bool, true, false, not, ◌&&◌, ◌||◌, Option, none, some, List, [], ◌∷◌, length, take, drop,
  get_or, ltb, leb, ◌==◌, if◌then◌else◌, add_size, ℤ, pos, negsuc,
}
use zephyr_zyx_modem.Ring.{Ring, put, oldest, advance}
use zephyr_zyx_modem.NfcTransport.Record.{
  Nfc, Stats, nfc_ring_buf_size, nfc_mime_type, nfc_mime_type_len, count_u32,
  nfc_transport_set_field_active,
}

-- `memcmp` of two buffers of one length
abbrev pub equal_bytes : List ℕ → List ℕ → Bool
equal_bytes [] [] = true
equal_bytes [] (y ∷ ys) = false
equal_bytes (x ∷ xs) [] = false
equal_bytes (x ∷ xs) (y ∷ ys) = (x == y) && equal_bytes xs ys

-- the tests that take the data for a record of the modem's type
unfoldable pub is_ndef_record : List ℕ → Bool
is_ndef_record bytes =
    (ltb (3 + nfc_mime_type_len) (length bytes) && (get_or bytes 0 0 == 0xD2))
    && ((get_or bytes 1 0 == nfc_mime_type_len)
        && (leb (3 + get_or bytes 1 0 + get_or bytes 2 0) (length bytes)
            && equal_bytes (take nfc_mime_type_len (drop 3 bytes)) nfc_mime_type))

-- `payload_ptr` and `payload_len`
abbrev pub ndef_payload : List ℕ → List ℕ
ndef_payload bytes = take (get_or bytes 2 0) (drop (3 + nfc_mime_type_len) bytes)

-- the loop over the payload, on the ring and the two counters
unfoldable pub rx_loop : List ℕ → Ring → Stats → Ring × Stats
rx_loop [] rx stats = (rx, stats)
rx_loop (b ∷ payload) rx stats =
    let fits = ltb rx.count nfc_ring_buf_size in
    rx_loop payload (if fits then put nfc_ring_buf_size b rx else rx) (
      if fits
      then record stats { rx_bytes = add_size stats.rx_bytes 1 }
      else record stats { overflow_count = count_u32 stats.overflow_count })

-- the payload that goes into the ring, and the state with the record counted
unfoldable pub unwrap : List ℕ → Stats → List ℕ × Stats
unwrap bytes stats =
    if is_ndef_record bytes
    then (ndef_payload bytes, record stats { ndef_records_rx = count_u32 stats.ndef_records_rx })
    else (bytes, stats)

-- `none` is the NULL data.
unfoldable pub nfc_transport_rx_callback : Option (List ℕ) → Nfc → Nfc
nfc_transport_rx_callback none nfc = nfc
nfc_transport_rx_callback (some bytes) nfc =
    if length bytes == 0
    then nfc
    else (let (payload, stats) = unwrap bytes nfc.stats in
        let (rx, stats') = rx_loop payload nfc.rx stats in record nfc { rx = rx; stats = stats' })

-- NFC_MODEM_EVENT_FIELD_ON is 0 and NFC_MODEM_EVENT_FIELD_OFF 1, NFC_MODEM_EVENT_NDEF_UPDATED 3 and
-- NFC_MODEM_EVENT_DATA_IND 4, so that each test of the code names its events twice.
unfoldable pub nfc_transport_t4t_event_handler : ℕ → Option (List ℕ) → Nfc → Nfc
nfc_transport_t4t_event_handler event bytes nfc =
    let counted = record nfc {
      stats = record nfc.stats { t4t_events_handled = count_u32 nfc.stats.t4t_events_handled };
    } in
    if event == 0
    then nfc_transport_set_field_active true counted
    else (if event == 1
        then nfc_transport_set_field_active false counted
        else (if (event == 3) || (event == 4)
            then nfc_transport_rx_callback bytes counted
            else counted))

-- One turn of the wait in `read_byte`: what the library delivers in an interrupt since the turn
-- before, and the milliseconds since the start that the clock then shows.
pub record Turn : Type 0 where
  pub events : List (ℕ × Option (List ℕ))
  pub elapsed : ℕ

unfoldable pub handle_all : List (ℕ × Option (List ℕ)) → Nfc → Nfc
handle_all [] nfc = nfc
handle_all ((event, bytes) ∷ events) nfc =
    handle_all events (nfc_transport_t4t_event_handler event bytes nfc)

-- The test of a turn, once its events are handled: what `read_byte` returns, the byte and the
-- state, or nothing when the wait goes on.
unfoldable pub look : Nfc → Option (ℤ × (Option ℕ × Nfc))
look nfc =
    if not nfc.field_active
    then some (negsuc 1, (none, nfc))
    else (if ltb 0 nfc.rx.count
        then some
            (pos 0, (some (oldest nfc.rx), record nfc { rx = advance nfc_ring_buf_size nfc.rx }))
        else none)

-- The wait, over its turns. Only the clock and what a turn brings end it: `none` means that the
-- given turns are over and the wait still goes on.
unfoldable pub wait : ℕ → List Turn → Nfc → Option (ℤ × (Option ℕ × Nfc))
wait limit [] nfc = none
wait limit (turn ∷ turns) nfc =
    let nfc' = handle_all turn.events nfc in
    let later = wait limit turns nfc' in
    if leb turn.elapsed limit
    then elim (look nfc') [ none ↦ later | some result ↦ some result ]
    else some (negsuc 0, (none, nfc'))

-- The pointer is not NULL.
abbrev pub nfc_transport_read_byte : ℕ → List Turn → Nfc → Option (ℤ × (Option ℕ × Nfc))
nfc_transport_read_byte timeout_ms turns nfc =
    wait (if timeout_ms == 0 then 1 else timeout_ms) turns nfc
