-- ===== src/NfcTransport/Poll.antt =====
-- How a wait for a byte ends when something comes during it.
use zephyr_zyx_modem.Base.{
  ℕ, suc, ◌≤◌, ◌<◌, ◌≡◌, ◌∙◌, ap, sym, refl, subst, Option, none, some, List, [], ◌∷◌, ◌++◌, map,
  append-nil, All, length, ltb, leb, ◌==◌, if◌then◌else◌, arith, true, false, Bool, not, ℤ, pos,
  negsuc,
}
use zephyr_zyx_modem.Ring.{oldest, advance}
use zephyr_zyx_modem.Ring.Queue.{Holds, oldest-Holds, advance-Holds}
use zephyr_zyx_modem.Ring.Bounded.{bounded_fits}
use zephyr_zyx_modem.NfcTransport.Record.{Nfc, count_u32, nfc_transport_set_field_active}
use zephyr_zyx_modem.NfcTransport.Receive.{
  Turn, handle_all, look, wait, nfc_transport_read_byte, nfc_transport_t4t_event_handler,
  nfc_transport_rx_callback,
}
use zephyr_zyx_modem.NfcTransport.Roundtrip.{ndef_of, rx_callback-ndef_of}

-- the result of a wait that ended, and its byte
abbrev pub outcome : Option (ℤ × (Option ℕ × Nfc)) → Option (ℤ × Option ℕ)
outcome none = none
outcome (some r) = some (r.0, r.1.0)

-- turns in which nothing comes, at these times
abbrev pub quiet : List ℕ → List Turn
quiet = map (λ t. record { events = []; elapsed = t })

-- what a transport with the field on shows of its ring
look_empty : (nfc : Nfc) → nfc.field_active ≡ true → Holds 1024 [] nfc.rx → look nfc ≡ none
unfolding look
look_empty nfc on is = rw (on, is.counted) refl

look_first :
    (b : ℕ) (queue : List ℕ) (nfc : Nfc)
    → nfc.field_active ≡ true
    → Holds 1024 (b ∷ queue) nfc.rx
    → look nfc ≡ some (pos 0, (some b, record nfc { rx = advance 1024 nfc.rx }))
unfolding look
look_first b queue nfc on is =
    ap
      (λ a.
        if not a
        then some (negsuc 1, (none, nfc))
        else (if ltb 0 nfc.rx.count then found else none))
      on
    ∙ ap (λ n. if ltb 0 n then found else none) is.counted
    ∙ ap (λ (a : Bool). if a then found else none) positive
    ∙ ap (λ v. some (pos 0, (some v, record nfc { rx = advance 1024 nfc.rx })))
        (oldest-Holds 1024 b queue nfc.rx is)
  where
    found : Option (ℤ × (Option ℕ × Nfc))
    found = some (pos 0, (some (oldest nfc.rx), record nfc { rx = advance 1024 nfc.rx }))

    positive : ltb 0 (suc (length queue)) ≡ true
    positive = ground arith

in_time : (t limit : ℕ) → t ≤ limit → leb t limit ≡ true
in_time t limit h = ground (arith, h)

wait_turn :
    (limit : ℕ) (turn : Turn) (turns : List Turn) (nfc : Nfc) (result : ℤ × (Option ℕ × Nfc))
    → turn.elapsed ≤ limit
    → look (handle_all turn.events nfc) ≡ some result
    → wait limit (turn ∷ turns) nfc ≡ some result
unfolding wait
wait_turn limit turn turns nfc result h e =
    ap
      (λ (a : Bool).
        if a
        then ended (look (handle_all turn.events nfc))
        else some (negsuc 0, (none, handle_all turn.events nfc)))
      (in_time turn.elapsed limit h)
    ∙ ap ended e
  where
    ended : Option (ℤ × (Option ℕ × Nfc)) → Option (ℤ × (Option ℕ × Nfc))
    ended o = elim o [ none ↦ wait limit turns (handle_all turn.events nfc) | some r ↦ some r ]

-- Quiet turns go by.
wait-quiet :
    (limit : ℕ) (times : List ℕ) (turns : List Turn) (nfc : Nfc)
    → All (λ t. t ≤ limit) times
    → nfc.field_active ≡ true
    → Holds 1024 [] nfc.rx
    → wait limit (quiet times ++ turns) nfc ≡ wait limit turns nfc
unfolding wait handle_all
wait-quiet limit [] turns nfc h on is = refl
wait-quiet limit (t ∷ times) turns nfc h on is =
    ap (λ (a : Bool). if a then ended (look nfc) else some (negsuc 0, (none, nfc)))
      (in_time t limit h.0)
    ∙ ap ended (look_empty nfc on is)
    ∙ wait-quiet limit times turns nfc h.1 on is
  where
    ended : Option (ℤ × (Option ℕ × Nfc)) → Option (ℤ × (Option ℕ × Nfc))
    ended o = elim o [ none ↦ wait limit (quiet times ++ turns) nfc | some r ↦ some r ]

-- A turn past the limit ends the wait, whatever it brings.
wait-late :
    (limit : ℕ) (turn : Turn) (turns : List Turn) (nfc : Nfc)
    → limit < turn.elapsed
    → wait limit (turn ∷ turns) nfc ≡ some (negsuc 0, (none, handle_all turn.events nfc))
unfolding wait
wait-late limit turn turns nfc h =
    ap (λ (a : Bool). if a then ended (look nfc') else some (negsuc 0, (none, nfc'))) late
  where
    nfc' : Nfc
    nfc' = handle_all turn.events nfc

    ended : Option (ℤ × (Option ℕ × Nfc)) → Option (ℤ × (Option ℕ × Nfc))
    ended o = elim o [ none ↦ wait limit turns nfc' | some r ↦ some r ]

    late : leb turn.elapsed limit ≡ false
    late = ground (arith, h)

-- the record of a payload comes, or the field goes, in a turn at this time
abbrev pub arrival : List ℕ → ℕ → Turn
arrival payload t = record { events = (4, some (ndef_of payload)) ∷ []; elapsed = t }

abbrev pub field_loss : ℕ → Turn
field_loss t = record { events = (1, none) ∷ []; elapsed = t }

rx_callback_keeps_field :
    (payload : List ℕ) (nfc : Nfc)
    → (nfc_transport_rx_callback (some (ndef_of payload)) nfc).field_active ≡ nfc.field_active
unfolding nfc_transport_rx_callback
rx_callback_keeps_field payload nfc = rw nonempty refl
  where
    nonempty : (length (ndef_of payload) == 0) ≡ false
    nonempty = ground arith

abbrev counted : Nfc → Nfc
counted nfc = record nfc {
  stats = record nfc.stats { t4t_events_handled = count_u32 nfc.stats.t4t_events_handled };
}

module _ (limit : ℕ) (times : List ℕ) (t : ℕ) (later : List Turn) (nfc : Nfc)
    (before : All (λ n. n ≤ limit) times) (in_limit : t ≤ limit) (on : nfc.field_active ≡ true)
    (is : Holds 1024 [] nfc.rx) where
  wait-arrival :
      (b : ℕ) (payload : List ℕ)
      → length (b ∷ payload) ≤ 255
      → (nfc' : Nfc) × ((wait limit (quiet times ++ (arrival (b ∷ payload) t ∷ later)) nfc
            ≡ some (pos 0, (some b, nfc')))
          × Holds 1024 payload nfc'.rx)
  unfolding handle_all nfc_transport_t4t_event_handler
  wait-arrival b payload short = (
    record came { rx = advance 1024 came.rx },
    (
      wait-quiet limit times (arrival (b ∷ payload) t ∷ later) nfc before on is
          ∙ wait_turn limit (arrival (b ∷ payload) t) later nfc _ in_limit
              (look_first b payload came still_on queued),
      advance-Holds 1024 b payload came.rx queued,
    ),
  )
    where
      came : Nfc
      came = nfc_transport_rx_callback (some (ndef_of (b ∷ payload))) (counted nfc)

      still_on : came.field_active ≡ true
      still_on = rx_callback_keeps_field (b ∷ payload) (counted nfc) ∙ on

      queued : Holds 1024 (b ∷ payload) came.rx
      queued =
          subst (λ q. Holds 1024 q came.rx)
            (bounded_fits 1024 [] (b ∷ payload) (omega (arith, short)))
            (rx_callback-ndef_of (b ∷ payload) (omega arith) short [] (counted nfc) is)

  wait-field_loss :
      outcome (wait limit (quiet times ++ (field_loss t ∷ later)) nfc) ≡ some (negsuc 1, none)
  unfolding handle_all nfc_transport_t4t_event_handler nfc_transport_set_field_active look
  wait-field_loss = ap outcome (
      wait-quiet limit times (field_loss t ∷ later) nfc before on is
      ∙ wait_turn limit (field_loss t) later nfc _ in_limit refl)

-- While the field is on and the ring is empty, the wait of `read_byte` under a timeout above 0 lets
-- turns go by that come within the timeout and bring nothing; it has not ended behind them. A
-- record of 1 to 255 bytes that comes within the timeout ends it with the record's first byte and
-- leaves the others to be read; the loss of the field within the timeout ends it with -2; and a turn
-- past the timeout ends it with -1 and no byte, although the record came with it.
pub read_byte-wait :
    (timeout t late b : ℕ) (times payload : List ℕ) (later : List Turn) (nfc : Nfc)
    → All (λ n. n ≤ timeout) times
    → t ≤ timeout
    → timeout < late
    → 0 < timeout
    → nfc.field_active ≡ true
    → Holds 1024 [] nfc.rx
    → length (b ∷ payload) ≤ 255
    → ((nfc' : Nfc) × ((nfc_transport_read_byte timeout
              (quiet times ++ (arrival (b ∷ payload) t ∷ later))
              nfc
            ≡ some (pos 0, (some b, nfc')))
          × Holds 1024 payload nfc'.rx))
      × ((outcome (nfc_transport_read_byte timeout (quiet times ++ (field_loss t ∷ later)) nfc)
            ≡ some (negsuc 1, none))
          × ((nfc_transport_read_byte timeout (quiet times) nfc ≡ none)
              × (outcome (
                    nfc_transport_read_byte timeout
                      (quiet times ++ (arrival (b ∷ payload) late ∷ later))
                      nfc)
                  ≡ some (negsuc 0, none))))
unfolding wait
read_byte-wait timeout t late b times payload later nfc before h past positive on is short =
    subst
      (λ n.
        ((nfc' : Nfc) × ((wait n (quiet times ++ (arrival (b ∷ payload) t ∷ later)) nfc
              ≡ some (pos 0, (some b, nfc')))
            × Holds 1024 payload nfc'.rx))
        × ((outcome (wait n (quiet times ++ (field_loss t ∷ later)) nfc) ≡ some (negsuc 1, none))
            × ((wait n (quiet times) nfc ≡ none)
                × (outcome (wait n (quiet times ++ (arrival (b ∷ payload) late ∷ later)) nfc)
                    ≡ some (negsuc 0, none)))))
      (sym limit)
      (
        wait-arrival timeout times t later nfc before h on is b payload short,
        (
          wait-field_loss timeout times t later nfc before h on is,
          (
            ap (λ turns. wait timeout turns nfc) (sym (append-nil (quiet times)))
                ∙ wait-quiet timeout times [] nfc before on is,
            ap outcome (
                wait-quiet timeout times (arrival (b ∷ payload) late ∷ later) nfc before on is
                ∙ wait-late timeout (arrival (b ∷ payload) late) later nfc past),
          ),
        ),
      )
  where
    limit : (if timeout == 0 then 1 else timeout) ≡ timeout
    limit = ground (arith, positive)
