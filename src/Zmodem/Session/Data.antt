-- ===== src/Zmodem/Session/Data.antt =====
-- The receiver takes the subpackets of a ZDATA frame as the transmitter cut them.
use zephyr_zyx_modem.Base.{
  ℕ, zero, suc, ◌+◌, ◌-◌, ◌*◌, ◌≤◌, ◌<◌, ◌^◌, ◌≡◌, refl, ap, ◌∙◌, sym, subst, min, true, false,
  Bool-cases, inl, inr, ◌||◌, some, List, [], ◌∷◌, ◌++◌, append_assoc, arith, length, ltb, lt→ltb,
  leb, ◌==◌, if◌then◌else◌, add_size,
}
use zephyr_zyx_modem.Io.{Read, bytes_of}
use zephyr_zyx_modem.Zmodem.Platform.{Platform, IsPlatform}
use zephyr_zyx_modem.Zmodem.{FileInfo, Status, zcrce, zcrcg, zcrcw}
use zephyr_zyx_modem.Io.Laws.{bytes_of-append}
use zephyr_zyx_modem.Zmodem.Subpacket.{Subpacket, send_subpacket}
use zephyr_zyx_modem.Zmodem.Escape.{is_ender}
use zephyr_zyx_modem.Zmodem.Subpacket.Laws.{read_subpacket_rx-send_subpacket}
use zephyr_zyx_modem.Zmodem.Receive.{
  Callbacks, Event, data_at, Rx, Phase, within, streaming, continue, is_nonempty, receive_data,
  receive_round,
}
use zephyr_zyx_modem.Zmodem.Receive.Returns.{Runs, continue-Runs}
use zephyr_zyx_modem.Zmodem.Transmit.{data_subpacket, data_subpackets, send_subpackets}
use zephyr_zyx_modem.Zmodem.Session.{data_events}

-- an application that has every callback
abbrev pub all_callbacks : Callbacks
all_callbacks = record {
  read_byte = true;
  write_bytes = true;
  on_file_start = true;
  on_data = true;
  on_file_end = true;
}

abbrev pub state : List Read → List ℕ → List Event → Rx
state input sent events = record { io = record { input = input; sent = sent }; events = events }

is_nonempty-length : (xs : List ℕ) → 1 ≤ length xs → is_nonempty xs ≡ true
is_nonempty-length [] h = absurd (omega arith)
is_nonempty-length (x ∷ xs) h = refl

is_ender-frame : (e : ℕ) → (e == zcrcg || e == zcrcw) ≡ true → is_ender e ≡ true
is_ender-frame e h = ground arith

-- The subpackets of one ZDATA frame, from an offset to the end of the file.
pub data Frames (size : ℕ) : ℕ → List Subpacket → Type 0 where
  last :
      {offset : ℕ} (p : Subpacket)
      → p.ending ≡ zcrcw
      → 1 ≤ length p.payload
      → length p.payload ≤ 1024
      → offset + length p.payload ≡ size
      → Frames size offset (p ∷ [])
  more :
      {offset : ℕ} (p : Subpacket) {ps : List Subpacket}
      → p.ending ≡ zcrcg
      → 1 ≤ length p.payload
      → length p.payload ≤ 1024
      → offset + length p.payload < size
      → Frames size (offset + length p.payload) ps
      → Frames size offset (p ∷ ps)

-- where the receiver stands behind a subpacket
abbrev after_data : FileInfo → ℕ → Subpacket → Phase
after_data info offset p =
    if p.ending == zcrcw
    then within info (add_size offset (length p.payload))
    else streaming info (add_size offset (length p.payload)) false

module _ (svc : Platform) (w : IsPlatform svc) (stale : List Event → List ℕ) where
  receive_data-frame :
      (info : FileInfo) (offset : ℕ) (p : Subpacket) (rs : List Read) (sent : List ℕ)
      (events : List Event)
      → (p.ending == zcrcg || p.ending == zcrcw) ≡ true
      → 1 ≤ length p.payload
      → receive_data svc stale all_callbacks info offset false (some p) (state rs sent events)
        ≡ continue
            (after_data info offset p)
            (state rs sent (events ++ (data_at p.payload offset ∷ [])))
  unfolding receive_data
  receive_data-frame info offset p rs sent events ends h =
      let e : is_nonempty p.payload ≡ true = is_nonempty-length p.payload h in
      elim (Bool-cases (p.ending == zcrcw)) [
        | inl final ↦ let e' : (p.ending == zcrce) ≡ false = ground arith in rw (e, final, e') refl
        | inr going ↦ let e' : (p.ending == zcrce) ≡ false = ground arith in rw (e, going, e') refl
      ]

  receive_round-data :
      (info : FileInfo) (offset : ℕ) (p : Subpacket) (rs : List Read) (sent : List ℕ)
      (events : List Event)
      → (p.ending == zcrcg || p.ending == zcrcw) ≡ true
      → 1 ≤ length p.payload
      → length p.payload ≤ 1024
      → receive_round svc stale all_callbacks
          (streaming info offset false)
          (state (bytes_of (send_subpacket svc.crc p) ++ rs) sent events)
        ≡ continue
            (after_data info offset p)
            (state rs sent (events ++ (data_at p.payload offset ∷ [])))
  unfolding receive_round
  receive_round-data info offset p rs sent events ends h fits =
      ap (λ r. receive_data svc stale all_callbacks info offset false r.0 (state r.1 sent events))
        (read_subpacket_rx-send_subpacket svc.crc w.widths 1024 p rs (is_ender-frame p.ending ends)
          fits)
      ∙ receive_data-frame info offset p rs sent events ends h

  after_data-last :
      (info : FileInfo) (offset size : ℕ) (p : Subpacket)
      → p.ending ≡ zcrcw
      → offset + length p.payload ≡ size
      → size < 2 ^ 64
      → after_data info offset p ≡ within info size
  after_data-last info offset size p e total fits =
      let wraps : add_size offset (length p.payload) ≡ size = omega arith in
      rw e (ap (within info) wraps)

  after_data-more :
      (info : FileInfo) (offset size : ℕ) (p : Subpacket)
      → p.ending ≡ zcrcg
      → offset + length p.payload < size
      → size < 2 ^ 64
      → after_data info offset p ≡ streaming info (offset + length p.payload) false
  after_data-more info offset size p e total fits =
      let wraps : add_size offset (length p.payload) ≡ offset + length p.payload = omega arith in
      rw e (ap (λ o. streaming info o false) wraps)

  -- The receiver hands all of them on, and is at the end of the file.
  pub Frames-Runs :
      (info : FileInfo) {size offset : ℕ} (ps : List Subpacket) (rs : List Read) (sent : List ℕ)
      (events : List Event) {st : Status} {s' : Rx}
      → Frames size offset ps
      → size < 2 ^ 64
      → Runs svc stale all_callbacks
          (within info size)
          (state rs sent (events ++ data_events offset ps))
          st
          s'
      → Runs svc stale all_callbacks
          (streaming info offset false)
          (state (bytes_of (send_subpackets svc.crc ps) ++ rs) sent events)
          st
          s'
  unfolding send_subpackets
  Frames-Runs info {size} {offset} _ rs sent events {st} {s'} (last p e nonempty small total) fits
        runs =
      continue-Runs svc stale all_callbacks (streaming info offset false)
        (state (bytes_of (send_subpacket svc.crc p ++ []) ++ rs) sent events)
        (ap
            (λ l.
              receive_round svc stale all_callbacks (streaming info offset false)
                (state l sent events))
            (bytes_of-append (send_subpacket svc.crc p) [] rs)
          ∙ receive_round-data info offset p rs sent events (rw e refl) nonempty small
          ∙ ap (λ ph. continue ph (state rs sent (events ++ (data_at p.payload offset ∷ []))))
              (after_data-last info offset size p e total fits))
        runs
  Frames-Runs info {size} {offset} _ rs sent events {st} {s'}
        (more p {ps} e nonempty small total frames) fits runs =
      continue-Runs svc stale all_callbacks (streaming info offset false)
        (state (bytes_of (send_subpacket svc.crc p ++ send_subpackets svc.crc ps) ++ rs) sent
          events)
        (ap
            (λ l.
              receive_round svc stale all_callbacks (streaming info offset false)
                (state l sent events))
            (bytes_of-append (send_subpacket svc.crc p) (send_subpackets svc.crc ps) rs)
          ∙ receive_round-data info offset p (bytes_of (send_subpackets svc.crc ps) ++ rs) sent
              events (rw e refl) nonempty small
          ∙ ap
              (λ ph. continue ph (
                state (bytes_of (send_subpackets svc.crc ps) ++ rs) sent
                  (events ++ (data_at p.payload offset ∷ []))))
              (after_data-more info offset size p e total fits))
        (Frames-Runs info ps rs sent (events ++ (data_at p.payload offset ∷ [])) frames fits (
          subst (λ ev. Runs svc stale all_callbacks (within info size) (state rs sent ev) st s')
            (sym (
              append_assoc events (data_at p.payload offset ∷ [])
                (data_events (offset + length p.payload) ps)))
            runs))

data_subpackets-done :
    (fuel : ℕ) (read_data : ℕ → ℕ → List ℕ) (offset size : ℕ)
    → size ≤ offset
    → data_subpackets fuel read_data offset size ≡ []
unfolding data_subpackets
data_subpackets-done zero read_data offset size h = refl
data_subpackets-done (suc fuel) read_data offset size h =
    let over : ltb offset size ≡ false = ground arith in rw over refl

-- The transmitter cuts a file that way.
pub data_subpackets-Frames :
    (fuel : ℕ) (read_data : ℕ → ℕ → List ℕ) (offset size : ℕ)
    → ((offset n : ℕ) → offset + n ≤ size → length (read_data offset n) ≡ n)
    → offset < size
    → size ≤ offset + 1024 * fuel
    → Frames size offset (data_subpackets fuel read_data offset size)
unfolding data_subpackets
data_subpackets-Frames zero read_data offset size fills h enough = absurd (omega arith)
data_subpackets-Frames (suc fuel) read_data offset size fills h enough =
    let chunk = min (size - offset) 1024 in
    let p = data_subpacket read_data offset size in
    let len : length p.payload ≡ chunk = fills offset chunk (omega (arith, h)) in
    let start : ltb offset size ≡ true = lt→ltb offset size h in
    rw start (elim (Bool-cases (leb size (offset + chunk))) [
      | inl done ↦
          let e : (if leb size (offset + chunk) then zcrcw else zcrcg) ≡ zcrcw = rw done refl in
          subst (λ ps. Frames size offset (p ∷ ps))
            (sym (data_subpackets-done fuel read_data (offset + chunk) size (ground arith)))
            (last p e (omega (arith, len)) (omega (arith, len)) (ground (arith, len)))
      | inr rest ↦
          let e : (if leb size (offset + chunk) then zcrcw else zcrcg) ≡ zcrcg = rw rest refl in
          let short : offset + chunk < size = ground arith in
          more p e (omega (arith, len)) (omega (arith, len)) (omega (arith, len)) (
            subst
              (λ n. Frames size (offset + n) (data_subpackets fuel read_data (offset + chunk) size))
              (sym len)
              (data_subpackets-Frames fuel read_data (offset + chunk) size fills short
                (omega arith)))
    ])
