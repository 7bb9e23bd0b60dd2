-- ===== src/Zmodem/Session/Batch.antt =====
-- A whole batch, as the receiver takes it.
use zephyr_zyx_modem.Base.{
  ℕ, suc, ◌≡◌, refl, ap, ◌∙◌, sym, subst, some, List, [], ◌∷◌, ◌++◌, append_assoc, append-nil,
  arith, length, All,
}
use zephyr_zyx_modem.Io.{Read, bytes_of}
use zephyr_zyx_modem.Zmodem.Platform.{Platform, IsPlatform}
use zephyr_zyx_modem.Zmodem.{
  Status, ok, zrqinit, zrinit, zfile, zfin, zrpos, zdata, zeof, zero_flags, position_flags,
}
use zephyr_zyx_modem.Io.Laws.{bytes_of-append}
use zephyr_zyx_modem.Zmodem.Headers.Laws.{hex_tail}
use zephyr_zyx_modem.Zmodem.Subpacket.{send_subpacket}
use zephyr_zyx_modem.Zmodem.Receive.{
  Event, file_start, file_end, Rx, between, within, receive_start, zmodem_receive,
}
use zephyr_zyx_modem.Zmodem.Receive.Returns.{Runs, stop-Runs, continue-Runs}
use zephyr_zyx_modem.Zmodem.Transmit.{file_subpacket, binary_header, hex_header, send_subpackets}
use zephyr_zyx_modem.Zmodem.Session.{
  Source, IsSource, subpackets_of, file_stream, batch_stream, batch_events, batch_answers,
  data_events,
}
use zephyr_zyx_modem.Zmodem.Session.Data.{all_callbacks, state, Frames-Runs}
use zephyr_zyx_modem.Zmodem.Session.Pieces.{subpackets_of-Frames}
use zephyr_zyx_modem.Zmodem.Headers.Behind.{Quiet, hex_tail-Quiet}
use zephyr_zyx_modem.Zmodem.Session.Rounds.{
  round-zrqinit, round-zfin, round-zdata, round-zeof, round-zfile,
}

-- the parts of a file's stream, each as the line has it
bytes_of-file_stream :
    (svc : Platform) (f : Source) (rs : List Read)
    → bytes_of (file_stream svc f) ++ rs
      ≡ bytes_of (binary_header svc.crc zfile zero_flags)
        ++ (bytes_of (send_subpacket svc.crc (file_subpacket f.info))
            ++ (bytes_of (binary_header svc.crc zdata (position_flags 0))
                ++ (bytes_of (send_subpackets svc.crc (subpackets_of f))
                    ++ (bytes_of (hex_header svc zeof (position_flags f.info.size)) ++ rs))))
bytes_of-file_stream svc f rs =
    let b1 = binary_header svc.crc zfile zero_flags in
    let b2 = send_subpacket svc.crc (file_subpacket f.info) in
    let b3 = binary_header svc.crc zdata (position_flags 0) in
    let b4 = send_subpackets svc.crc (subpackets_of f) in
    let b5 = hex_header svc zeof (position_flags f.info.size) in
    bytes_of-append b1 (b2 ++ (b3 ++ (b4 ++ b5))) rs
    ∙ ap (λ l. bytes_of b1 ++ l) (bytes_of-append b2 (b3 ++ (b4 ++ b5)) rs)
    ∙ ap (λ l. bytes_of b1 ++ (bytes_of b2 ++ l)) (bytes_of-append b3 (b4 ++ b5) rs)
    ∙ ap (λ l. bytes_of b1 ++ (bytes_of b2 ++ (bytes_of b3 ++ l))) (bytes_of-append b4 b5 rs)

pair-eq :
    {a a' : List ℕ} {b b' : List Event}
    → a ≡ a'
    → b ≡ b'
    → ◌≡◌ {A = List ℕ × List Event} (a, b) (a', b')
pair-eq e e' = rw (e, e') refl

module _ (svc : Platform) (w : IsPlatform svc) (stale : List Event → List ℕ) where
  -- The receiver takes a file, and stands between the files again.
  file-Runs :
      (f : Source) (lead : List ℕ) (rs : List Read) (sent : List ℕ) (events : List Event)
      {st : Status} {s' : Rx}
      → IsSource f
      → Quiet lead
      → Runs svc stale all_callbacks between
          (state
            (bytes_of (hex_tail svc zeof) ++ rs)
            ((sent ++ hex_header svc zrpos zero_flags) ++ hex_header svc zrinit zero_flags)
            (((events ++ (file_start f.info ∷ [])) ++ data_events 0 (subpackets_of f))
              ++ (file_end f.info ok ∷ [])))
          st
          s'
      → Runs svc stale all_callbacks between
          (state (bytes_of lead ++ (bytes_of (file_stream svc f) ++ rs)) sent events)
          st
          s'
  file-Runs f lead rs sent events {st} {s'} is quiet runs =
      let sent1 = sent ++ hex_header svc zrpos zero_flags in
      let events1 = events ++ (file_start f.info ∷ []) in
      let l5 = bytes_of (hex_header svc zeof (position_flags f.info.size)) ++ rs in
      let l4 = bytes_of (send_subpackets svc.crc (subpackets_of f)) ++ l5 in
      let l3 = bytes_of (binary_header svc.crc zdata (position_flags 0)) ++ l4 in
      let l1 =
        bytes_of (binary_header svc.crc zfile zero_flags)
        ++ (bytes_of (send_subpacket svc.crc (file_subpacket f.info)) ++ l3) in
      subst
        (λ l. Runs svc stale all_callbacks between (state (bytes_of lead ++ l) sent events) st s')
        (sym (bytes_of-file_stream svc f rs))
        (continue-Runs svc stale all_callbacks between (state (bytes_of lead ++ l1) sent events)
          (round-zfile svc w stale f lead l3 sent events is quiet)
          (continue-Runs svc stale all_callbacks (within f.info 0) (state l3 sent1 events1)
            (round-zdata svc w stale f.info l4 sent1 events1)
            (Frames-Runs svc w stale f.info (subpackets_of f) l5 sent1 events1
              (subpackets_of-Frames f is) is.size_fits
              (continue-Runs svc stale all_callbacks (within f.info f.info.size)
                (state l5 sent1 (events1 ++ data_events 0 (subpackets_of f)))
                (round-zeof svc w stale f.info f.info.size rs sent1
                  (events1 ++ data_events 0 (subpackets_of f)))
                runs))))

  -- It takes the files, and ends with ZFIN.
  batch-Runs :
      (fs : List Source) (lead : List ℕ) (rs : List Read) (sent : List ℕ) (events : List Event)
      → All IsSource fs
      → Quiet lead
      → Runs svc stale all_callbacks between
          (state (bytes_of lead ++ (bytes_of (batch_stream svc fs) ++ rs)) sent events)
          ok
          (state
            (bytes_of (hex_tail svc zfin) ++ rs)
            (sent ++ batch_answers svc fs)
            (events ++ batch_events fs))
  batch-Runs [] lead rs sent events is quiet =
      let fin = hex_header svc zfin zero_flags in
      let o : List ℕ = b'O' ∷ [] in
      subst
        (λ x.
          Runs svc stale all_callbacks between
            (state (bytes_of lead ++ (bytes_of fin ++ rs)) sent events) ok
            (state (bytes_of (hex_tail svc zfin) ++ rs) x.0 x.1))
        (pair-eq (append_assoc (sent ++ fin) o o ∙ append_assoc sent fin (o ++ o))
          (sym (append-nil events)))
        (stop-Runs svc stale all_callbacks between
          (state (bytes_of lead ++ (bytes_of fin ++ rs)) sent events)
          (round-zfin svc w stale lead rs sent events quiet))
  batch-Runs (f ∷ fs) lead rs sent events is quiet =
      let pos = hex_header svc zrpos zero_flags in
      let init = hex_header svc zrinit zero_flags in
      let contents = data_events 0 (subpackets_of f) in
      let start : List Event = file_start f.info ∷ [] in
      let finish : List Event = file_end f.info ok ∷ [] in
      let tail = bytes_of (batch_stream svc fs) ++ rs in
      let sent_eq : ((sent ++ pos) ++ init) ++ batch_answers svc fs
          ≡ sent ++ batch_answers svc (f ∷ fs) =
        append_assoc (sent ++ pos) init (batch_answers svc fs)
        ∙ append_assoc sent pos (init ++ batch_answers svc fs) in
      let events_eq : (((events ++ start) ++ contents) ++ finish) ++ batch_events fs
          ≡ events ++ batch_events (f ∷ fs) =
        append_assoc ((events ++ start) ++ contents) finish (batch_events fs)
        ∙ append_assoc (events ++ start) contents (finish ++ batch_events fs)
        ∙ append_assoc events start (contents ++ (finish ++ batch_events fs))
        ∙ ap (λ l. events ++ (file_start f.info ∷ l))
            (sym (append_assoc contents finish (batch_events fs))) in
      subst
        (λ l. Runs svc stale all_callbacks between (state (bytes_of lead ++ l) sent events) ok (
          state (bytes_of (hex_tail svc zfin) ++ rs) (sent ++ batch_answers svc (f ∷ fs))
            (events ++ batch_events (f ∷ fs))))
        (sym (bytes_of-append (file_stream svc f) (batch_stream svc fs) rs))
        (file-Runs f lead tail sent events is.0 quiet (
          subst
            (λ x.
              Runs svc stale all_callbacks between
                (state (bytes_of (hex_tail svc zeof) ++ tail) ((sent ++ pos) ++ init)
                  (((events ++ start) ++ contents) ++ finish))
                ok (state (bytes_of (hex_tail svc zfin) ++ rs) x.0 x.1))
            (pair-eq sent_eq events_eq)
            (batch-Runs fs (hex_tail svc zeof) rs ((sent ++ pos) ++ init)
              (((events ++ start) ++ contents) ++ finish) is.1 (hex_tail-Quiet svc w zeof))))

-- `zmodem_receive` takes a batch of any number of files from a line that delivers what the
-- transmitter sends for it: it returns ZMODEM_OK; it hands the application each file's name and
-- size, the file's bytes in pieces of 1024 at their offsets, and ZMODEM_OK at the file's end, in
-- order; and it answers ZRINIT twice, ZRPOS and ZRINIT for each file, and ZFIN and `OO`, which is all
-- that the code sends: it has no ZACK for a subpacket that ends with ZCRCW. Each file has a name of 1
-- to 200 bytes without a NUL, is not empty and is shorter than 2^64 bytes; every callback is there;
-- the CRC service returns 16-bit words; and the memory behind the 20-byte buffer of
-- `send_hex_header` keeps the XON that is stored there.
pub zmodem_receive-batch :
    (svc : Platform)
    → IsPlatform svc
    → (stale : List Event → List ℕ) (fs : List Source) (rs : List Read) → All IsSource fs
    → zmodem_receive svc stale (some all_callbacks) (record {
      input = bytes_of (hex_header svc zrqinit zero_flags ++ batch_stream svc fs) ++ rs;
      sent = [];
    })
      ≡ some (
        ok,
        state
            (bytes_of (hex_tail svc zfin) ++ rs)
            (hex_header svc zrinit zero_flags
              ++ (hex_header svc zrinit zero_flags ++ batch_answers svc fs))
            (batch_events fs),
      )
unfolding zmodem_receive receive_start
zmodem_receive-batch svc w stale fs rs is =
    let rqinit = hex_header svc zrqinit zero_flags in
    let init = hex_header svc zrinit zero_flags in
    let line = bytes_of (rqinit ++ batch_stream svc fs) ++ rs in
    let tail = bytes_of (batch_stream svc fs) ++ rs in
    let runs : Runs svc stale all_callbacks between (state (bytes_of rqinit ++ tail) init []) ok (
        state (bytes_of (hex_tail svc zfin) ++ rs) (init ++ (init ++ batch_answers svc fs))
          (batch_events fs)) =
      continue-Runs svc stale all_callbacks between (state (bytes_of rqinit ++ tail) init [])
        (round-zrqinit svc w stale tail init [])
        (subst
          (λ x.
            Runs svc stale all_callbacks between
              (state (bytes_of (hex_tail svc zrqinit) ++ tail) (init ++ init) []) ok
              (state (bytes_of (hex_tail svc zfin) ++ rs) x (batch_events fs)))
          (append_assoc init init (batch_answers svc fs))
          (batch-Runs svc w stale fs (hex_tail svc zrqinit) rs (init ++ init) [] is
            (hex_tail-Quiet svc w zrqinit))) in
    subst
      (λ l. Runs svc stale all_callbacks between (state l init []) ok (
        state (bytes_of (hex_tail svc zfin) ++ rs) (init ++ (init ++ batch_answers svc fs))
          (batch_events fs)))
      (sym (bytes_of-append rqinit (batch_stream svc fs) rs)) runs (suc (length line)) (omega arith)
