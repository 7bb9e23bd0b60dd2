-- ===== src/Zmodem/Session/Rounds.antt =====
-- The rounds of the receiver that meet the headers of a batch.
use zephyr_zyx_modem.Base.{ℕ, ◌≡◌, refl, ap, ◌∙◌, false, some, List, [], ◌∷◌, ◌++◌, arith}
use zephyr_zyx_modem.Io.{Read, bytes_of}
use zephyr_zyx_modem.Zmodem.Platform.{Platform, IsPlatform}
use zephyr_zyx_modem.Zmodem.{
  FileInfo, Header, ok, zrqinit, zrinit, zfile, zfin, zrpos, zdata, zeof, zero_flags,
  position_flags,
}
use zephyr_zyx_modem.Zmodem.Escape.Laws.{read_zdle_byte_rx-ReadsBack}
use zephyr_zyx_modem.Zmodem.Escape.{read_zdle_byte_rx}
use zephyr_zyx_modem.Zmodem.Headers.{read_header_rx}
use zephyr_zyx_modem.Zmodem.Headers.Laws.{IsHeader, hex_tail}
use zephyr_zyx_modem.Zmodem.Headers.Behind.{
  Quiet, read_header-hex, read_header-binary, zero_flags-IsHeader, position_flags-IsHeader,
}
use zephyr_zyx_modem.Zmodem.Subpacket.{send_subpacket}
use zephyr_zyx_modem.Zmodem.Subpacket.Laws.{read_subpacket_rx-send_subpacket}
use zephyr_zyx_modem.Zmodem.Receive.{
  Event, file_start, file_end, between, within, streaming, continue, stop, receive_file,
  receive_between, receive_within, receive_round,
}
use zephyr_zyx_modem.Zmodem.Transmit.{file_subpacket, binary_header, hex_header}
use zephyr_zyx_modem.Zmodem.Session.{Source, IsSource}
use zephyr_zyx_modem.Zmodem.Session.Info.{file_info-file_subpacket, length-file_subpacket}
use zephyr_zyx_modem.Zmodem.Session.Data.{all_callbacks, state}

module _ (svc : Platform) (w : IsPlatform svc) (stale : List Event → List ℕ) where
  read-hex :
      (lead : List ℕ) (h : Header) (rs : List Read)
      → Quiet lead
      → IsHeader h
      → read_header_rx svc.crc (bytes_of lead ++ (bytes_of (hex_header svc h.kind h.flags) ++ rs))
        ≡ (some (record { header = h; is_crc32 = false }), bytes_of (hex_tail svc h.kind) ++ rs)
  read-hex = read_header-hex svc w.widths read_zdle_byte_rx

  read-binary :
      (lead : List ℕ) (h : Header) (rs : List Read)
      → Quiet lead
      → IsHeader h
      → read_header_rx svc.crc
          (bytes_of lead ++ (bytes_of (binary_header svc.crc h.kind h.flags) ++ rs))
        ≡ (some (record { header = h; is_crc32 = false }), rs)
  read-binary = read_header-binary svc.crc w.widths read_zdle_byte_rx read_zdle_byte_rx-ReadsBack

  pub round-zrqinit :
      (rs : List Read) (sent : List ℕ) (events : List Event)
      → receive_round svc stale all_callbacks between
          (state (bytes_of (hex_header svc zrqinit zero_flags) ++ rs) sent events)
        ≡ continue between (
            state
              (bytes_of (hex_tail svc zrqinit) ++ rs)
              (sent ++ hex_header svc zrinit zero_flags)
              events)
  unfolding receive_round receive_between
  round-zrqinit rs sent events =
      ap (λ r. receive_between svc stale all_callbacks r.0 (state r.1 sent events))
        (read-hex [] (record { kind = zrqinit; flags = zero_flags }) rs tt
          (zero_flags-IsHeader zrqinit (omega arith)))

  pub round-zfin :
      (lead : List ℕ) (rs : List Read) (sent : List ℕ) (events : List Event)
      → Quiet lead
      → receive_round svc stale all_callbacks between
          (state (bytes_of lead ++ (bytes_of (hex_header svc zfin zero_flags) ++ rs)) sent events)
        ≡ stop ok (
            state
              (bytes_of (hex_tail svc zfin) ++ rs)
              (((sent ++ hex_header svc zfin zero_flags) ++ (b'O' ∷ [])) ++ (b'O' ∷ []))
              events)
  unfolding receive_round receive_between
  round-zfin lead rs sent events quiet =
      ap (λ r. receive_between svc stale all_callbacks r.0 (state r.1 sent events))
        (read-hex lead (record { kind = zfin; flags = zero_flags }) rs quiet
          (zero_flags-IsHeader zfin (omega arith)))

  pub round-zdata :
      (info : FileInfo) (rs : List Read) (sent : List ℕ) (events : List Event)
      → receive_round svc stale all_callbacks
          (within info 0)
          (state (bytes_of (binary_header svc.crc zdata (position_flags 0)) ++ rs) sent events)
        ≡ continue (streaming info 0 false) (state rs sent events)
  unfolding receive_round receive_within
  round-zdata info rs sent events =
      ap (λ r. receive_within svc stale all_callbacks info 0 r.0 (state r.1 sent events))
        (read-binary [] (record { kind = zdata; flags = position_flags 0 }) rs tt
          (position_flags-IsHeader zdata 0 (omega arith)))

  pub round-zeof :
      (info : FileInfo) (offset : ℕ) (rs : List Read) (sent : List ℕ) (events : List Event)
      → receive_round svc stale all_callbacks
          (within info offset)
          (state (bytes_of (hex_header svc zeof (position_flags info.size)) ++ rs) sent events)
        ≡ continue between (
            state
              (bytes_of (hex_tail svc zeof) ++ rs)
              (sent ++ hex_header svc zrinit zero_flags)
              (events ++ (file_end info ok ∷ [])))
  unfolding receive_round receive_within
  round-zeof info offset rs sent events =
      ap (λ r. receive_within svc stale all_callbacks info offset r.0 (state r.1 sent events))
        (read-hex [] (record { kind = zeof; flags = position_flags info.size }) rs tt
          (position_flags-IsHeader zeof info.size (omega arith)))

  pub round-zfile :
      (f : Source) (lead : List ℕ) (rs : List Read) (sent : List ℕ) (events : List Event)
      → IsSource f
      → Quiet lead
      → receive_round svc stale all_callbacks between (
          state
            (bytes_of lead
              ++ (bytes_of (binary_header svc.crc zfile zero_flags)
                  ++ (bytes_of (send_subpacket svc.crc (file_subpacket f.info)) ++ rs)))
            sent
            events)
        ≡ continue (within f.info 0) (
            state rs (sent ++ hex_header svc zrpos zero_flags) (events ++ (file_start f.info ∷ [])))
  unfolding receive_round receive_between receive_file
  round-zfile f lead rs sent events is quiet =
      ap (λ r. receive_between svc stale all_callbacks r.0 (state r.1 sent events))
        (read-binary lead (record { kind = zfile; flags = zero_flags })
          (bytes_of (send_subpacket svc.crc (file_subpacket f.info)) ++ rs) quiet
          (zero_flags-IsHeader zfile (omega arith)))
      ∙ ap (λ r. receive_file svc stale all_callbacks r.0 (state r.1 sent events))
          (read_subpacket_rx-send_subpacket svc.crc w.widths 1024 (file_subpacket f.info) rs refl
            (length-file_subpacket f.info))
      ∙ ap
          (λ i.
            continue (within i 0)
              (state rs (sent ++ hex_header svc zrpos zero_flags) (events ++ (file_start i ∷ []))))
          (file_info-file_subpacket (stale events) f.info is.short_name is.no_nul is.size_fits)
