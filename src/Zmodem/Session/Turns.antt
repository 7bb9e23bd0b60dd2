-- ===== src/Zmodem/Session/Turns.antt =====
-- The rounds of the transmitter, from the answers that the receiver gives.
use zephyr_zyx_modem.Base.{
  ℕ, zero, suc, All, ◌+◌, ◌/◌, ◌<◌, ◌≡◌, refl, ap, ◌∙◌, sym, false, Option, some, none, List, [],
  ◌∷◌, ◌++◌, append_assoc, arith, length, add_size,
}
use zephyr_zyx_modem.Io.{Read, Io, bytes_of}
use zephyr_zyx_modem.Io.Laws.{bytes_of-append}
use zephyr_zyx_modem.Zmodem.Platform.{Platform, IsPlatform}
use zephyr_zyx_modem.Zmodem.{
  FileInfo, ok, error_timeout, zrinit, zfile, zfin, zrpos, zdata, zeof, zero_flags, position_flags,
}
use zephyr_zyx_modem.Zmodem.Escape.{read_zdle_byte_tx}
use zephyr_zyx_modem.Zmodem.Headers.{read_header_tx}
use zephyr_zyx_modem.Zmodem.Headers.Laws.{hex_tail}
use zephyr_zyx_modem.Zmodem.Headers.Behind.{
  Quiet, hex_tail-Quiet, read_header-hex, zero_flags-IsHeader,
}
use zephyr_zyx_modem.Zmodem.Subpacket.{send_subpacket}
use zephyr_zyx_modem.Zmodem.Transmit.{
  file_subpacket, binary_header, hex_header, file_contents, data_subpackets, send_subpackets,
  next_file, stop, transmit_end, transmit_contents, transmit_file, transmit_finish, named,
  transmit_loop,
}
use zephyr_zyx_modem.Zmodem.Session.{
  Source, IsSource, subpackets_of, file_stream, batch_stream, batch_answers,
}
use zephyr_zyx_modem.Zmodem.Session.Pieces.{Reads, data_subpackets-pieces}

-- The application gives these files from an index on, and then no more: each file's information,
-- and its bytes wherever they are asked for.
abbrev pub Serves : (ℕ → Option FileInfo) → (ℕ → ℕ → ℕ → List ℕ) → ℕ → List Source → Type 0
Serves get_file_info read_data idx [] = named (get_file_info idx) ≡ none
Serves get_file_info read_data idx (f ∷ fs) =
    (named (get_file_info idx) ≡ some f.info)
    × (Reads (read_data idx) f.contents × Serves get_file_info read_data (add_size idx 1) fs)

abbrev pub line : List Read → List ℕ → Io
line input sent = record { input = input; sent = sent }

-- what the line still holds when the transmitter is done: the rest of the ZFIN header, and `OO`
abbrev pub end_of_line : Platform → List Read → List Read
end_of_line svc rs = bytes_of (hex_tail svc zfin) ++ (bytes_of (b'O' ∷ b'O' ∷ []) ++ rs)

module _ (svc : Platform) (w : IsPlatform svc) where
  pub read-answer :
      (lead : List ℕ) (kind : ℕ) (rs : List Read)
      → Quiet lead
      → kind < 256
      → read_header_tx svc.crc (bytes_of lead ++ (bytes_of (hex_header svc kind zero_flags) ++ rs))
        ≡ (
          some (record { header = record { kind = kind; flags = zero_flags }; is_crc32 = false }),
          bytes_of (hex_tail svc kind) ++ rs,
        )
  read-answer lead kind rs quiet h =
      read_header-hex svc w.widths read_zdle_byte_tx lead
        (record { kind = kind; flags = zero_flags }) rs quiet (zero_flags-IsHeader kind h)

  transmit_end-zrinit :
      (f : Source) (read_data : ℕ → ℕ → List ℕ) (lead : List ℕ) (rs : List Read) (sent : List ℕ)
      → Quiet lead
      → transmit_end svc read_data f.info
          (line (bytes_of lead ++ (bytes_of (hex_header svc zrinit zero_flags) ++ rs)) sent)
        ≡ next_file (line (bytes_of (hex_tail svc zrinit) ++ rs) sent)
  unfolding transmit_end
  transmit_end-zrinit f read_data lead rs sent quiet =
      rw (read-answer lead zrinit rs quiet (omega arith)) refl

  -- What is sent behind ZRPOS is the file.
  file_contents-pieces :
      (f : Source) (read_data : ℕ → ℕ → List ℕ)
      → IsSource f
      → Reads read_data f.contents
      → file_contents svc read_data f.info 0
        ≡ binary_header svc.crc zdata (position_flags 0)
          ++ (send_subpackets svc.crc (subpackets_of f)
              ++ hex_header svc zeof (position_flags f.info.size))
  unfolding file_contents
  file_contents-pieces f read_data is reads =
      ap
        (λ ps.
          binary_header svc.crc zdata (position_flags 0)
          ++ (send_subpackets svc.crc ps ++ hex_header svc zeof (position_flags f.info.size)))
        (ap (λ n. data_subpackets (n / 1024 + 1) read_data 0 n) is.sized
          ∙ data_subpackets-pieces read_data f.contents reads (length f.contents / 1024 + 1) 0)

  transmit_file-answered :
      (f : Source) (read_data : ℕ → ℕ → List ℕ) (lead : List ℕ) (rs : List Read) (sent : List ℕ)
      → IsSource f
      → Reads read_data f.contents
      → Quiet lead
      → transmit_file svc read_data f.info (
          line
            (bytes_of lead
              ++ (bytes_of (hex_header svc zrpos zero_flags)
                  ++ (bytes_of (hex_header svc zrinit zero_flags) ++ rs)))
            sent)
        ≡ next_file (line (bytes_of (hex_tail svc zrinit) ++ rs) (sent ++ file_stream svc f))
  unfolding transmit_file transmit_contents
  transmit_file-answered f read_data lead rs sent is reads quiet =
      let zfile_header = binary_header svc.crc zfile zero_flags in
      let info = send_subpacket svc.crc (file_subpacket f.info) in
      let contents = file_contents svc read_data f.info 0 in
      rw
        (read-answer lead zrpos (bytes_of (hex_header svc zrinit zero_flags) ++ rs) quiet
          (omega arith))
        (transmit_end-zrinit f read_data (hex_tail svc zrpos) rs
            (((sent ++ zfile_header) ++ info) ++ contents) (hex_tail-Quiet svc w zrpos)
          ∙ ap (λ l. next_file (line (bytes_of (hex_tail svc zrinit) ++ rs) l))
              (append_assoc (sent ++ zfile_header) info contents
                ∙ append_assoc sent zfile_header (info ++ contents)
                ∙ ap (λ c. sent ++ (zfile_header ++ (info ++ c)))
                    (file_contents-pieces f read_data is reads)))

  -- An answer that is not ZRPOS ends the transfer behind the ZFILE subpacket.
  transmit_file-refused :
      (info : FileInfo) (read_data : ℕ → ℕ → List ℕ) (lead : List ℕ) (rs : List Read)
      (sent : List ℕ)
      → Quiet lead
      → transmit_file svc read_data info
          (line (bytes_of lead ++ (bytes_of (hex_header svc zrinit zero_flags) ++ rs)) sent)
        ≡ stop error_timeout (
            line (bytes_of (hex_tail svc zrinit) ++ rs) (
              (sent ++ binary_header svc.crc zfile zero_flags)
              ++ send_subpacket svc.crc (file_subpacket info)))
  unfolding transmit_file transmit_contents
  transmit_file-refused info read_data lead rs sent quiet =
      rw (read-answer lead zrinit rs quiet (omega arith)) refl

  transmit_finish-zfin :
      (lead : List ℕ) (rs : List Read) (sent : List ℕ)
      → Quiet lead
      → transmit_finish svc
          (line (bytes_of lead ++ (bytes_of (hex_header svc zfin zero_flags) ++ rs)) sent)
        ≡ line
            (bytes_of (hex_tail svc zfin) ++ rs)
            (sent ++ (hex_header svc zfin zero_flags ++ (b'O' ∷ b'O' ∷ [])))
  unfolding transmit_finish
  transmit_finish-zfin lead rs sent quiet =
      let fin = hex_header svc zfin zero_flags in
      let o : List ℕ = b'O' ∷ [] in
      rw (read-answer lead zfin rs quiet (omega arith)) (
        ap (line (bytes_of (hex_tail svc zfin) ++ rs))
          (append_assoc (sent ++ fin) o o ∙ append_assoc sent fin (o ++ o)))

  module _ (get_file_info : ℕ → Option FileInfo) (read_data : ℕ → ℕ → ℕ → List ℕ) where
    pub transmit_loop-answered :
        (fs : List Source) (idx fuel : ℕ) (lead : List ℕ) (rs : List Read) (sent : List ℕ)
        → length fs < fuel
        → All IsSource fs
        → Serves get_file_info read_data idx fs
        → Quiet lead
        → transmit_loop svc get_file_info read_data fuel idx
            (line (bytes_of lead ++ (bytes_of (batch_answers svc fs) ++ rs)) sent)
          ≡ some
              (ok, line (end_of_line svc rs) (sent ++ (batch_stream svc fs ++ (b'O' ∷ b'O' ∷ []))))
    unfolding transmit_loop
    transmit_loop-answered fs idx zero lead rs sent h are serves quiet = absurd (omega arith)
    transmit_loop-answered [] idx (suc fuel) lead rs sent h are serves quiet =
        let fin = hex_header svc zfin zero_flags in
        let oo : List ℕ = b'O' ∷ b'O' ∷ [] in
        rw (transmit_loop, serves)
          (ap (λ l. some (ok, transmit_finish svc (line (bytes_of lead ++ l) sent)))
              (bytes_of-append fin oo rs)
            ∙ ap (λ io. some (ok, io)) (transmit_finish-zfin lead (bytes_of oo ++ rs) sent quiet))
    transmit_loop-answered (f ∷ fs) idx (suc fuel) lead rs sent h are serves quiet =
        let pos = hex_header svc zrpos zero_flags in
        let init = hex_header svc zrinit zero_flags in
        let oo : List ℕ = b'O' ∷ b'O' ∷ [] in
        let later = bytes_of (batch_answers svc fs) ++ rs in
        let parts : bytes_of (batch_answers svc (f ∷ fs)) ++ rs
            ≡ bytes_of pos ++ (bytes_of init ++ later) =
          bytes_of-append pos (init ++ batch_answers svc fs) rs
          ∙ ap (λ l. bytes_of pos ++ l) (bytes_of-append init (batch_answers svc fs) rs) in
        ap
          (λ l.
            transmit_loop svc get_file_info read_data (suc fuel) idx
              (line (bytes_of lead ++ l) sent))
          parts
        ∙ rw
            (
              transmit_loop,
              serves.0,
              transmit_file-answered f (read_data idx) lead later sent are.0 serves.1.0 quiet,
            )
            (transmit_loop-answered fs (add_size idx 1) fuel (hex_tail svc zrinit) rs
                (sent ++ file_stream svc f) (omega arith) are.1 serves.1.1
                (hex_tail-Quiet svc w zrinit)
              ∙ ap (λ l. some (ok, line (end_of_line svc rs) l))
                  (append_assoc sent (file_stream svc f) (batch_stream svc fs ++ oo)
                    ∙ ap (λ l. sent ++ l)
                        (sym (append_assoc (file_stream svc f) (batch_stream svc fs) oo))))

    pub transmit_loop-refused :
        (info : FileInfo) (idx fuel : ℕ) (lead : List ℕ) (rs : List Read) (sent : List ℕ)
        → named (get_file_info idx) ≡ some info
        → Quiet lead
        → transmit_loop svc get_file_info read_data
            (suc fuel)
            idx
            (line (bytes_of lead ++ (bytes_of (hex_header svc zrinit zero_flags) ++ rs)) sent)
          ≡ some (
            error_timeout,
            line (bytes_of (hex_tail svc zrinit) ++ rs) (
                (sent ++ binary_header svc.crc zfile zero_flags)
                ++ send_subpacket svc.crc (file_subpacket info)),
          )
    unfolding transmit_loop
    transmit_loop-refused info idx fuel lead rs sent e quiet =
        rw (transmit_loop, e, transmit_file-refused info (read_data idx) lead rs sent quiet) refl
