-- ===== src/Zmodem/Session/Answers.antt =====
-- The transmitter's side of a batch, from the answers that the receiver gives.
use zephyr_zyx_modem.Base.{
  ℕ, suc, All, ◌≤◌, ◌<◌, ◌≡◌, ap, ◌∙◌, true, false, Option, some, List, [], ◌∷◌, ◌++◌, arith,
  length, length-append, length-map,
}
use zephyr_zyx_modem.Io.{Read, byte, bytes_of}
use zephyr_zyx_modem.Io.Laws.{bytes_of-append}
use zephyr_zyx_modem.Zmodem.Platform.{Platform, IsPlatform}
use zephyr_zyx_modem.Zmodem.{FileInfo, ok, error_timeout, zrqinit, zrinit, zfile, zrpos, zero_flags}
use zephyr_zyx_modem.Zmodem.Headers.{read_header_tx, send_hex_header}
use zephyr_zyx_modem.Zmodem.Headers.Laws.{hex_tail}
use zephyr_zyx_modem.Zmodem.Headers.Behind.{hex_tail-Quiet}
use zephyr_zyx_modem.Zmodem.Subpacket.{send_subpacket}
use zephyr_zyx_modem.Zmodem.Transmit.{
  Callbacks, file_subpacket, binary_header, hex_header, named, zmodem_transmit,
}
use zephyr_zyx_modem.Zmodem.Session.{Source, IsSource, batch_stream, batch_answers}
use zephyr_zyx_modem.Zmodem.Session.Turns.{
  Serves, line, end_of_line, read-answer, transmit_loop-answered, transmit_loop-refused,
}

-- an application that has every callback
abbrev pub all_callbacks_tx : Callbacks
all_callbacks_tx = record {
  read_byte = true;
  write_bytes = true;
  get_file_info = true;
  read_data = true;
}

length-batch_answers :
    (svc : Platform) (fs : List Source) → length fs ≤ length (batch_answers svc fs)
unfolding send_hex_header
length-batch_answers svc [] = omega arith
length-batch_answers svc (f ∷ fs) =
    let pos = hex_header svc zrpos zero_flags in
    let init = hex_header svc zrinit zero_flags in
    omega (
      arith,
      length-append pos (init ++ batch_answers svc fs),
      length-append init (batch_answers svc fs),
      length-batch_answers svc fs,
    )

module _ (svc : Platform) (w : IsPlatform svc) (get_file_info : ℕ → Option FileInfo)
    (read_data : ℕ → ℕ → ℕ → List ℕ) (fs : List Source) (rs : List Read) where
  -- `zmodem_transmit`, given one ZRINIT and then the answers of the receiver to the batch, returns
  -- ZMODEM_OK, and sends ZRQINIT, the stream of every file in order, ZFIN and `OO`. The stream of a
  -- file is its ZFILE header and subpacket, ZDATA at 0, its bytes in pieces of 1024 of which only the
  -- last may be shorter and ends with ZCRCW, and ZEOF at its size. The application gives these files
  -- and then no more, and their bytes wherever they are asked for; each has a name of 1 to 200 bytes
  -- without a NUL, is not empty and is shorter than 2^64 bytes; every callback is there; the CRC
  -- service returns 16-bit words, and the memory behind the 20-byte buffer of `send_hex_header` keeps
  -- the XON that is stored there.
  pub zmodem_transmit-batch :
      All IsSource fs
      → Serves get_file_info read_data 0 fs
      → zmodem_transmit svc get_file_info read_data
          (some all_callbacks_tx)
          (line (bytes_of (hex_header svc zrinit zero_flags ++ batch_answers svc fs) ++ rs) [])
        ≡ some (
          ok,
          line
              (end_of_line svc rs)
              (hex_header svc zrqinit zero_flags ++ (batch_stream svc fs ++ (b'O' ∷ b'O' ∷ []))),
        )
  unfolding zmodem_transmit
  zmodem_transmit-batch are serves =
      let init = hex_header svc zrinit zero_flags in
      let later = bytes_of (batch_answers svc fs) ++ rs in
      let all = bytes_of (init ++ batch_answers svc fs) ++ rs in
      let parts : all ≡ bytes_of init ++ later = bytes_of-append init (batch_answers svc fs) rs in
      let first : read_header_tx svc.crc all ≡ (
        some (record { header = record { kind = zrinit; flags = zero_flags }; is_crc32 = false }),
        bytes_of (hex_tail svc zrinit) ++ later,
      ) =
        ap (read_header_tx svc.crc) parts ∙ read-answer svc w [] zrinit later tt (omega arith) in
      let enough : length fs < suc (length all) = omega (
        arith,
        length-append (bytes_of (init ++ batch_answers svc fs)) rs,
        length-map byte (init ++ batch_answers svc fs),
        length-append init (batch_answers svc fs),
        length-batch_answers svc fs,
      ) in
      rw first (
        transmit_loop-answered svc w get_file_info read_data fs 0 (suc (length all))
          (hex_tail svc zrinit) rs (hex_header svc zrqinit zero_flags) enough are serves
          (hex_tail-Quiet svc w zrinit))

  -- Given two ZRINIT, as `zmodem_receive` sends them when it reads the transmitter's ZRQINIT, and a
  -- first file, `zmodem_transmit` takes the second one for an answer to that file: it returns
  -- ZMODEM_ERROR_TIMEOUT behind the file's ZFILE header and subpacket, and sends no data. The CRC
  -- service returns 16-bit words, and the memory behind the 20-byte buffer of `send_hex_header` keeps
  -- the XON that is stored there.
  pub zmodem_transmit_two_zrinit :
      (info : FileInfo)
      → named (get_file_info 0) ≡ some info
      → zmodem_transmit svc get_file_info read_data (some all_callbacks_tx) (
          line
            (bytes_of (
                hex_header svc zrinit zero_flags
                ++ (hex_header svc zrinit zero_flags ++ batch_answers svc fs))
              ++ rs)
            [])
        ≡ some (
          error_timeout,
          line (bytes_of (hex_tail svc zrinit) ++ (bytes_of (batch_answers svc fs) ++ rs)) (
              (hex_header svc zrqinit zero_flags ++ binary_header svc.crc zfile zero_flags)
              ++ send_subpacket svc.crc (file_subpacket info)),
        )
  unfolding zmodem_transmit
  zmodem_transmit_two_zrinit info e =
      let init = hex_header svc zrinit zero_flags in
      let later = bytes_of (batch_answers svc fs) ++ rs in
      let all = bytes_of (init ++ (init ++ batch_answers svc fs)) ++ rs in
      let parts : all ≡ bytes_of init ++ (bytes_of init ++ later) =
        bytes_of-append init (init ++ batch_answers svc fs) rs
        ∙ ap (λ l. bytes_of init ++ l) (bytes_of-append init (batch_answers svc fs) rs) in
      let first : read_header_tx svc.crc all ≡ (
        some (record { header = record { kind = zrinit; flags = zero_flags }; is_crc32 = false }),
        bytes_of (hex_tail svc zrinit) ++ (bytes_of init ++ later),
      ) =
        ap (read_header_tx svc.crc) parts
        ∙ read-answer svc w [] zrinit (bytes_of init ++ later) tt (omega arith) in
      rw first (
        transmit_loop-refused svc w get_file_info read_data info 0 (length all)
          (hex_tail svc zrinit) later (hex_header svc zrqinit zero_flags) e
          (hex_tail-Quiet svc w zrinit))
