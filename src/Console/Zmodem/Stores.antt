-- ===== src/Console/Zmodem/Stores.antt =====
-- A batch that comes over the line stands in the file system of the console.
use zephyr_zyx_modem.Base.{
  ℕ, ◌+◌, ◌≤◌, ◌≡◌, ◌∙◌, refl, ap, subst, sym, Option, none, some, List, [], ◌∷◌, ◌++◌,
  append_assoc, append-nil, length, All, ℤ, pos, arith,
}
use zephyr_zyx_modem.Io.{bytes_of}
use zephyr_zyx_modem.Zmodem.Platform.{Platform, IsPlatform}
use zephyr_zyx_modem.Zmodem.{FileInfo, Status, ok}
use zephyr_zyx_modem.Zmodem.Subpacket.{Subpacket}
use zephyr_zyx_modem.Zmodem.Receive.{Event, Rx, file_start, file_end, zmodem_receive}
use zephyr_zyx_modem.Zmodem.Transmit.{zmodem_transmit}
use zephyr_zyx_modem.Zmodem.Session.{
  Source, IsSource, subpackets_of, data_events, file_events, batch_events,
}
use zephyr_zyx_modem.Zmodem.Session.Contents.{payloads}
use zephyr_zyx_modem.Zmodem.Session.Pieces.{payloads-subpackets_of}
use zephyr_zyx_modem.Zmodem.Session.Turns.{Serves, line, end_of_line}
use zephyr_zyx_modem.Zmodem.Session.Answers.{all_callbacks_tx}
use zephyr_zyx_modem.Zmodem.Session.Both.{session_stream, session_answers, zmodem_session}
use zephyr_zyx_modem.Console.{Settings}
use zephyr_zyx_modem.Console.Abort.{Passes, arriving, console_line-arriving}
use zephyr_zyx_modem.Console.Files.{FileSystem, Context, context_for, full_path, open_output_file}
use zephyr_zyx_modem.Console.Stored.{WillStore, Stored, write-Stored, open-whole, close-Stored}
use zephyr_zyx_modem.Console.Zmodem.{
  chosen_name, started, zmodem_on_file_start, handle, handle_all, all_callbacks, result_of,
  target_of, console_modem_rx_zmodem,
}

-- what the console keeps of a file: its path, and all its bytes
abbrev pub stored_file : Settings → Source → List ℕ × List ℕ
stored_file settings f = (full_path settings f.info.filename, f.contents)

abbrev pub stored_files : Settings → List Source → List (List ℕ × List ℕ)
stored_files settings [] = []
stored_files settings (f ∷ fs) = stored_file settings f ∷ stored_files settings fs

chosen_name-named : (name target : List ℕ) → 1 ≤ length name → chosen_name name target ≡ name
chosen_name-named [] target h = absurd (omega (arith, h))
chosen_name-named (c ∷ cs) [] h = refl
chosen_name-named (c ∷ cs) (t ∷ ts) h = refl

handle_all-append :
    (fs : FileSystem) (settings : Settings) (events more : List Event) (ctx : Context)
    → handle_all fs settings (events ++ more) ctx
      ≡ handle_all fs settings more (handle_all fs settings events ctx)
unfolding handle_all
handle_all-append fs settings [] more ctx = refl
handle_all-append fs settings (e ∷ events) more ctx =
    handle_all-append fs settings events more (handle fs settings e ctx)

module _ (fs : FileSystem) (settings : Settings) (f : Source) (is : IsSource f)
    (will : WillStore fs settings f.info.filename) where
  file_start-Stored :
      (ctx : Context)
      → Stored
          (full_path settings f.info.filename)
          []
          ctx.closed
          (handle fs settings (file_start f.info) ctx)
  unfolding handle zmodem_on_file_start
  file_start-Stored ctx =
      subst
        (λ (r : ℤ × Context).
          Stored (full_path settings f.info.filename) [] ctx.closed (started f.info.size r).1)
        (sym (
          ap (λ name. open_output_file fs settings name ctx)
            (chosen_name-named f.info.filename ctx.target_path is.named)
          ∙ open-whole fs settings f.info.filename will ctx))
        (record { is_open = refl; holds = refl; finished = refl })

  data_events-Stored :
      (ps : List Subpacket) (offset : ℕ) (written : List ℕ) (before : List (List ℕ × List ℕ))
      (ctx : Context)
      → Stored (full_path settings f.info.filename) written before ctx
      → Stored
          (full_path settings f.info.filename)
          (written ++ payloads ps)
          before
          (handle_all fs settings (data_events offset ps) ctx)
  unfolding handle_all handle
  data_events-Stored [] offset written before ctx st =
      subst (λ w. Stored (full_path settings f.info.filename) w before ctx)
        (sym (append-nil written)) st
  data_events-Stored (p ∷ ps) offset written before ctx st =
      subst
        (λ w.
          Stored (full_path settings f.info.filename) w before
            (handle_all fs settings (data_events offset (p ∷ ps)) ctx))
        (append_assoc written p.payload (payloads ps))
        (data_events-Stored ps (offset + length p.payload) (written ++ p.payload) before _
          (write-Stored fs settings f.info.filename will p.payload written before ctx st))

  -- The calls for one file add it to those that were closed.
  file_events-closed :
      (ctx : Context)
      → (handle_all fs settings (file_events f) ctx).closed
        ≡ ctx.closed ++ (stored_file settings f ∷ [])
  unfolding handle_all handle
  file_events-closed ctx =
      ap (λ (c : Context). c.closed)
        (handle_all-append fs settings (data_events 0 (subpackets_of f)) (file_end f.info ok ∷ [])
          (handle fs settings (file_start f.info) ctx))
      ∙ close-Stored _ _ ctx.closed _ (
          subst
            (λ l. Stored (full_path settings f.info.filename) l ctx.closed (
              handle_all fs settings (data_events 0 (subpackets_of f))
                (handle fs settings (file_start f.info) ctx)))
            (payloads-subpackets_of f)
            (data_events-Stored (subpackets_of f) 0 [] ctx.closed _ (file_start-Stored ctx)))

batch_events-closed :
    (fs : FileSystem) (settings : Settings) (files : List Source) (ctx : Context)
    → All IsSource files
    → All (λ f. WillStore fs settings f.info.filename) files
    → (handle_all fs settings (batch_events files) ctx).closed
      ≡ ctx.closed ++ stored_files settings files
unfolding handle_all
batch_events-closed fs settings [] ctx are will = sym (append-nil ctx.closed)
batch_events-closed fs settings (f ∷ files) ctx are will =
    ap (λ (c : Context). c.closed)
      (handle_all-append fs settings (file_events f) (batch_events files) ctx)
    ∙ batch_events-closed fs settings files (handle_all fs settings (file_events f) ctx) are.1
        will.1
    ∙ ap (λ cs. cs ++ stored_files settings files)
        (file_events-closed fs settings f are.0 will.0 ctx)
    ∙ append_assoc ctx.closed (stored_file settings f ∷ []) (stored_files settings files)

-- A ZMODEM transmitter and a console that is told to receive, where the line loses the receiver's
-- first ZRINIT and nothing else, and the file system takes what it is given: the transmitter
-- returns ZMODEM_OK, the console returns 0 on what the transmitter sends, and it has closed one
-- file for each file of the batch, in order, at its path within the target directory, with all
-- its bytes. The console reads with `console_read_byte`: its ring buffer is on and holds each byte
-- when it is asked for, and its abort key is off, or the stream holds neither the abort key nor two
-- CAN bytes in a row. It writes at once (async_storage is off). Each file has a name of 1 to 200
-- bytes without a NUL, is not empty and is shorter than 2^64 bytes, and the transmitter's application
-- gives its bytes wherever they are asked for; the CRC service returns 16-bit words; and the memory
-- behind the 20-byte buffer of `send_hex_header` keeps the XON that is stored there.
pub console_rx_zmodem-WillStore :
    (svc : Platform) (stale : List Event → List ℕ) (fs : FileSystem) (settings : Settings)
    (name : Option (List ℕ)) (get_file_info : ℕ → Option FileInfo) (read_data : ℕ → ℕ → ℕ → List ℕ)
    (files : List Source) (cans : ℕ)
    → IsPlatform svc
    → All IsSource files
    → Serves get_file_info read_data 0 files
    → All (λ f. WillStore fs settings f.info.filename) files
    → Passes settings cans (session_stream svc files)
    → (zmodem_transmit svc get_file_info read_data
          (some all_callbacks_tx)
          (line (bytes_of (session_answers svc files) ++ []) [])
        ≡ some (ok, line (end_of_line svc []) (session_stream svc files)))
      × ((ctx : Context) × ((console_modem_rx_zmodem svc stale fs settings name
                (arriving cans (session_stream svc files))
              ≡ some (pos 0, ctx))
            × (ctx.closed ≡ stored_files settings files)))
unfolding console_modem_rx_zmodem
console_rx_zmodem-WillStore svc stale fs settings name get_file_info read_data files cans w are
      serves will passes =
    let (sends, receives) = zmodem_session svc w stale get_file_info read_data files are serves in
    (
      sends,
      (
        handle_all fs settings (batch_events files) (context_for (target_of name)),
        (
          ap
              (λ (o : Option (Status × Rx)). elim o as (λ x. Option (ℤ × Context)) [
                | none ↦ none
                | some (status, rx) ↦ some (
                  result_of status,
                  handle_all fs settings rx.events (context_for (target_of name)),
                )
              ])
              (ap (zmodem_receive svc stale (some all_callbacks))
                  (console_line-arriving settings cans (session_stream svc files) passes)
                ∙ receives),
          batch_events-closed fs settings files (context_for (target_of name)) are will,
        ),
      ),
    )
