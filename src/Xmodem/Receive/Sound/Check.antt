-- ===== src/Xmodem/Receive/Sound/Check.antt =====
-- Steps 2g and 2h: what reaches `data_cb` has passed its check.
use zephyr_zyx_modem.Base.{
  ℕ, ◌+◌, ◌-◌, ◌/◌, ◌%◌, ◌≡◌, refl, subst, ◌∙◌, ◌⊎◌, inl, inr, Bool, true, false, some, List, [],
  ◌∷◌, ◌++◌, append_assoc, arith, length, ◌==◌, ==_iff, if◌then◌else◌, All, IsByte, add_u8,
  add_size,
}
use mathlib.Core.List.{map-append}
use zephyr_zyx_modem.Io.{
  Read, byte, cancelled, failed, bytes_of, Pair, bytes, pair, first, rest, after_read,
}
use zephyr_zyx_modem.Io.Laws.{
  Suffix-trans, rest-Suffix, drop_bytes-Suffix, IsLine, first-byte, script-pair,
}
use zephyr_zyx_modem.Crc.{CrcService, modem_crc16, modem_checksum8, join16}
use zephyr_zyx_modem.Xmodem.{Block, ack}
use zephyr_zyx_modem.Xmodem.Frame.{frame, check_bytes, header_of}
use zephyr_zyx_modem.Xmodem.Receive.Sound.{Quiet, Stored, Round, quiet, Quiet-on}
use zephyr_zyx_modem.Xmodem.Receive.{
  Rx, Next, reject, receive_accept, receive_crc, receive_check, receive_checksum,
}

halves :
    (hi lo c : ℕ) → IsByte hi → IsByte lo → join16 hi lo ≡ c → (c / 256 % 256 ≡ hi) × (c % 256 ≡ lo)
halves hi lo c h l e = omega arith

module _ (svc : CrcService) (accepts : List Block → Block → Bool) (s0 : Rx) where
  pub if-Round :
      (b : Bool) (m n : Next)
      → (b ≡ true → Round svc accepts s0 m)
      → (b ≡ false → Round svc accepts s0 n)
      → Round svc accepts s0 (if b then m else n)
  if-Round true m n x y = x refl
  if-Round false m n x y = y refl

  pub reject-Round : (s : Rx) → Quiet s0 s → Round svc accepts s0 (reject s)
  reject-Round s q = inl (record {
    read_on = Suffix-trans (drop_bytes-Suffix s.input) q.read_on;
    same_stored = q.same_stored;
    same_expected = q.same_expected;
    same_total = q.same_total;
  })

  -- the frame that starts the round, once its check has passed
  record Framed (num : ℕ) (payload : List ℕ) (s : Rx) : Type 0 where
    crc_mode : Bool
    on_line :
        s0.input
        ≡ bytes_of (frame svc crc_mode (record { num = num; payload = payload })) ++ s.input
    size : (length payload ≡ 128) ⊎ (length payload ≡ 1024)

  receive_accept-Round :
      (num : ℕ) (payload : List ℕ) (s : Rx)
      → Quiet s0 s
      → Framed num payload s
      → Round svc accepts s0 (receive_accept svc accepts num payload s)
  unfolding receive_accept
  receive_accept-Round num payload s q f =
      if-Round (num == s.expected_block) _ _
        (λ e.
          if-Round (accepts s.stored block) _ _ (λ a. inr (block, taken ((==_iff _ _).0 e) a))
            (λ _. (q.same_stored, q.same_total)))
        (λ _.
          if-Round (num == (s.expected_block + 255) % 256) _ _
            (λ _. inl (quiet q refl refl refl refl)) (λ _. (q.same_stored, q.same_total)))
    where
      block : Block
      block = record { num = s.expected_block; payload = payload }

      taken :
          num ≡ s.expected_block
          → accepts s.stored block ≡ true
          → Stored svc accepts s0
              (record s {
                io = record s.io { sent = s.sent ++ (ack ∷ []) };
                stored = s.stored ++ (block ∷ []);
                expected_block = add_u8 s.expected_block 1;
                total_bytes = add_size s.total_bytes (length payload);
                retries = 0;
                req = ack;
              })
              block
      taken e a = record {
        crc_mode = f.crc_mode;
        on_line =
            subst
              (λ n.
                s0.input
                ≡ bytes_of (frame svc f.crc_mode (record { num = n; payload = payload }))
                  ++ s.input)
              e f.on_line;
        expected = q.same_expected;
        size = f.size;
        accepted = rw (← q.same_stored) a;
        stored = rw q.same_stored;
        next_expected = rw q.same_expected;
        total = rw q.same_total;
      }

  pub two_on : {s : Rx} → Quiet s0 s → Quiet s0 (record s { io = after_read (after_read s.io) })
  two_on {s} = Quiet-on (Suffix-trans (rest-Suffix (rest s.input)) (rest-Suffix s.input))

  one_on : {s : Rx} → Quiet s0 s → Quiet s0 (record s { io = after_read s.io })
  one_on {s} = Quiet-on (rest-Suffix s.input)

  -- header, number, complement and payload, which start the round
  pub record Opened (num : ℕ) (payload : List ℕ) (s : Rx) : Type 0 where
    pub on_line :
        s0.input
        ≡ byte (header_of (length payload))
          ∷ byte num
          ∷ byte (255 - num)
          ∷ (bytes_of payload ++ s.input)
    pub size : (length payload ≡ 128) ⊎ (length payload ≡ 1024)
    pub bytes_left : All IsLine s.input

  Opened-Framed :
      (crc_mode : Bool) (num : ℕ) (payload : List ℕ) (s s' : Rx)
      → Opened num payload s
      → s.input ≡ bytes_of (check_bytes svc crc_mode payload) ++ s'.input
      → Framed num payload s'
  Opened-Framed crc_mode num payload s s' o e = record {
    crc_mode = crc_mode;
    on_line = o.on_line ∙ rw e (simp (map-append, append_assoc));
    size = o.size;
  }

  receive_crc-Round :
      (num : ℕ) (payload : List ℕ) (s : Rx)
      → Quiet s0 s
      → Opened num payload s
      → (p : Pair) → pair (first s.input) (first (rest s.input)) ≡ p
      → Round svc accepts s0
          (receive_crc svc accepts num payload p (record s { io = after_read (after_read s.io) }))
  unfolding receive_crc
  receive_crc-Round num payload s q o (bytes hi lo) e =
      if-Round (join16 hi lo == modem_crc16 svc payload) _ _
        (λ c.
          receive_accept-Round num payload _ (two_on q)
            (Opened-Framed true num payload s _ o (intact ((==_iff _ _).0 c))))
        (λ _. reject-Round _ (two_on q))
    where
      two : s.input ≡ byte hi ∷ byte lo ∷ rest (rest s.input)
      two = script-pair s.input e

      two_bytes : All IsLine (byte hi ∷ byte lo ∷ rest (rest s.input))
      two_bytes = subst (All IsLine) two o.bytes_left

      intact :
          join16 hi lo ≡ modem_crc16 svc payload
          → s.input ≡ bytes_of (check_bytes svc true payload) ++ rest (rest s.input)
      intact c = let (high, low) = halves hi lo _ two_bytes.0 two_bytes.1.0 c in rw (high, low) two
  receive_crc-Round num payload s q o Pair.cancelled e = (q.same_stored, q.same_total)
  receive_crc-Round num payload s q o Pair.failed e = reject-Round _ (two_on q)

  receive_checksum-Round :
      (num : ℕ) (payload : List ℕ) (s : Rx)
      → Quiet s0 s
      → Opened num payload s
      → (r : Read) → first s.input ≡ r
      → Round svc accepts s0
          (receive_checksum svc accepts num payload r (record s { io = after_read s.io }))
  unfolding receive_checksum
  receive_checksum-Round num payload s q o (byte sum) e =
      if-Round (sum == modem_checksum8 (some payload)) _ _
        (λ c.
          receive_accept-Round num payload _ (one_on q) (
            Opened-Framed false num payload s _ o (rw (← (==_iff _ _).0 c) (first-byte s.input e))))
        (λ _. reject-Round _ (one_on q))
  receive_checksum-Round num payload s q o cancelled e = (q.same_stored, q.same_total)
  receive_checksum-Round num payload s q o failed e = reject-Round _ (one_on q)

  pub receive_check-Round :
      (num : ℕ) (payload : List ℕ) (s : Rx)
      → Quiet s0 s
      → Opened num payload s
      → Round svc accepts s0 (receive_check svc accepts num payload s)
  unfolding receive_check
  receive_check-Round num payload s q o =
      if-Round s.crc_mode _ _ (λ _. receive_crc-Round num payload s q o _ refl)
        (λ _. receive_checksum-Round num payload s q o _ refl)
