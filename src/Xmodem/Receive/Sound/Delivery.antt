-- ===== src/Xmodem/Receive/Sound/Delivery.antt =====
-- What `data_cb` has been given when `xmodem_receive` returns, whatever arrived on the line.
use zephyr_zyx_modem.Base.{
  ℕ, zero, suc, ◌+◌, ◌%◌, ◌^◌, ◌<◌, ◌≡◌, refl, sym, subst, ◌∙◌, ◌⊎◌, inl, inr, Bool, Bool-cases,
  Option, none, some, List, [], ◌∷◌, ◌++◌, append_assoc, append-nil, arith, length, All,
}
use mathlib.Core.Option.{some-injective}
use zephyr_zyx_modem.Io.{Read, Io, bytes_of}
use zephyr_zyx_modem.Io.Laws.{Suffix, here, past, Suffix-append, IsLine, Suffix-IsLine}
use zephyr_zyx_modem.Crc.{CrcService}
use zephyr_zyx_modem.Xmodem.{Config, Block, Status, ok, Callbacks, usable, config_or_default}
use zephyr_zyx_modem.Xmodem.Frame.{frame, IsNumbered, total_length}
use zephyr_zyx_modem.Xmodem.Receive.{
  Rx, Next, continue, stop, receive_loop, receive_start, receive_fuel, Result, total_out, finish,
  xmodem_receive,
}
use zephyr_zyx_modem.Xmodem.Receive.Transfer.{Takes}
use zephyr_zyx_modem.Xmodem.Receive.Sound.{Quiet, Stored, Round}
use zephyr_zyx_modem.Xmodem.Receive.Sound.Header.{receive_round-Round}

-- The line carries the intact frames of these blocks, in this order, with anything in between.
pub data Carried (svc : CrcService) : List Block → List Read → Type 0 where
  nothing : {rs : List Read} → Carried svc [] rs
  noise :
      {bs : List Block} {rs : List Read} (r : Read) → Carried svc bs rs → Carried svc bs (r ∷ rs)
  framed :
      {bs : List Block} {rs later : List Read} (crc_mode : Bool) (b : Block)
      → rs ≡ bytes_of (frame svc crc_mode b) ++ later
      → Carried svc bs later
      → Carried svc (b ∷ bs) rs

abbrev pub IsSized : Block → Type 0
IsSized b = (length b.payload ≡ 128) ⊎ (length b.payload ≡ 1024)

Carried-Suffix :
    {svc : CrcService} {bs : List Block} {later rs : List Read}
    → Suffix later rs
    → Carried svc bs later
    → Carried svc bs rs
Carried-Suffix here c = c
Carried-Suffix (past r s) c = noise r (Carried-Suffix s c)

module _ (svc : CrcService) (accepts : List Block → Block → Bool) where
  -- what the loop adds to the blocks stored, from `s` to its end
  record Adds (n : ℕ) (s s' : Rx) (new : List Block) : Type 0 where
    stored : s'.stored ≡ s.stored ++ new
    carried : Carried svc new s.input
    numbered : IsNumbered n new
    sized : All IsSized new
    takes : Takes accepts s.stored new
    total : s'.total_bytes ≡ (s.total_bytes + total_length new) % 2 ^ 64

  Adds-stop :
      (n : ℕ) (s s' : Rx)
      → s.total_bytes < 2 ^ 64
      → s'.stored ≡ s.stored
      → s'.total_bytes ≡ s.total_bytes
      → Adds n s s' []
  Adds-stop n s s' t e b = record {
    stored = e ∙ sym (append-nil s.stored);
    carried = nothing;
    numbered = tt;
    sized = tt;
    takes = tt;
    total = omega arith;
  }

  Adds-Quiet :
      (n : ℕ) (s t s' : Rx) (new : List Block) → Quiet s t → Adds n t s' new → Adds n s s' new
  Adds-Quiet n s t s' new q a = record {
    stored = rw (← q.same_stored) a.stored;
    carried = Carried-Suffix q.read_on a.carried;
    numbered = a.numbered;
    sized = a.sized;
    takes = rw (← q.same_stored) a.takes;
    total = rw (← q.same_total) a.total;
  }

  Adds-Stored :
      (n : ℕ) (s t s' : Rx) (b : Block) (new : List Block)
      → s.expected_block ≡ n % 256
      → Stored svc accepts s t b
      → Adds (n + 1) t s' new
      → Adds n s s' (b ∷ new)
  Adds-Stored n s t s' b new x h a = record {
    stored = a.stored ∙ rw h.stored (append_assoc s.stored (b ∷ []) new);
    carried = framed h.crc_mode b h.on_line a.carried;
    numbered = (h.expected ∙ x, a.numbered);
    sized = (h.size, a.sized);
    takes = (h.accepted, rw (← h.stored) a.takes);
    total = omega (arith, a.total, h.total);
  }

  receive_loop-Adds :
      (fuel : ℕ) (cfg : Config) (n : ℕ) (s : Rx) (st : Status) (s' : Rx)
      → All IsLine s.input
      → s.expected_block ≡ n % 256
      → s.total_bytes < 2 ^ 64
      → receive_loop svc accepts fuel cfg s ≡ some (st, s')
      → (new : List Block) × Adds n s s' new
  unfolding receive_loop
  receive_loop-Adds zero cfg n s st s' l x t e = cc
  receive_loop-Adds (suc fuel) cfg n s st s' l x t e =
      go _ (receive_round-Round svc accepts s cfg l) e (λ m u. receive_loop-Adds fuel cfg m u st s')
    where
      go :
          (next : Next)
          → Round svc accepts s next
          → ◌≡◌ {A = Option (Status × Rx)}
              (elim next [
                | continue t ↦ receive_loop svc accepts fuel cfg t
                | stop st s' ↦ some (st, s')
              ])
              (some (st, s'))
          → ((m : ℕ) (t : Rx)
              → All IsLine t.input
              → t.expected_block ≡ m % 256
              → t.total_bytes < 2 ^ 64
              → receive_loop svc accepts fuel cfg t ≡ some (st, s')
              → (new : List Block) × Adds m t s' new)
          → (new : List Block) × Adds n s s' new
      go (continue u) (inl q) e ih =
          let (new, a) =
            ih n u (Suffix-IsLine q.read_on l) (q.same_expected ∙ x) (rw q.same_total t) e in
          (new, Adds-Quiet n s u s' new q a)
      go (continue u) (inr (b, h)) e ih =
          let (new, a) =
            ih (n + 1) u
              (Suffix-IsLine (Suffix-append (bytes_of (frame svc h.crc_mode b)))
                (subst (All IsLine) h.on_line l))
              (omega (arith, h.next_expected)) (rw h.total (omega arith)) e in
          (b ∷ new, Adds-Stored n s u s' b new x h a)
      go (stop st' u) h e ih =
          let same : u ≡ s' = ground arith in ([], rw same at (Adds-stop n s u t h.0 h.1))

  -- A result of the receiver on this script: the intact frames of the received blocks stand on the
  -- line, in this order; they are numbered 1, 2, ... modulo 256 and have 128 or 1024 bytes; `data_cb`
  -- accepted each behind those before it; a total is the sum of their lengths in `size_t`.
  pub record IsSound (script : List Read) (r : Result) : Type 0 where
    pub carried : Carried svc r.received script
    pub numbered : IsNumbered 1 r.received
    pub sized : All IsSized r.received
    pub takes : Takes accepts [] r.received
    pub total :
        (r.total_received ≡ none) ⊎ (r.total_received ≡ some (total_length r.received % 2 ^ 64))

  total_out-cases : (st : Status) (n : ℕ) → (total_out st n ≡ none) ⊎ (total_out st n ≡ some n)
  total_out-cases ok n = inr refl
  total_out-cases _ n = inl refl

  finish-IsSound :
      (cfg : Config) (io : Io) (st : Status) (s : Rx)
      → All IsLine io.input
      → receive_loop svc accepts (receive_fuel io) cfg (receive_start cfg io) ≡ some (st, s)
      → IsSound io.input (finish st s)
  unfolding receive_start
  finish-IsSound cfg io st s l e =
      let (new, a) =
        receive_loop-Adds (receive_fuel io) cfg 1 (receive_start cfg io) st s l refl (omega arith)
          e in
      let total : s.total_bytes ≡ total_length new % 2 ^ 64 = omega (arith, a.total) in
      record {
        carried = rw a.stored a.carried;
        numbered = rw a.stored a.numbered;
        sized = rw a.stored a.sized;
        takes = rw a.stored a.takes;
        total = rw (a.stored, ← total) (total_out-cases st s.total_bytes);
      }

  -- Whatever arrives on the line, if `xmodem_receive` returns, then its result is sound: `data_cb` took
  -- only blocks whose intact frames were on the line, in order and with the right numbers, and a
  -- returned total is the sum of their lengths.
  pub xmodem_receive-IsSound :
      (callbacks : Option Callbacks) (config : Option Config) (io : Io) (r : Result)
      → All IsLine io.input
      → xmodem_receive svc accepts callbacks config io ≡ some r
      → IsSound io.input r
  unfolding xmodem_receive
  xmodem_receive-IsSound callbacks config io r l e = elim (Bool-cases (usable callbacks)) [
    | inl u ↦ go _ refl (rw u at e)
    | inr u ↦
        subst (IsSound io.input) (some-injective _ _ (rw u at e))
          (record { carried = nothing; numbered = tt; sized = tt; takes = tt; total = inl refl })
  ]
    where
      cfg : Config
      cfg = config_or_default config

      go :
          (o : Option (Status × Rx))
          → receive_loop svc accepts (receive_fuel io) cfg (receive_start cfg io) ≡ o
          → ◌≡◌ {A = Option Result}
              (elim o [ none ↦ none | some (st, s) ↦ some (finish st s) ])
              (some r)
          → IsSound io.input r
      go none ran h = cc
      go (some (st, s)) ran h =
          subst (IsSound io.input) (some-injective _ _ h) (finish-IsSound cfg io st s l ran)
