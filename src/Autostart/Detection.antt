-- ===== src/Autostart/Detection.antt =====
-- What the auto-start detector answers for a sequence of bytes.
use zephyr_zyx_modem.Base.{
  ℕ, ◌+◌, ◌-◌, ◌%◌, ◌^◌, ◌<◌, ◌≡◌, ◌≢◌, ◌∙◌, refl, ap, sym, Bool, false, ◌&&◌, inl, inr, Bool-cases,
  List, [], ◌∷◌, length, get_or, set, length-set, get_or-set_same, get_or-set_other, leb, ◌==◌,
  if◌then◌else◌, arith,
}
use zephyr_zyx_modem.Autostart.{Detector, initial, is_rz_from, store, console_modem_check_autostart}

-- the detector behind these bytes, the newest first
unfoldable pub after : List ℕ → Detector
after [] = initial
after (b ∷ earlier) = (console_modem_check_autostart b (after earlier)).1

-- the newest three bytes are `rz` and a carriage return
abbrev pub ends_in_rz : List ℕ → Bool
ends_in_rz bytes =
    (get_or bytes 2 0 == b'r') && ((get_or bytes 1 0 == b'z') && (get_or bytes 0 0 == 13))

-- The buffer holds the newest two of the bytes, where the index says.
record Holds (bytes : List ℕ) (d : Detector) : Type 0 where
  full : length d.autostart_buf ≡ 8
  counted : d.autostart_idx ≡ length bytes
  newest : get_or d.autostart_buf ((d.autostart_idx + 7) % 8) 0 ≡ get_or bytes 0 0
  second : get_or d.autostart_buf ((d.autostart_idx + 6) % 8) 0 ≡ get_or bytes 1 0

module _ (buf : List ℕ) (i b : ℕ) (full : length buf ≡ 8) where
  stored : get_or (set buf (i % 8) b) (i % 8) 0 ≡ b
  stored = get_or-set_same buf (i % 8) b 0 (omega (arith, full))

  kept : (j : ℕ) → (i % 8) ≢ j → get_or (set buf (i % 8) b) j 0 ≡ get_or buf j 0
  kept j h = get_or-set_other buf (i % 8) j b 0 h

ends_in_rz-short : (bs : List ℕ) → leb 3 (length bs) ≡ false → ends_in_rz bs ≡ false
ends_in_rz-short [] e = refl
ends_in_rz-short (_ ∷ []) e = refl
ends_in_rz-short (_ ∷ (_ ∷ [])) e = refl
ends_in_rz-short (_ ∷ (_ ∷ (_ ∷ bs))) e = absurd (ground (arith, e))

is_rz_from-reads :
    (buf : List ℕ) (i x y z : ℕ)
    → get_or buf i 0 ≡ x
    → get_or buf ((i + 1) % 8) 0 ≡ y
    → get_or buf ((i + 2) % 8) 0 ≡ z
    → is_rz_from buf i ≡ (x == b'r') && ((y == b'z') && (z == 13))
unfolding is_rz_from
is_rz_from-reads buf i x y z h k l = rw (h, k, l) refl

-- where the newest three bytes stand behind a byte
module _ (bytes : List ℕ) (d : Detector) (b : ℕ) (is : Holds bytes d)
    (small : length bytes + 1 < 2 ^ 64) where
  at :
      (j : ℕ) (k : ℕ) (v : ℕ)
      → j ≡ k
      → get_or (store b d).autostart_buf k 0 ≡ v
      → get_or (store b d).autostart_buf j 0 ≡ v
  at j k v e h = ap (λ i. get_or (store b d).autostart_buf i 0) e ∙ h

  here : get_or (store b d).autostart_buf (d.autostart_idx % 8) 0 ≡ b
  unfolding store
  here = stored d.autostart_buf d.autostart_idx b is.full

  before : get_or (store b d).autostart_buf ((d.autostart_idx + 7) % 8) 0 ≡ get_or bytes 0 0
  unfolding store
  before = kept d.autostart_buf d.autostart_idx b is.full _ (λ e. omega (arith, e)) ∙ is.newest

  before_that : get_or (store b d).autostart_buf ((d.autostart_idx + 6) % 8) 0 ≡ get_or bytes 1 0
  unfolding store
  before_that = kept d.autostart_buf d.autostart_idx b is.full _ (λ e. omega (arith, e)) ∙ is.second

  idx : (store b d).autostart_idx ≡ length (b ∷ bytes)
  unfolding store
  idx = omega (arith, is.counted)

  length-store : length (store b d).autostart_buf ≡ 8
  unfolding store
  length-store = length-set d.autostart_buf _ b ∙ is.full

  store-Holds : Holds (b ∷ bytes) (store b d)
  store-Holds = record {
    full = length-store;
    counted = idx;
    newest = at _ _ _ (omega (arith, idx, is.counted)) here;
    second = at _ _ _ (omega (arith, idx, is.counted)) before;
  }

  -- The test reads the newest three bytes.
  is_rz_from-store :
      2 < length (b ∷ bytes)
      → is_rz_from (store b d).autostart_buf (((store b d).autostart_idx - 3) % 8)
        ≡ ends_in_rz (b ∷ bytes)
  is_rz_from-store long =
      is_rz_from-reads (store b d).autostart_buf _ _ _ _
        (at _ _ _ (omega (arith, idx, is.counted)) before_that)
        (at _ _ _ (omega (arith, idx, is.counted)) before)
        (at _ _ _ (omega (arith, idx, is.counted)) here)

  -- A byte's answer, and the detector it leaves.
  check-Holds :
      ((console_modem_check_autostart b d).0 ≡ ends_in_rz (b ∷ bytes))
      × Holds (b ∷ bytes) (console_modem_check_autostart b d).1
  unfolding console_modem_check_autostart
  check-Holds = (answer, store-Holds)
    where
      answer :
          (if leb 3 (store b d).autostart_idx
            then is_rz_from (store b d).autostart_buf (((store b d).autostart_idx - 3) % 8)
            else false)
          ≡ ends_in_rz (b ∷ bytes)
      answer = elim (Bool-cases (leb 3 (store b d).autostart_idx)) [
        | inl e ↦ rw e (is_rz_from-store (ground (arith, e, idx)))
        | inr e ↦ rw e (sym (ends_in_rz-short (b ∷ bytes) (ap (leb 3) (sym idx) ∙ e)))
      ]

initial-Holds : Holds [] initial
initial-Holds = record { full = refl; counted = refl; newest = refl; second = refl }

after-Holds : (bytes : List ℕ) → length bytes < 2 ^ 64 → Holds bytes (after bytes)
unfolding after
after-Holds [] h = initial-Holds
after-Holds (b ∷ bytes) h =
    (check-Holds bytes (after bytes) b (after-Holds bytes (omega arith)) (omega (arith, h))).1

-- Behind any bytes, fewer than 2^64 - 1 of them, the detector answers true for a byte exactly when
-- it and the two before it are `rz` and a carriage return. (`earlier` has the newest byte first.)
pub check_autostart-after :
    (b : ℕ) (earlier : List ℕ)
    → length earlier + 1 < 2 ^ 64
    → (console_modem_check_autostart b (after earlier)).0 ≡ ends_in_rz (b ∷ earlier)
check_autostart-after b earlier h =
    (check-Holds earlier (after earlier) b (after-Holds earlier (omega arith)) h).0
