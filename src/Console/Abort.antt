-- ===== src/Console/Abort.antt =====
-- What the abort key does to the bytes that an engine reads.
use zephyr_zyx_modem.Base.{
  ℕ, Bool, if◌then◌else◌, ◌≡◌, ◌≢◌, ◌∙◌, ap, refl, sym, append-nil, ◌⊎◌, inl, inr, Bool-cases, true,
  false, Option, none, some, List, [], ◌∷◌, ◌++◌, map, ◌==◌, ℤ, pos, negsuc, arith,
}
use zephyr_zyx_modem.Io.{byte, cancelled, bytes_of}
use zephyr_zyx_modem.Console.{Settings}
use zephyr_zyx_modem.Console.Read.{
  Turn, await_byte, check_abort, console_read_byte, console_script, as_read, Calls, console_line,
}

-- A call that finds its byte in the ring buffer at once, before its timeout.
abbrev pub ready : ℕ → ℕ × List Turn
ready b = (1000, record { ring = some b; getchar = none; elapsed = 0 } ∷ [])

-- No byte is the abort key, and no two neighbours are both CAN; `cans` is how many CAN bytes come
-- right before.
pub data IsClean (key : ℕ) : ℕ → List ℕ → Type 0 where
  nothing : (cans : ℕ) → IsClean key cans []
  plain :
      (cans b : ℕ) (bytes : List ℕ)
      → b ≢ key
      → b ≢ 0x18
      → IsClean key 0 bytes
      → IsClean key cans (b ∷ bytes)
  one_can : (bytes : List ℕ) → 0x18 ≢ key → IsClean key 1 bytes → IsClean key 0 (0x18 ∷ bytes)

module _ (settings : Settings) (ring : settings.ring_buffer ≡ true) where
  -- what a call with a byte at hand comes to
  read_ready :
      (b cans : ℕ)
      → console_read_byte none settings 1000 (ready b).1 cans ≡ check_abort settings cans b
  unfolding console_read_byte await_byte
  read_ready b cans = rw ring refl

  script_ready :
      (b cans : ℕ) (calls : List (ℕ × List Turn)) (out : ℤ × (Option ℕ × ℕ))
      → check_abort settings cans b ≡ out
      → console_script settings cans (ready b ∷ calls)
        ≡ as_read out ∷ console_script settings out.1.1 calls
  unfolding console_script
  script_ready b cans calls out e =
      ap (λ (o : ℤ × (Option ℕ × ℕ)). as_read o ∷ console_script settings o.1.1 calls)
        (read_ready b cans ∙ e)

  module _ (watched : settings.abort_key ≡ true) where
    check_abort-plain :
        (b cans : ℕ)
        → b ≢ settings.abort_key_char
        → b ≢ 0x18
        → check_abort settings cans b ≡ (pos 0, (some b, 0))
    unfolding check_abort
    check_abort-plain b cans other no_can = rw (watched, not_key, not_can) refl
      where
        not_key : (b == settings.abort_key_char) ≡ false
        not_key = ground (arith, other)

        not_can : (b == 0x18) ≡ false
        not_can = ground (arith, no_can)

    check_abort-can :
        0x18 ≢ settings.abort_key_char → check_abort settings 0 0x18 ≡ (pos 0, (some 0x18, 1))
    unfolding check_abort
    check_abort-can other = rw (watched, not_key) refl
      where
        not_key : (0x18 == settings.abort_key_char) ≡ false
        not_key = ground (arith, other)

    check_abort-key :
        (cans : ℕ) → check_abort settings cans settings.abort_key_char ≡ (negsuc 1, (none, cans))
    unfolding check_abort
    check_abort-key cans = rw (watched, same) refl
      where
        same : (settings.abort_key_char == settings.abort_key_char) ≡ true
        same = ground arith

    script-clean :
        (cans : ℕ) (bytes : List ℕ) (calls : List (ℕ × List Turn))
        → IsClean settings.abort_key_char cans bytes
        → (cans' : ℕ) × (console_script settings cans (map ready bytes ++ calls)
            ≡ bytes_of bytes ++ console_script settings cans' calls)
    script-clean _ _ calls (nothing cans) = (cans, refl)
    script-clean _ _ calls (plain cans b bytes other no_can is) =
        let (cans', e) = script-clean 0 bytes calls is in
        (
          cans',
          script_ready b cans (map ready bytes ++ calls) _ (check_abort-plain b cans other no_can)
              ∙ ap (◌∷◌ (byte b)) e,
        )
    script-clean _ _ calls (one_can bytes other is) =
        let (cans', e) = script-clean 1 bytes calls is in
        (
          cans',
          script_ready 0x18 0 (map ready bytes ++ calls) _ (check_abort-can other)
              ∙ ap (◌∷◌ (byte 0x18)) e,
        )

-- Bytes that come ready in the ring buffer, one for each call.
abbrev pub arriving : ℕ → List ℕ → Calls
arriving cans bytes = record { can_count = cans; reads = map ready bytes }

-- The console lets bytes through: the ring buffer is on, and the abort key is off, or the bytes are
-- clean of it and of two CAN bytes in a row.
pub record Passes (settings : Settings) (cans : ℕ) (bytes : List ℕ) : Type 0 where
  pub ring : settings.ring_buffer ≡ true
  pub clean : (settings.abort_key ≡ false) ⊎ IsClean settings.abort_key_char cans bytes

script-unwatched :
    (settings : Settings) (cans : ℕ) (bytes : List ℕ)
    → settings.ring_buffer ≡ true
    → settings.abort_key ≡ false
    → console_script settings cans (map ready bytes) ≡ bytes_of bytes
unfolding console_script check_abort
script-unwatched settings cans [] ring off = refl
script-unwatched settings cans (b ∷ bytes) ring off =
    script_ready settings ring b cans (map ready bytes) (pos 0, (some b, cans)) (rw off refl)
    ∙ ap (◌∷◌ (byte b)) (script-unwatched settings cans bytes ring off)

script-Passes :
    (settings : Settings) (cans : ℕ) (bytes : List ℕ)
    → Passes settings cans bytes
    → console_script settings cans (map ready bytes) ≡ bytes_of bytes
unfolding console_script
script-Passes settings cans bytes is = elim is.clean [
  | inl off ↦ script-unwatched settings cans bytes is.ring off
  | inr clean ↦ elim (Bool-cases settings.abort_key) [
    | inr off ↦ script-unwatched settings cans bytes is.ring off
    | inl on ↦
        let (cans', e) = script-clean settings is.ring on cans bytes [] clean in
        ap (console_script settings cans) (sym (append-nil (map ready bytes)))
        ∙ e
        ∙ append-nil (bytes_of bytes)
  ]
]

pub console_line-arriving :
    (settings : Settings) (cans : ℕ) (bytes : List ℕ)
    → Passes settings cans bytes
    → console_line settings (arriving cans bytes)
      ≡ record { input = bytes_of bytes ++ []; sent = [] }
console_line-arriving settings cans bytes is =
    ap (λ rs. record { input = rs; sent = [] })
      (script-Passes settings cans bytes is ∙ sym (append-nil (bytes_of bytes)))

-- a test for bytes that are clean
unfoldable pub is_clean : ℕ → ℕ → List ℕ → Bool
is_clean key cans [] = true
is_clean key cans (b ∷ bytes) =
    let behind_can = is_clean key 1 bytes in
    let behind_other = is_clean key 0 bytes in
    if b == key
    then false
    else if b == 0x18
    then (if cans == 0 then behind_can else false)
    else behind_other

pub is_clean-IsClean :
    (key cans : ℕ) (bytes : List ℕ) → is_clean key cans bytes ≡ true → IsClean key cans bytes
unfolding is_clean
is_clean-IsClean key cans [] h = nothing cans
is_clean-IsClean key cans (b ∷ bytes) h = elim (Bool-cases (b == key)) [
  | inl e ↦ let wrong : false ≡ true = rw e at h in absurd (ground (arith, wrong))
  | inr e ↦ elim (Bool-cases (b == 0x18)) [
    | inr e' ↦
        plain cans b bytes (λ q. ground (arith, e, q)) (λ q. ground (arith, e', q))
          (is_clean-IsClean key 0 bytes (rw (e, e') at h))
    | inl e' ↦ elim (Bool-cases (cans == 0)) [
      | inr e'' ↦ let wrong : false ≡ true = rw (e, e', e'') at h in absurd (ground (arith, wrong))
      | inl e'' ↦
          let can : b ≡ 0x18 = ground (arith, e') in
          let first : cans ≡ 0 = ground (arith, e'') in
          rw (can, first)
            (one_can bytes (λ q. ground (arith, e, can, q))
              (is_clean-IsClean key 1 bytes (rw (e, e', e'') at h)))
    ]
  ]
]

-- With no channel bound, and the ring buffer and the abort key on, an engine reads bytes that come
-- without the abort key and without two CAN bytes in a row just as they come, and the next byte,
-- when it is the abort key, as a cancellation, whether it is payload or not.
pub console_script-abort :
    (settings : Settings) (bytes : List ℕ) (later : List (ℕ × List Turn))
    → settings.ring_buffer ≡ true
    → settings.abort_key ≡ true
    → IsClean settings.abort_key_char 0 bytes
    → (cans : ℕ) × (console_script settings 0
          (map ready bytes ++ (ready settings.abort_key_char ∷ later))
        ≡ bytes_of bytes ++ (cancelled ∷ console_script settings cans later))
console_script-abort settings bytes later ring watched is =
    let (cans, e) =
      script-clean settings ring watched 0 bytes (ready settings.abort_key_char ∷ later) is in
    (
      cans,
      e
          ∙ ap (λ rs. bytes_of bytes ++ rs)
              (script_ready settings ring settings.abort_key_char cans later _
                (check_abort-key settings ring watched cans)),
    )
