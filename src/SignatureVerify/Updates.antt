-- ===== src/SignatureVerify/Updates.antt =====
-- The running CRC is the CRC-32 of the image, however it is cut into chunks.
use zephyr_zyx_modem.Base.{
  ℕ, zero, suc, ◌/◌, ◌%◌, ◌^◌, ◌<◌, ◌≡◌, ◌∙◌, Bool-cases, inl, inr, false, Option, some, List, [],
  ◌∷◌, ◌++◌, All, length, length-append, ◌==◌, add_size, bit_xor, xor_fits, xor_zero, xor_assoc,
  xor_comm, xor_half, differ, differ_test, true, ◌+◌, ◌*◌, if◌then◌else◌, ap, refl, sym, arith, ℤ,
  pos, IsByte,
}
use native.Mathlib.Nat.{pow-suc}
use zephyr_zyx_modem.SignatureVerify.{
  SigVerify, crc_bit, crc_bits, crc_loop, signature_verify_init, signature_verify_update,
}

-- the context behind these chunks
unfoldable pub update_all : List (List ℕ) → Option SigVerify → Option SigVerify
update_all [] ctx = ctx
update_all (chunk ∷ chunks) ctx = update_all chunks (signature_verify_update ctx (some chunk)).1

unfoldable pub join : List (List ℕ) → List ℕ
join [] = []
join (chunk ∷ chunks) = chunk ++ join chunks

crc_loop-append : (a b : List ℕ) (crc : ℕ) → crc_loop (a ++ b) crc ≡ crc_loop b (crc_loop a crc)
unfolding crc_loop
crc_loop-append [] b crc = refl
crc_loop-append (x ∷ a) b crc = crc_loop-append a b (crc_bits 8 (bit_xor crc x))

-- One update by two chunks together is two updates.
update-append :
    (ctx : SigVerify) (a b : List ℕ)
    → signature_verify_update (some ctx) (some (a ++ b))
      ≡ signature_verify_update (signature_verify_update (some ctx) (some a)).1 (some b)
unfolding signature_verify_update
update-append ctx a b =
    ap
      (λ crc. (
        pos 0,
        some (record ctx {
          current_crc32 = crc;
          total_bytes = add_size ctx.total_bytes (length (a ++ b));
        }),
      ))
      (crc_loop-append a b ctx.current_crc32)
    ∙ ap
        (λ n. (
          pos 0,
          some (record ctx {
            current_crc32 = crc_loop b (crc_loop a ctx.current_crc32);
            total_bytes = n;
          }),
        ))
        counted
  where
    counted :
        add_size ctx.total_bytes (length (a ++ b))
        ≡ add_size (add_size ctx.total_bytes (length a)) (length b)
    counted = omega (arith, length-append a b)

crc_bit_fits : (crc : ℕ) → crc < 2 ^ 32 → crc_bit crc < 2 ^ 32
crc_bit_fits crc h = elim (Bool-cases (crc % 2 == 1)) [
  | inl e ↦ rw e (xor_fits 32 (crc / 2) 0xEDB8_8320 (omega (arith, h)) (omega arith))
  | inr e ↦ rw e (omega (arith, h))
]

crc_bits_fits : (k crc : ℕ) → crc < 2 ^ 32 → crc_bits k crc < 2 ^ 32
unfolding crc_bits
crc_bits_fits zero crc h = h
crc_bits_fits (suc k) crc h = crc_bits_fits k (crc_bit crc) (crc_bit_fits crc h)

crc_loop_fits :
    (chunk : List ℕ) (crc : ℕ) → All IsByte chunk → crc < 2 ^ 32 → crc_loop chunk crc < 2 ^ 32
unfolding crc_loop
crc_loop_fits [] crc is h = h
crc_loop_fits (b ∷ chunk) crc is h =
    crc_loop_fits chunk (crc_bits 8 (bit_xor crc b)) is.1
      (crc_bits_fits 8 (bit_xor crc b) (xor_fits 32 crc b h (omega (arith, is.0))))

-- Behind the chunks the context is that of one update by all their bytes.
update_all-join :
    (ctx : SigVerify) (chunks : List (List ℕ))
    → ctx.total_bytes < 2 ^ 64
    → update_all chunks (some ctx) ≡ (signature_verify_update (some ctx) (some (join chunks))).1
unfolding update_all join signature_verify_update crc_loop
update_all-join ctx [] h = ap (λ n. some (record ctx { total_bytes = n })) unchanged
  where
    unchanged : ctx.total_bytes ≡ add_size ctx.total_bytes 0
    unchanged = omega (arith, h)
update_all-join ctx (chunk ∷ chunks) h =
    update_all-join
      (record ctx {
        current_crc32 = crc_loop chunk ctx.current_crc32;
        total_bytes = add_size ctx.total_bytes (length chunk);
      })
      chunks (omega arith)
    ∙ sym (ap (λ (r : ℤ × Option SigVerify). r.1) (update-append ctx chunk (join chunks)))

-- The CRC-32 of IEEE 802.3 as a shift register: one bit of the message at a time, the lowest bit of
-- each byte first. The generator polynomial is 0x04C11DB7; the register holds the coefficient of
-- x^31 in its lowest bit, so the polynomial stands in it with its bits in reverse order.
unfoldable pub reversed : ℕ → ℕ → ℕ
reversed zero n = 0
reversed (suc k) n = n % 2 * 2 ^ k + reversed k (n / 2)

unfoldable pub shift_bit : ℕ → ℕ → ℕ
shift_bit register bit =
    if register % 2 == bit then register / 2 else bit_xor (register / 2) (reversed 32 0x04C1_1DB7)

unfoldable pub lowest_first : ℕ → ℕ → List ℕ
lowest_first zero n = []
lowest_first (suc k) n = (n % 2) ∷ lowest_first k (n / 2)

unfoldable pub message_bits : List ℕ → List ℕ
message_bits [] = []
message_bits (b ∷ bs) = lowest_first 8 b ++ message_bits bs

unfoldable pub shift_register : List ℕ → ℕ → ℕ
shift_register [] register = register
shift_register (bit ∷ bits) register = shift_register bits (shift_bit register bit)

shift_register-append :
    (a b : List ℕ) (register : ℕ)
    → shift_register (a ++ b) register ≡ shift_register b (shift_register a register)
unfolding shift_register
shift_register-append [] b register = refl
shift_register-append (x ∷ a) b register = shift_register-append a b (shift_bit register x)

-- the polynomial of the code
reversed_polynomial : reversed 32 0x04C1_1DB7 ≡ 0xEDB8_8320
unfolding reversed
reversed_polynomial = refl

-- A step of the code on a register that the rest of a byte is already put into.
crc_bit-shift_bit : (crc b : ℕ) → crc_bit (bit_xor crc b) ≡ bit_xor (shift_bit crc (b % 2)) (b / 2)
unfolding shift_bit
crc_bit-shift_bit crc b =
    let half = xor_half crc b in
    let digits = differ_test (crc % 2) (b % 2) (omega arith) (omega arith) in
    rw (half.1, half.0, reversed_polynomial)
      (elim (Bool-cases (crc % 2 == b % 2)) [
        | inl same ↦
            let e : (differ (crc % 2) (b % 2) == 1) ≡ false = digits.0 same in rw (e, same) refl
        | inr apart ↦
            let e : (differ (crc % 2) (b % 2) == 1) ≡ true = digits.1 apart in
            rw (e, apart)
              (xor_assoc (crc / 2) (b / 2) 0xEDB8_8320
                ∙ ap (bit_xor (crc / 2)) (xor_comm (b / 2) 0xEDB8_8320)
                ∙ sym (xor_assoc (crc / 2) 0xEDB8_8320 (b / 2)))
      ])

crc_bits-shift_register :
    (k crc b : ℕ) → b < 2 ^ k → crc_bits k (bit_xor crc b) ≡ shift_register (lowest_first k b) crc
unfolding crc_bits shift_register lowest_first
crc_bits-shift_register zero crc b h = ap (bit_xor crc) b_zero ∙ xor_zero crc
  where
    b_zero : b ≡ 0
    b_zero = omega (arith, h)
crc_bits-shift_register (suc k) crc b h =
    ap (crc_bits k) (crc_bit-shift_bit crc b)
    ∙ crc_bits-shift_register k (shift_bit crc (b % 2)) (b / 2) (omega (arith, h, pow-suc 2 k))

crc_loop-shift_register :
    (chunk : List ℕ) (crc : ℕ)
    → All IsByte chunk
    → crc_loop chunk crc ≡ shift_register (message_bits chunk) crc
unfolding crc_loop shift_register message_bits
crc_loop-shift_register [] crc are = refl
crc_loop-shift_register (b ∷ chunk) crc are =
    crc_loop-shift_register chunk (crc_bits 8 (bit_xor crc b)) are.1
    ∙ ap (shift_register (message_bits chunk))
        (crc_bits-shift_register 8 crc b (omega (arith, are.0)))
    ∙ sym (shift_register-append (lowest_first 8 b) (message_bits chunk) crc)

-- From `signature_verify_init`, updates by any chunks of bytes leave the context that one update by
-- all their bytes leaves. Its CRC is what the shift register of the CRC-32 of IEEE 802.3, with the
-- polynomial 0x04C11DB7 and started from all ones, holds behind the bits of all the bytes, and it is
-- a 32-bit word.
pub signature_verify-join :
    (ctx : SigVerify) (chunks : List (List ℕ))
    → All IsByte (join chunks)
    → (ctx' : SigVerify) × ((update_all chunks (signature_verify_init (some ctx)).1 ≡ some ctx')
        × ((signature_verify_update (signature_verify_init (some ctx)).1 (some (join chunks))
              ≡ (pos 0, some ctx'))
            × ((ctx'.current_crc32 ≡ shift_register (message_bits (join chunks)) 0xFFFF_FFFF)
                × (ctx'.current_crc32 < 2 ^ 32))))
unfolding signature_verify_update
signature_verify-join ctx chunks are =
    let started : SigVerify = record {
      current_crc32 = 0xFFFF_FFFF;
      total_bytes = 0;
      verified = false;
    } in
    (
      _,
      (
        update_all-join started chunks (omega arith),
        (
          refl,
          (
            crc_loop-shift_register (join chunks) 0xFFFF_FFFF are,
            crc_loop_fits (join chunks) 0xFFFF_FFFF are (omega arith),
          ),
        ),
      ),
    )
