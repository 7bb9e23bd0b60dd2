-- ===== src/SignatureVerify.antt =====
-- include/modem/signature_verify.h and src/signature_verify.c: the running CRC of an image, and the
-- step that marks it as verified.
pub mod Updates
mod Examples
use zephyr_zyx_modem.Base.{
  ℕ, zero, suc, ◌+◌, ◌/◌, ◌%◌, ◌^◌, Bool, true, false, Option, none, some, List, [], ◌∷◌, length,
  ◌==◌, if◌then◌else◌, add_size, bit_xor, ℤ, pos, negsuc,
}

pub record SigVerify : Type 0 where
  pub current_crc32 : ℕ
  pub total_bytes : ℕ
  pub verified : Bool

-- `none` is the NULL context.
abbrev pub signature_verify_init : Option SigVerify → ℤ × Option SigVerify
signature_verify_init none = (negsuc 0, none)
signature_verify_init (some ctx) =
    (pos 0, some (record { current_crc32 = 0xFFFF_FFFF; total_bytes = 0; verified = false }))

-- one turn of the inner loop: `crc & 1` is the lowest digit, `crc >> 1` the quotient by 2
abbrev pub crc_bit : ℕ → ℕ
crc_bit crc = if crc % 2 == 1 then bit_xor (crc / 2) 0xEDB8_8320 else crc / 2

unfoldable pub crc_bits : ℕ → ℕ → ℕ
crc_bits zero crc = crc
crc_bits (suc k) crc = crc_bits k (crc_bit crc)

unfoldable pub crc_loop : List ℕ → ℕ → ℕ
crc_loop [] crc = crc
crc_loop (b ∷ chunk) crc = crc_loop chunk (crc_bits 8 (bit_xor crc b))

-- `none` for a NULL context or chunk
unfoldable pub signature_verify_update : Option SigVerify → Option (List ℕ) → ℤ × Option SigVerify
signature_verify_update none chunk = (negsuc 0, none)
signature_verify_update (some ctx) none = (negsuc 0, some ctx)
signature_verify_update (some ctx) (some chunk) = (
  pos 0,
  some (record ctx {
    current_crc32 = crc_loop chunk ctx.current_crc32;
    total_bytes = add_size ctx.total_bytes (length chunk);
  }),
)

-- The signature's bytes and the public key are not looked at.
unfoldable pub signature_verify_final :
    Option SigVerify → Option (List ℕ) → Option (List ℕ) → ℤ × Option SigVerify
signature_verify_final none signature public_key = (negsuc 0, none)
signature_verify_final (some ctx) none public_key = (negsuc 0, some ctx)
signature_verify_final (some ctx) (some signature) public_key =
    if length signature == 0
    then (negsuc 0, some ctx)
    else (pos 0, some (record ctx { verified = true }))
