-- ===== src/SignatureVerify/Examples.antt =====
-- An image in two chunks.
use zephyr_zyx_modem.Base.{◌^◌, ◌<◌, ◌≡◌, false, some, [], ◌∷◌, pos, arith}
use zephyr_zyx_modem.SignatureVerify.{SigVerify, signature_verify_init, signature_verify_update}
use zephyr_zyx_modem.SignatureVerify.Updates.{
  shift_register, message_bits, update_all, join, signature_verify-join,
}

abbrev zeroed : SigVerify
zeroed = record { current_crc32 = 0; total_bytes = 0; verified = false }

signature_verify-join_example :
    (ctx' : SigVerify) × ((update_all
          ((1 ∷ 2 ∷ []) ∷ (3 ∷ []) ∷ [])
          (signature_verify_init (some zeroed)).1
        ≡ some ctx')
      × ((signature_verify_update
              (signature_verify_init (some zeroed)).1
              (some (join ((1 ∷ 2 ∷ []) ∷ (3 ∷ []) ∷ [])))
            ≡ (pos 0, some ctx'))
          × ((ctx'.current_crc32
                ≡ shift_register (message_bits (join ((1 ∷ 2 ∷ []) ∷ (3 ∷ []) ∷ []))) 0xFFFF_FFFF)
              × (ctx'.current_crc32 < 2 ^ 32))))
unfolding join
signature_verify-join_example =
    signature_verify-join zeroed ((1 ∷ 2 ∷ []) ∷ (3 ∷ []) ∷ [])
      (omega arith, (omega arith, (omega arith, tt)))
