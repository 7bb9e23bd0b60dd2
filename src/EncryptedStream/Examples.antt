-- ===== src/EncryptedStream/Examples.antt =====
-- Two bytes under a short key.
use zephyr_zyx_modem.Base.{ℕ, some, List, [], ◌∷◌, ◌≡◌, pos, false, length, arith}
use zephyr_zyx_modem.EncryptedStream.{
  EncryptedStream, encrypted_stream_init, encrypted_stream_encrypt, encrypted_stream_decrypt,
}
use zephyr_zyx_modem.EncryptedStream.Decrypt.{encrypted_stream_decrypt-encrypt}

abbrev keyed : EncryptedStream
keyed =
    (encrypted_stream_init (record { key = []; nonce = []; active = false })
      (some (0x55 ∷ 0xAA ∷ []))).1

encrypted_stream_decrypt-encrypt_example :
    (sealed : List ℕ) × ((encrypted_stream_encrypt keyed (some (1 ∷ 2 ∷ [])) 16
        ≡ (pos 0, some sealed))
      × ((length sealed ≡ 2)
          × (encrypted_stream_decrypt keyed (some sealed) 2 ≡ (pos 0, some (1 ∷ 2 ∷ [])))))
encrypted_stream_decrypt-encrypt_example =
    encrypted_stream_decrypt-encrypt keyed (1 ∷ 2 ∷ []) 16 2 (omega arith) (omega arith)
