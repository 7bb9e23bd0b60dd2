-- ===== src/EncryptedStream/Decrypt.antt =====
-- What is encrypted comes back.
use zephyr_zyx_modem.Base.{
  take_whole, ℕ, suc, ◌+◌, ◌%◌, ◌≤◌, ◌≡◌, ◌∙◌, some, List, [], ◌∷◌, length, take, get_or, xor_twice,
  pos, ap, refl, arith,
}
use zephyr_zyx_modem.EncryptedStream.{
  EncryptedStream, smaller, key_size, encrypt_loop, decrypt_loop, encrypted_stream_encrypt,
  encrypted_stream_decrypt,
}

decrypt_loop-encrypt_loop :
    (key : List ℕ) (i : ℕ) (input : List ℕ) → decrypt_loop key i (encrypt_loop key i input) ≡ input
unfolding decrypt_loop encrypt_loop
decrypt_loop-encrypt_loop key i [] = refl
decrypt_loop-encrypt_loop key i (b ∷ input) =
    ap (λ c. c ∷ decrypt_loop key (i + 1) (encrypt_loop key (i + 1) input))
      (xor_twice b (get_or key (i % key_size) 0))
    ∙ ap (◌∷◌ b) (decrypt_loop-encrypt_loop key (i + 1) input)

length-encrypt_loop :
    (key : List ℕ) (i : ℕ) (input : List ℕ) → length (encrypt_loop key i input) ≡ length input
unfolding encrypt_loop
length-encrypt_loop key i [] = refl
length-encrypt_loop key i (b ∷ input) = ap suc (length-encrypt_loop key (i + 1) input)

-- A buffer that fits the capacity is taken whole.
take-smaller :
    (xs : List ℕ) (capacity : ℕ)
    → length xs ≤ capacity
    → take (smaller (length xs) capacity) xs ≡ xs
take-smaller xs capacity h = ap (λ n. take n xs) whole ∙ take_whole xs
  where
    whole : smaller (length xs) capacity ≡ length xs
    whole = ground (arith, h)

-- A payload of any bytes that fits both capacities is encrypted to as many bytes, and those are
-- decrypted to the payload, under whatever key the context holds.
pub encrypted_stream_decrypt-encrypt :
    (ctx : EncryptedStream) (payload : List ℕ) (capacity capacity' : ℕ)
    → length payload ≤ capacity
    → length payload ≤ capacity'
    → (sealed : List ℕ) × ((encrypted_stream_encrypt ctx (some payload) capacity
          ≡ (pos 0, some sealed))
        × ((length sealed ≡ length payload)
            × (encrypted_stream_decrypt ctx (some sealed) capacity' ≡ (pos 0, some payload))))
unfolding encrypted_stream_encrypt encrypted_stream_decrypt
encrypted_stream_decrypt-encrypt ctx payload capacity capacity' h k =
    let sealed = encrypt_loop ctx.key 0 payload in
    let same : length sealed ≡ length payload = length-encrypt_loop ctx.key 0 payload in
    (
      sealed,
      (
        ap (λ bs. (pos 0, some (encrypt_loop ctx.key 0 bs))) (take-smaller payload capacity h),
        (
          same,
          ap (λ bs. (pos 0, some (decrypt_loop ctx.key 0 bs)))
                (take-smaller sealed capacity' (omega (arith, same, k)))
              ∙ ap (λ bs. (pos 0, some bs)) (decrypt_loop-encrypt_loop ctx.key 0 payload),
        ),
      ),
    )
