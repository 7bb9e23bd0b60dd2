-- ===== src/EncryptedStream.antt =====
-- include/modem/encrypted_stream.h and src/encrypted_stream.c: the envelope around a payload.
-- The context and the two output pointers are not NULL.
pub mod Decrypt
mod Examples
use zephyr_zyx_modem.Base.{
  ℕ, zero, suc, ◌+◌, ◌-◌, ◌%◌, Bool, true, Option, none, some, List, [], ◌∷◌, ◌++◌, length, take,
  replicate, get_or, ltb, ◌==◌, if◌then◌else◌, bit_xor, ℤ, pos, negsuc,
}

pub record EncryptedStream : Type 0 where
  pub key : List ℕ
  pub nonce : List ℕ
  pub active : Bool

-- `sizeof(ctx->key)` and `sizeof(ctx->nonce)`
abbrev pub key_size : ℕ
key_size = 32

abbrev pub nonce_size : ℕ
nonce_size = 12

-- `copy_len` and `copy_key`
abbrev pub smaller : ℕ → ℕ → ℕ
smaller a b = if ltb a b then a else b

-- `none` is the NULL key; on failure the context is left as it is.
unfoldable pub encrypted_stream_init : EncryptedStream → Option (List ℕ) → ℤ × EncryptedStream
encrypted_stream_init ctx none = (negsuc 0, ctx)
encrypted_stream_init ctx (some key) =
    let copy_key = smaller (length key) key_size in
    if length key == 0 then (negsuc 0, ctx) else (
      pos 0,
      record {
        key = take copy_key key ++ replicate (key_size - copy_key) 0;
        nonce = replicate {A = ℕ} nonce_size 0;
        active = true;
      },
    )

-- `out_buf[i] = in_buf[i] ^ ctx->key[i % sizeof(ctx->key)]` for the bytes from `i` on
unfoldable pub decrypt_loop : List ℕ → ℕ → List ℕ → List ℕ
decrypt_loop key i [] = []
decrypt_loop key i (b ∷ input) =
    bit_xor b (get_or key (i % key_size) 0) ∷ decrypt_loop key (i + 1) input

-- `none` is the NULL input; `none` of the output says that it is not written.
unfoldable pub encrypted_stream_decrypt :
    EncryptedStream → Option (List ℕ) → ℕ → ℤ × Option (List ℕ)
encrypted_stream_decrypt ctx none out_capacity = (negsuc 0, none)
encrypted_stream_decrypt ctx (some input) out_capacity =
    let copy_len = smaller (length input) out_capacity in
    (pos 0, some (decrypt_loop ctx.key 0 (take copy_len input)))

unfoldable pub encrypt_loop : List ℕ → ℕ → List ℕ → List ℕ
encrypt_loop key i [] = []
encrypt_loop key i (b ∷ input) =
    bit_xor b (get_or key (i % key_size) 0) ∷ encrypt_loop key (i + 1) input

unfoldable pub encrypted_stream_encrypt :
    EncryptedStream → Option (List ℕ) → ℕ → ℤ × Option (List ℕ)
encrypted_stream_encrypt ctx none out_capacity = (negsuc 0, none)
encrypted_stream_encrypt ctx (some input) out_capacity =
    let copy_len = smaller (length input) out_capacity in
    (pos 0, some (encrypt_loop ctx.key 0 (take copy_len input)))
