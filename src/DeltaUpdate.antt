-- ===== src/DeltaUpdate.antt =====
-- include/modem/delta_update.h and src/delta_update.c: a patch that is applied chunk by chunk.
-- The code reads `base_buf` at the target's offset and never looks at `base_image_size`, so the
-- buffer is a memory, a function from offsets to bytes, which says nothing of where the image ends.
pub mod Patch
mod Examples
use zephyr_zyx_modem.Base.{
  ℕ, ◌+◌, Option, none, some, List, [], ◌∷◌, length, take, get_or, ltb, if◌then◌else◌, add_size,
  bit_xor, ℤ, pos, negsuc,
}

pub record DeltaContext : Type 0 where
  pub base_image_size : ℕ
  pub patch_offset : ℕ
  pub target_written : ℕ

-- `none` is the NULL context.
abbrev pub delta_update_init : Option DeltaContext → ℕ → ℤ × Option DeltaContext
delta_update_init none base_size = (negsuc 0, none)
delta_update_init (some ctx) base_size =
    (pos 0, some (record { base_image_size = base_size; patch_offset = 0; target_written = 0 }))

-- `out_buf[i] = base_buf[ctx->target_written + i] ^ diff_chunk[i]`, from an offset on
unfoldable pub apply_from : (ℕ → ℕ) → ℕ → List ℕ → List ℕ
apply_from base offset [] = []
apply_from base offset (b ∷ diff) =
    bit_xor (base offset) b ∷ apply_from base (add_size offset 1) diff

-- with a base image, and with the NULL one
abbrev pub patched : Option (ℕ → ℕ) → ℕ → List ℕ → List ℕ
patched none offset diff = diff
patched (some base) offset diff = apply_from base offset diff

-- The result, the context behind, and what is written to `out_buf`, which is not NULL. `none` for a
-- NULL context or chunk.
unfoldable pub delta_update_apply_chunk :
    Option DeltaContext → Option (List ℕ) → Option (ℕ → ℕ) → ℕ → ℤ × (Option DeltaContext × List ℕ)
delta_update_apply_chunk none diff_chunk base_buf out_capacity = (negsuc 0, (none, []))
delta_update_apply_chunk (some ctx) none base_buf out_capacity = (negsuc 0, (some ctx, []))
delta_update_apply_chunk (some ctx) (some diff_chunk) base_buf out_capacity =
    let chunk_len = length diff_chunk in
    let copy_len = if ltb chunk_len out_capacity then chunk_len else out_capacity in
    (
      pos 0,
      (
        some (record ctx {
          target_written = add_size ctx.target_written copy_len;
          patch_offset = add_size ctx.patch_offset chunk_len;
        }),
        patched base_buf ctx.target_written (take copy_len diff_chunk),
      ),
    )
