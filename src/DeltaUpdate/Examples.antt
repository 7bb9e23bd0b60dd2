-- ===== src/DeltaUpdate/Examples.antt =====
-- A target of three bytes in two pieces.
use zephyr_zyx_modem.Base.{ℕ, zero, suc, refl, get_or, List, [], ◌∷◌, ◌≡◌, some, arith}
use zephyr_zyx_modem.DeltaUpdate.{DeltaContext, delta_update_init}
use zephyr_zyx_modem.DeltaUpdate.Patch.{
  Contains, at_offset, join, total, diffs_from, apply_all, delta_update-target,
}

abbrev pieces : List (List ℕ)
pieces = (10 ∷ 20 ∷ []) ∷ (30 ∷ []) ∷ []

abbrev image : List ℕ
image = 1 ∷ 2 ∷ 3 ∷ []

-- what is read behind the image is never 0
abbrev memory : ℕ → ℕ
memory i = get_or image i 170

memory-image : Contains memory image
unfolding Contains
memory-image zero h = refl
memory-image (suc zero) h = refl
memory-image (suc (suc zero)) h = refl
memory-image (suc (suc (suc n))) h = absurd (omega (arith, h))

abbrev unset : DeltaContext
unset = record { base_image_size = 9; patch_offset = 9; target_written = 9 }

delta_update-target_example :
    apply_all (some memory) 2 (delta_update_init (some unset) 3).1 (diffs_from image 0 pieces)
    ≡ (some (at_offset 3 (total pieces)), join pieces)
unfolding total
delta_update-target_example =
    delta_update-target unset memory image 3 2 pieces memory-image (omega arith) (omega arith)
      (omega arith, (omega arith, tt))
