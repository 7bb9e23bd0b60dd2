-- ===== src/DeltaUpdate/Patch.antt =====
-- A patch rebuilds the image that it was made from.
use zephyr_zyx_modem.Base.{
  take_whole, ℕ, suc, ◌+◌, ◌^◌, ◌≤◌, ◌<◌, ◌≡◌, ◌∙◌, Option, some, List, [], ◌∷◌, ◌++◌, All, length,
  take, get_or, ltb, if◌then◌else◌, add_size, bit_xor, xor_twice_left, ℤ, pos, ap, sym, refl, arith,
}
use zephyr_zyx_modem.DeltaUpdate.{
  DeltaContext, delta_update_init, apply_from, patched, delta_update_apply_chunk,
}

-- a context at a position of both the patch and the target
abbrev pub at_offset : ℕ → ℕ → DeltaContext
at_offset size n = record { base_image_size = size; patch_offset = n; target_written = n }

-- the pieces of an image, one behind the other
unfoldable pub join : List (List ℕ) → List ℕ
join [] = []
join (piece ∷ pieces) = piece ++ join pieces

unfoldable pub total : List (List ℕ) → ℕ
total [] = 0
total (piece ∷ pieces) = length piece + total pieces

-- how a piece of the target at an offset differs from the base image
unfoldable pub diff_from : List ℕ → ℕ → List ℕ → List ℕ
diff_from base offset [] = []
diff_from base offset (b ∷ target) =
    bit_xor (get_or base offset 0) b ∷ diff_from base (offset + 1) target

-- the chunks of the patch, one for each piece of the target
unfoldable pub diffs_from : List ℕ → ℕ → List (List ℕ) → List (List ℕ)
diffs_from base offset [] = []
diffs_from base offset (piece ∷ pieces) =
    diff_from base offset piece ∷ diffs_from base (offset + length piece) pieces

-- the context behind all chunks, and what they write
unfoldable pub apply_all :
    Option (ℕ → ℕ) → ℕ → Option DeltaContext → List (List ℕ) → Option DeltaContext × List ℕ
apply_all base capacity ctx [] = (ctx, [])
apply_all base capacity ctx (chunk ∷ chunks) =
    let (result, (ctx', out)) = delta_update_apply_chunk ctx (some chunk) base capacity in
    let (ctx'', outs) = apply_all base capacity ctx' chunks in (ctx'', out ++ outs)

length-diff_from :
    (base : List ℕ) (offset : ℕ) (target : List ℕ)
    → length (diff_from base offset target) ≡ length target
unfolding diff_from
length-diff_from base offset [] = refl
length-diff_from base offset (b ∷ target) = ap suc (length-diff_from base (offset + 1) target)

-- the memory at the base image's place holds the image
unfoldable pub Contains : (ℕ → ℕ) → List ℕ → Type 0
Contains memory base = (i : ℕ) → i < length base → memory i ≡ get_or base i 0

apply_from-diff_from :
    (memory : ℕ → ℕ) (base : List ℕ) (offset : ℕ) (target : List ℕ)
    → Contains memory base
    → offset + length target ≤ length base
    → offset + length target < 2 ^ 64
    → apply_from memory offset (diff_from base offset target) ≡ target
unfolding apply_from diff_from Contains
apply_from-diff_from memory base offset [] holds within h = refl
apply_from-diff_from memory base offset (b ∷ target) holds within h =
    ap
      (λ n.
        bit_xor (memory offset) (bit_xor (get_or base offset 0) b)
        ∷ apply_from memory n (diff_from base (offset + 1) target))
      next
    ∙ ap
        (λ v.
          bit_xor v (bit_xor (get_or base offset 0) b)
          ∷ apply_from memory (offset + 1) (diff_from base (offset + 1) target))
        (holds offset (omega (arith, within)))
    ∙ ap (λ c. c ∷ apply_from memory (offset + 1) (diff_from base (offset + 1) target))
        (xor_twice_left (get_or base offset 0) b)
    ∙ ap (◌∷◌ b) (
        apply_from-diff_from memory base (offset + 1) target holds (omega (arith, within))
          (omega (arith, h)))
  where
    next : add_size offset 1 ≡ offset + 1
    next = omega (arith, h)

module _ (memory : ℕ → ℕ) (base : List ℕ) (size capacity : ℕ) (holds : Contains memory base) where
  -- One chunk of the patch writes one piece of the target.
  apply_chunk-diff_from :
      (n : ℕ) (piece : List ℕ)
      → n + length piece ≤ length base
      → n + length piece < 2 ^ 64
      → length piece ≤ capacity
      → delta_update_apply_chunk
          (some (at_offset size n))
          (some (diff_from base n piece))
          (some memory)
          capacity
        ≡ (pos 0, (some (at_offset size (n + length piece)), piece))
  unfolding delta_update_apply_chunk
  apply_chunk-diff_from n piece within small fits =
      ap (behind (length diff)) whole
      ∙ ap (λ l. behind l l) same
      ∙ ap
          (λ m.
            (pos 0, (some (at_offset size m), patched (some memory) n (take (length piece) diff))))
          sum
      ∙ ap (λ bs. (pos 0, (some (at_offset size (n + length piece)), apply_from memory n bs)))
          (ap (λ l. take l diff) (sym same) ∙ take_whole diff)
      ∙ ap (λ bs. (pos 0, (some (at_offset size (n + length piece)), bs)))
          (apply_from-diff_from memory base n piece holds within small)
    where
      diff : List ℕ
      diff = diff_from base n piece

      behind : ℕ → ℕ → ℤ × (Option DeltaContext × List ℕ)
      behind len copy = (
        pos 0,
        (
          some (record {
            base_image_size = size;
            target_written = add_size n copy;
            patch_offset = add_size n len;
          }),
          apply_from memory n (take copy diff),
        ),
      )

      same : length diff ≡ length piece
      same = length-diff_from base n piece

      whole : (if ltb (length diff) capacity then length diff else capacity) ≡ length diff
      whole = ground (arith, same, fits)

      sum : add_size n (length piece) ≡ n + length piece
      sum = omega (arith, small)

  apply_all-diffs_from :
      (n : ℕ) (pieces : List (List ℕ))
      → n + total pieces ≤ length base
      → n + total pieces < 2 ^ 64
      → All (λ piece. length piece ≤ capacity) pieces
      → apply_all (some memory) capacity (some (at_offset size n)) (diffs_from base n pieces)
        ≡ (some (at_offset size (n + total pieces)), join pieces)
  unfolding apply_all diffs_from join total
  apply_all-diffs_from n [] within small fit = ap (λ m. (some (at_offset size m), [])) plus_zero
    where
      plus_zero : n ≡ n + 0
      plus_zero = omega arith
  apply_all-diffs_from n (piece ∷ pieces) within small fit =
      ap
        (λ (r : ℤ × (Option DeltaContext × List ℕ)). (
          (apply_all (some memory) capacity r.1.0 (diffs_from base (n + length piece) pieces)).0,
          r.1.1
              ++ (apply_all (some memory) capacity r.1.0
                  (diffs_from base (n + length piece) pieces)).1,
        ))
        (apply_chunk-diff_from n piece (omega arith) (omega arith) fit.0)
      ∙ ap (λ (r : Option DeltaContext × List ℕ). (r.0, piece ++ r.1))
          (apply_all-diffs_from (n + length piece) pieces (omega arith) (omega arith) fit.1)
      ∙ ap (λ m. (some (at_offset size m), piece ++ join pieces)) plus_assoc
    where
      plus_assoc : n + length piece + total pieces ≡ n + (length piece + total pieces)
      plus_assoc = omega arith

-- Let memory hold a base image, and cut a target that is no longer than the image, and shorter than
-- 2^64 bytes, into pieces that each fit the output's capacity. Then applying the chunks that say how
-- the pieces differ from the base image, one after the other from `delta_update_init`, writes the
-- target, and counts its bytes in the context. What memory holds behind the image does not matter.
pub delta_update-target :
    (ctx : DeltaContext) (memory : ℕ → ℕ) (base : List ℕ) (size capacity : ℕ)
    (pieces : List (List ℕ))
    → Contains memory base
    → total pieces ≤ length base
    → total pieces < 2 ^ 64
    → All (λ piece. length piece ≤ capacity) pieces
    → apply_all
        (some memory)
        capacity
        (delta_update_init (some ctx) size).1
        (diffs_from base 0 pieces)
      ≡ (some (at_offset size (total pieces)), join pieces)
delta_update-target ctx memory base size capacity pieces holds within small fit =
    apply_all-diffs_from memory base size capacity holds 0 pieces (omega (arith, within))
      (omega (arith, small)) fit
    ∙ ap (λ m. (some (at_offset size m), join pieces)) zero_plus
  where
    zero_plus : 0 + total pieces ≡ total pieces
    zero_plus = omega arith
