-- ===== src/FlashHelper/Erased.antt =====
-- What is written has been erased before.
use zephyr_zyx_modem.Base.{
  ℕ, ◌+◌, ◌%◌, ◌^◌, ◌≤◌, ◌<◌, ◌≡◌, ◌∙◌, refl, ap, subst, inl, inr, Bool-cases, Option, some, List,
  [], ◌∷◌, ltb, if◌then◌else◌, add_size, arith, ℤ, pos,
}
use zephyr_zyx_modem.FlashHelper.{FlashContext, modem_flash_init, round_up, modem_flash_write}

-- the context behind writes of these lengths
unfoldable pub write_all : List ℕ → Option FlashContext → Option FlashContext
write_all [] ctx = ctx
write_all (len ∷ lens) ctx = write_all lens (modem_flash_write ctx (some len)).1

unfoldable pub total : List ℕ → ℕ
total [] = 0
total (len ∷ lens) = len + total lens

-- Whole sectors are erased, up to the end of what is written and less than a sector further.
pub record IsErased (written : ℕ) (ctx : FlashContext) : Type 0 where
  pub sectors : ctx.sector_size ≡ 4096
  pub position : ctx.current_offset ≡ written
  pub covered : ctx.current_offset ≤ ctx.erased_offset
  pub tight : ctx.erased_offset < ctx.current_offset + 4096
  pub whole : ctx.erased_offset % 4096 ≡ 0

erased_to : ℕ → ℕ → ℕ
erased_to erased finish = if ltb erased finish then round_up 4096 finish else erased

erased_to-bounds :
    (erased at len : ℕ)
    → at + len < 2 ^ 63
    → at ≤ erased
    → erased < at + 4096
    → erased % 4096 ≡ 0
    → (at + len ≤ erased_to erased (add_size at len))
      × ((erased_to erased (add_size at len) < (at + len) + 4096)
          × (erased_to erased (add_size at len) % 4096 ≡ 0))
unfolding erased_to
erased_to-bounds erased at len small covered tight whole =
    elim (Bool-cases (ltb erased (add_size at len))) [
      | inl e ↦ rw e (omega arith, (omega arith, omega arith))
      | inr e ↦ rw e (ground (arith, e), (omega arith, whole))
    ]

write-IsErased :
    (w len : ℕ) (ctx : FlashContext)
    → w + len < 2 ^ 63
    → IsErased w ctx
    → (ctx' : FlashContext) × ((modem_flash_write (some ctx) (some len) ≡ (pos 0, some ctx'))
        × IsErased (w + len) ctx')
unfolding modem_flash_write erased_to
write-IsErased w len ctx small is =
    let (above, (below, multiple)) =
      erased_to-bounds ctx.erased_offset ctx.current_offset len (omega (arith, is.position))
        is.covered is.tight is.whole in
    (
      record ctx {
        current_offset = add_size ctx.current_offset len;
        erased_offset = erased_to ctx.erased_offset (add_size ctx.current_offset len);
      },
      (
        ap
            (λ sector. (
              pos 0,
              some (record ctx {
                current_offset = add_size ctx.current_offset len;
                erased_offset =
                    if ltb ctx.erased_offset (add_size ctx.current_offset len)
                    then round_up sector (add_size ctx.current_offset len)
                    else ctx.erased_offset;
              }),
            ))
            is.sectors,
        record {
          sectors = is.sectors;
          position = omega (arith, is.position);
          covered = omega (arith, above, is.position);
          tight = omega (arith, below, is.position);
          whole = multiple;
        },
      ),
    )

write_all-IsErased :
    (w : ℕ) (lens : List ℕ) (ctx : FlashContext)
    → w + total lens < 2 ^ 63
    → IsErased w ctx
    → (ctx' : FlashContext) × ((write_all lens (some ctx) ≡ some ctx')
        × IsErased (w + total lens) ctx')
unfolding write_all total
write_all-IsErased w [] ctx small is = (ctx, (refl, subst (λ n. IsErased n ctx) (omega arith) is))
write_all-IsErased w (len ∷ lens) ctx small is =
    let (ctx1, (ran, is1)) = write-IsErased w len ctx (omega arith) is in
    let (ctx2, (ran2, is2)) = write_all-IsErased (w + len) lens ctx1 (omega arith) is1 in
    (
      ctx2,
      (
        ap (λ (r : ℤ × Option FlashContext). write_all lens r.1) ran ∙ ran2,
        subst (λ n. IsErased n ctx2) (omega arith) is2,
      ),
    )

-- From `modem_flash_init`, writes of any lengths below 2^63 bytes in all keep their total as the
-- offset, and the region marked as erased is a whole number of 4096-byte sectors that reaches to
-- that offset at least, and less than one sector past it.
pub flash_write-IsErased :
    (label lens : List ℕ)
    → total lens < 2 ^ 63
    → (ctx : FlashContext) × ((write_all lens (some (modem_flash_init label)) ≡ some ctx)
        × IsErased (total lens) ctx)
flash_write-IsErased label lens small =
    let (ctx, (ran, is)) =
      write_all-IsErased 0 lens (modem_flash_init label) (omega (arith, small)) (record {
        sectors = refl;
        position = refl;
        covered = omega arith;
        tight = omega arith;
        whole = refl;
      }) in
    (ctx, (ran, subst (λ n. IsErased n ctx) (omega arith) is))
