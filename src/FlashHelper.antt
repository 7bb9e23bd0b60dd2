-- ===== src/FlashHelper.antt =====
-- src/modem_flash_helper.h and src/modem_flash_helper.c: how far a partition is written and erased.
pub mod Erased
mod Examples
use zephyr_zyx_modem.Base.{
  ℕ, zero, ◌+◌, ◌-◌, ◌*◌, ◌/◌, ◌%◌, ◌^◌, Option, none, some, List, [], ◌∷◌, ltb, if◌then◌else◌,
  add_size, ℤ, pos, negsuc,
}

pub record FlashContext : Type 0 where
  pub partition_label : List ℕ
  pub current_offset : ℕ
  pub erased_offset : ℕ
  pub sector_size : ℕ

-- `modem_flash_init` of a context that is not NULL
abbrev pub modem_flash_init : List ℕ → FlashContext
modem_flash_init label = record {
  partition_label = label;
  current_offset = 0;
  erased_offset = 0;
  sector_size = 4096;
}

-- `(end + sector - 1) & ~(sector - 1)` for a sector that is a power of two, as every sector that
-- `modem_flash_init` sets is: the mask clears what is below a multiple of the sector.
abbrev pub round_up : ℕ → ℕ → ℕ
round_up sector finish = (finish + (sector - 1)) % 2 ^ 64 / sector * sector

-- `none` for a NULL context or buffer; the buffer's bytes are not looked at.
unfoldable pub modem_flash_write : Option FlashContext → Option ℕ → ℤ × Option FlashContext
modem_flash_write none buf = (negsuc 0, none)
modem_flash_write (some ctx) none = (negsuc 0, some ctx)
modem_flash_write (some ctx) (some len) =
    let target_end = add_size ctx.current_offset len in
    let erased =
      if ltb ctx.erased_offset target_end
      then round_up ctx.sector_size target_end
      else ctx.erased_offset in
    (
      pos 0,
      some
          (record ctx { current_offset = add_size ctx.current_offset len; erased_offset = erased }),
    )
