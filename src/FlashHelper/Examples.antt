-- ===== src/FlashHelper/Examples.antt =====
-- A partition behind two writes.
use zephyr_zyx_modem.Base.{some, [], ◌∷◌, ◌≡◌, arith}
use zephyr_zyx_modem.FlashHelper.{FlashContext, modem_flash_init}
use zephyr_zyx_modem.FlashHelper.Erased.{write_all, total, IsErased, flash_write-IsErased}

flash_write-IsErased_example :
    (ctx : FlashContext) × ((write_all (4096 ∷ 1 ∷ []) (some (modem_flash_init (b'0' ∷ [])))
        ≡ some ctx)
      × IsErased (total (4096 ∷ 1 ∷ [])) ctx)
unfolding total
flash_write-IsErased_example = flash_write-IsErased (b'0' ∷ []) (4096 ∷ 1 ∷ []) (omega arith)
