-- ===== src/Autostart/Examples.antt =====
-- The detector on the start of a ZRQINIT header.
use zephyr_zyx_modem.Base.{[], ◌∷◌, ◌≡◌, arith}
use zephyr_zyx_modem.Autostart.{console_modem_check_autostart}
use zephyr_zyx_modem.Autostart.Detection.{after, ends_in_rz, check_autostart-after}

check_autostart-after_example :
    (console_modem_check_autostart 13 (after (b'z' ∷ b'r' ∷ b'x' ∷ []))).0
    ≡ ends_in_rz (13 ∷ b'z' ∷ b'r' ∷ b'x' ∷ [])
check_autostart-after_example = check_autostart-after 13 (b'z' ∷ b'r' ∷ b'x' ∷ []) (omega arith)
