-- ===== src/Autostart.antt =====
-- src/modem_autostart.c: the detector of a ZMODEM start, `rz` and a carriage return.
pub mod Detection
mod Examples
use zephyr_zyx_modem.Base.{
  ℕ, ◌+◌, ◌-◌, ◌%◌, ◌≤◌, Bool, true, false, ◌&&◌, List, replicate, get_or, set, leb, ◌==◌,
  if◌then◌else◌, add_size,
}

-- the two static variables
pub record Detector : Type 0 where
  pub autostart_buf : List ℕ
  pub autostart_idx : ℕ

abbrev pub initial : Detector
initial = record { autostart_buf = replicate {A = ℕ} 8 0; autostart_idx = 0 }

-- the test of three bytes from `idx` on
unfoldable pub is_rz_from : List ℕ → ℕ → Bool
is_rz_from buf idx =
    (get_or buf idx 0 == b'r')
    && ((get_or buf ((idx + 1) % 8) 0 == b'z') && (get_or buf ((idx + 2) % 8) 0 == 13))

-- the detector behind a byte
unfoldable pub store : ℕ → Detector → Detector
store byte d = record {
  autostart_buf = set d.autostart_buf (d.autostart_idx % 8) byte;
  autostart_idx = add_size d.autostart_idx 1;
}

unfoldable pub console_modem_check_autostart : ℕ → Detector → Bool × Detector
console_modem_check_autostart byte d =
    let d' = store byte d in
    (
      if leb 3 d'.autostart_idx
          then is_rz_from d'.autostart_buf ((d'.autostart_idx - 3) % 8)
          else false,
      d',
    )
