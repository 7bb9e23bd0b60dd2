-- ===== src/Console/Statistics.antt =====
-- src/modem_stats.c, and what the shell's commands do with it.
use zephyr_zyx_modem.Base.{ℕ, Option, none, some}

pub record ModemStats : Type 0 where
  pub total_transfers : ℕ
  pub successful_transfers : ℕ
  pub failed_transfers : ℕ
  pub crc_errors : ℕ
  pub retries : ℕ
  pub total_bytes_rx : ℕ
  pub total_bytes_tx : ℕ

abbrev pub zeros : ModemStats
zeros = record {
  total_transfers = 0;
  successful_transfers = 0;
  failed_transfers = 0;
  crc_errors = 0;
  retries = 0;
  total_bytes_rx = 0;
  total_bytes_tx = 0;
}

-- What the pointer points at behind the call; `none` is the NULL pointer.
abbrev pub console_modem_stats_get : Option ModemStats → ModemStats → Option ModemStats
console_modem_stats_get none g_modem_stats = none
console_modem_stats_get (some out) g_modem_stats = some g_modem_stats

abbrev pub console_modem_stats_reset : ModemStats → ModemStats
console_modem_stats_reset g_modem_stats = zeros
