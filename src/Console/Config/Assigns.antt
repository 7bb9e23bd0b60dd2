-- ===== src/Console/Config/Assigns.antt =====
-- The assignments of the configuration command are those of the table.
use zephyr_zyx_modem.Base.{
  ℕ, ◌≡◌, ◌∙◌, refl, ap, sym, inl, inr, Bool-cases, Option, none, some, List, [], ◌∷◌, set, ℤ, pos,
}
use zephyr_zyx_modem.Console.{Settings}
use zephyr_zyx_modem.Console.Shell.{same_text}
use zephyr_zyx_modem.Console.Config.{
  Param, set_abort_char, set_abort_key, set_async_storage, set_auto_start, set_byte_timeout,
  set_crypto_stream, set_directory_transfers, set_enable_resume, set_encrypted_envelope,
  set_flash_partition, set_flow_control, set_handshake_delay, set_inter_block_delay,
  set_log_rotation, set_max_retries, set_mcuboot_update, set_mcuboot_validate, set_nfc_transport,
  set_nvs_checkpoints, set_overwrite_mode, set_packet_timeout, set_progress_bar, set_ring_buffer,
  set_session_dispatcher, set_signature_verify, set_sync_interval, set_target_dir, set_uart_dma,
  set_usb_cdc_acm, names, find_param, assign, assign_found, cmd_modem_config,
}
use zephyr_zyx_modem.Console.Config.Table.{
  Value, Kind, word, octet, switch, line, values, interpret, Row, table, look_up, expected,
}

-- the row of a parameter
entry_of : Param → ℕ × Kind
entry_of set_packet_timeout = (0, word)
entry_of set_byte_timeout = (1, word)
entry_of set_max_retries = (2, octet)
entry_of set_inter_block_delay = (3, word)
entry_of set_handshake_delay = (4, word)
entry_of set_overwrite_mode = (5, word)
entry_of set_enable_resume = (6, switch)
entry_of set_target_dir = (7, line 127)
entry_of set_sync_interval = (8, word)
entry_of set_auto_start = (9, switch)
entry_of set_async_storage = (10, switch)
entry_of set_progress_bar = (11, switch)
entry_of set_directory_transfers = (12, switch)
entry_of set_ring_buffer = (13, switch)
entry_of set_abort_key = (14, switch)
entry_of set_abort_char = (15, octet)
entry_of set_flow_control = (16, switch)
entry_of set_flash_partition = (17, line 31)
entry_of set_mcuboot_update = (18, switch)
entry_of set_nvs_checkpoints = (19, switch)
entry_of set_crypto_stream = (20, switch)
entry_of set_uart_dma = (21, switch)
entry_of set_usb_cdc_acm = (22, switch)
entry_of set_mcuboot_validate = (23, switch)
entry_of set_signature_verify = (24, switch)
entry_of set_encrypted_envelope = (25, switch)
entry_of set_session_dispatcher = (26, switch)
entry_of set_log_rotation = (27, switch)
entry_of set_nfc_transport = (28, switch)

abbrev rows_of : List (List ℕ × Param) → List Row
unfolding entry_of
rows_of [] = []
rows_of ((name, named) ∷ more) = (name, entry_of named) ∷ rows_of more

found_entry : Option Param → Option (ℕ × Kind)
found_entry none = none
found_entry (some named) = some (entry_of named)

look_up-find_param :
    (entries : List (List ℕ × Param)) (param : List ℕ)
    → look_up (rows_of entries) param ≡ found_entry (find_param entries param)
unfolding look_up find_param found_entry rows_of
look_up-find_param [] param = refl
look_up-find_param ((name, named) ∷ more) param = elim (Bool-cases (same_text param name)) [
  | inl e ↦ rw e refl
  | inr e ↦ rw e (look_up-find_param more param)
]

rows_of-names : rows_of names ≡ table
unfolding rows_of entry_of
rows_of-names = refl

-- One assignment is to the place of the parameter, and to no other.
values-assign :
    (named : Param) (val : List ℕ) (s : Settings)
    → values (assign named val s)
      ≡ set (values s) (entry_of named).0 (interpret (entry_of named).1 val)
unfolding assign entry_of
values-assign set_packet_timeout val s = refl
values-assign set_byte_timeout val s = refl
values-assign set_max_retries val s = refl
values-assign set_inter_block_delay val s = refl
values-assign set_handshake_delay val s = refl
values-assign set_overwrite_mode val s = refl
values-assign set_enable_resume val s = refl
values-assign set_target_dir val s = refl
values-assign set_sync_interval val s = refl
values-assign set_auto_start val s = refl
values-assign set_async_storage val s = refl
values-assign set_progress_bar val s = refl
values-assign set_directory_transfers val s = refl
values-assign set_ring_buffer val s = refl
values-assign set_abort_key val s = refl
values-assign set_abort_char val s = refl
values-assign set_flow_control val s = refl
values-assign set_flash_partition val s = refl
values-assign set_mcuboot_update val s = refl
values-assign set_nvs_checkpoints val s = refl
values-assign set_crypto_stream val s = refl
values-assign set_uart_dma val s = refl
values-assign set_usb_cdc_acm val s = refl
values-assign set_mcuboot_validate val s = refl
values-assign set_signature_verify val s = refl
values-assign set_encrypted_envelope val s = refl
values-assign set_session_dispatcher val s = refl
values-assign set_log_rotation val s = refl
values-assign set_nfc_transport val s = refl

assign_found-expected :
    (found : Option Param) (val : List ℕ) (s : Settings)
    → ◌≡◌ {A = ℤ × List Value}
        ((assign_found found val s).0, values (assign_found found val s).1)
        (expected (found_entry found) val (values s))
unfolding assign_found found_entry
assign_found-expected none val s = refl
assign_found-expected (some named) val s = ap (λ vs. (pos 0, vs)) (values-assign named val s)

pub cmd_modem_config-expected :
    (param val : List ℕ) (s : Settings)
    → ◌≡◌ {A = ℤ × List Value}
        ((cmd_modem_config param val s).0, values (cmd_modem_config param val s).1)
        (expected (look_up table param) val (values s))
unfolding cmd_modem_config
cmd_modem_config-expected param val s =
    assign_found-expected (find_param names param) val s
    ∙ ap (λ e. expected e val (values s))
        (sym (look_up-find_param names param) ∙ ap (λ rows. look_up rows param) rows_of-names)
