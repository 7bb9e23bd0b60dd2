-- ===== src/Console/Config/Widths.antt =====
-- The settings stay within the widths of their C types.
use zephyr_zyx_modem.Base.{ℕ, ◌^◌, ◌≤◌, ◌<◌, List, length, length-take, take, arith}
use zephyr_zyx_modem.Console.{Settings}
use zephyr_zyx_modem.Console.Config.{
  Param, set_packet_timeout, set_byte_timeout, set_max_retries, set_inter_block_delay,
  set_handshake_delay, set_overwrite_mode, set_enable_resume, set_target_dir, set_sync_interval,
  set_auto_start, set_async_storage, set_progress_bar, set_directory_transfers, set_ring_buffer,
  set_abort_key, set_abort_char, set_flow_control, set_flash_partition, set_mcuboot_update,
  set_nvs_checkpoints, set_crypto_stream, set_uart_dma, set_usb_cdc_acm, set_mcuboot_validate,
  set_signature_verify, set_encrypted_envelope, set_session_dispatcher, set_log_rotation,
  set_nfc_transport, assign,
}

-- The numbers are of 32 or 8 bits, and the two texts leave room for their NUL.
abbrev pub IsSettings : Settings → Type 0
IsSettings s =
    ((s.packet_timeout_ms < 2 ^ 32)
      × ((s.byte_timeout_ms < 2 ^ 32)
          × ((s.inter_block_delay_ms < 2 ^ 32)
              × ((s.handshake_delay_ms < 2 ^ 32)
                  × ((s.overwrite_mode < 2 ^ 32)
                      × ((s.sync_interval_blocks < 2 ^ 32)
                          × ((s.max_retries < 256)
                              × ((s.abort_key_char < 256)
                                  × ((length s.default_target_dir ≤ 127)
                                      × (length s.flash_partition ≤ 31))))))))))

take_fits : (n : ℕ) (xs : List ℕ) → length (take n xs) ≤ n
take_fits n xs = omega (arith, length-take n xs)

pub assign-IsSettings :
    (named : Param) (val_str : List ℕ) (s : Settings)
    → IsSettings s
    → IsSettings (assign named val_str s)
unfolding assign
assign-IsSettings set_packet_timeout val_str s is = (
  omega arith,
  (
    is.1.0,
    (
      is.1.1.0,
      (
        is.1.1.1.0,
        (
          is.1.1.1.1.0,
          (
            is.1.1.1.1.1.0,
            (is.1.1.1.1.1.1.0, (is.1.1.1.1.1.1.1.0, (is.1.1.1.1.1.1.1.1.0, is.1.1.1.1.1.1.1.1.1))),
          ),
        ),
      ),
    ),
  ),
)
assign-IsSettings set_byte_timeout val_str s is = (
  is.0,
  (
    omega arith,
    (
      is.1.1.0,
      (
        is.1.1.1.0,
        (
          is.1.1.1.1.0,
          (
            is.1.1.1.1.1.0,
            (is.1.1.1.1.1.1.0, (is.1.1.1.1.1.1.1.0, (is.1.1.1.1.1.1.1.1.0, is.1.1.1.1.1.1.1.1.1))),
          ),
        ),
      ),
    ),
  ),
)
assign-IsSettings set_max_retries val_str s is = (
  is.0,
  (
    is.1.0,
    (
      is.1.1.0,
      (
        is.1.1.1.0,
        (
          is.1.1.1.1.0,
          (
            is.1.1.1.1.1.0,
            (omega arith, (is.1.1.1.1.1.1.1.0, (is.1.1.1.1.1.1.1.1.0, is.1.1.1.1.1.1.1.1.1))),
          ),
        ),
      ),
    ),
  ),
)
assign-IsSettings set_inter_block_delay val_str s is = (
  is.0,
  (
    is.1.0,
    (
      omega arith,
      (
        is.1.1.1.0,
        (
          is.1.1.1.1.0,
          (
            is.1.1.1.1.1.0,
            (is.1.1.1.1.1.1.0, (is.1.1.1.1.1.1.1.0, (is.1.1.1.1.1.1.1.1.0, is.1.1.1.1.1.1.1.1.1))),
          ),
        ),
      ),
    ),
  ),
)
assign-IsSettings set_handshake_delay val_str s is = (
  is.0,
  (
    is.1.0,
    (
      is.1.1.0,
      (
        omega arith,
        (
          is.1.1.1.1.0,
          (
            is.1.1.1.1.1.0,
            (is.1.1.1.1.1.1.0, (is.1.1.1.1.1.1.1.0, (is.1.1.1.1.1.1.1.1.0, is.1.1.1.1.1.1.1.1.1))),
          ),
        ),
      ),
    ),
  ),
)
assign-IsSettings set_overwrite_mode val_str s is = (
  is.0,
  (
    is.1.0,
    (
      is.1.1.0,
      (
        is.1.1.1.0,
        (
          omega arith,
          (
            is.1.1.1.1.1.0,
            (is.1.1.1.1.1.1.0, (is.1.1.1.1.1.1.1.0, (is.1.1.1.1.1.1.1.1.0, is.1.1.1.1.1.1.1.1.1))),
          ),
        ),
      ),
    ),
  ),
)
assign-IsSettings set_enable_resume val_str s is = is
assign-IsSettings set_target_dir val_str s is = (
  is.0,
  (
    is.1.0,
    (
      is.1.1.0,
      (
        is.1.1.1.0,
        (
          is.1.1.1.1.0,
          (
            is.1.1.1.1.1.0,
            (is.1.1.1.1.1.1.0, (is.1.1.1.1.1.1.1.0, (take_fits 127 val_str, is.1.1.1.1.1.1.1.1.1))),
          ),
        ),
      ),
    ),
  ),
)
assign-IsSettings set_sync_interval val_str s is = (
  is.0,
  (
    is.1.0,
    (
      is.1.1.0,
      (
        is.1.1.1.0,
        (
          is.1.1.1.1.0,
          (
            omega arith,
            (is.1.1.1.1.1.1.0, (is.1.1.1.1.1.1.1.0, (is.1.1.1.1.1.1.1.1.0, is.1.1.1.1.1.1.1.1.1))),
          ),
        ),
      ),
    ),
  ),
)
assign-IsSettings set_auto_start val_str s is = is
assign-IsSettings set_async_storage val_str s is = is
assign-IsSettings set_progress_bar val_str s is = is
assign-IsSettings set_directory_transfers val_str s is = is
assign-IsSettings set_ring_buffer val_str s is = is
assign-IsSettings set_abort_key val_str s is = is
assign-IsSettings set_abort_char val_str s is = (
  is.0,
  (
    is.1.0,
    (
      is.1.1.0,
      (
        is.1.1.1.0,
        (
          is.1.1.1.1.0,
          (
            is.1.1.1.1.1.0,
            (is.1.1.1.1.1.1.0, (omega arith, (is.1.1.1.1.1.1.1.1.0, is.1.1.1.1.1.1.1.1.1))),
          ),
        ),
      ),
    ),
  ),
)
assign-IsSettings set_flow_control val_str s is = is
assign-IsSettings set_flash_partition val_str s is = (
  is.0,
  (
    is.1.0,
    (
      is.1.1.0,
      (
        is.1.1.1.0,
        (
          is.1.1.1.1.0,
          (
            is.1.1.1.1.1.0,
            (is.1.1.1.1.1.1.0, (is.1.1.1.1.1.1.1.0, (is.1.1.1.1.1.1.1.1.0, take_fits 31 val_str))),
          ),
        ),
      ),
    ),
  ),
)
assign-IsSettings set_mcuboot_update val_str s is = is
assign-IsSettings set_nvs_checkpoints val_str s is = is
assign-IsSettings set_crypto_stream val_str s is = is
assign-IsSettings set_uart_dma val_str s is = is
assign-IsSettings set_usb_cdc_acm val_str s is = is
assign-IsSettings set_mcuboot_validate val_str s is = is
assign-IsSettings set_signature_verify val_str s is = is
assign-IsSettings set_encrypted_envelope val_str s is = is
assign-IsSettings set_session_dispatcher val_str s is = is
assign-IsSettings set_log_rotation val_str s is = is
assign-IsSettings set_nfc_transport val_str s is = is
