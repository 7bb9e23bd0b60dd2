-- ===== src/BleNusTransport/Examples.antt =====
-- A callback of two bytes and three reads.
use zephyr_zyx_modem.Base.{List, [], ◌∷◌, ◌≡◌, refl}
use zephyr_zyx_modem.BleNusTransport.{unused, ble_nus_transport_init}
use zephyr_zyx_modem.BleNusTransport.Queue.{Op, received, read, run, run_queue, ble_nus-queue}

abbrev three_reads : List Op
three_reads = received (1 ∷ 2 ∷ []) ∷ read ∷ read ∷ read ∷ []

ble_nus-queue_example : run three_reads (ble_nus_transport_init unused).1 ≡ run_queue three_reads []
ble_nus-queue_example = ble_nus-queue unused three_reads refl
