-- ===== src/SessionDispatcher/Examples.antt =====
-- The table behind one create.
use zephyr_zyx_modem.Base.{ℕ, suc, ◌<◌, ◌≡◌, ◌⊎◌, pos, negsuc}
use zephyr_zyx_modem.SessionDispatcher.{
  channel_uart, channel_nfc, Session, max_dispatch_sessions, session_dispatcher_init,
  session_dispatcher_create, session_dispatcher_close, session_dispatcher_get_active_count,
}
use zephyr_zyx_modem.SessionDispatcher.Reachable.{started, created, session_dispatcher-create}
use zephyr_zyx_modem.Base.{List}

abbrev one_open : List Session
one_open = (session_dispatcher_create channel_uart session_dispatcher_init).1

session_dispatcher-create_example :
    ((session_dispatcher_create channel_nfc one_open ≡ (negsuc 0, one_open))
      × (session_dispatcher_get_active_count one_open ≡ max_dispatch_sessions))
    ⊎ ((i : ℕ) × ((i < max_dispatch_sessions)
          × (((session_dispatcher_create channel_nfc one_open).0 ≡ pos i)
              × ((session_dispatcher_get_active_count
                      (session_dispatcher_create channel_nfc one_open).1
                    ≡ suc (session_dispatcher_get_active_count one_open))
                  × (((session_dispatcher_close
                          (pos i)
                          (session_dispatcher_create channel_nfc one_open).1).0
                        ≡ pos 0)
                      × (session_dispatcher_get_active_count
                            (session_dispatcher_close
                              (pos i)
                              (session_dispatcher_create channel_nfc one_open).1).1
                          ≡ session_dispatcher_get_active_count one_open))))))
session_dispatcher-create_example =
    session_dispatcher-create channel_nfc one_open
      (created channel_uart session_dispatcher_init started)
