-- ===== src/SessionDispatcher.antt =====
-- include/modem/session_dispatcher.h and src/session_dispatcher.c: the table of transfer sessions.
-- The static array is a list of its MAX_DISPATCH_SESSIONS entries; a loop over it is a recursion
-- on that list.
pub mod Table
pub mod Reachable
mod Examples
use zephyr_zyx_modem.Base.{
  ℕ, zero, suc, ◌+◌, Bool, true, false, List, [], ◌∷◌, ℤ, pos, negsuc, leb, if◌then◌else◌,
}

pub data ChannelType : Type 0 where
  channel_uart : ChannelType
  channel_usb_cdc_acm : ChannelType
  channel_ble_nus : ChannelType
  channel_socket : ChannelType
  channel_nfc : ChannelType

pub record Session : Type 0 where
  pub session_id : ℤ
  pub channel_type : ChannelType
  pub active : Bool
  pub bytes_transferred : ℕ

-- `MAX_DISPATCH_SESSIONS`
abbrev pub max_dispatch_sessions : ℕ
max_dispatch_sessions = 4

-- the initialisation of the `n` entries from `i` on
unfoldable pub init_from : ℕ → ℕ → List Session
init_from i zero = []
init_from i (suc n) =
    record {
      session_id = pos i;
      channel_type = channel_uart;
      active = false;
      bytes_transferred = 0;
    }
    ∷ init_from (i + 1) n

abbrev pub session_dispatcher_init : List Session
session_dispatcher_init = init_from 0 max_dispatch_sessions

-- an entry that is taken into use
abbrev pub opened : ChannelType → Session → Session
opened type s = record s { active = true; channel_type = type; bytes_transferred = 0 }

unfoldable pub session_dispatcher_create : ChannelType → List Session → ℤ × List Session
session_dispatcher_create type [] = (negsuc 0, [])
session_dispatcher_create type (s ∷ sessions) =
    let (id, rest) = session_dispatcher_create type sessions in
    if s.active then (id, s ∷ rest) else (s.session_id, opened type s ∷ sessions)

-- the write `sessions[i].active = false`
unfoldable pub deactivate : ℕ → List Session → List Session
deactivate i [] = []
deactivate zero (s ∷ sessions) = record s { active = false } ∷ sessions
deactivate (suc i) (s ∷ sessions) = s ∷ deactivate i sessions

unfoldable pub session_dispatcher_close : ℤ → List Session → ℤ × List Session
session_dispatcher_close (negsuc n) sessions = (negsuc 0, sessions)
session_dispatcher_close (pos i) sessions =
    if leb max_dispatch_sessions i then (negsuc 0, sessions) else (pos 0, deactivate i sessions)

unfoldable pub session_dispatcher_get_active_count : List Session → ℕ
session_dispatcher_get_active_count [] = 0
session_dispatcher_get_active_count (s ∷ sessions) =
    let count = session_dispatcher_get_active_count sessions in
    if s.active then suc count else count
