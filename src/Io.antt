-- ===== src/Io.antt =====
-- The transport callbacks of the protocol engines (`read_byte` and `write_bytes` of
-- include/modem/xmodem.h, ymodem.h and zmodem.h), which the application supplies.
-- What an engine meets on its line is a script: one entry for each call of `read_byte`, in order.
-- When the script is used up the line is silent, so every further read times out.
-- What `write_bytes` is given is kept in order; the engines ignore its result.
pub mod Laws
use zephyr_zyx_modem.Base.{ℕ, zero, suc, List, [], ◌∷◌, ◌++◌, map}

-- One call of `read_byte`: it returns 0 and a byte, returns -2 (the transfer is cancelled), or
-- returns any other value (a timeout or an error).
pub data Read : Type 0 where
  byte : ℕ → Read
  cancelled : Read
  failed : Read

pub record Io : Type 0 where
  pub input : List Read
  pub sent : List ℕ

-- what the next call of `read_byte` answers, and the script behind it
abbrev pub first : List Read → Read
first [] = failed
first (r ∷ rs) = r

abbrev pub rest : List Read → List Read
rest [] = []
rest (r ∷ rs) = rs

abbrev pub after_read : Io → Io
after_read io = record io { input = rest io.input }

abbrev pub send : List ℕ → Io → Io
send bytes io = record io { sent = io.sent ++ bytes }

-- the script behind `while (read_byte(...) == 0) {}`
pub drop_bytes : List Read → List Read
drop_bytes [] = []
drop_bytes (byte b ∷ rs) = drop_bytes rs
drop_bytes (cancelled ∷ rs) = rs
drop_bytes (failed ∷ rs) = rs

-- `purge_rx`
abbrev pub purge : Io → Io
purge io = record io { input = drop_bytes io.input }

-- Two reads, both made before either is looked at.
pub data Pair : Type 0 where
  bytes : ℕ → ℕ → Pair
  cancelled : Pair
  failed : Pair

-- -2 from either read comes before a failure of either.
unfoldable pub pair : Read → Read → Pair
pair (byte a) (byte b) = bytes a b
pair (byte a) cancelled = Pair.cancelled
pair (byte a) failed = Pair.failed
pair cancelled r = Pair.cancelled
pair failed cancelled = Pair.cancelled
pair failed (byte b) = Pair.failed
pair failed failed = Pair.failed

-- The payload loop stops at the first read that gives no byte.
pub data Payload : Type 0 where
  full : List ℕ → Payload
  cancelled : Payload
  failed : Payload

abbrev pub with_byte : ℕ → Payload → Payload
with_byte b (full bs) = full (b ∷ bs)
with_byte b Payload.cancelled = Payload.cancelled
with_byte b Payload.failed = Payload.failed

-- `for (i = 0; i < n; i++) read_byte(&payload[i], ...)`: what it reads, and the script behind it
unfoldable pub read_payload : ℕ → List Read → Payload × List Read
read_payload zero rs = (full [], rs)
read_payload (suc n) [] = (Payload.failed, [])
read_payload (suc n) (byte b ∷ rs) = let (p, rs') = read_payload n rs in (with_byte b p, rs')
read_payload (suc n) (cancelled ∷ rs) = (Payload.cancelled, rs)
read_payload (suc n) (failed ∷ rs) = (Payload.failed, rs)

-- a line that delivers these bytes
abbrev pub bytes_of : List ℕ → List Read
bytes_of = map byte
