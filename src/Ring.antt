-- ===== src/Ring.antt =====
-- The receive and transmit rings of src/ble_nus_transport.c and src/nfc_transport.c: a byte array
-- with an index to write at, an index to read at, and a count. `size` is `sizeof` the array.
pub mod Queue
pub mod Bounded
use zephyr_zyx_modem.Base.{
  ℕ, ◌+◌, ◌-◌, ◌%◌, List, set, get_or, replicate, ltb, if◌then◌else◌, ltb, if◌then◌else◌,
}

pub record Ring : Type 0 where
  pub buf : List ℕ
  pub head : ℕ
  pub tail : ℕ
  pub count : ℕ

-- the indices and the count at 0, over an array
abbrev pub reset : Ring → Ring
reset r = record r { head = 0; tail = 0; count = 0 }

abbrev pub zeroed : ℕ → Ring
zeroed size = record { buf = replicate {A = ℕ} size 0; head = 0; tail = 0; count = 0 }

-- `buf[head] = byte`, the next index and the count, where the count is below the size
unfoldable pub put : ℕ → ℕ → Ring → Ring
put size byte r = record r {
  buf = set r.buf r.head byte;
  head = (r.head + 1) % size;
  count = r.count + 1;
}

-- a byte that finds the ring full is dropped
abbrev pub offer : ℕ → ℕ → Ring → Ring
offer size byte r = if ltb r.count size then put size byte r else r

-- the byte at the index to read at
abbrev pub oldest : Ring → ℕ
oldest r = get_or r.buf r.tail 0

-- the next index and the count, where the count is above 0
unfoldable pub advance : ℕ → Ring → Ring
advance size r = record r { tail = (r.tail + 1) % size; count = r.count - 1 }
