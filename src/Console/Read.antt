-- ===== src/Console/Read.antt =====
-- `console_read_byte` and `console_write_bytes` of src/zephyr_console_modem.c.
-- Zephyr's ring buffer, its console and its clock are parameters: a turn of the wait has the byte
-- that the ring buffer gives, the character that the console gives, and the time since the start.
use zephyr_zyx_modem.Base.{
  ℕ, zero, suc, ◌+◌, Bool, true, false, Option, none, some, List, [], ◌∷◌, ◌++◌, leb, ◌==◌,
  if◌then◌else◌, ℤ, pos, negsuc,
}
use zephyr_zyx_modem.Io.{Read, Io, byte, cancelled, failed}
use zephyr_zyx_modem.Console.{Settings}

-- `none` for a ring buffer that is empty, and for a negative result of `console_getchar`.
pub record Turn : Type 0 where
  pub ring : Option ℕ
  pub getchar : Option ℕ
  pub elapsed : ℕ

-- the byte of one turn
abbrev pub poll : Bool → Turn → Option ℕ
poll false turn = turn.getchar
poll true turn = elim turn.ring [ none ↦ turn.getchar | some b ↦ some b ]

-- The loop: the byte it stops with. Behind the turns that are given the clock is past the limit.
unfoldable pub await_byte : Bool → ℕ → List Turn → Option ℕ
await_byte ring_buffer limit [] = none
await_byte ring_buffer limit (turn ∷ turns) =
    let later = await_byte ring_buffer limit turns in
    if leb turn.elapsed limit
    then elim (poll ring_buffer turn) [ none ↦ later | some b ↦ some b ]
    else none

-- The abort key and the two CAN bytes, with `g_can_count`: the result, the byte and the count
-- behind.
unfoldable pub check_abort : Settings → ℕ → ℕ → ℤ × (Option ℕ × ℕ)
check_abort settings can_count b =
    if settings.abort_key
    then (if b == settings.abort_key_char
        then (negsuc 1, (none, can_count))
        else (if b == 0x18
            then (if leb 2 (can_count + 1)
                then (negsuc 1, (none, 0))
                else (pos 0, (some b, can_count + 1)))
            else (pos 0, (some b, 0))))
    else (pos 0, (some b, can_count))

-- what the `read_byte` of a bound channel gives in this call
abbrev pub ChannelRead : Type 0
ChannelRead = ℤ × Option ℕ

-- The result, the byte when there is one, and `g_can_count` behind. The channel is `none` when none
-- is bound, or it has no `read_byte`.
unfoldable pub console_read_byte :
    Option ChannelRead → Settings → ℕ → List Turn → ℕ → ℤ × (Option ℕ × ℕ)
console_read_byte (some (result, read)) settings timeout_ms turns can_count =
    (result, (read, can_count))
console_read_byte none settings timeout_ms turns can_count =
    let wait_limit = if timeout_ms == 0 then 1 else timeout_ms in
    elim (await_byte settings.ring_buffer wait_limit turns) [
      | none ↦ (negsuc 0, (none, can_count))
      | some b ↦ check_abort settings can_count b
    ]

-- The result, and what the console has printed behind the call. A bound channel's `write_bytes` is
-- called in its place, and gives the result.
unfoldable pub console_write_bytes : Option ℤ → List ℕ → List ℕ → ℤ × List ℕ
console_write_bytes (some result) buf printed = (result, printed)
console_write_bytes none buf printed = (pos 0, printed ++ buf)

-- what an engine makes of a result
abbrev pub as_read : ℤ × (Option ℕ × ℕ) → Read
as_read (pos n, (some b, can_count)) = byte b
as_read (pos n, (none, can_count)) = failed
as_read (negsuc zero, out) = failed
as_read (negsuc (suc zero), out) = cancelled
as_read (negsuc (suc (suc n)), out) = failed

-- The script that an engine meets over calls with these timeouts and turns, with no channel bound.
unfoldable pub console_script : Settings → ℕ → List (ℕ × List Turn) → List Read
console_script settings can_count [] = []
console_script settings can_count ((timeout_ms, turns) ∷ calls) =
    let out = console_read_byte none settings timeout_ms turns can_count in
    as_read out ∷ console_script settings out.1.1 calls

-- The line of a transfer with no channel bound: `g_can_count` when it starts, and the calls of
-- `console_read_byte` with their timeouts and turns.
pub record Calls : Type 0 where
  pub can_count : ℕ
  pub reads : List (ℕ × List Turn)

-- what an engine that reads with `console_read_byte` meets
abbrev pub console_line : Settings → Calls → Io
console_line settings calls = record {
  input = console_script settings calls.can_count calls.reads;
  sent = [];
}
