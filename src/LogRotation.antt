-- ===== src/LogRotation.antt =====
-- include/modem/log_rotation.h and src/log_rotation.c: chunked log files that are used in turn.
pub mod Bounds
mod Examples
use zephyr_zyx_modem.Base.{
  ℕ, ◌+◌, ◌-◌, ◌%◌, Bool, true, false, Option, none, some, List, [], ◌∷◌, ◌++◌, take, ltb, ◌==◌,
  if◌then◌else◌, add_size,
}
use zephyr_zyx_modem.Clib.{print_size}

-- `log_rotation_config_t`; the name without its NUL
pub record Config : Type 0 where
  pub max_chunk_size : ℕ
  pub max_total_chunks : ℕ
  pub base_filename : List ℕ

-- `log_rotation_ctx_t`
pub record Context : Type 0 where
  pub current_chunk_index : ℕ
  pub current_chunk_bytes : ℕ
  pub config : Config

abbrev pub or_default : ℕ → ℕ → ℕ
or_default n default = if n == 0 then default else n

-- "system_log"
abbrev pub default_filename : List ℕ
default_filename = b's' ∷ b'y' ∷ b's' ∷ b't' ∷ b'e' ∷ b'm' ∷ b'_' ∷ b'l' ∷ b'o' ∷ b'g' ∷ []

-- `log_rotation_init`: whether the context is there, and the configuration, where `none` is NULL.
-- The result `none` is its -1.
unfoldable pub log_rotation_init : (has_ctx : Bool) → Option Config → Option Context
log_rotation_init false config = none
log_rotation_init true none = none
log_rotation_init true (some config) = some (record {
  current_chunk_index = 0;
  current_chunk_bytes = 0;
  config = record {
    max_chunk_size = or_default config.max_chunk_size 65536;
    max_total_chunks = or_default config.max_total_chunks 5;
    base_filename = elim config.base_filename [ [] ↦ default_filename | c ∷ cs ↦ c ∷ cs ];
  };
})

-- the next chunk, when `len` more bytes do not fit
abbrev pub rotate : ℕ → Context → Context
rotate len ctx =
    if ltb ctx.config.max_chunk_size (add_size ctx.current_chunk_bytes len)
    then record ctx {
      current_chunk_index = add_size ctx.current_chunk_index 1 % ctx.config.max_total_chunks;
      current_chunk_bytes = 0;
    }
    else ctx

-- `%s_%zu.log`
abbrev pub chunk_filename : Context → List ℕ
chunk_filename ctx =
    ctx.config.base_filename
    ++ (b'_' ∷ (print_size ctx.current_chunk_index ++ (b'.' ∷ b'l' ∷ b'o' ∷ b'g' ∷ [])))

-- `log_rotation_write`: whether the data is there, its length, and the size of the buffer for the
-- active file's name, or 0 without one. The data itself is not looked at. The result is the context
-- and what is written as the name, or `none` for -1.
unfoldable pub log_rotation_write :
    Option Context → (has_data : Bool) → (len capacity : ℕ) → Option (Context × Option (List ℕ))
log_rotation_write none has_data len capacity = none
log_rotation_write (some ctx) false len capacity = none
log_rotation_write (some ctx) true len capacity =
    let ctx' = rotate len ctx in
    let ctx'' : Context = record ctx' {
      current_chunk_bytes = add_size ctx'.current_chunk_bytes len;
    } in
    some (ctx'', if ltb 0 capacity then some (take (capacity - 1) (chunk_filename ctx'')) else none)
