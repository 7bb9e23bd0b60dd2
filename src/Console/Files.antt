-- ===== src/Console/Files.antt =====
-- The files of src/zephyr_console_modem.c: how an output file is opened, written and closed.
-- Zephyr's file system is a parameter. What it takes of the bytes that it is given is kept for the
-- file that is open, and for those that are closed.
use zephyr_zyx_modem.Base.{
  is_zero, ℕ, Bool, not, ◌&&◌, Option, none, some, List, [], ◌∷◌, ◌++◌, length, take, get_or, ltb,
  ◌==◌, if◌then◌else◌, add_size, ℤ, pos, negsuc,
}
use zephyr_zyx_modem.Console.{overwrite_skip, overwrite_abort, Settings}

-- `fs_stat` on a path, as whether it succeeds, `fs_open` of a path for writing, and `fs_write` of a
-- buffer behind the bytes that the file of a path was given before.
pub record FileSystem : Type 0 where
  pub stat : List ℕ → Bool
  pub open_for_writing : List ℕ → ℤ
  pub write : List ℕ → List ℕ → List ℕ → ℤ

-- `console_modem_ctx_t`: `zfile` has the path of the file that is open. `written` is what the file
-- system took for it, and `closed` has the files that were closed, each with what it took.
pub record Context : Type 0 where
  pub zfile : Option (List ℕ)
  pub file_size : ℕ
  pub bytes_transferred : ℕ
  pub target_path : List ℕ
  pub written : List ℕ
  pub closed : List (List ℕ × List ℕ)

-- `snprintf(target_path, sizeof(target_path), "%s", ...)` into a context of zeros
abbrev pub context_for : List ℕ → Context
context_for name = record {
  zfile = none;
  file_size = 0;
  bytes_transferred = 0;
  target_path = take 255 name;
  written = [];
  closed = [];
}

-- the path within the target directory
unfoldable pub full_path : Settings → List ℕ → List ℕ
full_path settings path =
    if not (length settings.default_target_dir == 0) && not (get_or path 0 0 == b'/')
    then take 255 (settings.default_target_dir ++ (b'/' ∷ path))
    else take 255 path

-- what the policy says of a file that exists
abbrev pub policy : ℕ → Option ℤ
policy mode =
    if mode == overwrite_skip
    then some (negsuc 1)
    else (if mode == overwrite_abort then some (negsuc 2) else none)

-- behind the policy
unfoldable pub open_path : FileSystem → List ℕ → Context → ℤ × Context
open_path fs path ctx =
    if is_zero (fs.open_for_writing path)
    then (pos 0, record ctx { zfile = some path; written = [] })
    else (negsuc 0, ctx)

unfoldable pub open_output_file : FileSystem → Settings → List ℕ → Context → ℤ × Context
open_output_file fs settings name ctx =
    let path = full_path settings name in
    if fs.stat path
    then elim (policy settings.overwrite_mode) [
      | some refusal ↦ (refusal, ctx)
      | none ↦ open_path fs path ctx
    ]
    else open_path fs path ctx

-- the buffer that the asynchronous write copies, of 1024 bytes at most
abbrev pub handed_over : Settings → List ℕ → List ℕ
handed_over settings buf =
    if settings.async_storage
    then take (if ltb 1024 (length buf) then 1024 else length buf) buf
    else buf

-- behind `fs_write`
unfoldable pub note_written : ℤ → List ℕ → List ℕ → Context → ℤ × Context
note_written (negsuc n) buf given ctx = (negsuc 0, ctx)
note_written (pos n) buf given ctx = (
  if n == length buf then pos 0 else negsuc 0,
  record ctx {
    bytes_transferred = add_size ctx.bytes_transferred n;
    written = ctx.written ++ take n given;
  },
)

unfoldable pub write_open_file :
    FileSystem → Settings → Option (List ℕ) → List ℕ → Context → ℤ × Context
write_open_file fs settings none buf ctx = (negsuc 0, ctx)
write_open_file fs settings (some path) buf ctx =
    let given = handed_over settings buf in
    note_written (fs.write path ctx.written given) buf given ctx

abbrev pub write_file_data : FileSystem → Settings → List ℕ → Context → ℤ × Context
write_file_data fs settings buf ctx = write_open_file fs settings ctx.zfile buf ctx

unfoldable pub close_open_file : Option (List ℕ) → Context → Context
close_open_file none ctx = ctx
close_open_file (some path) ctx = record ctx {
  zfile = none;
  closed = ctx.closed ++ ((path, ctx.written) ∷ []);
}

abbrev pub close_file : Context → Context
close_file ctx = close_open_file ctx.zfile ctx
