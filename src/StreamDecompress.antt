-- ===== src/StreamDecompress.antt =====
-- include/modem/stream_decompress.h and src/stream_decompress.c: decompression of one buffer.
pub mod Bounds
pub mod Runs
mod Examples
use zephyr_zyx_modem.Base.{
  ℕ, zero, suc, ◌+◌, ◌-◌, Bool, true, false, not, ◌&&◌, Option, none, some, List, [], ◌∷◌, ◌++◌,
  length, take, ltb, ◌==◌, if◌then◌else◌, min, replicate, get_or, add_size, ℤ, pos, negsuc,
}

pub data CompressType : Type 0 where
  compress_none : CompressType
  compress_rle : CompressType
  compress_heatshrink : CompressType
  compress_lz4 : CompressType

pub record DecompressContext : Type 0 where
  pub algo : CompressType
  pub processed_bytes : ℕ

-- `none` is the NULL context.
abbrev pub stream_decompress_init :
    Option DecompressContext → CompressType → ℤ × Option DecompressContext
stream_decompress_init none algo = (negsuc 0, none)
stream_decompress_init (some ctx) algo = (pos 0, some (record { algo = algo; processed_bytes = 0 }))

-- `out_buf[out_idx - 1]`, or 0 at the start
abbrev pub last_byte : List ℕ → ℕ
last_byte out = get_or out (length out - 1) 0

-- `count` copies of `val`, as far as the capacity goes
unfoldable pub repeat : ℕ → ℕ → ℕ → List ℕ → List ℕ
repeat zero val capacity out = out
repeat (suc count) val capacity out =
    let more = repeat count val capacity (out ++ (val ∷ [])) in
    if ltb (length out) capacity then more else out

-- The run-length loop, over what is left of the input. `out` is what is written so far.
unfoldable pub rle_loop : ℕ → List ℕ → List ℕ → List ℕ
rle_loop capacity [] out = out
rle_loop capacity (b ∷ []) out = if ltb (length out) capacity then out ++ (b ∷ []) else out
rle_loop capacity (b ∷ (count ∷ rest)) out =
    let run = rle_loop capacity rest (repeat count (last_byte out) capacity out) in
    let literal = rle_loop capacity (count ∷ rest) (out ++ (b ∷ [])) in
    if ltb (length out) capacity
    then (if (b == 0x90) && not (count == 0) then run else literal)
    else out

-- the bytes that a buffer is decompressed to
unfoldable pub produced : CompressType → ℕ → List ℕ → List ℕ
produced compress_none capacity input = take capacity input
produced compress_rle capacity input = rle_loop capacity input []
produced compress_heatshrink capacity input = take capacity input
produced compress_lz4 capacity input = take capacity input

-- The result, the context behind, and what is written to `out_buf`. `none` for a NULL context or
-- input.
unfoldable pub stream_decompress_process :
    Option DecompressContext → Option (List ℕ) → ℕ → ℤ × (Option DecompressContext × List ℕ)
stream_decompress_process none input capacity = (negsuc 0, (none, []))
stream_decompress_process (some ctx) none capacity = (negsuc 0, (some ctx, []))
stream_decompress_process (some ctx) (some input) capacity =
    let out = produced ctx.algo capacity input in
    (
      pos 0,
      (some (record ctx { processed_bytes = add_size ctx.processed_bytes (length out) }), out),
    )
