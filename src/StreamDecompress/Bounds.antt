-- ===== src/StreamDecompress/Bounds.antt =====
-- Decompression stays within the output buffer.
use zephyr_zyx_modem.Base.{
  ℕ, zero, suc, ◌≤◌, ◌<◌, ◌≡◌, not, ◌&&◌, Bool-cases, inl, inr, some, List, [], ◌∷◌, ◌++◌, length,
  length-append, length-take, take, ltb, ltb→lt, ◌==◌, add_size, pos, pos, refl, arith,
}
use zephyr_zyx_modem.StreamDecompress.{
  CompressType, compress_none, compress_rle, compress_heatshrink, compress_lz4, DecompressContext,
  last_byte, repeat, rle_loop, produced, stream_decompress_process,
}

-- one byte more, where there is room for it
append_fits :
    (out : List ℕ) (b capacity : ℕ) → length out < capacity → length (out ++ (b ∷ [])) ≤ capacity
append_fits out b capacity h = omega (arith, length-append out (b ∷ []))

repeat_fits :
    (count val capacity : ℕ) (out : List ℕ)
    → length out ≤ capacity
    → length (repeat count val capacity out) ≤ capacity
unfolding repeat
repeat_fits zero val capacity out h = h
repeat_fits (suc count) val capacity out h = elim (Bool-cases (ltb (length out) capacity)) [
  | inl e ↦ rw e (
      repeat_fits count val capacity (out ++ (val ∷ []))
        (append_fits out val capacity (ltb→lt _ _ e)))
  | inr e ↦ rw e h
]

rle_loop_fits :
    (capacity : ℕ) (input out : List ℕ)
    → length out ≤ capacity
    → length (rle_loop capacity input out) ≤ capacity
unfolding rle_loop
rle_loop_fits capacity [] out h = h
rle_loop_fits capacity (b ∷ []) out h = elim (Bool-cases (ltb (length out) capacity)) [
  | inl e ↦ rw e (append_fits out b capacity (ltb→lt _ _ e))
  | inr e ↦ rw e h
]
rle_loop_fits capacity (b ∷ (count ∷ rest)) out h =
    let run =
      rle_loop_fits capacity rest (repeat count (last_byte out) capacity out)
        (repeat_fits count (last_byte out) capacity out h) in
    elim (Bool-cases (ltb (length out) capacity)) [
      | inr e ↦ rw e h
      | inl e ↦ rw e (elim (Bool-cases ((b == 0x90) && not (count == 0))) [
        | inl r ↦ rw r run
        | inr r ↦ rw r (
            rle_loop_fits capacity (count ∷ rest) (out ++ (b ∷ []))
              (append_fits out b capacity (ltb→lt _ _ e)))
      ])
    ]

take_fits : (capacity : ℕ) (input : List ℕ) → length (take capacity input) ≤ capacity
take_fits capacity input = omega (arith, length-take capacity input)

produced_fits :
    (algo : CompressType) (capacity : ℕ) (input : List ℕ)
    → length (produced algo capacity input) ≤ capacity
unfolding produced
produced_fits compress_none capacity input = take_fits capacity input
produced_fits compress_rle capacity input = rle_loop_fits capacity input [] (omega arith)
produced_fits compress_heatshrink capacity input = take_fits capacity input
produced_fits compress_lz4 capacity input = take_fits capacity input

-- Whatever the algorithm and the input, a process call with a context and a buffer succeeds, does
-- not write past the output's capacity, and counts exactly what it writes.
pub process_fits :
    (ctx : DecompressContext) (input : List ℕ) (capacity : ℕ)
    → (out : List ℕ) × ((stream_decompress_process (some ctx) (some input) capacity ≡ (
      pos 0,
      (some (record ctx { processed_bytes = add_size ctx.processed_bytes (length out) }), out),
    ))
        × (length out ≤ capacity))
unfolding stream_decompress_process
process_fits ctx input capacity =
    (produced ctx.algo capacity input, (refl, produced_fits ctx.algo capacity input))
