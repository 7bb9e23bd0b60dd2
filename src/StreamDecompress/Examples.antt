-- ===== src/StreamDecompress/Examples.antt =====
-- A buffer of two runs.
use zephyr_zyx_modem.Base.{ℕ, List, [], ◌∷◌, ◌≡◌, ◌≤◌, pos, some, add_size, length, arith}
use zephyr_zyx_modem.StreamDecompress.{
  DecompressContext, compress_rle, produced, stream_decompress_process,
}
use zephyr_zyx_modem.StreamDecompress.Bounds.{process_fits}
use zephyr_zyx_modem.StreamDecompress.Runs.{Run, encode, expand, produced-encode}

abbrev two_runs : List Run
two_runs = record { value = 7; more = 3 } ∷ record { value = 9; more = 0 } ∷ []

abbrev fresh : DecompressContext
fresh = record { algo = compress_rle; processed_bytes = 0 }

produced-encode_example : produced compress_rle 8 (encode two_runs) ≡ expand two_runs
unfolding expand
produced-encode_example =
    produced-encode 8 two_runs
      (
        record { plain = λ e. omega (arith, e); fits = omega arith },
        (record { plain = λ e. omega (arith, e); fits = omega arith }, tt),
      )
      (omega arith)

process_fits_example :
    (out : List ℕ) × ((stream_decompress_process (some fresh) (some (7 ∷ 0x90 ∷ 200 ∷ [])) 5
        ≡ (pos 0, (some (record fresh { processed_bytes = add_size 0 (length out) }), out)))
      × (length out ≤ 5))
process_fits_example = process_fits fresh (7 ∷ 0x90 ∷ 200 ∷ []) 5
