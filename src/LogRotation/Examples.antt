-- ===== src/LogRotation/Examples.antt =====
-- A log of two chunks of 10 bytes.
use zephyr_zyx_modem.Base.{refl, true, ◌≡◌, true, some, [], ◌∷◌, arith}
use zephyr_zyx_modem.LogRotation.{Config, Context, or_default, log_rotation_init}
use zephyr_zyx_modem.LogRotation.Bounds.{
  IsWellFormed, Counts, sum, pack, write_all, log_rotation-IsWellFormed,
}

abbrev two_chunks : Config
two_chunks = record { max_chunk_size = 10; max_total_chunks = 2; base_filename = b'a' ∷ [] }

log_rotation-IsWellFormed_example :
    (ctx : Context) × ((write_all (7 ∷ 7 ∷ 3 ∷ []) (log_rotation_init true (some two_chunks))
        ≡ some ctx)
      × (IsWellFormed ctx
          × (Counts
                (pack (or_default two_chunks.max_chunk_size 65536) (7 ∷ 7 ∷ 3 ∷ []) ([], []))
                ctx
              × ((ctx.config.max_chunk_size ≡ or_default two_chunks.max_chunk_size 65536)
                  × (ctx.config.max_total_chunks ≡ or_default two_chunks.max_total_chunks 5)))))
log_rotation-IsWellFormed_example =
    log_rotation-IsWellFormed two_chunks (7 ∷ 7 ∷ 3 ∷ []) (omega arith) (omega arith)
      (omega arith, (omega arith, (omega arith, tt)))

packed : pack 10 (7 ∷ 7 ∷ 3 ∷ []) ([], []) ≡ (3 ∷ 7 ∷ [], (7 ∷ []) ∷ [])
unfolding pack sum
packed = refl
