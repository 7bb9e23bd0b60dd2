-- ===== src/LogRotation/Bounds.antt =====
-- A log stays within its chunks, and packs the writes into them one after the other.
use zephyr_zyx_modem.Base.{
  ℕ, ◌+◌, ◌%◌, ◌^◌, ◌≤◌, ◌<◌, ◌≡◌, ◌∙◌, refl, ap, subst, sym, Bool-cases, inl, inr, true, Option,
  none, some, List, [], ◌∷◌, arith, ltb, leb, All, add_size, length, if◌then◌else◌, false,
}
use native.Mathlib.Nat.{mod-lt, mod-eq_of_lt, mod-add-mod}
use mathlib.Core.Option.{some-injective}
use zephyr_zyx_modem.LogRotation.{
  Config, Context, or_default, log_rotation_init, rotate, log_rotation_write,
}

-- The index is one of a chunk, the chunk is not over-full, and no sum of two sizes wraps around.
pub record IsWellFormed (ctx : Context) : Type 0 where
  pub index_fits : ctx.current_chunk_index < ctx.config.max_total_chunks
  pub bytes_fit : ctx.current_chunk_bytes ≤ ctx.config.max_chunk_size
  pub chunk_small : ctx.config.max_chunk_size < 2 ^ 63
  pub chunks_small : ctx.config.max_total_chunks < 2 ^ 63

-- the context behind a write
abbrev pub written : ℕ → Context → Context
written len ctx =
    let ctx' = rotate len ctx in
    record ctx' { current_chunk_bytes = add_size ctx'.current_chunk_bytes len }

-- the context behind writes of these lengths, as the calls hand it on
unfoldable pub write_all : List ℕ → Option Context → Option Context
write_all [] ctx = ctx
write_all (len ∷ lens) ctx = elim (log_rotation_write ctx true len 0) [
  | none ↦ none
  | some (ctx', name) ↦ write_all lens (some ctx')
]

written-IsWellFormed :
    (len : ℕ) (ctx : Context)
    → IsWellFormed ctx
    → len ≤ ctx.config.max_chunk_size
    → IsWellFormed (written len ctx) × ((written len ctx).config ≡ ctx.config)
written-IsWellFormed len ctx is small =
    elim (Bool-cases (ltb ctx.config.max_chunk_size (add_size ctx.current_chunk_bytes len))) [
      | inl over ↦ rw over (
        record {
          index_fits = mod-lt (add_size ctx.current_chunk_index 1) (omega (arith, is.index_fits));
          bytes_fit = omega arith;
          chunk_small = is.chunk_small;
          chunks_small = is.chunks_small;
        },
        refl,
      )
      | inr fits ↦ rw fits (
        record {
          index_fits = is.index_fits;
          bytes_fit = ground (arith, fits);
          chunk_small = is.chunk_small;
          chunks_small = is.chunks_small;
        },
        refl,
      )
    ]

-- Writes that each fit a chunk keep the log well-formed, and its configuration.
write_all-IsWellFormed :
    (lens : List ℕ) (ctx : Context)
    → IsWellFormed ctx
    → All (λ len. len ≤ ctx.config.max_chunk_size) lens
    → (ctx' : Context) × ((write_all lens (some ctx) ≡ some ctx')
        × (IsWellFormed ctx' × (ctx'.config ≡ ctx.config)))
unfolding write_all log_rotation_write
write_all-IsWellFormed [] ctx is fits = (ctx, (refl, (is, refl)))
write_all-IsWellFormed (len ∷ lens) ctx is fits =
    let (is', same) = written-IsWellFormed len ctx is fits.0 in
    let (ctx', (ran, (final, same'))) =
      write_all-IsWellFormed lens (written len ctx) is'
        (subst (λ c. All (λ len. len ≤ c.max_chunk_size) lens) (sym same) fits.1) in
    (ctx', (ran, (final, same' ∙ same)))

-- How writes of these lengths fill chunks of a size, where a write is never cut: the lengths in the
-- newest chunk, newest first, and the chunks before it, newest first.
abbrev pub Packing : Type 0
Packing = List ℕ × List (List ℕ)

unfoldable pub sum : List ℕ → ℕ
sum [] = 0
sum (n ∷ ns) = n + sum ns

abbrev pub place : ℕ → ℕ → Packing → Packing
place size len (newest, older) =
    if leb (len + sum newest) size then (len ∷ newest, older) else (len ∷ [], newest ∷ older)

unfoldable pub pack : ℕ → List ℕ → Packing → Packing
pack size [] packing = packing
pack size (len ∷ lens) packing = pack size lens (place size len packing)

-- The counters of a context are those of a packing: the bytes of its newest chunk, and the number
-- of the chunks before it, which goes around.
pub record Counts (packing : Packing) (ctx : Context) : Type 0 where
  pub bytes : ctx.current_chunk_bytes ≡ sum packing.0
  pub index : ctx.current_chunk_index ≡ length packing.1 % ctx.config.max_total_chunks

written-Counts :
    (len : ℕ) (ctx : Context) (packing : Packing)
    → IsWellFormed ctx
    → len ≤ ctx.config.max_chunk_size
    → Counts packing ctx
    → Counts (place ctx.config.max_chunk_size len packing) (written len ctx)
unfolding sum
written-Counts len ctx (newest, older) is small counts =
    let size = ctx.config.max_chunk_size in
    let n = ctx.config.max_total_chunks in
    elim (Bool-cases (ltb size (add_size ctx.current_chunk_bytes len))) [
      | inl over ↦
          let full : leb (len + sum newest) size ≡ false =
            ground (arith, over, counts.bytes, small, is.bytes_fit, is.chunk_small) in
          let alone : add_size 0 len ≡ len + 0 = omega (arith, small, is.chunk_small) in
          let next : add_size ctx.current_chunk_index 1 ≡ ctx.current_chunk_index + 1 =
            omega (arith, is.index_fits, is.chunks_small) in
          rw (over, full)
            (record {
              bytes = alone;
              index =
                  ap (λ i. i % n) next
                  ∙ ap (λ i. (i + 1) % n) counts.index
                  ∙ mod-add-mod (length older) n 1
                  ∙ ap (λ i. i % n) (omega arith);
            })
      | inr room ↦
          let fits : leb (len + sum newest) size ≡ true =
            ground (arith, room, counts.bytes, small, is.bytes_fit, is.chunk_small) in
          let grown : add_size ctx.current_chunk_bytes len ≡ len + sum newest =
            omega (arith, counts.bytes, small, is.bytes_fit, is.chunk_small) in
          rw (room, fits) (record { bytes = grown; index = counts.index })
    ]

write_all-Counts :
    (lens : List ℕ) (ctx : Context) (packing : Packing)
    → IsWellFormed ctx
    → All (λ len. len ≤ ctx.config.max_chunk_size) lens
    → Counts packing ctx
    → (ctx' : Context) × ((write_all lens (some ctx) ≡ some ctx')
        × Counts (pack ctx.config.max_chunk_size lens packing) ctx')
unfolding write_all log_rotation_write pack
write_all-Counts [] ctx packing is fits counts = (ctx, (refl, counts))
write_all-Counts (len ∷ lens) ctx packing is fits counts =
    let (is', same) = written-IsWellFormed len ctx is fits.0 in
    let size_same : (written len ctx).config.max_chunk_size ≡ ctx.config.max_chunk_size =
      ap (λ (c : Config). c.max_chunk_size) same in
    let placed = place ctx.config.max_chunk_size len packing in
    let (ctx', (ran, counts')) =
      write_all-Counts lens (written len ctx) placed is'
        (subst (λ c. All (λ len. len ≤ c.max_chunk_size) lens) (sym same) fits.1)
        (written-Counts len ctx packing is fits.0 counts) in
    (ctx', (ran, subst (λ size. Counts (pack size lens placed) ctx') size_same counts'))

init-IsWellFormed :
    (config : Config)
    → config.max_chunk_size < 2 ^ 63
    → config.max_total_chunks < 2 ^ 63
    → (ctx : Context) × ((log_rotation_init true (some config) ≡ some ctx)
        × (IsWellFormed ctx
            × ((ctx.config.max_chunk_size ≡ or_default config.max_chunk_size 65536)
                × ((ctx.config.max_total_chunks ≡ or_default config.max_total_chunks 5)
                    × Counts ([], []) ctx))))
unfolding log_rotation_init sum
init-IsWellFormed config h k =
    let positive : 0 < or_default config.max_total_chunks 5 = ground arith in
    (
      _,
      (
        refl,
        (
          record {
            index_fits = positive;
            bytes_fit = omega arith;
            chunk_small = ground arith;
            chunks_small = ground arith;
          },
          (refl, (refl, record { bytes = refl; index = sym (mod-eq_of_lt positive) })),
        ),
      ),
    )

-- From `log_rotation_init` with any configuration whose two sizes are below 2^63, writes of any
-- number of lengths that each fit a chunk (of 65536 bytes, when the configuration says 0) all
-- succeed. Behind them the context counts what the writes, packed one after the other into chunks
-- of that size, leave: the bytes of the newest chunk, and as its index the number of the chunks
-- before it modulo the number of chunks. The index is below that number, and the chunk holds no
-- more than its size.
pub log_rotation-IsWellFormed :
    (config : Config) (lens : List ℕ)
    → config.max_chunk_size < 2 ^ 63
    → config.max_total_chunks < 2 ^ 63
    → All (λ len. len ≤ or_default config.max_chunk_size 65536) lens
    → (ctx : Context) × ((write_all lens (log_rotation_init true (some config)) ≡ some ctx)
        × (IsWellFormed ctx
            × (Counts (pack (or_default config.max_chunk_size 65536) lens ([], [])) ctx
                × ((ctx.config.max_chunk_size ≡ or_default config.max_chunk_size 65536)
                    × (ctx.config.max_total_chunks ≡ or_default config.max_total_chunks 5)))))
unfolding sum log_rotation_init
log_rotation-IsWellFormed config lens h k fits =
    let (ctx, (started, (is, (size, (chunks, counts))))) = init-IsWellFormed config h k in
    let fits' : All (λ len. len ≤ ctx.config.max_chunk_size) lens =
      subst (λ n. All (λ len. len ≤ n) lens) (sym size) fits in
    let (ctx', (ran, (final, same))) = write_all-IsWellFormed lens ctx is fits' in
    let (ctx'', (ran', counts')) = write_all-Counts lens ctx ([], []) is fits' counts in
    let same_ctx : ctx'' ≡ ctx' = some-injective _ _ (sym ran' ∙ ran) in
    (
      ctx',
      (
        ap (write_all lens) started ∙ ran,
        (
          final,
          (
            subst (λ c. Counts (pack (or_default config.max_chunk_size 65536) lens ([], [])) c)
                same_ctx (subst (λ n. Counts (pack n lens ([], [])) ctx'') size counts'),
            (
              ap (λ (c : Config). c.max_chunk_size) same ∙ size,
              ap (λ (c : Config). c.max_total_chunks) same ∙ chunks,
            ),
          ),
        ),
      ),
    )
