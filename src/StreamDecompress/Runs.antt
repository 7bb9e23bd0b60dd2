-- ===== src/StreamDecompress/Runs.antt =====
-- Run-length decompression gives back the runs that were written.
use zephyr_zyx_modem.Base.{
  ℕ, zero, suc, ◌+◌, ◌≤◌, ◌<◌, ◌≡◌, ◌≢◌, ◌∙◌, false, List, [], ◌∷◌, ◌++◌, append_assoc, append-nil,
  length, length-append, length-replicate, lt→ltb, ◌==◌, replicate, get_or, refl, ap, sym, arith,
  All,
}
use zephyr_zyx_modem.StreamDecompress.{last_byte, repeat, rle_loop, produced, compress_rle}

-- a byte and how many more of it follow
pub record Run : Type 0 where
  pub value : ℕ
  pub more : ℕ

-- A run of the marker itself has no encoding that is read back.
pub record IsRun (run : Run) : Type 0 where
  pub plain : run.value ≢ 0x90
  pub fits : run.more < 256

repeat_mark : ℕ → List ℕ → List ℕ
repeat_mark zero rest = rest
repeat_mark (suc n) rest = 0x90 ∷ (suc n ∷ rest)

-- each run as its byte and, when more follow, the marker and their number
unfoldable pub encode : List Run → List ℕ
unfolding repeat_mark
encode [] = []
encode (run ∷ runs) = run.value ∷ repeat_mark run.more (encode runs)

unfoldable pub expand : List Run → List ℕ
expand [] = []
expand (run ∷ runs) = run.value ∷ (replicate run.more run.value ++ expand runs)

repeat-replicate :
    (count val capacity : ℕ) (out : List ℕ)
    → length out + count ≤ capacity
    → repeat count val capacity out ≡ out ++ replicate count val
unfolding repeat
repeat-replicate zero val capacity out h = sym (append-nil out)
repeat-replicate (suc count) val capacity out h =
    rw (lt→ltb (length out) capacity (omega (arith, h))) (
      repeat-replicate count val capacity (out ++ (val ∷ []))
        (omega (arith, length-append out (val ∷ []), h))
      ∙ append_assoc out (val ∷ []) (replicate count val))

get_or-last : (out : List ℕ) (b : ℕ) → get_or (out ++ (b ∷ [])) (length out) 0 ≡ b
get_or-last [] b = refl
get_or-last (x ∷ out) b = get_or-last out b

last_byte-append : (out : List ℕ) (b : ℕ) → last_byte (out ++ (b ∷ [])) ≡ b
last_byte-append out b =
    ap (λ i. get_or (out ++ (b ∷ [])) i 0) (omega (arith, length-append out (b ∷ [])))
    ∙ get_or-last out b

rle_literal :
    (capacity b : ℕ) (rest out : List ℕ)
    → b ≢ 0x90
    → length out < capacity
    → rle_loop capacity (b ∷ rest) out ≡ rle_loop capacity rest (out ++ (b ∷ []))
unfolding rle_loop
rle_literal capacity b [] out plain room = rw (lt→ltb (length out) capacity room) refl
rle_literal capacity b (count ∷ rest) out plain room =
    rw (lt→ltb (length out) capacity room, other) refl
  where
    other : (b == 0x90) ≡ false
    other = ground (arith, plain)

rle_run :
    (capacity n : ℕ) (rest out : List ℕ)
    → length out < capacity
    → rle_loop capacity (0x90 ∷ (suc n ∷ rest)) out
      ≡ rle_loop capacity rest (repeat (suc n) (last_byte out) capacity out)
unfolding rle_loop
rle_run capacity n rest out room = rw (lt→ltb (length out) capacity room, positive) refl
  where
    positive : (suc n == 0) ≡ false
    positive = ground arith

rle_mark :
    (capacity n b : ℕ) (rest out : List ℕ)
    → length out + suc n ≤ capacity
    → rle_loop capacity (repeat_mark n rest) (out ++ (b ∷ []))
      ≡ rle_loop capacity rest (out ++ (b ∷ replicate n b))
unfolding repeat_mark
rle_mark capacity zero b rest out h = refl
rle_mark capacity (suc n) b rest out h =
    rle_run capacity n rest (out ++ (b ∷ [])) (omega (arith, length-append out (b ∷ []), h))
    ∙ ap (λ v. rle_loop capacity rest (repeat (suc n) v capacity (out ++ (b ∷ []))))
        (last_byte-append out b)
    ∙ ap (rle_loop capacity rest) (
        repeat-replicate (suc n) b capacity (out ++ (b ∷ []))
          (omega (arith, length-append out (b ∷ []), h))
        ∙ append_assoc out (b ∷ []) (replicate (suc n) b))

length-expand :
    (run : Run) (runs : List Run)
    → length (expand (run ∷ runs)) ≡ suc run.more + length (expand runs)
unfolding expand
length-expand run runs = omega (
  arith,
  length-append (replicate run.more run.value) (expand runs),
  length-replicate run.more run.value,
)

rle_loop-encode :
    (capacity : ℕ) (runs : List Run) (out : List ℕ)
    → All IsRun runs
    → length out + length (expand runs) ≤ capacity
    → rle_loop capacity (encode runs) out ≡ out ++ expand runs
unfolding encode expand rle_loop repeat_mark
rle_loop-encode capacity [] out is h = sym (append-nil out)
rle_loop-encode capacity (run ∷ runs) out is h =
    rle_literal capacity run.value (repeat_mark run.more (encode runs)) out is.0.plain
      (omega (arith, length-expand run runs, h))
    ∙ rle_mark capacity run.more run.value (encode runs) out
        (omega (arith, length-expand run runs, h))
    ∙ rle_loop-encode capacity runs (out ++ (run.value ∷ replicate run.more run.value)) is.1 (
        omega (
          arith,
          length-append out (run.value ∷ replicate run.more run.value),
          length-replicate run.more run.value,
          length-expand run runs,
          h,
        ))
    ∙ append_assoc out (run.value ∷ replicate run.more run.value) (expand runs)

-- Runs of bytes other than the marker 0x90, each of at most 256, come back in full from their
-- encoding by run-length decompression, when the output has room for them.
pub produced-encode :
    (capacity : ℕ) (runs : List Run)
    → All IsRun runs
    → length (expand runs) ≤ capacity
    → produced compress_rle capacity (encode runs) ≡ expand runs
unfolding produced
produced-encode capacity runs is h = rle_loop-encode capacity runs [] is (omega (arith, h))
