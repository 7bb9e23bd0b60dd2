-- ===== src/Ymodem/Info.antt =====
-- The block 0 of a file is read back.
use zephyr_zyx_modem.Base.{
  take-le, ℕ, zero, suc, ◌+◌, ◌-◌, ◌≤◌, ◌<◌, ◌^◌, ◌≡◌, ap, ◌∙◌, true, false, List, [], ◌∷◌, ◌++◌,
  append_assoc, arith, length, length-append, length-replicate, take, get_or, replicate, ltb,
  lt→ltb, ◌==◌, All,
}
use zephyr_zyx_modem.Clib.{until_nul, strtoul, print_size}
use zephyr_zyx_modem.Clib.Decimal.{
  strtoul-print_size, length-print_size, print_size-nonzero, print_size-IsNonempty,
}
use zephyr_zyx_modem.Clib.Text.{until_nul-append, drop-append, get_or-append}
use zephyr_zyx_modem.Ymodem.{FileInfo, parse_size, parse_block0, block0}

get_or-nonzero :
    (text more : List ℕ)
    → All (λ b. (b == 0) ≡ false) text
    → 1 ≤ length text
    → (get_or (text ++ more) 0 0 == 0) ≡ false
get_or-nonzero [] more h l = absurd (omega arith)
get_or-nonzero (b ∷ text) more h l = h.0

abbrev zeros : ℕ → List ℕ
zeros k = 0 ∷ replicate k 0

replicate-suc : (n : ℕ) → 1 ≤ n → replicate {A = ℕ} n 0 ≡ 0 ∷ replicate (n - 1) 0
replicate-suc zero h = absurd (omega arith)
replicate-suc (suc n) h = let e : n ≡ suc n - 1 = omega arith in ap zeros e

-- The number behind the name and its NUL.
parse_size-text :
    (name more : List ℕ) (size : ℕ)
    → size < 2 ^ 64
    → parse_size (length name + 1) (name ++ (0 ∷ (print_size size ++ (0 ∷ more)))) ≡ size
parse_size-text name more size fits =
    let text = name ++ (0 ∷ (print_size size ++ (0 ∷ more))) in
    let inside : ltb (length name + 1) (length text) ≡ true =
      lt→ltb (length name + 1) (length text) (
        omega (
          arith,
          length-append name (0 ∷ (print_size size ++ (0 ∷ more))),
          length-append (print_size size) (0 ∷ more),
        )) in
    let solid : (get_or text (length name + 1) 0 == 0) ≡ false =
      ap (λ b. b == 0) (get_or-append name (print_size size ++ (0 ∷ more)) 0)
      ∙ get_or-nonzero (print_size size) (0 ∷ more) (print_size-nonzero size)
          (print_size-IsNonempty size) in
    rw (inside, solid)
      (ap (λ l. strtoul (take 31 (until_nul l) ++ (0 ∷ [])))
          (drop-append name (print_size size ++ (0 ∷ more)))
        ∙ ap (λ l. strtoul (take 31 l ++ (0 ∷ [])))
            (until_nul-append (print_size size) more (print_size-nonzero size))
        ∙ ap (λ l. strtoul (l ++ (0 ∷ [])))
            (take-le 31 (print_size size) (omega (arith, length-print_size size)))
        ∙ strtoul-print_size size [] fits)

-- a buffer of 128 bytes that holds a name and a size
parse_block0-text :
    (name more : List ℕ) (size : ℕ)
    → 1 ≤ length name
    → length name ≤ 100
    → All (λ b. (b == 0) ≡ false) name
    → size < 2 ^ 64
    → length (name ++ (0 ∷ (print_size size ++ (0 ∷ more)))) ≤ 128
    → parse_block0 (name ++ (0 ∷ (print_size size ++ (0 ∷ more)))) 128
      ≡ record { filename = name; size = size }
unfolding parse_block0
parse_block0-text name more size named short no_nul fits fills =
    let text = name ++ (0 ∷ (print_size size ++ (0 ∷ more))) in
    let whole : take 128 text ≡ text = take-le 128 text fills in
    let front : take 255 (until_nul text) ≡ name =
      ap (take 255) (until_nul-append name (print_size size ++ (0 ∷ more)) no_nul)
      ∙ take-le 255 name (omega arith) in
    rw (get_or-nonzero name (0 ∷ (print_size size ++ (0 ∷ more))) no_nul named) (
      ap
        (λ l. record {
          filename = take 255 (until_nul l);
          size = parse_size (length (take 255 (until_nul l)) + 1) l;
        })
        whole
      ∙ ap (λ n. record { filename = n; size = parse_size (length n + 1) text }) front
      ∙ ap (λ k. record { filename = name; size = k }) (parse_size-text name more size fits))

-- `parse_block0` takes from the block 0 that `ymodem_transmit` builds the same name and the same
-- size. The name has 1 to 100 bytes, none of them NUL, and the size fits `size_t`.
pub parse_block0-block0 :
    (info : FileInfo)
    → 1 ≤ length info.filename
    → length info.filename ≤ 100
    → All (λ b. (b == 0) ≡ false) info.filename
    → info.size < 2 ^ 64
    → parse_block0 (block0 info) 128 ≡ info
unfolding block0
parse_block0-block0 info named short no_nul fits =
    let name = info.filename in
    let text = name ++ (0 ∷ print_size info.size) in
    let free = 128 - length text in
    let more : List ℕ = replicate (free - 1) 0 in
    let len : length text ≡ length name + 1 + length (print_size info.size) =
      omega (arith, length-append name (0 ∷ print_size info.size)) in
    let room : 1 ≤ free = omega (arith, len, length-print_size info.size) in
    let buffer : text ++ replicate free 0 ≡ name ++ (0 ∷ (print_size info.size ++ (0 ∷ more))) =
      ap (λ l. text ++ l) (replicate-suc free room)
      ∙ append_assoc name (0 ∷ print_size info.size) (0 ∷ more) in
    let fills : length (name ++ (0 ∷ (print_size info.size ++ (0 ∷ more)))) ≤ 128 = omega (
      arith,
      length-append name (0 ∷ (print_size info.size ++ (0 ∷ more))),
      length-append (print_size info.size) (0 ∷ more),
      length-replicate {A = ℕ} (free - 1) 0,
      len,
      room,
    ) in
    ap
      (λ n.
        parse_block0
          ((n ++ (0 ∷ print_size info.size))
            ++ replicate (128 - length (n ++ (0 ∷ print_size info.size))) 0)
          128)
      (take-le 100 name short)
    ∙ ap (λ b. parse_block0 b 128) buffer
    ∙ parse_block0-text name more info.size named short no_nul fits fills
