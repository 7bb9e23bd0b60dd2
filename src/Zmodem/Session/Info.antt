-- ===== src/Zmodem/Session/Info.antt =====
-- The file information of a ZFILE subpacket comes back.
use zephyr_zyx_modem.Base.{
  take-le, ℕ, ◌+◌, ◌≤◌, ◌<◌, ◌^◌, ◌≡◌, ap, ◌∙◌, true, false, List, [], ◌∷◌, ◌++◌, append_assoc,
  arith, length, length-append, length-take, take, drop, ltb, lt→ltb, ◌==◌, if◌then◌else◌, All,
}
use zephyr_zyx_modem.Clib.{until_nul, strtoul, print_size}
use zephyr_zyx_modem.Clib.Decimal.{strtoul-print_size, length-print_size}
use zephyr_zyx_modem.Clib.Text.{until_nul-append, drop-append}
use zephyr_zyx_modem.Zmodem.{FileInfo}
use zephyr_zyx_modem.Zmodem.Receive.{file_info}
use zephyr_zyx_modem.Zmodem.Transmit.{file_subpacket}

-- With a NUL behind the name, the information is the name and the number behind that.
file_info-parts :
    (stale name more : List ℕ)
    → length name ≤ 200
    → All (λ b. (b == 0) ≡ false) name
    → 1 ≤ length more
    → file_info stale (name ++ (0 ∷ more))
      ≡ record { filename = name; size = strtoul (more ++ stale) }
unfolding file_info
file_info-parts stale name more short no_nul long =
    let whole : take 255 (until_nul (name ++ (0 ∷ more))) ≡ name =
      ap (take 255) (until_nul-append name more no_nul) ∙ take-le 255 name (omega arith) in
    let sized : ltb (length name + 1) (length (name ++ (0 ∷ more))) ≡ true =
      lt→ltb (length name + 1) (length (name ++ (0 ∷ more)))
        (omega (arith, length-append name (0 ∷ more))) in
    ap
      (λ n. record {
        filename = n;
        size =
            if ltb (length n + 1) (length (name ++ (0 ∷ more)))
            then strtoul (drop (length n + 1) (name ++ (0 ∷ more)) ++ stale)
            else 0;
      })
      whole
    ∙ ap
        (λ b. record {
          filename = name;
          size = if b then strtoul (drop (length name + 1) (name ++ (0 ∷ more)) ++ stale) else 0;
        })
        sized
    ∙ ap (λ m. record { filename = name; size = strtoul (m ++ stale) }) (drop-append name more)

-- From the ZFILE subpacket that the transmitter builds, the receiver takes the same name and the
-- same size, whatever its buffer holds behind the subpacket. The name has at most 200 bytes, none
-- of them NUL, and the size fits `size_t`.
pub file_info-file_subpacket :
    (stale : List ℕ) (info : FileInfo)
    → length info.filename ≤ 200
    → All (λ b. (b == 0) ≡ false) info.filename
    → info.size < 2 ^ 64
    → file_info stale (file_subpacket info).payload ≡ info
file_info-file_subpacket stale info short no_nul fits =
    let more = print_size info.size ++ (0 ∷ []) in
    ap (λ n. file_info stale (n ++ (0 ∷ more))) (take-le 200 info.filename short)
    ∙ file_info-parts stale info.filename more short no_nul
        (omega (arith, length-append (print_size info.size) (0 ∷ [])))
    ∙ ap (λ k. record { filename = info.filename; size = k })
        (ap strtoul (append_assoc (print_size info.size) (0 ∷ []) stale)
          ∙ strtoul-print_size info.size stale fits)

-- The ZFILE subpacket fits the receiver's buffer.
pub length-file_subpacket : (info : FileInfo) → length (file_subpacket info).payload ≤ 1024
length-file_subpacket info = omega (
  arith,
  length-append (take 200 info.filename) (0 ∷ (print_size info.size ++ (0 ∷ []))),
  length-take 200 info.filename,
  length-append (print_size info.size) (0 ∷ []),
  length-print_size info.size,
)
