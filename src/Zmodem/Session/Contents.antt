-- ===== src/Zmodem/Session/Contents.antt =====
-- The subpackets of a file hold the file.
use zephyr_zyx_modem.Base.{
  ℕ, zero, suc, ◌+◌, ◌-◌, ◌*◌, ◌/◌, ◌≤◌, ◌≡◌, refl, ap, ◌∙◌, sym, min, Bool-cases, inl, inr, List,
  [], ◌∷◌, ◌++◌, arith, length, take, drop, ltb, ltb→lt,
}
use zephyr_zyx_modem.Zmodem.Subpacket.{Subpacket}
use zephyr_zyx_modem.Zmodem.Transmit.{data_subpackets}

abbrev pub payloads : List Subpacket → List ℕ
payloads [] = []
payloads (p ∷ ps) = p.payload ++ payloads ps

-- a `read_data` that reads from a buffer
abbrev pub read_from : List ℕ → ℕ → ℕ → List ℕ
read_from contents offset n = take n (drop offset contents)

pub take-drop : (n : ℕ) (xs : List ℕ) → take n xs ++ drop n xs ≡ xs
take-drop zero xs = refl
take-drop (suc n) [] = refl
take-drop (suc n) (x ∷ xs) = ap (◌∷◌ x) (take-drop n xs)

drop-nil : (n : ℕ) → drop {A = ℕ} n [] ≡ []
drop-nil zero = refl
drop-nil (suc n) = refl

pub drop-drop : (m n : ℕ) (xs : List ℕ) → drop n (drop m xs) ≡ drop (m + n) xs
drop-drop zero n xs = ap (λ k. drop k xs) (omega arith)
drop-drop (suc m) n [] = drop-nil n ∙ sym (drop-nil (suc m + n))
drop-drop (suc m) n (x ∷ xs) =
    let e : suc (m + n) ≡ suc m + n = omega arith in drop-drop m n xs ∙ ap (λ k. drop k (x ∷ xs)) e

drop-past : (n : ℕ) (xs : List ℕ) → length xs ≤ n → drop n xs ≡ []
drop-past zero [] h = refl
drop-past zero (x ∷ xs) h = absurd (omega arith)
drop-past (suc n) [] h = refl
drop-past (suc n) (x ∷ xs) h = drop-past n xs (omega arith)

data_subpackets-drop :
    (fuel : ℕ) (contents : List ℕ) (offset : ℕ)
    → length contents ≤ offset + 1024 * fuel
    → payloads (data_subpackets fuel (read_from contents) offset (length contents))
      ≡ drop offset contents
unfolding data_subpackets
data_subpackets-drop zero contents offset h = sym (drop-past offset contents (omega arith))
data_subpackets-drop (suc fuel) contents offset h =
    elim (Bool-cases (ltb offset (length contents))) [
      | inl inside ↦
          let chunk = min (length contents - offset) 1024 in
          let within = ltb→lt offset (length contents) inside in
          rw inside (
            ap (λ l. take chunk (drop offset contents) ++ l)
              (data_subpackets-drop fuel contents (offset + chunk) (omega (arith, within))
                ∙ sym (drop-drop offset chunk contents))
            ∙ take-drop chunk (drop offset contents))
      | inr outside ↦ rw outside (sym (drop-past offset contents (ground (arith, outside))))
    ]

-- The subpackets that the transmitter cuts from a file in a buffer, from any offset on, carry
-- together the bytes of the file from that offset to its end.
pub data_subpackets-contents :
    (contents : List ℕ) (offset : ℕ)
    → payloads
        (data_subpackets (length contents / 1024 + 1) (read_from contents) offset (length contents))
      ≡ drop offset contents
data_subpackets-contents contents offset =
    data_subpackets-drop (length contents / 1024 + 1) contents offset (omega arith)
