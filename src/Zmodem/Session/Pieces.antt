-- ===== src/Zmodem/Session/Pieces.antt =====
-- The transmitter cuts a file into its pieces.
use zephyr_zyx_modem.Base.{
  ℕ, zero, suc, ◌+◌, ◌-◌, ◌/◌, ◌≤◌, ◌<◌, ◌≡◌, refl, ap, ◌∙◌, sym, subst, min, true, false, Bool,
  Bool-cases, inl, inr, List, [], ◌∷◌, arith, length, take, drop, ltb, leb, ltb→lt, ◌==◌,
  if◌then◌else◌,
}
use zephyr_zyx_modem.Zmodem.{zcrcg, zcrcw}
use zephyr_zyx_modem.Zmodem.Subpacket.{Subpacket}
use zephyr_zyx_modem.Zmodem.Transmit.{data_subpacket, data_subpackets}
use zephyr_zyx_modem.Zmodem.Session.{Source, IsSource, pieces, subpackets_of}
use zephyr_zyx_modem.Zmodem.Session.Data.{Frames, data_subpackets-Frames}
use zephyr_zyx_modem.Zmodem.Session.Contents.{
  payloads, read_from, drop-drop, data_subpackets-contents,
}

-- A `read_data` gives what a file holds, as long as it is asked for bytes of the file.
pub record Reads (read_data : ℕ → ℕ → List ℕ) (contents : List ℕ) : Type 0 where
  pub within :
      (offset n : ℕ)
      → offset + n ≤ length contents
      → read_data offset n ≡ take n (drop offset contents)

length-drop : (n : ℕ) (xs : List ℕ) → length (drop n xs) ≡ length xs - n
length-drop zero xs = omega arith
length-drop (suc n) [] = omega arith
length-drop (suc n) (x ∷ xs) = omega (arith, length-drop n xs)

length-take_within : (n : ℕ) (xs : List ℕ) → n ≤ length xs → length (take n xs) ≡ n
length-take_within zero xs h = refl
length-take_within (suc n) [] h = absurd (omega (arith, h))
length-take_within (suc n) (x ∷ xs) h = ap suc (length-take_within n xs (omega (arith, h)))

-- A list does not go past its end.
take-min : (n : ℕ) (xs : List ℕ) → take (min (length xs) n) xs ≡ take n xs
take-min zero xs = let e : min (length xs) 0 ≡ 0 = omega arith in ap (λ k. take k xs) e
take-min (suc n) [] = let e : min 0 (suc n) ≡ 0 = omega arith in ap (λ k. take {A = ℕ} k []) e
take-min (suc n) (x ∷ xs) =
    let e : min (suc (length xs)) (suc n) ≡ suc (min (length xs) n) = omega arith in
    ap (λ k. take k (x ∷ xs)) e ∙ ap (◌∷◌ x) (take-min n xs)

drop-min : (n : ℕ) (xs : List ℕ) → drop (min (length xs) n) xs ≡ drop n xs
drop-min zero xs = let e : min (length xs) 0 ≡ 0 = omega arith in ap (λ k. drop k xs) e
drop-min (suc n) [] = let e : min 0 (suc n) ≡ 0 = omega arith in ap (λ k. drop {A = ℕ} k []) e
drop-min (suc n) (x ∷ xs) =
    let e : min (suc (length xs)) (suc n) ≡ suc (min (length xs) n) = omega arith in
    ap (λ k. drop k (x ∷ xs)) e ∙ drop-min n xs

module _ (read_data : ℕ → ℕ → List ℕ) (contents : List ℕ) (reads : Reads read_data contents) where
  -- One subpacket is the next piece.
  data_subpacket-piece :
      (offset : ℕ)
      → offset < length contents
      → ◌≡◌ {A = Subpacket} (data_subpacket read_data offset (length contents)) (record {
        payload = take 1024 (drop offset contents);
        ending = if leb (length (drop offset contents)) 1024 then zcrcw else zcrcg;
      })
  data_subpacket-piece offset inside =
      let rest = drop offset contents in
      let left : length rest ≡ length contents - offset = length-drop offset contents in
      let chunk = min (length contents - offset) 1024 in
      let bytes : read_data offset chunk ≡ take 1024 rest =
        reads.within offset chunk (omega (arith, inside))
        ∙ ap (λ n. take (min n 1024) rest) (sym left)
        ∙ take-min 1024 rest in
      let last : leb (length contents) (offset + chunk) ≡ leb (length rest) 1024 =
        same_test offset (length contents) inside ∙ ap (λ n. leb n 1024) (sym left) in
      ap
        (λ l. record {
          payload = l;
          ending = if leb (length contents) (offset + chunk) then zcrcw else zcrcg;
        })
        bytes
      ∙ ap (λ (b : Bool). record { payload = take 1024 rest; ending = if b then zcrcw else zcrcg })
          last
    where
      same_test :
          (offset size : ℕ)
          → offset < size
          → leb size (offset + min (size - offset) 1024) ≡ leb (size - offset) 1024
      same_test offset size h = elim (Bool-cases (leb (size - offset) 1024)) [
        | inl e ↦
            let e' : leb size (offset + min (size - offset) 1024) ≡ true = ground arith in
            e' ∙ sym e
        | inr e ↦
            let e' : leb size (offset + min (size - offset) 1024) ≡ false = ground arith in
            e' ∙ sym e
      ]

  -- From any offset on, the subpackets are the pieces of the rest of the file.
  pub data_subpackets-pieces :
      (most offset : ℕ)
      → data_subpackets most read_data offset (length contents) ≡ pieces most (drop offset contents)
  unfolding data_subpackets pieces
  data_subpackets-pieces zero offset = refl
  data_subpackets-pieces (suc most) offset =
      let rest = drop offset contents in
      let left : length rest ≡ length contents - offset = length-drop offset contents in
      let chunk = min (length contents - offset) 1024 in
      elim (Bool-cases (ltb offset (length contents))) [
        | inl inside ↦
            let within = ltb→lt offset (length contents) inside in
            let some_left : (length rest == 0) ≡ false = ground (arith, left, within) in
            let next : drop (offset + chunk) contents ≡ drop 1024 rest =
              sym (drop-drop offset chunk contents)
              ∙ ap (λ n. drop (min n 1024) rest) (sym left)
              ∙ drop-min 1024 rest in
            rw (inside, some_left)
              (ap (λ p. p ∷ data_subpackets most read_data (offset + chunk) (length contents))
                  (data_subpacket-piece offset within)
                ∙ ap
                    (◌∷◌ (record {
                      payload = take 1024 rest;
                      ending = if leb (length rest) 1024 then zcrcw else zcrcg;
                    }))
                    (data_subpackets-pieces most (offset + chunk) ∙ ap (pieces most) next))
        | inr outside ↦
            let none_left : (length rest == 0) ≡ true = ground (arith, left, outside) in
            rw (outside, none_left) refl
      ]

-- The pieces of a file are the subpackets of one ZDATA frame.
pub subpackets_of-Frames : (f : Source) → IsSource f → Frames f.info.size 0 (subpackets_of f)
subpackets_of-Frames f is =
    let size = length f.contents in
    subst (λ n. Frames n 0 (subpackets_of f)) (sym is.sized)
      (subst (Frames size 0)
        (data_subpackets-pieces (read_from f.contents) f.contents
          (record { within = λ offset n h. refl }) (size / 1024 + 1) 0)
        (data_subpackets-Frames (size / 1024 + 1) (read_from f.contents) 0 size
          (λ offset n h.
            length-take_within n (drop offset f.contents)
              (omega (arith, h, length-drop offset f.contents)))
          (omega (arith, is.nonempty, is.sized)) (omega arith)))

-- Together the pieces hold the file.
pub payloads-subpackets_of : (f : Source) → payloads (subpackets_of f) ≡ f.contents
payloads-subpackets_of f =
    ap payloads (
      sym (
        data_subpackets-pieces (read_from f.contents) f.contents
          (record { within = λ offset n h. refl }) (length f.contents / 1024 + 1) 0))
    ∙ data_subpackets-contents f.contents 0
