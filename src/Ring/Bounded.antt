-- ===== src/Ring/Bounded.antt =====
-- Bytes offered to a ring one after the other join its queue as far as there is room.
use zephyr_zyx_modem.Base.{
  take-le, ℕ, zero, suc, ◌+◌, ◌≤◌, ◌≡◌, ◌∙◌, sym, ap, subst, refl, List, [], ◌∷◌, ◌++◌, append-nil,
  length, length-append, take, ltb, ltb→lt, Bool-cases, true, false, inl, inr, arith,
}
use zephyr_zyx_modem.Ring.{Ring, put, offer}
use zephyr_zyx_modem.Ring.Queue.{Holds, put-Holds}

-- what a bounded queue keeps of what is written to it
abbrev pub bounded : ℕ → List ℕ → List ℕ → List ℕ
bounded size queue bytes = take size (queue ++ bytes)

take_short : (n : ℕ) (xs ys : List ℕ) → n ≤ length xs → take n (xs ++ ys) ≡ take n xs
take_short zero xs ys h = refl
take_short (suc n) [] ys h = absurd (omega (arith, h))
take_short (suc n) (x ∷ xs) ys h = ap (◌∷◌ x) (take_short n xs ys (omega (arith, h)))

-- Cutting between two writes loses nothing that the cut behind both keeps.
bounded-append :
    (n : ℕ) (xs ys zs : List ℕ) → take n (take n (xs ++ ys) ++ zs) ≡ take n (xs ++ (ys ++ zs))
bounded-append zero xs ys zs = refl
bounded-append (suc n) [] [] zs = refl
bounded-append (suc n) [] (y ∷ ys) zs = ap (◌∷◌ y) (bounded-append n [] ys zs)
bounded-append (suc n) (x ∷ xs) ys zs = ap (◌∷◌ x) (bounded-append n xs ys zs)

pub bounded-nil : (size : ℕ) (queue : List ℕ) → length queue ≤ size → bounded size queue [] ≡ queue
bounded-nil size queue h = ap (take size) (append-nil queue) ∙ take-le size queue h

pub bounded_fits :
    (size : ℕ) (queue bytes : List ℕ)
    → length queue + length bytes ≤ size
    → bounded size queue bytes ≡ queue ++ bytes
bounded_fits size queue bytes h =
    take-le size (queue ++ bytes) (omega (arith, h, length-append queue bytes))

pub bounded-cons :
    (size b : ℕ) (queue bytes : List ℕ)
    → bounded size (bounded size queue (b ∷ [])) bytes ≡ bounded size queue (b ∷ bytes)
bounded-cons size b queue bytes = bounded-append size queue (b ∷ []) bytes

pub offer-Holds :
    (size b : ℕ) (queue : List ℕ) (r : Ring)
    → Holds size queue r
    → Holds size (bounded size queue (b ∷ [])) (offer size b r)
offer-Holds size b queue r is = elim (Bool-cases (ltb r.count size)) [
  | inl e ↦ rw e (
      subst (λ q. Holds size q (put size b r)) (sym (bounded_fits size queue (b ∷ []) (room e)))
        (put-Holds size queue r is b (omega (arith, room e))))
  | inr e ↦ rw e (subst (λ q. Holds size q r) (sym (full e)) is)
]
  where
    room : ltb r.count size ≡ true → length queue + 1 ≤ size
    room e = omega (arith, ltb→lt _ _ e, is.counted)

    full : ltb r.count size ≡ false → bounded size queue (b ∷ []) ≡ queue
    full e =
        take_short size queue (b ∷ []) (ground (arith, e, is.counted))
        ∙ take-le size queue is.bounded
