-- ===== src/Xmodem/Session/Padding.antt =====
-- The transmitter's buffer: a write over padding, and a file cut into such buffers.
use zephyr_zyx_modem.Base.{
  ℕ, zero, suc, ◌+◌, ◌-◌, ◌≤◌, ◌≡◌, refl, ap, sym, ◌∙◌, List, [], ◌∷◌, ◌++◌, arith, length,
  replicate, take, drop,
}
use zephyr_zyx_modem.Xmodem.Transmit.{overlay}

pub length-overlay : (ws buf : List ℕ) → length (overlay ws buf) ≡ length buf
unfolding overlay
length-overlay [] buf = refl
length-overlay (w ∷ ws) [] = refl
length-overlay (w ∷ ws) (p ∷ buf) = ap suc (length-overlay ws buf)

pub overlay-nil : (ws : List ℕ) → overlay ws [] ≡ []
unfolding overlay
overlay-nil [] = refl
overlay-nil (w ∷ ws) = refl

-- A list that fits is followed by what is left of the padding.
pub overlay-replicate :
    (ws : List ℕ) (n p : ℕ)
    → length ws ≤ n
    → overlay ws (replicate n p) ≡ ws ++ replicate (n - length ws) p
unfolding overlay
overlay-replicate [] n p h = ap (λ k. replicate k p) (omega arith)
overlay-replicate (w ∷ ws) zero p h = absurd (omega arith)
overlay-replicate (w ∷ ws) (suc n) p h =
    ap (◌∷◌ w)
      (overlay-replicate ws n p (omega arith) ∙ ap (λ k. ws ++ replicate k p) (omega arith))

replicate-append : (m n p : ℕ) → replicate m p ++ replicate n p ≡ replicate (m + n) p
replicate-append zero n p = ap (λ k. replicate k p) (omega arith)
replicate-append (suc m) n p =
    ap (◌∷◌ p) (replicate-append m n p) ∙ ap (λ k. replicate k p) {x = suc (m + n)} (omega arith)

-- Two buffers filled one behind the other are one longer buffer.
pub overlay-split :
    (xs : List ℕ) (m n p : ℕ)
    → overlay (take m xs) (replicate m p) ++ overlay (drop m xs) (replicate n p)
      ≡ overlay xs (replicate (m + n) p)
unfolding overlay
overlay-split xs zero n p = ap (λ k. overlay xs (replicate k p)) (omega arith)
overlay-split [] (suc m) n p = replicate-append (suc m) n p
overlay-split (x ∷ xs) (suc m) n p =
    ap (◌∷◌ x) (overlay-split xs m n p)
    ∙ ap (λ k. overlay (x ∷ xs) (replicate k p)) {x = suc (m + n)} (omega arith)

drop-nil : (n : ℕ) → drop {A = ℕ} n [] ≡ []
drop-nil zero = refl
drop-nil (suc n) = refl

pub drop-drop : (m n : ℕ) (xs : List ℕ) → drop n (drop m xs) ≡ drop (m + n) xs
drop-drop zero n xs = ap (λ k. drop k xs) (omega arith)
drop-drop (suc m) n [] = drop-nil n ∙ sym (drop-nil (suc m + n))
drop-drop (suc m) n (x ∷ xs) =
    drop-drop m n xs ∙ ap (λ k. drop k (x ∷ xs)) {x = suc (m + n)} (omega arith)
