-- ===== src/Clib/Text.antt =====
-- Texts that end with a NUL, and the buffers that hold them.
use zephyr_zyx_modem.Base.{
  ℕ, suc, ◌+◌, ◌≡◌, refl, ap, ◌∙◌, false, List, [], ◌∷◌, ◌++◌, arith, length, drop, get_or, ◌==◌,
  All,
}
use zephyr_zyx_modem.Clib.{until_nul}

pub until_nul-append :
    (name more : List ℕ) → All (λ b. (b == 0) ≡ false) name → until_nul (name ++ (0 ∷ more)) ≡ name
unfolding until_nul
until_nul-append [] more h = refl
until_nul-append (b ∷ name) more h = rw h.0 (ap (◌∷◌ b) (until_nul-append name more h.1))

pub drop-append : (name more : List ℕ) → drop (length name + 1) (name ++ (0 ∷ more)) ≡ more
drop-append [] more = refl
drop-append (b ∷ name) more =
    let e : suc (length name) + 1 ≡ suc (length name + 1) = omega arith in
    ap (λ n. drop n (b ∷ (name ++ (0 ∷ more)))) e ∙ drop-append name more

pub get_or-append :
    (name more : List ℕ) (d : ℕ) → get_or (name ++ (0 ∷ more)) (length name + 1) d ≡ get_or more 0 d
get_or-append [] more d = refl
get_or-append (b ∷ name) more d =
    let e : suc (length name) + 1 ≡ suc (length name + 1) = omega arith in
    ap (λ n. get_or (b ∷ (name ++ (0 ∷ more))) n d) e ∙ get_or-append name more d
