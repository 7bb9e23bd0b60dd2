-- ===== src/Base/Xor.antt =====
-- Exclusive or, one binary digit at a time, and the laws that take a mask off again.
use Prim.Native.Nat.{
  ℕ, zero, suc, ◌+◌, ◌*◌, ◌/◌, ◌%◌, ◌≤◌, ◌<◌, ◌^◌, bit_xor, bit_xor-bitwise, digits, differ,
}
use mathlib.Core.Path.{◌≡◌, refl, ap, ◌∙◌, sym}
use native.Mathlib.Nat.{pow-suc}
use native.Mathlib.Omega.{arith}
use mathlib.Core.Bool.{true, false}
use zephyr_zyx_modem.Base.Tests.{◌==◌}

-- the native operation, with its fuel
abbrev xor_fueled : ℕ → ℕ → ℕ → ℕ
xor_fueled fuel a b = digits (λ rest. rest) differ fuel a b

-- Any fuel that covers the first number gives the same digits.
xor_fueled-enough : (a b n m : ℕ) → a ≤ n → a ≤ m → xor_fueled n a b ≡ xor_fueled m a b
xor_fueled-enough zero b zero zero h k = refl
xor_fueled-enough zero b zero (suc m) h k = refl
xor_fueled-enough zero b (suc n) zero h k = refl
xor_fueled-enough zero b (suc n) (suc m) h k = refl
xor_fueled-enough (suc a) b zero m h k = absurd (omega (arith, h))
xor_fueled-enough (suc a) b (suc n) zero h k = absurd (omega (arith, k))
xor_fueled-enough (suc a) b (suc n) (suc m) h k =
    ap (λ q. q * 2 + differ (suc a % 2) (b % 2))
      (xor_fueled-enough (suc a / 2) (b / 2) n m (omega (arith, h)) (omega (arith, k)))

xor_digit : (a b : ℕ) → bit_xor a b ≡ bit_xor (a / 2) (b / 2) * 2 + differ (a % 2) (b % 2)
xor_digit zero b =
    bit_xor-bitwise 0 b ∙ zero_case ∙ sym (ap (λ q. q * 2 + b % 2) (bit_xor-bitwise 0 (b / 2)))
  where
    zero_case : b ≡ b / 2 * 2 + b % 2
    zero_case = omega arith
xor_digit (suc a) b =
    bit_xor-bitwise (suc a) b
    ∙ ap (λ q. q * 2 + differ (suc a % 2) (b % 2))
        (xor_fueled-enough (suc a / 2) (b / 2) a (suc a / 2) (omega arith) (omega arith)
          ∙ sym (bit_xor-bitwise (suc a / 2) (b / 2)))

-- what `differ` does on two digits
differ-cases :
    (x y : ℕ)
    → x < 2
    → y < 2
    → (differ x y < 2) × ((differ (differ x y) y ≡ x) × (differ x y ≡ differ y x))
differ-cases zero zero h k = (omega arith, (refl, refl))
differ-cases zero (suc zero) h k = (omega arith, (refl, refl))
differ-cases zero (suc (suc y)) h k = absurd (omega (arith, k))
differ-cases (suc zero) zero h k = (omega arith, (refl, refl))
differ-cases (suc zero) (suc zero) h k = (omega arith, (refl, refl))
differ-cases (suc zero) (suc (suc y)) h k = absurd (omega (arith, k))
differ-cases (suc (suc x)) y h k = absurd (omega (arith, h))

-- three digits
differ_assoc : (x y z : ℕ) → x < 2 → y < 2 → z < 2 → differ (differ x y) z ≡ differ x (differ y z)
differ_assoc zero zero zero h k l = refl
differ_assoc zero zero (suc zero) h k l = refl
differ_assoc zero (suc zero) zero h k l = refl
differ_assoc zero (suc zero) (suc zero) h k l = refl
differ_assoc (suc zero) zero zero h k l = refl
differ_assoc (suc zero) zero (suc zero) h k l = refl
differ_assoc (suc zero) (suc zero) zero h k l = refl
differ_assoc (suc zero) (suc zero) (suc zero) h k l = refl
differ_assoc (suc (suc x)) y z h k l = absurd (omega (arith, h))
differ_assoc x (suc (suc y)) z h k l = absurd (omega (arith, k))
differ_assoc x y (suc (suc z)) h k l = absurd (omega (arith, l))

xor_comm_below : (n a b : ℕ) → a ≤ n → b ≤ n → bit_xor a b ≡ bit_xor b a
xor_comm_below zero a b h k =
    ap (λ x. bit_xor x b) a_zero
    ∙ ap (bit_xor 0) b_zero
    ∙ sym (ap (bit_xor b) a_zero ∙ ap (λ x. bit_xor x 0) b_zero)
  where
    a_zero : a ≡ 0
    a_zero = omega (arith, h)

    b_zero : b ≡ 0
    b_zero = omega (arith, k)
xor_comm_below (suc n) a b h k = omega (
  arith,
  xor_digit a b,
  xor_digit b a,
  xor_comm_below n (a / 2) (b / 2) (omega (arith, h)) (omega (arith, k)),
  (differ-cases (a % 2) (b % 2) (omega arith) (omega arith)).1.1,
)

pub xor_comm : (a b : ℕ) → bit_xor a b ≡ bit_xor b a
xor_comm a b = xor_comm_below (a + b) a b (omega arith) (omega arith)

-- the two halves of an exclusive or
pub xor_half :
    (a b : ℕ)
    → (bit_xor a b / 2 ≡ bit_xor (a / 2) (b / 2)) × (bit_xor a b % 2 ≡ differ (a % 2) (b % 2))
xor_half a b =
    let small = (differ-cases (a % 2) (b % 2) (omega arith) (omega arith)).0 in
    (omega (arith, xor_digit a b, small), omega (arith, xor_digit a b, small))

xor_assoc_below :
    (n a b c : ℕ) → a ≤ n → b ≤ n → c ≤ n → bit_xor (bit_xor a b) c ≡ bit_xor a (bit_xor b c)
xor_assoc_below zero a b c h k l =
    ap (λ x. bit_xor (bit_xor x b) c) a_zero
    ∙ ap (λ x. bit_xor (bit_xor 0 x) c) b_zero
    ∙ ap (λ x. bit_xor (bit_xor 0 0) x) c_zero
    ∙ sym (
        ap (λ x. bit_xor x (bit_xor b c)) a_zero
        ∙ ap (λ x. bit_xor 0 (bit_xor x c)) b_zero
        ∙ ap (λ x. bit_xor 0 (bit_xor 0 x)) c_zero)
  where
    a_zero : a ≡ 0
    a_zero = omega (arith, h)

    b_zero : b ≡ 0
    b_zero = omega (arith, k)

    c_zero : c ≡ 0
    c_zero = omega (arith, l)
xor_assoc_below (suc n) a b c h k l =
    xor_digit (bit_xor a b) c
    ∙ ap (λ x. bit_xor x (c / 2) * 2 + differ (bit_xor a b % 2) (c % 2)) (xor_half a b).0
    ∙ ap (λ x. bit_xor (bit_xor (a / 2) (b / 2)) (c / 2) * 2 + differ x (c % 2)) (xor_half a b).1
    ∙ ap (λ x. x * 2 + differ (differ (a % 2) (b % 2)) (c % 2))
        (xor_assoc_below n (a / 2) (b / 2) (c / 2) (omega (arith, h)) (omega (arith, k))
          (omega (arith, l)))
    ∙ ap (λ x. bit_xor (a / 2) (bit_xor (b / 2) (c / 2)) * 2 + x)
        (differ_assoc (a % 2) (b % 2) (c % 2) (omega arith) (omega arith) (omega arith))
    ∙ sym (
        xor_digit a (bit_xor b c)
        ∙ ap (λ x. bit_xor (a / 2) x * 2 + differ (a % 2) (bit_xor b c % 2)) (xor_half b c).0
        ∙ ap (λ x. bit_xor (a / 2) (bit_xor (b / 2) (c / 2)) * 2 + differ (a % 2) x)
            (xor_half b c).1)

pub xor_assoc : (a b c : ℕ) → bit_xor (bit_xor a b) c ≡ bit_xor a (bit_xor b c)
xor_assoc a b c = xor_assoc_below (a + b + c) a b c (omega arith) (omega arith) (omega arith)

xor_twice_below : (n a b : ℕ) → a ≤ n → b ≤ n → bit_xor (bit_xor a b) b ≡ a
xor_twice_below zero a b h k =
    ap (λ x. bit_xor (bit_xor x b) b) a_zero ∙ ap (λ x. bit_xor (bit_xor 0 x) x) b_zero ∙ sym a_zero
  where
    a_zero : a ≡ 0
    a_zero = omega (arith, h)

    b_zero : b ≡ 0
    b_zero = omega (arith, k)
xor_twice_below (suc n) a b h k =
    xor_digit (bit_xor a b) b
    ∙ ap (λ x. bit_xor x (b / 2) * 2 + differ (bit_xor a b % 2) (b % 2)) (xor_half a b).0
    ∙ ap (λ x. x * 2 + differ (bit_xor a b % 2) (b % 2))
        (xor_twice_below n (a / 2) (b / 2) (omega (arith, h)) (omega (arith, k)))
    ∙ ap (λ x. a / 2 * 2 + differ x (b % 2)) (xor_half a b).1
    ∙ ap (λ x. a / 2 * 2 + x) (differ-cases (a % 2) (b % 2) (omega arith) (omega arith)).1.0
    ∙ halves
  where
    halves : a / 2 * 2 + a % 2 ≡ a
    halves = omega arith

-- The same mask twice changes nothing.
pub xor_twice : (a b : ℕ) → bit_xor (bit_xor a b) b ≡ a
xor_twice a b = xor_twice_below (a + b) a b (omega arith) (omega arith)

pub xor_twice_left : (a b : ℕ) → bit_xor a (bit_xor a b) ≡ b
xor_twice_left a b = xor_comm a (bit_xor a b) ∙ ap (λ x. bit_xor x a) (xor_comm a b) ∙ xor_twice b a

-- An exclusive or is no wider than what it is of.
pub xor_fits : (w a b : ℕ) → a < 2 ^ w → b < 2 ^ w → bit_xor a b < 2 ^ w
xor_fits zero a b h k = rw (a_zero, b_zero) (omega arith)
  where
    a_zero : a ≡ 0
    a_zero = omega (arith, h)

    b_zero : b ≡ 0
    b_zero = omega (arith, k)
xor_fits (suc w) a b h k = omega (
  arith,
  h,
  k,
  xor_digit a b,
  pow-suc 2 w,
  xor_fits w (a / 2) (b / 2) (omega (arith, pow-suc 2 w, h)) (omega (arith, pow-suc 2 w, k)),
  (differ-cases (a % 2) (b % 2) (omega arith) (omega arith)).0,
)

pub xor_zero : (a : ℕ) → bit_xor a 0 ≡ a
xor_zero a = xor_comm a 0 ∙ bit_xor-bitwise 0 a

-- whether two digits differ
pub differ_test :
    (x y : ℕ)
    → x < 2
    → y < 2
    → ((x == y) ≡ true → (differ x y == 1) ≡ false) × ((x == y) ≡ false → (differ x y == 1) ≡ true)
differ_test zero zero h k = (λ _. refl, λ e. absurd (ground (arith, e)))
differ_test zero (suc zero) h k = (λ e. absurd (ground (arith, e)), λ _. refl)
differ_test (suc zero) zero h k = (λ e. absurd (ground (arith, e)), λ _. refl)
differ_test (suc zero) (suc zero) h k = (λ _. refl, λ e. absurd (ground (arith, e)))
differ_test (suc (suc x)) y h k = absurd (omega (arith, h))
differ_test x (suc (suc y)) h k = absurd (omega (arith, k))
