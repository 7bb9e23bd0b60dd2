-- ===== src/Clib/Decimal.antt =====
-- `strtoul` reads back what `%zu` prints.
use zephyr_zyx_modem.Base.{
  ℕ, zero, suc, ◌+◌, ◌-◌, ◌*◌, ◌/◌, ◌%◌, ◌^◌, ◌≤◌, ◌<◌, ◌≡◌, refl, ◌∙◌, ap, min, true, false,
  Bool-cases, inl, inr, List, [], ◌∷◌, ◌++◌, append_assoc, arith, length, length-append, ltb,
  ltb→lt, ◌==◌, All, All-append,
}
use zephyr_zyx_modem.Clib.{digits_value, strtoul, decimal_digits, print_size, is_digit, is_space}

digits_value-digit :
    (acc d : ℕ) (cs : List ℕ)
    → d < 10
    → digits_value acc ((b'0' + d) ∷ cs) ≡ digits_value (acc * 10 + d) cs
unfolding digits_value
digits_value-digit acc d cs h =
    let e : acc * 10 + (b'0' + d - b'0') ≡ acc * 10 + d = omega arith in
    let digit : is_digit (b'0' + d) ≡ true = ground arith in rw (digit, e)

-- what `n` digits can count
abbrev pub digit_range : ℕ → ℕ
digit_range zero = 1
digit_range (suc n) = 10 * digit_range n

-- The digits of `n`, with what follows them.
digits_value-decimal :
    (fuel n : ℕ) (cs : List ℕ)
    → n < digit_range fuel
    → digits_value 0 (decimal_digits fuel n ++ cs) ≡ digits_value n cs
unfolding decimal_digits
digits_value-decimal zero n cs h = ap (λ k. digits_value k cs) (omega arith)
digits_value-decimal (suc fuel) n cs h = elim (Bool-cases (ltb n 10)) [
  | inl small ↦
      rw small
        (digits_value-digit 0 n cs (ltb→lt n 10 small) ∙ ap (λ k. digits_value k cs) (omega arith))
  | inr large ↦
      rw (large, append_assoc)
        (digits_value-decimal fuel (n / 10) ((b'0' + n % 10) ∷ cs) (omega arith)
          ∙ digits_value-digit (n / 10) (n % 10) cs (omega arith)
          ∙ ap (λ k. digits_value k cs) (omega arith))
]

abbrev StartsWithDigit : List ℕ → Type 0
StartsWithDigit [] = Unit {0}
StartsWithDigit (c ∷ cs) = (b'0' ≤ c) × (c ≤ b'9')

StartsWithDigit-append :
    (cs ds : List ℕ) → StartsWithDigit cs → 1 ≤ length cs → StartsWithDigit (cs ++ ds)
StartsWithDigit-append [] ds h l = absurd (omega arith)
StartsWithDigit-append (c ∷ cs) ds h l = h

decimal-IsNonempty : (fuel n : ℕ) → 1 ≤ length (decimal_digits (suc fuel) n)
unfolding decimal_digits
decimal-IsNonempty fuel n = elim (Bool-cases (ltb n 10)) [
  | inl small ↦ rw small (omega arith)
  | inr large ↦
      rw (large, length-append (decimal_digits fuel (n / 10)) ((b'0' + n % 10) ∷ [])) (omega arith)
]

decimal-StartsWithDigit :
    (fuel n : ℕ) → n < digit_range (suc fuel) → StartsWithDigit (decimal_digits (suc fuel) n)
unfolding decimal_digits
decimal-StartsWithDigit zero n h =
    let small : ltb n 10 ≡ true = ground arith in rw small (omega arith, omega arith)
decimal-StartsWithDigit (suc fuel) n h = elim (Bool-cases (ltb n 10)) [
  | inl small ↦ rw small (omega arith, omega (arith, ltb→lt n 10 small))
  | inr large ↦ rw large (
      StartsWithDigit-append (decimal_digits (suc fuel) (n / 10)) ((b'0' + n % 10) ∷ [])
        (decimal-StartsWithDigit fuel (n / 10) (omega arith)) (decimal-IsNonempty fuel (n / 10)))
]

not_space : (c : ℕ) → b'0' ≤ c → is_space c ≡ false
not_space c h = ground arith

strtoul-digits :
    (cs : List ℕ) → StartsWithDigit cs → strtoul cs ≡ min (digits_value 0 cs) (2 ^ 64 - 1)
unfolding strtoul
strtoul-digits [] h = refl
strtoul-digits (c ∷ cs) h =
    let solid : is_space c ≡ false = not_space c h.0 in
    let unsigned : (c == b'-') ≡ false = ground arith in
    let unsigned' : (c == b'+') ≡ false = ground arith in rw (solid, unsigned, unsigned') refl

digits_value-nul : (n : ℕ) (more : List ℕ) → digits_value n (0 ∷ more) ≡ n
unfolding digits_value
digits_value-nul n more = refl

min-eq-left : (n : ℕ) → n < 2 ^ 64 → min n (2 ^ 64 - 1) ≡ n
min-eq-left n k = omega arith

strtoul-decimal :
    (fuel n : ℕ) (more : List ℕ)
    → n < digit_range (suc fuel)
    → n < 2 ^ 64
    → strtoul (decimal_digits (suc fuel) n ++ 0 ∷ more) ≡ n
strtoul-decimal fuel n more h k =
    strtoul-digits (decimal_digits (suc fuel) n ++ 0 ∷ more) (
      StartsWithDigit-append (decimal_digits (suc fuel) n) (0 ∷ more)
        (decimal-StartsWithDigit fuel n h) (decimal-IsNonempty fuel n))
    ∙ ap (λ k. min k (2 ^ 64 - 1))
        (digits_value-decimal (suc fuel) n (0 ∷ more) h ∙ digits_value-nul n more)
    ∙ min-eq-left n k

-- `strtoul` reads a printed `size_t` back, whatever stands behind a NUL.
pub strtoul-print_size :
    (n : ℕ) (more : List ℕ) → n < 2 ^ 64 → strtoul (print_size n ++ 0 ∷ more) ≡ n
unfolding print_size
strtoul-print_size n more h = strtoul-decimal 19 n more (omega arith) h

length-decimal_digits : (fuel n : ℕ) → length (decimal_digits fuel n) ≤ fuel
unfolding decimal_digits
length-decimal_digits zero n = omega arith
length-decimal_digits (suc fuel) n = elim (Bool-cases (ltb n 10)) [
  | inl small ↦ rw small (omega arith)
  | inr large ↦ rw large (
      omega (
        arith,
        length-append (decimal_digits fuel (n / 10)) ((b'0' + n % 10) ∷ []),
        length-decimal_digits fuel (n / 10),
      ))
]

pub length-print_size : (n : ℕ) → length (print_size n) ≤ 20
unfolding print_size
length-print_size n = length-decimal_digits 20 n

-- no NUL among the digits
decimal_digits-nonzero : (fuel n : ℕ) → All (λ b. (b == 0) ≡ false) (decimal_digits fuel n)
unfolding decimal_digits
decimal_digits-nonzero zero n = tt
decimal_digits-nonzero (suc fuel) n = elim (Bool-cases (ltb n 10)) [
  | inl small ↦ rw small (ground arith, tt)
  | inr large ↦ rw large (
      All-append (λ b. (b == 0) ≡ false) (decimal_digits fuel (n / 10)) ((b'0' + n % 10) ∷ [])
        (decimal_digits-nonzero fuel (n / 10)) (ground arith, tt))
]

pub print_size-nonzero : (n : ℕ) → All (λ b. (b == 0) ≡ false) (print_size n)
unfolding print_size
print_size-nonzero n = decimal_digits-nonzero 20 n

pub print_size-IsNonempty : (n : ℕ) → 1 ≤ length (print_size n)
unfolding print_size
print_size-IsNonempty n = decimal-IsNonempty 19 n
