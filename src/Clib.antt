-- ===== src/Clib.antt =====
-- The functions of the C library that the source calls on text: strings are lists of bytes up to a
-- NUL, `strtoul` and `%zu` are decimal, and `unsigned long` and `size_t` have 64 bits.
pub mod Decimal
pub mod Text
use zephyr_zyx_modem.Base.{
  ℕ, zero, suc, ◌+◌, ◌-◌, ◌*◌, ◌/◌, ◌%◌, ◌^◌, min, Bool, true, false, ◌&&◌, ◌||◌, List, [], ◌∷◌,
  ◌++◌, ltb, leb, ◌==◌, if◌then◌else◌,
}

-- The bytes before the first NUL: `strlen` counts them, and `memchr(buf, '\0', len)` stops there.
unfoldable pub until_nul : List ℕ → List ℕ
until_nul [] = []
until_nul (b ∷ bs) = let front = until_nul bs in if b == 0 then [] else b ∷ front

abbrev pub is_digit : ℕ → Bool
is_digit c = leb b'0' c && leb c b'9'

abbrev pub is_space : ℕ → Bool
is_space c = c == 32 || (leb 9 c && leb c 13)

-- The value of the leading digits.
unfoldable pub digits_value : ℕ → List ℕ → ℕ
digits_value acc [] = acc
digits_value acc (c ∷ cs) =
    let more = digits_value (acc * 10 + (c - b'0')) cs in if is_digit c then more else acc

unfoldable pub skip_spaces : List ℕ → List ℕ
skip_spaces [] = []
skip_spaces (c ∷ cs) = let more = skip_spaces cs in if is_space c then more else c ∷ cs

-- a value too large for `unsigned long` becomes its maximum
abbrev pub saturate : ℕ → ℕ
saturate n = min n (2 ^ 64 - 1)

-- a minus sign negates in `unsigned long`
unfoldable pub signed_value : List ℕ → ℕ
unfolding digits_value
signed_value [] = 0
signed_value (c ∷ cs) =
    if c == b'-'
    then (let n = digits_value 0 cs in if ltb n (2 ^ 64) then (2 ^ 64 - n) % 2 ^ 64 else 2 ^ 64 - 1)
    else if c == b'+'
    then saturate (digits_value 0 cs)
    else saturate (digits_value 0 (c ∷ cs))

-- `strtoul(text, NULL, 10)`
unfoldable pub strtoul : List ℕ → ℕ
unfolding signed_value skip_spaces
strtoul text = signed_value (skip_spaces text)

-- the last `fuel` decimal digits at most, without leading zeros
unfoldable pub decimal_digits : ℕ → ℕ → List ℕ
decimal_digits zero n = []
decimal_digits (suc fuel) n =
    let front = decimal_digits fuel (n / 10) in
    if ltb n 10 then (b'0' + n) ∷ [] else front ++ ((b'0' + n % 10) ∷ [])

-- `snprintf(..., "%zu", n)`: a `size_t` has 20 digits at most.
unfoldable pub print_size : ℕ → List ℕ
print_size n = decimal_digits 20 n
