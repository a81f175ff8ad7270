-- ===== src/Cstring/Decimal.antt =====
-- The C library's conversions between numbers and decimal text that the program uses: `%d` and `%zu`
-- of `printf`, and `strtol` with base 10.
pub mod RoundTrip
use httpserv.Prelude.{
  ℕ, zero, suc, ◌+◌, ◌-◌, ◌≤◌, ◌≡◌, sym, Bool, true, false, ◌&&◌, ◌||◌, [], ◌∷◌, arith, ltb, leb,
  ◌==◌, if◌then◌else◌, Bytes,
}
use mathlib.Core.Path.{subst}
use Prim.Native.Nat.{◌*◌, ◌/◌, ◌%◌, ◌^◌, min}

-- The digits of `n` in front of `acc`; the fuel bounds their number.
unfoldable pub digits_onto : ℕ → ℕ → Bytes → Bytes
digits_onto zero n acc = acc
digits_onto (suc fuel) n acc = elim (ltb n 10) [
  | true ↦ (b'0' + n) ∷ acc
  | false ↦ digits_onto fuel (n / 10) ((b'0' + n % 10) ∷ acc)
]

unfoldable pub decimal : ℕ → Bytes
unfolding digits_onto
decimal n = digits_onto (n + 1) n []

-- `isspace`, in the C locale.
unfoldable pub isspace : ℕ → Bool
isspace c = c == b' ' || leb 9 c && leb c 13

abbrev is_digit : ℕ → Bool
is_digit c = leb b'0' c && leb c b'9'

pub read_digits : ℕ → Bytes → ℕ
read_digits acc [] = acc
read_digits acc (c ∷ s) = elim (is_digit c) [
  | true ↦ read_digits (acc * 10 + (c - b'0')) s
  | false ↦ acc
]

-- `(size_t)strtol(s, NULL, 10)` for 64-bit `long` and `size_t`: `strtol` stops at the bounds of a
-- `long`, and a negative result wraps.
pub signed_digits : Bytes → ℕ
unfolding read_digits
signed_digits [] = 0
signed_digits (c ∷ s) =
    if c == b'-'
    then (2 ^ 64 - min (read_digits 0 s) (2 ^ 63)) % 2 ^ 64
    else min (read_digits 0 (if c == b'+' then s else c ∷ s)) (2 ^ 63 - 1)

unfoldable pub strtol_size : Bytes → ℕ
unfolding signed_digits isspace
strtol_size [] = 0
strtol_size (c ∷ s) = elim (isspace c) [ true ↦ strtol_size s | false ↦ signed_digits (c ∷ s) ]

digits_three :
    (fuel n : ℕ)
    → 100 ≤ n
    → n ≤ 999
    → digits_onto (suc (suc (suc fuel))) n []
      ≡ (b'0' + n / 100) ∷ (b'0' + n / 10 % 10) ∷ (b'0' + n % 10) ∷ []
unfolding digits_onto
digits_three fuel n lo hi = ground arith

-- A number of three digits.
pub decimal_three :
    (n : ℕ)
    → 100 ≤ n
    → n ≤ 999
    → decimal n ≡ (b'0' + n / 100) ∷ (b'0' + n / 10 % 10) ∷ (b'0' + n % 10) ∷ []
unfolding decimal
decimal_three n lo hi =
    let e : n + 1 ≡ suc (suc (suc (n - 2))) = omega arith in
    subst (λ k. digits_onto k n [] ≡ (b'0' + n / 100) ∷ (b'0' + n / 10 % 10) ∷ (b'0' + n % 10) ∷ [])
      (sym e) (digits_three (n - 2) n lo hi)
