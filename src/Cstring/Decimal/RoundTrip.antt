-- ===== src/Cstring/Decimal/RoundTrip.antt =====
-- `strtol` reads back a number that was written in decimal.
use httpserv.Prelude.{
  ℕ, zero, suc, ◌+◌, ◌-◌, ◌<◌, ◌≤◌, ◌≡◌, refl, sym, ap, ◌⊎◌, ◌==◌, ◌∙◌, true, false, [], ◌∷◌, Bytes,
  arith, Bool-cases, ltb, inl, inr,
}
use mathlib.Core.Path.{subst}
use Prim.Native.Nat.{◌*◌, ◌/◌, ◌%◌, ◌^◌, min}
use httpserv.Cstring.Decimal.{
  digits_onto, decimal, isspace, is_digit, read_digits, signed_digits, strtol_size,
}

lt_or_ge : (a b : ℕ) → (a < b) ⊎ (b ≤ a)
lt_or_ge a b = elim (Bool-cases (ltb a b)) [
  | inl e ↦ inl (ground arith)
  | inr e ↦ inr (ground arith)
]

digits_small : (fuel n : ℕ) (acc : Bytes) → n < 10 → digits_onto (suc fuel) n acc ≡ (b'0' + n) ∷ acc
unfolding digits_onto
digits_small fuel n acc h = ground arith

digits_large :
    (fuel n : ℕ) (acc : Bytes)
    → 10 ≤ n
    → digits_onto (suc fuel) n acc ≡ digits_onto fuel (n / 10) ((b'0' + n % 10) ∷ acc)
unfolding digits_onto
digits_large fuel n acc h = ground arith

read_digits-cons :
    (n d : ℕ) (acc : Bytes)
    → d < 10
    → read_digits n ((b'0' + d) ∷ acc) ≡ read_digits (n * 10 + d) acc
unfolding read_digits
read_digits-cons n d acc h =
    let digit : is_digit (b'0' + d) ≡ true = ground arith in
    rw (digit, read_digits) (ap (λ k. read_digits k acc) (omega arith))

read_digits-digits_onto :
    (fuel n : ℕ) (acc : Bytes)
    → n < fuel
    → read_digits 0 (digits_onto fuel n acc) ≡ read_digits n acc
read_digits-digits_onto zero n acc h = absurd (omega arith)
read_digits-digits_onto (suc fuel) n acc h = elim (lt_or_ge n 10) [
  | inl small ↦
      ap (read_digits 0) (digits_small fuel n acc small)
      ∙ read_digits-cons 0 n acc small
      ∙ ap (λ k. read_digits k acc) (omega arith)
  | inr large ↦
      ap (read_digits 0) (digits_large fuel n acc large)
      ∙ read_digits-digits_onto fuel (n / 10) ((b'0' + n % 10) ∷ acc) (omega arith)
      ∙ read_digits-cons (n / 10) (n % 10) acc (omega arith)
      ∙ ap (λ k. read_digits k acc) (omega arith)
]

-- A text that starts with a digit.
abbrev StartsWithDigit : Bytes → Type 0
StartsWithDigit [] = ⊥
StartsWithDigit (c ∷ s) = (b'0' ≤ c) × (c ≤ b'9')

digits_onto-StartsWithDigit :
    (fuel n : ℕ) (acc : Bytes) → n < fuel → StartsWithDigit (digits_onto fuel n acc)
digits_onto-StartsWithDigit zero n acc h = absurd (omega arith)
digits_onto-StartsWithDigit (suc fuel) n acc h = elim (lt_or_ge n 10) [
  | inl small ↦
      subst StartsWithDigit (sym (digits_small fuel n acc small)) (omega arith, omega arith)
  | inr large ↦
      subst StartsWithDigit (sym (digits_large fuel n acc large))
        (digits_onto-StartsWithDigit fuel (n / 10) ((b'0' + n % 10) ∷ acc) (omega arith))
]

signed_digits-digit :
    (c : ℕ) (s : Bytes)
    → b'0' ≤ c
    → c ≤ b'9'
    → signed_digits (c ∷ s) ≡ min (read_digits 0 (c ∷ s)) (2 ^ 63 - 1)
unfolding signed_digits
signed_digits-digit c s lo hi = rw (minus, plus) refl
  where
    minus : (c == b'-') ≡ false
    minus = ground arith

    plus : (c == b'+') ≡ false
    plus = ground arith

strtol_size-digits :
    (s : Bytes) → StartsWithDigit s → read_digits 0 s < 2 ^ 63 → strtol_size s ≡ read_digits 0 s
unfolding strtol_size
strtol_size-digits [] d h = absurd d
strtol_size-digits (c ∷ s) d h =
    let no_space : isspace c ≡ false = unfold isspace in ground arith in
    rw (no_space, strtol_size) (signed_digits-digit c s d.0 d.1 ∙ omega (arith, h))

pub strtol_size-decimal : (n : ℕ) → n < 2 ^ 63 → strtol_size (decimal n) ≡ n
unfolding decimal
strtol_size-decimal n h =
    let back : read_digits 0 (digits_onto (n + 1) n []) ≡ n =
      unfold read_digits in read_digits-digits_onto (n + 1) n [] (omega arith) in
    strtol_size-digits (digits_onto (n + 1) n [])
      (digits_onto-StartsWithDigit (n + 1) n [] (omega arith)) (omega (arith, back))
    ∙ back
