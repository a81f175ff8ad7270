-- ===== src/Cstring/Defs.antt =====
-- `httpserv_streq` of src/stringh.c, over the C library's `strncmp`, and the idiom by which the
-- parsers append one byte to a string.
use httpserv.Prelude.{
  ℕ, zero, suc, Bool, true, false, [], ◌∷◌, ◌++◌, ltb, ◌==◌, if◌then◌else◌, length, Bytes,
}

-- An `int` result of a comparison, by its sign, which is all that C says of it.
pub data Sign : Type 0 where
  sign_lt sign_eq sign_gt : Sign

unfoldable pub strncmp : Bytes → Bytes → ℕ → Sign
strncmp s t zero = sign_eq
strncmp [] [] (suc n) = sign_eq
strncmp [] (y ∷ t) (suc n) = sign_lt
strncmp (x ∷ s) [] (suc n) = sign_gt
strncmp (x ∷ s) (y ∷ t) (suc n) =
    if x == y then strncmp s t n else if ltb x y then sign_lt else sign_gt

-- The C test `... == 0`.
abbrev pub is_zero : Sign → Bool
is_zero sign_eq = true
is_zero _ = false

unfoldable pub streq : Bytes → Bytes → Sign
unfolding strncmp
streq s1 s2 = if length s1 == length s2 then strncmp s1 s2 (length s1) else sign_gt

-- `#define streq(s1, s2) (httpserv_streq(s1, s2) == 0)`
unfoldable pub eqs : Bytes → Bytes → Bool
unfolding streq
eqs s1 s2 = is_zero (streq s1 s2)

-- `strncmp(s, prefix, strlen(prefix)) == 0`
unfoldable pub starts_with : Bytes → Bytes → Bool
unfolding strncmp
starts_with s prefix = is_zero (strncmp s prefix (length prefix))

-- `strncat(s, &c, 1)`: a NUL appends nothing.
abbrev pub push : Bytes → ℕ → Bytes
push s c = if c == 0 then s else s ++ c ∷ []

-- The string in a buffer: the bytes before its first NUL.
unfoldable pub before_nul : Bytes → Bytes
before_nul [] = []
before_nul (c ∷ s) = if c == 0 then [] else c ∷ before_nul s
