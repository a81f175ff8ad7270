-- ===== src/Cstring/Strip.antt =====
-- `httpserv_strstriplw`, `httpserv_strstriptw` and `httpserv_strstripltw` of src/stringh.c, on the
-- string that the buffer holds before and after. The C locale is set, where `iswspace` on a byte is
-- `isspace`.
use httpserv.Prelude.{true, false, [], ◌∷◌, ◌++◌, ◌≡◌, ◌∙◌, refl, ap, Bytes, All, All-append}
use mathlib.Core.List.{reverse, reverse-cons, reverse-append, reverse-reverse}
use httpserv.Cstring.Decimal.{isspace}

-- `httpserv_strstriplw`: a round moves every byte, and the NUL, to the place before it. The NUL is no
-- white space, so the loop ends.
unfoldable pub strstriplw : Bytes → Bytes
strstriplw [] = []
strstriplw (c ∷ s) = elim (isspace c) [ true ↦ strstriplw s | false ↦ c ∷ s ]

-- A string that was stripped at its end, or a read of the byte in front of the buffer, which is what
-- `s[strlen(s) - 1]` is for an empty string.
pub data Stripped : Type 0 where
  stripped : Bytes → Stripped
  before_start : Stripped

-- The loop of `httpserv_strstriptw`, on the bytes of the string from the last to the first.
unfoldable pub strip_from_end : Bytes → Stripped
strip_from_end [] = before_start
strip_from_end (c ∷ r) = elim (isspace c) [
  | true ↦ strip_from_end r
  | false ↦ stripped (reverse (c ∷ r))
]

unfoldable pub strstriptw : Bytes → Stripped
unfolding strip_from_end
strstriptw s = strip_from_end (reverse s)

unfoldable pub strstripltw : Bytes → Stripped
unfolding strstriptw strstriplw
strstripltw s = strstriptw (strstriplw s)

abbrev pub IsBlank : Bytes → Type 0
IsBlank = All λ c. isspace c ≡ true

-- The first byte is there and is no white space.
abbrev pub IsSolid : Bytes → Type 0
IsSolid [] = ⊥
IsSolid (c ∷ s) = isspace c ≡ false

-- A text with no white space at its ends.
abbrev pub IsTrimmed : Bytes → Type 0
IsTrimmed t = IsSolid t × IsSolid (reverse t)

strstriplw-append : (a t : Bytes) → IsBlank a → IsSolid t → strstriplw (a ++ t) ≡ t
unfolding strstriplw
strstriplw-append [] [] h k = absurd k
strstriplw-append [] (c ∷ t) h k = rw (k, strstriplw)
strstriplw-append (c ∷ a) t h k = rw (h.0, strstriplw) (strstriplw-append a t h.1 k)

strstriplw_blank : (s : Bytes) → IsBlank s → strstriplw s ≡ []
unfolding strstriplw
strstriplw_blank [] h = refl
strstriplw_blank (c ∷ s) h = rw (h.0, strstriplw) (strstriplw_blank s h.1)

strip_from_end-append :
    (a t : Bytes) → IsBlank a → IsSolid t → strip_from_end (a ++ t) ≡ stripped (reverse t)
unfolding strip_from_end
strip_from_end-append [] [] h k = absurd k
strip_from_end-append [] (c ∷ t) h k = rw (k, strip_from_end)
strip_from_end-append (c ∷ a) t h k = rw (h.0, strip_from_end) (strip_from_end-append a t h.1 k)

IsSolid-append : (t b : Bytes) → IsSolid t → IsSolid (t ++ b)
IsSolid-append [] b k = absurd k
IsSolid-append (c ∷ t) b k = k

IsBlank-reverse : (s : Bytes) → IsBlank s → IsBlank (reverse s)
IsBlank-reverse [] h = tt
IsBlank-reverse (c ∷ s) h =
    rw (reverse-cons c s)
      (All-append (λ c. isspace c ≡ true) (reverse s) (c ∷ []) (IsBlank-reverse s h.1) (h.0, tt))

-- White space at both ends of a text that has none there itself is stripped, and nothing else.
pub strstripltw-append :
    (a t b : Bytes) → IsBlank a → IsTrimmed t → IsBlank b → strstripltw (a ++ (t ++ b)) ≡ stripped t
unfolding strstripltw
strstripltw-append a t b ha ht hb =
    rw (strstriplw-append a (t ++ b) ha (IsSolid-append t b ht.0), reverse-append t b)
      (strip_from_end-append (reverse b) (reverse t) (IsBlank-reverse b hb) ht.1
        ∙ ap stripped (reverse-reverse t))

-- On a string of white space only the byte in front of the buffer is read.
pub strstripltw_blank : (s : Bytes) → IsBlank s → strstripltw s ≡ before_start
unfolding strstripltw
strstripltw_blank s h = rw (strstriplw_blank s h, strip_from_end)
