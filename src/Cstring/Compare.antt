-- ===== src/Cstring/Compare.antt =====
-- What the comparisons decide: equality and being a prefix.
use httpserv.Prelude.{◌≡◌, refl, ◌↔◌, true, [], ◌∷◌, ◌++◌, arith, length, Bytes}
use httpserv.Cstring.Defs.{strncmp, is_zero, eqs, starts_with}

strncmp-eq : (s t : Bytes) → length s ≡ length t → is_zero (strncmp s t (length s)) ≡ true → s ≡ t
unfolding strncmp
strncmp-eq [] [] l h = refl
strncmp-eq [] (y ∷ t) l h = absurd (omega arith)
strncmp-eq (x ∷ s) [] l h = absurd (omega arith)
strncmp-eq (x ∷ s) (y ∷ t) l h = ground (arith, strncmp-eq s t)

strncmp_refl : (s : Bytes) → is_zero (strncmp s s (length s)) ≡ true
unfolding strncmp
strncmp_refl [] = refl
strncmp_refl (x ∷ s) = ground (arith, strncmp_refl s)

-- The comparison of two strings holds exactly when they are equal.
pub eqs_iff : (s t : Bytes) → (eqs s t ≡ true) ↔ (s ≡ t)
unfolding eqs
eqs_iff s t = (λ h. ground (arith, strncmp-eq s t), λ e. rw e (ground (arith, strncmp_refl t)))

-- The prefix test accepts a string that continues the prefix.
pub starts_with-append : (p r : Bytes) → starts_with (p ++ r) p ≡ true
unfolding starts_with
starts_with-append [] r = refl
starts_with-append (x ∷ p) r = ground (arith, starts_with-append p r)

-- And no other.
pub starts_with-eq_true : (s p : Bytes) → starts_with s p ≡ true → (r : Bytes) × (s ≡ p ++ r)
unfolding starts_with
starts_with-eq_true s [] h = (s, refl)
starts_with-eq_true [] (y ∷ p) h = cc
starts_with-eq_true (x ∷ s) (y ∷ p) h =
    let (r, e) = starts_with-eq_true s p (ground arith) in (r, ground arith)
