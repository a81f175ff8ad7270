-- ===== src/Http/Request/Parse/Safety.antt =====
-- The parser reads no byte behind the one that follows the content.
use httpserv.Prelude.{ℕ, zero, suc, ◌≤◌, ◌<◌, ◌≢◌, [], ◌∷◌, ◌++◌, arith, length, Bytes}
use httpserv.Http.Method.{Method, strtomethod}
use httpserv.Http.Request.Parse.{
  RawData, Outcome, fault, null, ok, ◌>>=◌, Cursor, read_method, read_path, skip_line, Scan, stop,
  one, two, header_round, read_headers, start, checked, from_raw,
}

-- A call that does not fault, whose value satisfies `P`.
unfoldable pub Safe {ℓ} : {A : Type ℓ} → (A → Type 0) → Outcome A → Type 0
Safe P fault = ⊥
Safe P null = Unit
Safe P (ok a) = P a

Safe-bind {ℓ κ} :
    {A : Type ℓ} {B : Type κ} (P : A → Type 0) (Q : B → Type 0) (m : Outcome A) (f : A → Outcome B)
    → Safe P m
    → ((a : A) → P a → Safe Q (f a))
    → Safe Q (m >>= f)
unfolding Safe
Safe-bind P Q fault f h k = elim h [ ]
Safe-bind P Q null f h k = tt
Safe-bind P Q (ok a) f h k = k a h

-- One more byte than the rounds that are left.
abbrev Spare : Cursor → Type 0
Spare c = c.rounds < length c.rest

read_method-Safe :
    (n : ℕ) (rest acc : Bytes) → n < length rest → Safe (λ r. Spare r.1) (read_method n rest acc)
unfolding read_method Safe
read_method-Safe zero rest acc h = h
read_method-Safe (suc n) [] acc h = absurd (omega arith)
read_method-Safe (suc n) (c ∷ rest) acc h =
    ground (arith, read_method-Safe n rest acc, read_method-Safe n rest (acc ++ c ∷ []))

read_path-Safe :
    (n : ℕ) (rest acc : Bytes) → n < length rest → Safe (λ r. Spare r.1) (read_path n rest acc)
unfolding read_path Safe
read_path-Safe zero rest acc h = h
read_path-Safe (suc zero) rest acc h = tt
read_path-Safe (suc (suc n)) [] acc h = absurd (omega arith)
read_path-Safe (suc (suc n)) (c ∷ []) acc h = absurd (omega arith)
read_path-Safe (suc (suc n)) (c ∷ d ∷ rest) acc h = ground (
  arith,
  read_path-Safe (suc n) (d ∷ rest) acc,
  read_path-Safe (suc n) (d ∷ rest) (acc ++ c ∷ []),
)

skip_line-Safe :
    (n : ℕ) (rest : Bytes)
    → n < length rest
    → Safe (λ c. c.rounds ≤ length c.rest) (skip_line n rest)
unfolding skip_line Safe
skip_line-Safe zero rest h = omega arith
skip_line-Safe (suc n) [] h = absurd (omega arith)
skip_line-Safe (suc n) (c ∷ []) h = absurd (omega arith)
skip_line-Safe (suc n) (c ∷ d ∷ rest) h = ground (arith, skip_line-Safe n (d ∷ rest))

read_headers-Safe :
    (n : ℕ) (rest : Bytes) (s : Scan)
    → n ≤ length rest
    → Safe (λ _. Unit {0}) (read_headers n rest s)
unfolding read_headers Safe
read_headers-Safe zero rest s h = tt
read_headers-Safe (suc zero) rest s h = tt
read_headers-Safe (suc (suc n)) [] s h = absurd (omega arith)
read_headers-Safe (suc (suc n)) (c ∷ []) s h = absurd (omega arith)
read_headers-Safe (suc (suc n)) (c ∷ d ∷ rest) s h =
    elim (header_round s c d)
      as (λ r.
        Safe (λ _. Unit {0})
          (elim r [
            | stop ↦ ok s.req
            | one s' ↦ read_headers (suc n) (d ∷ rest) s'
            | two s' ↦ read_headers n rest s'
          ])) [
            | stop ↦ tt
            | one s' ↦ read_headers-Safe (suc n) (d ∷ rest) s' (omega arith)
            | two s' ↦ read_headers-Safe n rest s' (omega arith)
          ]

checked-Safe : (m : Method) → Safe (λ _. Unit {0}) (checked m)
unfolding Safe
checked-Safe Method.get = tt
checked-Safe _ = tt

from_raw-Safe : (raw : RawData) → raw.len < length raw.content → Safe (λ _. Unit {0}) (from_raw raw)
unfolding from_raw
from_raw-Safe raw h =
    Safe-bind _ _ _ _ (read_method-Safe raw.len raw.content [] h) λ (m : Bytes × Cursor) at_path.
      Safe-bind _ _ _ _ (checked-Safe (strtomethod m.0)) λ method _.
        Safe-bind _ _ _ _ (read_path-Safe m.1.rounds m.1.rest [] at_path)
          λ (p : Bytes × Cursor) at_version.
            Safe-bind _ _ _ _ (skip_line-Safe p.1.rounds p.1.rest at_version)
              λ (c : Cursor) at_headers.
                read_headers-Safe c.rounds c.rest (start method p.0) at_headers

-- If at least one byte, such as a NUL, follows the content in its block, then the parser reads
-- nothing out of bounds, whatever the content is.
pub from_raw-ne-fault : (raw : RawData) → raw.len < length raw.content → from_raw raw ≢ fault
unfolding Safe
from_raw-ne-fault raw h e = rw e at (from_raw-Safe raw h)
