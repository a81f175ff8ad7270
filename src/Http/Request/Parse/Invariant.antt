-- ===== src/Http/Request/Parse/Invariant.antt =====
-- What holds of every request that the parser returns.
use httpserv.Prelude.{
  ℕ, zero, suc, ◌≡◌, ◌≢◌, refl, [], ◌∷◌, arith, ◌==◌, Bool-cases, inl, inr, Bytes, All-append, some,
}
use httpserv.Cstring.{push}
use httpserv.Http.Method.{Method, strtomethod, invalid}
use httpserv.Http.Request.{Request, new, add_header, past_end, get_header}
use httpserv.Http.Request.Headers.{
  IsWellFormed, new-IsWellFormed, add_header-IsWellFormed, NoColon, get_header-ne-past_end,
}
use httpserv.Http.Request.Parse.Pieces.{IsWord}
use httpserv.Http.Request.Parse.{
  RawData, Outcome, fault, null, ok, ◌>>=◌, Cursor, read_method, read_path, skip_line, Scan, Round,
  stop, one, two, header_round, read_headers, start, checked, from_raw,
}

-- If a value is returned, it satisfies `P`.
Ensures {ℓ} : {A : Type ℓ} → (A → Type 0) → Outcome A → Type 0
Ensures P fault = Unit
Ensures P null = Unit
Ensures P (ok a) = P a

Ensures-bind {ℓ κ} :
    {A : Type ℓ} {B : Type κ} (P : A → Type 0) (Q : B → Type 0) (m : Outcome A) (f : A → Outcome B)
    → Ensures P m
    → ((a : A) → P a → Ensures Q (f a))
    → Ensures Q (m >>= f)
unfolding Ensures
Ensures-bind P Q fault f h k = tt
Ensures-bind P Q null f h k = tt
Ensures-bind P Q (ok a) f h k = k a h

push-IsWord : (acc : Bytes) (c : ℕ) → IsWord acc → c ≢ b' ' → IsWord (push acc c)
push-IsWord acc c h n = elim (Bool-cases (c == 0)) [
  | inl nul ↦ rw nul h
  | inr other ↦
      rw other (All-append (λ x. (x ≢ 0) × (x ≢ b' ')) acc (c ∷ []) h ((ground arith, n), tt))
]

read_method-Ensures : (n : ℕ) (rest acc : Bytes) → Ensures (λ _. Unit {0}) (read_method n rest acc)
unfolding Ensures read_method
read_method-Ensures zero rest acc = tt
read_method-Ensures (suc n) [] acc = tt
read_method-Ensures (suc n) (c ∷ rest) acc = ground (arith, read_method-Ensures n rest (push acc c))

read_path-Ensures :
    (n : ℕ) (rest acc : Bytes) → IsWord acc → Ensures (λ r. IsWord r.0) (read_path n rest acc)
unfolding Ensures read_path
read_path-Ensures zero rest acc h = h
read_path-Ensures (suc zero) rest acc h = tt
read_path-Ensures (suc (suc n)) [] acc h = tt
read_path-Ensures (suc (suc n)) (c ∷ rest) acc h = elim (Bool-cases (c == b' ')) [
  | inl blank ↦ rw (blank, read_path) h
  | inr other ↦
      rw (other, read_path)
        (read_path-Ensures (suc n) rest (push acc c) (push-IsWord acc c h (ground arith)))
]

skip_line-Ensures : (n : ℕ) (rest : Bytes) → Ensures (λ _. Unit {0}) (skip_line n rest)
unfolding Ensures skip_line
skip_line-Ensures zero rest = tt
skip_line-Ensures (suc n) [] = tt
skip_line-Ensures (suc n) (c ∷ []) = ground (arith, skip_line-Ensures n [])
skip_line-Ensures (suc n) (c ∷ d ∷ rest) = ground (arith, skip_line-Ensures n (d ∷ rest))

-- What the loop over the headers keeps of the request: its shape, method and path.
record Keeps (m : Method) (path : Bytes) (req : Request) : Type 0 where
  shape : IsWellFormed req
  method_kept : req.method ≡ m
  path_kept : req.path ≡ path

module _ (m : Method) (path : Bytes) where
  RoundKeeps : Round → Type 0
  RoundKeeps stop = Unit
  RoundKeeps (one s) = Keeps m path s.req
  RoundKeeps (two s) = Keeps m path s.req

  add_header-Keeps :
      (req : Request) (k v : Bytes) → Keeps m path req → Keeps m path (add_header req k v)
  unfolding add_header
  add_header-Keeps req k v h = record {
    shape = add_header-IsWellFormed req k v h.shape;
    method_kept = h.method_kept;
    path_kept = h.path_kept;
  }

  header_round-Keeps : (s : Scan) (c d : ℕ) → Keeps m path s.req → RoundKeeps (header_round s c d)
  unfolding RoundKeeps header_round
  header_round-Keeps s c d h = ground (arith, add_header-Keeps s.req s.key s.value h)

  read_headers-Keeps :
      (n : ℕ) (rest : Bytes) (s : Scan)
      → Keeps m path s.req
      → Ensures (Keeps m path) (read_headers n rest s)
  unfolding Ensures read_headers RoundKeeps
  read_headers-Keeps zero rest s h = h
  read_headers-Keeps (suc zero) rest s h = tt
  read_headers-Keeps (suc (suc n)) [] s h = tt
  read_headers-Keeps (suc (suc n)) (c ∷ []) s h = tt
  read_headers-Keeps (suc (suc n)) (c ∷ d ∷ rest) s h =
      (elim (header_round s c d)
          as (λ r.
            RoundKeeps r
            → Ensures (Keeps m path) (elim r [
              | stop ↦ ok s.req
              | one s' ↦ read_headers (suc n) (d ∷ rest) s'
              | two s' ↦ read_headers n rest s'
            ])) [
              | stop ↦ λ _. h
              | one s' ↦ λ k. read_headers-Keeps (suc n) (d ∷ rest) s' k
              | two s' ↦ λ k. read_headers-Keeps n rest s' k
            ])
        (header_round-Keeps s c d h)

-- What a request from the network satisfies: the headers are counted and each has a key and a value,
-- the path holds no blank and no NUL, and the method is one of the eight.
pub record IsSound (req : Request) : Type 0 where
  pub shape : IsWellFormed req
  pub path_word : IsWord req.path
  pub known_method : req.method ≢ invalid

checked-Ensures : (m : Method) → Ensures (λ m. m ≢ invalid) (checked m)
unfolding Ensures
checked-Ensures invalid = tt
checked-Ensures _ = λ e. cc

start-Keeps : (m : Method) (path : Bytes) → Keeps m path (new m path)
unfolding new
start-Keeps m path = record {
  shape = new-IsWellFormed m path;
  method_kept = refl;
  path_kept = refl;
}

weaken :
    (m : Method) (path : Bytes) (o : Outcome Request)
    → m ≢ invalid
    → IsWord path
    → Ensures (Keeps m path) o
    → Ensures IsSound o
unfolding Ensures
weaken m path fault n w k = tt
weaken m path null n w k = tt
weaken m path (ok req) n w k = record {
  shape = k.shape;
  path_word = rw k.path_kept w;
  known_method = rw k.method_kept n;
}

from_raw-Ensures : (raw : RawData) → Ensures IsSound (from_raw raw)
unfolding from_raw
from_raw-Ensures raw =
    Ensures-bind _ _ _ _ (read_method-Ensures raw.len raw.content []) λ (m : Bytes × Cursor) _.
      Ensures-bind _ _ _ _ (checked-Ensures (strtomethod m.0)) λ method known.
        Ensures-bind _ _ _ _ (read_path-Ensures m.1.rounds m.1.rest [] tt)
          λ (p : Bytes × Cursor) word.
            Ensures-bind _ _ _ _ (skip_line-Ensures p.1.rounds p.1.rest) λ (c : Cursor) _.
              weaken method p.0 _ known word (
                read_headers-Keeps method p.0 c.rounds c.rest (start method p.0)
                  (start-Keeps method p.0))

-- Every request that the parser returns has one of the eight methods, a path with no space and no
-- NUL, and as many headers as it counts, each with a key, a colon and a space, and a value.
pub from_raw-IsSound : (raw : RawData) {req : Request} → from_raw raw ≡ ok req → IsSound req
unfolding Ensures
from_raw-IsSound raw e = rw e at (from_raw-Ensures raw)

-- In a request that the parser returned, a look-up by a key with no colon stays inside the headers.
pub from_raw-get_header :
    (raw : RawData) {req : Request} (key : Bytes)
    → from_raw raw ≡ ok req
    → NoColon key
    → get_header (some req) key ≢ past_end
from_raw-get_header raw {req} key e = get_header-ne-past_end req key (from_raw-IsSound raw e).shape
