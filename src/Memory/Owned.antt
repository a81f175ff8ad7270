-- ===== src/Memory/Owned.antt =====
-- Blocks that belong to an object, counted by their addresses.
use httpserv.Prelude.{
  ℕ, ◌+◌, ◌≤◌, ◌≡◌, refl, ◌==◌, Bool, false, List, [], ◌∷◌, ◌++◌, Option, some, none, arith,
  if◌then◌else◌, one_if, times, ◌>>=◌,
}
use httpserv.Memory.{Heap, malloc, free, free_opt, free_all, realloc}

pub times-append : (q : ℕ) (ps qs : List ℕ) → times q (ps ++ qs) ≡ times q ps + times q qs
times-append q [] qs = omega arith
times-append q (p ∷ ps) qs = omega (arith, times-append q ps qs)

-- How often a pointer that may be NULL points to an address.
abbrev pub points : ℕ → Option ℕ → ℕ
points q none = 0
points q (some p) = one_if (p == q)

-- The blocks are those that were there, `live`, and so many others at each address.
pub record Owns (live : ℕ → Bool) (n : ℕ → ℕ) (h : Heap) : Type 0 where
  pub blocks : (q : ℕ) → one_if (h.live q) ≡ one_if (live q) + n q
  pub unused : (q : ℕ) → h.fresh ≤ q → h.live q ≡ false

pub Owns-same :
    (live : ℕ → Bool) (n m : ℕ → ℕ) (h : Heap)
    → ((q : ℕ) → n q ≡ m q)
    → Owns live n h
    → Owns live m h
Owns-same live n m h same k = record {
  blocks = λ q. omega (arith, k.blocks q, same q);
  unused = k.unused;
}

pub malloc-Owns :
    (live : ℕ → Bool) (n : ℕ → ℕ) (h : Heap)
    → Owns live n h
    → Owns live (λ q. one_if (h.fresh == q) + n q) (malloc h)
malloc-Owns live n h k = record {
  blocks = λ q. ground (arith, k.blocks q, k.unused q);
  unused = λ q l. ground (arith, k.unused q);
}

pub free-Owns :
    (live : ℕ → Bool) (p : ℕ) (n m : ℕ → ℕ) (h : Heap)
    → ((q : ℕ) → n q ≡ one_if (p == q) + m q)
    → Owns live n h
    → (h' : Heap) × (free p h ≡ some h') × Owns live m h'
unfolding free
free-Owns live p n m h same k = (
  record h { live = λ q. if p == q then false else h.live q },
  ground (arith, k.blocks p, same p),
  record {
    blocks = λ q. ground (arith, k.blocks q, same q);
    unused = λ q l. ground (arith, k.unused q);
  },
)

pub free_opt-Owns :
    (live : ℕ → Bool) (p : Option ℕ) (n m : ℕ → ℕ) (h : Heap)
    → ((q : ℕ) → n q ≡ points q p + m q)
    → Owns live n h
    → (h' : Heap) × (free_opt p h ≡ some h') × Owns live m h'
unfolding free_opt
free_opt-Owns live none n m h same k =
    (h, refl, Owns-same live n m h (λ q. omega (arith, same q)) k)
free_opt-Owns live (some p) n m h same k = free-Owns live p n m h same k

pub free_all-Owns :
    (live : ℕ → Bool) (ps : List ℕ) (n m : ℕ → ℕ) (h : Heap)
    → ((q : ℕ) → n q ≡ times q ps + m q)
    → Owns live n h
    → (h' : Heap) × (free_all ps h ≡ some h') × Owns live m h'
unfolding free_all
free_all-Owns live [] n m h same k = (h, refl, Owns-same live n m h (λ q. omega (arith, same q)) k)
free_all-Owns live (p ∷ ps) n m h same k =
    let (h1, freed, k1) =
      free-Owns live p n (λ q. times q ps + m q) h (λ q. omega (arith, same q)) k in
    let (h2, rest, k2) = free_all-Owns live ps (λ q. times q ps + m q) m h1 (λ q. refl) k1 in
    (h2, rw (freed, ◌>>=◌) rest, k2)

pub realloc-Owns :
    (live : ℕ → Bool) (p : Option ℕ) (n m : ℕ → ℕ) (h : Heap)
    → ((q : ℕ) → n q ≡ points q p + m q)
    → Owns live n h
    → (r : ℕ) × (h' : Heap) × (realloc p h ≡ some (r, h'))
      × Owns live (λ q. one_if (r == q) + m q) h'
unfolding realloc
realloc-Owns live p n m h same k =
    let (h1, freed, k1) = free_opt-Owns live p n m h same k in
    (h1.fresh, malloc h1, rw (freed, ◌>>=◌) refl, malloc-Owns live m h1 k1)

-- No block stands at an unused address.
abbrev pub IsClean : Heap → Type 0
IsClean h = (q : ℕ) → h.fresh ≤ q → h.live q ≡ false

-- Nothing is owned at first.
pub IsClean-Owns : (h : Heap) → IsClean h → Owns h.live (λ q. 0) h
IsClean-Owns h clean = record { blocks = λ q. omega arith; unused = clean }
