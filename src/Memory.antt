-- ===== src/Memory.antt =====
-- `malloc`, `realloc` and `free` of the C library as the code uses them: which addresses hold a block.
-- An allocation succeeds, at an address that was never used. `none` is a `free` of what is no block.
pub mod Owned
use httpserv.Prelude.{
  ℕ, ◌+◌, ◌==◌, Bool, true, false, List, [], ◌∷◌, Option, some, none, ◌>>=◌, if◌then◌else◌,
}

-- Addresses from `fresh` on are unused.
pub record Heap : Type 0 where
  pub live : ℕ → Bool
  pub fresh : ℕ

-- `malloc`: the block is at `fresh`.
abbrev pub malloc : Heap → Heap
malloc h = record { live = λ q. if h.fresh == q then true else h.live q; fresh = h.fresh + 1 }

-- `free` of an address.
unfoldable pub free : ℕ → Heap → Option Heap
free p h =
    if h.live p then some (record h { live = λ q. if p == q then false else h.live q }) else none

-- `free` of a pointer that may be NULL.
unfoldable pub free_opt : Option ℕ → Heap → Option Heap
free_opt none h = some h
free_opt (some p) h = free p h

-- `free` of the entries of an array, in order.
unfoldable pub free_all : List ℕ → Heap → Option Heap
free_all [] h = some h
free_all (p ∷ ps) h = do h1 ← free p h; free_all ps h1

-- `realloc` to a size that is not 0: the block moves to `fresh`.
unfoldable pub realloc : Option ℕ → Heap → Option (ℕ × Heap)
realloc p h = do h1 ← free_opt p h; some (h1.fresh, malloc h1)
