-- ===== src/Http/Response/Blocks/Frees.antt =====
-- A response frees what it holds.
use httpserv.Prelude.{
  ℕ, ◌+◌, ◌≡◌, ◌==◌, refl, Bool, List, [], ◌∷◌, ◌++◌, Option, some, arith, times, one_if, ◌>>=◌,
}
use httpserv.Memory.{Heap, malloc}
use httpserv.Memory.Owned.{
  times-append, points, Owns, Owns-same, malloc-Owns, free-Owns, free_opt-Owns, free_all-Owns,
  realloc-Owns, IsClean, IsClean-Owns,
}
use httpserv.Http.Response.Blocks.{
  ResponseBlocks, new_in, add_header_in, set_body_in, response_destroy, Change, with_header,
  with_body, change_in, changes_in,
}

-- How often a response has an address.
abbrev pub block_count : ResponseBlocks → ℕ → ℕ
block_count r q =
    times q r.header_blocks + points q r.body + points q r.headers + one_if (r.struct == q)

-- A result that holds just the blocks of its response.
abbrev HasBlocks : (ℕ → Bool) → Option (ResponseBlocks × Heap) → Type 0
HasBlocks live o =
    (r : ResponseBlocks) × (h : Heap) × (o ≡ some (r, h)) × Owns live (block_count r) h

change_in-HasBlocks :
    (live : ℕ → Bool) (c : Change) (r : ResponseBlocks) (h : Heap)
    → Owns live (block_count r) h
    → HasBlocks live (change_in c r h)
unfolding add_header_in set_body_in
change_in-HasBlocks live with_header r h k =
    let first = malloc-Owns live (block_count r) h k in
    let others : ℕ → ℕ = λ q.
      one_if (h.fresh == q) + times q r.header_blocks + points q r.body + one_if (r.struct == q) in
    let (p, h1, grown, k1) =
      realloc-Owns live r.headers _ others (malloc h) (λ q. omega arith) first in
    (
      record r { headers = some p; header_blocks = r.header_blocks ++ h.fresh ∷ [] },
      h1,
      rw (grown, ◌>>=◌) refl,
      Owns-same live _ _ h1 (λ q. omega (arith, times-append q r.header_blocks (h.fresh ∷ []))) k1,
    )
change_in-HasBlocks live with_body r h k =
    let others : ℕ → ℕ =
      λ q. times q r.header_blocks + points q r.headers + one_if (r.struct == q) in
    let (p, h1, grown, k1) = realloc-Owns live r.body _ others h (λ q. omega arith) k in
    (
      record r { body = some p },
      h1,
      rw (grown, ◌>>=◌) refl,
      Owns-same live _ _ h1 (λ q. omega arith) k1,
    )

changes_in-HasBlocks :
    (live : ℕ → Bool) (cs : List Change) (r : ResponseBlocks) (h : Heap)
    → Owns live (block_count r) h
    → HasBlocks live (changes_in cs r h)
unfolding changes_in
changes_in-HasBlocks live [] r h k = (r, h, refl, k)
changes_in-HasBlocks live (c ∷ cs) r h k =
    let (r1, h1, changed, k1) = change_in-HasBlocks live c r h k in
    let (r2, h2, rest, k2) = changes_in-HasBlocks live cs r1 h1 k1 in
    (r2, h2, rw (changed, ◌>>=◌) rest, k2)

new_in-Owns : (h : Heap) → IsClean h → Owns h.live (block_count (new_in h).0) (new_in h).1
unfolding new_in
new_in-Owns h clean =
    Owns-same h.live _ _ (malloc h) (λ q. omega arith)
      (malloc-Owns h.live (λ q. 0) h (IsClean-Owns h clean))

response_destroy-Owns :
    (live : ℕ → Bool) (r : ResponseBlocks) (h : Heap)
    → Owns live (block_count r) h
    → (h' : Heap) × (response_destroy r h ≡ some h') × Owns live (λ q. 0) h'
unfolding response_destroy
response_destroy-Owns live r h k =
    let (h1, f1, k1) =
      free_all-Owns live r.header_blocks _ _ h (λ q. refl)
        (Owns-same live _
          (λ q.
            times q r.header_blocks
            + (points q r.body + (points q r.headers + one_if (r.struct == q))))
          h (λ q. omega arith) k) in
    let (h2, f2, k2) = free_opt-Owns live r.body _ _ h1 (λ q. refl) k1 in
    let (h3, f3, k3) = free_opt-Owns live r.headers _ _ h2 (λ q. refl) k2 in
    let (h4, f4, k4) = free-Owns live r.struct _ (λ q. 0) h3 (λ q. omega arith) k3 in
    (h4, rw (f1, ◌>>=◌) (rw (f2, ◌>>=◌) (rw (f3, ◌>>=◌) f4)), k4)

-- A response that is made, given headers and bodies and destroyed leaves no block.
pub response_destroy-changes_in :
    (h : Heap) (cs : List Change)
    → IsClean h
    → (r : ResponseBlocks) × (h1 h2 : Heap) × (changes_in cs (new_in h).0 (new_in h).1
        ≡ some (r, h1))
      × (response_destroy r h1 ≡ some h2)
      × ((q : ℕ) → h2.live q ≡ h.live q)
response_destroy-changes_in h cs clean =
    let (r, h1, changed, k1) =
      changes_in-HasBlocks h.live cs (new_in h).0 (new_in h).1 (new_in-Owns h clean) in
    let (h2, destroyed, k2) = response_destroy-Owns h.live r h1 k1 in
    (r, h1, h2, changed, destroyed, λ q. ground (arith, k2.blocks q))
