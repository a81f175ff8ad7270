-- ===== src/Http/Request/Blocks/Frees.antt =====
-- What a request frees of what it holds.
use httpserv.Prelude.{
  ℕ, ◌+◌, ◌≡◌, ◌==◌, refl, true, Bool, List, [], ◌∷◌, ◌++◌, Option, some, none, arith, times,
  one_if, if◌then◌else◌, ◌>>=◌, Option-cases, inl, inr,
}
use httpserv.Memory.{Heap, malloc}
use httpserv.Memory.Owned.{
  times-append, points, Owns, Owns-same, malloc-Owns, free-Owns, free_opt-Owns, free_all-Owns,
  realloc-Owns, IsClean, IsClean-Owns,
}
use httpserv.Http.Response.Blocks.{Change, with_header, with_body}
use httpserv.Http.Request.Blocks.{
  RequestBlocks, new_in, add_header_in, set_body_in, free_headers, request_destroy, change_in,
  changes_in,
}

-- How often a request has an address.
abbrev pub block_count : RequestBlocks → ℕ → ℕ
block_count r q =
    one_if (r.struct == q)
    + one_if (r.path == q)
    + times q r.header_blocks
    + points q r.headers
    + points q r.body

-- The blocks of a request at `struct`; without an array it has no header.
record Holds (live : ℕ → Bool) (struct : ℕ) (r : RequestBlocks) (h : Heap) : Type 0 where
  owned : Owns live (block_count r) h
  at_struct : r.struct ≡ struct
  no_array : r.headers ≡ none → r.header_blocks ≡ []

abbrev HasBlocks : (ℕ → Bool) → ℕ → Option (RequestBlocks × Heap) → Type 0
HasBlocks live struct o =
    (r : RequestBlocks) × (h : Heap) × (o ≡ some (r, h)) × Holds live struct r h

change_in-HasBlocks :
    (live : ℕ → Bool) (struct : ℕ) (c : Change) (r : RequestBlocks) (h : Heap)
    → Holds live struct r h
    → HasBlocks live struct (change_in c r h)
unfolding add_header_in set_body_in
change_in-HasBlocks live struct with_header r h k =
    let others : ℕ → ℕ = λ q.
      one_if (r.struct == q) + one_if (r.path == q) + times q r.header_blocks + points q r.body in
    let (p, h1, grown, k1) = realloc-Owns live r.headers _ others h (λ q. omega arith) k.owned in
    (
      record r { headers = some p; header_blocks = r.header_blocks ++ h1.fresh ∷ [] },
      malloc h1,
      rw (grown, ◌>>=◌) refl,
      record {
        owned =
            Owns-same live _ _ (malloc h1)
              (λ q. omega (arith, times-append q r.header_blocks (h1.fresh ∷ [])))
              (malloc-Owns live _ h1 k1);
        at_struct = k.at_struct;
        no_array = λ e. cc;
      },
    )
change_in-HasBlocks live struct with_body r h k =
    let others : ℕ → ℕ = λ q.
      one_if (r.struct == q)
      + one_if (r.path == q)
      + times q r.header_blocks
      + points q r.headers in
    let (p, h1, grown, k1) = realloc-Owns live r.body _ others h (λ q. omega arith) k.owned in
    (
      record r { body = some p },
      h1,
      rw (grown, ◌>>=◌) refl,
      record {
        owned = Owns-same live _ _ h1 (λ q. omega arith) k1;
        at_struct = k.at_struct;
        no_array = k.no_array;
      },
    )

changes_in-HasBlocks :
    (live : ℕ → Bool) (struct : ℕ) (cs : List Change) (r : RequestBlocks) (h : Heap)
    → Holds live struct r h
    → HasBlocks live struct (changes_in cs r h)
unfolding changes_in
changes_in-HasBlocks live struct [] r h k = (r, h, refl, k)
changes_in-HasBlocks live struct (c ∷ cs) r h k =
    let (r1, h1, changed, k1) = change_in-HasBlocks live struct c r h k in
    let (r2, h2, rest, k2) = changes_in-HasBlocks live struct cs r1 h1 k1 in
    (r2, h2, rw (changed, ◌>>=◌) rest, k2)

new_in-Holds : (h : Heap) → IsClean h → Holds h.live h.fresh (new_in h).0 (new_in h).1
unfolding new_in
new_in-Holds h clean = record {
  owned =
      Owns-same h.live _ _ (malloc (malloc h)) (λ q. omega arith)
        (malloc-Owns h.live _ (malloc h) (malloc-Owns h.live (λ q. 0) h (IsClean-Owns h clean)));
  at_struct = refl;
  no_array = λ e. refl;
}

free_headers-Owns :
    (live : ℕ → Bool) (r : RequestBlocks) (m : ℕ → ℕ) (h : Heap)
    → (r.headers ≡ none → r.header_blocks ≡ [])
    → Owns live (λ q. times q r.header_blocks + points q r.headers + m q) h
    → (h' : Heap) × (free_headers r h ≡ some h') × Owns live m h'
unfolding free_headers
free_headers-Owns live r m h no_array k = elim (Option-cases r.headers) [
  | inl gone ↦
      (h, rw gone refl, Owns-same live _ m h (λ q. rw (gone, no_array gone) (omega arith)) k)
  | inr (array, there) ↦
      let (h1, f1, k1) =
        free_all-Owns live r.header_blocks _ (λ q. one_if (array == q) + m q) h
          (λ q. rw there (omega arith)) k in
      let (h2, f2, k2) = free-Owns live array _ m h1 (λ q. refl) k1 in
      (h2, rw there (rw (f1, ◌>>=◌) f2), k2)
]

request_destroy-Owns :
    (live : ℕ → Bool) (struct : ℕ) (r : RequestBlocks) (h : Heap)
    → Holds live struct r h
    → (h' : Heap) × (request_destroy r h ≡ some h') × Owns live (λ q. one_if (struct == q)) h'
unfolding request_destroy
request_destroy-Owns live struct r h k =
    let others : ℕ → ℕ = λ q. points q r.body + one_if (r.struct == q) in
    let (h1, f1, k1) =
      free-Owns live r.path _ (λ q. times q r.header_blocks + points q r.headers + others q) h
        (λ q. omega arith) k.owned in
    let (h2, f2, k2) = free_headers-Owns live r others h1 k.no_array k1 in
    let (h3, f3, k3) =
      free_opt-Owns live r.body others (λ q. one_if (r.struct == q)) h2 (λ q. refl) k2 in
    (h3, rw (f1, ◌>>=◌) (rw (f2, ◌>>=◌) f3), Owns-same live _ _ h3 (λ q. rw k.at_struct refl) k3)

-- In memory with no block at an unused address: a request that is made, given headers and bodies in
-- any order, and destroyed frees only blocks that are there, and leaves just one more block than
-- there was before, its struct.
pub request_destroy-changes_in :
    (h : Heap) (cs : List Change)
    → IsClean h
    → (r : RequestBlocks) × (h1 h2 : Heap) × (changes_in cs (new_in h).0 (new_in h).1
        ≡ some (r, h1))
      × (request_destroy r h1 ≡ some h2)
      × ((q : ℕ) → h2.live q ≡ (if r.struct == q then true else h.live q))
request_destroy-changes_in h cs clean =
    let (r, h1, changed, k1) =
      changes_in-HasBlocks h.live h.fresh cs (new_in h).0 (new_in h).1 (new_in-Holds h clean) in
    let (h2, destroyed, k2) = request_destroy-Owns h.live h.fresh r h1 k1 in
    (r, h1, h2, changed, destroyed, λ q. ground (arith, k2.blocks q, k1.at_struct))
