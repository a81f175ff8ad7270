-- ===== src/Config/Destroy.antt =====
-- `httpserv_config_node_destroy` and `httpserv_config_destroy` of src/config.c. The nodes belong to the
-- submodule libtree: their type, the members `value`, the address of a block or NULL, and `children`,
-- and `tree_destroy` are parameters. `fuel` bounds the depth of the recursion.
use httpserv.Prelude.{
  ℕ, zero, suc, ◌+◌, ◌≡◌, refl, Bool, List, [], ◌∷◌, Option, some, none, arith, one_if, All, ◌>>=◌,
}
use httpserv.Memory.{Heap, free_opt}
use httpserv.Memory.Owned.{points, Owns, Owns-same, free_opt-Owns}

-- The loop over the children.
unfoldable pub for_each :
    {Node : Type 0} → (Node → Heap → Option Heap) → List Node → Heap → Option Heap
for_each f [] h = some h
for_each f (c ∷ cs) h = do h1 ← f c h; for_each f cs h1

module _ {Node : Type 0} (value : Node → Option ℕ) (children : Node → List (Option Node)) where
  -- `httpserv_config_node_destroy`
  unfoldable pub node_destroy : ℕ → Option Node → Heap → Option Heap
  node_destroy zero top h = none
  node_destroy (suc fuel) none h = some h
  node_destroy (suc fuel) (some node) h = do
    h1 ← free_opt (value node) h
    for_each (node_destroy fuel) (children node) h1

  -- `httpserv_config_destroy` on the root of the tree; NULL stands for no tree.
  unfoldable pub config_destroy :
      (Heap → Option Heap) → ℕ → Option (Option Node) → Heap → Option Heap
  config_destroy tree_destroy fuel none h = some h
  config_destroy tree_destroy fuel (some root) h = do h1 ← node_destroy fuel root h; tree_destroy h1

  -- The tree is less deep than `fuel`.
  abbrev pub IsWithin : ℕ → Option Node → Type 0
  IsWithin zero top = ⊥
  IsWithin (suc fuel) none = Unit
  IsWithin (suc fuel) (some node) = All (IsWithin fuel) (children node)

  abbrev pub sum_over : (Option Node → ℕ) → List (Option Node) → ℕ
  sum_over f [] = 0
  sum_over f (c ∷ cs) = f c + sum_over f cs

  -- How often an address is the value of a node of the tree.
  abbrev pub values : ℕ → ℕ → Option Node → ℕ
  values q zero top = 0
  values q (suc fuel) none = 0
  values q (suc fuel) (some node) = points q (value node) + sum_over (values q fuel) (children node)

  for_each-Owns :
      (live : ℕ → Bool) (fuel : ℕ) (cs : List (Option Node)) (m : ℕ → ℕ) (h : Heap)
      → ((c : Option Node) (m : ℕ → ℕ) (h : Heap)
          → IsWithin fuel c
          → Owns live (λ q. values q fuel c + m q) h
          → (h' : Heap) × (node_destroy fuel c h ≡ some h') × Owns live m h')
      → All (IsWithin fuel) cs
      → Owns live (λ q. sum_over (values q fuel) cs + m q) h
      → (h' : Heap) × (for_each (node_destroy fuel) cs h ≡ some h') × Owns live m h'
  unfolding for_each
  for_each-Owns live fuel [] m h one w k = (h, refl, Owns-same live _ _ h (λ q. omega arith) k)
  for_each-Owns live fuel (c ∷ cs) m h one w k =
      let (h1, f1, k1) =
        one c (λ q. sum_over (values q fuel) cs + m q) h w.0
          (Owns-same live _ _ h (λ q. omega arith) k) in
      let (h2, f2, k2) = for_each-Owns live fuel cs m h1 one w.1 k1 in (h2, rw (f1, ◌>>=◌) f2, k2)

  node_destroy-Owns :
      (live : ℕ → Bool) (fuel : ℕ) (node : Option Node) (m : ℕ → ℕ) (h : Heap)
      → IsWithin fuel node
      → Owns live (λ q. values q fuel node + m q) h
      → (h' : Heap) × (node_destroy fuel node h ≡ some h') × Owns live m h'
  unfolding node_destroy
  node_destroy-Owns live zero top m h w k = absurd w
  node_destroy-Owns live (suc fuel) none m h w k =
      (h, refl, Owns-same live _ _ h (λ q. omega arith) k)
  node_destroy-Owns live (suc fuel) (some node) m h w k =
      let (h1, f1, k1) =
        free_opt-Owns live (value node) _ (λ q. sum_over (values q fuel) (children node) + m q) h
          (λ q. omega arith) k in
      let (h2, f2, k2) =
        for_each-Owns live fuel (children node) m h1 (node_destroy-Owns live fuel) w k1 in
      (h2, rw (f1, ◌>>=◌) f2, k2)

  -- When the values of the nodes are blocks, each of one node only and besides those in `live`, the
  -- destruction of the nodes of a tree that is less deep than `fuel` frees each of them once, and
  -- nothing else.
  pub node_destroy-values :
      (live : ℕ → Bool) (fuel : ℕ) (root : Option Node) (h : Heap)
      → IsWithin fuel root
      → Owns live (λ q. values q fuel root) h
      → (h' : Heap) × (node_destroy fuel root h ≡ some h')
        × ((q : ℕ) → one_if (h'.live q) ≡ one_if (live q))
  node_destroy-values live fuel root h w k =
      let (h', done, k') =
        node_destroy-Owns live fuel root (λ q. 0) h w (Owns-same live _ _ h (λ q. omega arith) k) in
      (h', done, λ q. omega (arith, k'.blocks q))
