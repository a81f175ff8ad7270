-- ===== src/Resource/Holds/Limit.antt =====
-- Loads one behind the other, on a host with a limit for open descriptors.
use httpserv.Prelude.{
  ℕ, zero, suc, ◌+◌, ◌≤◌, ◌≡◌, refl, sym, ◌∙◌, true, false, List, [], ◌∷◌, ◌++◌, All, Option, some,
  none, Bytes, arith, Bool-cases, inl, inr,
}
use mathlib.Core.Path.{subst}
use httpserv.Resource.{Resource, Loader, find_resource, Call, done, blocked, crashed}
use httpserv.Resource.Holds.{Ledger, Host, alloc, resource_new_in, load_in, or_new_in, give}

-- 1 for a load that returned a resource.
abbrev pub served_by : Call (Option Resource) → ℕ
served_by (done loader (some r)) = 1
served_by (done loader none) = 0
served_by blocked = 0
served_by crashed = 0

abbrev pub served : List (Call (Option Resource)) → ℕ
served [] = 0
served (c ∷ cs) = served_by c + served cs

-- Calls of `httpserv_resource_loader_load`, one behind the other; what they return is kept, as in
-- `httpserv_httpserver_worker`, which destroys no resource.
unfoldable pub loads : Host → Loader → List Bytes → Ledger → List (Call (Option Resource)) × Ledger
loads host loader [] l = ([], l)
loads host loader (p ∷ ps) l =
    let first = load_in host loader p l in
    let rest = loads host loader ps first.1 in (first.0 ∷ rest.0, rest.1)

-- No resource of the loader is for the path.
abbrev pub IsMissing : Loader → Bytes → Type 0
IsMissing loader path = find_resource loader.resources (loader.root ++ path) ≡ none

-- Where `limit` descriptors are open, `open` gives no other.
abbrev pub IsLimited : Host → ℕ → Type 0
IsLimited host limit = (n : ℕ) (path : Bytes) → limit ≤ n → (host n).open_file path ≡ none

-- A load between two ledgers.
abbrev pub Grows : ℕ → ℕ → Ledger → Ledger → Type 0
Grows limit n l l' = (n + l.descriptors ≤ l'.descriptors) × (l'.descriptors ≤ limit)

give-Grows :
    (host : Host) (limit : ℕ) (loader : Loader) (name : Bytes) (l : Ledger)
    → IsLimited host limit
    → l.descriptors ≤ limit
    → let made = give loader (resource_new_in host name l) in
      Grows limit (served_by made.0) l made.1
unfolding resource_new_in give
give-Grows host limit loader name l limited h = ground (arith, limited l.descriptors name)

pub load_in-Grows :
    (host : Host) (limit : ℕ) (loader : Loader) (path : Bytes) (l : Ledger)
    → IsLimited host limit
    → IsMissing loader path
    → l.descriptors ≤ limit
    → let made = load_in host loader path l in Grows limit (served_by made.0) l made.1
unfolding load_in
load_in-Grows host limit loader path l limited missing h = elim (Bool-cases loader.locked) [
  | inl held ↦
      let stuck : load_in host loader path l ≡ (blocked, l) = ground arith in
      subst (λ (c : Call (Option Resource) × Ledger). Grows limit (served_by c.0) l c.1) (sym stuck)
        (omega (arith, h), h)
  | inr free ↦
      let runs : load_in host loader path l
          ≡ give loader (resource_new_in host (loader.root ++ path) (alloc 1 l)) =
        ground arith in
      subst (λ (c : Call (Option Resource) × Ledger). Grows limit (served_by c.0) l c.1) (sym runs)
        (give-Grows host limit loader (loader.root ++ path) (alloc 1 l) limited h)
]

-- On a host where `open` fails while `limit` descriptors are open, and for a loader with no
-- resource for any of the paths: in any list of loads, those that return a resource are, with the
-- descriptors that were open at first, at most as many as the descriptors that are open at the end,
-- and these are at most `limit`.
pub loads-limit :
    (host : Host) (limit : ℕ) (loader : Loader) (paths : List Bytes) (l : Ledger)
    → IsLimited host limit
    → All (IsMissing loader) paths
    → l.descriptors ≤ limit
    → let made = loads host loader paths l in
      (served made.0 + l.descriptors ≤ made.1.descriptors) × (made.1.descriptors ≤ limit)
unfolding loads
loads-limit host limit loader [] l limited missing h = (omega (arith, h), h)
loads-limit host limit loader (p ∷ ps) l limited (here, missing) h =
    let (grown, below) = load_in-Grows host limit loader p l limited here h in
    let (rest, end) =
      loads-limit host limit loader ps (load_in host loader p l).1 limited missing below in
    (omega (arith, grown, rest), end)

-- Whether the file is there and empty, and can be opened, on a host where `mmap` refuses the size 0.
pub record IsEmptyFile (host : Host) (path : Bytes) (limit : ℕ) : Type 0 where
  pub readable : (n : ℕ) → (host n).access path ≡ true
  pub empty : (n : ℕ) → (host n).stat path ≡ some 0
  pub opened : (n : ℕ) → suc n ≤ limit → (fd : ℕ) × ((host n).open_file path ≡ some fd)
  pub refused : (n fd : ℕ) → (host n).mmap fd 0 ≡ none

abbrev pub repeat : ℕ → Bytes → List Bytes
repeat zero path = []
repeat (suc n) path = path ∷ repeat n path

load_in-empty :
    (host : Host) (limit : ℕ) (loader : Loader) (path : Bytes) (l : Ledger)
    → IsEmptyFile host (loader.root ++ path) limit
    → IsMissing loader path
    → loader.locked ≡ false
    → suc l.descriptors ≤ limit
    → load_in host loader path l ≡ (done loader none, record l { descriptors = l.descriptors + 1 })
unfolding load_in or_new_in give resource_new_in
load_in-empty host limit loader path l h missing free below =
    let (fd, opened) = h.opened l.descriptors below in
    ground
      (arith, h.readable l.descriptors, h.empty l.descriptors, opened, h.refused l.descriptors fd)

-- Loads of an empty file, on a host where `mmap` refuses the size 0, give no resource, and each leaves a
-- descriptor.
pub loads-empty :
    (host : Host) (limit : ℕ) (loader : Loader) (path : Bytes) (n : ℕ) (l : Ledger)
    → IsEmptyFile host (loader.root ++ path) limit
    → IsMissing loader path
    → loader.locked ≡ false
    → n + l.descriptors ≤ limit
    → let made = loads host loader (repeat n path) l in
      (served made.0 ≡ 0) × (made.1 ≡ record l { descriptors = l.descriptors + n })
unfolding loads
loads-empty host limit loader path zero l h missing free below = (refl, ground arith)
loads-empty host limit loader path (suc n) l h missing free below =
    let one = load_in-empty host limit loader path l h missing free (omega (arith, below)) in
    let (none_served, grown) =
      loads-empty host limit loader path n (record l { descriptors = l.descriptors + 1 }) h missing
        free (omega (arith, below)) in
    (rw one (omega (arith, none_served)), rw (loads, one) (grown ∙ ground arith))
