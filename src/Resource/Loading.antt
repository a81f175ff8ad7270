-- ===== src/Resource/Loading.antt =====
-- What a loader returns, keeps, and where it locks itself.
use httpserv.Prelude.{
  ◌≡◌, ◌≢◌, ◌⊎◌, sym, ap, ◌∙◌, true, false, List, [], ◌∷◌, ◌++◌, Option, some, none, Bytes, arith,
  Option-cases, Bool-cases, inl, inr,
}
use httpserv.Cstring.{eqs, eqs_iff}
use httpserv.Resource.{
  FileSystem, Resource, resource_new, Loader, find_resource, done, blocked, crashed, preload_name,
  preload, load_name, load,
}

resource_new-path :
    (fs : FileSystem) (path : Bytes) {r : Resource} → resource_new fs path ≡ some r → r.path ≡ path
unfolding resource_new
resource_new-path fs path e = ground arith

find_resource-path :
    (rs : List Resource) (name : Bytes) {r : Resource}
    → find_resource rs name ≡ some r
    → r.path ≡ name
unfolding find_resource
find_resource-path [] name e = cc
find_resource-path (x ∷ rs) name {r} e = elim (Bool-cases (eqs x.path name)) [
  | inl hit ↦
      let e' : some x ≡ some r = rw hit at e in
      let same : x ≡ r = cc in
      ap (λ (y : Resource). y.path) (sym same) ∙ (eqs_iff x.path name).0 hit
  | inr miss ↦ find_resource-path rs name (rw miss at e)
]

-- A load that returns leaves the loader as it was, so that nothing is kept for the next load; a
-- resource that it returns is one for the root followed by the path.
pub load-path :
    (fs : FileSystem) (l : Loader) (path : Bytes) {l' : Loader} {o : Option Resource}
    → load fs (some l) (some path) ≡ some (done l' o)
    → (l' ≡ l) × ((r : Resource) → o ≡ some r → r.path ≡ l.root ++ path)
unfolding load
load-path fs l path e = (
  ground arith,
  λ r q. ground (
    arith,
    find_resource-path l.resources (l.root ++ path) {r = r},
    resource_new-path fs (l.root ++ path) {r = r},
  ),
)

-- How a preload ends, if it returns: with the mutex held, or with a new resource.
abbrev Preloaded : FileSystem → Loader → Bytes → Loader → Type 0
Preloaded fs l name l' =
    (r : Resource) × (resource_new fs name ≡ some r)
    × (l' ≡ record l { resources = r ∷ l.resources; locked = false })

preload_name_returns :
    (fs : FileSystem) (l : Loader) (name : Bytes) {l' : Loader}
    → preload_name fs l name ≡ done l' tt
    → ((l' ≡ record l { locked = true }) × (find_resource l.resources name ≢ none))
      ⊎ ((find_resource l.resources name ≡ none) × Preloaded fs l name l')
unfolding preload_name
preload_name_returns fs l name {l'} e = elim (Option-cases (find_resource l.resources name)) [
  | inr (cur, found) ↦
      let e' : done (record l { locked = true }) tt ≡ done l' tt = rw (found, preload_name) at e in
      inl (ground arith, ground arith)
  | inl missing ↦ elim (Option-cases (resource_new fs name)) [
    | inl bad ↦
        let e' : crashed ≡ done l' tt =
          rw (bad, preload_name) at (rw (missing, preload_name) at e) in
        cc
    | inr (r, good) ↦
        let e' : done (record l { resources = r ∷ l.resources; locked = false }) tt ≡ done l' tt =
          rw (good, preload_name) at (rw (missing, preload_name) at e) in
        inr (missing, (r, good, ground arith))
  ]
]

abbrev Returned : FileSystem → Loader → Bytes → Loader → Type 0
Returned fs l name l' =
    ((l' ≡ record l { locked = true }) × (find_resource l.resources name ≢ none))
    ⊎ ((find_resource l.resources name ≡ none) × Preloaded fs l name l')

preload_returns :
    (fs : FileSystem) (junk : Bytes) (l : Loader) (path : Bytes) {l' : Loader}
    → preload fs junk (some l) (some path) ≡ some (done l' tt)
    → (l.locked ≡ false) × Returned fs l (l.root ++ (junk ++ path)) l'
unfolding preload
preload_returns fs junk l path {l'} e = elim (Bool-cases l.locked) [
  | inl held ↦ let e' : some blocked ≡ some (done l' tt) = rw held at e in cc
  | inr free ↦
      let e' : some (preload_name fs l (l.root ++ (junk ++ path))) ≡ some (done l' tt) =
        rw free at e in
      (free, preload_name_returns fs l (l.root ++ (junk ++ path)) (cc))
]

find_resource-new :
    (fs : FileSystem) (rs : List Resource) (name : Bytes) {r : Resource}
    → resource_new fs name ≡ some r
    → find_resource (r ∷ rs) name ≡ some r
unfolding find_resource
find_resource-new fs rs name {r} e = rw ((eqs_iff r.path name).1 (resource_new-path fs name e))

blocks :
    (fs : FileSystem) (junk : Bytes) (l : Loader) (q : Bytes)
    → l.locked ≡ true
    → (load fs (some l) (some q) ≡ some blocked)
      × (preload fs junk (some l) (some q) ≡ some blocked)
unfolding load preload
blocks fs junk l q h = (rw h, rw h)

-- If two preloads of one path return, and the blocks they build their names in start with a NUL,
-- the mutex stays held for ever, so that every further load and preload on this loader blocks.
pub preload_twice_blocks :
    (fs later : FileSystem) (l : Loader) (path q : Bytes) {l1 l2 : Loader}
    → preload fs [] (some l) (some path) ≡ some (done l1 tt)
    → preload later [] (some l1) (some path) ≡ some (done l2 tt)
    → (load later (some l2) (some q) ≡ some blocked)
      × (preload later [] (some l2) (some q) ≡ some blocked)
preload_twice_blocks fs later l path q {l1} {l2} e1 e2 =
    blocks later [] l2 q
      (second (preload_returns fs [] l path e1) (preload_returns later [] l1 path e2))
  where
    second :
        (l.locked ≡ false) × Returned fs l (l.root ++ path) l1
        → (l1.locked ≡ false) × Returned later l1 (l1.root ++ path) l2
        → l2.locked ≡ true
    second (_, a) (_, inl (held, _)) = rw held
    second (_, inl (held, _)) (free, inr _) = let e : true ≡ false = rw held at free in cc
    second (_, inr (_, (r, made, e))) (_, inr (missing, _)) =
        let gone : find_resource (r ∷ l.resources) (l.root ++ path) ≡ none = rw e at missing in
        let there = find_resource-new fs l.resources (l.root ++ path) made in cc

-- The first preload of a path, if it returns and its block for the name starts with a NUL, keeps
-- the resource that the file system has then, and the next load returns it, whatever has become of
-- the file.
pub load-preload :
    (fs later : FileSystem) (l : Loader) (path : Bytes) {l1 : Loader}
    → find_resource l.resources (l.root ++ path) ≡ none
    → preload fs [] (some l) (some path) ≡ some (done l1 tt)
    → (r : Resource) × (resource_new fs (l.root ++ path) ≡ some r)
      × (load later (some l1) (some path) ≡ some (done l1 (some r)))
unfolding load load_name
load-preload fs later l path {l1} missing e = served (preload_returns fs [] l path e).1
  where
    served :
        Returned fs l (l.root ++ path) l1
        → (r : Resource) × (resource_new fs (l.root ++ path) ≡ some r)
          × (load later (some l1) (some path) ≡ some (done l1 (some r)))
    served (inl (_, there)) = absurd (there missing)
    served (inr (_, (r, made, e))) =
        (r, made, rw e (rw (find_resource-new fs l.resources (l.root ++ path) made, load_name)))
