-- ===== src/Resource/Holds/Ends.antt =====
-- What is left when resources and loaders have been destroyed.
use httpserv.Prelude.{
  ℕ, ◌+◌, ◌≡◌, one_if, refl, sym, ap, ◌∙◌, true, false, Bool, ◌&&◌, List, [], ◌∷◌, Option, some,
  none, Bytes, arith, length, ◌++◌, ◌>>=◌, Option-cases, Bool-cases, inl, inr,
}
use mathlib.Core.Path.{subst}
use httpserv.Resource.{
  load, load_name, or_new, FileSystem, Resource, resource_new, Loader, find_resource, Call, done,
  blocked, crashed,
}
use httpserv.Resource.Holds.{
  load_in, or_new_in, give, Ledger, Host, alloc, release, link_in, resource_new_in,
  resource_destroy, loader_new_in, preload_in, free_resources, loader_destroy, preload_name_in,
}

abbrev pub is_some {ℓ} : {A : Type ℓ} → Option A → Bool
is_some none = false
is_some (some a) = true

-- Whether `open` is reached and gives a descriptor.
unfoldable pub opens : FileSystem → Bytes → Bool
opens fs path = fs.access path && (is_some (fs.stat path) && is_some (fs.open_file path))

-- The model with descriptors, mappings and blocks returns what the one without them does.
pub resource_new_in-resource_new :
    (host : Host) (path : Bytes) (l : Ledger)
    → (resource_new_in host path l).0 ≡ resource_new (host l.descriptors) path
unfolding resource_new_in resource_new
resource_new_in-resource_new host path l = ground arith

-- A resource that is made, or not made, and then destroyed leaves one descriptor if `open` gave one, and
-- nothing else.
pub resource_new-destroy :
    (host : Host) (path : Bytes) (l : Ledger)
    → let made = resource_new_in host path l in
      resource_destroy made.0 made.1
      ≡ record l { descriptors = l.descriptors + one_if (opens (host l.descriptors) path) }
unfolding resource_new_in resource_destroy opens
resource_new-destroy host path l = ground arith

-- A preload that returns, and where it leaves the loader.
then_preload : Call (Unit {0}) × Ledger → Option (Loader × Ledger)
then_preload (done loader t, l) = some (loader, l)
then_preload (blocked, l) = none
then_preload (crashed, l) = none

-- Calls of `httpserv_resource_loader_preload`, one behind the other; `none` where one does not return.
unfoldable pub preloads : Host → Bytes → Loader → List Bytes → Ledger → Option (Loader × Ledger)
unfolding then_preload
preloads host junk loader [] l = some (loader, l)
preloads host junk loader (p ∷ ps) l = do
  (loader', l') ← then_preload (preload_in host junk loader p l)
  preloads host junk loader' ps l'

-- A loader holds three blocks, and for each resource two, a mapping and a descriptor.
record Owes (l0 : Ledger) (loader : Loader) (l : Ledger) : Type 0 where
  descriptors : l.descriptors ≡ l0.descriptors + length loader.resources
  mappings : l.mappings ≡ l0.mappings + length loader.resources
  blocks : l.blocks ≡ l0.blocks + 3 + (length loader.resources + length loader.resources)

resource_new_some :
    (host : Host) (path : Bytes) (l : Ledger) {r : Resource} {l' : Ledger}
    → resource_new_in host path l ≡ (some r, l')
    → (l'.descriptors ≡ l.descriptors + 1)
      × (l'.mappings ≡ l.mappings + 1)
      × (l'.blocks ≡ l.blocks + 2)
unfolding resource_new_in
resource_new_some host path l e = ground arith

Owes-subst :
    (l0 : Ledger) (loader loader' : Loader) (l l' : Ledger)
    → ◌≡◌ {A = Option (Loader × Ledger)} (some (loader, l)) (some (loader', l'))
    → Owes l0 loader l
    → Owes l0 loader' l'
Owes-subst l0 loader loader' l l' e h =
    let same : loader ≡ loader' = cc in
    let same_l : l ≡ l' = cc in
    subst (λ x. Owes l0 x l') same (subst (λ x. Owes l0 loader x) same_l h)

link-Owes :
    (host : Host) (loader : Loader) (l0 l : Ledger) (name : Bytes) (made : Option Resource × Ledger)
    {loader' : Loader} {l' : Ledger}
    → resource_new_in host name (alloc 1 l) ≡ made
    → then_preload (link_in loader made) ≡ some (loader', l')
    → Owes l0 loader l
    → Owes l0 loader' l'
unfolding then_preload link_in
link-Owes host loader l0 l name (none, m) made e h = cc
link-Owes host loader l0 l name (some r, m) {loader'} {l'} made e h =
    let (d, p, b) = resource_new_some host name (alloc 1 l) made in
    Owes-subst l0 _ loader' _ l' e (record {
      descriptors = omega (arith, d, h.descriptors);
      mappings = omega (arith, p, h.mappings);
      blocks = omega (arith, b, h.blocks);
    })

preload_name-Owes :
    (host : Host) (name : Bytes) (loader : Loader) (l0 l : Ledger) {loader' : Loader} {l' : Ledger}
    → then_preload (preload_name_in host loader name (alloc 1 l)) ≡ some (loader', l')
    → Owes l0 loader l
    → Owes l0 loader' l'
unfolding preload_name_in then_preload
preload_name-Owes host name loader l0 l {loader'} {l'} e h =
    elim (Option-cases (find_resource loader.resources name)) [
      | inl new ↦
          let links : preload_name_in host loader name (alloc 1 l)
              ≡ link_in loader (resource_new_in host name (alloc 1 l)) =
            ground arith in
          link-Owes host loader l0 l name _ refl (ap then_preload (sym links) ∙ e) h
      | inr (cur, found) ↦
          let stops : preload_name_in host loader name (alloc 1 l)
              ≡ (done (record loader { locked = true }) tt, l) =
            ground arith in
          Owes-subst l0 (record loader { locked = true }) loader' l l'
            (ap then_preload (sym stops) ∙ e)
            (record { descriptors = h.descriptors; mappings = h.mappings; blocks = h.blocks })
    ]

preload-Owes :
    (host : Host) (junk : Bytes) (loader : Loader) (path : Bytes) (l0 l : Ledger) {loader' : Loader}
    {l' : Ledger}
    → then_preload (preload_in host junk loader path l) ≡ some (loader', l')
    → Owes l0 loader l
    → Owes l0 loader' l'
unfolding preload_in then_preload
preload-Owes host junk loader path l0 l {loader'} {l'} e h = elim (Bool-cases loader.locked) [
  | inl held ↦
      let stuck : preload_in host junk loader path l ≡ (blocked, l) = ground arith in
      let e' : none ≡ some (loader', l') = rw stuck at e in cc
  | inr free ↦
      let name = loader.root ++ (junk ++ path) in
      let runs : preload_in host junk loader path l ≡ preload_name_in host loader name (alloc 1 l) =
        ground arith in
      preload_name-Owes host name loader l0 l (ap then_preload (sym runs) ∙ e) h
]

preloads-Owes :
    (host : Host) (junk : Bytes) (ps : List Bytes) (loader : Loader) (l0 l : Ledger)
    {loader' : Loader} {l' : Ledger}
    → preloads host junk loader ps l ≡ some (loader', l')
    → Owes l0 loader l
    → Owes l0 loader' l'
unfolding preloads
preloads-Owes host junk [] loader l0 l {loader'} {l'} e h = Owes-subst l0 loader loader' l l' e h
preloads-Owes host junk (p ∷ ps) loader l0 l e h =
    elim (Option-cases (then_preload (preload_in host junk loader p l))) [
      | inl stuck ↦ let e' : none ≡ some (_, _) = rw (stuck, ◌>>=◌) at e in cc
      | inr ((next, m), ran) ↦
          preloads-Owes host junk ps next l0 m (rw (ran, ◌>>=◌) at e)
            (preload-Owes host junk loader p l0 l ran h)
    ]

free_resources-blocks :
    (rs : List Resource) (l : Ledger) (n : ℕ)
    → l.blocks ≡ n + length rs
    → free_resources rs l ≡ record l { blocks = n }
unfolding free_resources
free_resources-blocks [] l n e = ground arith
free_resources-blocks (r ∷ rs) l n e = free_resources-blocks rs (release 1 l) n (omega (arith, e))

-- When a new loader is given any preloads that return, and is destroyed, then for each resource
-- that it had one descriptor, one mapping and one block, that of its path, stay, and nothing else.
pub preloads-loader_destroy :
    (host : Host) (junk root : Bytes) (ps : List Bytes) (l : Ledger) {loader loader' : Loader}
    {l1 l' : Ledger}
    → loader_new_in (some root) l ≡ (some loader, l1)
    → preloads host junk loader ps l1 ≡ some (loader', l')
    → let n = length loader'.resources in
      loader_destroy (some loader') l'
      ≡ record { descriptors = l.descriptors + n; mappings = l.mappings + n; blocks = l.blocks + n }
unfolding loader_new_in loader_destroy
preloads-loader_destroy host junk root ps l {loader} {loader'} {l1} {l'} new ran =
    let start : Owes l loader l1 = record {
      descriptors = ground arith;
      mappings = ground arith;
      blocks = ground arith;
    } in
    let h = preloads-Owes host junk ps loader l l1 ran start in
    let freed =
      free_resources-blocks loader'.resources l' (l.blocks + 3 + length loader'.resources)
        (omega (arith, h.blocks)) in
    rw freed (ground (arith, h.descriptors, h.mappings))

give-done : (loader : Loader) (x : Option Resource × Ledger) → (give loader x).0 ≡ done loader x.0
unfolding give
give-done loader (cur, l) = refl

or_new_in-or_new :
    (host : Host) (name : Bytes) (o : Option Resource) (l : Ledger)
    → (or_new_in host name o l).0 ≡ or_new (host l.descriptors) name o
unfolding or_new_in
or_new_in-or_new host name none l = resource_new_in-resource_new host name l
or_new_in-or_new host name (some cur) l = refl

-- The load with its accounts returns what the load without them does.
pub load_in-load :
    (host : Host) (loader : Loader) (path : Bytes) (l : Ledger)
    → load (host l.descriptors) (some loader) (some path) ≡ some (load_in host loader path l).0
unfolding load load_name load_in
load_in-load host loader path l =
    let name = loader.root ++ path in
    let found = find_resource loader.resources name in
    elim (Bool-cases loader.locked) [
      | inl held ↦ ground arith
      | inr free ↦
          let given = or_new_in host name found (alloc 1 l) in
          let one : (load_in host loader path l).0 ≡ (give loader given).0 = ground arith in
          let two : load (host l.descriptors) (some loader) (some path)
              ≡ some (done loader (or_new (host l.descriptors) name found)) =
            ground arith in
          two
          ∙ ap (λ (o : Option Resource). some (done loader o))
              (sym (or_new_in-or_new host name found (alloc 1 l)))
          ∙ ap (λ (c : Call (Option Resource)). some c) (sym (one ∙ give-done loader given))
    ]
