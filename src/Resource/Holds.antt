-- ===== src/Resource/Holds.antt =====
-- What the functions of src/resource.c hold: descriptors, mappings and blocks of memory. The calls
-- behind `Resource.resource_new` and the functions of the loader, with the ends of both.
pub mod Ends
pub mod Limit
use httpserv.Prelude.{
  ℕ, ◌+◌, ◌-◌, true, false, not, List, [], ◌∷◌, ◌++◌, Option, some, none, Bytes, if◌then◌else◌,
}
use httpserv.Resource.{FileSystem, Resource, Loader, find_resource, Call, done, blocked, crashed}

-- The descriptors, mappings and blocks that are not given back yet.
pub record Ledger : Type 0 where
  pub descriptors : ℕ
  pub mappings : ℕ
  pub blocks : ℕ

-- The calls on files, which may depend on how many descriptors are open.
abbrev pub Host : Type 0
Host = ℕ → FileSystem

abbrev pub alloc : ℕ → Ledger → Ledger
alloc n l = record l { blocks = l.blocks + n }

abbrev pub release : ℕ → Ledger → Ledger
release n l = record l { blocks = l.blocks - n }

-- `mmap` in `httpserv_resource_new`: after a failure both blocks are freed.
pub map_file_in : FileSystem → Bytes → ℕ → ℕ → Ledger → Option Resource × Ledger
map_file_in fs path size fd l = elim (fs.mmap fd size) [
  | none ↦ (none, release 2 l)
  | some contents ↦ (
    some (record { path = path; contents = contents; size = size; fd = fd }),
    record l { mappings = l.mappings + 1 },
  )
]

-- `open` in `httpserv_resource_new`: after a failure both blocks are freed.
pub open_and_map_in : FileSystem → Bytes → ℕ → Ledger → Option Resource × Ledger
unfolding map_file_in
open_and_map_in fs path size l = elim (fs.open_file path) [
  | none ↦ (none, release 2 l)
  | some fd ↦ map_file_in fs path size fd (record l { descriptors = l.descriptors + 1 })
]

-- `httpserv_resource_new`; the blocks are the struct and its path.
unfoldable pub resource_new_in : Host → Bytes → Ledger → Option Resource × Ledger
unfolding open_and_map_in
resource_new_in host path l =
    let fs = host l.descriptors in
    if not (fs.access path) then (none, l) else elim (fs.stat path) [
      | none ↦ (none, l)
      | some size ↦ open_and_map_in fs path size (alloc 2 l)
    ]

-- `httpserv_resource_destroy`
unfoldable pub resource_destroy : Option Resource → Ledger → Ledger
resource_destroy none l = l
resource_destroy (some res) l = release 2 (record l { mappings = l.mappings - 1 })

-- `httpserv_resource_loader_new`; the blocks are the struct, the root and the mutex.
unfoldable pub loader_new_in : Option Bytes → Ledger → Option Loader × Ledger
loader_new_in none l = (none, l)
loader_new_in (some root) l =
    (some (record { resources = []; root = root; locked = false }), alloc 3 l)

-- The end of `httpserv_resource_loader_preload` behind the loop, with the block of `name`.
pub link_in : Loader → Option Resource × Ledger → Call (Unit {0}) × Ledger
link_in loader (none, l) = (crashed, l)
link_in loader (some res, l) =
    (done (record loader { resources = res ∷ loader.resources; locked = false }) tt, release 1 l)

pub preload_name_in : Host → Loader → Bytes → Ledger → Call (Unit {0}) × Ledger
unfolding link_in
preload_name_in host loader name l = elim (find_resource loader.resources name) [
  | some cur ↦ (done (record loader { locked = true }) tt, release 1 l)
  | none ↦ link_in loader (resource_new_in host name l)
]

-- `httpserv_resource_loader_preload` on a loader and a path that are not NULL.
unfoldable pub preload_in : Host → Bytes → Loader → Bytes → Ledger → Call (Unit {0}) × Ledger
unfolding preload_name_in
preload_in host junk loader path l =
    if loader.locked
    then (blocked, l)
    else preload_name_in host loader (loader.root ++ (junk ++ path)) (alloc 1 l)

-- `if (!cur) cur = httpserv_resource_new(real_path);`
pub or_new_in : Host → Bytes → Option Resource → Ledger → Option Resource × Ledger
or_new_in host name none l = resource_new_in host name l
or_new_in host name (some cur) l = (some cur, l)

-- `free(real_path)` and the return.
pub give : Loader → Option Resource × Ledger → Call (Option Resource) × Ledger
give loader (cur, l) = (done loader cur, release 1 l)

-- `httpserv_resource_loader_load` on a loader and a path that are not NULL.
unfoldable pub load_in : Host → Loader → Bytes → Ledger → Call (Option Resource) × Ledger
unfolding or_new_in give
load_in host loader path l =
    let name = loader.root ++ path in
    if loader.locked
    then (blocked, l)
    else give loader (or_new_in host name (find_resource loader.resources name) (alloc 1 l))

-- The loop of `httpserv_resource_loader_destroy`: `free(cur)` for each resource.
unfoldable pub free_resources : List Resource → Ledger → Ledger
free_resources [] l = l
free_resources (cur ∷ next) l = free_resources next (release 1 l)

-- `httpserv_resource_loader_destroy`
unfoldable pub loader_destroy : Option Loader → Ledger → Ledger
unfolding free_resources
loader_destroy none l = l
loader_destroy (some loader) l = release 3 (free_resources loader.resources l)
