-- ===== src/Resource.antt =====
-- src/resource.c. The file system is a parameter. A loader is locked where its mutex is held; taking a
-- mutex that is held by the same thread, or that nobody will release, blocks for ever.
pub mod Loading
pub mod Holds
use httpserv.Prelude.{
  ℕ, Bool, true, false, not, ◌||◌, List, [], ◌∷◌, ◌++◌, Option, some, none, Bytes, if◌then◌else◌,
}
use httpserv.Cstring.{eqs}

-- The calls on files: `access(path, F_OK | R_OK) != -1`, the size that `stat` gives, the descriptor
-- that `open` gives, and the bytes that `mmap` gives for a descriptor and a size; `none` is a failure.
pub record FileSystem : Type 0 where
  pub access : Bytes → Bool
  pub stat : Bytes → Option ℕ
  pub open_file : Bytes → Option ℕ
  pub mmap : ℕ → ℕ → Option Bytes

-- `httpserv_resource_t`, without the link.
pub record Resource : Type 0 where
  pub path : Bytes
  pub contents : Bytes
  pub size : ℕ
  pub fd : ℕ

pub map_file : FileSystem → Bytes → ℕ → ℕ → Option Resource
map_file fs path size fd = elim (fs.mmap fd size) [
  | none ↦ none
  | some contents ↦ some (record { path = path; contents = contents; size = size; fd = fd })
]

pub open_and_map : FileSystem → Bytes → ℕ → Option Resource
unfolding map_file
open_and_map fs path size = elim (fs.open_file path) [
  | none ↦ none
  | some fd ↦ map_file fs path size fd
]

-- `httpserv_resource_new`
unfoldable pub resource_new : FileSystem → Bytes → Option Resource
unfolding open_and_map
resource_new fs path =
    if not (fs.access path)
    then none
    else elim (fs.stat path) [ none ↦ none | some size ↦ open_and_map fs path size ]

-- `httpserv_resource_loader_t`; `locked` is the state of the mutex.
pub record Loader : Type 0 where
  pub resources : List Resource
  pub root : Bytes
  pub locked : Bool

-- `httpserv_resource_loader_new`
unfoldable pub loader_new : Option Bytes → Option Loader
loader_new none = none
loader_new (some root) = some (record { resources = []; root = root; locked = false })

-- The loop over the loaded resources.
unfoldable pub find_resource : List Resource → Bytes → Option Resource
find_resource [] name = none
find_resource (cur ∷ next) name = if eqs cur.path name then some cur else find_resource next name

-- How a call on a loader ends: it returns with the loader and a value, it waits for the mutex for
-- ever, or it writes through NULL.
pub data Call (A : Type 0) : Type 0 where
  done : Loader → A → Call A
  blocked crashed : Call A

-- `httpserv_resource_loader_preload` behind its test for NULL, with `name` built. A resource that is
-- already there ends the call with the mutex still held.
pub preload_name : FileSystem → Loader → Bytes → Call (Unit {0})
preload_name fs loader name = elim (find_resource loader.resources name) [
  | some cur ↦ done (record loader { locked = true }) tt
  | none ↦ elim (resource_new fs name) [
    | none ↦ crashed
    | some res ↦ done (record loader { resources = res ∷ loader.resources; locked = false }) tt
  ]
]

-- `httpserv_resource_loader_preload`. `strncpy` copies the root with no NUL behind it, so that
-- `strcat` appends the path behind what the fresh block holds up to its first NUL, `junk`.
unfoldable pub preload :
    FileSystem → Bytes → Option Loader → Option Bytes → Option (Call (Unit {0}))
unfolding preload_name find_resource
preload fs junk (some loader) (some path) =
    some (if loader.locked then blocked else preload_name fs loader (loader.root ++ (junk ++ path)))
preload fs junk loader path = none

-- `if (!cur) cur = httpserv_resource_new(real_path);`
abbrev pub or_new : FileSystem → Bytes → Option Resource → Option Resource
or_new fs real_path none = resource_new fs real_path
or_new fs real_path (some cur) = some cur

pub load_name : FileSystem → Loader → Bytes → Call (Option Resource)
load_name fs loader real_path =
    done loader (or_new fs real_path (find_resource loader.resources real_path))

-- `httpserv_resource_loader_load`; a call with NULL returns at once.
unfoldable pub load : FileSystem → Option Loader → Option Bytes → Option (Call (Option Resource))
unfolding load_name find_resource
load fs (some loader) (some path) =
    some (if loader.locked then blocked else load_name fs loader (loader.root ++ path))
load fs loader path = none
