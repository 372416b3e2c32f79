-- ===== src/Kubernetes.antt =====
-- internal/kubernetes/pod.go: `ResolvePod` and `findCgroupPath`.
pub mod Config
pub mod Search
pub mod Resolve
use podtrace.Prelude.{
  ℕ, Bool, ◌&&◌, ◌||◌, Option, none, some, List, [], ◌∷◌, leb, if◌then◌else◌, length, take,
}
use podtrace.Strings.{Bytes, codes, contains, is_empty, split}

-- One call of the function that `filepath.Walk` is given: a path, and whether there was no error.
pub record Visit : Type 0 where
  pub path : Bytes
  pub readable : Bool

-- What the search asks of the file system. `exists` is false where `os.Stat` says that there is no
-- such file; a walk lists the calls that are made as long as none ends it.
pub record FileSystem : Type 0 where
  pub exists : Bytes → Bool
  pub walk : Bytes → List Visit

-- What is used of a pod: the identifiers in the statuses, and the names in the specification.
pub record Pod : Type 0 where
  pub container_ids : List Bytes
  pub container_names : List Bytes

pub record PodInfo : Type 0 where
  pub pod_name : Bytes
  pub namespace : Bytes
  pub container_id : Bytes
  pub cgroup_path : Bytes
  pub container_name : Bytes

-- The errors that are returned, and the panic of an index out of range.
pub data Resolution : Type 0 where
  resolved : PodInfo → Resolution
  get_failed : Resolution
  no_containers : Resolution
  invalid_id : Resolution
  no_cgroup : Resolution
  panicked : Resolution

unfoldable pub is_match : Bytes → Bytes → Bool
is_match container_id path =
    contains container_id path
    || (leb 12 (length container_id) && contains (take 12 container_id) path)

-- The walk, which the first match ends.
unfoldable pub walk_for : Bytes → List Visit → Option Bytes
walk_for container_id [] = none
walk_for container_id (v ∷ vs) =
    let rest = walk_for container_id vs in
    if v.readable && is_match container_id v.path then some v.path else rest

abbrev pub cgroup_bases : List Bytes
cgroup_bases =
    codes "/sys/fs/cgroup/kubepods.slice"
    ∷ codes "/sys/fs/cgroup/system.slice"
    ∷ codes "/sys/fs/cgroup/user.slice"
    ∷ []

-- `found && foundPath != ""`
abbrev pub or_search : Option Bytes → Option Bytes → Option Bytes
or_search none rest = rest
or_search (some path) rest = if is_empty path then rest else some path

-- The loop over the base paths.
unfoldable pub search : FileSystem → Bytes → List Bytes → Option Bytes
search fs container_id [] = none
search fs container_id (base ∷ bases) =
    let rest = search fs container_id bases in
    if fs.exists base then or_search (walk_for container_id (fs.walk base)) rest else rest

unfoldable pub find_cgroup_path : FileSystem → Bytes → Option Bytes
find_cgroup_path fs container_id = search fs container_id cgroup_bases

-- The last part, when the path has been looked for.
abbrev pub pod_info : Bytes → Bytes → Bytes → List Bytes → Option Bytes → Resolution
pod_info name namespace short_id names none = no_cgroup
pod_info name namespace short_id [] (some path) = panicked
pod_info name namespace short_id (container ∷ names) (some path) = resolved (record {
  pod_name = name;
  namespace = namespace;
  container_id = short_id;
  cgroup_path = path;
  container_name = container;
})

-- From the parts of the identifier on.
abbrev pub resolve_parts : FileSystem → Bytes → Bytes → List Bytes → List Bytes → Resolution
resolve_parts fs name namespace names (runtime ∷ short_id ∷ []) =
    pod_info name namespace short_id names (find_cgroup_path fs short_id)
resolve_parts fs name namespace names [] = invalid_id
resolve_parts fs name namespace names (part ∷ []) = invalid_id
resolve_parts fs name namespace names (a ∷ b ∷ c ∷ parts) = invalid_id

abbrev pub resolve_ids : FileSystem → Bytes → Bytes → List Bytes → List Bytes → Resolution
resolve_ids fs name namespace names [] = no_containers
resolve_ids fs name namespace names (id ∷ ids) =
    resolve_parts fs name namespace names (split (codes "://") id)

-- `get_pod` is the Kubernetes client's `Get` for a namespace and a name, with `none` for an error.
unfoldable pub resolve_pod : (Bytes → Bytes → Option Pod) → FileSystem → Bytes → Bytes → Resolution
resolve_pod get_pod fs name namespace = elim (get_pod namespace name) [
  | none ↦ get_failed
  | some pod ↦ resolve_ids fs name namespace pod.container_names pod.container_ids
]
