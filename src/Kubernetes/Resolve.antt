-- ===== src/Kubernetes/Resolve.antt =====
-- What a pod is resolved to.
use podtrace.Prelude.{
  ◌≡◌, ◌≢◌, refl, ◌∙◌, ap, Option, none, some, List, [], ◌∷◌, ◌++◌, take, All, arith,
}
use podtrace.Strings.{Bytes, codes, has_prefix, contains, split_from, split}
use podtrace.Strings.Laws.{Lacks}
use podtrace.Kubernetes.{FileSystem, Pod, cgroup_bases, resolved, no_cgroup, pod_info, resolve_pod}
use podtrace.Kubernetes.Search.{visited, first, find_cgroup_path-first}

split_from-Lacks : (s : Bytes) → Lacks b':' s → split_from (codes "://") 0 s ≡ s ∷ []
unfolding split_from has_prefix
split_from-Lacks [] h = refl
split_from-Lacks (c ∷ s) h = ground (arith, split_from-Lacks s h.1)

split_from-append :
    (p s : Bytes)
    → Lacks b':' p
    → split_from (codes "://") 0 (p ++ (codes "://" ++ s)) ≡ p ∷ split_from (codes "://") 0 s
unfolding split_from has_prefix
split_from-append [] s h = refl
split_from-append (c ∷ p) s h = ground (arith, split_from-append p s h.1)

split_runtime :
    (runtime short : Bytes)
    → Lacks b':' runtime
    → Lacks b':' short
    → split (codes "://") (runtime ++ (codes "://" ++ short)) ≡ runtime ∷ short ∷ []
unfolding split
split_runtime runtime short h k =
    split_from-append runtime short h ∙ ap (◌∷◌ runtime) (split_from-Lacks short k)

found_info :
    (name namespace short container : Bytes) (names : List Bytes) (found : Option Bytes)
    → pod_info name namespace short (container ∷ names) found ≡ (elim found [
      | none ↦ no_cgroup
      | some path ↦ resolved (record {
        pod_name = name;
        namespace = namespace;
        container_id = short;
        cgroup_path = path;
        container_name = container;
      })
    ])
found_info name namespace short container names none = refl
found_info name namespace short container names (some path) = refl

-- A pod is resolved to what stands behind :// in the identifier of its first container status,
-- which has no other colon, to the name of the first container of its specification, and to the
-- first readable path with the first twelve bytes of the identifier; without such a path the pod is
-- not resolved, and no path of a walk is empty.
pub resolve_pod_lem :
    (get_pod : Bytes → Bytes → Option Pod) (fs : FileSystem) (name namespace : Bytes) (pod : Pod)
    (runtime short : Bytes) (ids : List Bytes) (container : Bytes) (names : List Bytes)
    → get_pod namespace name ≡ some pod
    → pod.container_ids ≡ (runtime ++ (codes "://" ++ short)) ∷ ids
    → pod.container_names ≡ container ∷ names
    → Lacks b':' runtime
    → Lacks b':' short
    → ((base : Bytes) → All (λ v. v.path ≢ []) (fs.walk base))
    → resolve_pod get_pod fs name namespace
      ≡ (elim (first (contains (take 12 short)) (visited fs cgroup_bases)) [
        | none ↦ no_cgroup
        | some path ↦ resolved (record {
          pod_name = name;
          namespace = namespace;
          container_id = short;
          cgroup_path = path;
          container_name = container;
        })
      ])
unfolding resolve_pod
resolve_pod_lem get_pod fs name namespace pod runtime short ids container names got id_of name_of h
      k walks =
    rw
      (
        got,
        resolve_pod,
        id_of,
        name_of,
        split_runtime runtime short h k,
        find_cgroup_path-first fs short walks,
      )
      (found_info name namespace short container names
        (first (contains (take 12 short)) (visited fs cgroup_bases)))
