-- ===== src/Kubernetes/Config.antt =====
-- `NewPodResolver` of internal/kubernetes/pod.go: where the configuration is looked for.
pub mod Rules
pub mod Places
use podtrace.Prelude.{
  ℕ, ◌≡◌, ◌≢◌, ◌↔◌, ◌⊎◌, inl, inr, refl, ◌∙◌, sym, ap, subst, Bool, true, false, ◌&&◌, not, Option,
  none, some, List, [], ◌∷◌, ◌++◌, if◌then◌else◌, arith, Bool-cases, Option-cases,
}
use podtrace.Strings.{Bytes, codes, bytes_eq, is_empty}
use podtrace.Strings.FilePath.{join}

-- The variables of the environment, `[]` for one that is not set, and whether `os.Stat` succeeds.
pub record Environment : Type 0 where
  pub getenv : Bytes → Bytes
  pub stat_ok : Bytes → Bool

-- The answers of the client library: a configuration inside a cluster, one from an explicit path (or
-- from the default places, for the empty path), and a clientset.
pub record ClientLibrary : Type 0 where
  pub in_cluster_config : Option ℕ
  pub client_config : Bytes → Option ℕ
  pub new_for_config : ℕ → Option ℕ

pub data Resolver : Type 0 where
  resolver : ℕ → Resolver
  no_kubeconfig : Bytes → Resolver
  no_clientset : Resolver

abbrev pub sudo_file : Environment → Bytes
sudo_file env =
    join (codes "/home" ∷ env.getenv (codes "SUDO_USER") ∷ codes ".kube" ∷ codes "config" ∷ [])

abbrev pub sudo_path : Environment → Bytes
sudo_path env =
    if not (is_empty (env.getenv (codes "SUDO_USER"))) && env.stat_ok (sudo_file env)
    then sudo_file env
    else []

abbrev pub home_kubeconfig : Bytes → Bytes
home_kubeconfig home = join (home ∷ codes ".kube" ∷ codes "config" ∷ [])

abbrev pub has_home : Environment → Bool
has_home env =
    not (is_empty (env.getenv (codes "HOME")))
    && not (bytes_eq (env.getenv (codes "HOME")) (codes "/root"))

abbrev pub home_path : Environment → Bytes
home_path env =
    if has_home env && env.stat_ok (home_kubeconfig (env.getenv (codes "HOME")))
    then home_kubeconfig (env.getenv (codes "HOME"))
    else []

-- `loadingRules.ExplicitPath`
unfoldable pub explicit_path : Environment → Bytes
explicit_path env =
    let kubeconfig = env.getenv (codes "KUBECONFIG") in
    if not (is_empty kubeconfig)
    then kubeconfig
    else if is_empty (sudo_path env)
    then home_path env
    else sudo_path env

abbrev pub new_clientset : ClientLibrary → ℕ → Resolver
new_clientset lib config = elim (lib.new_for_config config) [
  | none ↦ no_clientset
  | some clientset ↦ resolver clientset
]

-- The path that the error names.
abbrev pub shown_path : Environment → Bytes
shown_path env =
    if is_empty (explicit_path env)
    then home_kubeconfig (env.getenv (codes "HOME"))
    else explicit_path env

unfoldable pub new_pod_resolver : ClientLibrary → Environment → Resolver
new_pod_resolver lib env = elim lib.in_cluster_config [
  | some config ↦ new_clientset lib config
  | none ↦ elim (lib.client_config (explicit_path env)) [
    | none ↦ no_kubeconfig (shown_path env)
    | some config ↦ new_clientset lib config
  ]
]
