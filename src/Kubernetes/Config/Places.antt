-- ===== src/Kubernetes/Config/Places.antt =====
-- Where the configuration of the resolver comes from, and what an error names.
use podtrace.Prelude.{
  ℕ, ◌≡◌, ◌≢◌, ◌⊎◌, inl, inr, refl, sym, subst, none, some, [], ◌∷◌, Bool-cases, Option-cases,
}
use podtrace.Strings.{Bytes, codes, bytes_eq, is_empty, has_prefix, split_byte}
use podtrace.Strings.FilePath.{join, not_empty, clean, clean_onto}
use podtrace.Kubernetes.Config.{
  Environment, ClientLibrary, Resolver, resolver, no_kubeconfig, no_clientset, home_kubeconfig,
  explicit_path, new_clientset, shown_path, new_pod_resolver,
}
use podtrace.Kubernetes.Config.Rules.{
  home_of, config_in, Place, is_empty-false, is_empty-true, explicit_path-Place,
}

-- The path that an error names: the place, or, without one, the usual path in the home folder.
abbrev pub home_place : Bytes → Bytes
home_place [] = codes ".kube/config"
home_place (c ∷ home) = config_in (c ∷ home)

abbrev pub IsShown : Environment → Bytes → Bytes → Type 0
IsShown env place path =
    ((place ≢ []) × (path ≡ place)) ⊎ ((place ≡ []) × (path ≡ home_place (home_of env)))

home_kubeconfig-home_place : (home : Bytes) → home_kubeconfig home ≡ home_place home
unfolding join not_empty clean clean_onto split_byte has_prefix bytes_eq
home_kubeconfig-home_place [] = refl
home_kubeconfig-home_place (c ∷ home) = refl

shown_path-IsShown : (env : Environment) → IsShown env (explicit_path env) (shown_path env)
shown_path-IsShown env = elim (Bool-cases (is_empty (explicit_path env))) [
  | inl e ↦
      inr (is_empty-true (explicit_path env) e, rw e (home_kubeconfig-home_place (home_of env)))
  | inr e ↦ inl (is_empty-false (explicit_path env) e, rw e)
]

-- A configuration is that of the cluster or, without one, the one from the place that is found.
abbrev pub IsFound : ClientLibrary → Environment → ℕ → Type 0
IsFound lib env config =
    (lib.in_cluster_config ≡ some config)
    ⊎ ((lib.in_cluster_config ≡ none)
        × ((path : Bytes) × Place env path × (lib.client_config path ≡ some config)))

abbrev pub IsRight : ClientLibrary → Environment → Resolver → Type 0
IsRight lib env (resolver clientset) =
    (config : ℕ) × IsFound lib env config × (lib.new_for_config config ≡ some clientset)
IsRight lib env (no_kubeconfig path) =
    (lib.in_cluster_config ≡ none)
    × ((place : Bytes) × Place env place
        × (lib.client_config place ≡ none)
        × IsShown env place path)
IsRight lib env no_clientset =
    (config : ℕ) × IsFound lib env config × (lib.new_for_config config ≡ none)

becomes :
    (lib : ClientLibrary) (env : Environment) (b : Resolver) {a : Resolver}
    → a ≡ b
    → IsRight lib env b
    → IsRight lib env a
becomes lib env b e h = subst (IsRight lib env) (sym e) h

new_clientset-IsRight :
    (lib : ClientLibrary) (env : Environment) (config : ℕ)
    → IsFound lib env config
    → IsRight lib env (new_clientset lib config)
new_clientset-IsRight lib env config found = elim (Option-cases (lib.new_for_config config)) [
  | inl e ↦ becomes lib env no_clientset (rw (e, new_clientset)) (config, found, e)
  | inr (clientset, e) ↦
      becomes lib env (resolver clientset) (rw (e, new_clientset)) (config, found, e)
]

-- The configuration is that of the cluster or, only without one, that of the first place that
-- applies: the path in KUBECONFIG; else, for a user in SUDO_USER, the file .kube/config of that
-- user's folder below /home, if it is there; else that of the folder in HOME, unless this is /root,
-- if it is there; else the empty path. A resolver has a clientset of this configuration; an error
-- says truly which of the two steps failed, and the first names the place, or for the empty path
-- .kube/config in the folder of HOME.
pub new_pod_resolver-IsRight :
    (lib : ClientLibrary) (env : Environment) → IsRight lib env (new_pod_resolver lib env)
unfolding new_pod_resolver
new_pod_resolver-IsRight lib env = elim (Option-cases lib.in_cluster_config) [
  | inr (config, e) ↦
      becomes lib env (new_clientset lib config) (rw e)
        (new_clientset-IsRight lib env config (inl e))
  | inl e ↦ elim (Option-cases (lib.client_config (explicit_path env))) [
    | inr (config, q) ↦ becomes lib env (new_clientset lib config) (rw (e, q)) (
        new_clientset-IsRight lib env config
          (inr (e, (explicit_path env, explicit_path-Place env, q))))
    | inl q ↦
        becomes lib env (no_kubeconfig (shown_path env)) (rw (e, q))
          (e, (explicit_path env, explicit_path-Place env, q, shown_path-IsShown env))
  ]
]
