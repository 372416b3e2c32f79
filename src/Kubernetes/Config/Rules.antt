-- ===== src/Kubernetes/Config/Rules.antt =====
-- The places where `NewPodResolver` of internal/kubernetes/pod.go looks for a configuration, and the
-- rules for the choice.
use podtrace.Prelude.{
  ◌≡◌, ◌≢◌, ◌⊎◌, inl, inr, refl, ◌∙◌, sym, ap, subst, true, false, not, [], ◌∷◌, ◌++◌,
  if◌then◌else◌, arith, Bool-cases,
}
use podtrace.Strings.{Bytes, codes, bytes_eq, is_empty}
use podtrace.Strings.Laws.{bytes_eq_iff}
use podtrace.Strings.FilePath.{join, not_empty, clean, clean-ne-nil}
use podtrace.Kubernetes.Config.{
  Environment, sudo_file, sudo_path, home_path, home_kubeconfig, explicit_path,
}

abbrev pub user_of : Environment → Bytes
user_of env = env.getenv (codes "SUDO_USER")

abbrev pub home_of : Environment → Bytes
home_of env = env.getenv (codes "HOME")

-- The configuration in a folder.
abbrev pub config_in : Bytes → Bytes
config_in folder = clean (folder ++ codes "/.kube/config")

-- There is a user who called `sudo`, with a configuration in the home folder.
abbrev pub IsSudo : Environment → Type 0
IsSudo env = (user_of env ≢ []) × (env.stat_ok (config_in (codes "/home/" ++ user_of env)) ≡ true)

-- There is a home folder other than root's, with a configuration.
abbrev pub IsHome : Environment → Type 0
IsHome env =
    (home_of env ≢ [])
    × (home_of env ≢ codes "/root")
    × (env.stat_ok (config_in (home_of env)) ≡ true)

-- Where the configuration stands, by the first rule that applies: the variable names it, the user who
-- called `sudo` has it, or the home folder. With the empty path the library looks at its own places.
pub data Place (env : Environment) : Bytes → Type 0 where
  named : env.getenv (codes "KUBECONFIG") ≢ [] → Place env (env.getenv (codes "KUBECONFIG"))
  of_sudo :
      env.getenv (codes "KUBECONFIG") ≡ []
      → IsSudo env
      → Place env (config_in (codes "/home/" ++ user_of env))
  of_home :
      env.getenv (codes "KUBECONFIG") ≡ []
      → ¬ IsSudo env
      → IsHome env
      → Place env (config_in (home_of env))
  nowhere : env.getenv (codes "KUBECONFIG") ≡ [] → ¬ IsSudo env → ¬ IsHome env → Place env []

sudo_file-config_in :
    (env : Environment) (user : Bytes)
    → user_of env ≡ user
    → user ≢ []
    → sudo_file env ≡ config_in (codes "/home/" ++ user)
unfolding join not_empty
sudo_file-config_in env [] e h = absurd (h refl)
sudo_file-config_in env (c ∷ user) e h = rw e

home_kubeconfig-config_in : (home : Bytes) → home ≢ [] → home_kubeconfig home ≡ config_in home
unfolding join not_empty
home_kubeconfig-config_in [] h = absurd (h refl)
home_kubeconfig-config_in (c ∷ home) h = refl

pub is_empty-false : (s : Bytes) → is_empty s ≡ false → s ≢ []
is_empty-false s h e = ground arith

not_empty_of : (s : Bytes) → s ≢ [] → is_empty s ≡ false
not_empty_of [] h = absurd (h refl)
not_empty_of (c ∷ s) h = refl

pub is_empty-true : (s : Bytes) → is_empty s ≡ true → s ≡ []
is_empty-true s h = ground arith

-- The path of the user who called `sudo`, and none without one.
sudo_path-cases :
    (env : Environment)
    → (IsSudo env × (sudo_path env ≡ config_in (codes "/home/" ++ user_of env)))
      ⊎ ((¬ IsSudo env) × (sudo_path env ≡ []))
sudo_path-cases env = elim (Bool-cases (is_empty (user_of env))) [
  | inl e ↦ inr (λ h. h.0 (is_empty-true (user_of env) e), rw e)
  | inr e ↦
      let user = is_empty-false (user_of env) e in
      let same = sudo_file-config_in env (user_of env) refl user in
      elim (Bool-cases (env.stat_ok (sudo_file env))) [
        | inl there ↦ inl ((user, ap env.stat_ok (sym same) ∙ there), rw (e, there) same)
        | inr gone ↦ inr (λ h. absurd (ground (arith, ap env.stat_ok same)), rw (e, gone))
      ]
]

is_root-false : (s : Bytes) → bytes_eq s (codes "/root") ≡ false → s ≢ codes "/root"
is_root-false s h e = ground (arith, (bytes_eq_iff s (codes "/root")).1 e)

-- The path in the home folder, and none without one.
home_path-cases :
    (env : Environment)
    → (IsHome env × (home_path env ≡ config_in (home_of env)))
      ⊎ ((¬ IsHome env) × (home_path env ≡ []))
home_path-cases env = elim (Bool-cases (is_empty (home_of env))) [
  | inl e ↦ inr (λ h. h.0 (is_empty-true (home_of env) e), rw e)
  | inr e ↦
      let home = is_empty-false (home_of env) e in
      let same = home_kubeconfig-config_in (home_of env) home in
      elim (Bool-cases (bytes_eq (home_of env) (codes "/root"))) [
        | inl root ↦
            inr (λ h. h.1 ((bytes_eq_iff (home_of env) (codes "/root")).0 root), rw (e, root))
        | inr other ↦ elim (Bool-cases (env.stat_ok (home_kubeconfig (home_of env)))) [
          | inl there ↦ inl (
            (home, is_root-false (home_of env) other, ap env.stat_ok (sym same) ∙ there),
            rw (e, other, there) same,
          )
          | inr gone ↦ inr (λ h. absurd (ground (arith, ap env.stat_ok same)), rw (e, other, gone))
        ]
      ]
]

-- The last lines of `explicit_path`.
abbrev pick : Bytes → Bytes → Bytes → Bytes
pick kubeconfig sudo home =
    if not (is_empty kubeconfig) then kubeconfig else if is_empty sudo then home else sudo

pick_sudo :
    (kubeconfig sudo home : Bytes)
    → is_empty kubeconfig ≡ true
    → sudo ≢ []
    → pick kubeconfig sudo home ≡ sudo
pick_sudo kubeconfig [] home e h = absurd (h refl)
pick_sudo kubeconfig (c ∷ sudo) home e h = rw e

pick_home :
    (kubeconfig sudo home : Bytes)
    → is_empty kubeconfig ≡ true
    → sudo ≡ []
    → pick kubeconfig sudo home ≡ home
pick_home kubeconfig sudo home e h = rw (e, h)

pub explicit_path-Place : (env : Environment) → Place env (explicit_path env)
unfolding explicit_path
explicit_path-Place env = elim (Bool-cases (is_empty (env.getenv (codes "KUBECONFIG")))) [
  | inr e ↦
      subst (Place env) (sym (rw e))
        (Place.named (is_empty-false (env.getenv (codes "KUBECONFIG")) e))
  | inl e ↦
      let unset = is_empty-true (env.getenv (codes "KUBECONFIG")) e in
      elim (sudo_path-cases env) [
        | inl (sudo, q) ↦
            subst (Place env)
              (sym (
                pick_sudo (env.getenv (codes "KUBECONFIG")) (sudo_path env) (home_path env) e (λ z.
                  clean-ne-nil ((codes "/home/" ++ user_of env) ++ codes "/.kube/config")
                    (sym q ∙ z))
                ∙ q))
              (Place.of_sudo unset sudo)
        | inr (no_sudo, q) ↦ elim (home_path-cases env) [
          | inl (home, p) ↦
              subst (Place env)
                (sym (
                  pick_home (env.getenv (codes "KUBECONFIG")) (sudo_path env) (home_path env) e q
                  ∙ p))
                (Place.of_home unset no_sudo home)
          | inr (no_home, p) ↦
              subst (Place env)
                (sym (
                  pick_home (env.getenv (codes "KUBECONFIG")) (sudo_path env) (home_path env) e q
                  ∙ p))
                (Place.nowhere unset no_sudo no_home)
        ]
      ]
]
