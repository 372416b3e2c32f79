-- ===== src/Tracer/Attach/Outcome.antt =====
-- When `NewTracer` succeeds.
use mathlib.Core.List.{Permᴰ}
use mathlib.Core.List.Permᴰ
use mathlib.Core.Option.{some-ne-none, none-ne-some, some-injective}
use podtrace.Prelude.{
  ℕ, ◌≡◌, ◌≢◌, ◌↔◌, refl, sym, ◌∙◌, ap, subst, true, none, some, List, [], ◌∷◌, ◌++◌, All, arith,
  Option-cases, Bool-cases, inl, inr,
}
use podtrace.Runtime.Perm.{All-perm}
use podtrace.Tracer.Attach.{
  Probe, Kernel, probes, hook_of, attach_loop, attach_probes, load_podtrace, open_tracer,
  new_tracer,
}

-- A probe whose program the object file lacks is passed over; any other must attach.
abbrev pub IsAttachable : Kernel → Probe → Type 0
IsAttachable k p = k.has_program p.program ≡ true → k.attach (hook_of p) p.program ≢ none

module _ (k : Kernel) where
  attach_loop_iff :
      (ps : List Probe) (links : List ℕ)
      → ((attach_loop k ps links).1 ≢ none) ↔ All (IsAttachable k) ps
  unfolding attach_loop
  attach_loop_iff [] links = (λ _. tt, λ _ e. some-ne-none links e)
  attach_loop_iff (p ∷ ps) links = elim (Bool-cases (k.has_program p.program)) [
    | inr e ↦
        rw (e, attach_loop)
          (
            λ h. (λ t. absurd (ground arith), (attach_loop_iff ps links).0 h),
            λ h. (attach_loop_iff ps links).1 h.1,
          )
    | inl e ↦ elim (Option-cases (k.attach (hook_of p) p.program)) [
      | inl n ↦ rw (e, n, attach_loop) (λ h. absurd (h refl), λ h. absurd (h.0 refl refl))
      | inr (l, n) ↦
          rw (e, n, attach_loop)
            (
              λ h. (λ _. some-ne-none l, (attach_loop_iff ps (links ++ l ∷ [])).0 h),
              λ h. (attach_loop_iff ps (links ++ l ∷ [])).1 h.1,
            )
    ]
  ]

  attach_probes_iff :
      (iterate : List Probe → List Probe)
      → ((xs : List Probe) → Permᴰ (iterate xs) xs)
      → ((attach_probes k iterate).1 ≢ none) ↔ All (IsAttachable k) probes
  unfolding attach_probes
  attach_probes_iff iterate perm = elim (Option-cases (attach_loop k (iterate probes) []).1) [
    | inl n ↦ rw (n, attach_probes) (λ h. absurd (h refl), λ h. absurd (attached h n))
    | inr (links, n) ↦
        rw (n, attach_probes)
          (
            λ _.
                All-perm (IsAttachable k) (perm probes)
                  ((attach_loop_iff (iterate probes) []).0 (λ e. some-ne-none links (sym n ∙ e))),
            λ _. some-ne-none _,
          )
  ]
    where
      attached : All (IsAttachable k) probes → (attach_loop k (iterate probes) []).1 ≢ none
      attached h =
          (attach_loop_iff (iterate probes) []).1
            (All-perm (IsAttachable k) (Permᴰ.symm (perm probes)) h)

  -- What a collection needs to become a tracer.
  abbrev pub IsUsable : ℕ → Type 0
  IsUsable coll = All (IsAttachable k) probes × (k.new_reader coll ≢ none)

  open_tracer_iff :
      (iterate : List Probe → List Probe)
      → ((xs : List Probe) → Permᴰ (iterate xs) xs)
      → (coll : ℕ) → ((open_tracer k iterate coll).1 ≢ none) ↔ IsUsable coll
  unfolding open_tracer
  open_tracer_iff iterate perm coll = elim (Option-cases (attach_probes k iterate).1) [
    | inl n ↦
        rw (n, open_tracer)
          (λ h. absurd (h refl), λ h. absurd ((attach_probes_iff iterate perm).1 h.0 n))
    | inr (links, n) ↦ elim (Option-cases (k.new_reader coll)) [
      | inl m ↦ rw (n, m, open_tracer) (λ h. absurd (h refl), λ h. absurd (h.1 refl))
      | inr (rd, m) ↦
          rw (n, m, open_tracer)
            (
              λ _. (
                (attach_probes_iff iterate perm).0 (λ e. some-ne-none links (sym n ∙ e)),
                some-ne-none rd,
              ),
              λ _. some-ne-none _,
            )
    ]
  ]

  -- In whatever order the probes are visited, each once, NewTracer succeeds exactly when an object
  -- file is loaded, the collection is created, every kernel probe that the object file has
  -- attaches, and the ring buffer opens.
  pub new_tracer_iff :
      (iterate : List Probe → List Probe)
      → ((xs : List Probe) → Permᴰ (iterate xs) xs)
      → ((new_tracer k iterate).1 ≢ none) ↔ (
          (spec coll : ℕ) × (load_podtrace k ≡ some spec)
          × (k.new_collection spec ≡ some coll)
          × IsUsable coll)
  unfolding new_tracer
  new_tracer_iff iterate perm = elim (Option-cases (load_podtrace k)) [
    | inl e ↦
        rw (e, new_tracer) (λ h. absurd (h refl), λ (_, c, n, _, _). absurd (none-ne-some _ n))
    | inr (spec, e) ↦ elim (Option-cases (k.new_collection spec)) [
      | inl m ↦
          rw (e, m, new_tracer)
            (
              λ h. absurd (h refl),
              λ (s, c, n, q, u).
                  absurd (none-ne-some c (sym m ∙ ap k.new_collection (some-injective _ _ n) ∙ q)),
            )
      | inr (coll, m) ↦
          rw (e, m, new_tracer)
            (
              λ h. (spec, coll, refl, m, (open_tracer_iff iterate perm coll).0 h),
              λ (s, c, n, q, u). (open_tracer_iff iterate perm coll).1 (
                  subst IsUsable
                    (some-injective _ _
                      (sym q ∙ ap k.new_collection (sym (some-injective _ _ n)) ∙ m))
                    u),
            )
    ]
  ]
