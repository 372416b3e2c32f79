-- ===== src/Tracer/Attach/Shutdown.antt =====
-- What is open when `NewTracer` and `Stop` are done.
use podtrace.Prelude.{
  ℕ, ◌+◌, ◌≡◌, refl, subst, Bool, true, false, Option, none, some, List, [], ◌∷◌, ◌++◌, arith,
  Option-cases, inl, inr,
}
use podtrace.Tracer.Attach.{
  Probe, Kernel, Resource, collection_of, Op, closed, Tracer, attach_probes, load_podtrace,
  open_tracer, new_tracer, stop,
}
use podtrace.Tracer.Attach.Resources.{
  opens, closes, IsBalanced, Accounted, opens-append, closes-append, opens-close_links,
  closes-close_links, attach_probes-Accounted,
}

-- The operations of `Stop`, once a tracer is there.
abbrev pub stop_of : Option Tracer → List Op
stop_of none = []
stop_of (some t) = stop t

module _ (p : Resource → Bool) where
  -- The collection is open besides the links.
  open_tracer-balance :
      (k : Kernel) (iterate : List Probe → List Probe) (coll : ℕ)
      → (elim (p (collection_of coll)) [ true ↦ 1 | false ↦ 0 ])
          + opens p ((open_tracer k iterate coll).0 ++ stop_of (open_tracer k iterate coll).1)
        ≡ closes p ((open_tracer k iterate coll).0 ++ stop_of (open_tracer k iterate coll).1)
  unfolding open_tracer stop
  open_tracer-balance k iterate coll = elim (Option-cases attached.1) [
    | inl n ↦
        let h = subst (Accounted p [] attached.0) n (attach_probes-Accounted p k iterate) in
        rw (n, open_tracer) (omega (arith, h, opens-append p, closes-append p))
    | inr (links, n) ↦
        let h = subst (Accounted p [] attached.0) n (attach_probes-Accounted p k iterate) in
        let shut = opens-close_links p links in
        let shuts = closes-close_links p links in
        elim (Option-cases (k.new_reader coll)) [
          | inl m ↦
              rw (n, m, open_tracer)
                (omega (arith, h.0, h.1, shut, shuts, opens-append p, closes-append p))
          | inr (rd, m) ↦
              rw (n, m, open_tracer)
                (omega (arith, h.0, h.1, shut, shuts, opens-append p, closes-append p))
        ]
  ]
    where
      attached : List Op × Option (List ℕ)
      attached = attach_probes k iterate

      last : List Op
      last = closed (collection_of coll) ∷ []

-- Everything that NewTracer opens is closed exactly once for each time it is opened: when it fails,
-- before it returns; when it succeeds, by the time Stop returns.
pub new_tracer-IsBalanced :
    (k : Kernel) (iterate : List Probe → List Probe)
    → IsBalanced ((new_tracer k iterate).0 ++ stop_of (new_tracer k iterate).1)
unfolding new_tracer
new_tracer-IsBalanced k iterate p = elim (Option-cases (load_podtrace k)) [
  | inl e ↦ rw (e, new_tracer) refl
  | inr (spec, e) ↦ elim (Option-cases (k.new_collection spec)) [
    | inl n ↦ rw (e, n, new_tracer) refl
    | inr (coll, n) ↦ rw (e, n, new_tracer) (open_tracer-balance p k iterate coll)
  ]
]
