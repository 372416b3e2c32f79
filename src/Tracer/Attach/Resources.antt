-- ===== src/Tracer/Attach/Resources.antt =====
-- What the operations of a log open and close, and what `attachProbes` leaves open.
use podtrace.Prelude.{
  ℕ, ◌+◌, ◌≡◌, refl, subst, Bool, true, false, Option, none, some, List, [], ◌∷◌, ◌++◌, arith,
  Option-cases, Bool-cases, inl, inr,
}
use podtrace.Strings.{Bytes, codes, is_empty}
use podtrace.Tracer.Attach.{
  Hook, uprobe, uretprobe, tracepoint, Probe, Kernel, Resource, link, Op, opened, closed, probes,
  hook_of, close_links, attach_loop, attach_optional, find_libc_path, attach_dns, attach_probes,
}

-- How many of the resources that `p` selects are opened, and closed, by the operations.
abbrev pub opens : (Resource → Bool) → List Op → ℕ
opens p [] = 0
opens p (opened r ∷ ops) = (elim (p r) [ true ↦ 1 | false ↦ 0 ]) + opens p ops
opens p (closed r ∷ ops) = opens p ops

abbrev pub closes : (Resource → Bool) → List Op → ℕ
closes p [] = 0
closes p (opened r ∷ ops) = closes p ops
closes p (closed r ∷ ops) = (elim (p r) [ true ↦ 1 | false ↦ 0 ]) + closes p ops

-- Everything that is opened is closed exactly as often.
abbrev pub IsBalanced : List Op → Type 0
IsBalanced ops = (p : Resource → Bool) → opens p ops ≡ closes p ops

abbrev pub links_in : (Resource → Bool) → List ℕ → ℕ
links_in p [] = 0
links_in p (l ∷ ls) = (elim (p (link l)) [ true ↦ 1 | false ↦ 0 ]) + links_in p ls

module _ (p : Resource → Bool) where
  pub opens-append : (xs ys : List Op) → opens p (xs ++ ys) ≡ opens p xs + opens p ys
  opens-append [] ys = omega arith
  opens-append (opened r ∷ xs) ys = omega (arith, opens-append xs ys)
  opens-append (closed r ∷ xs) ys = opens-append xs ys

  pub closes-append : (xs ys : List Op) → closes p (xs ++ ys) ≡ closes p xs + closes p ys
  closes-append [] ys = omega arith
  closes-append (opened r ∷ xs) ys = closes-append xs ys
  closes-append (closed r ∷ xs) ys = omega (arith, closes-append xs ys)

  links_in-append : (xs ys : List ℕ) → links_in p (xs ++ ys) ≡ links_in p xs + links_in p ys
  links_in-append [] ys = omega arith
  links_in-append (x ∷ xs) ys = omega (arith, links_in-append xs ys)

  pub opens-close_links : (ls : List ℕ) → opens p (close_links ls) ≡ 0
  opens-close_links [] = refl
  opens-close_links (l ∷ ls) = opens-close_links ls

  pub closes-close_links : (ls : List ℕ) → closes p (close_links ls) ≡ links_in p ls
  closes-close_links [] = refl
  closes-close_links (l ∷ ls) = omega (arith, closes-close_links ls)

  -- The links of `before` are accounted for, with those that the operations open: all closed, or
  -- all in the result.
  abbrev pub Accounted : List ℕ → List Op → Option (List ℕ) → Type 0
  Accounted before ops none = closes p ops ≡ links_in p before + opens p ops
  Accounted before ops (some after) =
      (closes p ops ≡ 0) × (links_in p after ≡ links_in p before + opens p ops)

  Accounted-opened :
      (links : List ℕ) (l : ℕ) (ops : List Op) (r : Option (List ℕ))
      → Accounted (links ++ l ∷ []) ops r
      → Accounted links (opened (link l) ∷ ops) r
  Accounted-opened links l ops none h = omega (arith, links_in-append links (l ∷ []), h)
  Accounted-opened links l ops (some after) h =
      (h.0, omega (arith, links_in-append links (l ∷ []), h.1))

  attach_loop-Accounted :
      (k : Kernel) (ps : List Probe) (links : List ℕ)
      → Accounted links (attach_loop k ps links).0 (attach_loop k ps links).1
  unfolding attach_loop
  attach_loop-Accounted k [] links = (refl, omega arith)
  attach_loop-Accounted k (x ∷ ps) links = elim (Bool-cases (k.has_program x.program)) [
    | inr e ↦ rw (e, attach_loop) (attach_loop-Accounted k ps links)
    | inl e ↦ elim (Option-cases (k.attach (hook_of x) x.program)) [
      | inl n ↦ rw (e, n) (omega (arith, closes-close_links links, opens-close_links links))
      | inr (l, n) ↦
          let rest = attach_loop k ps (links ++ l ∷ []) in
          rw (e, n)
            (Accounted-opened links l rest.0 rest.1 (attach_loop-Accounted k ps (links ++ l ∷ [])))
    ]
  ]

  attach_optional-Accounted :
      (k : Kernel) (hook : Hook) (program : Bytes) (links : List ℕ)
      → Accounted links
          (attach_optional k hook program links).0
          (some (attach_optional k hook program links).1)
  unfolding attach_optional
  attach_optional-Accounted k hook program links = elim (Bool-cases (k.has_program program)) [
    | inr e ↦ rw e (omega arith, omega arith)
    | inl e ↦ elim (Option-cases (k.attach hook program)) [
      | inl n ↦ rw (e, n) (omega arith, omega arith)
      | inr (l, n) ↦ rw (e, n) (refl, omega (arith, links_in-append links (l ∷ [])))
    ]
  ]

  -- Two accounted steps, one after the other.
  Accounted-append :
      (ls ms ns : List ℕ) (xs ys : List Op)
      → Accounted ls xs (some ms)
      → Accounted ms ys (some ns)
      → Accounted ls (xs ++ ys) (some ns)
  Accounted-append ls ms ns xs ys h k =
      (omega (arith, closes-append xs ys, h.0, k.0), omega (arith, opens-append xs ys, h.1, k.1))

  attach_dns-Accounted :
      (k : Kernel) (links : List ℕ)
      → Accounted links (attach_dns k links).0 (some (attach_dns k links).1)
  unfolding attach_dns
  attach_dns-Accounted k links = elim (Bool-cases (is_empty path)) [
    | inl e ↦ rw e (refl, omega arith)
    | inr e ↦ elim (Bool-cases (k.is_executable path)) [
      | inr n ↦ rw (e, n) (refl, omega arith)
      | inl n ↦
          rw (e, n)
            (Accounted-append links entry.1 exit.1 entry.0 exit.0
              (attach_optional-Accounted k _ _ links) (attach_optional-Accounted k _ _ entry.1))
    ]
  ]
    where
      path : Bytes
      path = find_libc_path k.is_file

      entry : List Op × List ℕ
      entry =
          attach_optional k (uprobe path (codes "getaddrinfo")) (codes "uprobe_getaddrinfo") links

      exit : List Op × List ℕ
      exit =
          attach_optional k (uretprobe path (codes "getaddrinfo")) (codes "uretprobe_getaddrinfo")
            entry.1

  pub attach_probes-Accounted :
      (k : Kernel) (iterate : List Probe → List Probe)
      → Accounted [] (attach_probes k iterate).0 (attach_probes k iterate).1
  unfolding attach_probes
  attach_probes-Accounted k iterate = elim (Option-cases required.1) [
    | inl n ↦
        rw (n, attach_probes)
          (subst (Accounted [] required.0) n (attach_loop-Accounted k (iterate probes) []))
    | inr (links, n) ↦
        let sched =
          attach_optional k (tracepoint (codes "sched") (codes "sched_switch"))
            (codes "tracepoint_sched_switch") links in
        let dns = attach_dns k sched.1 in
        rw (n, attach_probes)
          (Accounted-append [] links dns.1 required.0 (sched.0 ++ dns.0)
            (subst (Accounted [] required.0) n (attach_loop-Accounted k (iterate probes) []))
            (Accounted-append links sched.1 dns.1 sched.0 dns.0
              (attach_optional-Accounted k _ _ links) (attach_dns-Accounted k sched.1)))
  ]
    where
      required : List Op × Option (List ℕ)
      required = attach_loop k (iterate probes) []
