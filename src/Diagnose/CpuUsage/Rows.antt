-- ===== src/Diagnose/CpuUsage/Rows.antt =====
-- Which processes the CPU usage shows.
use mathlib.Core.List.{Permᴰ}
use podtrace.Prelude.{
  ℕ, ◌-◌, ap, take, ◌+◌, ◌≤◌, ◌<◌, ◌≡◌, ◌∙◌, Bool, true, false, some, List, length, All, sum_by,
  count_if, arith,
}
use podtrace.Float.{Float}
use podtrace.Runtime.{Runtime, IsRuntime}
use podtrace.Runtime.Order.{more}
use podtrace.Runtime.Perm.{sum_by-perm, count_if-perm}
use podtrace.Event.{Event}
use podtrace.ProcName.{ProcFs, Cache}
use podtrace.Diagnose.Activity.{PidInfo, analyze_process_activity}
use podtrace.Diagnose.Activity.Correct.{IsActivity, analyze_process_activity_lem}
use podtrace.Diagnose.CpuUsage.{is_kernel_thread, CpuUsage, processes_of, cpu_usage_of, cpu_usage}
use podtrace.Diagnose.CpuUsage.Shown.{
  shown, is_kind, select, infos_of, processes_of-split, processes_of-kind, length-processes_of,
  some_activity, shown-show_rows, all_shown, show_rows-All, processes_of-select, show_rows-take,
  IsActivity-perm,
}

module _ {F : Type 0} ⦃f : Float F⦄ (r : Runtime F) (laws : IsRuntime F r) where
  -- The sorted processes, when there is an event.
  cpu_usage-some :
      (fs : ProcFs) (events : List Event) (c : Cache) (duration : ℕ)
      → 0 < length events
      → (infos : List (PidInfo F)) × ((cpu_usage r fs events c duration).0
          ≡ some (cpu_usage_of duration infos))
        × (sum_by (λ i. i.count) infos ≡ length events)
        × ((kernel : Bool)
            → count_if (is_kind kernel) infos
              ≡ count_if (is_kind kernel) (analyze_process_activity r fs events c).0)
  unfolding cpu_usage
  cpu_usage-some fs events c duration some_event =
      let activity = (analyze_process_activity r fs events c).0 in
      let right = analyze_process_activity_lem r laws fs events c in
      let sorted = laws.sort_slice_perm (PidInfo F) (more (λ i. i.count)) activity in
      (
        r.sort_slice (PidInfo F) (more (λ i. i.count)) activity,
        rw (some_activity activity (omega (arith, right.complete))),
        sum_by-perm (λ i. i.count) sorted ∙ right.complete,
        λ kernel. count_if-perm (is_kind kernel) sorted,
      )

  -- How many rows there are, of which kind, and how many events they show.
  pub cpu_usage-bounds :
      (fs : ProcFs) (events : List Event) (c : Cache) (duration : ℕ)
      → 0 < length events
      → (u : CpuUsage F) × ((cpu_usage r fs events c duration).0 ≡ some u)
        × All (λ row. is_kernel_thread row.info.name ≡ false) u.pod_rows
        × All (λ row. is_kernel_thread row.info.name ≡ true) u.kernel_rows
        × (length u.pod_rows ≤ 10)
        × (length u.kernel_rows ≤ 5)
        × (shown u.pod_rows + shown u.kernel_rows ≤ length events)
  unfolding cpu_usage_of
  cpu_usage-bounds fs events c duration some_event =
      let (infos, e, whole, _) = cpu_usage-some fs events c duration some_event in
      let pods = processes_of false infos in
      let kernels = processes_of true infos in
      let nought = f.of_nat 0 in
      let p =
        show_rows-All (λ i. is_kernel_thread i.name ≡ false) 10 duration pods nought
          (processes_of-kind false infos) in
      let k =
        show_rows-All (λ i. is_kernel_thread i.name ≡ true) 5 duration kernels nought
          (processes_of-kind true infos) in
      (
        cpu_usage_of duration infos,
        e,
        p.0,
        k.0,
        p.1,
        k.1,
        omega (
          arith,
          whole,
          processes_of-split infos,
          shown-show_rows 10 duration pods nought,
          shown-show_rows 5 duration kernels nought,
        ),
      )

  -- For one event or more the rows are taken from the process activity in descending order, which
  -- has each process once with the number of its events: those of the pod are the first ten
  -- processes that are no kernel threads, those of the system the first five kernel threads, and
  -- the further ones mentioned are the kernel threads behind these. The laws of Runtime are
  -- assumed.
  pub cpu_usage_lem :
      (fs : ProcFs) (events : List Event) (c : Cache) (duration : ℕ)
      → 0 < length events
      → (u : CpuUsage F) × (infos : List (PidInfo F)) × ((cpu_usage r fs events c duration).0
          ≡ some u)
        × Permᴰ infos (analyze_process_activity r fs events c).0
        × IsActivity events infos
        × (infos_of u.pod_rows ≡ take 10 (select (is_kind false) infos))
        × (infos_of u.kernel_rows ≡ take 5 (select (is_kind true) infos))
        × (u.more_kernel ≡ length (select (is_kind true) infos) - 5)
  unfolding cpu_usage_of cpu_usage
  cpu_usage_lem fs events c duration some_event =
      let activity = (analyze_process_activity r fs events c).0 in
      let right = analyze_process_activity_lem r laws fs events c in
      let sorted = laws.sort_slice_perm (PidInfo F) (more (λ i. i.count)) activity in
      let infos = r.sort_slice (PidInfo F) (more (λ i. i.count)) activity in
      (
        cpu_usage_of duration infos,
        infos,
        rw (some_activity activity (omega (arith, right.complete))),
        sorted,
        IsActivity-perm events infos activity sorted
            (laws.sort_slice_descending (PidInfo F) (λ i. i.count) activity) right,
        show_rows-take 10 duration (processes_of false infos) (f.of_nat 0)
            ∙ ap (take 10) (processes_of-select false infos),
        show_rows-take 5 duration (processes_of true infos) (f.of_nat 0)
            ∙ ap (take 5) (processes_of-select true infos),
        ap (λ is. length is - 5) (processes_of-select true infos),
      )

  -- With at least one event, at most ten processes of the pod and at most five kernel threads, the
  -- rows of the CPU usage show all events, and no further process is mentioned. The laws of Runtime
  -- are assumed.
  pub cpu_usage-all :
      (fs : ProcFs) (events : List Event) (c : Cache) (duration : ℕ)
      → 0 < length events
      → count_if (is_kind false) (analyze_process_activity r fs events c).0 ≤ 10
      → count_if (is_kind true) (analyze_process_activity r fs events c).0 ≤ 5
      → (u : CpuUsage F) × ((cpu_usage r fs events c duration).0 ≡ some u)
        × (shown u.pod_rows + shown u.kernel_rows ≡ length events)
        × (u.more_kernel ≡ 0)
  unfolding cpu_usage_of
  cpu_usage-all fs events c duration some_event few_pods few_kernels =
      let (infos, e, whole, same) = cpu_usage-some fs events c duration some_event in
      let pods = processes_of false infos in
      let kernels = processes_of true infos in
      let nought = f.of_nat 0 in
      let few : length pods ≤ 10 = omega (arith, same false, length-processes_of false infos) in
      let fewer : length kernels ≤ 5 = omega (arith, same true, length-processes_of true infos) in
      (
        cpu_usage_of duration infos,
        e,
        omega (
          arith,
          whole,
          processes_of-split infos,
          all_shown 10 duration pods nought few,
          all_shown 5 duration kernels nought fewer,
        ),
        omega (arith, fewer),
      )
