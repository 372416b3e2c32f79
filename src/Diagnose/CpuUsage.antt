-- ===== src/Diagnose/CpuUsage.antt =====
-- internal/diagnose/cpu_profiling.go: the numbers of `generateCPUUsageReport`, and `isKernelThread`.
pub mod Threads
pub mod Shown
pub mod Rows
use podtrace.Prelude.{
  ℕ, zero, suc, ◌+◌, ◌-◌, Bool, true, false, ◌&&◌, ◌||◌, not, Option, none, some, List, [], ◌∷◌,
  ◌==◌, leb, if◌then◌else◌, length, sum_by,
}
use podtrace.Strings.{Bytes, codes, has_prefix, has_suffix_byte}
use podtrace.Float.{Float, seconds}
use podtrace.Runtime.{Runtime}
use podtrace.Runtime.Order.{more}
use podtrace.Event.{Event}
use podtrace.ProcName.{ProcFs, Cache}
use podtrace.Diagnose.Activity.{PidInfo, analyze_process_activity}

-- `strings.ToLower` on ASCII text.
abbrev pub to_lower : Bytes → Bytes
to_lower [] = []
to_lower (c ∷ s) = (if leb b'A' c && leb c b'Z' then c + 32 else c) ∷ to_lower s

abbrev pub kernel_prefixes : List Bytes
kernel_prefixes =
    codes "kworker"
    ∷ codes "irq/"
    ∷ codes "ksoftirqd"
    ∷ codes "migration"
    ∷ codes "rcu_"
    ∷ codes "rcu_sched"
    ∷ codes "rcu_bh"
    ∷ codes "watchdog"
    ∷ codes "khugepaged"
    ∷ codes "kswapd"
    ∷ codes "kthreadd"
    ∷ codes "jbd2"
    ∷ codes "dmcrypt"
    ∷ codes "kcryptd"
    ∷ []

abbrev pub has_any_prefix : List Bytes → Bytes → Bool
has_any_prefix [] name = false
has_any_prefix (p ∷ ps) name = has_prefix p name || has_any_prefix ps name

-- The number of the process plays no part.
unfoldable pub is_kernel_thread : Bytes → Bool
is_kernel_thread name =
    has_any_prefix kernel_prefixes (to_lower name)
    || (has_prefix (codes "[") name && has_suffix_byte b']' name)

-- A line of the report: the process with its share, and the seconds that the share stands for.
pub record CpuRow (F : Type 0) : Type 0 where
  pub info : PidInfo F
  pub cpu_time_sec : F

-- `more_kernel` is the number in "... and %d more system processes"; at 0 there is no such line.
pub record CpuUsage (F : Type 0) : Type 0 where
  pub pod_rows : List (CpuRow F)
  pub kernel_rows : List (CpuRow F)
  pub more_kernel : ℕ
  pub total_percent : F
  pub idle_percent : F

-- The loop that tells the processes apart; `kernel` is the list that is wanted.
unfoldable pub processes_of : {F : Type 0} → Bool → List (PidInfo F) → List (PidInfo F)
processes_of kernel [] = []
processes_of kernel (i ∷ is) =
    let rest = processes_of kernel is in
    if is_kernel_thread i.name
    then (if kernel then i ∷ rest else rest)
    else (if kernel then rest else i ∷ rest)

module _ {F : Type 0} ⦃f : Float F⦄ where
  open f use {of_nat, add, sub, mul, div, to_nat}

  abbrev pub cpu_row : ℕ → PidInfo F → CpuRow F
  cpu_row duration i = record {
    info = i;
    cpu_time_sec =
        div (of_nat (to_nat (div (mul (of_nat duration) i.percentage) (of_nat 100))))
          (of_nat 1_000_000_000);
  }

  -- Either loop over processes: so many rows at most, and the sum of their shares.
  unfoldable pub show_rows : ℕ → ℕ → List (PidInfo F) → F → List (CpuRow F) × F
  show_rows zero duration is percent = ([], percent)
  show_rows (suc limit) duration [] percent = ([], percent)
  show_rows (suc limit) duration (i ∷ is) percent =
      let rest = show_rows limit duration is (add percent i.percentage) in
      (cpu_row duration i ∷ rest.0, rest.1)

  unfoldable pub cpu_usage_of : ℕ → List (PidInfo F) → CpuUsage F
  cpu_usage_of duration infos =
      let kernel = processes_of true infos in
      let pod_rows = show_rows 10 duration (processes_of false infos) (of_nat 0) in
      let kernel_rows = show_rows 5 duration kernel (of_nat 0) in
      let total : F = if leb 1 (length kernel) then add pod_rows.1 kernel_rows.1 else pod_rows.1 in
      record {
        pod_rows = pod_rows.0;
        kernel_rows = kernel_rows.0;
        more_kernel = length kernel - 5;
        total_percent = total;
        idle_percent = sub (of_nat 100) total;
      }

  -- `none` stands for the fixed text of `generateCPUUsageFromProc`.
  unfoldable pub cpu_usage :
      Runtime F → ProcFs → List Event → Cache → ℕ → Option (CpuUsage F) × Cache
  cpu_usage r fs events c duration =
      let activity = analyze_process_activity r fs events c in
      let sorted = r.sort_slice (PidInfo F) (more (λ i. i.count)) activity.0 in
      (
        if length activity.0 == 0 || sum_by (λ i. i.count) activity.0 == 0
            then none
            else some (cpu_usage_of duration sorted),
        activity.1,
      )
