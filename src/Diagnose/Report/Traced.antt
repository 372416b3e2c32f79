-- ===== src/Diagnose/Report/Traced.antt =====
-- What is in the application tracing.
use podtrace.Prelude.{
  ℕ, ◌≤◌, ◌<◌, ◌≡◌, refl, Option, none, some, List, [], ◌∷◌, length, sum_by, arith,
}
use podtrace.Strings.{Bytes}
use podtrace.Float.{Float, IsOrdered}
use podtrace.Event.{Event}
use podtrace.Event.Kind
use podtrace.Diagnose.{Diagnostician, filter_events}
use podtrace.Diagnose.Activity.{PidInfo}
use podtrace.Diagnose.Window.Timeline.{Bucket}
use podtrace.Diagnose.Window.Bursts.{detect_bursts}
use podtrace.Diagnose.Window.Timeline.Laws.{counts_of, analyze_timeline_lem}
use podtrace.Diagnose.Window.Pattern.{ConnectionPattern}
use podtrace.Diagnose.Window.Pattern.Correct.{analyze_connection_pattern_lem}
use podtrace.Diagnose.Report.{Tracing, tcp_events, connection_part, application_tracing, io_part}
use podtrace.Diagnose.Report.There.{IsThere, some_event}

-- What is known of the tracing.
pub record IsTraced {F : Type 0} ⦃f : Float F⦄ (d : Diagnostician) (duration : ℕ) (t : Tracing F)
    : Type 0 where
  pub busy : 0 < length t.processes
  pub five : length t.timeline ≡ 5
  pub found : t.bursts ≡ detect_bursts d duration
  pub connected : IsThere t.connections (filter_events Kind.connect d.events)
  pub transferred : IsThere t.io (tcp_events d.events)

length-counts_of : {F : Type 0} (t : List (Bucket F)) → length (counts_of t) ≡ length t
length-counts_of [] = refl
length-counts_of (b ∷ t) = omega (arith, length-counts_of t)

pub busy_of_sum :
    {F : Type 0} (infos : List (PidInfo F)) → 0 < sum_by (λ i. i.count) infos → 0 < length infos
busy_of_sum [] h = absurd (omega arith)
busy_of_sum (i ∷ infos) h = omega arith

io_part-IsThere :
    (F : Type 0) ⦃f : Float F⦄ (d : Diagnostician) (es : List Event) (duration : ℕ)
    → IsThere (io_part {F = F} d es duration) es
io_part-IsThere F d [] duration = refl
io_part-IsThere F d (e ∷ es) duration = rw (some_event e es)

module _ {F : Type 0} ⦃f : Float F⦄ (order : IsOrdered F) where
  connection_part-some :
      (d : Diagnostician) (es : List Event) (duration : ℕ)
      → (o : Option (ConnectionPattern F)) × (connection_part d es duration ≡ some o) × IsThere o es
  connection_part-some d [] duration = (none, refl, refl)
  connection_part-some d (e ∷ es) duration =
      let p = analyze_connection_pattern_lem F order d (e ∷ es) duration (omega arith) in
      (some p.0, rw (p.2, some_event e es), rw (some_event e es))

  pub application_tracing-some :
      (processes : List (PidInfo F)) (clock : ℕ → Bytes) (d : Diagnostician) (duration : ℕ)
      → 5 ≤ duration
      → 0 < length d.events
      → 0 < length processes
      → (t : Tracing F) × (application_tracing processes clock d duration ≡ some t)
        × IsTraced d duration t
  unfolding application_tracing
  application_tracing-some processes clock d duration long some_events busy =
      let t = analyze_timeline_lem F clock d duration long some_events in
      let p = connection_part-some d (filter_events Kind.connect d.events) duration in
      (
        record {
          processes = processes;
          timeline = t.0;
          bursts = detect_bursts d duration;
          connections = p.0;
          io = io_part d (tcp_events d.events) duration;
        },
        rw (t.1, p.1),
        record {
          busy = busy;
          five = omega (arith, t.2, length-counts_of t.0);
          found = refl;
          connected = p.2;
          transferred = io_part-IsThere F d (tcp_events d.events) duration;
        },
      )
