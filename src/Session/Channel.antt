-- ===== src/Session/Channel.antt =====
-- The channel between the tracer and its readers: `runPodtrace` starts the exporter as one reader
-- of `eventChan`, and the loop of either mode is another. A receive takes the event away.
use podtrace.Prelude.{
  ℕ, ◌+◌, ◌≤◌, ◌<◌, ◌≡◌, refl, Bool, List, [], ◌∷◌, ◌++◌, length, length-append, count_if,
  count_if-append, arith,
}
use podtrace.Event.{Event}

-- The buffer of `make(chan *events.Event, 100)`.
abbrev pub capacity : ℕ
capacity = 100

pub record Traffic : Type 0 where
  pub sent : List Event
  pub queue : List Event
  pub exported : List Event
  pub diagnosed : List Event

abbrev pub no_traffic : Traffic
no_traffic = record { sent = []; queue = []; exported = []; diagnosed = [] }

-- The tracer sends while there is room; a reader takes the first event.
pub data Step : Traffic → Traffic → Type 0 where
  send :
      (s : Traffic) (e : Event)
      → length s.queue < capacity
      → Step s (record s { sent = s.sent ++ e ∷ []; queue = s.queue ++ e ∷ [] })
  export :
      (s : Traffic) (e : Event) (rest : List Event)
      → s.queue ≡ e ∷ rest
      → Step s (record s { queue = rest; exported = s.exported ++ e ∷ [] })
  diagnose :
      (s : Traffic) (e : Event) (rest : List Event)
      → s.queue ≡ e ∷ rest
      → Step s (record s { queue = rest; diagnosed = s.diagnosed ++ e ∷ [] })

pub data Reach : Traffic → Type 0 where
  start : Reach no_traffic
  next : {s t : Traffic} → Reach s → Step s t → Reach t

-- Every event that was sent is in one place.
abbrev pub IsShared : Traffic → Type 0
IsShared s =
    ((test : Event → Bool)
      → count_if test s.sent
        ≡ count_if test s.queue + count_if test s.exported + count_if test s.diagnosed)
    × (length s.queue ≤ capacity)
    × (length s.sent ≡ length s.queue + length s.exported + length s.diagnosed)

Step-IsShared : {s t : Traffic} → Step s t → IsShared s → IsShared t
Step-IsShared (send s e room) (share, fits, lengths) = (
  λ test. omega (
    arith,
    share test,
    count_if-append test s.sent (e ∷ []),
    count_if-append test s.queue (e ∷ []),
  ),
  omega (arith, length-append s.queue (e ∷ [])),
  omega (arith, length-append s.sent (e ∷ []), length-append s.queue (e ∷ [])),
)
Step-IsShared (export s e rest q) (share, fits, lengths) = (
  λ test. ground (arith, share test, count_if-append test s.exported (e ∷ [])),
  ground arith,
  ground (arith, length-append s.exported (e ∷ [])),
)
Step-IsShared (diagnose s e rest q) (share, fits, lengths) = (
  λ test. ground (arith, share test, count_if-append test s.diagnosed (e ∷ [])),
  ground arith,
  ground (arith, length-append s.diagnosed (e ∷ [])),
)

-- Whatever the order of sends and receives, the channel holds at most 100 events, and each event is
-- waiting, exported or collected as often as it was sent: none reaches both readers.
pub Reach-IsShared : {s : Traffic} → Reach s → IsShared s
Reach-IsShared start = (λ test. refl, omega arith, refl)
Reach-IsShared (next r step) = Step-IsShared step (Reach-IsShared r)

-- If the collector got all that was sent, the exporter got nothing.
pub exported-none :
    {s : Traffic} → Reach s → length s.diagnosed ≡ length s.sent → length s.exported ≡ 0
exported-none r all = omega (arith, (Reach-IsShared r).2)
