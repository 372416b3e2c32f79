-- ===== src/Session/Signals.antt =====
-- `interruptChan` of cmd/podtrace/main.go and `WaitForInterrupt` of internal/ebpf/tracer.go: the
-- loop of either mode calls the first in every `select`, and each call starts a goroutine that waits
-- for a signal on a channel of its own. Only the channel of the last call is looked at.
use podtrace.Prelude.{
  ℕ, zero, suc, ◌≤◌, ◌≡◌, refl, ap, Bool, true, false, Option, none, some, List, [], ◌∷◌, ◌++◌,
  length,
}

-- A goroutine that is there: on its way to `<-sig`, and waiting there, registered by `signal.Notify`.
-- With a signal it puts the interrupt into the buffer of its channel and returns.
pub data Waiter : Type 0 where
  starting : Waiter
  listening : Waiter

-- A mode that runs, one that has returned, and a process that the signal has killed.
pub data Status : Type 0 where
  running : Status
  returned : Status
  killed : Status

-- The goroutine of the last `select`, `none` if it has returned and its channel holds the interrupt;
-- those of the earlier ones that are still there; whether `signal.Notify` has been called; how often
-- a case other than the interrupt has been taken, and how many signals have come.
pub record Loop : Type 0 where
  pub current : Option Waiter
  pub abandoned : List Waiter
  pub registered : Bool
  pub taken : ℕ
  pub signals : ℕ
  pub status : Status

-- The first `select` has been reached.
abbrev pub first_select : Loop
first_select = record {
  current = some starting;
  abandoned = [];
  registered = false;
  taken = 0;
  signals = 0;
  status = running;
}

-- A signal reaches every channel that has been given to `signal.Notify`.
abbrev pub notified : Option Waiter → Option Waiter
notified none = none
notified (some starting) = some starting
notified (some listening) = none

-- The earlier goroutines that are left behind a signal.
abbrev pub left_of : List Waiter → List Waiter
left_of [] = []
left_of (starting ∷ ws) = starting ∷ left_of ws
left_of (listening ∷ ws) = left_of ws

-- The goroutines that are there, the last one's first.
abbrev pub onto : Option Waiter → List Waiter → List Waiter
onto none ws = ws
onto (some w) ws = w ∷ ws

abbrev pub goroutines : Loop → List Waiter
goroutines s = onto s.current s.abandoned

-- The steps, in any order. A signal kills the process while no channel is registered for it.
pub data Move : Loop → Loop → Type 0 where
  listen :
      (s : Loop)
      → s.status ≡ running
      → s.current ≡ some starting
      → Move s (record s { current = some listening; registered = true })
  listen_late :
      (s : Loop) (before after : List Waiter)
      → s.status ≡ running
      → s.abandoned ≡ before ++ starting ∷ after
      → Move s (record s { abandoned = before ++ listening ∷ after; registered = true })
  signal :
      (s : Loop)
      → s.status ≡ running
      → s.registered ≡ true
      → Move s (record s {
        current = notified s.current;
        abandoned = left_of s.abandoned;
        signals = suc s.signals;
      })
  kill :
      (s : Loop)
      → s.status ≡ running
      → s.registered ≡ false
      → Move s (record s { signals = suc s.signals; status = killed })
  take_other :
      (s : Loop)
      → s.status ≡ running
      → Move s (record s { current = some starting; abandoned = goroutines s; taken = suc s.taken })
  take_timeout : (s : Loop) → s.status ≡ running → Move s (record s { status = returned })
  take_interrupt :
      (s : Loop) → s.status ≡ running → s.current ≡ none → Move s (record s { status = returned })

pub data Reach : Loop → Type 0 where
  start : Reach first_select
  next : {s t : Loop} → Reach s → Move s t → Reach t

-- At most a goroutine for each case that was taken, and one more; just as many while there is no
-- signal.
abbrev pub IsLeaking : Loop → Type 0
IsLeaking s =
    (length (goroutines s) ≤ suc s.taken) × (s.signals ≡ 0 → length (goroutines s) ≡ suc s.taken)

-- A mode that still runs after so many signals and as many other cases, in a `select` whose
-- goroutine is not yet registered.
abbrev pub IsDeaf : ℕ → Loop → Type 0
IsDeaf n s = (s.signals ≡ n) × (s.taken ≡ n) × (s.current ≡ some starting) × (s.status ≡ running)

-- Any number of signals can come without ending a mode: there is an order of steps after which it
-- still runs, having taken as many other cases.
pub Reach-IsDeaf : (n : ℕ) → (s : Loop) × Reach s × IsDeaf n s
Reach-IsDeaf zero = (first_select, Reach.start, (refl, refl, refl, refl))
Reach-IsDeaf (suc n) =
    let (s, r, (signals, taken, current, status)) = Reach-IsDeaf n in
    let heard : Loop = record s { current = some listening; registered = true } in
    let busy : Loop = record heard {
      current = some starting;
      abandoned = listening ∷ s.abandoned;
      taken = suc s.taken;
    } in
    (
      record busy { abandoned = left_of s.abandoned; signals = suc s.signals },
      Reach.next
          (Reach.next (Reach.next r (Move.listen s status current)) (Move.take_other heard status))
          (Move.signal busy status refl),
      (ap suc signals, ap suc taken, refl, status),
    )
