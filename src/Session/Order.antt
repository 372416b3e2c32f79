-- ===== src/Session/Order.antt =====
-- The order of the events in the channel.
use podtrace.Prelude.{◌≡◌, refl, ◌∙◌, ap, sym, List, [], ◌∷◌, ◌++◌, append_assoc}
use podtrace.Event.{Event}
use podtrace.Session.Channel.{Traffic, Step, Reach}

-- A list is taken apart into two, in order.
pub data Merge : List Event → List Event → List Event → Type 0 where
  none_left : Merge [] [] []
  to_left : {xs ys zs : List Event} (e : Event) → Merge xs ys zs → Merge (e ∷ xs) ys (e ∷ zs)
  to_right : {xs ys zs : List Event} (e : Event) → Merge xs ys zs → Merge xs (e ∷ ys) (e ∷ zs)

Merge-left :
    {xs ys zs : List Event} (e : Event) → Merge xs ys zs → Merge (xs ++ e ∷ []) ys (zs ++ e ∷ [])
Merge-left e none_left = to_left e none_left
Merge-left e (to_left d m) = to_left d (Merge-left e m)
Merge-left e (to_right d m) = to_right d (Merge-left e m)

Merge-right :
    {xs ys zs : List Event} (e : Event) → Merge xs ys zs → Merge xs (ys ++ e ∷ []) (zs ++ e ∷ [])
Merge-right e none_left = to_right e none_left
Merge-right e (to_left d m) = to_left d (Merge-right e m)
Merge-right e (to_right d m) = to_right d (Merge-right e m)

-- What was sent is what was received, split between the readers in order, and then the queue.
abbrev pub IsOrdered : Traffic → Type 0
IsOrdered s =
    (received : List Event) × Merge s.exported s.diagnosed received × (s.sent ≡ received ++ s.queue)

Step-IsOrdered : {s t : Traffic} → Step s t → IsOrdered s → IsOrdered t
Step-IsOrdered (Step.send s e room) (received, m, q) =
    (received, m, ap (λ l. l ++ e ∷ []) q ∙ append_assoc received s.queue (e ∷ []))
Step-IsOrdered (Step.export s e rest h) (received, m, q) = (
  received ++ e ∷ [],
  Merge-left e m,
  q ∙ ap (λ l. received ++ l) h ∙ sym (append_assoc received (e ∷ []) rest),
)
Step-IsOrdered (Step.diagnose s e rest h) (received, m, q) = (
  received ++ e ∷ [],
  Merge-right e m,
  q ∙ ap (λ l. received ++ l) h ∙ sym (append_assoc received (e ∷ []) rest),
)

-- Whatever the order of sends and receives, what was sent is the events that the exporter and the
-- mode have received, taken apart between the two in order, followed by the events that wait.
pub Reach-IsOrdered : {s : Traffic} → Reach s → IsOrdered s
Reach-IsOrdered Reach.start = ([], none_left, refl)
Reach-IsOrdered (Reach.next r step) = Step-IsOrdered step (Reach-IsOrdered r)
