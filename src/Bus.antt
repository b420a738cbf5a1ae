-- ===== src/Bus.antt =====
-- bus.py: the event bus between worker threads and the websockets. A queue is the list of its
-- events, oldest first. `full` is an exception `queue.Full` that leaves `publish`.
pub mod Newest
pub mod Threads
pub mod Fanout
mod Tests
use holypipe.Prelude.{
  ℕ, ◌+◌, ◌<◌, String, Bool, true, false, not, Option, none, some, List, [], ◌∷◌, ◌++◌, ltb, length,
  if◌then◌else◌, str_eq,
}

-- `_events = queue.Queue(maxsize=10000)`, and the queue of each subscriber.
abbrev pub events_size : ℕ
events_size = 10000

abbrev pub subscriber_size : ℕ
subscriber_size = 500

-- What `publish` leaves: the queue, or an exception.
pub data Published {ℓ} (E : Type ℓ) : Type ℓ where
  queue : List E → Published E
  full : Published E

-- `_subscribers`, each a name and its queue.
abbrev pub Subscribers {ℓ} : Type ℓ → Type ℓ
Subscribers E = List (String × List E)

module _ {ℓ} {E : Type ℓ} where
  -- `q.put_nowait(event)` on a queue of a size; `none` is queue.Full.
  abbrev pub put_nowait : ℕ → E → List E → Option (List E)
  put_nowait size event q = if ltb (length q) size then some (q ++ event ∷ []) else none

  -- `q.get_nowait()`; `none` is queue.Empty.
  abbrev pub get_nowait : List E → Option (E × List E)
  get_nowait [] = none
  get_nowait (event ∷ q) = some (event, q)

  -- The handler of queue.Full: drop the oldest, then try again; queue.Empty is passed over.
  replace : ℕ → E → Option (E × List E) → List E → Published E
  replace size event none q = queue q
  replace size event (some (oldest, rest)) q = elim (put_nowait size event rest) [
    | some q' ↦ queue q'
    | none ↦ full
  ]

  -- `publish`, when no other thread uses the queue meanwhile.
  pub publish : ℕ → E → List E → Published E
  unfolding replace
  publish size event q = elim (put_nowait size event q) [
    | some q' ↦ queue q'
    | none ↦ replace size event (get_nowait q) q
  ]

  pub subscribe : String → Subscribers E → Subscribers E
  subscribe name subs = (name, []) ∷ subs

  pub unsubscribe : String → Subscribers E → Subscribers E
  unsubscribe name [] = []
  unsubscribe name ((other, q) ∷ subs) =
      let rest = unsubscribe name subs in if str_eq other name then rest else (other, q) ∷ rest

  abbrev offer : E → List E → List E
  offer event q = elim (put_nowait subscriber_size event q) [ some q' ↦ q' | none ↦ q ]

  pub fanout : E → Subscribers E → Subscribers E
  fanout event [] = []
  fanout event ((name, q) ∷ subs) = (name, offer event q) ∷ fanout event subs

  -- One round of the loop in `pump`; an empty queue times out.
  pub pump : List E × Subscribers E → List E × Subscribers E
  pump ([], subs) = ([], subs)
  pump (event ∷ events, subs) = (events, fanout event subs)
