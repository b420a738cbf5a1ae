-- ===== src/Bus/Tests.antt =====
-- The event bus's theorems at concrete inputs.
use holypipe.Prelude.{ℕ, ◌≡◌, ◌≤◌, refl, some, [], ◌∷◌, arith, length, ◌==◌, if◌then◌else◌}
use holypipe.Dict
use holypipe.Bus.{queue, Subscribers}
use holypipe.Bus.Newest.{newest, publish_all, publish_all-newest}
use holypipe.Bus.Fanout.{rounds, rounds_deliver}
use holypipe.Bus.Threads.{System, trying, raised, run, publish_raises}

publish_all-newest_example :
    (publish_all {E = ℕ} 2 (7 ∷ 8 ∷ 9 ∷ []) (6 ∷ []) ≡ queue (8 ∷ 9 ∷ []))
    × (length (newest {E = ℕ} 2 (6 ∷ 7 ∷ 8 ∷ 9 ∷ [])) ≤ 2)
unfolding newest
publish_all-newest_example =
    publish_all-newest 2 (7 ∷ 8 ∷ 9 ∷ []) (6 ∷ []) (omega arith) (omega arith)

abbrev subs : Subscribers ℕ
subs = ("a", 1 ∷ []) ∷ ("b", []) ∷ []

rounds_deliver_example :
    ((rounds 2 (5 ∷ 6 ∷ [], subs)).0 ≡ [])
    × (Dict.get "a" (rounds 2 (5 ∷ 6 ∷ [], subs)).1 ≡ some (1 ∷ 5 ∷ 6 ∷ []))
rounds_deliver_example = rounds_deliver (5 ∷ 6 ∷ []) subs "a" (1 ∷ []) refl (omega arith)

abbrev racing : System ℕ
racing = record { events = 1 ∷ 2 ∷ []; place = λ t. if t == 0 then trying 3 else trying 4 }

publish_raises_example :
    ((run 2 racing (0 ∷ 0 ∷ 1 ∷ 0 ∷ [])).place 0 ≡ raised)
    × ((run 2 racing (0 ∷ 0 ∷ 1 ∷ 0 ∷ [])).events ≡ 2 ∷ 4 ∷ [])
publish_raises_example =
    publish_raises 2 0 1 3 4 1 (2 ∷ []) racing (omega arith) refl refl refl refl
