-- ===== src/Bus/Threads.antt =====
-- `publish` by several threads at once: each call on the queue is atomic, and other threads may
-- run between two of them.
use holypipe.Prelude.{
  ℕ, ◌<◌, ◌≤◌, ◌≡◌, ◌≢◌, refl, ap, none, some, List, [], ◌∷◌, ◌++◌, arith, length, length-append,
  ◌==◌, if◌then◌else◌,
}
use holypipe.Bus.{put_nowait, get_nowait}

-- Where a thread stands in `publish`: before its first `put_nowait`, in the handler before
-- `get_nowait`, before the second `put_nowait`, returned, or left by an exception.
pub data Place (E : Type 0) : Type 0 where
  trying evicting refilling : E → Place E
  done raised : Place E

pub record System (E : Type 0) : Type 0 where
  pub events : List E
  pub place : ℕ → Place E

module _ {E : Type 0} where
  abbrev pub move_to : ℕ → Place E → List E → System E → System E
  move_to t p q s = record { events = q; place = λ u. if u == t then p else s.place u }

  -- One atomic call of thread `t`, which stands at the given place.
  pub call : ℕ → ℕ → Place E → System E → System E
  call size t (trying event) s = elim (put_nowait size event s.events) [
    | some q ↦ move_to t done q s
    | none ↦ move_to t (evicting event) s.events s
  ]
  call size t (evicting event) s = elim (get_nowait s.events) [
    | some (oldest, rest) ↦ move_to t (refilling event) rest s
    | none ↦ move_to t done s.events s
  ]
  call size t (refilling event) s = elim (put_nowait size event s.events) [
    | some q ↦ move_to t done q s
    | none ↦ move_to t raised s.events s
  ]
  call size t done s = s
  call size t raised s = s

  pub step : ℕ → System E → ℕ → System E
  step size s t = call size t (s.place t) s

  -- A schedule names the thread that runs next.
  pub run : ℕ → System E → List ℕ → System E
  run size s [] = s
  run size s (t ∷ schedule) = run size (step size s t) schedule

  call_bounded :
      (size t : ℕ) (p : Place E) (s : System E)
      → length s.events ≤ size
      → length (call size t p s).events ≤ size
  unfolding call
  call_bounded size t (trying event) s h = ground (arith, length-append s.events (event ∷ []))
  call_bounded size t (evicting event) s h = ground arith
  call_bounded size t (refilling event) s h = ground (arith, length-append s.events (event ∷ []))
  call_bounded size t done s h = h
  call_bounded size t raised s h = h

  -- No schedule of any threads overfills the queue.
  run_bounded :
      (size : ℕ) (s : System E) (schedule : List ℕ)
      → length s.events ≤ size
      → length (run size s schedule).events ≤ size
  unfolding run step
  run_bounded size s [] h = h
  run_bounded size s (t ∷ schedule) h =
      run_bounded size (step size s t) schedule (call_bounded size t (s.place t) s h)

  module _ (size : ℕ) (s : System E) where
    trying_full :
        (t : ℕ) (x : E)
        → s.place t ≡ trying x
        → size ≤ length s.events
        → step size s t ≡ move_to t (evicting x) s.events s
    unfolding step call
    trying_full t x h full = rw h (ground arith)

    evicting_some :
        (t : ℕ) (x oldest : E) (rest : List E)
        → s.place t ≡ evicting x
        → s.events ≡ oldest ∷ rest
        → step size s t ≡ move_to t (refilling x) rest s
    unfolding step call
    evicting_some t x oldest rest h e = rw (h, call, e)

    trying_room :
        (t : ℕ) (x : E)
        → s.place t ≡ trying x
        → length s.events < size
        → step size s t ≡ move_to t done (s.events ++ x ∷ []) s
    unfolding step call
    trying_room t x h room = rw h (ground arith)

    refilling_full :
        (t : ℕ) (x : E)
        → s.place t ≡ refilling x
        → size ≤ length s.events
        → step size s t ≡ move_to t raised s.events s
    unfolding step call
    refilling_full t x h full = rw h (ground arith)

  -- Two threads on a full queue: `t` makes room, `u` takes it, and `t` raises queue.Full, which
  -- nothing in `publish` catches.
  pub publish_raises :
      (size t u : ℕ) (x y oldest : E) (rest : List E) (s : System E)
      → t ≢ u
      → s.events ≡ oldest ∷ rest
      → length s.events ≡ size
      → s.place t ≡ trying x
      → s.place u ≡ trying y
      → ((run size s (t ∷ t ∷ u ∷ t ∷ [])).place t ≡ raised)
        × ((run size s (t ∷ t ∷ u ∷ t ∷ [])).events ≡ rest ++ y ∷ [])
  unfolding run
  publish_raises size t u x y oldest rest s ne e full ht hu =
      let s1 : System E = move_to t (evicting x) s.events s in
      let s2 : System E = move_to t (refilling x) rest s1 in
      let s3 : System E = move_to u done (rest ++ y ∷ []) s2 in
      let one = ap length e in
      rw
        (
          trying_full size s t x ht (omega arith),
          evicting_some size s1 t x oldest rest (ground arith) e,
          trying_room size s2 u y (ground arith) (omega arith),
          refilling_full size s3 t x (ground arith) (omega (arith, length-append rest (y ∷ []))),
        )
        (ground arith, refl)
