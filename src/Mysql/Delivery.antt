-- ===== src/Mysql/Delivery.antt =====
-- What the loop over the binlog hands over, and which positions.
use mathlib.Core.List.{append-nil, append_assoc}
use holypipe.Connector.{ChangeEvent}
use holypipe.Mysql.Binlog.{
  from_start, position_in, is_due, stream_changes, time_of, taken, Settings, flushed_at,
  handed_over, flush_if, rounds_from, step, Stream, changes_of, flush, hand_over, moved, Accepts,
  Handed, Position, Round,
}
use holypipe.Models.{Value, StreamSchema}
use holypipe.Connector.Values.{Printers}
use holypipe.Prelude.{
  ◌⨾◌, ℕ, ◌≡◌, ◌∙◌, refl, sym, ap, inl, inr, ◌⊎◌, Bool, true, false, List, [], ◌∷◌, ◌++◌,
  Bool-cases,
}
use holypipe.Dict.{Dict}

-- The calls stand newest first.
pub delivered : List Handed → List ChangeEvent
delivered [] = []
delivered (h ∷ hs) = delivered hs ++ h.events

module _ (py : Printers) (streams : List StreamSchema) where
  -- The changes of the rounds, in their order.
  pub changes : List Round → List ChangeEvent
  changes [] = []
  changes (round ∷ rounds) = changes_of py streams round ++ changes rounds

  -- The position behind the rounds.
  pub position_behind : Position → List Round → Position
  position_behind p [] = p
  position_behind p (round ∷ rounds) = position_behind (moved round p) rounds

  -- The batches up to one hold what was read up to its position, which the last holds.
  pub IsCovered : Position → Handed → List Handed → List Round → Type 0
  IsCovered start h hs rounds =
      (read : List Round) × (rest : List Round) × (rounds ≡ read ++ rest)
      × (delivered (h ∷ hs) ≡ changes read)
      × (h.position ≡ position_behind start read)

  pub AllCovered : Position → List Handed → List Round → Type 0
  AllCovered start [] rounds = Unit
  AllCovered start (h ∷ hs) rounds = IsCovered start h hs rounds × AllCovered start hs rounds

  changes-append : (read more : List Round) → changes (read ++ more) ≡ changes read ++ changes more
  unfolding changes
  changes-append [] more = refl
  changes-append (round ∷ read) more =
      ap (λ t. changes_of py streams round ++ t) (changes-append read more)
      ∙ sym (append_assoc (changes_of py streams round) (changes read) (changes more))

  last_changes : (round : Round) → changes (round ∷ []) ≡ changes_of py streams round
  unfolding changes
  last_changes round = append-nil (changes_of py streams round)

  position_behind-append :
      (p : Position) (read more : List Round)
      → position_behind p (read ++ more) ≡ position_behind (position_behind p read) more
  unfolding position_behind
  position_behind-append p [] more = refl
  position_behind-append p (round ∷ read) more = position_behind-append (moved round p) read more

  AllCovered-more :
      (start : Position) (hs : List Handed) (read more : List Round)
      → AllCovered start hs read
      → AllCovered start hs (read ++ more)
  unfolding AllCovered IsCovered
  AllCovered-more start [] read more h = h
  AllCovered-more start (b ∷ hs) read more ((up_to, rest, same, all_of, at), older) = (
    (up_to, rest ++ more, ap (λ t. t ++ more) same ∙ append_assoc up_to rest more, all_of, at),
    AllCovered-more start hs read more older,
  )

  module _ (accepts : Accepts) (start : Position) where
    -- Where the loop stands when it has read the rounds; `false` is an exception of `on_batch`.
    Holds : List Round → Stream × Bool → Type 0
    Holds read (s, true) =
        (delivered s.handed ++ s.buffer ≡ changes read)
        × (s.position ≡ position_behind start read)
        × AllCovered start s.handed read
    Holds read (s, false) = (accepts s.handed ≡ false) × AllCovered start s.handed read

    hand_over-Holds :
        (read : List Round) (buffer : List ChangeEvent) (s : Stream)
        → s.buffer ≡ buffer
        → Holds read (s, true)
        → Holds read (hand_over accepts buffer s)
          × (((hand_over accepts buffer s).1 ≡ false)
              ⊎ ((hand_over accepts buffer s).0.buffer ≡ []))
    unfolding hand_over Holds delivered AllCovered IsCovered
    hand_over-Holds read [] s e h = (h, inr e)
    hand_over-Holds read (ev ∷ evs) s e (held, at, covered) =
        let all_of : IsCovered start (record { events = s.buffer; position = s.position }) s.handed
            read =
          (read, [], sym (append-nil read), held, at) in
        elim (Bool-cases (accepts (handed_over s))) [
          | inl passed ↦ rw passed ((append-nil _ ∙ held, at, (all_of, covered)), inr refl)
          | inr refused ↦ rw refused ((refused, (all_of, covered)), inl refl)
        ]

    -- What a flush leaves: nothing in the buffer, or an exception.
    Flushed : List Round → Stream × Bool → Type 0
    Flushed read r = Holds read r × ((r.1 ≡ false) ⊎ (r.0.buffer ≡ []))

    flushed_at-Flushed :
        (now : ℕ) (read : List Round) (r : Stream × Bool)
        → Flushed read r
        → Flushed read (r ⨾ flushed_at now)
    unfolding Flushed Holds
    flushed_at-Flushed now read (s, true) h = h
    flushed_at-Flushed now read (s, false) h = h

    flush-Flushed :
        (now : ℕ) (read : List Round) (s : Stream)
        → Holds read (s, true)
        → Flushed read (flush accepts now s)
    unfolding flush Flushed
    flush-Flushed now read s h =
        flushed_at-Flushed now read (hand_over accepts s.buffer s)
          (hand_over-Holds read s.buffer s refl h)

    flush_if-Holds :
        (now : ℕ) (due : Bool) (read : List Round) (s : Stream)
        → Holds read (s, true)
        → Holds read (flush_if accepts now due s)
    unfolding Flushed
    flush_if-Holds now true read s h = (flush-Flushed now read s h).0
    flush_if-Holds now false read s h = h

    step-Holds :
        (settings : Settings) (read : List Round) (round : Round) (s : Stream)
        → Holds read (s, true)
        → Holds (read ++ round ∷ []) (step settings py streams accepts round s)
    unfolding step Holds position_behind
    step-Holds settings read round s (held, at, covered) =
        let new = changes_of py streams round in
        let grown = taken py streams round s in
        flush_if-Holds (time_of round) (is_due settings round grown) (read ++ round ∷ []) grown (
          sym (append_assoc (delivered s.handed) s.buffer new)
              ∙ ap (λ t. t ++ new) held
              ∙ sym (
                  changes-append read (round ∷ [])
                  ∙ ap (λ t. changes read ++ t) (last_changes round)),
          ap (moved round) at ∙ sym (position_behind-append start read (round ∷ [])),
          AllCovered-more start s.handed read (round ∷ []) covered,
        )

    onward-Holds :
        (read more : List Round) (r : Stream × Bool) (k : Stream → Stream × Bool)
        → Holds read r
        → ((s : Stream) → Holds read (s, true) → Holds (read ++ more) (k s))
        → Holds (read ++ more) (r ⨾ k)
    unfolding Holds
    onward-Holds read more (s, true) k h onward = onward s h
    onward-Holds read more (s, false) k (refused, covered) onward =
        (refused, AllCovered-more start s.handed read more covered)

    rounds_from-Holds :
        (settings : Settings) (read rounds : List Round) (s : Stream)
        → Holds read (s, true)
        → Holds (read ++ rounds) (rounds_from settings py streams accepts rounds s)
    unfolding rounds_from
    rounds_from-Holds settings read [] s h = rw (append-nil read) h
    rounds_from-Holds settings read (round ∷ rounds) s h =
        let behind = read ++ round ∷ [] in
        rw (sym (append_assoc read (round ∷ []) rounds)) (
          onward-Holds behind rounds (step settings py streams accepts round s)
            (rounds_from settings py streams accepts rounds) (step-Holds settings read round s h)
            (rounds_from-Holds settings behind rounds))

    -- The end of the loop.
    Ended : List Round → Stream × Bool → Type 0
    Ended rounds r =
        AllCovered start r.0.handed rounds
        × (((r.1 ≡ false) × (accepts r.0.handed ≡ false))
            ⊎ ((r.1 ≡ true) × (delivered r.0.handed ≡ changes rounds)))

    Flushed-Ended : (rounds : List Round) (r : Stream × Bool) → Flushed rounds r → Ended rounds r
    unfolding Flushed Holds Ended
    Flushed-Ended rounds (s, false) ((refused, covered), empty) = (covered, inl (refl, refused))
    Flushed-Ended rounds (s, true) ((held, at, covered), inl raised) = cc
    Flushed-Ended rounds (s, true) ((held, at, covered), inr empty) = (
      covered,
      inr (refl, sym (append-nil _) ∙ ap (λ t. delivered s.handed ++ t) (sym empty) ∙ held),
    )

    last-Ended :
        (now : ℕ) (rounds : List Round) (r : Stream × Bool)
        → Holds rounds r
        → Ended rounds (r ⨾ flush accepts now)
    unfolding Holds Ended
    last-Ended now rounds (s, true) h = Flushed-Ended rounds _ (flush-Flushed now rounds s h)
    last-Ended now rounds (s, false) (refused, covered) = (covered, inl (refl, refused))

-- Each batch that is handed over, together with those before it, holds exactly the changes of the
-- wanted streams in the events up to the position that it carries, each once and in the order of
-- the log, so that a restart from a stored position neither misses nor repeats one. At the end all
-- that was read was handed over, unless `on_batch` raised on the last batch.
pub stream_changes-AllCovered :
    (settings : Settings) (py : Printers) (streams : List StreamSchema) (accepts : Accepts)
    (start : ℕ) (state : Dict Value) (rounds : List Round) (now : ℕ)
    → let (s, passed) = stream_changes settings py streams accepts start state rounds now in
      AllCovered py streams (position_in state) s.handed rounds
      × (((passed ≡ false) × (accepts s.handed ≡ false))
          ⊎ ((passed ≡ true) × (delivered s.handed ≡ changes py streams rounds)))
unfolding stream_changes Ended Holds AllCovered delivered changes position_behind
stream_changes-AllCovered settings py streams accepts start state rounds now =
    last-Ended py streams accepts (position_in state) now rounds _ (
      rounds_from-Holds py streams accepts (position_in state) settings [] rounds
        (from_start start state) (refl, refl, tt))
