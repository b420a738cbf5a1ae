-- ===== src/Postgres/Delivery.antt =====
-- What the loop over the log hands over.
use holypipe.Postgres.Decode.{lsn_to_str}
use mathlib.Core.List.{append_assoc, append-nil}
use holypipe.Postgres.Stream.{
  from_start, stream_changes, Settings, is_empty, rounds_from, step, stream_from, select_wanted,
  message, sent_feedback, handed_over, quiet, Round, flush, flush_if, hand_over, Accepts, Handed,
  Stream,
}
use holypipe.Connector.{ChangeEvent}
use holypipe.Prelude.{
  then_onward, ℕ, ◌+◌, ◌≡◌, ◌∙◌, refl, sym, ap, String, Bool, true, false, not, ◌||◌, Option, some,
  List, [], ◌∷◌, ◌++◌, leb, length,
}

-- The wanted events of the messages, in their order.
pub wanted_events : (String → List ChangeEvent) → List String → List Round → List ChangeEvent
wanted_events decode wanted [] = []
wanted_events decode wanted (quiet wal_end now ∷ rounds) = wanted_events decode wanted rounds
wanted_events decode wanted (message payload data_start wal_end now ∷ rounds) =
    select_wanted wanted (decode payload) ++ wanted_events decode wanted rounds

pub delivered : List Handed → List ChangeEvent
delivered [] = []
delivered (h ∷ hs) = h.events ++ delivered hs

delivered-append :
    (hs : List Handed) (evs : List ChangeEvent) (lsn : Option String)
    → delivered (hs ++ record { events = evs; lsn = lsn } ∷ []) ≡ delivered hs ++ evs
unfolding delivered
delivered-append [] evs lsn = append-nil evs
delivered-append (h ∷ hs) evs lsn =
    ap (λ t. h.events ++ t) (delivered-append hs evs lsn)
    ∙ sym (append_assoc h.events (delivered hs) evs)

-- What was handed over, and what waits.
abbrev held : Stream → List ChangeEvent
held s = delivered s.handed ++ s.buffer

abbrev Passes : Stream × Bool → List ChangeEvent → Type 0
Passes r events = (r.1 ≡ true) × (held r.0 ≡ events)

module _ (accepts : Accepts) (always : (hs : List Handed) → accepts hs ≡ true) where
  hand_over-held :
      (buffer : List ChangeEvent) (s : Stream)
      → s.buffer ≡ buffer
      → (Passes (hand_over accepts buffer s) (held s))
        × ((hand_over accepts buffer s).0.buffer ≡ [])
  unfolding hand_over
  hand_over-held [] s e = ((refl, refl), e)
  hand_over-held (ev ∷ evs) s e =
      rw (always (handed_over s))
        ((refl, append-nil _ ∙ delivered-append s.handed s.buffer s.last_lsn), refl)

  flush-held :
      (now : ℕ) (s : Stream)
      → Passes (flush accepts now s) (held s) × ((flush accepts now s).0.buffer ≡ [])
  unfolding flush
  flush-held now s =
      let ((passed, same), empty) = hand_over-held s.buffer s refl in
      let onward = then_onward (hand_over accepts s.buffer s) (sent_feedback now) passed in
      rw onward ((refl, same), empty)

  flush_if-held : (now : ℕ) (due : Bool) (s : Stream) → Passes (flush_if accepts now due s) (held s)
  flush_if-held now true s = (flush-held now s).0
  flush_if-held now false s = (refl, refl)

  step-held :
      (settings : Settings) (decode : String → List ChangeEvent) (wanted : List String)
      (round : Round) (s : Stream)
      → Passes
          (step settings decode wanted accepts round s)
          (held s ++ wanted_events decode wanted (round ∷ []))
  unfolding step wanted_events
  step-held settings decode wanted (quiet wal_end now) s =
      rw (append-nil (held s)) (flush_if-held now _ (record s { wal_end = wal_end }))
  step-held settings decode wanted (message payload data_start wal_end now) s =
      let new = select_wanted wanted (decode payload) in
      let grown : Stream = record s {
        buffer = s.buffer ++ new;
        last_lsn = some (lsn_to_str data_start);
        wal_end = wal_end;
      } in
      let (passed, same) =
        flush_if-held now
          (leb settings.cdc_flush_records (length grown.buffer)
            || leb (s.last_flush + settings.cdc_flush_seconds) now)
          grown in
      (
        passed,
        same
            ∙ sym (append_assoc (delivered s.handed) s.buffer new)
            ∙ ap (λ t. held s ++ t) (sym (append-nil new)),
      )

  wanted_events-cons :
      (decode : String → List ChangeEvent) (wanted : List String) (round : Round)
      (rounds : List Round)
      → wanted_events decode wanted (round ∷ []) ++ wanted_events decode wanted rounds
        ≡ wanted_events decode wanted (round ∷ rounds)
  unfolding wanted_events
  wanted_events-cons decode wanted (quiet wal_end now) rounds = refl
  wanted_events-cons decode wanted (message payload data_start wal_end now) rounds =
      ap (λ t. t ++ wanted_events decode wanted rounds) (append-nil _)

  rounds_from-held :
      (settings : Settings) (decode : String → List ChangeEvent) (wanted : List String)
      (rounds : List Round) (s : Stream)
      → Passes
          (rounds_from settings decode wanted accepts rounds s)
          (held s ++ wanted_events decode wanted rounds)
  unfolding rounds_from wanted_events
  rounds_from-held settings decode wanted [] s = (refl, sym (append-nil (held s)))
  rounds_from-held settings decode wanted (round ∷ rounds) s =
      let first = step settings decode wanted accepts round s in
      let (passed, same) = step-held settings decode wanted round s in
      let (onwards, rest) = rounds_from-held settings decode wanted rounds first.0 in
      let onward = then_onward first (rounds_from settings decode wanted accepts rounds) passed in
      rw onward (
        onwards,
        rest
            ∙ ap (λ t. t ++ wanted_events decode wanted rounds) same
            ∙ append_assoc (held s) (wanted_events decode wanted (round ∷ []))
                (wanted_events decode wanted rounds)
            ∙ ap (λ t. held s ++ t) (wanted_events-cons decode wanted round rounds),
      )

  flush_rest-held :
      (now : ℕ) (s : Stream) (buffer : List ChangeEvent)
      → s.buffer ≡ buffer
      → let r = flush_if accepts now (not (is_empty buffer)) s in
        (r.1 ≡ true) × (delivered r.0.handed ≡ held s)
  flush_rest-held now s [] e = (refl, rw e (sym (append-nil (delivered s.handed))))
  flush_rest-held now s (ev ∷ evs) e =
      let r = flush accepts now s in
      let ((passed, same), empty) = flush-held now s in
      (
        passed,
        sym (append-nil (delivered r.0.handed))
            ∙ ap (λ t. delivered r.0.handed ++ t) (sym empty)
            ∙ same,
      )

-- While `on_batch` does not raise, the batches handed over hold exactly the events of the wanted
-- streams in the messages that were read, each once and in their order, and none is left behind
-- when the loop is stopped.
pub stream_changes-delivered :
    (settings : Settings) (decode : String → List ChangeEvent) (wanted : List String)
    (accepts : Accepts) (start : ℕ) (lsn : Option String) (rounds : List Round) (now : ℕ)
    → ((hs : List Handed) → accepts hs ≡ true)
    → let r = stream_changes settings decode wanted accepts start lsn rounds now in
      (r.1 ≡ true) × (delivered r.0.handed ≡ wanted_events decode wanted rounds)
unfolding stream_from wanted_events delivered
stream_changes-delivered settings decode wanted accepts start lsn rounds now always =
    let s = from_start start lsn in
    let (passed, same) = rounds_from-held accepts always settings decode wanted rounds s in
    let looped = rounds_from settings decode wanted accepts rounds s in
    let onward =
      then_onward looped (λ s. flush_if accepts now (not (is_empty s.buffer)) s) passed in
    let (flushed, all_of) = flush_rest-held accepts always now looped.0 looped.0.buffer refl in
    rw onward (flushed, all_of ∙ same)
