-- ===== src/Sync/Streams.antt =====
-- What a stream that passes does to its saved cursor.
use mathlib.Core.Path.{subst}
use holypipe.Prelude.{
  str_eq_refl, ◌≡◌, ◌∙◌, refl, sym, ap, String, Bool, true, false, ◌⊎◌, inl, inr, Option, some, ◌∷◌,
  arith, Bool-cases, Option-cases, if◌then◌else◌, ◌⨾◌, then_passed,
}
use holypipe.Dict.{get-put}
use holypipe.Connector.{Call, prepare, truncate}
use holypipe.Sync.{
  saved, read_field, Job, Env, Progress, is_null, truthy, compared, cursor_value, save_cursor, call,
  write_table, prepare_table, swap_table, load, start_stream, close_stream, run_stream,
}
use holypipe.Sync.Cursors.{Loaded, IsStrict, Sees, marked, load_batches-Loaded}

-- Calls that are no writes leave the state and the cursor alone.
abbrev Kept : Progress → Progress → Type 0
Kept p p' = (p'.state ≡ p.state) × (p'.max_seen ≡ p.max_seen)

call-Kept : (env : Env) (c : Call) (p : Progress) → Kept p (call env c p).0
unfolding call
call-Kept env c p = elim (Option-cases (env.respond (c ∷ p.calls))) [
  | inl raised ↦ (rw (raised, call) refl, rw (raised, call) refl)
  | inr (n, answered) ↦ (rw (answered, call) refl, rw (answered, call) refl)
]

either-Kept :
    (b : Bool) (env : Env) (c : Call) (p : Progress)
    → Kept p (if b then call env c p else (p, true)).0
either-Kept true env c p = call-Kept env c p
either-Kept false env c p = (refl, refl)

swap_table-Kept :
    (env : Env) (namespace : Option String) (job : Job) (p : Progress)
    → Kept p (swap_table env namespace job p).0
unfolding swap_table
swap_table-Kept env namespace job p = either-Kept job.full_refresh env _ p

prepare_table-Kept :
    (env : Env) (namespace : Option String) (job : Job) (p : Progress)
    → (prepare_table env namespace job p).1 ≡ true
    → Kept p (prepare_table env namespace job p).0
unfolding prepare_table
prepare_table-Kept env namespace job p e =
    let c = prepare (write_table job) namespace job.schema in
    let cut = truncate (write_table job) namespace in
    let k : Progress → Progress × Bool =
      λ p'. if job.full_refresh then call env cut p' else (p', true) in
    let (passed, onward) = then_passed (call env c p) k e in
    let one = call-Kept env c p in
    let two = either-Kept job.full_refresh env cut (call env c p).0 in
    rw onward (two.0 ∙ one.0, two.1 ∙ one.1)

-- A cursor that is null was null before.
save_cursor-value :
    (job : Job) (field : String) (p : Progress)
    → compared job ≡ some field
    → (is_null p.max_seen ≡ false) ⊎ (p.max_seen ≡ cursor_value job p.state)
    → cursor_value job (save_cursor job p).state ≡ p.max_seen
unfolding save_cursor cursor_value
save_cursor-value job field p compares kept = elim (Bool-cases (is_null p.max_seen)) [
  | inl null_m ↦ elim kept [
    | inl some_m ↦ absurd (ground (arith))
    | inr same ↦
        let same' : p.max_seen ≡ saved (some field) p.state job.schema.name =
          rw (compares, cursor_value) at same in
        rw (compares, null_m, save_cursor) (sym same')
  ]
  | inr some_m ↦ rw (compares, some_m, save_cursor, cursor_value, get-put, str_eq_refl) refl
]

compared-incremental :
    (job : Job) (field : String)
    → compared job ≡ some field
    → (job.incremental ≡ true) × (truthy job.cursor_field ≡ some field)
compared-incremental job field e = elim (Bool-cases job.incremental) [
  | inl on ↦ (on, rw on at e)
  | inr off ↦ absurd (ground arith)
]

load-Loaded :
    (env : Env) (namespace : Option String) (job : Job) (field : String) (p : Progress)
    → IsStrict env.greater
    → compared job ≡ some field
    → (load env namespace job p).1 ≡ true
    → Loaded env field
        (marked (env.clock p.calls) (env.reading p.calls job (read_field job) p.max_seen).0)
        p
        (load env namespace job p).0
unfolding load
load-Loaded env namespace job field p strict compares e =
    load_batches-Loaded env strict namespace job field (compared-incremental job field compares).1
      (env.clock p.calls) _ _ p e

-- A stream that compares a field and passes: the cursor it leaves was there before, or is the
-- value of a row it read; none of its rows has a value above the new cursor, and whatever the
-- old cursor covered, the new one covers.
pub run_stream-Sees :
    (env : Env) (namespace : Option String) (job : Job) (field : String) (p : Progress)
    → IsStrict env.greater
    → compared job ≡ some field
    → (run_stream env namespace job p).1 ≡ true
    → let (before, _) = prepare_table env namespace job (start_stream job p) in
      let (batches, _) = env.reading before.calls job (read_field job) (cursor_value job p.state) in
      Sees env.greater field
        (marked (env.clock before.calls) batches)
        (cursor_value job p.state)
        (cursor_value job (run_stream env namespace job p).0.state)
unfolding run_stream
run_stream-Sees env namespace job field p strict compares e =
    let r1 = prepare_table env namespace job (start_stream job p) in
    let r2 = r1 ⨾ load env namespace job in
    let r3 = r2 ⨾ swap_table env namespace job in
    let closes : Progress → Progress × Bool = λ p'. (close_stream job (save_cursor job p'), true) in
    let (passed3, onward3) = then_passed r3 closes e in
    let (passed2, onward2) = then_passed r2 (swap_table env namespace job) passed3 in
    let (passed1, onward1) = then_passed r1 (load env namespace job) passed2 in
    let (state1, cursor1) = prepare_table-Kept env namespace job (start_stream job p) passed1 in
    let (state3, cursor3) = swap_table-Kept env namespace job (load env namespace job r1.0).0 in
    let loaded = load-Loaded env namespace job field r1.0 strict compares (rw onward1 at passed2) in
    let p2 = (load env namespace job r1.0).0 in
    let p3 = (swap_table env namespace job p2).0 in
    let old = cursor_value job p.state in
    let sees =
      subst
        (λ c.
          Sees env.greater field
            (marked (env.clock r1.0.calls) (env.reading r1.0.calls job (read_field job) c).0) c
            p2.max_seen)
        cursor1 loaded.sees in
    let kept : (is_null p3.max_seen ≡ false) ⊎ (p3.max_seen ≡ cursor_value job p3.state) =
      elim sees.reached [
        | inl same ↦
            inr (cursor3 ∙ same ∙ ap (cursor_value job) (sym (state3 ∙ loaded.state ∙ state1)))
        | inr (row, here, value, found) ↦ inl (ap is_null cursor3 ∙ found)
      ] in
    let ended : r3.0 ≡ p3 =
      ap (λ (r : Progress × Bool). r.0) onward2
      ∙ ap (λ (r : Progress × Bool). (swap_table env namespace job r.0).0) onward1 in
    subst (Sees env.greater field _ old)
      (sym (
        ap (λ (r : Progress × Bool). cursor_value job r.0.state) onward3
        ∙ ap (λ q. cursor_value job (save_cursor job q).state) ended
        ∙ save_cursor-value job field p3 compares kept
        ∙ cursor3))
      sees
