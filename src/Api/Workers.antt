-- ===== src/Api/Workers.antt =====
-- The workers and the scheduler after a request.
use mathlib.Core.Path.{subst}
use holypipe.Auth.{ok}
use holypipe.Api.Operate.{stop_cdc, LastSession, after_session}
use holypipe.Supervisor.Registry.{is_alive-without}
use holypipe.Supervisor.{Supervisor, alive_worker}
use holypipe.Api.{Api, find_connection, store_connection}
use holypipe.Scheduler.{collect}
use holypipe.Models.{idle, Connection}
use holypipe.Prelude.{
  if◌then◌else◌, ℕ, ◌≡◌, ◌∙◌, refl, ap, inl, inr, String, Bool, true, false, Option, none, some,
  List, [], ◌∷◌, arith, contains, str_eq, eq_iff, Bool-cases, if◌then◌else◌, Option-cases,
}
use holypipe.Dict
use holypipe.Supervisor
use holypipe.Dict.{get-pop, Dict}

pub find_connection-id :
    (id : String) (conns : List Connection) (conn : Connection)
    → find_connection id conns ≡ some conn
    → conn.id ≡ id
find_connection-id id [] conn h = cc
find_connection-id id (c ∷ conns) conn h =
    ground (arith, eq_iff c.id id, find_connection-id id conns conn)

pub find_connection-store_connection :
    (id : String) (conns : List Connection) (conn new : Connection)
    → find_connection id conns ≡ some conn
    → str_eq new.id id ≡ true
    → find_connection id (store_connection new conns) ≡ some new
find_connection-store_connection id [] conn new h same = cc
find_connection-store_connection id (c ∷ conns) conn new h same = ground (
  arith,
  eq_iff c.id id,
  eq_iff new.id id,
  eq_iff c.id new.id,
  find_connection-store_connection id conns conn new,
)

-- A worker that was told to stop is no longer in the registry.
is_running-stop :
    (id : String) (joined : Bool) (s : Supervisor)
    → Supervisor.is_running id (Supervisor.stop id joined s) ≡ false
unfolding Supervisor.is_running Supervisor.stop
is_running-stop id joined s =
    let popped : Dict.get id (Dict.pop id s.workers) ≡ none =
      ground (arith, get-pop id id s.workers, eq_iff id id) in
    elim (Option-cases (Dict.get id s.workers)) [
      | inl e ↦ rw (e, popped) refl
      | inr (t, e) ↦ elim (Bool-cases joined) [
        | inl j ↦ rw (e, j, popped) refl
        | inr j ↦ rw (e, j, popped) refl
      ]
    ]

module _ (cron : String → ℕ → Option ℕ) (now : ℕ) where
  abbrev pub wanted_ids : List Connection → List String
  wanted_ids conns = (collect cron now conns).2

  wanted_ids-disabled :
      (conn : Connection) (conns : List Connection)
      → conn.enabled ≡ false
      → wanted_ids (conn ∷ conns) ≡ wanted_ids conns
  unfolding collect
  wanted_ids-disabled conn conns h = rw h refl

  wanted_ids_other :
      (id : String) (conn : Connection) (conns : List Connection)
      → str_eq conn.id id ≡ false
      → contains (wanted_ids (conn ∷ conns)) id ≡ contains (wanted_ids conns) id
  unfolding collect
  wanted_ids_other id conn conns h = elim (Bool-cases conn.enabled) [
    | inr e ↦ rw e refl
    | inl e ↦ ground (arith, e, h)
  ]

  wanted_ids-store_connection :
      (new : Connection) (conns : List Connection)
      → new.enabled ≡ false
      → contains (wanted_ids (store_connection new conns)) new.id ≡ false
  unfolding collect
  wanted_ids-store_connection new [] h = refl
  wanted_ids-store_connection new (c ∷ conns) h = elim (Bool-cases (str_eq c.id new.id)) [
    | inl same ↦ rw same (
        ap (λ ids. contains ids new.id) (wanted_ids-disabled new (store_connection new conns) h)
        ∙ wanted_ids-store_connection new conns h)
    | inr other ↦ rw other (
        wanted_ids_other new.id c (store_connection new conns) other
        ∙ wanted_ids-store_connection new conns h)
  ]

-- The thread that was registered has ended.
joined_dead :
    (id : String) (s : Supervisor)
    → alive_worker (Dict.get id s.workers) (Supervisor.stop id true s).live ≡ false
unfolding Supervisor.stop
joined_dead id s = elim (Option-cases (Dict.get id s.workers)) [
  | inl e ↦ rw e refl
  | inr (t, e) ↦ rw e (ground (arith, is_alive-without t t s.live))
]

-- A connection is stopped and the thread of its worker ends in time. Then the worker is out of the
-- registry and its thread does not run. The row is disabled; it is idle, or, if a worker was
-- running, as its last session left it when it ended, with its state, its status and its error. The
-- next round of the scheduler does not want the connection to run.
pub stop_cdc-collect :
    (cron : String → ℕ → Option ℕ) (now : ℕ) (id : String) (session : LastSession) (api : Api)
    (conn : Connection)
    → find_connection id api.connections ≡ some conn
    → let (result, stopped) = stop_cdc id true session api in
      let new : Connection = record conn { enabled = false; status = idle } in
      (result ≡ ok true)
      × (Supervisor.is_running id stopped.supervisor ≡ false)
      × (alive_worker (Dict.get id api.supervisor.workers) stopped.supervisor.live ≡ false)
      × (find_connection id stopped.connections
          ≡ some
              (if Supervisor.is_running id api.supervisor then after_session session new else new))
      × (contains (wanted_ids cron now stopped.connections) id ≡ false)
unfolding stop_cdc
stop_cdc-collect cron now id session api conn h =
    let new : Connection = record conn { enabled = false; status = idle } in
    let last : Connection = after_session session new in
    let named = find_connection-id id api.connections conn h in
    let same : str_eq new.id id ≡ true = ground (arith, eq_iff conn.id id, named) in
    let stored = find_connection-store_connection id api.connections conn new h same in
    elim (Bool-cases (Supervisor.is_running id api.supervisor)) [
      | inl on ↦
          let again = store_connection new api.connections in
          rw (h, on, stop_cdc)
            (
              refl,
              is_running-stop id true api.supervisor,
              joined_dead id api.supervisor,
              find_connection-store_connection id again new last stored same,
              subst (λ i. contains (wanted_ids cron now (store_connection last again)) i ≡ false)
                  named (wanted_ids-store_connection cron now last again refl),
            )
      | inr off ↦
          rw (h, off, stop_cdc)
            (
              refl,
              is_running-stop id true api.supervisor,
              joined_dead id api.supervisor,
              stored,
              subst
                  (λ i.
                    contains (wanted_ids cron now (store_connection new api.connections)) i ≡ false)
                  named (wanted_ids-store_connection cron now new api.connections refl),
            )
    ]
