-- ===== src/Api/Resync.antt =====
-- Which cursors a resync drops.
use holypipe.Api.Workers.{find_connection-store_connection, find_connection-id}
use holypipe.Auth.{ok}
use holypipe.Prelude.{
  ◌≡◌, ◌∙◌, refl, ap, String, Bool, true, false, not, ◌||◌, none, some, List, [], ◌∷◌, arith, any,
  contains, str_eq, eq_iff, if◌then◌else◌,
}
use holypipe.Dict
use holypipe.Dict.{get-pop, Dict}
use holypipe.Api.{BackgroundTask, find_connection, Api}
use holypipe.Models.{Value, Connection}
use holypipe.Api.Operate.{
  cursors_of, insert_text, resync_batch, resync_found, targets_of, valid_names, pop_all,
  resync_connection, sorted_names,
}
use holypipe.Api.Operate.{is_running_status}

contains-insert_text :
    (s : String) (ts : List String) (name : String)
    → contains (insert_text s ts) name ≡ (str_eq s name || contains ts name)
unfolding insert_text
contains-insert_text s [] name = refl
contains-insert_text s (t ∷ ts) name = ground (arith, eq_iff s t, contains-insert_text s ts name)

contains-sorted_names :
    (ss : List String) (name : String) → contains (sorted_names ss) name ≡ contains ss name
unfolding sorted_names
contains-sorted_names [] name = refl
contains-sorted_names (s ∷ ss) name =
    ground (arith, contains-insert_text s (sorted_names ss) name, contains-sorted_names ss name)

get-pop_all :
    (names : List String) (cursors : Dict Value) (name : String)
    → Dict.get name (pop_all names cursors)
      ≡ (if contains names name then none else Dict.get name cursors)
unfolding pop_all
get-pop_all [] cursors name = refl
get-pop_all (n ∷ names) cursors name =
    ground (arith, get-pop n name cursors, get-pop_all names (Dict.pop n cursors) name)

-- The names of the body, or without any those of all streams.
abbrev is_target : List String → Connection → String → Bool
is_target [] conn name = contains (valid_names conn) name
is_target (n ∷ ns) conn name = contains (n ∷ ns) name

contains-targets_of :
    (names : List String) (conn : Connection) (name : String)
    → contains (targets_of names conn) name ≡ is_target names conn name
contains-targets_of [] conn name = contains-sorted_names (valid_names conn) name
contains-targets_of (n ∷ ns) conn name = refl

-- A resync of streams that a batch connection has, while none of its runs is on, enables the
-- connection, drops the cursors of the streams it names, or of all streams when it names none,
-- keeps every other cursor, and adds the job that reads those streams again.
pub resync_connection-get :
    (id : String) (names : List String) (joined : Bool) (api : Api) (conn : Connection)
    (name : String)
    → find_connection id api.connections ≡ some conn
    → str_eq conn.mode "cdc" ≡ false
    → is_running_status conn.status ≡ false
    → any (λ n. not (contains (valid_names conn) n)) names ≡ false
    → let (result, synced) = resync_connection id names joined api in
      let targets = targets_of names conn in
      let cursors = pop_all targets (cursors_of conn.state.cursors) in
      let job : BackgroundTask = record {
        connection_id = conn.id;
        trigger = "resync";
        only_streams = some targets;
      } in
      (result ≡ ok targets)
      × (find_connection id synced.connections
          ≡ some (record conn {
            enabled = true;
            state = record conn.state { cursors = some cursors };
          }))
      × (Dict.get name cursors ≡ (
          if is_target names conn name
          then none
          else Dict.get name (cursors_of conn.state.cursors)))
      × (synced.background_tasks ≡ job ∷ api.background_tasks)
unfolding resync_connection resync_found resync_batch
resync_connection-get id names joined api conn name h batch ended valid =
    let targets = targets_of names conn in
    let cursors = pop_all targets (cursors_of conn.state.cursors) in
    let new : Connection = record conn {
      enabled = true;
      state = record conn.state { cursors = some cursors };
    } in
    let named = find_connection-id id api.connections conn h in
    let same : str_eq new.id id ≡ true = ground (arith, eq_iff conn.id id, named) in
    rw (h, valid, batch, ended, resync_connection)
      (
        refl,
        find_connection-store_connection id api.connections conn new h same,
        get-pop_all targets (cursors_of conn.state.cursors) name
            ∙ ap (λ b. if b then none else Dict.get name (cursors_of conn.state.cursors))
                (contains-targets_of names conn name),
        refl,
      )
