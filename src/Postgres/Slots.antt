-- ===== src/Postgres/Slots.antt =====
-- The replication slot over set-up, restarts and tear-down.
use holypipe.Postgres.Setup.{non_empty, or_slot, started, Replication, Server, create_slot}
use mathlib.Core.Path.{subst}
use mathlib.Core.Option.{none-ne-some, some-injective}
use holypipe.Dict.{get-pop, get-put}
use holypipe.Prelude.{str_eq_refl}
use holypipe.Postgres.Setup.{
  Replication, Server, create_slot, slot_plugin, setup_cdc, setup_slot, teardown_cdc, slot_name,
  started, candidates,
}
use holypipe.Prelude.{
  ◌≡◌, ◌∙◌, refl, sym, ap, inl, inr, String, true, false, Option, none, some, List, [], ◌∷◌, arith,
  contains, str_eq, Bool-cases, if◌then◌else◌,
}
use holypipe.Dict
use holypipe.Dict.{Dict}

create_slot_lem :
    (slot : String) (candidates : List String) (server after : Server) (plugin : String)
    → create_slot slot candidates server ≡ (some plugin, after)
    → after ≡ record server { slots = Dict.put slot plugin server.slots }
unfolding create_slot
create_slot_lem slot [] server after plugin e = ground arith
create_slot_lem slot (candidate ∷ candidates) server after plugin e =
    ground (arith, create_slot_lem slot candidates server after plugin)

-- A slot is there with a plugin, and a server differs from another by no slot but this.
record Holds (slot plugin : String) (server after : Server) : Type 0 where
  there : Dict.get slot after.slots ≡ some plugin
  wal_level : after.wal_level ≡ server.wal_level
  others :
      (j : String)
      → Dict.get j (Dict.pop slot after.slots)
        ≡ (if str_eq slot j then none else Dict.get j server.slots)

slot_plugin-Holds :
    (slot plugin : String) (found : Option String) (server after : Server)
    → Dict.get slot server.slots ≡ found
    → slot_plugin slot found server ≡ (some plugin, after)
    → Holds slot plugin server after
unfolding slot_plugin
slot_plugin-Holds slot plugin (some old) server after was e =
    let same : server ≡ after = ap (λ (r : Option String × Server). r.1) e in
    subst (Holds slot plugin server) same (record {
      there = was ∙ ap (λ (r : Option String × Server). r.0) e;
      wal_level = refl;
      others = λ j. get-pop slot j server.slots;
    })
slot_plugin-Holds slot plugin none server after was e =
    subst (Holds slot plugin server) (sym (create_slot_lem slot candidates server after plugin e))
      (record {
        there = get-put slot slot plugin server.slots ∙ rw (str_eq_refl slot) refl;
        wal_level = refl;
        others = λ j. ground (
          arith,
          get-pop slot j (Dict.put slot plugin server.slots),
          get-put slot j plugin server.slots,
        );
      })

or_slot_given :
    (o : Option String) (default : String)
    → str_eq default "" ≡ false
    → str_eq (or_slot (non_empty o) default) "" ≡ false
or_slot_given none default h = h
or_slot_given (some s) default h = elim (Bool-cases (str_eq s "")) [
  | inl empty ↦ rw empty h
  | inr given ↦ rw given given
]

-- The name of a slot is not empty.
slot_name_given :
    (config_slot : Option String) (state : Replication)
    → str_eq (slot_name config_slot state) "" ≡ false
slot_name_given config_slot state =
    or_slot_given state.slot (or_slot (non_empty config_slot) "holypipe_slot")
      (or_slot_given config_slot "holypipe_slot" refl)

started-Holds :
    (slot : String) (state next : Replication) (server after : Server) (r : Option String × Server)
    → slot_plugin slot (Dict.get slot server.slots) server ≡ r
    → started slot state r ≡ (some next, after)
    → (plugin : String) × Holds slot plugin server after
      × (next ≡ record state { slot = some slot; plugin = some plugin })
started-Holds slot state next server after (none, left) made e =
    absurd (none-ne-some next (ap (λ (r : Option Replication × Server). r.0) e))
started-Holds slot state next server after (some plugin, left) made e =
    let same : left ≡ after = ap (λ (r : Option Replication × Server). r.1) e in
    (
      plugin,
      slot_plugin-Holds slot plugin (Dict.get slot server.slots) server after refl
          (made ∙ ap (λ (t : Server). (some plugin, t)) same),
      sym (some-injective _ _ (ap (λ (r : Option Replication × Server). r.0) e)),
    )

setup_cdc-Holds :
    (config_slot : Option String) (state next : Replication) (server after : Server)
    → setup_cdc config_slot state server ≡ (some next, after)
    → let slot = slot_name config_slot state in
      (str_eq server.wal_level "logical" ≡ true)
      × (plugin : String) × Holds slot plugin server after
      × (next ≡ record state { slot = some slot; plugin = some plugin })
unfolding setup_cdc setup_slot
setup_cdc-Holds config_slot state next server after =
    let slot = slot_name config_slot state in
    elim (Bool-cases (str_eq server.wal_level "logical")) [
      | inr other ↦ rw (other, setup_cdc, setup_slot) (λ e. ground arith)
      | inl logical ↦
          rw (logical, setup_cdc, setup_slot)
            (λ e.
              let (plugin, made, named) =
                started-Holds slot state next server after
                  (slot_plugin slot (Dict.get slot server.slots) server) refl e in
              (refl, plugin, made, named))
    ]

-- A set-up that finds its slot.
setup_slot_there :
    (slot plugin : String) (lsn : Option String) (after : Server)
    → str_eq after.wal_level "logical" ≡ true
    → Dict.get slot after.slots ≡ some plugin
    → let state : Replication = record { slot = some slot; plugin = some plugin; lsn = lsn } in
      setup_slot slot state after ≡ (some state, after)
unfolding setup_slot slot_plugin
setup_slot_there slot plugin lsn after logical there =
    rw (logical, there, setup_slot, slot_plugin) refl

setup_again :
    (config_slot : Option String) (slot plugin : String) (lsn : Option String) (after : Server)
    → str_eq slot "" ≡ false
    → str_eq after.wal_level "logical" ≡ true
    → Dict.get slot after.slots ≡ some plugin
    → let state : Replication = record { slot = some slot; plugin = some plugin; lsn = lsn } in
      setup_cdc config_slot state after ≡ (some state, after)
unfolding setup_cdc
setup_again config_slot slot plugin lsn after given logical there =
    let state : Replication = record { slot = some slot; plugin = some plugin; lsn = lsn } in
    let same : slot_name config_slot state ≡ slot = rw given refl in
    ap (λ s. setup_slot s state after) same ∙ setup_slot_there slot plugin lsn after logical there

-- A set-up that passes leaves the slot of that name in the server, with the plugin that the state
-- names. A second one, at a restart, changes neither the state nor the server. Tearing down then
-- takes the slot away, unless a client reads from it, and no other slot.
pub setup_cdc-teardown_cdc :
    (config_slot : Option String) (state next : Replication) (server after : Server) (j : String)
    → setup_cdc config_slot state server ≡ (some next, after)
    → contains after.active (slot_name config_slot state) ≡ false
    → let slot = slot_name config_slot state in
      (Dict.get slot after.slots ≡ next.plugin)
      × (setup_cdc config_slot next after ≡ (some next, after))
      × (Dict.get j (teardown_cdc true next after).slots
          ≡ (if str_eq slot j then none else Dict.get j server.slots))
unfolding teardown_cdc
setup_cdc-teardown_cdc config_slot state next server after j e idle =
    let slot = slot_name config_slot state in
    let (logical, plugin, made, named) = setup_cdc-Holds config_slot state next server after e in
    let given = slot_name_given config_slot state in
    (
      made.there ∙ sym (ap (λ (t : Replication). t.plugin) named),
      subst (λ (t : Replication). setup_cdc config_slot t after ≡ (some t, after)) (sym named)
          (setup_again config_slot slot plugin state.lsn after given
            (ap (λ level. str_eq level "logical") made.wal_level ∙ logical) made.there),
      subst
          (λ (t : Replication).
            Dict.get j (teardown_cdc true t after).slots
            ≡ (if str_eq slot j then none else Dict.get j server.slots))
          (sym named) (rw (given, idle, teardown_cdc) (made.others j)),
    )
