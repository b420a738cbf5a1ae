-- ===== src/Mysql/Starts.antt =====
-- Where the loop starts.
use holypipe.Connector.Values.{IntOf, get_or, is_truthy}
use holypipe.Mysql.Setup.{Server, is_on, is_row, setup_cdc, with_position, with_master, set_default}
use holypipe.Connector.{value_or_null}
use holypipe.Prelude.{
  ℕ, ◌≡◌, ◌∙◌, refl, inl, inr, String, Bool, true, false, Option, none, some, Bool-cases,
  Option-cases, if◌then◌else◌,
}
use holypipe.Dict
use holypipe.Mysql.Binlog.{Position, position_in}
use mathlib.Core.Path.{subst}
use mathlib.Core.Option.{some-injective}
use holypipe.Models.{Value, int, text}
use holypipe.Prelude.Int.{ℤ, pos}
use holypipe.Dict.{get-put, Dict}

-- The server's position, or else the stored one.
abbrev pub position_or : Dict Value → Option (String × ℕ) → Position
position_or state none = position_in state
position_or state (some (file, at)) = record { log_file = text file; log_pos = int (pos at) }

set_default-position_in :
    (id : ℤ) (found : Option Value) (state : Dict Value)
    → position_in (set_default id found state) ≡ position_in state
set_default-position_in id (some v) state = refl
set_default-position_in id none state =
    rw (get-put "server_id" "log_file" (int id) state, get-put "server_id" "log_pos" (int id) state)
      refl

chosen-position_in :
    (fresh : Bool) (master : Option (String × ℕ)) (state : Dict Value)
    → position_in (if fresh then state else with_master master state)
      ≡ (if fresh then position_in state else position_or state master)
chosen-position_in true master state = refl
chosen-position_in false none state = refl
chosen-position_in false (some (file, at)) state =
    let named = Dict.put "log_file" (text file) state in
    rw
      (
        get-put "log_pos" "log_file" (int (pos at)) named,
        get-put "log_pos" "log_pos" (int (pos at)) named,
        get-put "log_file" "log_file" (text file) state,
      )
      refl

-- When the set-up passes, binary logging is on with whole rows, and the loop starts at the stored
-- position if it names a file of the log, or else at the server's; so a stored position is never
-- overwritten.
setup_cdc-position_in :
    (int_of : IntOf) (config state started : Dict Value) (server : Server)
    → setup_cdc int_of config server state ≡ some started
    → let stored = is_truthy (value_or_null (Dict.get "log_file" state)) in
      (is_on server.log_bin ≡ true)
      × (is_row server.binlog_format ≡ true)
      × (position_in started
          ≡ (if stored then position_in state else position_or state server.master))
unfolding setup_cdc
setup_cdc-position_in int_of config state started server =
    elim (Bool-cases (is_on server.log_bin)) [
      | inr off ↦ rw (off, setup_cdc) (λ h. cc)
      | inl on ↦ elim (Bool-cases (is_row server.binlog_format)) [
        | inr partial ↦ rw (on, partial, setup_cdc) (λ h. cc)
        | inl whole ↦ elim (Option-cases (int_of (get_or "server_id" (int (pos 1047200)) config))) [
          | inl bad ↦ rw (on, whole, bad, setup_cdc) (λ h. cc)
          | inr (id, read) ↦
              rw (on, whole, read, setup_cdc)
                (λ h. (
                  refl,
                  refl,
                  subst
                      (λ d. position_in d ≡ (
                        if is_truthy (value_or_null (Dict.get "log_file" state))
                        then position_in state
                        else position_or state server.master))
                      (some-injective _ _ h)
                      (set_default-position_in id _ (with_position server state)
                        ∙ chosen-position_in _ server.master state),
                ))
        ]
      ]
    ]
