-- ===== src/Sync/Shadow.antt =====
-- Which tables a full refresh touches, and in which order.
use holypipe.Prelude.{not, ◌≡◌, String, Bool, true, false, Option, List, ◌++◌, all, str_eq}
use holypipe.Connector.{Call, prepare, truncate, write, delete, swap_in}
use holypipe.Sync.{Job, Env, Progress, write_table, save_cursor, close_stream}

-- A call that builds up this table.
abbrev pub loads : String → Call → Bool
loads table (prepare t namespace schema) = str_eq t table
loads table (truncate t namespace) = str_eq t table
loads table (write t namespace columns rows pk mode) = str_eq t table
loads table (delete t namespace pk keys soft) = false
loads table (swap_in t namespace shadow) = false

-- The calls made since only build up this table.
record Grows (table : String) (before after : List Call) : Type 0 where
  pub since : List Call
  pub only : all (loads table) since ≡ true
  pub splits : after ≡ since ++ before

module _ (env : Env) (namespace : Option String) (job : Job) where
  abbrev Builds : (Progress → Progress × Bool) → Type 0
  Builds k = (p : Progress) → Grows (write_table job) p.calls (k p).0.calls

abbrev closes : Job → Progress → Progress × Bool
closes job p = (close_stream job (save_cursor job p), true)

-- A call that has this table as its target.
abbrev pub targets : String → Call → Bool
targets table (prepare t namespace schema) = str_eq t table
targets table (truncate t namespace) = str_eq t table
targets table (write t namespace columns rows pk mode) = str_eq t table
targets table (delete t namespace pk keys soft) = str_eq t table
targets table (swap_in t namespace shadow) = str_eq t table

-- The calls made since build up one table, and none of them has the other as its target.
pub record GrowsApart (table other : String) (before after : List Call) : Type 0 where
  pub since : List Call
  pub only : all (loads table) since ≡ true
  pub apart : all (λ c. not (targets other c)) since ≡ true
  pub splits : after ≡ since ++ before
