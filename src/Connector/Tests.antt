-- ===== src/Connector/Tests.antt =====
-- The theorems on the connectors' shared helpers at concrete inputs.
use holypipe.Prelude.{false, true, some, [], ◌∷◌}
use holypipe.Models.{StreamSchema}
use holypipe.Connector.{false}

abbrev pub orders : StreamSchema
orders = record {
  name = "public.orders";
  table = "orders";
  namespace = some "public";
  columns =
      record { name = "id"; type = "integer"; nullable = false; native_type = "int4" }
      ∷ record { name = "note"; type = "string"; nullable = true; native_type = "text" }
      ∷ record { name = "at"; type = "timestamp"; nullable = true; native_type = "timestamptz" }
      ∷ [];
  primary_key = "id" ∷ [];
}
