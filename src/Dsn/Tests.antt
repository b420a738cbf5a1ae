-- ===== src/Dsn/Tests.antt =====
-- The theorem on connection strings at a concrete input.
use holypipe.Prelude.Int.{pos}
use holypipe.Dsn.Fields.{parse_dsn-Reaches, Reaches}
use holypipe.Models.{int, text, Value}
use holypipe.Prelude.{refl, none, some, [], ◌∷◌}
use holypipe.Dict.{Dict}
use holypipe.Dsn.{strip, Urls, parse_dsn, no_port}

-- What the URL library answers for one address.
abbrev one_address : Urls
one_address = record {
  urlparse = λ s. some (record {
    scheme = "postgresql";
    hostname = some "db";
    port = no_port;
    path = "/shop";
    username = some "ann";
    password = none;
    query = "sslmode=require";
  });
  unquote = λ s. s;
  parse_qs = λ s. ("sslmode", "require" ∷ []) ∷ [];
  int_of = λ s. none;
}

abbrev shop_config : Dict Value
shop_config =
    ("host", text "db")
    ∷ ("port", int (pos 5432))
    ∷ ("database", text "shop")
    ∷ ("username", text "ann")
    ∷ ("password", text "")
    ∷ ("sslmode", text "require")
    ∷ []

parse_dsn-Reaches_example :
    Reaches one_address "postgres" (strip " postgresql://ann@db/shop?sslmode=require") shop_config
unfolding parse_dsn
parse_dsn-Reaches_example =
    parse_dsn-Reaches one_address "postgres" " postgresql://ann@db/shop?sslmode=require" shop_config
      refl
