-- ===== src/Types/Tests.antt =====
-- The theorem on types at a concrete input.
use holypipe.Prelude.{◌≡◌, String, [], ◌∷◌, map, Each}
use holypipe.Models.{StreamSchema}
use holypipe.Connector.Tables.{About, TableRow}
use holypipe.Types.Discovery.{AreSupported, stream_about, pg_discover-mysql_discover}
use holypipe.Postgres.Discover.{
  ColumnRow as PgColumnRow, about_column as pg_about_column, discover as pg_discover,
}
use holypipe.Mysql.Discover.{
  ColumnRow as MysqlColumnRow, about_column as mysql_about_column, discover as mysql_discover,
}
use holypipe.Types.{IsSupported, canonical-IsSupported}
use holypipe.Postgres.Types.{canonical as pg_canonical}
use holypipe.Mysql.Types.{canonical as mysql_canonical}
use holypipe.Sqlite.Types.{canonical as sqlite_canonical}

canonical-IsSupported_example :
    IsSupported (pg_canonical "tinyint(1)")
    × IsSupported (mysql_canonical "tinyint(1)")
    × IsSupported (sqlite_canonical "tinyint(1)")
canonical-IsSupported_example = canonical-IsSupported "tinyint(1)"

abbrev orders_table : TableRow
orders_table = record { schema = "shop"; table = "orders" }

abbrev pg_row : PgColumnRow
pg_row = record {
  table_schema = "shop";
  table_name = "orders";
  column_name = "state";
  data_type = "USER-DEFINED";
  is_nullable = "YES";
  udt_name = "order_state";
}

abbrev mysql_row : MysqlColumnRow
mysql_row = record {
  table_schema = "shop";
  table_name = "orders";
  column_name = "paid";
  data_type = "tinyint";
  is_nullable = "NO";
  column_type = "tinyint(1)";
}

abbrev pk_row : About String
pk_row = record { schema = "shop"; table = "orders"; item = "paid" }

pg_discover-mysql_discover_example :
    let pg_cols = map pg_about_column (pg_row ∷ []) in
    let mysql_cols = map mysql_about_column (mysql_row ∷ []) in
    (pg_discover (orders_table ∷ []) (pg_row ∷ []) (pk_row ∷ [])
      ≡ map (stream_about pg_cols (pk_row ∷ [])) (orders_table ∷ []))
    × (mysql_discover (orders_table ∷ []) (mysql_row ∷ []) (pk_row ∷ [])
        ≡ map (stream_about mysql_cols (pk_row ∷ [])) (orders_table ∷ []))
    × Each
        (λ (s : StreamSchema). AreSupported s.columns)
        (pg_discover (orders_table ∷ []) (pg_row ∷ []) (pk_row ∷ []))
    × Each
        (λ (s : StreamSchema). AreSupported s.columns)
        (mysql_discover (orders_table ∷ []) (mysql_row ∷ []) (pk_row ∷ []))
pg_discover-mysql_discover_example =
    pg_discover-mysql_discover (orders_table ∷ []) (pg_row ∷ []) (mysql_row ∷ []) (pk_row ∷ [])
