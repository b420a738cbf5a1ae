-- ===== src/Postgres/Discover.antt =====
-- PostgresSource.discover, of the rows that its three queries return.
use holypipe.Prelude.{String, List, map, str_eq, if◌then◌else◌}
use holypipe.Models.{Column, StreamSchema}
use holypipe.Postgres.Types.{canonical}
use holypipe.Connector.Tables.{About, TableRow, streams_of}

pub record ColumnRow : Type 0 where
  pub table_schema : String
  pub table_name : String
  pub column_name : String
  pub data_type : String
  pub is_nullable : String
  pub udt_name : String

abbrev pub native_of : ColumnRow → String
native_of row = if str_eq row.data_type "USER-DEFINED" then row.udt_name else row.data_type

abbrev pub about_column : ColumnRow → About Column
about_column row = record {
  schema = row.table_schema;
  table = row.table_name;
  item = record {
    name = row.column_name;
    type = canonical (native_of row);
    nullable = str_eq row.is_nullable "YES";
    native_type = native_of row;
  };
}

unfoldable pub discover : List TableRow → List ColumnRow → List (About String) → List StreamSchema
unfolding streams_of canonical
discover tables cols pks = streams_of tables (map about_column cols) pks
