-- ===== src/Mysql/Discover.antt =====
-- MysqlSource.discover, of the rows that its three queries return, the one for the tables of the
-- configured database or of all that are not the server's.
use holypipe.Prelude.{String, List, [], ◌∷◌, map, str_eq}
use holypipe.Models.{Column, StreamSchema}
use holypipe.Mysql.Types.{canonical, native_of}
use holypipe.Connector.Tables.{About, TableRow, streams_of}

pub record ColumnRow : Type 0 where
  pub table_schema : String
  pub table_name : String
  pub column_name : String
  pub data_type : String
  pub is_nullable : String
  pub column_type : String

abbrev pub about_column : ColumnRow → About Column
about_column row = record {
  schema = row.table_schema;
  table = row.table_name;
  item = record {
    name = row.column_name;
    type = canonical (native_of row.data_type row.column_type);
    nullable = str_eq row.is_nullable "YES";
    native_type = native_of row.data_type row.column_type;
  };
}

-- Without tables the code asks no further and returns none.
unfoldable pub discover : List TableRow → List ColumnRow → List (About String) → List StreamSchema
unfolding streams_of canonical native_of
discover [] cols pks = []
discover (t ∷ tables) cols pks = streams_of (t ∷ tables) (map about_column cols) pks
