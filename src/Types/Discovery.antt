-- ===== src/Types/Discovery.antt =====
-- The streams that the Postgres and the MySQL source discover.
use holypipe.Types.{canonical-IsSupported, IsSupported}
use holypipe.Connector.Grouping.{is_about, items_about}
use Prim.Native.String.{◌++◌ as text_append}
use holypipe.Prelude.{
  ◌≡◌, ◌∙◌, refl, sym, inl, inr, String, some, List, [], ◌∷◌, map, Bool-cases, Each,
}
use holypipe.Connector.Grouping.{items_at-grouped, items_about, is_about}
use holypipe.Postgres.Discover.{
  ColumnRow as PgColumnRow, about_column as pg_about_column, discover as pg_discover,
  native_of as pg_native_of,
}
use holypipe.Mysql.Discover.{
  ColumnRow as MysqlColumnRow, about_column as mysql_about_column, discover as mysql_discover,
}
use mathlib.Core.Path.{subst}
use holypipe.Mysql.Types.{native_of}
use holypipe.Models.{Column, StreamSchema}
use holypipe.Connector.Tables.{About, TableRow, streams_of}

-- The stream of a table, by the rows about it.
abbrev pub stream_about : List (About Column) → List (About String) → TableRow → StreamSchema
stream_about cols pks t = record {
  name = text_append t.schema (text_append "." t.table);
  table = t.table;
  namespace = some t.schema;
  columns = items_about t.schema t.table cols;
  primary_key = items_about t.schema t.table pks;
}

streams_of-stream_about :
    (tables : List TableRow) (cols : List (About Column)) (pks : List (About String))
    → streams_of tables cols pks ≡ map (stream_about cols pks) tables
unfolding streams_of
streams_of-stream_about [] cols pks = refl
streams_of-stream_about (t ∷ tables) cols pks =
    rw
      (
        items_at-grouped t.schema t.table cols [],
        items_at-grouped t.schema t.table pks [],
        streams_of-stream_about tables cols pks,
      )
      refl

abbrev pub AreSupported : List Column → Type 0
AreSupported = Each (λ (c : Column). IsSupported c.type)

items_about-AreSupported :
    {R : Type 0} (about : R → About Column) (schema table : String) (rows : List R)
    → ((row : R) → IsSupported (about row).item.type)
    → AreSupported (items_about schema table (map about rows))
items_about-AreSupported about schema table [] supported = tt
items_about-AreSupported about schema table (row ∷ rows) supported =
    let rest = items_about-AreSupported about schema table rows supported in
    elim (Bool-cases (is_about schema table (about row))) [
      | inl here ↦ rw here (supported row, rest)
      | inr elsewhere ↦ rw elsewhere rest
    ]

streams-AreSupported :
    (cols : List (About Column)) (pks : List (About String)) (tables : List TableRow)
    → ((schema table : String) → AreSupported (items_about schema table cols))
    → Each (λ (s : StreamSchema). AreSupported s.columns) (map (stream_about cols pks) tables)
streams-AreSupported cols pks [] supported = tt
streams-AreSupported cols pks (t ∷ tables) supported =
    (supported t.schema t.table, streams-AreSupported cols pks tables supported)

mysql_discover-streams_of :
    (tables : List TableRow) (rows : List MysqlColumnRow) (pks : List (About String))
    → mysql_discover tables rows pks ≡ streams_of tables (map mysql_about_column rows) pks
unfolding mysql_discover streams_of
mysql_discover-streams_of [] rows pks = refl
mysql_discover-streams_of (t ∷ tables) rows pks = refl

-- The Postgres and the MySQL source make a stream of each table that the server names, in its order:
-- its columns are those that the rows give for this table and no other, in the order of the rows,
-- and so is its primary key. Every column has a type that all destinations can create.
pub pg_discover-mysql_discover :
    (tables : List TableRow) (pg_rows : List PgColumnRow) (mysql_rows : List MysqlColumnRow)
    (pks : List (About String))
    → let pg_cols = map pg_about_column pg_rows in
      let mysql_cols = map mysql_about_column mysql_rows in
      (pg_discover tables pg_rows pks ≡ map (stream_about pg_cols pks) tables)
      × (mysql_discover tables mysql_rows pks ≡ map (stream_about mysql_cols pks) tables)
      × Each (λ (s : StreamSchema). AreSupported s.columns) (pg_discover tables pg_rows pks)
      × Each (λ (s : StreamSchema). AreSupported s.columns) (mysql_discover tables mysql_rows pks)
unfolding pg_discover
pg_discover-mysql_discover tables pg_rows mysql_rows pks =
    let pg_cols = map pg_about_column pg_rows in
    let mysql_cols = map mysql_about_column mysql_rows in
    let pg_same = streams_of-stream_about tables pg_cols pks in
    let mysql_same =
      mysql_discover-streams_of tables mysql_rows pks
      ∙ streams_of-stream_about tables mysql_cols pks in
    (
      pg_same,
      mysql_same,
      subst (Each (λ (s : StreamSchema). AreSupported s.columns)) (sym pg_same) (
          streams-AreSupported pg_cols pks tables (λ schema table.
            items_about-AreSupported pg_about_column schema table pg_rows
              (λ row. (canonical-IsSupported (pg_native_of row)).0))),
      subst (Each (λ (s : StreamSchema). AreSupported s.columns)) (sym mysql_same) (
          streams-AreSupported mysql_cols pks tables (λ schema table.
            items_about-AreSupported mysql_about_column schema table mysql_rows
              (λ row. (canonical-IsSupported (native_of row.data_type row.column_type)).1))),
    )
