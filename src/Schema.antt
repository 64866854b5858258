-- ===== src/Schema.antt =====
-- The tables of the database: src/alembic/versions, which makes them step by step, and relay/db/models.py,
-- which declares them. This module has what a revision is written in.
pub mod Tables
pub mod Revisions
pub mod Models
pub mod Catalogue
pub mod Frame
pub mod Undo
pub mod Agrees
mod Tests
use Prim.Native.String.{String}
use web_hooks.Base.{Bool, true, false, Option, none, some, List}

pub data ColumnType : Type 0 where
  uuid text integer big_integer timestamp jsonb text_array : ColumnType
  numeric_10_6 : ColumnType

-- `ForeignKey("table.column", ondelete="CASCADE")`
pub record Reference : Type 0 where
  pub table : String
  pub column : String

pub record Column : Type 0 where
  pub name : String
  pub type : ColumnType
  pub nullable : Bool
  pub primary_key : Bool
  pub unique : Bool
  pub identity : Bool
  pub server_default : Option String
  pub references : Option Reference

-- `CHECK (column IN (values))`
pub record Check : Type 0 where
  pub name : String
  pub column : String
  pub values : List String

-- A unique constraint or an index over columns.
pub record Columns : Type 0 where
  pub name : String
  pub columns : List String

pub record Table : Type 0 where
  pub name : String
  pub columns : List Column
  pub checks : List Check
  pub uniques : List Columns
  pub indexes : List Columns

-- A column that must have a value.
abbrev pub required : String → ColumnType → Column
required name type = record {
  name = name;
  type = type;
  nullable = false;
  primary_key = false;
  unique = false;
  identity = false;
  server_default = none;
  references = none;
}

abbrev pub optional : String → ColumnType → Column
optional name type = record (required name type) { nullable = true }

abbrev pub defaulting : String → ColumnType → String → Column
defaulting name type value = record (required name type) { server_default = some value }

-- `sa.Column("id", postgresql.UUID(as_uuid=True), primary_key=True)`
abbrev pub uuid_key : Column
uuid_key = record (required "id" uuid) { primary_key = true }

abbrev pub foreign : String → String → Column
foreign name table = record (required name uuid) {
  references = some (record { table = table; column = "id" });
}

abbrev pub created : String → Column
created name = defaulting name timestamp "now()"

-- The operations of `alembic.op` that the revisions use.
pub data Ddl : Type 0 where
  create_table : Table → Ddl
  drop_table : String → Ddl
  add_column : (table : String) → Column → Ddl
  drop_column : (table column : String) → Ddl
  create_index : (table : String) → Columns → Ddl

-- A revision, and what undoes it.
pub record Revision : Type 0 where
  pub revision : String
  pub down_revision : Option String
  pub upgrade : List Ddl
  pub downgrade : List Ddl
