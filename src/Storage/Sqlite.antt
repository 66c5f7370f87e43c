-- ===== src/Storage/Sqlite.antt =====
-- src/storage/sqlite_backend.cpp over an interface to SQLite: the tables of one index and how its
-- collections are stored in rows. `Database` is what the code relies on of SQLite; a statement that
-- fails throws, and the transaction around a save is rolled back, so only runs without a failure
-- are modelled. A BLOB is a string of bytes, an int64_t a number below 2^64.
pub mod Kept
pub mod Rows
pub mod Edges
pub mod Grouped
pub mod Separated
pub mod Maps
pub mod Keyed
pub mod Entries
pub mod Embeddings
pub mod Loading
pub mod Index
pub mod Whole
pub mod Frames
pub mod RoundTrip
pub mod Collections
pub mod Memory
mod Tests
use gogol.Prelude.{
  ℕ, ◌≡◌, Bool, true, false, none, some, not, List, [], ◌∷◌, ◌++◌, if◌then◌else◌, keep, get_elem?,
}
use mathlib.Core.List.{Permᴰ}
use gogol.Text.{Bytes, str_eq, codes}

pub data Table : Type 0 where
  entries notes glossary edges exports metrics meta : Table

unfoldable pub same_table : Table → Table → Bool
same_table Table.entries Table.entries = true
same_table Table.notes Table.notes = true
same_table Table.glossary Table.glossary = true
same_table Table.edges Table.edges = true
same_table Table.exports Table.exports = true
same_table Table.metrics Table.metrics = true
same_table Table.meta Table.meta = true
same_table _ _ = false

pub data Value : Type 0 where
  null : Value
  int : ℕ → Value
  text : Bytes → Value
  blob : Bytes → Value

abbrev pub Row : Type 0
Row = List Value

-- The column, null behind the last.
abbrev pub column : ℕ → Row → Value
column i row = elim (get_elem? row i) [ none ↦ null | some v ↦ v ]

-- The first column, where it is the key of its table, as text.
abbrev pub key_of : (Value → Bytes) → Row → Bytes
key_of as_text row = as_text (column 0 row)

-- A new row has a key that no row has, where the schema declares a key.
abbrev pub IsNew : (Value → Bytes) → Table → Row → List Row → Type 0
IsNew as_text Table.notes row rs =
    keep (λ r. str_eq (key_of as_text r) (key_of as_text row)) rs ≡ []
IsNew as_text Table.glossary row rs =
    keep (λ r. str_eq (key_of as_text r) (key_of as_text row)) rs ≡ []
IsNew as_text Table.meta row rs = keep (λ r. str_eq (key_of as_text r) (key_of as_text row)) rs ≡ []
IsNew as_text _ row rs = Unit

-- `rows` are those of a table in the order of their rowids. A SELECT gives the rows that its WHERE
-- accepts, whole, in an order of its own, or with ORDER BY rowid in that of the rowids.
pub record Database : Type 1 where
  pub Db : Type 0
  pub rows : Db → Table → List Row
  pub as_int : Value → ℕ
  pub as_text : Value → Bytes
  pub as_blob : Value → Bytes
  pub insert : Table → Row → Db → Db
  pub replace : Table → Row → Db → Db
  pub delete : Table → (Row → Bool) → Db → Db
  pub select : Table → (Row → Bool) → Db → List Row
  pub select_in_order : Table → Db → List Row
  pub as_int-int : (n : ℕ) → as_int (int n) ≡ n
  pub as_text-text : (s : Bytes) → as_text (text s) ≡ s
  pub as_blob-blob : (s : Bytes) → as_blob (blob s) ≡ s
  pub as_blob-null : as_blob null ≡ []
  pub insert_rows :
      (t : Table) (row : Row) (db : Db)
      → IsNew as_text t row (rows db t)
      → (u : Table)
      → rows (insert t row db) u ≡ (if same_table t u then rows db u ++ row ∷ [] else rows db u)
  pub replace_rows :
      (t : Table) (row : Row) (db : Db) (u : Table)
      → rows (replace t row db) u ≡ (
          if same_table t u
          then keep (λ r. not (str_eq (key_of as_text r) (key_of as_text row))) (rows db u)
            ++ row ∷ []
          else rows db u)
  pub delete_rows :
      (t : Table) (p : Row → Bool) (db : Db) (u : Table)
      → rows (delete t p db) u
        ≡ (if same_table t u then keep (λ row. not (p row)) (rows db u) else rows db u)
  pub select_rows :
      (t : Table) (p : Row → Bool) (db : Db) → Permᴰ (select t p db) (keep p (rows db t))
  pub select_in_order_rows : (t : Table) (db : Db) → select_in_order t db ≡ rows db t

-- The kinds of edges, as in the column `kind`.
pub data EdgeKind : Type 0 where
  call import docref type : EdgeKind

abbrev pub kind_name : EdgeKind → Bytes
kind_name EdgeKind.call = codes "call"
kind_name EdgeKind.import = codes "import"
kind_name EdgeKind.docref = codes "docref"
kind_name EdgeKind.type = codes "type"

module _ (sqlite : Database) where
  open sqlite use {Db, as_int, as_text, insert, delete, select}

  -- One INSERT for each element, with its values bound.
  unfoldable pub insert_all {ℓ} : {A : Type ℓ} → Table → (A → Row) → List A → Db → Db
  insert_all t row [] db = db
  insert_all t row (x ∷ xs) db = insert_all t row xs (insert t (row x) db)

  -- WHERE kind = ?.
  unfoldable pub is_kind : EdgeKind → Row → Bool
  is_kind k row = str_eq (as_text (column 0 row)) (kind_name k)

  unfoldable pub delete_kind : EdgeKind → Db → Db
  unfolding is_kind
  delete_kind k db = delete Table.edges (is_kind k) db

  unfoldable pub select_kind : EdgeKind → Db → List Row
  unfolding is_kind
  select_kind k db = select Table.edges (is_kind k) db
