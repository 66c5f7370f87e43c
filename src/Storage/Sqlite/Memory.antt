-- ===== src/Storage/Sqlite/Memory.antt =====
-- Tables in memory: a database with the behaviour that the interface asks for.
use mathlib.Core.List.Permᴰ
use gogol.Prelude.{ℕ, refl, not, List, [], ◌∷◌, ◌++◌, if◌then◌else◌, keep}
use gogol.Text.{Bytes, str_eq}
use gogol.Storage.Sqlite.{Table, same_table, Value, Row, key_of, Database}

abbrev pub Tables : Type 0
Tables = Table → List Row

abbrev pub no_rows : Tables
no_rows t = []

abbrev int_of : Value → ℕ
int_of (Value.int n) = n
int_of _ = 0

abbrev text_of : Value → Bytes
text_of (Value.text s) = s
text_of _ = []

abbrev blob_of : Value → Bytes
blob_of (Value.blob s) = s
blob_of _ = []

abbrev pub memory : Database
memory = record {
  Db = Tables;
  rows = λ db t. db t;
  as_int = int_of;
  as_text = text_of;
  as_blob = blob_of;
  insert = λ t row db u. if same_table t u then db u ++ row ∷ [] else db u;
  replace = λ t row db u.
      if same_table t u
      then keep (λ r. not (str_eq (key_of text_of r) (key_of text_of row))) (db u) ++ row ∷ []
      else db u;
  delete = λ t p db u. if same_table t u then keep (λ row. not (p row)) (db u) else db u;
  select = λ t p db. keep p (db t);
  select_in_order = λ t db. db t;
  as_int-int = λ n. refl;
  as_text-text = λ s. refl;
  as_blob-blob = λ s. refl;
  as_blob-null = refl;
  insert_rows = λ t row db new u. refl;
  replace_rows = λ t row db u. refl;
  delete_rows = λ t p db u. refl;
  select_rows = λ t p db. Permᴰ.refl (keep p (db t));
  select_in_order_rows = λ t db. refl;
}
