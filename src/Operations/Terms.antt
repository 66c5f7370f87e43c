-- ===== src/Operations/Terms.antt =====
-- What op_get finds after op_add and op_rm: terms and notes.
use gogol.Prelude.{◌≡◌, refl, ◌∙◌, true, none, some, List, [], ◌∷◌, All, if◌then◌else◌}
use gogol.Text.{Bytes, str_eq}
use gogol.Dict.{Dict, get, put, get-put, get-erase, erase, All-put, All-erase}
use gogol.Dict.Order.{is_sorted, is_sorted-put, is_sorted-erase, distinct_keys-is_sorted}
use gogol.Storage.Sqlite.{Table, Row, column, Database}
use gogol.Storage.Sqlite.Keyed.{
  MemEntry, fill, row_key, note_of_row, load_mem, save_mem, load_glossary, save_glossary,
}
use gogol.Storage.Sqlite.Frames.{mem_rows, glossary_rows}
use gogol.Storage.Sqlite.RoundTrip.{IsColumn, mem_back, glossary_back}
use gogol.Storage.Sqlite.Separated.{split_sep-columns}

fill-is_sorted {ℓ} :
    {V : Type ℓ} (key : Row → Bytes) (value : Row → V) (m : Dict V) (rs : List Row)
    → is_sorted m ≡ true
    → is_sorted (fill key value m rs) ≡ true
unfolding fill
fill-is_sorted key value m [] h = h
fill-is_sorted key value m (row ∷ rs) h =
    fill-is_sorted key value (put (key row) (value row) m) rs
      (is_sorted-put (key row) (value row) m h)

fill-All :
    {V : Type 0} (P : Bytes × V → Type 0) (key : Row → Bytes) (value : Row → V) (m : Dict V)
    (rs : List Row)
    → ((row : Row) → P (key row, value row))
    → All P m
    → All P (fill key value m rs)
unfolding fill
fill-All P key value m [] each h = h
fill-All P key value m (row ∷ rs) each h =
    fill-All P key value (put (key row) (value row) m) rs each
      (All-put P (key row) (value row) m (each row) h)

module _ (sqlite : Database) where
  open sqlite use {Db}

  pub glossary-is_sorted : (db : Db) → is_sorted (load_glossary sqlite db) ≡ true
  unfolding load_glossary is_sorted
  glossary-is_sorted db =
      fill-is_sorted (row_key sqlite) (λ row. sqlite.as_text (column 1 row)) []
        (sqlite.select Table.glossary (λ r. true) db) refl

  -- A glossary that is stored is the one that is loaded, key by key.
  pub get-load_glossary :
      (m : Dict Bytes) (db : Db)
      → is_sorted m ≡ true
      → (term : Bytes) → get term (load_glossary sqlite (save_glossary sqlite m db)) ≡ get term m
  get-load_glossary m db h term =
      let keys = distinct_keys-is_sorted m h in
      glossary_back sqlite m (save_glossary sqlite m db) (glossary_rows sqlite m db keys) keys term

  pub mem-is_sorted : (db : Db) → is_sorted (load_mem sqlite db) ≡ true
  unfolding load_mem is_sorted
  mem-is_sorted db =
      fill-is_sorted (row_key sqlite) (note_of_row sqlite) []
        (sqlite.select Table.notes (λ r. true) db) refl

  abbrev pub HasColumn : Bytes × MemEntry → Type 0
  HasColumn p = IsColumn p.1.sources

  mem-HasColumn : (db : Db) → All HasColumn (load_mem sqlite db)
  unfolding load_mem note_of_row
  mem-HasColumn db =
      fill-All HasColumn (row_key sqlite) (note_of_row sqlite) []
        (sqlite.select Table.notes (λ r. true) db)
        (λ row. split_sep-columns (sqlite.as_text (column 3 row))) tt

  -- Notes that are stored are those that are loaded, key by key.
  pub get-load_mem :
      (m : Dict MemEntry) (db : Db)
      → is_sorted m ≡ true
      → All HasColumn m
      → (topic : Bytes) → get topic (load_mem sqlite (save_mem sqlite m db)) ≡ get topic m
  get-load_mem m db h columns topic =
      let keys = distinct_keys-is_sorted m h in
      mem_back sqlite m (save_mem sqlite m db) (mem_rows sqlite m db keys) keys columns topic

  -- The glossary of a database behind a change of one term.
  pub get-put_term :
      (db : Db) (topic content term : Bytes)
      → get term (
          load_glossary sqlite
            (save_glossary sqlite (put topic content (load_glossary sqlite db)) db))
        ≡ (if str_eq term topic then some content else get term (load_glossary sqlite db))
  get-put_term db topic content term =
      get-load_glossary (put topic content (load_glossary sqlite db)) db
        (is_sorted-put topic content _ (glossary-is_sorted db)) term
      ∙ get-put term topic content (load_glossary sqlite db)

  pub get-erase_term :
      (db : Db) (topic term : Bytes)
      → get term
          (load_glossary sqlite (save_glossary sqlite (erase topic (load_glossary sqlite db)) db))
        ≡ (if str_eq term topic then none else get term (load_glossary sqlite db))
  get-erase_term db topic term =
      get-load_glossary (erase topic (load_glossary sqlite db)) db
        (is_sorted-erase topic _ (glossary-is_sorted db)) term
      ∙ get-erase term topic (load_glossary sqlite db)

  pub get-put_note :
      (db : Db) (topic : Bytes) (entry : MemEntry)
      → IsColumn entry.sources
      → (key : Bytes)
      → get key (load_mem sqlite (save_mem sqlite (put topic entry (load_mem sqlite db)) db))
        ≡ (if str_eq key topic then some entry else get key (load_mem sqlite db))
  get-put_note db topic entry column key =
      get-load_mem (put topic entry (load_mem sqlite db)) db
        (is_sorted-put topic entry _ (mem-is_sorted db))
        (All-put HasColumn topic entry _ column (mem-HasColumn db)) key
      ∙ get-put key topic entry (load_mem sqlite db)

  pub get-erase_note :
      (db : Db) (topic key : Bytes)
      → get key (load_mem sqlite (save_mem sqlite (erase topic (load_mem sqlite db)) db))
        ≡ (if str_eq key topic then none else get key (load_mem sqlite db))
  get-erase_note db topic key =
      get-load_mem (erase topic (load_mem sqlite db)) db
        (is_sorted-erase topic _ (mem-is_sorted db))
        (All-erase HasColumn topic _ (mem-HasColumn db)) key
      ∙ get-erase key topic (load_mem sqlite db)
