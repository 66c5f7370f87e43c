-- ===== src/Storage/Sqlite/Entries.antt =====
-- The entries of an index with their embeddings: save_index, save_index_meta_only, load_index.
use gogol.Prelude.{
  ℕ, ◌+◌, ◌-◌, ◌*◌, ◌/◌, ◌%◌, ◌^◌, true, not, ◌&&◌, List, [], ◌∷◌, ◌++◌, map, ltb, leb, ◌==◌,
  if◌then◌else◌, is_nil, length, take, replicate,
}
use gogol.Text.{Bytes, codes, str_eq}
use gogol.Loc.{EntryType}
use gogol.Config.Global.{EmbedPrecision}
use gogol.Rpc.Buffer.{le32}
use gogol.Storage.Half.{float_to_f16, f16_to_float}
use gogol.Storage.Index.{IndexEntry, Index, new_index}
use gogol.Storage.Sqlite.{Table, Value, Row, column, Database, insert_all}

-- static_cast<int64_t> of an enum and back; only these three values are stored.
unfoldable pub proto_code : EntryType → ℕ
proto_code EntryType.doc = 0
proto_code EntryType.note = 1
proto_code EntryType.term = 2

unfoldable pub proto_of_code : ℕ → EntryType
proto_of_code n =
    if n == 1 then EntryType.note else if n == 2 then EntryType.term else EntryType.doc

unfoldable pub precision_code : EmbedPrecision → ℕ
precision_code EmbedPrecision.f32 = 0
precision_code EmbedPrecision.f16 = 1

unfoldable pub precision_of_code : ℕ → EmbedPrecision
precision_of_code n = if n == 1 then EmbedPrecision.f16 else EmbedPrecision.f32

-- The bytes of a vector of uint16_t and of float, and the vector that the bytes are read as.
unfoldable pub half_bytes : List ℕ → Bytes
half_bytes [] = []
half_bytes (h ∷ hs) = h % 256 ∷ h / 256 % 256 ∷ half_bytes hs

unfoldable pub halves : Bytes → List ℕ
halves (a ∷ b ∷ s) = (a + 256 * b) ∷ halves s
halves _ = []

unfoldable pub float_bytes : List ℕ → Bytes
float_bytes [] = []
float_bytes (x ∷ xs) = le32 x ++ float_bytes xs

unfoldable pub floats : Bytes → List ℕ
floats (a ∷ b ∷ c ∷ d ∷ s) = (a + 256 * b + 65536 * c + 16777216 * d) ∷ floats s
floats _ = []

-- The BLOB of an embedding, null where it is shorter than the dimension.
unfoldable pub embedding_value : ℕ → EmbedPrecision → List ℕ → Value
unfolding half_bytes float_bytes
embedding_value dim precision e =
    if ltb 0 dim && leb dim (length e)
    then elim precision [
      | EmbedPrecision.f16 ↦ Value.blob (half_bytes (map float_to_f16 (take dim e)))
      | EmbedPrecision.f32 ↦ Value.blob (float_bytes (take dim e))
    ]
    else Value.null

-- A vector of `dim` zeros whose front is overwritten.
unfoldable pub resized : ℕ → List ℕ → List ℕ
resized dim xs = let front = take dim xs in front ++ replicate (dim - length front) 0

unfoldable pub embedding_of_blob : ℕ → EmbedPrecision → Bytes → List ℕ
unfolding halves floats resized
embedding_of_blob dim precision s =
    if ltb 0 dim && not (is_nil s)
    then elim precision [
      | EmbedPrecision.f16 ↦ resized dim (map f16_to_float (halves s))
      | EmbedPrecision.f32 ↦ resized dim (floats s)
    ]
    else []

-- A row of `entries`: proto, path, chunk, line, end_line, hash, embedding.
unfoldable pub entry_row : Value → IndexEntry → Row
unfolding proto_code
entry_row embedding e =
    Value.int (proto_code e.proto)
    ∷ Value.text e.path
    ∷ Value.text e.chunk
    ∷ Value.int e.line
    ∷ Value.int e.end_line
    ∷ Value.int e.hash
    ∷ embedding
    ∷ []

module _ (sqlite : Database) where
  open sqlite use {Db, as_int, as_text, as_blob, replace, delete, select, select_in_order}

  unfoldable pub save_meta : Index → Db → Db
  unfolding precision_code
  save_meta index db =
      let db' = replace Table.meta (Value.text (codes "dim") ∷ Value.int index.dim ∷ []) db in
      replace Table.meta
        (Value.text (codes "precision") ∷ Value.int (precision_code index.precision) ∷ []) db'

  -- Without the rebuild of the keyword table entries_fts at the end, which no load reads.
  unfoldable pub save_index : Index → Db → Db
  unfolding entry_row embedding_value save_meta
  save_index index db =
      let db' = save_meta index (delete Table.entries (λ r. true) db) in
      insert_all sqlite Table.entries
        (λ e. entry_row (embedding_value index.dim index.precision e.embedding) e) index.entries db'

  -- keep[{path, line}]: the BLOB that the last of the rows with one put there.
  unfoldable pub kept_blob : Bytes → ℕ → Bytes → List Row → Bytes
  kept_blob path line found [] = found
  kept_blob path line found (row ∷ rs) =
      let s = as_blob (column 6 row) in
      let here = str_eq (as_text (column 1 row)) path && as_int (column 3 row) == line in
      kept_blob path line (if not (is_nil s) && here then s else found) rs

  -- The BLOB of an entry of the map `keep`, null where it has none.
  unfoldable pub kept_value : List Row → IndexEntry → Value
  unfolding kept_blob
  kept_value rs e =
      let s = kept_blob e.path e.line [] rs in if is_nil s then Value.null else Value.blob s

  unfoldable pub save_index_meta_only : Index → Db → Db
  unfolding entry_row kept_value save_meta
  save_index_meta_only index db =
      let rs = select Table.entries (λ r. true) db in
      let db' = save_meta index (delete Table.entries (λ r. true) db) in
      insert_all sqlite Table.entries (λ e. entry_row (kept_value rs e) e) index.entries db'

  -- dim and precision, each as the last of its rows says.
  unfoldable pub read_meta : Index → List Row → Index
  unfolding precision_of_code
  read_meta idx [] = idx
  read_meta idx (row ∷ rs) =
      let k = as_text (column 0 row) in
      let v = as_int (column 1 row) in
      read_meta
        (if str_eq k (codes "dim")
          then record idx { dim = v % 2 ^ 32 }
          else if str_eq k (codes "precision")
          then record idx { precision = precision_of_code v }
          else idx)
        rs

  unfoldable pub entry_of_row : Index → Row → IndexEntry
  unfolding proto_of_code embedding_of_blob
  entry_of_row idx row = record {
    proto = proto_of_code (as_int (column 0 row));
    path = as_text (column 1 row);
    chunk = as_text (column 2 row);
    line = as_int (column 3 row) % 2 ^ 32;
    end_line = as_int (column 4 row) % 2 ^ 32;
    hash = as_int (column 5 row);
    embedding = embedding_of_blob idx.dim idx.precision (as_blob (column 6 row));
  }

  unfoldable pub load_index : Db → Index
  unfolding read_meta entry_of_row
  load_index db =
      let idx = read_meta new_index (select Table.meta (λ r. true) db) in
      record idx { entries = map (entry_of_row idx) (select_in_order Table.entries db) }
