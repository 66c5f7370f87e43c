-- ===== src/Storage/Sqlite/Maps.antt =====
-- The maps of lists of an index: imports and document references in the table of edges, exported
-- symbols in a table of their own.
use gogol.Prelude.{true, List, [], ◌∷◌, if◌then◌else◌}
use gogol.Text.{Bytes, codes, str_eq}
use gogol.Storage.Imports.{ImportInfo, ImportGraph}
use gogol.Storage.DocRefs.{RefKind, DocRefEdge, DocRefGraph}
use gogol.Storage.Types.{ExportStore}
use gogol.Storage.Sqlite.{Table, Value, Row, column, Database, EdgeKind, delete_kind, select_kind}
use gogol.Storage.Sqlite.Edges.{edge_row}
use gogol.Storage.Sqlite.Grouped.{insert_groups, group}
use gogol.Storage.Sqlite.Separated.{split_sep, join_sep}

unfoldable pub import_row : Bytes → ImportInfo → Row
import_row file imp =
    edge_row EdgeKind.import file imp.module_path Value.null 0 (Value.text (join_sep imp.symbols))

-- std::to_string(static_cast<int>(kind)).
unfoldable pub kind_digit : RefKind → Bytes
kind_digit RefKind.local = codes "0"
kind_digit RefKind.external = codes "1"

unfoldable pub docref_row : Bytes → DocRefEdge → Row
unfolding kind_digit
docref_row file r =
    edge_row EdgeKind.docref file r.target Value.null 0
      (Value.text (join_sep (kind_digit r.kind ∷ r.text ∷ [])))

unfoldable pub export_row : Bytes → Bytes → Row
export_row file sym = Value.text file ∷ Value.text sym ∷ []

-- The kind and the text from the parts of `attrs`.
unfoldable pub kind_of_parts : List Bytes → RefKind
kind_of_parts [] = RefKind.local
kind_of_parts (p ∷ parts) = if str_eq p (codes "1") then RefKind.external else RefKind.local

unfoldable pub text_of_parts : List Bytes → Bytes
text_of_parts (p ∷ t ∷ parts) = t
text_of_parts _ = []

module _ (sqlite : Database) where
  open sqlite use {Db, as_text, delete, select}

  abbrev pub src : Row → Bytes
  src row = as_text (column 1 row)

  unfoldable pub save_import_graph : ImportGraph → Db → Db
  unfolding import_row
  save_import_graph imports db =
      insert_groups sqlite Table.edges import_row imports (delete_kind sqlite EdgeKind.import db)

  unfoldable pub import_of_row : Row → ImportInfo
  import_of_row row = record {
    module_path = as_text (column 2 row);
    symbols = split_sep (as_text (column 5 row));
  }

  unfoldable pub load_import_graph : Db → ImportGraph
  unfolding import_of_row
  load_import_graph db = group src import_of_row [] (select_kind sqlite EdgeKind.import db)

  unfoldable pub save_docref_graph : DocRefGraph → Db → Db
  unfolding docref_row
  save_docref_graph refs db =
      insert_groups sqlite Table.edges docref_row refs (delete_kind sqlite EdgeKind.docref db)

  unfoldable pub docref_of_row : Row → DocRefEdge
  unfolding kind_of_parts text_of_parts
  docref_of_row row =
      let parts = split_sep (as_text (column 5 row)) in
      record {
        kind = kind_of_parts parts;
        target = as_text (column 2 row);
        text = text_of_parts parts;
      }

  unfoldable pub load_docref_graph : Db → DocRefGraph
  unfolding docref_of_row
  load_docref_graph db = group src docref_of_row [] (select_kind sqlite EdgeKind.docref db)

  unfoldable pub save_export_store : ExportStore → Db → Db
  unfolding export_row
  save_export_store exports db =
      insert_groups sqlite Table.exports export_row exports (delete Table.exports (λ r. true) db)

  unfoldable pub load_export_store : Db → ExportStore
  load_export_store db =
      group (λ row. as_text (column 0 row)) (λ row. as_text (column 1 row)) []
        (select Table.exports (λ r. true) db)
