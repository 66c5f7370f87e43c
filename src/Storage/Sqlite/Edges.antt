-- ===== src/Storage/Sqlite/Edges.antt =====
-- The call and the type graph in the table of edges, with the exported symbols and the metrics in
-- tables of their own.
use gogol.Prelude.{ℕ, ◌%◌, ◌^◌, true, [], ◌∷◌, map}
use gogol.Text.{Bytes}
use gogol.Storage.Calls.{StoredCallEdge, CallGraph}
use gogol.Storage.Types.{StoredTypeEdge, TypeGraph, FunctionMetrics, MetricsStore}
use gogol.Storage.Sqlite.{
  Table, Value, Row, column, Database, EdgeKind, kind_name, insert_all, delete_kind, select_kind,
}

-- A row of `edges`: kind, src, dst, file, line, attrs.
abbrev pub edge_row : EdgeKind → Bytes → Bytes → Value → ℕ → Value → Row
edge_row k src dst file line attrs =
    Value.text (kind_name k) ∷ Value.text src ∷ Value.text dst ∷ file ∷ Value.int line ∷ attrs ∷ []

unfoldable pub call_row : StoredCallEdge → Row
call_row e = edge_row EdgeKind.call e.caller e.callee (Value.text e.file) e.line Value.null

unfoldable pub type_row : StoredTypeEdge → Row
type_row e = edge_row EdgeKind.type e.name e.parent (Value.text e.file) e.line (Value.text e.kind)

unfoldable pub metrics_row : FunctionMetrics → Row
metrics_row m =
    Value.text m.file
    ∷ Value.text m.name
    ∷ Value.int m.complexity
    ∷ Value.int m.lines
    ∷ Value.int m.params
    ∷ Value.int m.returns
    ∷ Value.int m.max_depth
    ∷ Value.int m.line
    ∷ []

module _ (sqlite : Database) where
  open sqlite use {Db, as_int, as_text, delete, select}

  unfoldable pub save_call_graph : CallGraph → Db → Db
  unfolding call_row
  save_call_graph edges db =
      insert_all sqlite Table.edges call_row edges (delete_kind sqlite EdgeKind.call db)

  -- An edge from its row; the line is cut to 32 bits.
  unfoldable pub call_of_row : Row → StoredCallEdge
  call_of_row row = record {
    caller = as_text (column 1 row);
    callee = as_text (column 2 row);
    file = as_text (column 3 row);
    line = as_int (column 4 row) % 2 ^ 32;
  }

  unfoldable pub load_call_graph : Db → CallGraph
  unfolding call_of_row
  load_call_graph db = map call_of_row (select_kind sqlite EdgeKind.call db)

  unfoldable pub save_type_graph : TypeGraph → Db → Db
  unfolding type_row
  save_type_graph edges db =
      insert_all sqlite Table.edges type_row edges (delete_kind sqlite EdgeKind.type db)

  unfoldable pub type_of_row : Row → StoredTypeEdge
  type_of_row row = record {
    name = as_text (column 1 row);
    parent = as_text (column 2 row);
    file = as_text (column 3 row);
    line = as_int (column 4 row) % 2 ^ 32;
    kind = as_text (column 5 row);
  }

  unfoldable pub load_type_graph : Db → TypeGraph
  unfolding type_of_row
  load_type_graph db = map type_of_row (select_kind sqlite EdgeKind.type db)

  unfoldable pub save_metrics : MetricsStore → Db → Db
  unfolding metrics_row
  save_metrics entries db =
      insert_all sqlite Table.metrics metrics_row entries (delete Table.metrics (λ r. true) db)

  -- Each number is cut to the width of its member.
  unfoldable pub metrics_of_row : Row → FunctionMetrics
  metrics_of_row row = record {
    file = as_text (column 0 row);
    name = as_text (column 1 row);
    complexity = as_int (column 2 row) % 2 ^ 16;
    lines = as_int (column 3 row) % 2 ^ 16;
    params = as_int (column 4 row) % 2 ^ 8;
    returns = as_int (column 5 row) % 2 ^ 8;
    max_depth = as_int (column 6 row) % 2 ^ 8;
    line = as_int (column 7 row) % 2 ^ 32;
  }

  unfoldable pub load_metrics : Db → MetricsStore
  unfolding metrics_of_row
  load_metrics db = map metrics_of_row (select Table.metrics (λ r. true) db)
