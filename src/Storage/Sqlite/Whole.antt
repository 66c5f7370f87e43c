-- ===== src/Storage/Sqlite/Whole.antt =====
-- save_all and load_all: every collection of an index (IndexData of src/storage/index_data.h).
use gogol.Text.{Bytes}
use gogol.Dict.{Dict}
use gogol.Storage.Index.{Index}
use gogol.Storage.Calls.{CallGraph}
use gogol.Storage.Imports.{ImportGraph}
use gogol.Storage.DocRefs.{DocRefGraph}
use gogol.Storage.Types.{TypeGraph, MetricsStore, ExportStore}
use gogol.Storage.Sqlite.{Database}
use gogol.Storage.Sqlite.Edges.{
  save_call_graph, load_call_graph, save_type_graph, load_type_graph, save_metrics, load_metrics,
}
use gogol.Storage.Sqlite.Maps.{
  save_import_graph, load_import_graph, save_docref_graph, load_docref_graph, save_export_store,
  load_export_store,
}
use gogol.Storage.Sqlite.Keyed.{MemEntry, save_mem, load_mem, save_glossary, load_glossary}
use gogol.Storage.Sqlite.Entries.{save_index, load_index}

pub record IndexData : Type 0 where
  pub index : Index
  pub mem : Dict MemEntry
  pub glossary : Dict Bytes
  pub calls : CallGraph
  pub imports : ImportGraph
  pub docrefs : DocRefGraph
  pub exports : ExportStore
  pub types : TypeGraph
  pub metrics : MetricsStore

module _ (sqlite : Database) where
  open sqlite use {Db}

  unfoldable pub save_all : IndexData → Db → Db
  unfolding save_index save_mem save_glossary save_call_graph save_import_graph save_docref_graph
      save_export_store save_type_graph save_metrics
  save_all d db =
      let db1 =
        save_glossary sqlite d.glossary (save_mem sqlite d.mem (save_index sqlite d.index db)) in
      let db2 =
        save_docref_graph sqlite d.docrefs
          (save_import_graph sqlite d.imports (save_call_graph sqlite d.calls db1)) in
      save_metrics sqlite d.metrics
        (save_type_graph sqlite d.types (save_export_store sqlite d.exports db2))

  unfoldable pub load_all : Db → IndexData
  unfolding load_index load_mem load_glossary load_call_graph load_import_graph load_docref_graph
      load_export_store load_type_graph load_metrics
  load_all db = record {
    index = load_index sqlite db;
    mem = load_mem sqlite db;
    glossary = load_glossary sqlite db;
    calls = load_call_graph sqlite db;
    imports = load_import_graph sqlite db;
    docrefs = load_docref_graph sqlite db;
    exports = load_export_store sqlite db;
    types = load_type_graph sqlite db;
    metrics = load_metrics sqlite db;
  }
