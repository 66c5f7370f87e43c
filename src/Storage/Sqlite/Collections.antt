-- ===== src/Storage/Sqlite/Collections.antt =====
-- load_all after save_all, for all collections at once.
use mathlib.Core.List.{Permᴰ}
use gogol.Prelude.{◌^◌, ◌<◌, ◌≡◌, refl, ap, ◌∙◌, true, false, All, keep}
use gogol.Text.{Bytes}
use gogol.Text.Segments.{HasNone}
use gogol.Dict.{get, distinct_keys}
use gogol.Storage.Imports.{ImportInfo}
use gogol.Storage.DocRefs.{DocRefEdge}
use gogol.Storage.Sqlite.{Table, same_table, Database, EdgeKind, is_kind}
use gogol.Storage.Sqlite.Edges.{save_call_graph, save_type_graph, save_metrics}
use gogol.Storage.Sqlite.Maps.{save_import_graph, save_docref_graph, save_export_store}
use gogol.Storage.Sqlite.Keyed.{MemEntry, save_mem, save_glossary}
use gogol.Storage.Sqlite.Entries.{save_index}
use gogol.Storage.Sqlite.Index.{IsStorable, stored, load_index-save_index}
use gogol.Storage.Sqlite.Grouped.{at, flat}
use gogol.Storage.Sqlite.Separated.{sep}
use gogol.Storage.Sqlite.Frames.{
  edges_of, Keeps, mem_rows, mem-Keeps, glossary_rows, glossary-Keeps, metrics_rows, metrics-Keeps,
  exports_rows, exports-Keeps, call_edges, call-Keeps, type_edges, type-Keeps, import_edges,
  import-Keeps, docref_edges, docref-Keeps,
}
use gogol.Storage.Sqlite.RoundTrip.{
  IsColumn, FitsMetrics, calls_back, types_back, metrics_back, imports_back, docrefs_back,
  exports_back, mem_back, glossary_back,
}
use gogol.Storage.Sqlite.Whole.{IndexData, save_all, load_all}

-- What the columns can hold: numbers within their members, maps with distinct keys, and lists of
-- strings without the separator of their column.
pub record IsStorableData (d : IndexData) : Type 0 where
  pub index : IsStorable d.index
  pub mem_keys : distinct_keys d.mem ≡ true
  pub mem_sources : All (λ (p : Bytes × MemEntry). IsColumn p.1.sources) d.mem
  pub glossary_keys : distinct_keys d.glossary ≡ true
  pub call_lines : All (λ e. e.line < 2 ^ 32) d.calls
  pub import_keys : distinct_keys d.imports ≡ true
  pub import_symbols : All (λ (p : Bytes × ImportInfo). IsColumn p.1.symbols) (flat d.imports)
  pub docref_keys : distinct_keys d.docrefs ≡ true
  pub docref_texts : All (λ (p : Bytes × DocRefEdge). HasNone sep p.1.text) (flat d.docrefs)
  pub export_keys : distinct_keys d.exports ≡ true
  pub type_lines : All (λ e. e.line < 2 ^ 32) d.types
  pub metrics_fit : All FitsMetrics d.metrics

-- The same data: the entries in order, with their embeddings as far as they are stored; each key of
-- the maps with the same value; the edges, and the values of each file, up to their order.
pub record IsSame (loaded d : IndexData) : Type 0 where
  pub index : loaded.index ≡ stored d.index
  pub mem : (topic : Bytes) → get topic loaded.mem ≡ get topic d.mem
  pub glossary : (term : Bytes) → get term loaded.glossary ≡ get term d.glossary
  pub calls : Permᴰ loaded.calls d.calls
  pub imports : (file : Bytes) → Permᴰ (at file loaded.imports) (at file d.imports)
  pub docrefs : (file : Bytes) → Permᴰ (at file loaded.docrefs) (at file d.docrefs)
  pub exports : (file : Bytes) → Permᴰ (at file loaded.exports) (at file d.exports)
  pub types : Permᴰ loaded.types d.types
  pub metrics : Permᴰ loaded.metrics d.metrics

module _ (sqlite : Database) (d : IndexData) (db : sqlite.Db) (h : IsStorableData d) where
  open sqlite use {Db, rows}

  abbrev db1 : Db
  db1 = save_index sqlite d.index db

  abbrev db2 : Db
  db2 = save_mem sqlite d.mem db1

  abbrev db3 : Db
  db3 = save_glossary sqlite d.glossary db2

  abbrev db4 : Db
  db4 = save_call_graph sqlite d.calls db3

  abbrev db5 : Db
  db5 = save_import_graph sqlite d.imports db4

  abbrev db6 : Db
  db6 = save_docref_graph sqlite d.docrefs db5

  abbrev db7 : Db
  db7 = save_export_store sqlite d.exports db6

  abbrev db8 : Db
  db8 = save_type_graph sqlite d.types db7

  abbrev db9 : Db
  db9 = save_metrics sqlite d.metrics db8

  -- A table that only the saves up to the glossary write.
  from_glossary :
      (u : Table)
      → same_table Table.edges u ≡ false
      → same_table Table.exports u ≡ false
      → same_table Table.metrics u ≡ false
      → Keeps sqlite u db9 db3
  from_glossary u edges exports metrics =
      metrics-Keeps sqlite d.metrics db8 u metrics
      ∙ type-Keeps sqlite d.types db7 u edges
      ∙ exports-Keeps sqlite d.exports db6 u exports
      ∙ docref-Keeps sqlite d.docrefs db5 u edges
      ∙ import-Keeps sqlite d.imports db4 u edges
      ∙ call-Keeps sqlite d.calls db3 u edges

  -- The edges behind the last save.
  last_edges : (k : EdgeKind) → edges_of sqlite k db9 ≡ edges_of sqlite k db8
  unfolding same_table
  last_edges k = ap (keep (is_kind sqlite k)) (metrics-Keeps sqlite d.metrics db8 Table.edges refl)

  -- The edges of the exports' save, which are those of the document references' save.
  export_edges : (k : EdgeKind) → edges_of sqlite k db7 ≡ edges_of sqlite k db6
  unfolding same_table
  export_edges k =
      ap (keep (is_kind sqlite k)) (exports-Keeps sqlite d.exports db6 Table.edges refl)

  -- For the data of an index whose maps have each key once and whose numbers and lists fit in their
  -- columns (IsStorableData), load_all after save_all gives: the entries of the index in order, each
  -- with what is stored of its embedding, that is, its first values by the dimension of the index, in
  -- half precision if the index has that, and nothing of a shorter one; the same notes and terms; the
  -- same edges, exports and metrics up to order.
  pub load_all-save_all : IsSame (load_all sqlite (save_all sqlite d db)) d
  unfolding load_all save_all same_table
  load_all-save_all = record {
    index =
        load_index-save_index sqlite d.index db db9
          (from_glossary Table.entries refl refl refl
            ∙ glossary-Keeps sqlite d.glossary db2 h.glossary_keys Table.entries refl
            ∙ mem-Keeps sqlite d.mem db1 h.mem_keys Table.entries refl)
          (from_glossary Table.meta refl refl refl
            ∙ glossary-Keeps sqlite d.glossary db2 h.glossary_keys Table.meta refl
            ∙ mem-Keeps sqlite d.mem db1 h.mem_keys Table.meta refl)
          h.index;
    mem =
        mem_back sqlite d.mem db9
          (from_glossary Table.notes refl refl refl
            ∙ glossary-Keeps sqlite d.glossary db2 h.glossary_keys Table.notes refl
            ∙ mem_rows sqlite d.mem db1 h.mem_keys)
          h.mem_keys h.mem_sources;
    glossary =
        glossary_back sqlite d.glossary db9
          (from_glossary Table.glossary refl refl refl
            ∙ glossary_rows sqlite d.glossary db2 h.glossary_keys)
          h.glossary_keys;
    calls =
        calls_back sqlite d.calls db9
          (last_edges EdgeKind.call
            ∙ type_edges sqlite d.types db7 EdgeKind.call
            ∙ export_edges EdgeKind.call
            ∙ docref_edges sqlite d.docrefs db5 EdgeKind.call
            ∙ import_edges sqlite d.imports db4 EdgeKind.call
            ∙ call_edges sqlite d.calls db3 EdgeKind.call)
          h.call_lines;
    imports =
        imports_back sqlite d.imports db9
          (last_edges EdgeKind.import
            ∙ type_edges sqlite d.types db7 EdgeKind.import
            ∙ export_edges EdgeKind.import
            ∙ docref_edges sqlite d.docrefs db5 EdgeKind.import
            ∙ import_edges sqlite d.imports db4 EdgeKind.import)
          h.import_keys h.import_symbols;
    docrefs =
        docrefs_back sqlite d.docrefs db9
          (last_edges EdgeKind.docref
            ∙ type_edges sqlite d.types db7 EdgeKind.docref
            ∙ export_edges EdgeKind.docref
            ∙ docref_edges sqlite d.docrefs db5 EdgeKind.docref)
          h.docref_keys h.docref_texts;
    exports =
        exports_back sqlite d.exports db9
          (metrics-Keeps sqlite d.metrics db8 Table.exports refl
            ∙ type-Keeps sqlite d.types db7 Table.exports refl
            ∙ exports_rows sqlite d.exports db6)
          h.export_keys;
    types =
        types_back sqlite d.types db9
          (last_edges EdgeKind.type ∙ type_edges sqlite d.types db7 EdgeKind.type) h.type_lines;
    metrics = metrics_back sqlite d.metrics db9 (metrics_rows sqlite d.metrics db8) h.metrics_fit;
  }
