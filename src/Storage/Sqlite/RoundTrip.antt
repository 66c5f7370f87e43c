-- ===== src/Storage/Sqlite/RoundTrip.antt =====
-- load_all after save_all.
use mathlib.Core.List.{Permᴰ}
use gogol.Prelude.{
  ℕ, ◌%◌, ◌^◌, ◌<◌, ◌≡◌, refl, ap, ◌∙◌, true, false, List, [], ◌∷◌, map, keep, All, All-mono, subst,
  arith,
}
use gogol.Text.{Bytes, str_eq}
use gogol.Text.Segments.{HasNone}
use gogol.Dict.{Dict, get, distinct_keys}
use gogol.Storage.Calls.{CallGraph}
use gogol.Storage.Imports.{ImportInfo, ImportGraph}
use gogol.Storage.DocRefs.{RefKind, DocRefEdge, DocRefGraph}
use gogol.Storage.Types.{TypeGraph, FunctionMetrics, MetricsStore, ExportStore}
use gogol.Storage.Sqlite.{Table, Row, column, Database, EdgeKind, is_kind, select_kind}
use gogol.Storage.Sqlite.Kept.{Permᴰ-map, map-cancel}
use gogol.Storage.Sqlite.Edges.{
  call_row, call_of_row, load_call_graph, type_row, type_of_row, load_type_graph, metrics_row,
  metrics_of_row, load_metrics,
}
use gogol.Storage.Sqlite.Maps.{
  import_row, import_of_row, load_import_graph, docref_row, docref_of_row, kind_digit,
  kind_of_parts, text_of_parts, load_docref_graph, export_row, load_export_store, src,
}
use gogol.Storage.Sqlite.Grouped.{at, flat, group-flat}
use gogol.Storage.Sqlite.Keyed.{
  MemEntry, note_row, note_of_row, load_mem, term_row, load_glossary, get-fill-rows, row_key,
}
use gogol.Storage.Sqlite.Separated.{sep, is_lone_blank, split_sep, join_sep, split_sep-join_sep}
use gogol.Storage.Sqlite.Frames.{edges_of, flat_row, every-All}

-- A list that fits in one column.
abbrev pub IsColumn : List Bytes → Type 0
IsColumn v = All (HasNone sep) v × (is_lone_blank v ≡ false)

abbrev pub FitsMetrics : FunctionMetrics → Type 0
FitsMetrics m =
    (m.complexity < 2 ^ 16)
    × (m.lines < 2 ^ 16)
    × (m.params < 2 ^ 8)
    × (m.returns < 2 ^ 8)
    × (m.max_depth < 2 ^ 8)
    × (m.line < 2 ^ 32)

word8 : (n : ℕ) → n < 2 ^ 8 → n % 2 ^ 8 ≡ n
word8 n h = omega arith

word16 : (n : ℕ) → n < 2 ^ 16 → n % 2 ^ 16 ≡ n
word16 n h = omega arith

word32 : (n : ℕ) → n < 2 ^ 32 → n % 2 ^ 32 ≡ n
word32 n h = omega arith

module _ (sqlite : Database) where
  open sqlite use {Db, rows, as_int, as_text, select}

  selected_kind :
      (k : EdgeKind) (db : Db) (rs : List Row)
      → edges_of sqlite k db ≡ rs
      → Permᴰ (select_kind sqlite k db) rs
  unfolding select_kind
  selected_kind k db rs e = subst (Permᴰ _) e (sqlite.select_rows Table.edges (is_kind sqlite k) db)

  all_kept : (rs : List Row) → keep (λ r. true) rs ≡ rs
  all_kept [] = refl
  all_kept (r ∷ rs) = ap (◌∷◌ r) (all_kept rs)

  selected_all :
      (t : Table) (db : Db) (rs : List Row) → rows db t ≡ rs → Permᴰ (select t (λ r. true) db) rs
  selected_all t db rs e =
      subst (Permᴰ _) (all_kept (rows db t) ∙ e) (sqlite.select_rows t (λ r. true) db)

  -- Elements that are read back from their rows, in the order of a SELECT.
  read_back {ℓ} :
      {A : Type ℓ} (row : A → Row) (of_row : Row → A) (xs : List A) {rs : List Row}
      → All (λ x. of_row (row x) ≡ x) xs
      → Permᴰ rs (map row xs)
      → Permᴰ (map of_row rs) xs
  read_back row of_row xs back perm =
      subst (Permᴰ _) (map-cancel row of_row xs back) (Permᴰ-map of_row perm)

  pub calls_back :
      (g : CallGraph) (db : Db)
      → edges_of sqlite EdgeKind.call db ≡ map call_row g
      → All (λ e. e.line < 2 ^ 32) g
      → Permᴰ (load_call_graph sqlite db) g
  unfolding load_call_graph call_of_row call_row
  calls_back g db e bounds =
      read_back call_row (call_of_row sqlite) g
        (All-mono
          (λ c b.
            rw
              (
                sqlite.as_text-text c.caller,
                sqlite.as_text-text c.callee,
                sqlite.as_text-text c.file,
                sqlite.as_int-int c.line,
              )
              (ap (λ n. record c { line = n }) (word32 c.line b)))
          g bounds)
        (selected_kind EdgeKind.call db _ e)

  pub types_back :
      (g : TypeGraph) (db : Db)
      → edges_of sqlite EdgeKind.type db ≡ map type_row g
      → All (λ e. e.line < 2 ^ 32) g
      → Permᴰ (load_type_graph sqlite db) g
  unfolding load_type_graph type_of_row type_row
  types_back g db e bounds =
      read_back type_row (type_of_row sqlite) g
        (All-mono
          (λ c b.
            rw
              (
                sqlite.as_text-text c.name,
                sqlite.as_text-text c.parent,
                sqlite.as_text-text c.file,
                sqlite.as_text-text c.kind,
                sqlite.as_int-int c.line,
              )
              (ap (λ n. record c { line = n }) (word32 c.line b)))
          g bounds)
        (selected_kind EdgeKind.type db _ e)

  metrics_of_row-metrics_row :
      (m : FunctionMetrics) → FitsMetrics m → metrics_of_row sqlite (metrics_row m) ≡ m
  unfolding metrics_of_row metrics_row
  metrics_of_row-metrics_row m (c, l, p, r, d, n) =
      rw
        (
          sqlite.as_text-text m.file,
          sqlite.as_text-text m.name,
          sqlite.as_int-int m.complexity,
          sqlite.as_int-int m.lines,
          sqlite.as_int-int m.params,
          sqlite.as_int-int m.returns,
          sqlite.as_int-int m.max_depth,
          sqlite.as_int-int m.line,
          word16 m.complexity c,
          word16 m.lines l,
          word8 m.params p,
          word8 m.returns r,
          word8 m.max_depth d,
          word32 m.line n,
        )
        refl

  pub metrics_back :
      (g : MetricsStore) (db : Db)
      → rows db Table.metrics ≡ map metrics_row g
      → All FitsMetrics g
      → Permᴰ (load_metrics sqlite db) g
  unfolding load_metrics
  metrics_back g db e fits =
      read_back metrics_row (metrics_of_row sqlite) g (All-mono metrics_of_row-metrics_row g fits)
        (selected_all Table.metrics db _ e)

  pub imports_back :
      (g : ImportGraph) (db : Db)
      → edges_of sqlite EdgeKind.import db ≡ map (flat_row sqlite import_row) (flat g)
      → distinct_keys g ≡ true
      → All (λ (p : Bytes × ImportInfo). IsColumn p.1.symbols) (flat g)
      → (file : Bytes) → Permᴰ (at file (load_import_graph sqlite db)) (at file g)
  unfolding load_import_graph import_of_row import_row
  imports_back g db e keys fits =
      group-flat (src sqlite) (import_of_row sqlite) import_row g _ keys
        (selected_kind EdgeKind.import db _ e)
        (All-mono
          (λ p fit. (
            sqlite.as_text-text p.0,
            rw (sqlite.as_text-text p.1.module_path, sqlite.as_text-text _)
                (ap (λ v. record p.1 { symbols = v }) (split_sep-join_sep p.1.symbols fit.0 fit.1)),
          ))
          (flat g) fits)

  attrs_back :
      (e : DocRefEdge)
      → HasNone sep e.text
      → split_sep (join_sep (kind_digit e.kind ∷ e.text ∷ [])) ≡ kind_digit e.kind ∷ e.text ∷ []
  unfolding kind_digit
  attrs_back e h = split_sep-join_sep _ (digit e.kind, (h, tt)) refl
    where
      digit : (k : RefKind) → HasNone sep (kind_digit k)
      digit RefKind.local = refl
      digit RefKind.external = refl

  kind_back : (k : RefKind) (t : Bytes) → kind_of_parts (kind_digit k ∷ t ∷ []) ≡ k
  unfolding kind_of_parts kind_digit str_eq
  kind_back RefKind.local t = refl
  kind_back RefKind.external t = refl

  pub docrefs_back :
      (g : DocRefGraph) (db : Db)
      → edges_of sqlite EdgeKind.docref db ≡ map (flat_row sqlite docref_row) (flat g)
      → distinct_keys g ≡ true
      → All (λ (p : Bytes × DocRefEdge). HasNone sep p.1.text) (flat g)
      → (file : Bytes) → Permᴰ (at file (load_docref_graph sqlite db)) (at file g)
  unfolding load_docref_graph docref_of_row docref_row
  docrefs_back g db e keys fits =
      group-flat (src sqlite) (docref_of_row sqlite) docref_row g _ keys
        (selected_kind EdgeKind.docref db _ e)
        (All-mono
          (λ p fit. (
            sqlite.as_text-text p.0,
            rw
                (
                  sqlite.as_text-text p.1.target,
                  sqlite.as_text-text _,
                  attrs_back p.1 fit,
                  text_of_parts,
                )
                (ap (λ k. record p.1 { kind = k }) (kind_back p.1.kind p.1.text)),
          ))
          (flat g) fits)

  pub exports_back :
      (g : ExportStore) (db : Db)
      → rows db Table.exports ≡ map (flat_row sqlite export_row) (flat g)
      → distinct_keys g ≡ true
      → (file : Bytes) → Permᴰ (at file (load_export_store sqlite db)) (at file g)
  unfolding load_export_store export_row
  exports_back g db e keys =
      group-flat (λ row. as_text (column 0 row)) (λ row. as_text (column 1 row)) export_row g _ keys
        (selected_all Table.exports db _ e)
        (every-All (flat g) (λ p. (sqlite.as_text-text p.0, sqlite.as_text-text p.1)))

  pub mem_back :
      (m : Dict MemEntry) (db : Db)
      → rows db Table.notes ≡ map note_row m
      → distinct_keys m ≡ true
      → All (λ (p : Bytes × MemEntry). IsColumn p.1.sources) m
      → (topic : Bytes) → get topic (load_mem sqlite db) ≡ get topic m
  unfolding load_mem note_of_row note_row
  mem_back m db e keys fits =
      get-fill-rows (row_key sqlite) (note_of_row sqlite) note_row m _ keys
        (All-mono
          (λ p fit. (
            sqlite.as_text-text p.0,
            rw
                (
                  sqlite.as_text-text p.1.content,
                  sqlite.as_int-int p.1.timestamp,
                  sqlite.as_text-text _,
                )
                (ap (λ v. record p.1 { sources = v }) (split_sep-join_sep p.1.sources fit.0 fit.1)),
          ))
          m fits)
        (selected_all Table.notes db _ e)

  pub glossary_back :
      (m : Dict Bytes) (db : Db)
      → rows db Table.glossary ≡ map term_row m
      → distinct_keys m ≡ true
      → (term : Bytes) → get term (load_glossary sqlite db) ≡ get term m
  unfolding load_glossary term_row
  glossary_back m db e keys =
      get-fill-rows (row_key sqlite) (λ row. as_text (column 1 row)) term_row m _ keys
        (every-All m (λ p. (sqlite.as_text-text p.0, sqlite.as_text-text p.1)))
        (selected_all Table.glossary db _ e)
