-- ===== src/Storage/Sqlite/Frames.antt =====
-- Each save changes the rows of its own table, and of the edges those of its own kind.
use gogol.Prelude.{
  ◌≡◌, refl, ap, ◌∙◌, true, false, not, List, [], ◌∷◌, map, keep, if◌then◌else◌, All,
}
use gogol.Text.{Bytes}
use gogol.Dict.{Dict, distinct_keys}
use gogol.Storage.Calls.{StoredCallEdge}
use gogol.Storage.Imports.{ImportInfo}
use gogol.Storage.DocRefs.{DocRefEdge}
use gogol.Storage.Types.{StoredTypeEdge, FunctionMetrics}
use gogol.Storage.Sqlite.{
  Table, same_table, Row, Database, EdgeKind, kind_name, column, insert_all, is_kind,
}
use gogol.Storage.Sqlite.Rows.{
  AreNew, AreNew-keyless, insert_all-rows, kind_rows, other_rows, same_kind,
}
use gogol.Storage.Sqlite.Grouped.{insert_groups-flat, flat}
use gogol.Storage.Sqlite.Edges.{
  call_row, type_row, metrics_row, save_call_graph, save_type_graph, save_metrics,
}
use gogol.Storage.Sqlite.Maps.{
  import_row, docref_row, export_row, save_import_graph, save_docref_graph, save_export_store,
}
use gogol.Storage.Sqlite.Keyed.{MemEntry, note_row, term_row, save_mem, save_glossary, AreNew-keyed}

pub every-All {ℓ κ} : {A : Type ℓ} {P : A → Type κ} (xs : List A) → ((x : A) → P x) → All P xs
every-All [] h = tt
every-All (x ∷ xs) h = (h x, every-All xs h)

module _ (sqlite : Database) where
  open sqlite use {Db, rows, as_text, delete}

  none_kept : (rs : List Row) → keep (λ r. not true) rs ≡ []
  none_kept [] = refl
  none_kept (r ∷ rs) = none_kept rs

  -- A table emptied and filled again.
  module _ {ℓ} {A : Type ℓ} (t : Table) (row : A → Row) (xs : List A) (db : Db)
      (fresh : AreNew sqlite t (map row xs) []) where
    abbrev refilled : Db
    refilled = insert_all sqlite t row xs (delete t (λ r. true) db)

    emptied_rows : same_table t t ≡ true → rows (delete t (λ r. true) db) t ≡ []
    emptied_rows e = sqlite.delete_rows t (λ r. true) db t ∙ rw e (none_kept (rows db t))

    refilled_rows : same_table t t ≡ true → rows refilled t ≡ map row xs
    refilled_rows e =
        insert_all-rows sqlite t row xs (delete t (λ r. true) db) (rw (emptied_rows e) fresh) t
        ∙ rw (e, emptied_rows e) refl

    refilled_others :
        same_table t t ≡ true → (u : Table) → same_table t u ≡ false → rows refilled u ≡ rows db u
    refilled_others e u other =
        insert_all-rows sqlite t row xs (delete t (λ r. true) db) (rw (emptied_rows e) fresh) u
        ∙ rw other (sqlite.delete_rows t (λ r. true) db u ∙ rw other refl)

  -- The rows of `u` are those before.
  abbrev pub Keeps : Table → Db → Db → Type 0
  Keeps u db' db = rows db' u ≡ rows db u

  module _ (m : Dict MemEntry) (db : Db) (h : distinct_keys m ≡ true) where
    notes_fresh : AreNew sqlite Table.notes (map note_row m) []
    unfolding note_row
    notes_fresh =
        AreNew-keyed sqlite Table.notes note_row (λ r rs e. e) m [] h
          (every-All m (λ p. sqlite.as_text-text p.0)) (every-All m (λ p. refl))

    pub mem_rows : rows (save_mem sqlite m db) Table.notes ≡ map note_row m
    unfolding save_mem same_table
    mem_rows = refilled_rows Table.notes note_row m db notes_fresh refl

    pub mem-Keeps :
        (u : Table) → same_table Table.notes u ≡ false → Keeps u (save_mem sqlite m db) db
    unfolding save_mem same_table
    mem-Keeps = refilled_others Table.notes note_row m db notes_fresh refl

  module _ (m : Dict Bytes) (db : Db) (h : distinct_keys m ≡ true) where
    terms_fresh : AreNew sqlite Table.glossary (map term_row m) []
    unfolding term_row
    terms_fresh =
        AreNew-keyed sqlite Table.glossary term_row (λ r rs e. e) m [] h
          (every-All m (λ p. sqlite.as_text-text p.0)) (every-All m (λ p. refl))

    pub glossary_rows : rows (save_glossary sqlite m db) Table.glossary ≡ map term_row m
    unfolding save_glossary same_table
    glossary_rows = refilled_rows Table.glossary term_row m db terms_fresh refl

    pub glossary-Keeps :
        (u : Table) → same_table Table.glossary u ≡ false → Keeps u (save_glossary sqlite m db) db
    unfolding save_glossary same_table
    glossary-Keeps = refilled_others Table.glossary term_row m db terms_fresh refl

  module _ (entries : List FunctionMetrics) (db : Db) where
    metrics_fresh : AreNew sqlite Table.metrics (map metrics_row entries) []
    metrics_fresh = AreNew-keyless sqlite Table.metrics (λ r rs. tt) _ _

    pub metrics_rows : rows (save_metrics sqlite entries db) Table.metrics ≡ map metrics_row entries
    unfolding save_metrics same_table
    metrics_rows = refilled_rows Table.metrics metrics_row entries db metrics_fresh refl

    pub metrics-Keeps :
        (u : Table)
        → same_table Table.metrics u ≡ false
        → Keeps u (save_metrics sqlite entries db) db
    unfolding save_metrics same_table
    metrics-Keeps = refilled_others Table.metrics metrics_row entries db metrics_fresh refl

  -- The rows of a map of lists.
  abbrev pub flat_row {ℓ} : {V : Type ℓ} → (Bytes → V → Row) → Bytes × V → Row
  flat_row row p = row p.0 p.1

  module _ (exports : Dict (List Bytes)) (db : Db) where
    exports_fresh : AreNew sqlite Table.exports (map (flat_row export_row) (flat exports)) []
    exports_fresh = AreNew-keyless sqlite Table.exports (λ r rs. tt) _ _

    pub exports_rows :
        rows (save_export_store sqlite exports db) Table.exports
        ≡ map (flat_row export_row) (flat exports)
    unfolding save_export_store same_table
    exports_rows =
        ap (λ d. rows d Table.exports)
          (insert_groups-flat sqlite Table.exports export_row exports _)
        ∙ refilled_rows Table.exports (flat_row export_row) (flat exports) db exports_fresh refl

    pub exports-Keeps :
        (u : Table)
        → same_table Table.exports u ≡ false
        → Keeps u (save_export_store sqlite exports db) db
    unfolding save_export_store same_table
    exports-Keeps u e =
        ap (λ d. rows d u) (insert_groups-flat sqlite Table.exports export_row exports _)
        ∙ refilled_others Table.exports (flat_row export_row) (flat exports) db exports_fresh refl u
            e

  -- The edges of a kind.
  abbrev pub edges_of : EdgeKind → Db → List Row
  edges_of k db = keep (is_kind sqlite k) (rows db Table.edges)

  module _ (g : List StoredCallEdge) (db : Db) where
    call_kind : (e : StoredCallEdge) → as_text (column 0 (call_row e)) ≡ kind_name EdgeKind.call
    unfolding call_row
    call_kind e = sqlite.as_text-text _

    pub call_edges :
        (k : EdgeKind)
        → edges_of k (save_call_graph sqlite g db)
          ≡ (if same_kind EdgeKind.call k then map call_row g else edges_of k db)
    unfolding save_call_graph
    call_edges = kind_rows sqlite EdgeKind.call call_row call_kind g db

    pub call-Keeps :
        (u : Table) → same_table Table.edges u ≡ false → Keeps u (save_call_graph sqlite g db) db
    unfolding save_call_graph
    call-Keeps = other_rows sqlite EdgeKind.call call_row call_kind g db

  module _ (g : List StoredTypeEdge) (db : Db) where
    type_kind : (e : StoredTypeEdge) → as_text (column 0 (type_row e)) ≡ kind_name EdgeKind.type
    unfolding type_row
    type_kind e = sqlite.as_text-text _

    pub type_edges :
        (k : EdgeKind)
        → edges_of k (save_type_graph sqlite g db)
          ≡ (if same_kind EdgeKind.type k then map type_row g else edges_of k db)
    unfolding save_type_graph
    type_edges = kind_rows sqlite EdgeKind.type type_row type_kind g db

    pub type-Keeps :
        (u : Table) → same_table Table.edges u ≡ false → Keeps u (save_type_graph sqlite g db) db
    unfolding save_type_graph
    type-Keeps = other_rows sqlite EdgeKind.type type_row type_kind g db

  module _ (imports : Dict (List ImportInfo)) (db : Db) where
    import_kind :
        (p : Bytes × ImportInfo)
        → as_text (column 0 (flat_row import_row p)) ≡ kind_name EdgeKind.import
    unfolding import_row
    import_kind p = sqlite.as_text-text _

    pub import_edges :
        (k : EdgeKind)
        → edges_of k (save_import_graph sqlite imports db) ≡ (
            if same_kind EdgeKind.import k
            then map (flat_row import_row) (flat imports)
            else edges_of k db)
    unfolding save_import_graph
    import_edges k =
        ap (edges_of k) (insert_groups-flat sqlite Table.edges import_row imports _)
        ∙ kind_rows sqlite EdgeKind.import (flat_row import_row) import_kind (flat imports) db k

    pub import-Keeps :
        (u : Table)
        → same_table Table.edges u ≡ false
        → Keeps u (save_import_graph sqlite imports db) db
    unfolding save_import_graph
    import-Keeps u e =
        ap (λ d. rows d u) (insert_groups-flat sqlite Table.edges import_row imports _)
        ∙ other_rows sqlite EdgeKind.import (flat_row import_row) import_kind (flat imports) db u e

  module _ (refs : Dict (List DocRefEdge)) (db : Db) where
    docref_kind :
        (p : Bytes × DocRefEdge)
        → as_text (column 0 (flat_row docref_row p)) ≡ kind_name EdgeKind.docref
    unfolding docref_row
    docref_kind p = sqlite.as_text-text _

    pub docref_edges :
        (k : EdgeKind)
        → edges_of k (save_docref_graph sqlite refs db) ≡ (
            if same_kind EdgeKind.docref k
            then map (flat_row docref_row) (flat refs)
            else edges_of k db)
    unfolding save_docref_graph
    docref_edges k =
        ap (edges_of k) (insert_groups-flat sqlite Table.edges docref_row refs _)
        ∙ kind_rows sqlite EdgeKind.docref (flat_row docref_row) docref_kind (flat refs) db k

    pub docref-Keeps :
        (u : Table)
        → same_table Table.edges u ≡ false
        → Keeps u (save_docref_graph sqlite refs db) db
    unfolding save_docref_graph
    docref-Keeps u e =
        ap (λ d. rows d u) (insert_groups-flat sqlite Table.edges docref_row refs _)
        ∙ other_rows sqlite EdgeKind.docref (flat_row docref_row) docref_kind (flat refs) db u e
