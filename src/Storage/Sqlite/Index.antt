-- ===== src/Storage/Sqlite/Index.antt =====
-- save_index and save_index_meta_only, each followed by load_index.
use gogol.Prelude.{
  ℕ, ◌^◌, ◌<◌, ◌≡◌, refl, sym, ap, ap₂, ◌∙◌, Bool, true, false, not, ◌&&◌, List, [], ◌∷◌, ◌++◌, map,
  map-append, All, All-mono, keep, is_nil, ◌==◌, Bool-cases, inl, inr,
}
use gogol.Text.{Bytes, str_eq}
use gogol.Storage.Index.{IndexEntry, Index, new_index}
use gogol.Storage.Sqlite.{Table, same_table, Value, Row, column, Database, insert_all}
use gogol.Storage.Sqlite.Kept.{Permᴰ-keep, keep-same}
use gogol.Storage.Sqlite.Rows.{insert_all-rows, AreNew-keyless}
use gogol.Storage.Sqlite.Keyed.{Permᴰ-nil}
use gogol.Storage.Sqlite.Embeddings.{stored_embedding, embedding_back, embedding_blank}
use gogol.Storage.Sqlite.Entries.{
  embedding_value, embedding_of_blob, entry_row, save_meta, save_index, kept_blob, kept_value,
  save_index_meta_only, entry_of_row, load_index,
}
use gogol.Storage.Sqlite.Loading.{read_meta-save_meta, entry_back}

abbrev pub with_embedding : List ℕ → IndexEntry → IndexEntry
with_embedding v e = record e { embedding = v }

-- The numbers fit their members.
abbrev pub IsStorable : Index → Type 0
IsStorable index =
    (index.dim < 2 ^ 32)
    × All (λ e. (e.line < 2 ^ 32) × (e.end_line < 2 ^ 32) × All (λ x. x < 2 ^ 32) e.embedding)
        index.entries

-- What a saved index is loaded as: the same, with each embedding as far as it is stored.
abbrev pub stored : Index → Index
stored index = record index {
  entries =
      map (λ e. with_embedding (stored_embedding index.dim index.precision e.embedding) e)
        index.entries;
}

map-same {ℓ} :
    {A B : Type ℓ} (f g : A → B) (xs : List A) → All (λ x. f x ≡ g x) xs → map f xs ≡ map g xs
map-same f g [] h = refl
map-same f g (x ∷ xs) h = ap₂ ◌∷◌ h.0 (map-same f g xs h.1)

map-map {ℓ} :
    {A B C : Type ℓ} (g : B → C) (f : A → B) (xs : List A)
    → map g (map f xs) ≡ map (λ x. g (f x)) xs
map-map g f [] = refl
map-map g f (x ∷ xs) = ap (◌∷◌ (g (f x))) (map-map g f xs)

keep-first {ℓ} :
    {A : Type ℓ} (p : A → Bool) (x : A) (xs : List A) → p x ≡ true → keep p (x ∷ xs) ≡ x ∷ keep p xs
keep-first p x xs hit = rw hit refl

cons-ne-nil {ℓ} : {A : Type ℓ} {x : A} {xs : List A} → x ∷ xs ≡ [] → ⊥
cons-ne-nil e = cc

keep-hit {ℓ} :
    {A : Type ℓ} (p : A → Bool) (x : A) (xs : List A) → p x ≡ true → keep p (x ∷ xs) ≡ [] → ⊥
keep-hit p x xs hit h = cons-ne-nil (sym (keep-first p x xs hit) ∙ h)

keep-miss {ℓ} :
    {A : Type ℓ} (p : A → Bool) (x : A) (xs : List A) → p x ≡ false → keep p (x ∷ xs) ≡ keep p xs
keep-miss p x xs miss = rw miss refl

is_nil-eq : (s : Bytes) → is_nil s ≡ true → s ≡ []
is_nil-eq [] h = refl
is_nil-eq (x ∷ s) h = cc

module _ (sqlite : Database) where
  open sqlite use {Db, rows, as_int, as_text, as_blob, select, delete}

  save_meta-entries :
      (index : Index) (db : Db)
      → rows (save_meta sqlite index db) Table.entries ≡ rows db Table.entries
  unfolding save_meta same_table
  save_meta-entries index db =
      sqlite.replace_rows Table.meta _ _ Table.entries
      ∙ sqlite.replace_rows Table.meta _ db Table.entries

  -- A save of the entries with these BLOBs.
  module _ (index : Index) (value : IndexEntry → Value) (db : Db) where
    abbrev emptied : Db
    emptied = save_meta sqlite index (delete Table.entries (λ r. true) db)

    saved : Db
    saved = insert_all sqlite Table.entries (λ e. entry_row (value e) e) index.entries emptied

    saved_rows : rows saved Table.entries ≡ map (λ e. entry_row (value e) e) index.entries
    unfolding same_table saved
    saved_rows =
        insert_all-rows sqlite Table.entries (λ e. entry_row (value e) e) index.entries emptied
          (AreNew-keyless sqlite Table.entries (λ r rs. tt) _ _) Table.entries
        ∙ ap (λ rs. rs ++ map (λ e. entry_row (value e) e) index.entries)
            (save_meta-entries index (delete Table.entries (λ r. true) db)
              ∙ sqlite.delete_rows Table.entries (λ r. true) db Table.entries
              ∙ none_kept (rows db Table.entries))
      where
        none_kept : (rs : List Row) → keep (λ r. not true) rs ≡ []
        none_kept [] = refl
        none_kept (r ∷ rs) = none_kept rs

    saved_meta : rows saved Table.meta ≡ rows emptied Table.meta
    unfolding same_table saved
    saved_meta =
        insert_all-rows sqlite Table.entries (λ e. entry_row (value e) e) index.entries emptied
          (AreNew-keyless sqlite Table.entries (λ r rs. tt) _ _) Table.meta

    -- Any database with these rows of `entries` and `meta` gives the entries with these BLOBs.
    load_saved :
        (db' : Db)
        → rows db' Table.entries ≡ rows saved Table.entries
        → rows db' Table.meta ≡ rows saved Table.meta
        → IsStorable index
        → load_index sqlite db' ≡ record index {
          entries =
              map
                (λ e.
                  with_embedding
                    (embedding_of_blob index.dim index.precision (as_blob (value e)))
                    e)
                index.entries;
        }
    unfolding load_index
    load_saved db' same_entries same_meta h =
        let meta : Index = record new_index { dim = index.dim; precision = index.precision } in
        rw
          (
            read_meta-save_meta sqlite index _ db' h.0 (same_meta ∙ saved_meta),
            sqlite.select_in_order_rows Table.entries db',
            same_entries,
            saved_rows,
          )
          (ap (λ (es : List IndexEntry). record index { entries = es })
            (map-map (entry_of_row sqlite meta) (λ e. entry_row (value e) e) index.entries
              ∙ map-same _ _ index.entries
                  (All-mono (λ e b. entry_back sqlite meta (value e) e b.0 b.1) index.entries h.1)))

  pub load_index-save_index :
      (index : Index) (db db' : Db)
      → rows db' Table.entries ≡ rows (save_index sqlite index db) Table.entries
      → rows db' Table.meta ≡ rows (save_index sqlite index db) Table.meta
      → IsStorable index
      → load_index sqlite db' ≡ stored index
  unfolding save_index saved
  load_index-save_index index db db' same_entries same_meta h =
      load_saved index (λ e. embedding_value index.dim index.precision e.embedding) db db'
        same_entries same_meta h
      ∙ ap (λ (es : List IndexEntry). record index { entries = es })
          (map-same _ _ index.entries (
            All-mono
              (λ e b.
                ap (λ v. with_embedding v e)
                  (embedding_back sqlite index.dim index.precision e.embedding b.2))
              index.entries h.1))

  -- The BLOB that the map `keep` has for an entry.
  unfoldable pub stored_blob : Db → IndexEntry → Bytes
  stored_blob db e = kept_blob sqlite e.path e.line [] (select Table.entries (λ r. true) db)

  -- The embedding that a save of the metadata only leaves to an entry.
  abbrev pub left_embedding : Index → Db → IndexEntry → List ℕ
  left_embedding index db e = embedding_of_blob index.dim index.precision (stored_blob db e)

  kept_embedding :
      (index : Index) (db : Db) (e : IndexEntry)
      → embedding_of_blob index.dim index.precision
          (as_blob (kept_value sqlite (select Table.entries (λ r. true) db) e))
        ≡ left_embedding index db e
  unfolding kept_value stored_blob
  kept_embedding index db e = elim (Bool-cases (is_nil (stored_blob db e))) [
    | inl blank ↦ rw (blank, sqlite.as_blob-null, is_nil-eq _ blank) refl
    | inr full ↦ rw (full, sqlite.as_blob-blob) refl
  ]

  load_index-save_index_meta_only :
      (index : Index) (db : Db)
      → IsStorable index
      → load_index sqlite (save_index_meta_only sqlite index db) ≡ record index {
        entries = map (λ e. with_embedding (left_embedding index db e) e) index.entries;
      }
  unfolding save_index_meta_only saved
  load_index-save_index_meta_only index db h =
      load_saved index (kept_value sqlite (select Table.entries (λ r. true) db)) db _ refl refl h
      ∙ ap (λ (es : List IndexEntry). record index { entries = es })
          (map-same _ _ index.entries (
            All-mono (λ e b. ap (λ v. with_embedding v e) (kept_embedding index db e)) index.entries
              h.1))

  -- Whether a row has a BLOB for the path and the line of an entry.
  unfoldable pub is_row_of : IndexEntry → Row → Bool
  is_row_of e row =
      not (is_nil (as_blob (column 6 row)))
      && (str_eq (as_text (column 1 row)) e.path && as_int (column 3 row) == e.line)

  kept_blob-none :
      (e : IndexEntry) (found : Bytes) (rs : List Row)
      → keep (is_row_of e) rs ≡ []
      → kept_blob sqlite e.path e.line found rs ≡ found
  unfolding kept_blob is_row_of
  kept_blob-none e found [] h = refl
  kept_blob-none e found (row ∷ rs) h = elim (Bool-cases (is_row_of e row)) [
    | inl hit ↦ absurd (keep-hit (is_row_of e) row rs hit h)
    | inr miss ↦ rw miss (kept_blob-none e found rs (sym (keep-miss (is_row_of e) row rs miss) ∙ h))
  ]

  -- After a save of the metadata only, of an index that the columns can hold, an entry with no row of
  -- its path and line in the database before is loaded without an embedding, whatever embedding it
  -- had in the index and wherever it stands there.
  pub meta_only-loses :
      (index : Index) (es more : List IndexEntry) (e : IndexEntry) (db : Db)
      → index.entries ≡ es ++ e ∷ more
      → IsStorable index
      → keep (is_row_of e) (rows db Table.entries) ≡ []
      → (load_index sqlite (save_index_meta_only sqlite index db)).entries
        ≡ map (λ e. with_embedding (left_embedding index db e) e) es
          ++ with_embedding [] e ∷ map (λ e. with_embedding (left_embedding index db e) e) more
  unfolding stored_blob
  meta_only-loses index es more e db shape h absent =
      ap (λ (i : Index). i.entries) (load_index-save_index_meta_only index db h)
      ∙ ap (map (λ e. with_embedding (left_embedding index db e) e)) shape
      ∙ map-append (λ e. with_embedding (left_embedding index db e) e) es (e ∷ more)
      ∙ ap
          (λ v.
            map (λ e. with_embedding (left_embedding index db e) e) es
            ++ with_embedding v e ∷ map (λ e. with_embedding (left_embedding index db e) e) more)
          (ap (embedding_of_blob index.dim index.precision) no_blob
            ∙ embedding_blank index.dim index.precision)
    where
      no_blob : stored_blob db e ≡ []
      no_blob = kept_blob-none e [] _ (
          Permᴰ-nil (Permᴰ-keep (is_row_of e) (sqlite.select_rows Table.entries (λ r. true) db))
            (keep-same (is_row_of e) (λ r. true) (λ r hit. refl) (rows db Table.entries) ∙ absent))
