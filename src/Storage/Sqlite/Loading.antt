-- ===== src/Storage/Sqlite/Loading.antt =====
-- What load_index reads after save_index, and after save_index_meta_only.

use gogol.Prelude.{
  ℕ, ◌%◌, ◌^◌, ◌<◌, ◌≡◌, refl, ap, ◌∙◌, Bool, true, false, not, List, [], ◌∷◌, ◌++◌, arith, keep,
  Bool-cases, inl, inr, append-nil,
}
use gogol.Text.{Bytes, codes, str_eq, str_eq_refl, str_eq-apart}
use gogol.Loc.{EntryType}
use gogol.Config.Global.{EmbedPrecision}
use gogol.Storage.Index.{IndexEntry, Index, new_index}
use gogol.Storage.Sqlite.{Table, same_table, Value, Row, column, Database}
use gogol.Storage.Sqlite.Kept.{keep-append, keep-none, keep-same, Permᴰ-keep, not-false, not-true}
use gogol.Storage.Sqlite.Keyed.{Permᴰ-single}
use gogol.Storage.Sqlite.Entries.{
  proto_code, proto_of_code, precision_code, precision_of_code, embedding_of_blob, entry_row,
  save_meta, read_meta, entry_of_row,
}

proto_of_code-proto_code : (t : EntryType) → proto_of_code (proto_code t) ≡ t
unfolding proto_of_code proto_code
proto_of_code-proto_code EntryType.doc = refl
proto_of_code-proto_code EntryType.note = refl
proto_of_code-proto_code EntryType.term = refl

precision_of_code-precision_code : (p : EmbedPrecision) → precision_of_code (precision_code p) ≡ p
unfolding precision_of_code precision_code
precision_of_code-precision_code EmbedPrecision.f32 = refl
precision_of_code-precision_code EmbedPrecision.f16 = refl

dim-ne : str_eq (codes "dim") (codes "precision") ≡ false
unfolding str_eq
dim-ne = refl

precision-ne : str_eq (codes "precision") (codes "dim") ≡ false
unfolding str_eq
precision-ne = refl

module _ (sqlite : Database) where
  open sqlite use {Db, rows, as_int, as_text, as_blob, select, replace, delete}

  is_key : Bytes → Row → Bool
  is_key k row = str_eq (as_text (column 0 row)) k

  -- After INSERT OR REPLACE a key has its new row alone, and another key the rows it had.
  module _ (k : Bytes) (rest : Row) (db : Db) where
    replaced :
        rows (replace Table.meta (Value.text k ∷ rest) db) Table.meta
        ≡ keep (λ r. not (is_key k r)) (rows db Table.meta) ++ (Value.text k ∷ rest) ∷ []
    unfolding is_key same_table
    replaced =
        sqlite.replace_rows Table.meta (Value.text k ∷ rest) db Table.meta
        ∙ rw (sqlite.as_text-text k) refl

    replaced_same :
        keep (is_key k) (rows (replace Table.meta (Value.text k ∷ rest) db) Table.meta)
        ≡ (Value.text k ∷ rest) ∷ []
    unfolding is_key
    replaced_same =
        rw (replaced, keep-append (is_key k))
          (rw
            (keep-none (is_key k) (λ r. not (is_key k r)) (λ r h. not-false _ h)
              (rows db Table.meta))
            (rw (sqlite.as_text-text k, str_eq_refl k) refl))

    replaced_other :
        (k' : Bytes)
        → str_eq k k' ≡ false
        → keep (is_key k') (rows (replace Table.meta (Value.text k ∷ rest) db) Table.meta)
          ≡ keep (is_key k') (rows db Table.meta)
    unfolding is_key
    replaced_other k' e =
        rw (replaced, keep-append (is_key k'))
          (rw
            (keep-same (is_key k') (λ r. not (is_key k r))
              (λ r h. not-true _ (str_eq-apart k k' _ e h)) (rows db Table.meta))
            (rw (sqlite.as_text-text k, e) (append-nil _)))

  last_dim : ℕ → List Row → ℕ
  last_dim d [] = d
  last_dim d (row ∷ rs) = last_dim (as_int (column 1 row) % 2 ^ 32) rs

  last_precision : EmbedPrecision → List Row → EmbedPrecision
  last_precision p [] = p
  last_precision p (row ∷ rs) = last_precision (precision_of_code (as_int (column 1 row))) rs

  -- What the loop over the rows of `meta` finds.
  read_meta-last :
      (idx : Index) (rs : List Row)
      → read_meta sqlite idx rs ≡ record {
        dim = last_dim idx.dim (keep (is_key (codes "dim")) rs);
        precision = last_precision idx.precision (keep (is_key (codes "precision")) rs);
        entries = idx.entries;
      }
  unfolding read_meta is_key last_dim last_precision
  read_meta-last idx [] = refl
  read_meta-last idx (row ∷ rs) =
      let k = as_text (column 0 row) in
      elim (Bool-cases (str_eq k (codes "dim"))) [
        | inl e ↦ elim (Bool-cases (str_eq k (codes "precision"))) [
          | inl f ↦
              absurd (ground (arith, str_eq-apart (codes "dim") (codes "precision") k dim-ne f, e))
          | inr f ↦
              rw (e, f) (read_meta-last (record idx { dim = as_int (column 1 row) % 2 ^ 32 }) rs)
        ]
        | inr e ↦ elim (Bool-cases (str_eq k (codes "precision"))) [
          | inl f ↦
              rw (e, f)
                (read_meta-last
                  (record idx { precision = precision_of_code (as_int (column 1 row)) }) rs)
          | inr f ↦ rw (e, f) (read_meta-last idx rs)
        ]
      ]

  -- A key with one row is found, whatever the order of the SELECT.
  key_selected :
      (k : Bytes) (row : Row) (db : Db)
      → keep (is_key k) (rows db Table.meta) ≡ row ∷ []
      → keep (is_key k) (select Table.meta (λ r. true) db) ≡ row ∷ []
  key_selected k row db e =
      Permᴰ-single row (Permᴰ-keep (is_key k) (sqlite.select_rows Table.meta (λ r. true) db))
        (keep-same (is_key k) (λ r. true) (λ r h. refl) (rows db Table.meta) ∙ e)

  abbrev dim_row : Index → Row
  dim_row index = Value.text (codes "dim") ∷ Value.int index.dim ∷ []

  abbrev precision_row : Index → Row
  precision_row index =
      Value.text (codes "precision") ∷ Value.int (precision_code index.precision) ∷ []

  pub read_meta-save_meta :
      (index : Index) (db db' : Db)
      → index.dim < 2 ^ 32
      → rows db' Table.meta ≡ rows (save_meta sqlite index db) Table.meta
      → read_meta sqlite new_index (select Table.meta (λ r. true) db')
        ≡ record new_index { dim = index.dim; precision = index.precision }
  unfolding save_meta last_dim last_precision
  read_meta-save_meta index db db' bound same =
      let mid = replace Table.meta (dim_row index) db in
      let found_dim : keep (is_key (codes "dim")) (rows db' Table.meta) ≡ dim_row index ∷ [] =
        ap (keep (is_key (codes "dim"))) same
        ∙ replaced_other (codes "precision") (Value.int (precision_code index.precision) ∷ []) mid
            (codes "dim") precision-ne
        ∙ replaced_same (codes "dim") (Value.int index.dim ∷ []) db in
      let found_precision : keep (is_key (codes "precision")) (rows db' Table.meta)
          ≡ precision_row index ∷ [] =
        ap (keep (is_key (codes "precision"))) same
        ∙ replaced_same (codes "precision") (Value.int (precision_code index.precision) ∷ []) mid in
      read_meta-last new_index (select Table.meta (λ r. true) db')
      ∙ rw
          (
            key_selected (codes "dim") (dim_row index) db' found_dim,
            key_selected (codes "precision") (precision_row index) db' found_precision,
            sqlite.as_int-int index.dim,
            sqlite.as_int-int (precision_code index.precision),
            precision_of_code-precision_code index.precision,
          )
          (ap (λ d. record new_index { dim = d; precision = index.precision }) (omega arith))

  -- An entry is read as it was written, with the embedding that its BLOB gives.
  module _ (idx : Index) where
    pub entry_back :
        (value : Value) (e : IndexEntry)
        → e.line < 2 ^ 32
        → e.end_line < 2 ^ 32
        → entry_of_row sqlite idx (entry_row value e)
          ≡ record e { embedding = embedding_of_blob idx.dim idx.precision (as_blob value) }
    unfolding entry_of_row entry_row
    entry_back value e hl he =
        let line : e.line % 2 ^ 32 ≡ e.line = omega arith in
        let end_line : e.end_line % 2 ^ 32 ≡ e.end_line = omega arith in
        rw
          (
            sqlite.as_int-int (proto_code e.proto),
            sqlite.as_int-int e.line,
            sqlite.as_int-int e.end_line,
            sqlite.as_int-int e.hash,
            sqlite.as_text-text e.path,
            sqlite.as_text-text e.chunk,
            proto_of_code-proto_code e.proto,
            line,
            end_line,
          )
          refl
