-- ===== src/Operations/Tables.antt =====
-- Which notes are found behind a save of the notes or of the glossary.
use mathlib.Core.List.Permᴰ
use gogol.Prelude.{
  ◌≡◌, refl, sym, ap, ◌∙◌, true, none, List, [], ◌∷◌, keep, ◌↔◌, map, Bool-cases, inl, inr,
}
use gogol.Text.{Bytes, str_eq}
use gogol.Dict.{Dict, get, distinct_keys}
use gogol.Dict.Order.{is_sorted, distinct_keys-is_sorted}
use gogol.Storage.Sqlite.{Table, Row, Database, same_table}
use gogol.Storage.Sqlite.Kept.{Permᴰ-keep}
use gogol.Storage.Sqlite.Keyed.{
  MemEntry, note_row, save_mem, row_key, note_of_row, load_mem, save_glossary, get-fill,
  last_of-none, Permᴰ-nil,
}
use gogol.Storage.Sqlite.Frames.{glossary-Keeps, mem_rows}

kept_all : (rs : List Row) → keep (λ r. true) rs ≡ rs
kept_all [] = refl
kept_all (r ∷ rs) = ap (◌∷◌ r) (kept_all rs)

module _ (sqlite : Database) where
  open sqlite use {Db, rows, select}

  abbrev rows_of : Bytes → List Row → List Row
  rows_of topic rs = keep (λ r. str_eq topic (row_key sqlite r)) rs

  -- A topic is not found where no row of the notes has it.
  pub get-load_mem-none :
      (topic : Bytes) (db : Db)
      → (get topic (load_mem sqlite db) ≡ none) ↔ (rows_of topic (rows db Table.notes) ≡ [])
  unfolding load_mem get
  get-load_mem-none topic db =
      let selected = select Table.notes (λ r. true) db in
      let filled = get-fill (row_key sqlite) (note_of_row sqlite) topic [] selected in
      let last = last_of-none (row_key sqlite) (note_of_row sqlite) none (rows_of topic selected) in
      let same =
        Permᴰ-keep (λ r. str_eq topic (row_key sqlite r))
          (sqlite.select_rows Table.notes (λ r. true) db) in
      let all = ap (rows_of topic) (kept_all (rows db Table.notes)) in
      (
        λ e. sym all ∙ Permᴰ-nil (Permᴰ.symm same) ((last.0 (sym filled ∙ e)).1),
        λ e. filled ∙ last.1 (refl, Permᴰ-nil same (all ∙ e)),
      )

  -- No note is lost by a save of the glossary.
  pub get-save_glossary :
      (m : Dict Bytes) (db : Db)
      → distinct_keys m ≡ true
      → (topic : Bytes) → get topic (load_mem sqlite (save_glossary sqlite m db)) ≡ none
      → get topic (load_mem sqlite db) ≡ none
  unfolding same_table
  get-save_glossary m db keys topic e = (get-load_mem-none topic db).1 (
      ap (rows_of topic) (sym (glossary-Keeps sqlite m db keys Table.notes refl))
      ∙ (get-load_mem-none topic (save_glossary sqlite m db)).0 e)

  rows_of-map :
      (topic : Bytes) (m : Dict MemEntry)
      → (rows_of topic (map note_row m) ≡ []) ↔ (get topic m ≡ none)
  unfolding note_row get
  rows_of-map topic [] = (λ e. refl, λ e. refl)
  rows_of-map topic ((k, v) ∷ m) = elim (Bool-cases (str_eq topic k)) [
    | inl hit ↦ rw (sqlite.as_text-text k, hit) (λ e. cc, λ e. cc)
    | inr miss ↦ rw (sqlite.as_text-text k, miss) (rows_of-map topic m)
  ]

  -- Behind a save of the notes those topics are found that were saved, whatever their sources.
  pub get-save_mem-none :
      (m : Dict MemEntry) (db : Db)
      → is_sorted m ≡ true
      → (topic : Bytes) → get topic (load_mem sqlite (save_mem sqlite m db)) ≡ none
      → get topic m ≡ none
  get-save_mem-none m db h topic e = (rows_of-map topic m).0 (
      ap (rows_of topic) (sym (mem_rows sqlite m db (distinct_keys-is_sorted m h)))
      ∙ (get-load_mem-none topic (save_mem sqlite m db)).0 e)
