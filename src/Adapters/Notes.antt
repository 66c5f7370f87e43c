-- ===== src/Adapters/Notes.antt =====
-- MemAdapter, src/adapters/mem_adapter.cpp, over the database of the index. Its load never fails.
use gogol.Prelude.{
  ℕ, Bool, true, false, not, ◌&&◌, none, some, List, [], ◌∷◌, ◌++◌, foldl, ◌==◌, if◌then◌else◌,
  take,
}
use gogol.Text.{Bytes, codes}
use gogol.Text.Lines.{getlines}
use gogol.Dict.{Dict, get, put, erase}
use gogol.Storage.Sqlite.{Database}
use gogol.Storage.Sqlite.Keyed.{MemEntry, load_mem, save_mem}
use gogol.Adapters.{AdapterChunk, EntryStatus, append_line, is_positive}

-- topic + ". " + content.
abbrev pub note_text : Bytes → Bytes → Bytes
note_text topic content = topic ++ codes ". " ++ content

-- Whether an entry is skipped: not forced, and the hash known for its key is its own.
unfoldable pub is_known : Bool → Dict ℕ → Bytes → ℕ → Bool
is_known force existing_hashes key hash =
    not force && (elim (get key existing_hashes) [ none ↦ false | some h ↦ h == hash ])

-- The loop of MemAdapter::scan.
unfoldable pub scan_notes : Bool → Dict ℕ → Dict MemEntry → List AdapterChunk
unfolding is_known
scan_notes force existing_hashes [] = []
scan_notes force existing_hashes ((topic, entry) ∷ store) =
    let rest = scan_notes force existing_hashes store in
    if is_known force existing_hashes topic entry.timestamp
    then rest
    else record {
      key = topic;
      heading = topic;
      line = 0;
      end_line = 0;
      hash = entry.timestamp;
      text = note_text topic entry.content;
    }
      ∷ rest

-- The lines that are shown of a content: all of it, or its first lines put together.
unfoldable pub shown_note : ℕ → Bytes → Bytes
unfolding append_line
shown_note max_lines content =
    if is_positive max_lines
    then foldl append_line [] (take max_lines (getlines content))
    else content

module _ (sqlite : Database) where
  open sqlite use {Db}

  unfoldable pub mem_scan : Bool → Dict ℕ → Db → List AdapterChunk
  unfolding scan_notes
  mem_scan force existing_hashes db = scan_notes force existing_hashes (load_mem sqlite db)

  unfoldable pub mem_check_stale : Bytes → ℕ → Db → EntryStatus
  mem_check_stale key stored_hash db = elim (get key (load_mem sqlite db)) [
    | none ↦ EntryStatus.missing
    | some e ↦ if e.timestamp == stored_hash then EntryStatus.ok else EntryStatus.stale
  ]

  unfoldable pub mem_get_content : Bytes → ℕ → Db → Bytes
  unfolding shown_note
  mem_get_content key max_lines db = elim (get key (load_mem sqlite db)) [
    | none ↦ []
    | some e ↦ shown_note max_lines e.content
  ]

  -- `now` is std::time.
  unfoldable pub mem_add : ℕ → Bytes → Bytes → List Bytes → Db → Db
  mem_add now key content sources db =
      let entry : MemEntry = record { content = content; sources = sources; timestamp = now } in
      save_mem sqlite (put key entry (load_mem sqlite db)) db

  -- The result and the database; none of it is written where the key is not there.
  unfoldable pub mem_remove : Bytes → Db → Bool × Db
  mem_remove key db =
      let store = load_mem sqlite db in
      elim (get key store) [
        | none ↦ (false, db)
        | some e ↦ (true, save_mem sqlite (erase key store) db)
      ]
