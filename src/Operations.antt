-- ===== src/Operations.antt =====
-- op_add, op_rm and op_get of src/core/operations.cpp, over the databases of the indexes and the
-- file system. The type of an entry is the number that came with the request.
pub mod Terms
pub mod Answers
pub mod Notes
pub mod Tables
pub mod Backed
pub mod Runs
pub mod Docs
mod Tests
use gogol.Prelude.{
  ℕ, ◌+◌, ◌^◌, ◌%◌, Bool, true, false, not, ◌&&◌, Option, none, some, List, [], ◌∷◌, ◌++◌, ◌==◌,
  if◌then◌else◌, is_nil, keep,
}
use gogol.Text.{Bytes, codes, str_eq}
use gogol.Dict.{Dict, get, put, erase}
use gogol.Loc.{EntryType, format_loc, split_path_line}
use gogol.Config.{IndexConfig}
use gogol.Protocol.{type_code}
use gogol.Storage.Index.{IndexEntry, Index}
use gogol.Storage.Sqlite.{Database}
use gogol.Storage.Sqlite.Entries.{proto_code}
use gogol.Storage.Sqlite.Keyed.{load_glossary, save_glossary}
use gogol.Adapters.{split_csv, is_positive}
use gogol.Adapters.Notes.{note_text, mem_add, mem_remove, mem_get_content}
use gogol.Adapters.Files.{
  FileSystem, FileAdapter, new_file_adapter, file_add, file_remove, file_get_content, is_writable,
}
use gogol.Chunking.{Chunk}

pub record OpResult : Type 0 where
  pub ok : Bool
  pub message : Bytes

abbrev pub failed : Bytes → OpResult
failed message = record { ok = false; message = message }

abbrev pub done : Bytes → OpResult
done message = record { ok = true; message = message }

-- EmbedProvider: a vector for a document, empty on a failure, and the dimension.
pub record Embedder : Type 0 where
  pub embed_document : Bytes → List ℕ
  pub dim : ℕ

-- The entries without those of the type and the path.
unfoldable pub erase_entries : EntryType → Bytes → List IndexEntry → List IndexEntry
erase_entries type topic entries =
    keep (λ e. not (proto_code e.proto == proto_code type && str_eq e.path topic)) entries

-- The old entries of a topic give way to a new one at the end.
unfoldable pub replace_entry : ℕ → IndexEntry → Index → Index
unfolding erase_entries
replace_entry embedder_dim entry index = record index {
  entries = erase_entries entry.proto entry.path index.entries ++ entry ∷ [];
  dim = if index.dim == 0 then embedder_dim else index.dim;
}

module _ (sqlite : Database) (system : FileSystem) where
  pub record World : Type 0 where
    pub dbs : Bytes → sqlite.Db
    pub fs : system.Fs

  -- The database of an index changed.
  unfoldable pub set_db : Bytes → sqlite.Db → World → World
  set_db name db w = record w { dbs = λ n. if str_eq n name then db else w.dbs n }

  -- The term is put into the glossary.
  unfoldable pub add_term : Bytes → Bytes → Bytes → World → OpResult × World
  unfolding set_db
  add_term name topic content w =
      let glossary = load_glossary sqlite (w.dbs name) in
      (
        done (codes "Added: " ++ format_loc EntryType.term name topic 0 []),
        set_db name (save_glossary sqlite (put topic content glossary) (w.dbs name)) w,
      )

  -- The entry that a note or a document is indexed by.
  abbrev pub new_entry : EntryType → Bytes → ℕ → ℕ → List ℕ → IndexEntry
  new_entry type topic line hash embedding = record {
    proto = type;
    path = topic;
    chunk = topic;
    line = line;
    end_line = 0;
    hash = hash;
    embedding = embedding;
  }

  -- The note is stored before the text is embedded. The clock is read twice: for the note, and for
  -- the hash of its entry behind the embedding.
  unfoldable pub add_note :
      ℕ × ℕ → Embedder → Bytes → Bytes → Bytes → Bytes → Index → World → OpResult × Index × World
  unfolding set_db replace_entry
  add_note (now, later) embedder name topic content sources index w =
      let src_list = if is_nil sources then [] else split_csv sources in
      let w' = set_db name (mem_add sqlite now topic content src_list (w.dbs name)) w in
      let embedding = embedder.embed_document (note_text topic content) in
      if is_nil embedding then (failed (codes "Embedding failed"), index, w') else (
        done (codes "Added: " ++ format_loc EntryType.note name topic 0 []),
        replace_entry embedder.dim (new_entry EntryType.note topic 0 later embedding) index,
        w',
      )

  -- The document is written before its text is embedded, and kept where that fails.
  unfoldable pub add_doc :
      Embedder
      → (Bytes → Bytes → Bytes → List Chunk)
      → Bytes
      → Bytes
      → Bytes
      → IndexConfig
      → Index
      → World
      → OpResult × Index × World
  unfolding replace_entry
  add_doc embedder chunk_file name topic content config index w =
      let adapter =
        new_file_adapter system chunk_file config (load_glossary sqlite (w.dbs name)) w.fs in
      let (written, fs') = file_add system chunk_file adapter topic content w.fs in
      let w' : World = record w { fs = fs' } in
      let embedding = embedder.embed_document (note_text topic content) in
      let index' = replace_entry embedder.dim (new_entry EntryType.doc topic 1 0 embedding) index in
      if not (is_writable config)
      then (failed (codes "Index is read-only"), index, w)
      else if not written
      then (failed (codes "Write failed"), index, w')
      else (
        done (codes "Added: " ++ format_loc EntryType.doc name topic 1 []),
        if is_nil embedding then index else index',
        w',
      )

  -- `clock` are the two readings of std::time.
  unfoldable pub op_add :
      ℕ × ℕ
      → Embedder
      → (Bytes → Bytes → Bytes → List Chunk)
      → ℕ
      → Bytes
      → Bytes
      → Bytes
      → Bytes
      → IndexConfig
      → Index
      → World
      → OpResult × Index × World
  unfolding add_term add_note add_doc
  op_add clock embedder chunk_file type name topic content sources config index w =
      let (result, w') = add_term name topic content w in
      if is_nil name
      then (failed (codes "No index specified"), index, w)
      else if type == type_code EntryType.term
      then (result, index, w')
      else if type == type_code EntryType.note
      then add_note clock embedder name topic content sources index w
      else add_doc embedder chunk_file name topic content config index w

  unfoldable pub rm_term : Bytes → Bytes → World → OpResult × World
  unfolding set_db
  rm_term name topic w =
      let glossary = load_glossary sqlite (w.dbs name) in
      elim (get topic glossary) [
        | none ↦ (failed (codes "Not found"), w)
        | some expansion ↦ (
          done (codes "Removed: " ++ format_loc EntryType.term name topic 0 []),
          set_db name (save_glossary sqlite (erase topic glossary) (w.dbs name)) w,
        )
      ]

  unfoldable pub rm_note : Bytes → Bytes → Index → World → OpResult × Index × World
  unfolding set_db erase_entries
  rm_note name topic index w =
      let (removed, db) = mem_remove sqlite topic (w.dbs name) in
      if removed
      then (
        done (codes "Removed: " ++ format_loc EntryType.note name topic 0 []),
        record index { entries = erase_entries EntryType.note topic index.entries },
        set_db name db w,
      )
      else (failed (codes "Not found"), index, w)

  -- The file is removed; the entries of the index stay as they are.
  unfoldable pub rm_doc :
      (Bytes → Bytes → Bytes → List Chunk) → Bytes → Bytes → IndexConfig → World → OpResult × World
  rm_doc chunk_file name topic config w =
      let adapter =
        new_file_adapter system chunk_file config (load_glossary sqlite (w.dbs name)) w.fs in
      let (removed, fs') = file_remove system chunk_file adapter topic w.fs in
      let w' : World = record w { fs = fs' } in
      if not (is_writable config)
      then (failed (codes "Index is read-only"), w)
      else if removed
      then (done (codes "Removed: " ++ format_loc EntryType.doc name topic 0 []), w')
      else (failed (codes "Not found"), w')

  unfoldable pub op_rm :
      (Bytes → Bytes → Bytes → List Chunk)
      → ℕ
      → Bytes
      → Bytes
      → IndexConfig
      → Index
      → World
      → OpResult × Index × World
  unfolding rm_term rm_note rm_doc
  op_rm chunk_file type name topic config index w =
      let (term_result, term_world) = rm_term name topic w in
      let (doc_result, doc_world) = rm_doc chunk_file name topic config w in
      if is_nil name
      then (failed (codes "No index specified"), index, w)
      else if type == type_code EntryType.term
      then (term_result, index, term_world)
      else if type == type_code EntryType.note
      then rm_note name topic index w
      else (doc_result, index, doc_world)

  -- A document; the path may carry a line.
  unfoldable pub get_doc :
      (Bytes → Bytes → Bytes → List Chunk) → Bytes → Bytes → IndexConfig → ℕ → World → OpResult
  unfolding split_path_line
  get_doc chunk_file name path config max_lines w =
      let (file_path, line) = split_path_line path in
      let adapter =
        new_file_adapter system chunk_file config (load_glossary sqlite (w.dbs name)) w.fs in
      let content =
        file_get_content system chunk_file adapter file_path (if line == 0 then 1 else line)
          (if is_positive max_lines then max_lines else 0) w.fs in
      if is_nil content then failed (codes "Cannot read file") else done content

  unfoldable pub op_get :
      (Bytes → Bytes → Bytes → List Chunk) → ℕ → Bytes → Bytes → IndexConfig → ℕ → World → OpResult
  unfolding get_doc
  op_get chunk_file type name path config max_lines w =
      let term : OpResult = elim (get path (load_glossary sqlite (w.dbs name))) [
        | some expansion ↦ done expansion
        | none ↦ failed (codes "Not found")
      ] in
      let content = mem_get_content sqlite path 0 (w.dbs name) in
      let note = if is_nil content then failed (codes "Not found") else done content in
      if is_nil name
      then failed (codes "No index specified")
      else if type == type_code EntryType.term
      then term
      else if type == type_code EntryType.note
      then note
      else get_doc chunk_file name path config max_lines w
