-- ===== src/Operations/Notes.antt =====
-- What op_get and check_stale find of the notes behind op_add and op_rm.
use gogol.Prelude.{
  ℕ, ◌≡◌, refl, sym, ap, ◌∙◌, Bool, true, false, not, ◌&&◌, Option, none, some, List, [], ◌∷◌,
  if◌then◌else◌, is_nil, map, keep, ◌==◌, Bool-cases, Option-cases, inl, inr,
}
use gogol.Text.{Bytes, codes, str_eq, str_eq_iff, str_eq_refl}
use gogol.Dict.{Dict, get, put}
use gogol.Loc.{EntryType}
use gogol.Config.{IndexConfig}
use gogol.Chunking.{Chunk}
use gogol.Protocol.{type_code}
use gogol.Storage.Index.{IndexEntry, Index}
use gogol.Storage.Sqlite.Kept.{keep-append, keep-none, not-false}
use gogol.Storage.Sqlite.{Database}
use gogol.Storage.Sqlite.Entries.{proto_code}
use gogol.Storage.Sqlite.Keyed.{MemEntry, load_mem, save_mem}
use gogol.Storage.Sqlite.RoundTrip.{IsColumn}
use gogol.Adapters.{EntryStatus, split_csv}
use gogol.Adapters.Notes.{note_text, mem_add, mem_get_content, mem_check_stale, shown_note}
use gogol.Adapters.Files.{FileSystem}
use gogol.Operations.{
  OpResult, failed, done, Embedder, World, set_db, new_entry, replace_entry, erase_entries, op_add,
  op_get, add_note,
}
use gogol.Operations.Terms.{get-put_note}
use gogol.Operations.Answers.{changed}

-- The sources of a note, from the list with commas.
abbrev pub sources_of : Bytes → List Bytes
sources_of sources = if is_nil sources then [] else split_csv sources

-- What op_get makes of a note that is looked up: a note without a content is not found.
abbrev pub note_answer : Option MemEntry → OpResult
note_answer none = failed (codes "Not found")
note_answer (some e) = if is_nil e.content then failed (codes "Not found") else done e.content

note_answer-changed :
    (same_index same_key : Bool) (new old : Option MemEntry)
    → note_answer (changed same_index same_key new old)
      ≡ changed same_index same_key (note_answer new) (note_answer old)
note_answer-changed false same_key new old = refl
note_answer-changed true false new old = refl
note_answer-changed true true new old = refl

-- The entries of a note.
abbrev pub of_note : Bytes → List IndexEntry → List IndexEntry
of_note topic entries =
    keep (λ e. proto_code e.proto == proto_code EntryType.note && str_eq e.path topic) entries

-- A note has one entry behind its replacement.
replaced-of_note :
    (dim : ℕ) (topic : Bytes) (hash : ℕ) (embedding : List ℕ) (index : Index)
    → (let entry : IndexEntry = record {
      proto = EntryType.note;
      path = topic;
      chunk = topic;
      line = 0;
      end_line = 0;
      hash = hash;
      embedding = embedding;
    } in
        of_note topic (replace_entry dim entry index).entries ≡ entry ∷ [])
unfolding replace_entry erase_entries proto_code
replaced-of_note dim topic hash embedding index =
    let test : IndexEntry → Bool =
      λ x. proto_code x.proto == proto_code EntryType.note && str_eq x.path topic in
    let other : IndexEntry → Bool = λ x. not (test x) in
    let entry : IndexEntry = record {
      proto = EntryType.note;
      path = topic;
      chunk = topic;
      line = 0;
      end_line = 0;
      hash = hash;
      embedding = embedding;
    } in
    keep-append test (keep other index.entries) (entry ∷ [])
    ∙ rw (keep-none test other (λ x g. not-false (test x) g) index.entries, str_eq_refl topic) refl

module _ (sqlite : Database) (system : FileSystem)
    (chunk_file : Bytes → Bytes → Bytes → List Chunk) where
  -- The notes of each index, by topic.
  abbrev pub note_of : Bytes → Bytes → World sqlite system → Option MemEntry
  note_of other key w = get key (load_mem sqlite (w.dbs other))

  op_get-note :
      (other key : Bytes) (config : IndexConfig) (max_lines : ℕ) (w : World sqlite system)
      → is_nil other ≡ false
      → op_get sqlite system chunk_file (type_code EntryType.note) other key config max_lines w
        ≡ note_answer (note_of other key w)
  unfolding op_get mem_get_content shown_note
  op_get-note other key config max_lines w h = elim (Option-cases (note_of other key w)) [
    | inl absent ↦ rw (h, absent, mem_get_content) refl
    | inr (e, found) ↦ rw (h, found, mem_get_content) refl
  ]

  -- The database of one index changed in one note.
  note_of-set_db :
      (name topic : Bytes) (v : Option MemEntry) (m : Dict MemEntry) (w : World sqlite system)
      → ((key : Bytes)
          → get key (load_mem sqlite (save_mem sqlite m (w.dbs name)))
            ≡ (if str_eq key topic then v else note_of name key w))
      → (other key : Bytes)
      → note_of other key (set_db sqlite system name (save_mem sqlite m (w.dbs name)) w)
        ≡ changed (str_eq other name) (str_eq key topic) v (note_of other key w)
  unfolding set_db
  note_of-set_db name topic v m w each other key = elim (Bool-cases (str_eq other name)) [
    | inl same ↦ rw same (rw ((str_eq_iff other name).0 same) (each key))
    | inr apart ↦ rw apart refl
  ]

  -- The world behind op_add of a note, whether its text was embedded or not.
  pub note_of-op_add :
      (clock : ℕ × ℕ) (embedder : Embedder) (name topic content sources : Bytes)
      (config : IndexConfig) (index : Index) (w : World sqlite system)
      → is_nil name ≡ false
      → IsColumn (sources_of sources)
      → (other key : Bytes)
      → note_of other key
          (op_add sqlite system clock embedder chunk_file
            (type_code EntryType.note)
            name
            topic
            content
            sources
            config
            index
            w).2
        ≡ changed
            (str_eq other name)
            (str_eq key topic)
            (some (record { content = content; sources = sources_of sources; timestamp = clock.0 }))
            (note_of other key w)
  unfolding op_add add_note mem_add
  note_of-op_add (now, later) embedder name topic content sources config index w h column other
        key =
      let entry : MemEntry = record {
        content = content;
        sources = sources_of sources;
        timestamp = now;
      } in
      let stored =
        note_of-set_db name topic (some entry) (put topic entry (load_mem sqlite (w.dbs name))) w
          (get-put_note sqlite (w.dbs name) topic entry column) other key in
      elim (Bool-cases (is_nil (embedder.embed_document (note_text topic content)))) [
        | inl empty ↦ rw (h, empty) stored
        | inr full ↦ rw (h, full) stored
      ]

  -- In indexes whose names are not empty, with sources that a column can hold: a note that is added is
  -- the one that op_get finds at its topic in its index, and not found if its content is empty; what
  -- it finds at other topics and in other indexes stays. This holds too where the embedder fails.
  pub op_get-op_add_note :
      (clock : ℕ × ℕ) (embedder : Embedder) (name topic content sources : Bytes)
      (config : IndexConfig) (index : Index) (w : World sqlite system) (other key : Bytes)
      (max_lines : ℕ)
      → is_nil name ≡ false
      → is_nil other ≡ false
      → IsColumn (sources_of sources)
      → (let (r, index', w') =
            op_add sqlite system clock embedder chunk_file
              (type_code EntryType.note)
              name
              topic
              content
              sources
              config
              index
              w in
          op_get sqlite system chunk_file (type_code EntryType.note) other key config max_lines w')
        ≡ changed
            (str_eq other name)
            (str_eq key topic)
            (if is_nil content then failed (codes "Not found") else done content)
            (op_get sqlite system chunk_file
              (type_code EntryType.note)
              other
              key
              config
              max_lines
              w)
  op_get-op_add_note clock embedder name topic content sources config index w other key max_lines h
        o column =
      let w' =
        (op_add sqlite system clock embedder chunk_file (type_code EntryType.note) name topic
          content sources config index w).2 in
      let entry : MemEntry = record {
        content = content;
        sources = sources_of sources;
        timestamp = clock.0;
      } in
      op_get-note other key config max_lines w' o
      ∙ ap note_answer (
          note_of-op_add clock embedder name topic content sources config index w h column other
            key)
      ∙ note_answer-changed (str_eq other name) (str_eq key topic) (some entry)
          (note_of other key w)
      ∙ ap (changed (str_eq other name) (str_eq key topic) (note_answer (some entry)))
          (sym (op_get-note other key config max_lines w o))

  check_stale-some :
      (topic : Bytes) (hash : ℕ) (e : MemEntry) (db : sqlite.Db)
      → get topic (load_mem sqlite db) ≡ some e
      → mem_check_stale sqlite topic hash db
        ≡ (if e.timestamp == hash then EntryStatus.ok else EntryStatus.stale)
  unfolding mem_check_stale
  check_stale-some topic hash e db found = rw (found, mem_check_stale) refl

  entries-op_add :
      (clock : ℕ × ℕ) (embedder : Embedder) (name topic content sources : Bytes)
      (config : IndexConfig) (index : Index) (w : World sqlite system)
      → is_nil name ≡ false
      → is_nil (embedder.embed_document (note_text topic content)) ≡ false
      → (op_add sqlite system clock embedder chunk_file
          (type_code EntryType.note)
          name
          topic
          content
          sources
          config
          index
          w).1
        ≡ replace_entry embedder.dim
            (new_entry sqlite system EntryType.note topic 0 clock.1
              (embedder.embed_document (note_text topic content)))
            index
  unfolding op_add add_note
  entries-op_add (now, later) embedder name topic content sources config index w h full =
      rw (h, full) refl

  -- In an index whose name is not empty, with sources that a column can hold, and where the text was
  -- embedded: a note that was added has one entry, and check_stale of its topic with the hash of that
  -- entry gives ok if the two readings of the clock agree, and stale otherwise.
  pub check_stale-op_add :
      (clock : ℕ × ℕ) (embedder : Embedder) (name topic content sources : Bytes)
      (config : IndexConfig) (index : Index) (w : World sqlite system)
      → is_nil name ≡ false
      → IsColumn (sources_of sources)
      → is_nil (embedder.embed_document (note_text topic content)) ≡ false
      → (let (r, index', w') =
            op_add sqlite system clock embedder chunk_file
              (type_code EntryType.note)
              name
              topic
              content
              sources
              config
              index
              w in
          map
            (λ e. mem_check_stale sqlite topic e.hash (w'.dbs name))
            (of_note topic index'.entries)
          ≡ (if clock.0 == clock.1 then EntryStatus.ok else EntryStatus.stale) ∷ [])
  check_stale-op_add clock embedder name topic content sources config index w h column full =
      let embedding = embedder.embed_document (note_text topic content) in
      let w' =
        (op_add sqlite system clock embedder chunk_file (type_code EntryType.note) name topic
          content sources config index w).2 in
      ap
        (λ (i : Index).
          map (λ e. mem_check_stale sqlite topic e.hash (w'.dbs name)) (of_note topic i.entries))
        (entries-op_add clock embedder name topic content sources config index w h full)
      ∙ ap (map (λ e. mem_check_stale sqlite topic e.hash (w'.dbs name)))
          (replaced-of_note embedder.dim topic clock.1 embedding index)
      ∙ ap (λ s. s ∷ [])
          (check_stale-some topic clock.1
            (record { content = content; sources = sources_of sources; timestamp = clock.0 })
            (w'.dbs name)
            (note_of-op_add clock embedder name topic content sources config index w h column name
                topic
              ∙ rw (str_eq_refl name, str_eq_refl topic) refl))
