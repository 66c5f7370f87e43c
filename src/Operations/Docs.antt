-- ===== src/Operations/Docs.antt =====
-- What op_get reads of a document behind op_add.
use gogol.Prelude.{
  ℕ, ◌≡◌, refl, true, false, some, List, [], ◌∷◌, ◌++◌, if◌then◌else◌, is_nil, Bool-cases, inl, inr,
}
use gogol.Text.{Bytes, codes}
use gogol.Dict.{Dict}
use gogol.Loc.{EntryType, split_path_line}
use gogol.Config.{IndexConfig}
use gogol.Chunking.{Chunk}
use gogol.Protocol.{type_code}
use gogol.Storage.Index.{Index}
use gogol.Storage.Sqlite.{Database}
use gogol.Storage.Sqlite.Keyed.{load_glossary}
use gogol.Adapters.{is_positive}
use gogol.Adapters.Files.{
  FileSystem, FileAdapter, new_file_adapter, file_add, file_get_content, is_writable, path_join,
  shown_lines, writable_path,
}
use gogol.Operations.{OpResult, failed, done, Embedder, World, op_add, op_get, add_doc, get_doc}

-- What get makes of the text of a file.
abbrev pub file_answer : ℕ → ℕ → Bytes → OpResult
file_answer line max_lines text =
    let shown = shown_lines line (if is_positive max_lines then max_lines else 0) text in
    if is_nil shown then failed (codes "Cannot read file") else done shown

module _ (system : FileSystem) (chunk_file : Bytes → Bytes → Bytes → List Chunk) where
  open system use {Fs}

  -- A file that was written has the text that was written.
  abbrev pub IsReadBack : Type 0
  IsReadBack =
      (p text : Bytes) (fs : Fs)
      → (system.write_file p text fs).0 ≡ true
      → system.read_file p (system.write_file p text fs).1 ≡ text

  -- A path that is absolute, in normal form and without symbolic links.
  abbrev pub IsCanonical : Bytes → Type 0
  IsCanonical root = (fs : Fs) → system.canonical root fs ≡ root

  new_file_adapter-root :
      (root : Bytes) (more : List Bytes) (config : IndexConfig) (glossary : Dict Bytes) (fs : Fs)
      → config.paths ≡ root ∷ more
      → IsCanonical root
      → (new_file_adapter system chunk_file config glossary fs).root ≡ root
  unfolding new_file_adapter
  new_file_adapter-root root more config glossary fs paths same =
      elim (Bool-cases (system.exists root fs)) [
        | inl there ↦ rw (paths, there) (same fs)
        | inr missing ↦ rw (paths, missing) refl
      ]

  writable_path-root :
      (root : Bytes) (more : List Bytes) (config : IndexConfig) (key : Bytes)
      → config.paths ≡ root ∷ more
      → is_writable config ≡ true
      → writable_path system chunk_file config key ≡ some (path_join root key)
  unfolding writable_path
  writable_path-root root more config key paths writable = rw (writable, paths) refl

  file_add-read :
      (root : Bytes) (more : List Bytes) (adapter : FileAdapter) (key content : Bytes) (fs : Fs)
      → IsReadBack
      → adapter.config.paths ≡ root ∷ more
      → is_writable adapter.config ≡ true
      → (file_add system chunk_file adapter key content fs).0 ≡ true
      → system.read_file (path_join root key) (file_add system chunk_file adapter key content fs).1
        ≡ content ++ b'\n' ∷ []
  unfolding file_add
  file_add-read root more adapter key content fs back paths writable =
      let fpath = path_join root key in
      rw (writable_path-root root more adapter.config key paths writable, file_add)
        (elim (Bool-cases ((system.create_parent fpath fs).0)) [
          | inl created ↦
              rw created (back fpath (content ++ b'\n' ∷ []) (system.create_parent fpath fs).1)
          | inr failing ↦ rw failing (λ e. let f : false ≡ true = e in cc)
        ])

  file_get_content-read :
      (adapter : FileAdapter) (key : Bytes) (line max_lines : ℕ) (fs : Fs) (root content : Bytes)
      → adapter.root ≡ root
      → system.read_file (path_join root key) fs ≡ content ++ b'\n' ∷ []
      → file_get_content system chunk_file adapter key line max_lines fs
        ≡ shown_lines line max_lines (content ++ b'\n' ∷ [])
  unfolding file_get_content
  file_get_content-read adapter key line max_lines fs root content at text =
      rw (at, text)
        (elim content
          as (λ c.
            (if is_nil (c ++ b'\n' ∷ []) then [] else shown_lines line max_lines (c ++ b'\n' ∷ []))
            ≡ shown_lines line max_lines (c ++ b'\n' ∷ [])) [ [] ↦ refl | c ∷ s ↦ refl ])

module _ (sqlite : Database) (system : FileSystem)
    (chunk_file : Bytes → Bytes → Bytes → List Chunk) where
  op_get-doc :
      (name topic : Bytes) (root : Bytes) (more : List Bytes) (config : IndexConfig) (max_lines : ℕ)
      (w : World sqlite system) (content : Bytes)
      → config.paths ≡ root ∷ more
      → IsCanonical system chunk_file root
      → is_nil name ≡ false
      → split_path_line topic ≡ (topic, 0)
      → system.read_file (path_join root topic) w.fs ≡ content ++ b'\n' ∷ []
      → op_get sqlite system chunk_file (type_code EntryType.doc) name topic config max_lines w
        ≡ file_answer 1 max_lines (content ++ b'\n' ∷ [])
  unfolding op_get get_doc
  op_get-doc name topic root more config max_lines w content paths same named plain text =
      let glossary = load_glossary sqlite (w.dbs name) in
      rw
        (
          named,
          plain,
          file_get_content-read system chunk_file
              (new_file_adapter system chunk_file config glossary w.fs) topic 1
              (if is_positive max_lines then max_lines else 0) w.fs root content
              (new_file_adapter-root system chunk_file root more config glossary w.fs paths same)
              text,
        )
        refl

  op_add-read :
      (clock : ℕ × ℕ) (embedder : Embedder) (name topic content sources : Bytes) (root : Bytes)
      (more : List Bytes) (config : IndexConfig) (index : Index) (w : World sqlite system)
      → IsReadBack system chunk_file
      → config.paths ≡ root ∷ more
      → is_nil name ≡ false
      → (op_add sqlite system clock embedder chunk_file
          (type_code EntryType.doc)
          name
          topic
          content
          sources
          config
          index
          w).0.ok
        ≡ true
      → system.read_file
          (path_join root topic)
          (op_add sqlite system clock embedder chunk_file
            (type_code EntryType.doc)
            name
            topic
            content
            sources
            config
            index
            w).2.fs
        ≡ content ++ b'\n' ∷ []
  unfolding op_add add_doc new_file_adapter
  op_add-read clock embedder name topic content sources root more config index w back paths named =
      let adapter =
        new_file_adapter system chunk_file config (load_glossary sqlite (w.dbs name)) w.fs in
      rw named (elim (Bool-cases (is_writable config)) [
        | inr refused ↦ rw refused (λ e. let f : false ≡ true = e in cc)
        | inl writable ↦
            elim (Bool-cases ((file_add system chunk_file adapter topic content w.fs).0)) [
              | inr failing ↦ rw (writable, failing) (λ e. let f : false ≡ true = e in cc)
              | inl written ↦
                  let text =
                    file_add-read system chunk_file root more adapter topic content w.fs back paths
                      writable written in
                  rw (writable, written) (λ e. text)
            ]
      ])

  -- Over a file system where a file that was written reads back, with a first path of the index that is
  -- canonical, an index name that is not empty and a file name without a line: where op_add says that it
  -- added a document, op_get answers with the shown lines of a file that holds the content and a newline:
  -- its lines up to the limit, without the empty lines in front and without the newline at the end; it
  -- fails if nothing is shown of them.
  pub op_get-op_add_doc :
      (clock : ℕ × ℕ) (embedder : Embedder) (name topic content sources : Bytes) (root : Bytes)
      (more : List Bytes) (config : IndexConfig) (index : Index) (w : World sqlite system)
      (max_lines : ℕ)
      → IsReadBack system chunk_file
      → IsCanonical system chunk_file root
      → config.paths ≡ root ∷ more
      → is_nil name ≡ false
      → split_path_line topic ≡ (topic, 0)
      → (op_add sqlite system clock embedder chunk_file
          (type_code EntryType.doc)
          name
          topic
          content
          sources
          config
          index
          w).0.ok
        ≡ true
      → (let (r, index', w') =
            op_add sqlite system clock embedder chunk_file
              (type_code EntryType.doc)
              name
              topic
              content
              sources
              config
              index
              w in
          op_get sqlite system chunk_file (type_code EntryType.doc) name topic config max_lines w')
        ≡ file_answer 1 max_lines (content ++ b'\n' ∷ [])
  op_get-op_add_doc clock embedder name topic content sources root more config index w max_lines
        back same paths named plain ok =
      op_get-doc name topic root more config max_lines
        (op_add sqlite system clock embedder chunk_file (type_code EntryType.doc) name topic content
          sources config index w).2
        content paths same named plain
        (op_add-read clock embedder name topic content sources root more config index w back paths
          named ok)
