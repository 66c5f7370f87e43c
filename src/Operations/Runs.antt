-- ===== src/Operations/Runs.antt =====
-- Sequences of op_add and op_rm of one index.
use gogol.Prelude.{ℕ, ◌≡◌, List, is_nil, ◌==◌, Bool-cases, inl, inr}
use gogol.Text.{Bytes}
use gogol.Loc.{EntryType}
use gogol.Config.{IndexConfig}
use gogol.Chunking.{Chunk}
use gogol.Protocol.{type_code}
use gogol.Storage.Index.{IndexEntry, Index}
use gogol.Storage.Sqlite.{Database}
use gogol.Storage.Sqlite.Keyed.{load_glossary}
use gogol.Adapters.Notes.{note_text}
use gogol.Adapters.Files.{FileSystem, is_writable, new_file_adapter, file_add, file_remove}
use gogol.Operations.{OpResult, Embedder, World, op_add, op_rm, add_term, add_doc, rm_term, rm_doc}
use gogol.Operations.Backed.{
  AreBacked, Grows, grown, replaced, add_term-Grows, rm_term-Grows, AreBacked-add_note,
  AreBacked-rm_note,
}

module _ (sqlite : Database) (system : FileSystem) (name : Bytes)
    (chunk_file : Bytes → Bytes → Bytes → List Chunk) where
  AreBacked-add_doc :
      (embedder : Embedder) (topic content : Bytes) (config : IndexConfig) (index : Index)
      (w : World sqlite system)
      → AreBacked sqlite system name (index, w)
      → (let (r, index', w') =
            add_doc sqlite system embedder chunk_file name topic content config index w in
          AreBacked sqlite system name (index', w'))
  unfolding add_doc
  AreBacked-add_doc embedder topic content config index w h =
      let adapter =
        new_file_adapter system chunk_file config (load_glossary sqlite (w.dbs name)) w.fs in
      let embedding = embedder.embed_document (note_text topic content) in
      let entry : IndexEntry = record {
        proto = EntryType.doc;
        path = topic;
        chunk = topic;
        line = 1;
        end_line = 0;
        hash = 0;
        embedding = embedding;
      } in
      elim (Bool-cases (is_writable config)) [
        | inr refused ↦ rw refused h
        | inl writable ↦
            elim (Bool-cases ((file_add system chunk_file adapter topic content w.fs).0)) [
              | inr failing ↦ rw (writable, failing) h
              | inl written ↦ elim (Bool-cases (is_nil embedding)) [
                | inl empty ↦ rw (writable, written, empty) h
                | inr full ↦
                    rw (writable, written, full)
                      (replaced sqlite system name w embedder.dim entry index h
                        (λ note. let e : EntryType.doc ≡ EntryType.note = note in cc))
              ]
            ]
      ]

  Grows-rm_doc :
      (topic : Bytes) (config : IndexConfig) (w : World sqlite system)
      → Grows sqlite system name w (rm_doc sqlite system chunk_file name topic config w).1
  unfolding rm_doc
  Grows-rm_doc topic config w =
      let adapter =
        new_file_adapter system chunk_file config (load_glossary sqlite (w.dbs name)) w.fs in
      elim (Bool-cases (is_writable config)) [
        | inr refused ↦ rw refused (λ key e. e)
        | inl writable ↦ elim (Bool-cases ((file_remove system chunk_file adapter topic w.fs).0)) [
          | inr failing ↦ rw (writable, failing) (λ key e. e)
          | inl removed ↦ rw (writable, removed) (λ key e. e)
        ]
      ]

  -- The index and the world behind an operation.
  abbrev pub behind : OpResult × Index × World sqlite system → Index × World sqlite system
  behind (r, index, w) = (index, w)

  -- One ADD or RM of the index, of any type.
  pub data Step : Index × World sqlite system → Index × World sqlite system → Type 0 where
    add :
        (clock : ℕ × ℕ) (embedder : Embedder) (type : ℕ) (topic content sources : Bytes)
        (config : IndexConfig) (index : Index) (w : World sqlite system)
        → Step
            (index, w)
            (behind (
              op_add sqlite system clock embedder chunk_file type name topic content sources config
                index w))
    rm :
        (type : ℕ) (topic : Bytes) (config : IndexConfig) (index : Index) (w : World sqlite system)
        → Step (index, w) (behind (op_rm sqlite system chunk_file type name topic config index w))

  pub data Runs : Index × World sqlite system → Index × World sqlite system → Type 0 where
    stop : {s : Index × World sqlite system} → Runs s s
    next : {s t u : Index × World sqlite system} → Step s t → Runs t u → Runs s u

  AreBacked-op_add :
      (clock : ℕ × ℕ) (embedder : Embedder) (type : ℕ) (topic content sources : Bytes)
      (config : IndexConfig) (index : Index) (w : World sqlite system)
      → AreBacked sqlite system name (index, w)
      → (let (r, index', w') =
            op_add sqlite system clock embedder chunk_file type name topic content sources config
              index w in
          AreBacked sqlite system name (index', w'))
  unfolding op_add
  AreBacked-op_add clock embedder type topic content sources config index w h =
      elim (Bool-cases (is_nil name)) [
        | inl empty ↦ rw empty h
        | inr named ↦ elim (Bool-cases (type == type_code EntryType.term)) [
          | inl term ↦
              rw (named, term)
                (grown sqlite system name w (add_term sqlite system name topic content w).1
                  index.entries (add_term-Grows sqlite system name topic content w) h)
          | inr more ↦ elim (Bool-cases (type == type_code EntryType.note)) [
            | inl note ↦
                rw (named, more, note)
                  (AreBacked-add_note sqlite system name clock embedder topic content sources index
                    w h)
            | inr doc ↦
                rw (named, more, doc) (AreBacked-add_doc embedder topic content config index w h)
          ]
        ]
      ]

  AreBacked-op_rm :
      (type : ℕ) (topic : Bytes) (config : IndexConfig) (index : Index) (w : World sqlite system)
      → AreBacked sqlite system name (index, w)
      → (let (r, index', w') = op_rm sqlite system chunk_file type name topic config index w in
          AreBacked sqlite system name (index', w'))
  unfolding op_rm
  AreBacked-op_rm type topic config index w h = elim (Bool-cases (is_nil name)) [
    | inl empty ↦ rw empty h
    | inr named ↦ elim (Bool-cases (type == type_code EntryType.term)) [
      | inl term ↦
          rw (named, term)
            (grown sqlite system name w (rm_term sqlite system name topic w).1 index.entries
              (rm_term-Grows sqlite system name topic w) h)
      | inr more ↦ elim (Bool-cases (type == type_code EntryType.note)) [
        | inl note ↦ rw (named, more, note) (AreBacked-rm_note sqlite system name topic index w h)
        | inr doc ↦
            rw (named, more, doc)
              (grown sqlite system name w (rm_doc sqlite system chunk_file name topic config w).1
                index.entries (Grows-rm_doc topic config w) h)
      ]
    ]
  ]

  AreBacked-Step :
      (s t : Index × World sqlite system)
      → Step s t
      → AreBacked sqlite system name s
      → AreBacked sqlite system name t
  AreBacked-Step _ _ (Step.add clock embedder type topic content sources config index w) h =
      AreBacked-op_add clock embedder type topic content sources config index w h
  AreBacked-Step _ _ (Step.rm type topic config index w) h =
      AreBacked-op_rm type topic config index w h

  -- If each note in an index has its text in the database, that is, an entry of the type note a row with
  -- its topic, then this holds behind every sequence of the operations ADD and RM on the index, of
  -- entries of any type, the failing ones included.
  pub Runs-AreBacked :
      (s t : Index × World sqlite system)
      → Runs s t
      → AreBacked sqlite system name s
      → AreBacked sqlite system name t
  Runs-AreBacked s _ Runs.stop h = h
  Runs-AreBacked s u (Runs.next {t = t} step more) h =
      Runs-AreBacked t u more (AreBacked-Step s t step h)
