-- ===== src/Operations/Tests.antt =====
-- Tests of the operations, and their theorems over tables and files in memory.
use gogol.Prelude.{◌≡◌, refl, ap, ◌∙◌, Option, true, none, some, List, [], ◌∷◌, map}
use gogol.Text.{Bytes, codes, str_eq, str_eq_refl}
use gogol.Dict.{Dict, get, put, erase, get-put}
use gogol.Operations.Docs.{IsReadBack, op_get-op_add_doc}
use gogol.Text.Lines.{getlines}
use gogol.Config.{IndexConfig, IndexMode, comma_pieces}
use gogol.Config.Global.{EmbedPrecision}
use gogol.Chunking.{Chunk}
use gogol.Loc.{split_path_line}
use gogol.Storage.Index.{Index}
use gogol.Storage.Sqlite.Memory.{memory, no_rows}
use gogol.Storage.Sqlite.RoundTrip.{IsColumn}
use gogol.Adapters.{EntryStatus, split_csv}
use gogol.Adapters.Notes.{mem_check_stale}
use gogol.Adapters.Files.{FileSystem, is_writable, file_add, new_file_adapter, shown_lines}
use gogol.Operations.{done, Embedder, World, op_add, op_rm, op_get}
use gogol.Operations.Answers.{changed, op_get-op_add_term}
use gogol.Operations.Notes.{sources_of, of_note, op_get-op_add_note, check_stale-op_add}
use gogol.Operations.Backed.{AreBacked}
use gogol.Operations.Runs.{Step, Runs, behind, Runs-AreBacked}

abbrev text_of : Option Bytes → Bytes
text_of none = []
text_of (some text) = text

-- The files by their paths.
abbrev disk : FileSystem
disk = record {
  Fs = Dict Bytes;
  exists = λ p fs. true;
  canonical = λ p fs. p;
  read_file = λ p fs. text_of (get p fs);
  stat = λ p fs. none;
  scan = λ root extensions fs. [];
  create_parent = λ p fs. (true, fs);
  write_file = λ p content fs. (true, put p content fs);
  remove_file = λ p fs. (true, erase p fs);
  extension = λ p. codes ".md";
}

abbrev start : World memory disk
start = record { dbs = λ name. no_rows; fs = [] }

abbrev one_vector : Embedder
one_vector = record { embed_document = λ text. 1065353216 ∷ []; dim = 1 }

abbrev no_chunks : Bytes → Bytes → Bytes → List Chunk
no_chunks extension content path = []

abbrev config : IndexConfig
config = record {
  name = codes "docs";
  paths = codes "/docs" ∷ [];
  extensions = [];
  mode = IndexMode.rw;
  model = [];
  memory = [];
  watch_override = 0;
  watch_debounce_ms_override = 0;
}

abbrev empty_index : Index
empty_index = record { dim = 0; precision = EmbedPrecision.f32; entries = [] }

op_get-op_add_term_example :
    (let (r, index', w') =
        op_add memory disk
          (5, 5)
          one_vector
          no_chunks
          2
          (codes "docs")
          (codes "CFC")
          (codes "a center")
          []
          config
          empty_index
          start in
      op_get memory disk no_chunks 2 (codes "docs") (codes "CFC") config 0 w')
    ≡ changed
        (str_eq (codes "docs") (codes "docs"))
        (str_eq (codes "CFC") (codes "CFC"))
        (done (codes "a center"))
        (op_get memory disk no_chunks 2 (codes "docs") (codes "CFC") config 0 start)
op_get-op_add_term_example =
    op_get-op_add_term memory disk no_chunks (5, 5) one_vector (codes "docs") (codes "CFC")
      (codes "a center") [] config empty_index start (codes "docs") (codes "CFC") 0 refl refl

ab_sources : IsColumn (sources_of (codes "a, b"))
unfolding split_csv comma_pieces
ab_sources = ((refl, (refl, tt)), refl)

op_get-op_add_note_example :
    (let (r, index', w') =
        op_add memory disk
          (5, 6)
          one_vector
          no_chunks
          1
          (codes "docs")
          (codes "todo")
          (codes "buy milk")
          (codes "a, b")
          config
          empty_index
          start in
      op_get memory disk no_chunks 1 (codes "docs") (codes "todo") config 0 w')
    ≡ changed
        (str_eq (codes "docs") (codes "docs"))
        (str_eq (codes "todo") (codes "todo"))
        (done (codes "buy milk"))
        (op_get memory disk no_chunks 1 (codes "docs") (codes "todo") config 0 start)
op_get-op_add_note_example =
    op_get-op_add_note memory disk no_chunks (5, 6) one_vector (codes "docs") (codes "todo")
      (codes "buy milk") (codes "a, b") config empty_index start (codes "docs") (codes "todo") 0
      refl refl ab_sources

-- A second between the two readings of the clock.
check_stale-op_add_example :
    (let (r, index', w') =
        op_add memory disk
          (5, 6)
          one_vector
          no_chunks
          1
          (codes "docs")
          (codes "todo")
          (codes "buy milk")
          (codes "a, b")
          config
          empty_index
          start in
      map
        (λ e. mem_check_stale memory (codes "todo") e.hash (w'.dbs (codes "docs")))
        (of_note (codes "todo") index'.entries))
    ≡ EntryStatus.stale ∷ []
check_stale-op_add_example =
    check_stale-op_add memory disk no_chunks (5, 6) one_vector (codes "docs") (codes "todo")
      (codes "buy milk") (codes "a, b") config empty_index start refl ab_sources refl

-- A note that is added and removed.
abbrev added : Index × World memory disk
added = behind memory disk (codes "docs") no_chunks (
    op_add memory disk (5, 6) one_vector no_chunks 1 (codes "docs") (codes "todo")
      (codes "buy milk") (codes "a, b") config empty_index start)

abbrev removed : Index × World memory disk
removed =
    behind memory disk (codes "docs") no_chunks
      (op_rm memory disk no_chunks 1 (codes "docs") (codes "todo") config added.0 added.1)

Runs-AreBacked_example : AreBacked memory disk (codes "docs") removed
Runs-AreBacked_example =
    Runs-AreBacked memory disk (codes "docs") no_chunks (empty_index, start) removed
      (Runs.next
        (Step.add (5, 6) one_vector 1 (codes "todo") (codes "buy milk") (codes "a, b") config
          empty_index start)
        (Runs.next (Step.rm 1 (codes "todo") config added.0 added.1) Runs.stop))
      tt

disk-IsReadBack : IsReadBack disk no_chunks
disk-IsReadBack p text fs e =
    let found : get p (put p text fs) ≡ some text = get-put p p text fs ∙ rw (str_eq_refl p) refl in
    ap text_of found

op_get-op_add_doc_example :
    (let (r, index', w') =
        op_add memory disk
          (5, 5)
          one_vector
          no_chunks
          0
          (codes "docs")
          (codes "a.md")
          (codes "# Title\ntext")
          []
          config
          empty_index
          start in
      op_get memory disk no_chunks 0 (codes "docs") (codes "a.md") config 1 w')
    ≡ done (codes "# Title")
unfolding getlines str_eq split_path_line op_add is_writable file_add new_file_adapter shown_lines
op_get-op_add_doc_example =
    op_get-op_add_doc memory disk no_chunks (5, 5) one_vector (codes "docs") (codes "a.md")
      (codes "# Title\ntext") [] (codes "/docs") [] config empty_index start 1 disk-IsReadBack
      (λ fs. refl) refl refl refl refl
