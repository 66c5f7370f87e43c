-- ===== src/Adapters/Files.antt =====
-- FileAdapter, src/adapters/file_adapter.cpp, over the file system as an interface.
use Prim.Native.Nat.{bit_xor}
use gogol.Prelude.{
  ℕ, ◌-◌, ◌*◌, ◌%◌, ◌^◌, Bool, true, false, ◌||◌, Option, none, some, List, [], ◌∷◌, ◌++◌, map,
  foldl, ltb, ◌==◌, if◌then◌else◌, is_nil, length, take, drop,
}
use gogol.Text.{Bytes, codes}
use gogol.Text.Lines.{getlines}
use gogol.Dict.{Dict}
use gogol.Config.{IndexConfig, IndexMode, last_byte}
use gogol.Chunking.{Chunk}
use gogol.Storage.Calls.{insert}
use gogol.Adapters.{AdapterChunk, EntryStatus, append_line, is_positive, to_lower}
use gogol.Adapters.EmbedText.{enrich_embed_text, dir_context, siblings_of}
use gogol.Adapters.Notes.{is_known}

-- What the adapter uses of the file system. `scan` is scan_md_files, the files below a directory
-- with their hashes; `read_file` gives nothing for a file that cannot be read; `stat` the time and
-- the size of a file that exists; `extension` is that of std::filesystem::path.
pub record FileSystem : Type 1 where
  pub Fs : Type 0
  pub exists : Bytes → Fs → Bool
  pub canonical : Bytes → Fs → Bytes
  pub read_file : Bytes → Fs → Bytes
  pub stat : Bytes → Fs → Option (ℕ × ℕ)
  pub scan : Bytes → List Bytes → Fs → List (Bytes × ℕ)
  pub create_parent : Bytes → Fs → Bool × Fs
  pub write_file : Bytes → Bytes → Fs → Bool × Fs
  pub remove_file : Bytes → Fs → Bool × Fs
  pub extension : Bytes → Bytes

-- key[0] == '/'.
unfoldable pub is_absolute : Bytes → Bool
is_absolute [] = false
is_absolute (c ∷ s) = c == b'/'

-- operator/ of std::filesystem::path.
unfoldable pub path_join : Bytes → Bytes → Bytes
unfolding is_absolute
path_join root key =
    if is_absolute key
    then key
    else if is_nil root || last_byte root == b'/'
    then root ++ key
    else root ++ b'/' ∷ key

-- IndexConfig::is_writable.
unfoldable pub is_writable : IndexConfig → Bool
is_writable config = elim config.mode [ IndexMode.rw ↦ true | IndexMode.r ↦ false ]

-- One round of FNV-1a, on 64 bits.
unfoldable pub hash_word : ℕ → ℕ → ℕ
hash_word h x = bit_xor h x * 0x100000001b3 % 2 ^ 64

-- The hash of a time and a size.
unfoldable pub stat_hash : ℕ → ℕ → ℕ
unfolding hash_word
stat_hash ftime size = hash_word (hash_word 0xcbf29ce484222325 ftime) size

-- Whether the first line comes after the ones that are skipped, and how many are shown.
unfoldable pub shown_lines : ℕ → ℕ → Bytes → Bytes
unfolding append_line
shown_lines line max_lines content =
    let behind = drop (line - 1) (getlines content) in
    foldl append_line [] (if is_positive max_lines then take max_lines behind else behind)

-- FileAdapter, as its constructor leaves it.
pub record FileAdapter : Type 0 where
  pub config : IndexConfig
  pub root : Bytes
  pub glossary : Dict Bytes

-- The extensions that are scanned for.
unfoldable pub scan_extensions : List Bytes → List Bytes
scan_extensions extensions = if is_nil extensions then codes ".md" ∷ [] else extensions

-- The entry of a chunk of a file; `chunks` are all chunks of the file.
unfoldable pub adapter_chunk : Dict Bytes → Bytes → ℕ → List Chunk → Chunk → AdapterChunk
unfolding dir_context siblings_of enrich_embed_text
adapter_chunk glossary rel_path hash chunks c = record {
  key = rel_path;
  heading = c.heading;
  line = c.line;
  end_line = c.end_line;
  hash = hash;
  text =
      enrich_embed_text rel_path c.heading c.content (dir_context rel_path)
        (siblings_of c.heading chunks []) glossary;
}

-- `chunk_file` is the first of the chunkers that supports the extension, at the content and the
-- path, and no chunk where none does.
module _ (system : FileSystem) (chunk_file : Bytes → Bytes → Bytes → List Chunk) where
  open system use {Fs}

  unfoldable pub new_file_adapter : IndexConfig → Dict Bytes → Fs → FileAdapter
  new_file_adapter config glossary fs =
      let root : Bytes = elim config.paths [
        | [] ↦ []
        | p ∷ ps ↦ if system.exists p fs then system.canonical p fs else p
      ] in
      record { config = config; root = root; glossary = glossary }

  -- The loop over the paths; a path of its own is put in front where there are several.
  unfoldable pub scanned_files : Bool → List Bytes → List Bytes → Fs → List (Bytes × ℕ)
  unfolding path_join
  scanned_files many extensions [] fs = []
  scanned_files many extensions (sp ∷ paths) fs =
      let rest = scanned_files many extensions paths fs in
      let canon = system.canonical sp fs in
      let found = system.scan sp extensions fs in
      if system.exists sp fs
      then map (λ (f : Bytes × ℕ). (if many then path_join canon f.0 else f.0, f.1)) found ++ rest
      else rest

  -- The chunks of one file, none where it is known or empty.
  unfoldable pub scan_file : FileAdapter → Bool → Dict ℕ → Fs → Bytes × ℕ → List AdapterChunk
  unfolding path_join is_known adapter_chunk
  scan_file adapter force existing_hashes fs (rel_path, hash) =
      let content = system.read_file (path_join adapter.root rel_path) fs in
      let chunks = chunk_file (map to_lower (system.extension rel_path)) content rel_path in
      if is_known force existing_hashes rel_path hash || is_nil content
      then []
      else map (adapter_chunk adapter.glossary rel_path hash chunks) chunks

  unfoldable pub scan_files :
      FileAdapter → Bool → Dict ℕ → Fs → List (Bytes × ℕ) → List AdapterChunk
  unfolding scan_file
  scan_files adapter force existing_hashes fs [] = []
  scan_files adapter force existing_hashes fs (f ∷ files) =
      scan_file adapter force existing_hashes fs f
      ++ scan_files adapter force existing_hashes fs files

  -- The result and the set all_paths.
  unfoldable pub file_scan : FileAdapter → Bool → Dict ℕ → Fs → List AdapterChunk × List Bytes
  unfolding scan_extensions scanned_files scan_files
  file_scan adapter force existing_hashes fs =
      let paths = adapter.config.paths in
      let files =
        scanned_files (ltb 1 (length paths)) (scan_extensions adapter.config.extensions) paths fs in
      (
        scan_files adapter force existing_hashes fs files,
        foldl (λ s (f : Bytes × ℕ). insert f.0 s) [] files,
      )

  unfoldable pub file_check_stale : FileAdapter → Bytes → ℕ → Fs → EntryStatus
  unfolding path_join stat_hash
  file_check_stale adapter key stored_hash fs = elim (system.stat (path_join adapter.root key) fs) [
    | none ↦ EntryStatus.missing
    | some (ftime, size) ↦
        if stat_hash ftime size == stored_hash then EntryStatus.ok else EntryStatus.stale
  ]

  unfoldable pub file_get_content : FileAdapter → Bytes → ℕ → ℕ → Fs → Bytes
  unfolding path_join shown_lines
  file_get_content adapter key line max_lines fs =
      let content = system.read_file (path_join adapter.root key) fs in
      if is_nil content then [] else shown_lines line max_lines content

  -- The first path of a writable index.
  unfoldable pub writable_path : IndexConfig → Bytes → Option Bytes
  unfolding is_writable path_join
  writable_path config key =
      if is_writable config
      then elim config.paths [ [] ↦ none | p ∷ ps ↦ some (path_join p key) ]
      else none

  unfoldable pub file_add : FileAdapter → Bytes → Bytes → Fs → Bool × Fs
  unfolding writable_path
  file_add adapter key content fs = elim (writable_path adapter.config key) [
    | none ↦ (false, fs)
    | some fpath ↦
        let (created, fs') = system.create_parent fpath fs in
        if created then system.write_file fpath (content ++ b'\n' ∷ []) fs' else (false, fs')
  ]

  unfoldable pub file_remove : FileAdapter → Bytes → Fs → Bool × Fs
  unfolding writable_path
  file_remove adapter key fs = elim (writable_path adapter.config key) [
    | none ↦ (false, fs)
    | some fpath ↦ if system.exists fpath fs then system.remove_file fpath fs else (false, fs)
  ]
