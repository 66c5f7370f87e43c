-- ===== src/Storage/Index.antt =====
-- Index and IndexEntry of src/storage/index_file.h. An embedding is the list of the bits of its
-- floats. The flag of the lazy load is left out: a database gives the embeddings with the entries.
use gogol.Prelude.{ℕ, List, []}
use gogol.Text.{Bytes}
use gogol.Loc.{EntryType}
use gogol.Config.Global.{EmbedPrecision}

pub record IndexEntry : Type 0 where
  pub proto : EntryType
  pub path : Bytes
  pub chunk : Bytes
  pub line : ℕ
  pub end_line : ℕ
  pub hash : ℕ
  pub embedding : List ℕ

pub record Index : Type 0 where
  pub dim : ℕ
  pub precision : EmbedPrecision
  pub entries : List IndexEntry

abbrev pub new_index : Index
new_index = record { dim = 0; precision = EmbedPrecision.f32; entries = [] }
