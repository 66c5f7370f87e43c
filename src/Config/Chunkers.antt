-- ===== src/Config/Chunkers.antt =====
-- load_chunker_config of src/config/config.cpp: the chunkers that the user defines.
pub mod Valid
use gogol.Prelude.{
  Bool, true, false, ◌||◌, not, Option, none, some, List, [], ◌∷◌, ◌++◌, foldl, if◌then◌else◌,
  is_nil,
}
use gogol.Text.{Bytes, codes, str_eq}
use gogol.Text.Lines.{getlines}
use gogol.Config.{trim, is_skipped, is_header, key_value, comma_pieces}
use gogol.Config.Indexes.{with_dot}

pub record ChunkerDef : Type 0 where
  pub extensions : List Bytes
  pub pattern : Bytes

unfoldable pub chunker_ext : List Bytes → Bytes → List Bytes
chunker_ext exts piece =
    let ext = trim piece in if not (is_nil ext) then exts ++ with_dot ext ∷ [] else exts

unfoldable pub add_chunker : Option (Bytes × Bytes) → List ChunkerDef → List ChunkerDef
add_chunker none defs = defs
add_chunker (some (exts_str, pattern)) defs =
    let exts = foldl chunker_ext [] (comma_pieces exts_str) in
    if is_nil exts_str || is_nil pattern
    then defs
    else if not (is_nil exts)
    then defs ++ record { extensions = exts; pattern = pattern } ∷ []
    else defs

pub record ChunkerReading : Type 0 where
  pub in_chunkers : Bool
  pub defs : List ChunkerDef

-- The body of the loop.
unfoldable pub chunkers_line : ChunkerReading → Bytes → ChunkerReading
chunkers_line s raw =
    let line = trim raw in
    if is_skipped line
    then s
    else if is_header line
    then record s { in_chunkers = str_eq line (codes "[chunkers]") }
    else if s.in_chunkers
    then record s { defs = add_chunker (key_value line) s.defs }
    else s

unfoldable pub load_chunker_config : Option Bytes → List ChunkerDef
load_chunker_config none = []
load_chunker_config (some text) =
    (foldl chunkers_line (record { in_chunkers = false; defs = [] }) (getlines text)).defs
