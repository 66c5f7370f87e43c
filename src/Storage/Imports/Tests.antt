-- ===== src/Storage/Imports/Tests.antt =====
-- A file that imports a symbol twice.
use gogol.Prelude.{◌≡◌, refl, [], ◌∷◌}
use gogol.Text.{codes, str_eq, rfind, last_where}
use gogol.Dict.{get, has_key}
use gogol.Storage.Imports.{
  ImportGraph, imports_in, imports_of, dot_behind, strip_ext, last_seg, slash_before, parent_seg,
  imports_path, any_import, imported_by, has_symbol, push_importing, files_importing_symbol,
}
use gogol.Storage.Imports.Lookup.{occurrences, imports_naming, occurrences-files_importing_symbol}

abbrev graph : ImportGraph
graph =
    (
      codes "a.ts",
      record { module_path = codes "../lib/foo"; symbols = codes "f" ∷ [] }
          ∷ record { module_path = codes "./bar"; symbols = codes "f" ∷ codes "g" ∷ [] }
          ∷ [],
    )
    ∷ (codes "b.ts", [])
    ∷ []

paths_test :
    (imported_by graph (codes "src/lib/foo.ts") ≡ codes "a.ts" ∷ [])
    × (imported_by graph (codes "src/other/foo.ts") ≡ [])
    × (imports_of graph (codes "a.ts") ≡ codes "../lib/foo" ∷ codes "./bar" ∷ [])
unfolding imported_by imports_of get any_import imports_path strip_ext dot_behind last_seg
    slash_before parent_seg rfind last_where str_eq
paths_test = (refl, refl, refl)

twice_test : files_importing_symbol graph (codes "f") ≡ codes "a.ts" ∷ codes "a.ts" ∷ []
unfolding files_importing_symbol push_importing has_symbol str_eq
twice_test = refl

occurrences-files_importing_symbol_example :
    occurrences (codes "a.ts") (files_importing_symbol graph (codes "f"))
    ≡ imports_naming (codes "f") (imports_in (get (codes "a.ts") graph))
unfolding has_key str_eq
occurrences-files_importing_symbol_example =
    occurrences-files_importing_symbol graph (codes "a.ts") (codes "f") refl
