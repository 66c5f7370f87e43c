-- ===== src/Storage/Imports.antt =====
-- src/storage/import_store.{h,cpp}: what the files of an index import.
pub mod Lookup
mod Tests
use gogol.Prelude.{
  ℕ, suc, ◌+◌, ◌-◌, ◌%◌, ◌^◌, Bool, true, false, not, ◌&&◌, ◌||◌, Option, none, some, List, [], ◌∷◌,
  ◌++◌, map, ltb, ◌==◌, if◌then◌else◌, is_nil, take, drop,
}
use gogol.Text.{Bytes, str_eq, rfind, substr}
use gogol.Dict.{Dict, get}

pub record ImportInfo : Type 0 where
  pub module_path : Bytes
  pub symbols : List Bytes

-- The map `imports`.
abbrev pub ImportGraph : Type 0
ImportGraph = Dict (List ImportInfo)

abbrev pub imports_in : Option (List ImportInfo) → List ImportInfo
imports_in none = []
imports_in (some infos) = infos

unfoldable pub imports_of : ImportGraph → Bytes → List Bytes
imports_of imports file = map (λ i. i.module_path) (imports_in (get file imports))

-- Whether the last dot stands in the last segment.
unfoldable pub dot_behind : ℕ → Option ℕ → Bool
dot_behind dot none = true
dot_behind dot (some slash) = ltb slash dot

unfoldable pub strip_ext : Bytes → Bytes
strip_ext s = elim (rfind b'.' s) [
  | none ↦ s
  | some dot ↦ if dot_behind dot (rfind b'/' s) then substr s 0 dot else s
]

unfoldable pub last_seg : Bytes → Bytes
last_seg s = elim (rfind b'/' s) [ none ↦ s | some slash ↦ drop (slash + 1) s ]

-- s.rfind('/', slash - 1): for 0, the position is npos, and the whole text is searched.
unfoldable pub slash_before : Bytes → ℕ → Option ℕ
slash_before s slash = if slash == 0 then rfind b'/' s else rfind b'/' (take slash s)

abbrev pub segment_start : Option ℕ → ℕ
segment_start none = 0
segment_start (some slash) = slash + 1

-- The length is a size_t, which wraps around where the start lies behind the slash.
unfoldable pub parent_seg : Bytes → Bytes
parent_seg s = elim (rfind b'/' s) [
  | none ↦ []
  | some slash ↦
      let from = segment_start (slash_before s slash) in
      substr s from ((slash + 2 ^ 64 - from) % 2 ^ 64)
]

-- The two tests of imported_by, for the path that is asked for and an import.
unfoldable pub imports_path : Bytes → ImportInfo → Bool
imports_path path info =
    let q = strip_ext path in
    let m = strip_ext info.module_path in
    str_eq (last_seg m) (last_seg q)
    && (is_nil (parent_seg q) || str_eq (parent_seg m) (parent_seg q))

unfoldable pub any_import : (ImportInfo → Bool) → List ImportInfo → Bool
any_import p [] = false
any_import p (i ∷ infos) = p i || any_import p infos

-- The first import that matches ends the inner loop.
unfoldable pub imported_by : ImportGraph → Bytes → List Bytes
imported_by [] path = []
imported_by ((file, infos) ∷ imports) path =
    let rest = imported_by imports path in
    if any_import (imports_path path) infos then file ∷ rest else rest

unfoldable pub has_symbol : Bytes → List Bytes → Bool
has_symbol symbol [] = false
has_symbol symbol (s ∷ symbols) = str_eq s symbol || has_symbol symbol symbols

-- The break leaves the loop over the symbols alone: each import is looked at.
unfoldable pub push_importing : Bytes → Bytes → List ImportInfo → List Bytes
push_importing symbol file [] = []
push_importing symbol file (i ∷ infos) =
    let rest = push_importing symbol file infos in
    if has_symbol symbol i.symbols then file ∷ rest else rest

unfoldable pub files_importing_symbol : ImportGraph → Bytes → List Bytes
files_importing_symbol [] symbol = []
files_importing_symbol ((file, infos) ∷ imports) symbol =
    push_importing symbol file infos ++ files_importing_symbol imports symbol
