-- ===== src/Storage/Imports/Lookup.antt =====
-- What the reverse lookups of the import graph list, and how often.
use gogol.Prelude.{
  ℕ, suc, ◌+◌, ◌≡◌, refl, ◌∙◌, true, false, inl, inr, Bool-cases, List, [], ◌∷◌, ◌++◌, arith,
  if◌then◌else◌,
}
use gogol.Text.{Bytes, str_eq, str_eq_iff, str_eq_refl}
use gogol.Dict.{get, has_key, distinct_keys}
use gogol.Storage.DocRefs.{has_path}
use gogol.Storage.Imports.{
  ImportInfo, ImportGraph, imports_in, any_import, imports_path, imported_by, has_symbol,
  push_importing, files_importing_symbol,
}

absent-imported_by :
    (imports : ImportGraph) (file path : Bytes)
    → has_key file imports ≡ false
    → has_path file (imported_by imports path) ≡ false
unfolding imported_by has_path has_key
absent-imported_by [] file path h = refl
absent-imported_by ((f, infos) ∷ imports) file path h =
    ground (arith, absent-imported_by imports file path)

-- In a graph with distinct keys, a file is in the result of imported_by exactly if one of its own
-- imports matches the path.
pub has_path-imported_by :
    (imports : ImportGraph) (file path : Bytes)
    → distinct_keys imports ≡ true
    → has_path file (imported_by imports path)
      ≡ any_import (imports_path path) (imports_in (get file imports))
unfolding imported_by get has_path
has_path-imported_by [] file path distinct = unfold any_import in refl
has_path-imported_by ((f, infos) ∷ imports) file path distinct = elim (Bool-cases (str_eq file f)) [
  | inl same ↦
      let e : file ≡ f = (str_eq_iff file f).0 same in
      let absent : has_key file imports ≡ false = rw e (ground arith) in
      ground (arith, absent-imported_by imports file path absent)
  | inr other ↦ ground (arith, has_path-imported_by imports file path (ground arith))
]

-- How often a text stands in a list.
unfoldable pub occurrences : Bytes → List Bytes → ℕ
occurrences s [] = 0
occurrences s (t ∷ ts) = let rest = occurrences s ts in if str_eq s t then suc rest else rest

-- The number of imports that name a symbol.
unfoldable pub imports_naming : Bytes → List ImportInfo → ℕ
imports_naming symbol [] = 0
imports_naming symbol (i ∷ infos) =
    let rest = imports_naming symbol infos in if has_symbol symbol i.symbols then suc rest else rest

occurrences-append :
    (s : Bytes) (xs ys : List Bytes)
    → occurrences s (xs ++ ys) ≡ occurrences s xs + occurrences s ys
unfolding occurrences
occurrences-append s [] ys = omega arith
occurrences-append s (x ∷ xs) ys = ground (arith, occurrences-append s xs ys)

pushed_same :
    (symbol file : Bytes) (infos : List ImportInfo)
    → occurrences file (push_importing symbol file infos) ≡ imports_naming symbol infos
unfolding occurrences push_importing imports_naming
pushed_same symbol file [] = refl
pushed_same symbol file (i ∷ infos) =
    ground (arith, pushed_same symbol file infos, str_eq_refl file)

pushed_other :
    (symbol file f : Bytes) (infos : List ImportInfo)
    → str_eq file f ≡ false
    → occurrences file (push_importing symbol f infos) ≡ 0
unfolding occurrences push_importing
pushed_other symbol file f [] h = refl
pushed_other symbol file f (i ∷ infos) h = ground (arith, pushed_other symbol file f infos h)

absent-importing :
    (imports : ImportGraph) (file symbol : Bytes)
    → has_key file imports ≡ false
    → occurrences file (files_importing_symbol imports symbol) ≡ 0
unfolding files_importing_symbol has_key
absent-importing [] file symbol h = unfold occurrences in refl
absent-importing ((f, infos) ∷ imports) file symbol h =
    let other : str_eq file f ≡ false = ground arith in
    let rest : has_key file imports ≡ false = ground arith in
    omega (
      arith,
      occurrences-append file (push_importing symbol f infos)
          (files_importing_symbol imports symbol),
      pushed_other symbol file f infos other,
      absent-importing imports file symbol rest,
    )

-- In a graph with distinct keys, files_importing_symbol lists a file as often as the file has
-- imports that name the symbol, not once.
pub occurrences-files_importing_symbol :
    (imports : ImportGraph) (file symbol : Bytes)
    → distinct_keys imports ≡ true
    → occurrences file (files_importing_symbol imports symbol)
      ≡ imports_naming symbol (imports_in (get file imports))
unfolding files_importing_symbol get
occurrences-files_importing_symbol [] file symbol distinct =
    unfold occurrences imports_naming in refl
occurrences-files_importing_symbol ((f, infos) ∷ imports) file symbol distinct =
    occurrences-append file (push_importing symbol f infos) (files_importing_symbol imports symbol)
    ∙ elim (Bool-cases (str_eq file f)) [
      | inl same ↦
          let e : file ≡ f = (str_eq_iff file f).0 same in
          let absent : has_key file imports ≡ false = rw e (ground arith) in
          let here : occurrences file (push_importing symbol f infos)
              ≡ imports_naming symbol infos =
            rw e (pushed_same symbol f infos) in
          rw same (omega (arith, here, absent-importing imports file symbol absent))
      | inr other ↦ rw other (
          omega (
            arith,
            pushed_other symbol file f infos other,
            occurrences-files_importing_symbol imports file symbol (ground arith),
          ))
    ]
