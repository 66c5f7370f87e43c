-- ===== src/Storage/Types.antt =====
-- src/storage/type_store.{h,cpp} and src/storage/metrics_store.{h,cpp}, with FunctionMetrics of
-- src/core/types.h, and src/storage/export_store.{h,cpp}.

use gogol.Prelude.{
  ℕ, Bool, true, false, ◌&&◌, ◌||◌, ◌==◌, is_nil, Option, none, some, List, [], ◌∷◌, if◌then◌else◌,
  keep,
}
use gogol.Text.{Bytes, str_eq}
use gogol.Dict.{Dict, get}

pub record StoredTypeEdge : Type 0 where
  pub name : Bytes
  pub parent : Bytes
  pub kind : Bytes
  pub file : Bytes
  pub line : ℕ

-- The member `edges`.
abbrev pub TypeGraph : Type 0
TypeGraph = List StoredTypeEdge

unfoldable pub parents_of : TypeGraph → Bytes → List StoredTypeEdge
parents_of edges name = keep (λ e. str_eq e.name name) edges

unfoldable pub children_of : TypeGraph → Bytes → List StoredTypeEdge
children_of edges name = keep (λ e. str_eq e.parent name) edges

pub record FunctionMetrics : Type 0 where
  pub name : Bytes
  pub file : Bytes
  pub line : ℕ
  pub complexity : ℕ
  pub lines : ℕ
  pub params : ℕ
  pub returns : ℕ
  pub max_depth : ℕ

-- The member `entries`.
abbrev pub MetricsStore : Type 0
MetricsStore = List FunctionMetrics

-- Whether the text begins with the other.
unfoldable pub starts_with : Bytes → Bytes → Bool
starts_with [] s = true
starts_with (x ∷ xs) [] = false
starts_with (x ∷ xs) (y ∷ ys) = x == y && starts_with xs ys

-- s.find(t) != npos.
unfoldable pub contains : Bytes → Bytes → Bool
unfolding starts_with
contains [] t = is_nil t
contains (x ∷ s) t = starts_with t (x ∷ s) || contains s t

unfoldable pub for_file : MetricsStore → Bytes → MetricsStore
unfolding contains
for_file entries file = keep (λ m. str_eq m.file file || contains m.file file) entries

-- The first of the name, none for the null pointer.
unfoldable pub find_metrics : MetricsStore → Bytes → Option FunctionMetrics
find_metrics [] name = none
find_metrics (m ∷ entries) name =
    let rest = find_metrics entries name in if str_eq m.name name then some m else rest

-- The member `exports`.
abbrev pub ExportStore : Type 0
ExportStore = Dict (List Bytes)

unfoldable pub exports_of : ExportStore → Bytes → List Bytes
exports_of exports file = elim (get file exports) [ none ↦ [] | some names ↦ names ]
