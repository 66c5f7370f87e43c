-- ===== src/Storage/DocRefs.antt =====
-- src/storage/docref_store.{h,cpp}: the links between the documents of an index. A set of paths is
-- a list that is asked for membership; a vector grows at its end.
pub mod Normal
pub mod Resolve
pub mod Lookup
mod Tests
use gogol.Prelude.{
  ℕ, zero, suc, ◌+◌, ◌-◌, Bool, true, false, not, ◌&&◌, ◌||◌, Option, none, some, List, [], ◌∷◌,
  ◌++◌, leb, ◌==◌, if◌then◌else◌, is_nil, length, take, drop,
}
use gogol.Text.{Bytes, codes, str_eq, find, rfind, substr}
use gogol.Text.Segments.{join}
use gogol.Dict.{Dict, get}

pub data RefKind : Type 0 where
  local external : RefKind

pub record DocRefEdge : Type 0 where
  pub kind : RefKind
  pub target : Bytes
  pub text : Bytes

-- The map `refs`: source_file to its edges.
abbrev pub DocRefGraph : Type 0
DocRefGraph = Dict (List DocRefEdge)

unfoldable pub references_of : DocRefGraph → Bytes → List DocRefEdge
references_of refs file = elim (get file refs) [ none ↦ [] | some edges ↦ edges ]

abbrev pub is_local : RefKind → Bool
is_local local = true
is_local external = false

-- The inner loop with its break: one edge that matches is enough.
unfoldable pub refers_to : Bytes → List DocRefEdge → Bool
refers_to file [] = false
refers_to file (e ∷ edges) = (is_local e.kind && str_eq e.target file) || refers_to file edges

unfoldable pub referenced_by : DocRefGraph → Bytes → List Bytes
referenced_by [] file = []
referenced_by ((source, edges) ∷ refs) file =
    let rest = referenced_by refs file in if refers_to file edges then source ∷ rest else rest

-- stack.pop_back().
unfoldable pub pop_back : List Bytes → List Bytes
pop_back stack = take (length stack - 1) stack

-- What a segment does to the stack.
unfoldable pub push_segment : List Bytes → Bytes → List Bytes
push_segment stack seg =
    if is_nil seg || str_eq seg (codes ".")
    then stack
    else if str_eq seg (codes "..")
    then (if not (is_nil stack) then pop_back stack else stack)
    else stack ++ seg ∷ []

-- The loop over the segments, with fuel: a round that goes on has passed a slash.
unfoldable pub segment_loop : ℕ → Bytes → ℕ → List Bytes → List Bytes
segment_loop zero path start stack = stack
segment_loop (suc fuel) path start stack = elim (leb start (length path)) [
  | false ↦ stack
  | true ↦ elim (find b'/' path start) [
    | none ↦ push_segment stack (drop start path)
    | some slash ↦
        segment_loop fuel path (slash + 1) (push_segment stack (substr path start (slash - start)))
  ]
]

unfoldable pub normalize_path : Bytes → Bytes
normalize_path path = join b'/' (segment_loop (length path + 1) path 0 [])

unfoldable pub dirname_of : Bytes → Bytes
dirname_of path = elim (rfind b'/' path) [ none ↦ [] | some slash ↦ substr path 0 slash ]

unfoldable pub starts_with : Bytes → Bytes → Bool
starts_with [] s = true
starts_with (p ∷ ps) [] = false
starts_with (p ∷ ps) (c ∷ s) = p == c && starts_with ps s

-- s.find(pattern) != npos.
unfoldable pub contains : Bytes → Bytes → Bool
contains pattern [] = is_nil pattern
contains pattern (c ∷ s) = starts_with pattern (c ∷ s) || contains pattern s

unfoldable pub has_path : Bytes → List Bytes → Bool
has_path path [] = false
has_path path (p ∷ paths) = str_eq path p || has_path path paths

-- The target without an anchor.
unfoldable pub strip_anchor : Bytes → Bytes
strip_anchor raw_target = elim (find b'#' raw_target 0) [
  | none ↦ raw_target
  | some hash ↦ substr raw_target 0 hash
]

-- The path of a target from the project's root, before it is normalized.
unfoldable pub locate : Bytes → Bytes → Bytes
locate source_file [] = []
locate source_file (c ∷ working) =
    if c == b'/'
    then working
    else (let dir = dirname_of source_file in
        if is_nil dir then c ∷ working else dir ++ (b'/' ∷ c ∷ working))

-- The edge written to `out`, or none for the result `false`.
unfoldable pub resolve_doc_ref : Bytes → Bytes → Bytes → List Bytes → Option DocRefEdge
resolve_doc_ref source_file raw_target link_text valid_indexed_paths =
    let working = strip_anchor raw_target in
    let normalized = normalize_path (locate source_file working) in
    if contains (codes "://") working
    then some (record { kind = external; target = raw_target; text = link_text })
    else if is_nil working
    then none
    else if has_path normalized valid_indexed_paths
    then some (record { kind = local; target = normalized; text = link_text })
    else none
