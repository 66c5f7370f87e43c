-- ===== src/Storage/Calls.antt =====
-- src/storage/call_store.{h,cpp}, the call edges of an index, and the queries over several indexes
-- in src/core/call_graph_query.{h,cpp}.
pub mod Sets
pub mod Queries
mod Tests
use gogol.Prelude.{
  ℕ, Bool, true, false, ◌&&◌, ◌||◌, Option, none, some, List, [], ◌∷◌, ◌++◌, if◌then◌else◌, keep,
  foldl,
}
use gogol.Text.{Bytes, str_eq}
use gogol.Dict.{str_less}

pub record StoredCallEdge : Type 0 where
  pub caller : Bytes
  pub callee : Bytes
  pub file : Bytes
  pub line : ℕ

abbrev pub CallGraph : Type 0
CallGraph = List StoredCallEdge

unfoldable pub callers_of : CallGraph → Bytes → List StoredCallEdge
callers_of edges name = keep (λ e. str_eq e.callee name) edges

unfoldable pub callees_of : CallGraph → Bytes → List StoredCallEdge
callees_of edges name = keep (λ e. str_eq e.caller name) edges

-- The overload with a file.
unfoldable pub callers_in_file : CallGraph → Bytes → Bytes → List StoredCallEdge
callers_in_file edges name file = keep (λ e. str_eq e.callee name && str_eq e.file file) edges

-- The overload with a file.
unfoldable pub callees_in_file : CallGraph → Bytes → Bytes → List StoredCallEdge
callees_in_file edges name file = keep (λ e. str_eq e.caller name && str_eq e.file file) edges

-- std::set<std::string>: insert, in the order of the elements.
unfoldable pub insert : Bytes → List Bytes → List Bytes
insert x [] = x ∷ []
insert x (y ∷ ys) =
    let rest = insert x ys in
    if str_eq x y then y ∷ ys else if str_less x y then x ∷ y ∷ ys else y ∷ rest

unfoldable pub member : Bytes → List Bytes → Bool
member x [] = false
member x (y ∷ ys) = str_eq x y || member x ys

unfoldable pub files_loop : Bytes → CallGraph → List Bytes → List Bytes
files_loop name [] files = files
files_loop name (e ∷ edges) files =
    files_loop name edges (if str_eq e.caller name then insert e.file files else files)

unfoldable pub files_defining : CallGraph → Bytes → List Bytes
files_defining edges name = files_loop name edges []

-- The results of the queries.
pub record Edge : Type 0 where
  pub name : Bytes
  pub file : Bytes
  pub index : Bytes
  pub line : ℕ

-- The graphs with their names, which CallGraphQuery::load fills side by side.
abbrev pub Graphs : Type 0
Graphs = List (Bytes × CallGraph)

-- e.callee + "\t" + e.file, for the end of the edge that is asked for.
abbrev pub edge_key : (StoredCallEdge → Bytes) → StoredCallEdge → Bytes
edge_key end e = end e ++ (b'\t' ∷ e.file)

-- The body of the inner loop of the queries, with the keys seen and the results so far.
unfoldable pub see_edge :
    (StoredCallEdge → Bytes)
    → Bytes
    → List Bytes × List Edge
    → StoredCallEdge
    → List Bytes × List Edge
see_edge end index (seen, result) e =
    let key = edge_key end e in
    if member key seen then (seen, result) else (
      insert key seen,
      result ++ record { name = end e; file = e.file; index = index; line = e.line } ∷ [],
    )

-- The outer loop, over the indexes.
unfoldable pub over_graphs :
    (StoredCallEdge → Bytes)
    → (CallGraph → List StoredCallEdge)
    → Graphs
    → List Bytes × List Edge
    → List Bytes × List Edge
over_graphs end select [] s = s
over_graphs end select ((index, edges) ∷ graphs) s =
    over_graphs end select graphs (foldl (see_edge end index) s (select edges))

unfoldable pub find_callees : Graphs → Bytes → List Edge
find_callees graphs name = (over_graphs (λ e. e.callee) (λ g. callees_of g name) graphs ([], [])).1

unfoldable pub find_callees_in : Graphs → Bytes → Bytes → List Edge
find_callees_in graphs name file =
    (over_graphs (λ e. e.callee) (λ g. callees_in_file g name file) graphs ([], [])).1

unfoldable pub find_callers : Graphs → Bytes → List Edge
find_callers graphs name = (over_graphs (λ e. e.caller) (λ g. callers_of g name) graphs ([], [])).1

unfoldable pub defining_files : Graphs → Bytes → List Bytes
defining_files [] name = []
defining_files ((index, edges) ∷ graphs) name =
    files_defining edges name ++ defining_files graphs name

-- Whether a graph has an edge that the function makes in the file.
unfoldable pub calls_in : Bytes → Bytes → CallGraph → Bool
calls_in func_name file [] = false
calls_in func_name file (e ∷ edges) =
    (str_eq e.caller func_name && str_eq e.file file) || calls_in func_name file edges

unfoldable pub find_index_for : Graphs → Bytes → Bytes → Bytes
find_index_for [] func_name file = []
find_index_for ((index, edges) ∷ graphs) func_name file =
    let rest = find_index_for graphs func_name file in
    if calls_in func_name file edges then index else rest
