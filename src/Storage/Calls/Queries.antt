-- ===== src/Storage/Calls/Queries.antt =====
-- The queries over several indexes give each answer once.
use gogol.Prelude.{
  ◌≡◌, refl, sym, ap, ◌∙◌, true, false, ◌||◌, inl, inr, Bool-cases, List, [], ◌∷◌, ◌++◌, map, foldl,
  arith,
}
use gogol.Text.{Bytes, str_eq}
use gogol.Storage.Calls.Sets.{
  member-insert, member-append, distinct, distinct-last, repeated, regroup, insert_or,
}
use gogol.Storage.Calls.{
  StoredCallEdge, CallGraph, insert, member, files_loop, files_defining, Edge, Graphs, edge_key,
  see_edge, over_graphs, callees_of, find_callees, callers_of, find_callers, callees_in_file,
  find_callees_in, defining_files, calls_in, find_index_for,
}

-- What an answer is told apart by.
abbrev pub out_key : Edge → Bytes
out_key e = e.name ++ (b'\t' ∷ e.file)

module _ (end : StoredCallEdge → Bytes) where
  keys_of : List StoredCallEdge → List Bytes
  keys_of = map (edge_key end)

  -- The keys seen are those of the results, and no result stands twice.
  IsSeen : List Bytes × List Edge → Type 0
  IsSeen (seen, result) =
      ((k : Bytes) → member k seen ≡ member k (map out_key result))
      × (distinct (map out_key result) ≡ true)

  out_keys_last :
      (result : List Edge) (e : Edge)
      → map out_key (result ++ e ∷ []) ≡ map out_key result ++ out_key e ∷ []
  out_keys_last [] e = refl
  out_keys_last (d ∷ result) e = ap (◌∷◌ (out_key d)) (out_keys_last result e)

  push-IsSeen :
      (seen : List Bytes) (result : List Edge) (e : Edge)
      → member (out_key e) seen ≡ false
      → IsSeen (seen, result)
      → IsSeen (insert (out_key e) seen, result ++ e ∷ [])
  unfolding IsSeen
  push-IsSeen seen result e fresh (same, once) = (
    λ k.
        rw
          (
            member-insert k (out_key e) seen,
            out_keys_last result e,
            member-append k (map out_key result) (out_key e ∷ []),
            same k,
          )
          (unfold member in ground arith),
    rw (out_keys_last result e)
        (distinct-last (map out_key result) (out_key e) once (sym (same (out_key e)) ∙ fresh)),
  )

  -- The keys of the results after a loop: those before it and those of the edges that it went over.
  Gains : List Bytes × List Edge → List Bytes → List Bytes × List Edge → Type 0
  Gains s keys s' =
      IsSeen s'
      × ((k : Bytes) → member k (map out_key s'.1) ≡ (member k (map out_key s.1) || member k keys))

  again-Gains :
      (seen : List Bytes) (result : List Edge) (key : Bytes)
      → member key seen ≡ true
      → IsSeen (seen, result)
      → Gains (seen, result) (key ∷ []) (seen, result)
  unfolding Gains IsSeen
  again-Gains seen result key h ok =
      (ok, λ k. repeated k key (map out_key result) (sym (ok.0 key) ∙ h))

  fresh-Gains :
      (seen : List Bytes) (result : List Edge) (e : Edge)
      → member (out_key e) seen ≡ false
      → IsSeen (seen, result)
      → Gains (seen, result) (out_key e ∷ []) (insert (out_key e) seen, result ++ e ∷ [])
  unfolding Gains
  fresh-Gains seen result e fresh ok = (
    push-IsSeen seen result e fresh ok,
    λ k. rw (out_keys_last result e) (member-append k (map out_key result) (out_key e ∷ [])),
  )

  see_edge-Gains :
      (index : Bytes) (s : List Bytes × List Edge) (e : StoredCallEdge)
      → IsSeen s
      → Gains s (edge_key end e ∷ []) (see_edge end index s e)
  unfolding see_edge
  see_edge-Gains index (seen, result) e ok = elim (Bool-cases (member (edge_key end e) seen)) [
    | inl again ↦ rw again (again-Gains seen result (edge_key end e) again ok)
    | inr fresh ↦ rw fresh (
        fresh-Gains seen result
          (record { name = end e; file = e.file; index = index; line = e.line }) fresh ok)
  ]

  Gains-trans :
      (s t u : List Bytes × List Edge) (xs ys : List Bytes)
      → Gains s xs t
      → Gains t ys u
      → Gains s (xs ++ ys) u
  unfolding Gains
  Gains-trans s t u xs ys (_, first) (ok, second) =
      (ok, λ k. second k ∙ regroup k (map out_key t.1) (map out_key s.1) xs ys (first k))

  Gains-nil : (s : List Bytes × List Edge) → IsSeen s → Gains s [] s
  unfolding Gains member
  Gains-nil s ok = (ok, λ k. ground arith)

  Gains-IsSeen : (s t : List Bytes × List Edge) (xs : List Bytes) → Gains s xs t → IsSeen t
  unfolding Gains
  Gains-IsSeen s t xs g = g.0

  fold-Gains :
      (index : Bytes) (edges : List StoredCallEdge) (s : List Bytes × List Edge)
      → IsSeen s
      → Gains s (keys_of edges) (foldl (see_edge end index) s edges)
  unfolding keys_of
  fold-Gains index [] s ok = Gains-nil s ok
  fold-Gains index (e ∷ edges) s ok =
      let t = see_edge end index s e in
      let g = see_edge-Gains index s e ok in
      Gains-trans s t (foldl (see_edge end index) t edges) (edge_key end e ∷ []) (keys_of edges) g
        (fold-Gains index edges t (Gains-IsSeen s t (edge_key end e ∷ []) g))

  -- The keys of all edges that a query selects, over all indexes.
  pub selected : (CallGraph → List StoredCallEdge) → Graphs → List Bytes
  selected select [] = []
  selected select ((index, edges) ∷ graphs) = keys_of (select edges) ++ selected select graphs

  over_graphs-Gains :
      (select : CallGraph → List StoredCallEdge) (graphs : Graphs) (s : List Bytes × List Edge)
      → IsSeen s
      → Gains s (selected select graphs) (over_graphs end select graphs s)
  unfolding selected over_graphs
  over_graphs-Gains select [] s ok = Gains-nil s ok
  over_graphs-Gains select ((index, edges) ∷ graphs) s ok =
      let t = foldl (see_edge end index) s (select edges) in
      let g = fold-Gains index (select edges) s ok in
      Gains-trans s t (over_graphs end select graphs t) (keys_of (select edges))
        (selected select graphs) g
        (over_graphs-Gains select graphs t (Gains-IsSeen s t (keys_of (select edges)) g))

  over_graphs-once :
      (select : CallGraph → List StoredCallEdge) (graphs : Graphs)
      → let result = (over_graphs end select graphs ([], [])).1 in
        (distinct (map out_key result) ≡ true)
        × ((k : Bytes) → member k (map out_key result) ≡ member k (selected select graphs))
  unfolding Gains IsSeen member distinct
  over_graphs-once select graphs =
      let (ok, gained) = over_graphs-Gains select graphs ([], []) ((λ k. refl), refl) in
      (ok.1, gained)

-- No answer stands twice, and the keys of the answers are these.
abbrev pub IsOnce : List Edge → List Bytes → Type 0
IsOnce result keys =
    (distinct (map out_key result) ≡ true)
    × ((k : Bytes) → member k (map out_key result) ≡ member k keys)

-- Each of the three queries gives an answer for exactly the functions and files of the edges that
-- it selects in any of the indexes, and gives each of them once.
pub find-IsOnce :
    (graphs : Graphs) (name file : Bytes)
    → IsOnce (find_callees graphs name) (selected (λ e. e.callee) (λ g. callees_of g name) graphs)
      × IsOnce
          (find_callees_in graphs name file)
          (selected (λ e. e.callee) (λ g. callees_in_file g name file) graphs)
      × IsOnce (find_callers graphs name) (selected (λ e. e.caller) (λ g. callers_of g name) graphs)
unfolding find_callees find_callees_in find_callers
find-IsOnce graphs name file = (
  over_graphs-once (λ e. e.callee) (λ g. callees_of g name) graphs,
  over_graphs-once (λ e. e.callee) (λ g. callees_in_file g name file) graphs,
  over_graphs-once (λ e. e.caller) (λ g. callers_of g name) graphs,
)

member-files_loop :
    (name f : Bytes) (edges : CallGraph) (files : List Bytes)
    → member f (files_loop name edges files) ≡ (member f files || calls_in name f edges)
unfolding files_loop calls_in
member-files_loop name f [] files = ground arith
member-files_loop name f (e ∷ edges) files = elim (Bool-cases (str_eq e.caller name)) [
  | inl hit ↦ rw hit (
      member-files_loop name f edges (insert e.file files)
      ∙ insert_or f e.file files (calls_in name f edges))
  | inr miss ↦ rw miss (member-files_loop name f edges files)
]

undefined_here :
    (name f : Bytes) (edges : CallGraph) (others : List Bytes)
    → (member f (files_defining edges name) || member f others) ≡ false
    → calls_in name f edges ≡ false
unfolding files_defining member
undefined_here name f edges others h = ground (arith, member-files_loop name f edges [])

-- find_index_for names an index only for a file that defining_files gives: where the file is none
-- of the files in which the function makes a call, the result is empty.
pub find_index_for_undefined :
    (graphs : Graphs) (name file : Bytes)
    → member file (defining_files graphs name) ≡ false
    → find_index_for graphs name file ≡ []
unfolding defining_files find_index_for files_defining
find_index_for_undefined [] name file h = refl
find_index_for_undefined ((index, edges) ∷ graphs) name file h =
    let apart = member-append file (files_defining edges name) (defining_files graphs name) in
    let here : calls_in name file edges ≡ false =
      undefined_here name file edges (defining_files graphs name) (sym apart ∙ h) in
    let rest : member file (defining_files graphs name) ≡ false = ground (arith, apart) in
    rw here (find_index_for_undefined graphs name file rest)
