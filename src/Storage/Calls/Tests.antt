-- ===== src/Storage/Calls/Tests.antt =====
-- Two indexes with a call that both have.
use gogol.Prelude.{ℕ, ◌≡◌, refl, [], ◌∷◌}
use gogol.Text.{Bytes, codes, str_eq}
use gogol.Dict.{str_less}
use gogol.Storage.Calls.{
  StoredCallEdge, callers_of, callees_of, callers_in_file, callees_in_file, insert, member,
  files_loop, files_defining, Graphs, see_edge, over_graphs, find_callees, find_callees_in,
  find_callers, defining_files,
}
use gogol.Storage.Calls.Queries.{IsOnce, selected, find-IsOnce}

abbrev call_of : Bytes → ℕ → StoredCallEdge
call_of callee line = record {
  caller = codes "main";
  callee = callee;
  file = codes "m.c";
  line = line;
}

abbrev two_indexes : Graphs
two_indexes =
    (codes "a", call_of (codes "f") 3 ∷ call_of (codes "f") 5 ∷ [])
    ∷ (codes "b", call_of (codes "f") 3 ∷ call_of (codes "g") 9 ∷ [])
    ∷ []

find_callees_test :
    find_callees two_indexes (codes "main")
    ≡ record { name = codes "f"; file = codes "m.c"; index = codes "a"; line = 3 }
      ∷ record { name = codes "g"; file = codes "m.c"; index = codes "b"; line = 9 }
      ∷ []
unfolding find_callees over_graphs callees_of see_edge member insert str_eq str_less
find_callees_test = refl

files_test : defining_files two_indexes (codes "main") ≡ codes "m.c" ∷ codes "m.c" ∷ []
unfolding defining_files files_defining files_loop insert str_eq str_less
files_test = refl

file_scoped_test : callers_in_file (call_of (codes "f") 1 ∷ []) (codes "f") (codes "x.c") ≡ []
unfolding callers_in_file str_eq
file_scoped_test = refl

find-IsOnce_example :
    IsOnce
      (find_callees two_indexes (codes "main"))
      (selected (λ e. e.callee) (λ g. callees_of g (codes "main")) two_indexes)
    × IsOnce
        (find_callees_in two_indexes (codes "main") (codes "m.c"))
        (selected (λ e. e.callee) (λ g. callees_in_file g (codes "main") (codes "m.c")) two_indexes)
    × IsOnce
        (find_callers two_indexes (codes "main"))
        (selected (λ e. e.caller) (λ g. callers_of g (codes "main")) two_indexes)
find-IsOnce_example = find-IsOnce two_indexes (codes "main") (codes "m.c")
