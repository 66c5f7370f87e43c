-- ===== src/Daemon/Watcher/Tests.antt =====
-- A watcher of two indexes.
use gogol.Prelude.{ℕ, ◌≡◌, refl, true, List, [], ◌∷◌, ◌++◌}
use gogol.Text.{codes, str_eq, rfind}
use gogol.Dict.{get}
use gogol.Dict.Order.{is_sorted}
use gogol.Daemon.Watcher.{FileWatcher, has_settled, is_relevant, has_ext, is_hidden, debounce_of}
use gogol.Daemon.Watcher.Debounce.{Event, run, calls_of, calls_of-run, calls_of-burst}

abbrev watcher : FileWatcher
watcher = record {
  watching = true;
  pending = [];
  dir_to_index = (codes "/a", codes "one") ∷ (codes "/b", codes "two") ∷ [];
  debounce_ms = 2000;
  index_exts = (codes "one", codes "cpp" ∷ codes "h" ∷ []) ∷ [];
  index_debounce = (codes "two", 1000) ∷ [];
}

-- Two changes of one index, with a change of the other and a file that does not count.
abbrev changes : List (ℕ × Event)
changes =
    (1000000000, Event.change (codes "/a") (codes "x.cpp"))
    ∷ (1200000000, Event.change (codes "/b") (codes "y.md"))
    ∷ (2500000000, Event.round)
    ∷ (2600000000, Event.change (codes "/a") (codes "x.h"))
    ∷ (2700000000, Event.change (codes "/a") (codes ".x.swp"))
    ∷ (3100000000, Event.round)
    ∷ []

calls_of-run_example :
    calls_of (codes "two") (run (changes ++ (4600000000, Event.round) ∷ []) watcher)
    ≡ 2500000000 ∷ []
unfolding has_settled is_relevant has_ext is_hidden debounce_of get str_eq rfind is_sorted
calls_of-run_example =
    calls_of-run (codes "two") (changes ++ (4600000000, Event.round) ∷ []) watcher refl

calls_of-burst_example :
    calls_of (codes "one") (run (changes ++ (4600000000, Event.round) ∷ []) watcher)
    ≡ 4600000000 ∷ []
unfolding has_settled is_relevant has_ext is_hidden debounce_of get str_eq rfind is_sorted
calls_of-burst_example =
    calls_of-burst (codes "one") changes watcher 4600000000 2600000000 refl refl refl refl
