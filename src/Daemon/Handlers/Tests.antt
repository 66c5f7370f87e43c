-- ===== src/Daemon/Handlers/Tests.antt =====
-- Two connections, the first of them finished and reaped.
use gogol.Prelude.{ℕ, ◌≡◌, refl, false, [], ◌∷◌, arith}
use gogol.Daemon.Handlers.{
  HandlerRegistry, spawn, mark_done, finish, reap, shutdown_all, size, Runs, start, spawns,
  finishes, reaps,
}
use gogol.Daemon.Handlers.Joined.{count, once, IsAccounted, Runs-IsAccounted, shutdown_all-joins}

abbrev one_left : HandlerRegistry
one_left = record {
  handlers = record { id = 2; fd = 9; done = false } ∷ [];
  next_id = 3;
  joined = 1 ∷ [];
  cut = [];
}

one_left-Runs : Runs 2 one_left
unfolding spawn finish mark_done reap
one_left-Runs = reaps (finishes 1 (spawns 9 (spawns 8 start)))

shutdown_test :
    ((shutdown_all one_left).joined ≡ 1 ∷ 2 ∷ [])
    × ((shutdown_all one_left).cut ≡ 9 ∷ [])
    × (size one_left ≡ 1)
unfolding shutdown_all size
shutdown_test = (refl, refl, refl)

Runs-IsAccounted_example : IsAccounted 2 one_left
Runs-IsAccounted_example = Runs-IsAccounted 2 one_left one_left-Runs (omega arith)

shutdown_all-joins_example :
    ((shutdown_all one_left).handlers ≡ [])
    × ((a : ℕ) → count a (shutdown_all one_left).joined ≡ once 2 a)
shutdown_all-joins_example = shutdown_all-joins 2 one_left one_left-Runs (omega arith)
