-- ===== src/Daemon/Snapshots/Tests.antt =====
-- Two updates of one index, with a reader in between.
use gogol.Prelude.{ℕ, ◌+◌, refl, none, some, [], ◌∷◌}
use gogol.Text.{codes, str_eq}
use gogol.Dict.{get, put}
use gogol.Daemon.Snapshots.{
  DaemonState, Update, System, Runs, idle, start, submits, takes, copies, ends, reads, snapshot,
  mutable_copy, publish, finish,
}
use gogol.Daemon.Snapshots.Current.{IsCurrent, Runs-IsCurrent}

abbrev empty_state : DaemonState ℕ
empty_state = record { indexes = [] }

abbrev count : Update ℕ
count = record { name = codes "web"; change = λ n. some (n + 1) }

-- An update whose operation fails.
abbrev refused : Update ℕ
refused = record { name = codes "web"; change = λ n. none }

abbrev after_both : System ℕ
after_both = record {
  state = record { indexes = (codes "web", 1) ∷ [] };
  queue = [];
  writer = idle;
  held = (codes "web", none) ∷ [];
}

both_done : Runs 0 empty_state (count ∷ refused ∷ []) after_both
unfolding finish publish mutable_copy snapshot get put str_eq
both_done =
    ends refused 1
      (copies refused
        (takes refused []
          (ends count 0
            (reads (codes "web") (
              copies count
                (takes count (refused ∷ []) (submits refused (submits count start)) refl refl)
                refl))
            refl)
          refl refl)
        refl)
      refl

Runs-IsCurrent_example : IsCurrent 0 empty_state (count ∷ refused ∷ []) after_both
Runs-IsCurrent_example = Runs-IsCurrent 0 empty_state _ after_both both_done
