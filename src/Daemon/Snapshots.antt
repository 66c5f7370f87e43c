-- ===== src/Daemon/Snapshots.antt =====
-- The index snapshots of DaemonState, src/daemon/embed_server.cpp: readers take them, the jobs of
-- the single writer copy, change and publish them. An index is whatever the jobs change; the steps
-- of the reader threads fall between those of a job.
pub mod Current
mod Tests
use gogol.Prelude.{◌≡◌, Bool, true, false, Option, none, some, List, [], ◌∷◌, ◌++◌, if◌then◌else◌}
use gogol.Text.{Bytes, str_eq}
use gogol.Dict.{Dict, get, put}

pub record DaemonState {ℓ} (Index : Type ℓ) : Type ℓ where
  pub indexes : Dict Index

-- What a write job does to one index: none where it throws or its operation is not ok, so that
-- nothing is published.
pub record Update {ℓ} (Index : Type ℓ) : Type ℓ where
  pub name : Bytes
  pub change : Index → Option Index

-- Where the writer stands in its job.
pub data Writer {ℓ} (Index : Type ℓ) : Type ℓ where
  idle : Writer Index
  taken : Update Index → Writer Index
  copied : Update Index → Index → Writer Index

-- `held` are the snapshots that readers took, with the names asked for.
pub record System {ℓ} (Index : Type ℓ) : Type ℓ where
  pub state : DaemonState Index
  pub queue : List (Update Index)
  pub writer : Writer Index
  pub held : List (Bytes × Option Index)

abbrev pub or_new {ℓ} : {Index : Type ℓ} → Index → Option Index → Index
or_new new none = new
or_new new (some idx) = idx

abbrev pub in_hand {ℓ} : {Index : Type ℓ} → Writer Index → List (Update Index)
in_hand idle = []
in_hand (taken u) = u ∷ []
in_hand (copied u idx) = u ∷ []

-- `new_index` is Index{}.
module _ {ℓ} {Index : Type ℓ} (new_index : Index) where
  unfoldable pub snapshot : DaemonState Index → Bytes → Option Index
  snapshot st name = get name st.indexes

  unfoldable pub mutable_copy : DaemonState Index → Bytes → Index
  unfolding snapshot
  mutable_copy st name = or_new new_index (snapshot st name)

  unfoldable pub publish : Bytes → Index → DaemonState Index → DaemonState Index
  publish name idx st = record st { indexes = put name idx st.indexes }

  -- The end of a job: the changed copy is published, or dropped.
  unfoldable pub finish : Update Index → Index → DaemonState Index → DaemonState Index
  unfolding publish
  finish u idx st = elim (u.change idx) [ none ↦ st | some idx' ↦ publish u.name idx' st ]

  -- Every interleaving of the threads from a state with nothing to do, with the updates submitted.
  pub data Runs (st : DaemonState Index) : List (Update Index) → System Index → Type ℓ where
    start : Runs st [] (record { state = st; queue = []; writer = idle; held = [] })
    submits :
        (u : Update Index) {us : List (Update Index)} {s : System Index}
        → Runs st us s
        → Runs st (us ++ u ∷ []) (record s { queue = s.queue ++ u ∷ [] })
    takes :
        (u : Update Index) (rest : List (Update Index)) {us : List (Update Index)}
        {s : System Index}
        → Runs st us s
        → s.writer ≡ idle
        → s.queue ≡ u ∷ rest
        → Runs st us (record s { queue = rest; writer = taken u })
    copies :
        (u : Update Index) {us : List (Update Index)} {s : System Index}
        → Runs st us s
        → s.writer ≡ taken u
        → Runs st us (record s { writer = copied u (mutable_copy s.state u.name) })
    ends :
        (u : Update Index) (idx : Index) {us : List (Update Index)} {s : System Index}
        → Runs st us s
        → s.writer ≡ copied u idx
        → Runs st us (record s { state = finish u idx s.state; writer = idle })
    reads :
        (name : Bytes) {us : List (Update Index)} {s : System Index}
        → Runs st us s
        → Runs st us (record s { held = (name, snapshot s.state name) ∷ s.held })

  -- The independent description: the version of each index after a sequence of updates, each
  -- applied whole to what the one before it left.
  unfoldable pub apply : Update Index → (Bytes → Option Index) → Bytes → Option Index
  apply u versions name =
      if str_eq name u.name
      then elim (u.change (or_new new_index (versions u.name))) [
        | none ↦ versions name
        | some idx ↦ some idx
      ]
      else versions name

  unfoldable pub versions_after :
      List (Update Index) → (Bytes → Option Index) → Bytes → Option Index
  versions_after [] versions = versions
  versions_after (u ∷ us) versions = versions_after us (apply u versions)
