-- ===== src/Daemon/Watcher/Debounce.antt =====
-- Sequences of changes and rounds of the loop, and what they are for one index alone.
use gogol.Prelude.{
  ℕ, ◌≡◌, refl, ap, ap₂, ◌∙◌, Bool, true, false, not, ◌&&◌, Option, none, some, List, [], ◌∷◌, ◌++◌,
  if◌then◌else◌, map, keep, Bool-cases, Option-cases, inl, inr,
}
use gogol.Text.{Bytes, str_eq}
use gogol.Dict.{Dict, get, get-put}
use gogol.Dict.Order.{
  is_sorted, is_sorted-put, distinct_keys-is_sorted, is_sorted-keep, kept, get-keep, is_taken,
  keys-keep,
}
use gogol.Storage.Sqlite.Kept.{not-false, and-left, and-right}
use gogol.Daemon.Watcher.{
  FileWatcher, is_relevant, mark_changed, has_settled, debounce_of, is_ready, debounce_round,
}

-- What happens to the watcher: a notice of the system, or the end of the sleep.
pub data Event : Type 0 where
  change : Bytes → Bytes → Event
  round : Event

-- The callbacks, with the times of their rounds, of events with their times.
abbrev pub run : List (ℕ × Event) → FileWatcher → List (ℕ × List Bytes)
run [] st = []
run ((now, Event.change dir filename) ∷ es) st = run es (mark_changed dir filename now st)
run ((now, Event.round) ∷ es) st =
    let (ready, st') = debounce_round now st in (now, ready) ∷ run es st'

-- The times of the callbacks with the index, each as often as it is called.
abbrev pub calls_of : Bytes → List (ℕ × List Bytes) → List ℕ
calls_of idx [] = []
calls_of idx ((now, ready) ∷ rounds) =
    map (λ i. now) (keep (str_eq idx) ready) ++ calls_of idx rounds

-- Whether a change concerns the index, by the index of its directory.
abbrev pub concern : Bytes → Bytes → Dict (List Bytes) → Option Bytes → Bool
concern idx filename exts none = false
concern idx filename exts (some i) = str_eq idx i && is_relevant (get i exts) filename

abbrev pub concerns : FileWatcher → Bytes → Bytes → Bytes → Bool
concerns st idx dir filename = concern idx filename st.index_exts (get dir st.dir_to_index)

-- One index alone: the time of its last change, where that waits, and the times of its callbacks.
abbrev pub alone : (Bytes → Bytes → Bool) → ℕ → List (ℕ × Event) → Option ℕ → List ℕ
alone about debounce [] waits = []
alone about debounce ((now, Event.change dir filename) ∷ es) waits =
    alone about debounce es (if about dir filename then some now else waits)
alone about debounce ((now, Event.round) ∷ es) none = alone about debounce es none
alone about debounce ((now, Event.round) ∷ es) (some time) =
    if has_settled debounce now time
    then now ∷ alone about debounce es none
    else alone about debounce es (some time)

get-mark_changed :
    (idx dir filename : Bytes) (now : ℕ) (st : FileWatcher)
    → get idx (mark_changed dir filename now st).pending
      ≡ (if concerns st idx dir filename then some now else get idx st.pending)
unfolding mark_changed
get-mark_changed idx dir filename now st = elim (Option-cases (get dir st.dir_to_index)) [
  | inl unknown ↦ rw (unknown, mark_changed) refl
  | inr (i, known) ↦ elim (Bool-cases (is_relevant (get i st.index_exts) filename)) [
    | inl relevant ↦
        rw (known, mark_changed)
          (rw relevant (
            get-put idx i now st.pending ∙ (elim (Bool-cases (str_eq idx i)) [
              | inl same ↦ rw same refl
              | inr other ↦ rw other refl
            ])))
    | inr irrelevant ↦
        rw (known, mark_changed)
          (rw irrelevant (elim (Bool-cases (str_eq idx i)) [
            | inl same ↦ rw same refl
            | inr other ↦ rw other refl
          ]))
  ]
]

-- The settings of the watcher, which stay.
abbrev Settings : Type 0
Settings = Dict Bytes × ℕ × Dict (List Bytes) × Dict ℕ

abbrev settings : FileWatcher → Settings
settings st = (st.dir_to_index, st.debounce_ms, st.index_exts, st.index_debounce)

mark_changed-keeps :
    (dir filename : Bytes) (now : ℕ) (st : FileWatcher)
    → is_sorted st.pending ≡ true
    → (settings (mark_changed dir filename now st) ≡ settings st)
      × (is_sorted (mark_changed dir filename now st).pending ≡ true)
unfolding mark_changed
mark_changed-keeps dir filename now st h = elim (Option-cases (get dir st.dir_to_index)) [
  | inl unknown ↦ rw (unknown, mark_changed) (refl, h)
  | inr (i, known) ↦ elim (Bool-cases (is_relevant (get i st.index_exts) filename)) [
    | inl relevant ↦ rw (known, mark_changed) (rw relevant (refl, is_sorted-put i now st.pending h))
    | inr irrelevant ↦ rw (known, mark_changed) (rw irrelevant (refl, h))
  ]
]

-- The state behind one event.
abbrev step : ℕ → Event → FileWatcher → FileWatcher
step now (Event.change dir filename) st = mark_changed dir filename now st
step now Event.round st = (debounce_round now st).1

round_calls :
    (idx : Bytes) (now : ℕ) (st : FileWatcher)
    → is_sorted st.pending ≡ true
    → keep (str_eq idx) (debounce_round now st).0
      ≡ (if is_taken (is_ready st now) idx (get idx st.pending) then idx ∷ [] else [])
unfolding debounce_round
round_calls idx now st h =
    keys-keep (is_ready st now) idx st.pending (distinct_keys-is_sorted st.pending h)

round_pending :
    (idx : Bytes) (now : ℕ) (st : FileWatcher)
    → is_sorted st.pending ≡ true
    → get idx (debounce_round now st).1.pending
      ≡ kept (λ p. not (is_ready st now p)) idx (get idx st.pending)
unfolding debounce_round
round_pending idx now st h =
    get-keep (λ p. not (is_ready st now p)) idx st.pending (distinct_keys-is_sorted st.pending h)

round_keeps :
    (now : ℕ) (st : FileWatcher)
    → is_sorted st.pending ≡ true
    → (settings (debounce_round now st).1 ≡ settings st)
      × (is_sorted (debounce_round now st).1.pending ≡ true)
unfolding debounce_round
round_keeps now st h = (refl, is_sorted-keep (λ p. not (is_ready st now p)) st.pending h)

-- The watcher, by its settings and by what waits.
abbrev with_settings : Settings → Bytes → Bytes → Bytes → Bool
with_settings s idx dir filename = concern idx filename s.2 (get dir s.0)

abbrev debounce_with : Settings → Bytes → ℕ
debounce_with s idx = elim (get idx s.3) [ none ↦ s.1 | some ms ↦ ms ]

-- In every sequence of changes and rounds, from a map of waiting changes in the order of its keys,
-- each index is debounced on its own: the callbacks with an index come in the rounds at which its own
-- last change has settled, whatever happens to the other indexes.
pub calls_of-run :
    (idx : Bytes) (es : List (ℕ × Event)) (st : FileWatcher)
    → is_sorted st.pending ≡ true
    → calls_of idx (run es st)
      ≡ alone (concerns st idx) (debounce_of st idx) es (get idx st.pending)
unfolding debounce_of is_ready
calls_of-run idx [] st h = refl
calls_of-run idx ((now, Event.change dir filename) ∷ es) st h =
    let keeps = mark_changed-keeps dir filename now st h in
    calls_of-run idx es (mark_changed dir filename now st) keeps.1
    ∙ ap
        (λ s.
          alone (with_settings s idx) (debounce_with s idx) es
            (get idx (mark_changed dir filename now st).pending))
        keeps.0
    ∙ ap (alone (concerns st idx) (debounce_of st idx) es)
        (get-mark_changed idx dir filename now st)
calls_of-run idx ((now, Event.round) ∷ es) st h =
    let keeps = round_keeps now st h in
    ap₂ (λ ready calls. map (λ i. now) ready ++ calls) (round_calls idx now st h)
      (calls_of-run idx es (debounce_round now st).1 keeps.1
        ∙ ap
            (λ s.
              alone (with_settings s idx) (debounce_with s idx) es
                (get idx (debounce_round now st).1.pending))
            keeps.0
        ∙ ap (alone (concerns st idx) (debounce_of st idx) es) (round_pending idx now st h))
    ∙ (elim (Option-cases (get idx st.pending)) [
      | inl idle ↦ rw idle refl
      | inr (time, waits) ↦ elim (Bool-cases (has_settled (debounce_of st idx) now time)) [
        | inl settled ↦ rw waits (rw settled refl)
        | inr early ↦ rw waits (rw early refl)
      ]
    ])

-- The last change that concerns the index, or what waited before.
abbrev pub last_change : (Bytes → Bytes → Bool) → List (ℕ × Event) → Option ℕ → Option ℕ
last_change about [] waits = waits
last_change about ((now, Event.change dir filename) ∷ es) waits =
    last_change about es (if about dir filename then some now else waits)
last_change about ((now, Event.round) ∷ es) waits = last_change about es waits

-- No round comes when the debounce time has passed since the last change before it.
abbrev pub is_burst : (Bytes → Bytes → Bool) → ℕ → List (ℕ × Event) → Option ℕ → Bool
is_burst about debounce [] waits = true
is_burst about debounce ((now, Event.change dir filename) ∷ es) waits =
    is_burst about debounce es (if about dir filename then some now else waits)
is_burst about debounce ((now, Event.round) ∷ es) none = is_burst about debounce es none
is_burst about debounce ((now, Event.round) ∷ es) (some time) =
    not (has_settled debounce now time) && is_burst about debounce es (some time)

alone-is_burst :
    (about : Bytes → Bytes → Bool) (debounce : ℕ) (es more : List (ℕ × Event)) (waits : Option ℕ)
    → is_burst about debounce es waits ≡ true
    → alone about debounce (es ++ more) waits
      ≡ alone about debounce more (last_change about es waits)
alone-is_burst about debounce [] more waits h = refl
alone-is_burst about debounce ((now, Event.change dir filename) ∷ es) more waits h =
    alone-is_burst about debounce es more (if about dir filename then some now else waits) h
alone-is_burst about debounce ((now, Event.round) ∷ es) more none h =
    alone-is_burst about debounce es more none h
alone-is_burst about debounce ((now, Event.round) ∷ es) more (some time) h =
    rw (not-false (has_settled debounce now time) (and-left _ _ h))
      (alone-is_burst about debounce es more (some time) (and-right _ _ h))

-- From a map of waiting changes in the order of its keys: if no round of a sequence comes when the
-- changes of an index have settled, and they have settled in the round behind it, then that is the
-- only round with a callback for the index, and there is one.
pub calls_of-burst :
    (idx : Bytes) (es : List (ℕ × Event)) (st : FileWatcher) (now time : ℕ)
    → is_sorted st.pending ≡ true
    → is_burst (concerns st idx) (debounce_of st idx) es (get idx st.pending) ≡ true
    → last_change (concerns st idx) es (get idx st.pending) ≡ some time
    → has_settled (debounce_of st idx) now time ≡ true
    → calls_of idx (run (es ++ (now, Event.round) ∷ []) st) ≡ now ∷ []
calls_of-burst idx es st now time h burst last settled =
    calls_of-run idx (es ++ (now, Event.round) ∷ []) st h
    ∙ alone-is_burst (concerns st idx) (debounce_of st idx) es ((now, Event.round) ∷ [])
        (get idx st.pending) burst
    ∙ rw (last, settled) refl
