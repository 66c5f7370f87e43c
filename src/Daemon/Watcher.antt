-- ===== src/Daemon/Watcher.antt =====
-- src/daemon/file_watcher.cpp: the changes that wait until they have settled. `mark_changed` is what
-- the build with inotify calls, `fsevents_change` that with FSEvents. A time is a number of nanoseconds of std::chrono::steady_clock.
pub mod Debounce
mod Tests
use gogol.Prelude.{
  ℕ, ◌+◌, ◌-◌, ◌*◌, ◌^◌, Bool, true, false, not, ◌&&◌, ◌||◌, Option, none, some, List, [], ◌∷◌,
  ◌++◌, map, foldl, ltb, leb, ◌==◌, if◌then◌else◌, is_nil, length, drop, keep,
}
use gogol.Text.{Bytes, codes, str_eq, rfind}
use gogol.Dict.{Dict, get, put}
use gogol.Config.{IndexConfig}
use gogol.Config.Global.{GlobalConfig, effective_watch, effective_watch_debounce_ms}
use gogol.Storage.Calls.{insert}
use gogol.Storage.Types.{starts_with, contains}
use gogol.Adapters.Files.{FileSystem}

-- The globals: the changes that wait, by index, with the time of the last one; the indexes of the
-- directories that are watched; the extensions and the debounce times of the indexes.
pub record FileWatcher : Type 0 where
  pub watching : Bool
  pub pending : Dict ℕ
  pub dir_to_index : Dict Bytes
  pub debounce_ms : ℕ
  pub index_exts : Dict (List Bytes)
  pub index_debounce : Dict ℕ

-- g_index_exts[idx_name].count(ext).
unfoldable pub has_ext : Bytes → List Bytes → Bool
has_ext ext [] = false
has_ext ext (e ∷ exts) = str_eq ext e || has_ext ext exts

-- filename[0] == '.'.
unfoldable pub is_hidden : Bytes → Bool
is_hidden [] = false
is_hidden (c ∷ s) = c == b'.'

-- Whether a change of the file counts for an index with these extensions.
unfoldable pub is_relevant : Option (List Bytes) → Bytes → Bool
unfolding has_ext is_hidden
is_relevant none filename = true
is_relevant (some exts) filename =
    if is_nil filename
    then true
    else if is_hidden filename
    then false
    else elim (rfind b'.' filename) [
      | none ↦ false
      | some dot ↦ has_ext (drop (dot + 1) filename) exts
    ]

-- `filename` is empty where it is not known.
unfoldable pub mark_changed : Bytes → Bytes → ℕ → FileWatcher → FileWatcher
unfolding is_relevant
mark_changed dir filename now st = elim (get dir st.dir_to_index) [
  | none ↦ st
  | some idx_name ↦
      if is_relevant (get idx_name st.index_exts) filename
      then record st { pending = put idx_name now st.pending }
      else st
]

-- The index of the first directory, in the order of the map, that the path begins with.
unfoldable pub index_of_path : Bytes → Dict Bytes → Option Bytes
index_of_path changed_path [] = none
index_of_path changed_path ((dir, idx_name) ∷ dirs) =
    let rest = index_of_path changed_path dirs in
    if starts_with dir changed_path then some idx_name else rest

-- The body of the loop of fsevents_callback; `is_content` is what its two tests of the flags say.
unfoldable pub fsevents_change : Bool → Bytes → ℕ → FileWatcher → FileWatcher
unfolding index_of_path has_ext
fsevents_change is_content changed_path now st =
    let ext : Bytes = elim (rfind b'.' changed_path) [
      | none ↦ []
      | some dot ↦ drop (dot + 1) changed_path
    ] in
    let marked : FileWatcher = elim (index_of_path changed_path st.dir_to_index) [
      | none ↦ st
      | some idx_name ↦
          let counts : Bool = elim (get idx_name st.index_exts) [
            | none ↦ true
            | some exts ↦ is_nil ext || has_ext ext exts
          ] in
          if counts then record st { pending = put idx_name now st.pending } else st
    ] in
    if not is_content || contains changed_path (codes "/.") then st else marked

-- elapsed >= debounce, with the debounce time as a 32-bit int.
unfoldable pub has_settled : ℕ → ℕ → ℕ → Bool
has_settled debounce now time = leb (2 ^ 31) debounce || leb (debounce * 1000000) (now - time)

unfoldable pub debounce_of : FileWatcher → Bytes → ℕ
debounce_of st idx_name = elim (get idx_name st.index_debounce) [
  | none ↦ st.debounce_ms
  | some ms ↦ ms
]

unfoldable pub is_ready : FileWatcher → ℕ → Bytes × ℕ → Bool
unfolding has_settled debounce_of
is_ready st now (idx_name, time) = has_settled (debounce_of st idx_name) now time

-- One round of debounce_loop behind its sleep: the indexes that the callback is called with.
unfoldable pub debounce_round : ℕ → FileWatcher → List Bytes × FileWatcher
unfolding is_ready
debounce_round now st = (
  map (λ (p : Bytes × ℕ). p.0) (keep (is_ready st now) st.pending),
  record st { pending = keep (λ p. not (is_ready st now p)) st.pending },
)

-- e.substr(1) for an extension with a dot.
unfoldable pub plain_ext : Bytes → Bytes
plain_ext [] = []
plain_ext (c ∷ s) = if c == b'.' && not (is_nil s) then s else c ∷ s

-- g_index_exts[name].insert(ext).
unfoldable pub add_watched_ext : Bytes → Dict (List Bytes) → Bytes → Dict (List Bytes)
unfolding plain_ext
add_watched_ext name exts e =
    let known : List Bytes = elim (get name exts) [ none ↦ [] | some s ↦ s ] in
    put name (insert (plain_ext e) known) exts

module _ (system : FileSystem) (fs : system.Fs) where
  -- The loop over the paths of an index, with `dirs`.
  unfoldable pub watch_paths :
      Bytes → List Bytes → List Bytes × Dict Bytes → List Bytes × Dict Bytes
  watch_paths name [] watched = watched
  watch_paths name (p ∷ paths) (dirs, dir_to_index) =
      let canonical = system.canonical p fs in
      let skipped = watch_paths name paths (dirs, dir_to_index) in
      let more = watch_paths name paths (dirs ++ canonical ∷ [], put canonical name dir_to_index) in
      if system.exists p fs then more else skipped

  -- The body of the loop over the configs.
  unfoldable pub watch_index :
      GlobalConfig → List Bytes × FileWatcher → Bytes × IndexConfig → List Bytes × FileWatcher
  unfolding watch_paths add_watched_ext
  watch_index gc (dirs, st) (name, cfg) =
      let (dirs', dir_to_index) = watch_paths name cfg.paths (dirs, st.dir_to_index) in
      if is_nil cfg.paths || not (effective_watch cfg gc) then (dirs, st) else (
        dirs',
        record st {
          index_debounce = put name (effective_watch_debounce_ms cfg gc) st.index_debounce;
          dir_to_index = dir_to_index;
          index_exts = foldl (add_watched_ext name) st.index_exts cfg.extensions;
        },
      )

  -- The result and the state; the threads are started where it is true.
  unfoldable pub start_file_watcher :
      ℕ → Dict IndexConfig → GlobalConfig → FileWatcher → Bool × FileWatcher
  unfolding watch_index
  start_file_watcher debounce_ms configs gc st =
      let (dirs, st') =
        foldl (watch_index gc) ([], record st { debounce_ms = debounce_ms }) configs in
      if is_nil configs
      then (false, st)
      else if is_nil dirs
      then (false, st')
      else (true, record st' { watching = true })

unfoldable pub stop_file_watcher : FileWatcher → FileWatcher
stop_file_watcher st = record st { watching = false }
