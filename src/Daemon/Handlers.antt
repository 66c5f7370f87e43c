-- ===== src/Daemon/Handlers.antt =====
-- HandlerRegistry of src/daemon/embed_server.cpp: the threads of the client connections. The map
-- from ids to entries is a list in the order of the ids, so that a fresh id, which is larger than
-- those there, comes last. `joined` are the ids of the threads whose join has returned, `cut` the
-- descriptors that were shut down. A join stands for its return, when the thread has ended.
pub mod Joined
mod Tests
use gogol.Prelude.{
  ℕ, suc, ◌+◌, ◌%◌, ◌^◌, Bool, true, false, not, ◌&&◌, List, [], ◌∷◌, ◌++◌, map, ltb, ◌==◌,
  if◌then◌else◌, length, keep,
}

-- A descriptor is an int, in two's complement.
pub record Entry : Type 0 where
  pub id : ℕ
  pub fd : ℕ
  pub done : Bool

pub record HandlerRegistry : Type 0 where
  pub handlers : List Entry
  pub next_id : ℕ
  pub joined : List ℕ
  pub cut : List ℕ

abbrev pub new_registry : HandlerRegistry
new_registry = record { handlers = []; next_id = 1; joined = []; cut = [] }

-- The thread starts to run.
unfoldable pub spawn : ℕ → HandlerRegistry → HandlerRegistry
spawn fd s = record s {
  handlers = s.handlers ++ record { id = s.next_id; fd = fd; done = false } ∷ [];
  next_id = (s.next_id + 1) % 2 ^ 64;
}

-- The end of a thread's function: ep->done.store(true).
unfoldable pub mark_done : ℕ → List Entry → List Entry
mark_done id [] = []
mark_done id (e ∷ es) =
    let rest = mark_done id es in if e.id == id then record e { done = true } ∷ es else e ∷ rest

unfoldable pub finish : ℕ → HandlerRegistry → HandlerRegistry
finish id s = record s { handlers = mark_done id s.handlers }

-- The entries of finished threads go out and are joined.
unfoldable pub reap : HandlerRegistry → HandlerRegistry
reap s = record s {
  handlers = keep (λ e. not e.done) s.handlers;
  joined = s.joined ++ map (λ e. e.id) (keep (λ e. e.done) s.handlers);
}

-- Every entry goes out; the descriptors of running threads are shut down, and then all are joined.
unfoldable pub shutdown_all : HandlerRegistry → HandlerRegistry
shutdown_all s = record s {
  handlers = [];
  cut = s.cut ++ map (λ e. e.fd) (keep (λ e. ltb e.fd (2 ^ 31) && not e.done) s.handlers);
  joined = s.joined ++ map (λ e. e.id) s.handlers;
}

unfoldable pub size : HandlerRegistry → ℕ
size s = length s.handlers

-- Every order of the accept thread's calls and of the ends of the threads, with the number of
-- threads started.
pub data Runs : ℕ → HandlerRegistry → Type 0 where
  start : Runs 0 new_registry
  spawns : (fd : ℕ) {n : ℕ} {s : HandlerRegistry} → Runs n s → Runs (suc n) (spawn fd s)
  finishes : (id : ℕ) {n : ℕ} {s : HandlerRegistry} → Runs n s → Runs n (finish id s)
  reaps : {n : ℕ} {s : HandlerRegistry} → Runs n s → Runs n (reap s)
  shuts_down : {n : ℕ} {s : HandlerRegistry} → Runs n s → Runs n (shutdown_all s)
