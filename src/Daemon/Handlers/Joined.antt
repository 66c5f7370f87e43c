-- ===== src/Daemon/Handlers/Joined.antt =====
-- Every thread is joined once.
use gogol.Prelude.{
  ℕ, suc, ◌+◌, ◌<◌, ◌^◌, ◌≡◌, refl, ap, ◌∙◌, false, not, ◌&&◌, List, [], ◌∷◌, ◌++◌, map, map-append,
  arith, ltb, leb, ◌==◌, if◌then◌else◌, keep,
}
use gogol.Daemon.Handlers.{
  Entry, HandlerRegistry, spawn, mark_done, finish, reap, shutdown_all, Runs, start, spawns,
  finishes, reaps, shuts_down,
}

unfoldable pub count : ℕ → List ℕ → ℕ
count a [] = 0
count a (b ∷ bs) = let rest = count a bs in if a == b then suc rest else rest

count-append : (a : ℕ) (xs ys : List ℕ) → count a (xs ++ ys) ≡ count a xs + count a ys
unfolding count
count-append a [] ys = omega arith
count-append a (x ∷ xs) ys = ground (arith, count-append a xs ys)

ids : List Entry → List ℕ
ids = map (λ e. e.id)

ids-mark_done : (id : ℕ) (es : List Entry) → ids (mark_done id es) ≡ ids es
unfolding ids mark_done
ids-mark_done id [] = refl
ids-mark_done id (e ∷ es) = ground (arith, ids-mark_done id es)

-- The finished and the running threads together are all of them.
count-keep :
    (a : ℕ) (es : List Entry)
    → count a (ids (keep (λ e. e.done) es)) + count a (ids (keep (λ e. not e.done) es))
      ≡ count a (ids es)
unfolding count ids
count-keep a [] = refl
count-keep a (e ∷ es) = ground (arith, count-keep a es)

-- 1 for the ids of the first n threads.
abbrev pub once : ℕ → ℕ → ℕ
once n a = if ltb 0 a && leb a n then 1 else 0

pub IsAccounted : ℕ → HandlerRegistry → Type 0
IsAccounted n s =
    (s.next_id ≡ n + 1)
    × ((a : ℕ) → count a s.joined + count a (map (λ e. e.id) s.handlers) ≡ once n a)

spawn-IsAccounted :
    (n fd : ℕ) (s : HandlerRegistry)
    → n + 2 < 2 ^ 64
    → IsAccounted n s
    → IsAccounted (suc n) (spawn fd s)
unfolding IsAccounted spawn
spawn-IsAccounted n fd s small (next, each) = (
  rw next (omega arith),
  λ a.
      rw
        (
          map-append (λ e. e.id) s.handlers (record { id = s.next_id; fd = fd; done = false } ∷ []),
          count-append a (map (λ e. e.id) s.handlers) (s.next_id ∷ []),
          next,
        )
        (unfold count in ground (arith, each a)),
)

reap-IsAccounted : (n : ℕ) (s : HandlerRegistry) → IsAccounted n s → IsAccounted n (reap s)
unfolding IsAccounted reap
reap-IsAccounted n s (next, each) = (
  next,
  λ a.
      rw (count-append a s.joined (map (λ e. e.id) (keep (λ e. e.done) s.handlers)))
        (unfold ids in omega (arith, each a, count-keep a s.handlers)),
)

shutdown_all-IsAccounted :
    (n : ℕ) (s : HandlerRegistry) → IsAccounted n s → IsAccounted n (shutdown_all s)
unfolding IsAccounted shutdown_all count
shutdown_all-IsAccounted n s (next, each) =
    (next, λ a. rw (count-append a s.joined (map (λ e. e.id) s.handlers)) (omega (arith, each a)))

-- In every order of the calls and of the ends of threads, with less than 2^64 threads: each thread
-- that was started is either still in the registry or was joined, and this once.
pub Runs-IsAccounted : (n : ℕ) (s : HandlerRegistry) → Runs n s → n + 1 < 2 ^ 64 → IsAccounted n s
unfolding IsAccounted finish ids
Runs-IsAccounted n s start small = (refl, λ a. unfold count in ground arith)
Runs-IsAccounted n s (spawns fd {n = m} {s = p} r) small =
    spawn-IsAccounted m fd p (omega arith) (Runs-IsAccounted m p r (omega arith))
Runs-IsAccounted n s (finishes id {s = p} r) small =
    let (next, each) = Runs-IsAccounted n p r small in
    (next, λ a. ap (λ is. count a p.joined + count a is) (ids-mark_done id p.handlers) ∙ each a)
Runs-IsAccounted n s (reaps {s = p} r) small = reap-IsAccounted n p (Runs-IsAccounted n p r small)
Runs-IsAccounted n s (shuts_down {s = p} r) small =
    shutdown_all-IsAccounted n p (Runs-IsAccounted n p r small)

-- After shutdown_all, with less than 2^64 threads started, the registry is empty and each thread
-- that was ever started has been joined, and joined once.
pub shutdown_all-joins :
    (n : ℕ) (s : HandlerRegistry)
    → Runs n s
    → n + 1 < 2 ^ 64
    → ((shutdown_all s).handlers ≡ []) × ((a : ℕ) → count a (shutdown_all s).joined ≡ once n a)
unfolding IsAccounted shutdown_all
shutdown_all-joins n s r small =
    let (_, each) = Runs-IsAccounted n s r small in
    (refl, λ a. count-append a s.joined (map (λ e. e.id) s.handlers) ∙ each a)
