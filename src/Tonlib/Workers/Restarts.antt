-- ===== src/Tonlib/Workers/Restarts.antt =====
-- How often `check_children_alive` restarts a worker.
use nft_torrent.Base.{ℕ, ◌+◌, ◌≤◌, Bool, none, some, List, [], ◌∷◌, arith, All}
use nft_torrent.Tonlib.Control.{WorkerControl}
use nft_torrent.Tonlib.Workers.{Observation, restart_retry_timeout, restart_retries, watch_worker}

-- The restarts that are left: those of the open window, or a full set of them.
abbrev pub restarts_left : WorkerControl → ℕ
restarts_left w = elim w.restart_retry_mt [
  | none ↦ restart_retries
  | some _ ↦ elim w.restart_retry_count [ none ↦ 0 | some c ↦ c ]
]

-- An open window does not close before `until`.
abbrev pub OpenUntil : ℕ → WorkerControl → Type 0
OpenUntil until w = elim w.restart_retry_mt [ none ↦ Unit {0} | some t ↦ until ≤ t ]

-- A round of the watch on one worker, whose process is found alive or not.
unfoldable pub watch_round : ℕ → WorkerControl → Bool × Observation → WorkerControl
watch_round restart_timeout w (alive, o) =
    (watch_worker restart_timeout o (record w { worker = record (w.worker) { alive = alive } })).0

unfoldable pub watch_rounds : ℕ → WorkerControl → List (Bool × Observation) → WorkerControl
watch_rounds restart_timeout w [] = w
watch_rounds restart_timeout w (r ∷ rs) =
    watch_rounds restart_timeout (watch_round restart_timeout w r) rs

abbrev pub Within : ℕ → ℕ → Bool × Observation → Type 0
Within since until (_, o) = (since ≤ o.now) × (o.now ≤ until)

watch_round-restarts :
    (restart_timeout since until : ℕ) (w : WorkerControl) (r : Bool × Observation)
    → until ≤ since + restart_retry_timeout
    → Within since until r
    → OpenUntil until w
    → let w' = watch_round restart_timeout w r in
      OpenUntil until w' × (w'.restart_count + restarts_left w' ≤ w.restart_count + restarts_left w)
unfolding watch_round watch_worker
watch_round-restarts restart_timeout since until w (alive, o) span within still = ground arith

-- Over any rounds between `since` and `until`, at most ten minutes apart, a worker is restarted no
-- more often than it has restarts left, which is three times if no retry window is open at first;
-- an open window must not close before `until`.
pub watch_rounds-restarts :
    (restart_timeout since until : ℕ) (w : WorkerControl) (rs : List (Bool × Observation))
    → until ≤ since + restart_retry_timeout
    → All (Within since until) rs
    → OpenUntil until w
    → (watch_rounds restart_timeout w rs).restart_count ≤ w.restart_count + restarts_left w
unfolding watch_rounds
watch_rounds-restarts restart_timeout since until w [] span within still = omega arith
watch_rounds-restarts restart_timeout since until w (r ∷ rs) span within still =
    let w' = watch_round restart_timeout w r in
    let (still', le) = watch_round-restarts restart_timeout since until w r span within.0 still in
    let ih = watch_rounds-restarts restart_timeout since until w' rs span within.1 still' in
    omega arith
