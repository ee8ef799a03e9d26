-- ===== src/Tonlib/Workers/Watch.antt =====
-- What a round of `check_children_alive` does to a dead worker, and where it raises.
use nft_torrent.Base.{
  ℕ, ◌+◌, ◌-◌, ◌≤◌, ◌<◌, ◌≡◌, true, false, Option, none, some, List, ◌∷◌, arith, ltb, if◌then◌else◌,
  ◌⊎◌,
}
use nft_torrent.Base.Int.{negsuc}
use nft_torrent.Tonlib.Control.{WorkerControl}
use nft_torrent.Tonlib.Workers.{
  Observation, restart_retry_timeout, watch_worker, check_children_alive, worker_control,
}

-- No retry window is open, or it has passed, or restarts are left in it; the end of a window and
-- its count are set together.
abbrev pub HasRestart : ℕ → WorkerControl → Type 0
HasRestart now w = elim w.restart_retry_mt [
  | none ↦ w.restart_retry_count ≡ none
  | some t ↦ elim w.restart_retry_count [ none ↦ ⊥ | some c ↦ (t < now) ⊎ (0 < c) ]
]

-- The window after a restart: opened, counted down, or closed.
abbrev pub window_after : ℕ → WorkerControl → Option ℕ × Option ℕ
window_after now w = elim w.restart_retry_mt [
  | none ↦ (some (now + restart_retry_timeout), some 2)
  | some t ↦
      if ltb t now
      then (none, none)
      else (some t, elim w.restart_retry_count [ none ↦ none | some c ↦ some (c - 1) ])
]

-- A worker that was alive and whose process has died is restarted by the round, if it has run for
-- the restart timeout and either no retry window is open, or the window has passed, or restarts are
-- left in it. The new worker is out of sync with no block known. The first death opens a window of
-- ten minutes with two more restarts, each further restart takes one, and the first restart after
-- the window closes it.
pub watch_worker-restart :
    (restart_timeout : ℕ) (o : Observation) (w : WorkerControl)
    → w.is_alive ≡ true
    → w.worker.alive ≡ false
    → w.start_mt + restart_timeout ≤ o.now
    → HasRestart o.now w
    → let (w', raised) = watch_worker restart_timeout o w in
      (raised ≡ false)
      × (w'.restart_count ≡ w.restart_count + 1)
      × (w'.is_alive ≡ o.started)
      × (w'.is_sync ≡ false)
      × (w'.last_block ≡ negsuc 0)
      × (w'.restart_retry_mt ≡ (window_after o.now w).0)
      × (w'.restart_retry_count ≡ (window_after o.now w).1)
unfolding watch_worker
watch_worker-restart restart_timeout o w live dead old left = ground arith

-- A worker that `worker_control` has disabled, whose process has ended and which had no retry
-- window open makes the round raise once the restart timeout has passed: it counts down a count
-- that is `None`. The workers behind it are not looked at, and the worker is marked as enabled
-- again.
pub check_children_alive-disabled :
    (restart_timeout : ℕ) (o : Observation) (os : List Observation) (w : WorkerControl)
    (ws : List WorkerControl)
    → w.worker.alive ≡ false
    → w.restart_retry_mt ≡ none
    → w.restart_retry_count ≡ none
    → w.start_mt + restart_timeout ≤ o.now
    → let (ws', raised) =
        check_children_alive restart_timeout (o ∷ os) (worker_control false w ∷ ws) in
      (raised ≡ true) × (ws' ≡ record (worker_control false w) { is_enabled = true } ∷ ws)
unfolding check_children_alive watch_worker worker_control
check_children_alive-disabled restart_timeout o os w ws dead closed counted old = ground arith
