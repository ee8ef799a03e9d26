-- ===== src/Tonlib/Workers.antt =====
-- The worker processes of `TonlibManager` (NFTorrent/tonlib/manager.py): `terminate_worker`,
-- `spawn_worker`, `worker_control` and a round of `check_children_alive`. `alive` of a process is
-- what `worker.is_alive()` answers; the answer right after `start` is an argument.
pub mod Restarts
pub mod Watch
use nft_torrent.Base.{
  ℕ, ◌+◌, ◌-◌, ◌*◌, Bool, true, false, not, ◌&&◌, Option, none, some, List, [], ◌∷◌, map, ltb, leb,
  ◌==◌, if◌then◌else◌,
}
use nft_torrent.Base.Int.{negsuc}
use nft_torrent.Tonlib.Control.{Process, Future, WorkerControl, zero_ema}

-- ticks of the clock in a second
abbrev pub second : ℕ
second = 1000000000

abbrev pub restart_retry_timeout : ℕ
restart_retry_timeout = 600 * second

abbrev pub restart_retries : ℕ
restart_retries = 3

-- `Future.cancel`, which leaves a future alone that is done
unfoldable pub cancel : Future → Future
cancel Future.pending = Future.cancelled
cancel f = f

-- `terminate_worker`: the process may outlive `join`, so its `alive` is left as it is
unfoldable pub terminate_worker : WorkerControl → WorkerControl
unfolding cancel
terminate_worker w = record w {
  is_alive = false;
  is_sync = false;
  futures = map (λ e. (e.0, cancel e.1)) w.futures;
  reader_cancelled = true;
  worker = record (w.worker) { exit_event = true; queues_closed = true };
}

-- `set_worker` with a new process and a new reader task
abbrev pub new_worker : ℕ → Bool → Process
new_worker pid started = record {
  pid = pid;
  alive = started;
  exit_event = false;
  queues_closed = false;
}

-- the assignments at the end of `spawn_worker`
unfoldable pub start_worker : ℕ → ℕ → WorkerControl → WorkerControl
start_worker mtime ctime w = record w {
  start_mt = mtime;
  start_time = ctime;
  off_sync_mt = mtime;
  off_sync_time = ctime;
  off_sync_dur_ema = zero_ema;
  sync_time = 0;
  sync_mt = 0;
  sync_dur_ema = zero_ema;
  is_alive = w.worker.alive;
  is_sync = false;
  last_block = negsuc 0;
  last_block_time = 0;
}

-- `spawn_worker` of a worker that is not in `self.workers` yet: a `WorkerControl` with its defaults
pub create_worker : ℕ → ℕ → Bool → ℕ → ℕ → WorkerControl
unfolding start_worker
create_worker ls_index pid started mtime ctime = start_worker mtime ctime (record {
  ls_index = ls_index;
  worker = new_worker pid started;
  reader_cancelled = false;
  futures = [];
  is_alive = false;
  is_sync = false;
  is_enabled = true;
  is_archival = false;
  last_block = negsuc 0;
  last_block_time = 0;
  start_mt = 0;
  start_time = 0;
  restart_count = 0;
  tasks_count = 0;
  pending_tasks = 0;
  sync_time = 0;
  sync_mt = 0;
  sync_duration = 0;
  sync_dur_ema = zero_ema;
  off_sync_time = 0;
  off_sync_mt = 0;
  off_sync_count = 0;
  off_sync_duration = 0;
  off_sync_dur_ema = zero_ema;
  restart_retry_mt = none;
  restart_retry_count = none;
})

-- `spawn_worker` of a worker that is in `self.workers`
unfoldable pub spawn_worker : Bool → ℕ → Bool → ℕ → ℕ → WorkerControl → WorkerControl
unfolding terminate_worker start_worker
spawn_worker force_restart pid started mtime ctime w =
    if not force_restart && w.worker.alive
    then w
    else start_worker mtime ctime (replace (terminate_worker w))
  where
    replace : WorkerControl → WorkerControl
    replace v = record v {
      restart_count = v.restart_count + 1;
      worker = new_worker pid started;
      reader_cancelled = false;
    }

pub worker_control : Bool → WorkerControl → WorkerControl
unfolding terminate_worker
worker_control enabled w =
    if enabled
    then record w { is_enabled = true }
    else record (terminate_worker w) { is_enabled = false }

-- What a round finds out about one worker: the instant, the wall clock, and the process that a
-- restart would start.
pub record Observation : Type 0 where
  pub now : ℕ
  pub ctime : ℕ
  pub pid : ℕ
  pub started : Bool

-- The value of `is_enabled`; `none` is the TypeError of `None > 0`.
pub enabled_now : ℕ → WorkerControl → Option Bool
enabled_now now w = elim w.restart_retry_mt [
  | none ↦ some true
  | some t ↦
      if ltb t now
      then some true
      else (elim w.restart_retry_count [ none ↦ none | some c ↦ some (ltb 0 c) ])
]

-- The first lines of the round: the window opens when the worker is found dead.
pub observe_worker : Observation → Bool → WorkerControl → WorkerControl
observe_worker o enabled w =
    if (w.is_alive && not w.worker.alive) && is_closed w.restart_retry_mt
    then record w {
      is_enabled = enabled;
      is_alive = w.worker.alive;
      restart_retry_mt = some (o.now + restart_retry_timeout);
      restart_retry_count = some restart_retries;
    }
    else record w { is_enabled = enabled; is_alive = w.worker.alive }
  where
    is_closed : Option ℕ → Bool
    is_closed none = true
    is_closed (some _) = false

-- The restart. `restart_retry_count -= 1` and the comparison with `restart_retry_mt` raise a
-- TypeError on `None`, which is `true` in the result. A count of 0 only gets here when the window
-- has passed, and is then reset in the same breath.
pub restart_worker : Observation → WorkerControl → WorkerControl × Bool
unfolding spawn_worker
restart_worker o w = elim w.restart_retry_count [
  | none ↦ (w, true)
  | some c ↦ elim w.restart_retry_mt [
    | none ↦ (record w { restart_retry_count = some (c - 1) }, true)
    | some t ↦ (
      spawn_worker true o.pid o.started o.now o.ctime (
          if ltb t o.now
          then record w { restart_retry_count = none; restart_retry_mt = none }
          else record w { restart_retry_count = some (c - 1) }),
      false,
    )
  ]
]

-- One worker of a round of `check_children_alive`, and whether it raised.
unfoldable pub watch_worker : ℕ → Observation → WorkerControl → WorkerControl × Bool
unfolding enabled_now observe_worker restart_worker
watch_worker restart_timeout o w = elim (enabled_now o.now w) [
  | none ↦ (w, true)
  | some enabled ↦
      let v = observe_worker o enabled w in
      if (not v.is_alive && enabled) && leb (v.start_mt + restart_timeout) o.now
      then restart_worker o v
      else (v, false)
]

-- A round over all workers, one observation each: an exception ends it.
pub check_children_alive : ℕ → List Observation → List WorkerControl → List WorkerControl × Bool
check_children_alive restart_timeout [] ws = (ws, false)
check_children_alive restart_timeout (o ∷ os) [] = ([], false)
check_children_alive restart_timeout (o ∷ os) (w ∷ ws) =
    let (w', raised) = watch_worker restart_timeout o w in
    let (ws', later) = check_children_alive restart_timeout os ws in
    if raised then (w' ∷ ws, true) else (w' ∷ ws', later)
