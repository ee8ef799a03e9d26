-- ===== src/Tonlib/Worker.antt =====
-- A liteserver process: class TonlibWorker of NFTorrent/tonlib/worker.py. The client of the tonlib
-- library is a parameter: what a call answers, and when. Times are in milliseconds of the monotonic
-- clock. A task is known by its id, and a result by a number, as in Tonlib/Requests.
pub mod Sync
pub mod Tasks
pub mod Stopped
pub mod Exchange
mod Tests
use nft_torrent.Base.{
  ℕ, zero, suc, ◌+◌, ◌*◌, Bool, true, false, not, ◌&&◌, ◌||◌, Option, none, some, List, [], ◌∷◌,
  ◌++◌, ltb, leb, ◌==◌, if◌then◌else◌,
}
use nft_torrent.Base.Int.{ℤ}
use nft_torrent.Base.Result.{Result, ok, err}
use nft_torrent.Tonlib.Requests.{Message, task_result, last_block_update, archival_update}

-- What a call of the client raises: BlockDeleted, BlockNotFound, another TonlibException, or
-- another exception, which is known by a number; and the TimeoutError of a task that is skipped
pub data Exception : Type 0 where
  block_deleted block_not_found asyncio_timeout : Exception
  tonlib_exception other_exception : ℕ → Exception

abbrev pub is_tonlib : Exception → Bool
is_tonlib block_deleted = true
is_tonlib block_not_found = true
is_tonlib (tonlib_exception n) = true
is_tonlib asyncio_timeout = false
is_tonlib (other_exception n) = false

-- The state of the process that its loops share
pub record TonlibWorker : Type 0 where
  pub blockchain_failures : ℕ
  pub last_block : ℤ
  pub is_archival : Bool
  pub exit_event : Bool
  pub output_queue : List Message

abbrev pub put : Message → TonlibWorker → TonlibWorker
put m w = record w { output_queue = w.output_queue ++ m ∷ [] }

-- `time.sleep(1)`
abbrev pub retry_timeout : ℕ
retry_timeout = 1000

-- The loop of `sync_initial` and of `sync_verify`, which differ in the call. Of the attempts, each
-- has a duration and an answer, and the exit event may be set before it. On fuel; a loop that runs
-- out of it is `none`.
pub record Attempts (A : Type 0) : Type 0 where
  pub exits : ℕ → Bool
  pub duration : ℕ → ℕ
  pub answer : ℕ → Result Exception A

pub data SyncError : Type 0 where
  sync_timed_out : SyncError
  sync_failed : Exception → SyncError

abbrev pub retry :
    {A : Type 0}
    → ℕ
    → ℕ
    → Exception
    → Option (Result SyncError (Option A))
    → Option (Result SyncError (Option A))
retry deadline now e again =
    if is_tonlib e
    then (if leb deadline now then some (err sync_timed_out) else again)
    else some (err (sync_failed e))

abbrev pub after_attempt :
    {A : Type 0}
    → ℕ
    → ℕ
    → Result Exception A
    → Option (Result SyncError (Option A))
    → Option (Result SyncError (Option A))
after_attempt deadline now (ok a) again = some (ok (some a))
after_attempt deadline now (err e) again = retry deadline now e again

unfoldable pub sync_loop :
    {A : Type 0} → Attempts A → ℕ → ℕ → ℕ → ℕ → Option (Result SyncError (Option A))
sync_loop calls deadline zero i now = none
sync_loop calls deadline (suc fuel) i now =
    let ended = now + calls.duration i in
    let again = sync_loop calls deadline fuel (i + 1) (ended + retry_timeout) in
    if calls.exits i then some (ok none) else after_attempt deadline ended (calls.answer i) again

-- What `report_sync` does in one round, with the time after the call and the deadline: the worker
-- and the next deadline, or the exception that ends the loop
unfoldable pub report_sync :
    ℕ → ℕ → ℕ → Result Exception ℤ → TonlibWorker → Result SyncError (TonlibWorker × ℕ)
report_sync sync_timeout deadline now (ok b) w =
    ok (put (last_block_update b) (record w { last_block = b }), now + sync_timeout)
report_sync sync_timeout deadline now (err e) w =
    if is_tonlib e
    then (if leb deadline now then err sync_timed_out else ok (w, deadline))
    else err (sync_failed e)

-- The flag after the call of `report_archival`
abbrev pub archival_after : Result Exception ℕ → Bool → Result SyncError Bool
archival_after (ok r) a = ok true
archival_after (err block_not_found) a = ok false
archival_after (err e) a = if is_tonlib e then ok a else err (sync_failed e)

abbrev pub report_flag : Result SyncError Bool → TonlibWorker → Result SyncError TonlibWorker
report_flag (err e) w = err e
report_flag (ok a) w = ok (put (archival_update a) (record w { is_archival = a }))

unfoldable pub report_archival : Result Exception ℕ → TonlibWorker → Result SyncError TonlibWorker
report_archival call w = report_flag (archival_after call w.is_archival) w

-- A task of the input queue
pub record Task : Type 0 where
  pub task_id : ℕ
  pub timeout : ℕ

-- What one round of `main_loop` does
pub data Round : Type 0 where
  loop_ends loop_waits : Round
  creates_task : Task → Round

unfoldable pub main_loop : TonlibWorker → Option Task → Round
main_loop w next =
    if w.exit_event
    then loop_ends
    else if not (w.blockchain_failures == 0)
    then loop_ends
    else elim next [ none ↦ loop_waits | some t ↦ creates_task t ]

-- The result of a task, and what a call of the client does to the count of failures. A result that
-- is None is sent as no result.
abbrev pub failures_after : Result Exception (Option ℕ) → ℕ → ℕ
failures_after (err block_deleted) n = n + 1
failures_after call n = n

abbrev pub result_of : (Exception → ℕ) → ℕ → Result Exception (Option ℕ) → Message
result_of code task_id (ok r) = task_result task_id none r
result_of code task_id (err e) = task_result task_id (some (code e)) none

abbrev pub executed :
    (Exception → ℕ) → ℕ → Result Exception (Option ℕ) → TonlibWorker → TonlibWorker
executed code task_id call w =
    put (result_of code task_id call)
      (record w { blockchain_failures = failures_after call w.blockchain_failures })

-- `process_task`, started at the given time, where the client would answer the call with `call`.
-- The first part tells whether it was called.
unfoldable pub process_task :
    (Exception → ℕ) → ℕ → Task → Result Exception (Option ℕ) → TonlibWorker → Bool × TonlibWorker
process_task code start_time t call w =
    if ltb start_time t.timeout
    then (true, executed code t.task_id call w)
    else (false, put (result_of code t.task_id (err asyncio_timeout)) w)

-- The exit code of the process, and whether its keystore is removed: `run` after the client has
-- been made, with what `sync_initial` and `sync_verify` leave, and the worker when the first of its
-- loops has ended
unfoldable pub exit_code :
    Bool → {A : Type 0} → Result SyncError (Option A) → TonlibWorker → ℕ × Bool
exit_code remove_on_fail (err e) w = (11, remove_on_fail)
exit_code remove_on_fail (ok a) w =
    ((if w.exit_event then 0 else 12), remove_on_fail && not (w.blockchain_failures == 0))
