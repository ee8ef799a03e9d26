-- ===== src/Tonlib/Worker/Exchange.antt =====
-- A request through the queues of a worker process, and the call of the client that it stands for:
-- dispatch_request_to_worker and read_results of NFTorrent/tonlib/manager.py with process_task of
-- NFTorrent/tonlib/worker.py.
use nft_torrent.Base.{
  ℕ, ◌+◌, ◌≡◌, refl, Option, none, some, List, [], ◌∷◌, ◌++◌, arith, ltb, if◌then◌else◌, inl, inr,
  Bool-cases,
}
use nft_torrent.Base.Result.{Result, ok, err}
use nft_torrent.Tonlib.Control.{WorkerControl}
use nft_torrent.Tonlib.Select.{Error, timeout, remote}
use nft_torrent.Tonlib.Requests.{
  lookup, register_task, outcome, settle, read_message, finish_task, Message,
}
use nft_torrent.Tonlib.Requests.Futures.{finish-read-register}
use nft_torrent.Tonlib.Worker.{
  Exception, asyncio_timeout, Task, TonlibWorker, process_task, result_of,
}

-- What the caller of a request gets when the client answers its call with a result or an exception
abbrev pub direct : (Exception → ℕ) → Result Exception (Option ℕ) → Result Error ℕ
direct code (ok (some r)) = ok r
direct code (ok none) = err timeout
direct code (err e) = err (remote (code e))

-- The call as the worker makes it: a task that is too late is not executed.
abbrev pub called : ℕ → Task → Result Exception (Option ℕ) → Result Exception (Option ℕ)
called start_time t call = if ltb start_time t.timeout then call else err asyncio_timeout

-- The messages in the order of the queue
abbrev pub read_messages : ℕ → List Message → WorkerControl → WorkerControl
read_messages ctime [] w = w
read_messages ctime (m ∷ ms) w = read_messages ctime ms (read_message ctime m w).0

process_task-output :
    (code : Exception → ℕ) (start_time : ℕ) (t : Task) (call : Result Exception (Option ℕ))
    (p : TonlibWorker)
    → (process_task code start_time t call p).1.output_queue
      ≡ p.output_queue ++ result_of code t.task_id (called start_time t call) ∷ []
unfolding process_task
process_task-output code start_time t call p = elim (Bool-cases (ltb start_time t.timeout)) [
  | inl early ↦ rw (early, process_task) refl
  | inr late ↦ rw (late, process_task) refl
]

settled :
    (code : Exception → ℕ) (ctime : ℕ) (task_id : ℕ) (call : Result Exception (Option ℕ))
    (w : WorkerControl)
    → lookup task_id w.futures ≡ none
    → finish_task task_id
        (read_message ctime (result_of code task_id call) (register_task task_id w)).0
      ≡ (direct code call, record w { tasks_count = w.tasks_count + 1 })
unfolding outcome settle
settled code ctime task_id (ok (some r)) w fresh =
    finish-read-register task_id ctime none (some r) w fresh
settled code ctime task_id (ok none) w fresh = finish-read-register task_id ctime none none w fresh
settled code ctime task_id (err e) w fresh =
    finish-read-register task_id ctime (some (code e)) none w fresh

-- A request to a worker process whose output queue is empty gives its caller what the call of the
-- client gives, as if there were no queues: the result, the exception, or a timeout where the
-- client answers None. A task that starts too late gives a TimeoutError, and the client is not
-- called. The task must have a fresh id.
pub request-direct :
    (code : Exception → ℕ) (ctime start_time : ℕ) (t : Task) (call : Result Exception (Option ℕ))
    (w : WorkerControl) (p : TonlibWorker)
    → lookup t.task_id w.futures ≡ none
    → p.output_queue ≡ []
    → let (was_called, p') = process_task code start_time t call p in
      (finish_task t.task_id (read_messages ctime p'.output_queue (register_task t.task_id w))
        ≡ (direct code (called start_time t call), record w { tasks_count = w.tasks_count + 1 }))
      × (was_called ≡ ltb start_time t.timeout)
unfolding process_task
request-direct code ctime start_time t call w p fresh idle = (
  rw (process_task-output code start_time t call p, idle)
      (settled code ctime t.task_id (called start_time t call) w fresh),
  ground arith,
)
