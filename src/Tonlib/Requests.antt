-- ===== src/Tonlib/Requests.antt =====
-- Requests of `TonlibManager` to its workers (NFTorrent/tonlib/manager.py): the two halves of
-- `dispatch_request_to_worker`, up to the wait and after it, a message in `read_results`, and the
-- fallback of `raw_run_method` and its siblings.
pub mod Futures
pub mod Fallback
pub mod Availability
use nft_torrent.Base.{
  ℕ, ◌+◌, ◌-◌, Bool, true, false, not, Option, none, some, List, [], ◌∷◌, ◌==◌, if◌then◌else◌,
}
use nft_torrent.Base.Int.{ℤ, eqb_ℤ}
use nft_torrent.Base.Result.{Result, ok, err}
use nft_torrent.Tonlib.Control.{Future, WorkerControl}
use nft_torrent.Tonlib.Select.{Error, no_response, timeout, remote}

-- The dict of futures of a worker.
module _ {ℓ} {V : Type ℓ} where
  unfoldable pub lookup : ℕ → List (ℕ × V) → Option V
  lookup k [] = none
  lookup k ((j, v) ∷ m) = if j == k then some v else lookup k m

  pub insert : ℕ → V → List (ℕ × V) → List (ℕ × V)
  insert k v [] = (k, v) ∷ []
  insert k v ((j, u) ∷ m) = if j == k then (k, v) ∷ m else (j, u) ∷ insert k v m

  pub erase : ℕ → List (ℕ × V) → List (ℕ × V)
  erase k [] = []
  erase k ((j, u) ∷ m) = if j == k then m else (j, u) ∷ erase k m

-- The task is counted, and a future registered for its result.
pub register_task : ℕ → WorkerControl → WorkerControl
register_task task_id w = record w {
  tasks_count = w.tasks_count + 1;
  pending_tasks = w.pending_tasks + 1;
  futures = insert task_id Future.pending w.futures;
}

-- What `wait_for` answers, and the task ends: a future that is still pending has run into the
-- timeout, and a cancelled one is answered by TonlibNoResponse.
unfoldable pub outcome : Option Future → Result Error ℕ
outcome none = err Error.key_error
outcome (some Future.pending) = err timeout
outcome (some Future.cancelled) = err no_response
outcome (some (Future.resolved r)) = ok r
outcome (some (Future.failed e)) = err (remote e)

pub finish_task : ℕ → WorkerControl → Result Error ℕ × WorkerControl
finish_task task_id w = (
  outcome (lookup task_id w.futures),
  record w { pending_tasks = w.pending_tasks - 1; futures = erase task_id w.futures },
)

-- `TonlibWorkerMsgType` with its contents: of a TonlibClientResult the task, the exception and the
-- result.
pub data Message : Type 0 where
  task_result : ℕ → Option ℕ → Option ℕ → Message
  last_block_update : ℤ → Message
  archival_update : Bool → Message

-- `set_exception`, then `set_result`; the second of them on a future that is done raises an
-- InvalidStateError, which is `true` in the result.
unfoldable pub settle : Option ℕ → Option ℕ → Future × Bool
settle none none = (Future.pending, false)
settle none (some r) = (Future.resolved r, false)
settle (some e) none = (Future.failed e, false)
settle (some e) (some r) = (Future.failed e, true)

-- One message in the loop of `read_results`, and whether it raised. A result for a task that is
-- not waited for is dropped.
pub read_message : ℕ → Message → WorkerControl → WorkerControl × Bool
read_message ctime (task_result task_id exception result) w = elim (lookup task_id w.futures) [
  | some Future.pending ↦
      let (f, raised) = settle exception result in
      (record w { futures = insert task_id f w.futures }, raised)
  | _ ↦ (w, false)
]
read_message ctime (last_block_update b) w =
    if not (eqb_ℤ w.last_block b)
    then (record w { last_block = b; last_block_time = ctime }, false)
    else (w, false)
read_message ctime (archival_update a) w = (record w { is_archival = a }, false)
