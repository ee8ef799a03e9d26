-- ===== src/Tonlib/Worker/Tests.antt =====
-- A worker process on concrete tasks.
use nft_torrent.Base.{ℕ, ◌+◌, ◌≡◌, refl, true, false, [], ◌∷◌, ◌==◌, if◌then◌else◌, count}
use nft_torrent.Base.Int.{pos}
use nft_torrent.Base.Result.{ok, err}
use nft_torrent.Tonlib.Worker.{
  Exception, block_deleted, tonlib_exception, TonlibWorker, Task, Attempts, process_task, main_loop,
}
use nft_torrent.Tonlib.Worker.Tasks.{
  WorkerProcess, WorkerSteps, here, next, send, take_task, run_task, results, unfinished,
  has_task_id, Steps-results,
}

-- The first call fails after two seconds, and the second one answers.
abbrev calls : Attempts ℕ
calls = record {
  exits = λ i. false;
  duration = λ i. 2000;
  answer = λ i. if i == 0 then err (tonlib_exception 1) else ok 7;
}

abbrev fresh_worker : TonlibWorker
fresh_worker = record {
  blockchain_failures = 0;
  last_block = pos 0;
  is_archival = false;
  exit_event = false;
  output_queue = [];
}

abbrev task_one : Task
task_one = record { task_id = 1; timeout = 1000 }

abbrev code : Exception → ℕ
code e = 5

abbrev fresh_process : WorkerProcess
fresh_process = record { worker = fresh_worker; input_queue = []; created = []; is_looping = true }

abbrev sent_process : WorkerProcess
sent_process = record fresh_process { input_queue = task_one ∷ [] }

abbrev taken_process : WorkerProcess
taken_process = record fresh_process { created = task_one ∷ [] }

abbrev done_process : WorkerProcess
done_process = record fresh_process {
  worker = (process_task code 10 task_one (err block_deleted) fresh_worker).1;
}

steps_taken : WorkerSteps code fresh_process (task_one ∷ []) taken_process
unfolding main_loop
steps_taken = next (next here (send task_one)) (take_task task_one [] refl refl refl)

steps_done : WorkerSteps code fresh_process (task_one ∷ []) done_process
steps_done = next steps_taken (run_task [] [] task_one 10 (err block_deleted) refl)

Steps-results_example :
    results 1 done_process + unfinished 1 done_process
    ≡ results 1 fresh_process + unfinished 1 fresh_process + count (has_task_id 1) (task_one ∷ [])
Steps-results_example = Steps-results code 1 fresh_process done_process (task_one ∷ []) steps_done

abbrev failed_worker : TonlibWorker
failed_worker = record fresh_worker { blockchain_failures = 1 }

abbrev failed_process : WorkerProcess
failed_process = record fresh_process { worker = failed_worker }

abbrev failed_sent : WorkerProcess
failed_sent = record failed_process { input_queue = task_one ∷ [] }
