-- ===== src/Tonlib/Tests.antt =====
-- Concrete liteservers: three in sync or behind, one of them archival, and one whose process died.
use nft_torrent.Base.{
  ℕ, ◌+◌, ◌-◌, ◌*◌, ◌≤◌, ◌<◌, ◌≡◌, refl, Bool, true, false, none, some, List, [], ◌∷◌, arith, All,
}
use nft_torrent.Base.Int.{ℤ, pos, negsuc, ◌-ℤ◌, ◌≤ℤ◌}
use nft_torrent.Base.Result.{ok}
use nft_torrent.Tonlib.Control.{WorkerControl, Manager, zero_ema}
use nft_torrent.Tonlib.Consensus.{max_block, consensus_seqno, check_working}
use nft_torrent.Tonlib.Consensus.Vote.{known, consensus_seqno-known}
use nft_torrent.Tonlib.Consensus.Sync.{check_working-consensus_le}
use nft_torrent.Tonlib.Workers.{Observation, watch_worker}
use nft_torrent.Tonlib.Workers.Restarts.{
  watch_round, watch_rounds, watch_rounds-restarts, restarts_left,
}
use nft_torrent.Tonlib.Select.{Shuffle}
use nft_torrent.Tonlib.Requests.{lookup, register_task, finish_task, read_message, task_result}
use nft_torrent.Tonlib.Requests.Futures.{finish-read-register}
use nft_torrent.Tonlib.Requests.Fallback.{World}
use nft_torrent.Tonlib.Worker.{TonlibWorker, process_task}
use nft_torrent.Tonlib.Worker.Exchange.{direct, called, read_messages, request-direct}

abbrev worker : ℕ → ℤ → WorkerControl
worker i block = record {
  ls_index = i;
  worker = record { pid = i; alive = true; exit_event = false; queues_closed = false };
  reader_cancelled = false;
  futures = [];
  is_alive = true;
  is_sync = false;
  is_enabled = true;
  is_archival = false;
  last_block = block;
  last_block_time = 0;
  start_mt = 1;
  start_time = 1;
  restart_count = 0;
  tasks_count = 0;
  pending_tasks = 0;
  sync_time = 0;
  sync_mt = 0;
  sync_duration = 0;
  sync_dur_ema = zero_ema;
  off_sync_time = 1;
  off_sync_mt = 1;
  off_sync_count = 0;
  off_sync_duration = 0;
  off_sync_dur_ema = zero_ema;
  restart_retry_mt = none;
  restart_retry_count = none;
}

abbrev synced : ℕ → WorkerControl
synced i = record (worker i (pos 9)) { is_sync = true }

abbrev manager : Manager
manager = record {
  workers = worker 0 (pos 10) ∷ worker 1 (pos 9) ∷ worker 2 (pos 9) ∷ worker 3 (negsuc 0) ∷ [];
  consensus_block = pos 7;
  consensus_block_mt = 0;
}

-- Two of three liteservers know block 9, and one block 10.
settles : consensus_seqno (pos 10) (pos 9 ∷ pos 9 ∷ []) ≡ pos 9
unfolding consensus_seqno max_block ◌-ℤ◌
settles = refl

consensus_seqno-known_example :
    let best = max_block (pos 10) (pos 9 ∷ pos 9 ∷ []) in
    let k = known best (pos 10 ∷ pos 9 ∷ pos 9 ∷ []) in
    All (λ c. c ≤ℤ best) (pos 10 ∷ pos 9 ∷ pos 9 ∷ [])
    × (0 < k 0)
    × ((i : ℕ) × (i ≤ 3)
        × (consensus_seqno (pos 10) (pos 9 ∷ pos 9 ∷ []) ≡ best -ℤ pos i)
        × (3 * k 3 ≤ 5 * k i)
        × (0 < i → 5 * k (i - 1) < 3 * k 3))
consensus_seqno-known_example = consensus_seqno-known (pos 10) (pos 9 ∷ pos 9 ∷ [])

check_working-consensus_le_example :
    manager.consensus_block ≤ℤ (check_working 5 5 manager).consensus_block
check_working-consensus_le_example = check_working-consensus_le 5 5 manager

abbrev dead : WorkerControl
dead = record (worker 0 (pos 9)) {
  worker = record { pid = 0; alive = false; exit_event = false; queues_closed = false };
}

abbrev seen : ℕ → Observation
seen now = record { now = now; ctime = 7; pid = 8; started = true }

-- A process that dies at once each time is restarted three times within the window.
abbrev deaths : List (Bool × Observation)
deaths = (false, seen 20) ∷ (false, seen 40) ∷ (false, seen 60) ∷ (false, seen 80) ∷ []

dies_again : (watch_rounds 10 (worker 0 (pos 9)) deaths).restart_count ≡ 3
unfolding watch_rounds watch_round watch_worker
dies_again = refl

watch_rounds-restarts_example :
    (watch_rounds 10 (worker 0 (pos 9)) deaths).restart_count
    ≤ (worker 0 (pos 9)).restart_count + restarts_left (worker 0 (pos 9))
watch_rounds-restarts_example =
    watch_rounds-restarts 10 20 80 (worker 0 (pos 9)) deaths (omega arith) (omega arith) tt

abbrev keep_order : Shuffle
keep_order = record { run = λ xs. xs; same = λ i xs. refl }

abbrev servers : List WorkerControl
servers = synced 4 ∷ dead ∷ synced 6 ∷ []

finish-read-register_example :
    let (v, raised) = read_message 3 (task_result 5 none (some 77)) (register_task 5 dead) in
    finish_task 5 v ≡ (ok 77, record dead { tasks_count = 1 })
unfolding lookup
finish-read-register_example = finish-read-register 5 3 none (some 77) dead refl

abbrev offline : World
offline = record {
  is_tonlib_error = λ e. true;
  shuffle = keep_order;
  dispatch_to = λ i. ok 1;
  toncenter = some (ok 42);
}

-- A request that the client answers with 42, through the queues
abbrev idle_process : TonlibWorker
idle_process = record {
  blockchain_failures = 0;
  last_block = pos 0;
  is_archival = false;
  exit_event = false;
  output_queue = [];
}

request-direct_example :
    let t : nft_torrent.Tonlib.Worker.Task = record { task_id = 3; timeout = 1000 } in
    let (was_called, p') = process_task (λ e. 5) 10 t (ok (some 42)) idle_process in
    (finish_task 3 (read_messages 8 p'.output_queue (register_task 3 (worker 1 (pos 5)))) ≡ (
      direct (λ e. 5) (called 10 t (ok (some 42))),
      record (worker 1 (pos 5)) { tasks_count = 1 },
    ))
    × (was_called ≡ true)
unfolding lookup
request-direct_example =
    request-direct (λ e. 5) 8 10 (record { task_id = 3; timeout = 1000 }) (ok (some 42))
      (worker 1 (pos 5)) idle_process refl refl
