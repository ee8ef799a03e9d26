-- ===== src/Tonlib/Worker/Stopped.antt =====
-- A worker process that has found a block deleted takes no more tasks.
use nft_torrent.Base.{
  ℕ, ◌≡◌, refl, ap, Bool, false, Option, some, List, [], ◌∷◌, ◌++◌, arith, ◌==◌, ltb, leb, length,
  ◌≤◌, ◌<◌, inl, inr, Bool-cases,
}
use nft_torrent.Base.Int.{ℤ}
use nft_torrent.Base.Result.{Result, ok, err}
use nft_torrent.Tonlib.Worker.{
  Exception, asyncio_timeout, block_deleted, block_not_found, tonlib_exception, other_exception,
  failures_after, Task, TonlibWorker, main_loop, loop_ends, process_task, report_sync,
  report_archival, archival_after, report_flag, SyncError, is_tonlib,
}
use nft_torrent.Tonlib.Worker.Tasks.{
  WorkerProcess, send, take_task, leave_loop, run_task, sync_report, archival_report, set_exit,
  here, next, WorkerStep, WorkerSteps,
}

failures_grow : (call : Result Exception (Option ℕ)) (n : ℕ) → n ≤ failures_after call n
failures_grow (ok r) n = omega arith
failures_grow (err block_deleted) n = omega arith
failures_grow (err block_not_found) n = omega arith
failures_grow (err asyncio_timeout) n = omega arith
failures_grow (err (tonlib_exception x)) n = omega arith
failures_grow (err (other_exception x)) n = omega arith

process_task-failures :
    (code : Exception → ℕ) (start_time : ℕ) (t : Task) (call : Result Exception (Option ℕ))
    (w : TonlibWorker)
    → w.blockchain_failures ≤ (process_task code start_time t call w).1.blockchain_failures
unfolding process_task
process_task-failures code start_time t call w = elim (Bool-cases (ltb start_time t.timeout)) [
  | inl early ↦ rw (early, process_task) (failures_grow call w.blockchain_failures)
  | inr late ↦ rw (late, process_task) (omega arith)
]

report_sync-failures :
    (sync_timeout deadline deadline' now : ℕ) (call : Result Exception ℤ) (w w' : TonlibWorker)
    → report_sync sync_timeout deadline now call w ≡ ok (w', deadline')
    → w'.blockchain_failures ≡ w.blockchain_failures
unfolding report_sync
report_sync-failures sync_timeout deadline deadline' now (ok b) w w' e = ground arith
report_sync-failures sync_timeout deadline deadline' now (err x) w w' e =
    elim (Bool-cases (is_tonlib x)) [
      | inr other ↦ (let e' = (rw (other, report_sync) at e) in ground arith)
      | inl tonlib ↦ elim (Bool-cases (leb deadline now)) [
        | inl late ↦ (let e' = (rw (tonlib, late, report_sync) at e) in ground arith)
        | inr early ↦ (let e' = (rw (tonlib, early, report_sync) at e) in ground arith)
      ]
    ]

report_flag-failures :
    (r : Result SyncError Bool) (w w' : TonlibWorker)
    → report_flag r w ≡ ok w'
    → w'.blockchain_failures ≡ w.blockchain_failures
report_flag-failures (ok a) w w' e = ground arith
report_flag-failures (err x) w w' e = ground arith

main_loop-stopped :
    (w : TonlibWorker) (t : Task) → 0 < w.blockchain_failures → main_loop w (some t) ≡ loop_ends
unfolding main_loop
main_loop-stopped w t h =
    let failed : (w.blockchain_failures == 0) ≡ false = ground arith in
    elim (Bool-cases w.exit_event) [
      | inl told ↦ rw (told, main_loop) refl
      | inr on ↦ rw (on, failed, main_loop) refl
    ]

length_middle : (xs ys : List Task) (t : Task) → length (xs ++ ys) ≤ length (xs ++ t ∷ ys)
length_middle [] ys t = omega arith
length_middle (x ∷ xs) ys t = omega (arith, length_middle xs ys t)

abbrev Stays : WorkerProcess → WorkerProcess → Type 0
Stays p q = (0 < q.worker.blockchain_failures) × (length q.created ≤ length p.created)

Step-Stays :
    (code : Exception → ℕ) (p q : WorkerProcess) (ts : List Task)
    → 0 < p.worker.blockchain_failures
    → WorkerStep code p ts q
    → Stays p q
unfolding report_archival
Step-Stays code p q ts h (send t) = ground arith
Step-Stays code p q ts h (take_task t rest l e m) =
    let stopped = main_loop-stopped p.worker t h in ground arith
Step-Stays code p q ts h (leave_loop head e) = ground arith
Step-Stays code p q ts h (run_task xs ys t start_time call e) =
    let n = process_task-failures code start_time t call p.worker in
    let m = length_middle xs ys t in let c = ap length e in ground arith
Step-Stays code p q ts h (sync_report timeout deadline deadline' now call w e) =
    let n = report_sync-failures timeout deadline deadline' now call p.worker w e in ground arith
Step-Stays code p q ts h (archival_report call w e) =
    let n = report_flag-failures (archival_after call p.worker.is_archival) p.worker w e in
    ground arith
Step-Stays code p q ts h set_exit = ground arith

-- Once a task of a worker process has found its block deleted, the process creates no task any
-- more, and so has at most those that it had, whatever the manager sends.
pub Steps-stopped :
    (code : Exception → ℕ) (p q : WorkerProcess) (ts : List Task)
    → 0 < p.worker.blockchain_failures
    → WorkerSteps code p ts q
    → (0 < q.worker.blockchain_failures) × (length q.created ≤ length p.created)
Steps-stopped code p q ts h here = ground arith
Steps-stopped code p q ws h (next {ts = us} {ts' = vs} {q = r} s t) =
    let (failed, fewer) = Steps-stopped code p r us h s in
    let (failed', fewer') = Step-Stays code r q vs failed t in (failed', omega arith)
