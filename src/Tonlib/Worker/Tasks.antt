-- ===== src/Tonlib/Worker/Tasks.antt =====
-- The tasks of a worker process: its loops and the tasks that they create, in any order.
use nft_torrent.Base.{
  ℕ, ◌+◌, ◌≡◌, refl, ap, Bool, true, false, Option, some, List, [], ◌∷◌, ◌++◌, arith, ◌==◌, ltb,
  leb, if◌then◌else◌, count, inl, inr, Bool-cases,
}
use nft_torrent.Base.Int.{ℤ}
use nft_torrent.Base.Result.{Result, ok, err}
use nft_torrent.Tonlib.Requests.{Message, task_result, last_block_update, archival_update}
use nft_torrent.Tonlib.Worker.{
  Exception, asyncio_timeout, Task, TonlibWorker, put, main_loop, creates_task, loop_ends,
  process_task, result_of, report_sync, report_archival, archival_after, report_flag, SyncError,
  is_tonlib,
}

-- The process, with the tasks of its input queue, those that it has created and not finished, and
-- whether its main loop runs
pub record WorkerProcess : Type 0 where
  pub worker : TonlibWorker
  pub input_queue : List Task
  pub created : List Task
  pub is_looping : Bool

-- One move of the process, or of the manager at the other end of the queue; the tasks that the
-- manager sends in it
pub data WorkerStep (code : Exception → ℕ) (p : WorkerProcess)
    : List Task → WorkerProcess → Type 0 where
  send :
      (t : Task) → WorkerStep code p (t ∷ []) (record p { input_queue = p.input_queue ++ t ∷ [] })
  take_task :
      (t : Task) (ts : List Task)
      → p.is_looping ≡ true
      → p.input_queue ≡ t ∷ ts
      → main_loop p.worker (some t) ≡ creates_task t
      → WorkerStep code p [] (record p { input_queue = ts; created = p.created ++ t ∷ [] })
  leave_loop :
      (head : Option Task)
      → main_loop p.worker head ≡ loop_ends
      → WorkerStep code p [] (record p { is_looping = false })
  run_task :
      (xs ys : List Task) (t : Task) (start_time : ℕ) (call : Result Exception (Option ℕ))
      → p.created ≡ xs ++ t ∷ ys
      → WorkerStep code p [] (record p {
        worker = (process_task code start_time t call p.worker).1;
        created = xs ++ ys;
      })
  sync_report :
      (sync_timeout deadline deadline' now : ℕ) (call : Result Exception ℤ) (w : TonlibWorker)
      → report_sync sync_timeout deadline now call p.worker ≡ ok (w, deadline')
      → WorkerStep code p [] (record p { worker = w })
  archival_report :
      (call : Result Exception ℕ) (w : TonlibWorker)
      → report_archival call p.worker ≡ ok w
      → WorkerStep code p [] (record p { worker = w })
  set_exit : WorkerStep code p [] (record p { worker = record (p.worker) { exit_event = true } })

pub data WorkerSteps (code : Exception → ℕ) (p : WorkerProcess)
    : List Task → WorkerProcess → Type 0 where
  here : WorkerSteps code p [] p
  next :
      {ts ts' : List Task} {q r : WorkerProcess}
      → WorkerSteps code p ts q
      → WorkerStep code q ts' r
      → WorkerSteps code p (ts ++ ts') r

abbrev pub has_task_id : ℕ → Task → Bool
has_task_id k t = t.task_id == k

abbrev pub is_result : ℕ → Message → Bool
is_result k (task_result j e r) = j == k
is_result k (last_block_update b) = false
is_result k (archival_update a) = false

-- The results of a task that have been sent, and the times that it waits or runs
abbrev pub results : ℕ → WorkerProcess → ℕ
results k p = count (is_result k) p.worker.output_queue

abbrev pub unfinished : ℕ → WorkerProcess → ℕ
unfinished k p = count (has_task_id k) p.created + count (has_task_id k) p.input_queue

pub count-append {ℓ} :
    {A : Type ℓ} (f : A → Bool) (xs ys : List A) → count f (xs ++ ys) ≡ count f xs + count f ys
count-append f [] ys = omega arith
count-append f (x ∷ xs) ys = omega (arith, count-append f xs ys)

pub put-results :
    (k : ℕ) (m : Message) (w : TonlibWorker)
    → count (is_result k) (put m w).output_queue
      ≡ count (is_result k) w.output_queue + (if is_result k m then 1 else 0)
put-results k m w = omega (arith, count-append (is_result k) w.output_queue (m ∷ []))

pub result_of-is_result :
    (code : Exception → ℕ) (k id : ℕ) (call : Result Exception (Option ℕ))
    → is_result k (result_of code id call) ≡ (id == k)
result_of-is_result code k id (ok r) = refl
result_of-is_result code k id (err e) = refl

pub process_task-results :
    (code : Exception → ℕ) (k start_time : ℕ) (t : Task) (call : Result Exception (Option ℕ))
    (w : TonlibWorker)
    → count (is_result k) (process_task code start_time t call w).1.output_queue
      ≡ count (is_result k) w.output_queue + (if has_task_id k t then 1 else 0)
unfolding process_task
process_task-results code k start_time t call w = elim (Bool-cases (ltb start_time t.timeout)) [
  | inl early ↦
      let m = result_of code t.task_id call in
      let one_more = put-results k m w in
      rw (early, process_task) (rw (result_of-is_result code k t.task_id call) at one_more)
  | inr late ↦
      let m = result_of code t.task_id (err asyncio_timeout) in
      rw (late, process_task) (put-results k m w)
]

pub report_sync-results :
    (k sync_timeout deadline deadline' now : ℕ) (call : Result Exception ℤ) (w w' : TonlibWorker)
    → report_sync sync_timeout deadline now call w ≡ ok (w', deadline')
    → count (is_result k) w'.output_queue ≡ count (is_result k) w.output_queue
unfolding report_sync
report_sync-results k sync_timeout deadline deadline' now (ok b) w w' e =
    let n = put-results k (last_block_update b) w in ground arith
report_sync-results k sync_timeout deadline deadline' now (err x) w w' e =
    elim (Bool-cases (is_tonlib x)) [
      | inr other ↦ (let e' = (rw (other, report_sync) at e) in ground arith)
      | inl tonlib ↦ elim (Bool-cases (leb deadline now)) [
        | inl late ↦ (let e' = (rw (tonlib, late, report_sync) at e) in ground arith)
        | inr early ↦ (let e' = (rw (tonlib, early, report_sync) at e) in ground arith)
      ]
    ]

pub report_flag-results :
    (k : ℕ) (r : Result SyncError Bool) (w w' : TonlibWorker)
    → report_flag r w ≡ ok w'
    → count (is_result k) w'.output_queue ≡ count (is_result k) w.output_queue
report_flag-results k (ok a) w w' e = let n = put-results k (archival_update a) w in ground arith
report_flag-results k (err x) w w' e = ground arith

pub count_middle :
    (k : ℕ) (xs ys : List Task) (t : Task)
    → count (has_task_id k) (xs ++ t ∷ ys)
      ≡ count (has_task_id k) (xs ++ ys) + (if has_task_id k t then 1 else 0)
count_middle k [] ys t = omega arith
count_middle k (x ∷ xs) ys t = omega (arith, count_middle k xs ys t)

pub Step-results :
    (code : Exception → ℕ) (k : ℕ) (ts : List Task) (p q : WorkerProcess)
    → WorkerStep code p ts q
    → results k q + unfinished k q ≡ results k p + unfinished k p + count (has_task_id k) ts
unfolding report_archival
Step-results code k ts p q (send t) =
    let n = count-append (has_task_id k) p.input_queue (t ∷ []) in ground arith
Step-results code k ts p q (take_task t rest l e m) =
    let n = count-append (has_task_id k) p.created (t ∷ []) in
    let i = ap (count (has_task_id k)) e in ground arith
Step-results code k ts p q (leave_loop head e) = ground arith
Step-results code k ts p q (run_task xs ys t start_time call e) =
    let n = process_task-results code k start_time t call p.worker in
    let m = count_middle k xs ys t in let c = ap (count (has_task_id k)) e in ground arith
Step-results code k ts p q (sync_report timeout deadline deadline' now call w e) =
    let n = report_sync-results k timeout deadline deadline' now call p.worker w e in ground arith
Step-results code k ts p q (archival_report call w e) =
    let n = report_flag-results k (archival_after call p.worker.is_archival) p.worker w e in
    ground arith
Step-results code k ts p q set_exit = ground arith

-- However the loops of a worker process and its tasks are interleaved, whatever the client answers
-- and whenever the process is told to exit: for each task id, the results that have been sent,
-- the tasks that run and those that wait in the queue are together as many as the manager
-- has sent tasks with this id, over what there was at the start.
pub Steps-results :
    (code : Exception → ℕ) (k : ℕ) (p q : WorkerProcess) (ts : List Task)
    → WorkerSteps code p ts q
    → results k q + unfinished k q ≡ results k p + unfinished k p + count (has_task_id k) ts
Steps-results code k p q ts here = omega arith
Steps-results code k p q ws (next {ts = us} {ts' = vs} {q = r} s t) =
    let before = Steps-results code k p r us s in
    let after = Step-results code k vs r q t in
    let n = count-append (has_task_id k) us vs in ground arith
