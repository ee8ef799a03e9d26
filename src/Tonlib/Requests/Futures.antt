-- ===== src/Tonlib/Requests/Futures.antt =====
-- The bookkeeping of requests in flight: any interleaving of requests, answers and restarts.
use nft_torrent.Base.{
  ℕ, suc, ◌+◌, ◌≡◌, refl, sym, ap, Bool, true, Option, none, some, List, [], ◌∷◌, map, arith, ◌==◌,
  if◌then◌else◌, length, is_some,
}
use nft_torrent.Base.Result.{Result, ok, err}
use nft_torrent.Tonlib.Control.{Future, WorkerControl}
use nft_torrent.Tonlib.Workers.{cancel, terminate_worker, spawn_worker}
use nft_torrent.Tonlib.Requests.{
  lookup, insert, erase, register_task, outcome, finish_task, Message, task_result, settle,
  read_message, timeout, remote,
}
use nft_torrent.Tonlib.Select.{Error}

module _ {ℓ} {V : Type ℓ} where
  pub lookup-insert :
      (k j : ℕ) (v : V) (m : List (ℕ × V))
      → lookup j (insert k v m) ≡ (if k == j then some v else lookup j m)
  unfolding lookup insert
  lookup-insert k j v [] = refl
  lookup-insert k j v ((i, u) ∷ m) = ground (arith, lookup-insert k j v m)

  pub erase-insert :
      (k : ℕ) (v : V) (m : List (ℕ × V)) → lookup k m ≡ none → erase k (insert k v m) ≡ m
  unfolding lookup insert erase
  erase-insert k v [] h = ground arith
  erase-insert k v ((i, u) ∷ m) h = ground (arith, erase-insert k v m)

  pub insert-insert :
      (k : ℕ) (u v : V) (m : List (ℕ × V)) → insert k v (insert k u m) ≡ insert k v m
  unfolding insert
  insert-insert k u v [] = ground arith
  insert-insert k u v ((i, x) ∷ m) = ground (arith, insert-insert k u v m)

  length-insert :
      (k : ℕ) (v : V) (m : List (ℕ × V))
      → length (insert k v m) ≡ (if is_some (lookup k m) then length m else suc (length m))
  unfolding lookup insert
  length-insert k v [] = refl
  length-insert k v ((i, u) ∷ m) = ground (arith, length-insert k v m)

  length-erase :
      (k : ℕ) (m : List (ℕ × V))
      → length (erase k m) + (if is_some (lookup k m) then 1 else 0) ≡ length m
  unfolding lookup erase
  length-erase k [] = refl
  length-erase k ((i, u) ∷ m) = ground (arith, length-erase k m)

-- What a caller gets for what the worker has sent
abbrev pub answer_of : Option ℕ → Option ℕ → Result Error ℕ
answer_of none none = err timeout
answer_of none (some r) = ok r
answer_of (some e) none = err (remote e)
answer_of (some e) (some r) = err (remote e)

outcome-settle :
    (exception result : Option ℕ)
    → outcome (some (settle exception result).0) ≡ answer_of exception result
unfolding outcome settle
outcome-settle none none = refl
outcome-settle none (some r) = refl
outcome-settle (some e) none = refl
outcome-settle (some e) (some r) = refl

-- A task that is registered under a fresh id, answered once and finished returns the result of the
-- worker, or raises its exception if it has one, or is timed out if it has sent neither, and leaves
-- the worker as it was, but for the count of tasks.
pub finish-read-register :
    (task_id ctime : ℕ) (exception result : Option ℕ) (w : WorkerControl)
    → lookup task_id w.futures ≡ none
    → let (v, raised) =
        read_message ctime (task_result task_id exception result) (register_task task_id w) in
      finish_task task_id v
      ≡ (answer_of exception result, record w { tasks_count = w.tasks_count + 1 })
unfolding finish_task read_message register_task
finish-read-register task_id ctime exception result w fresh =
    let f = (settle exception result).0 in
    rw (sym (outcome-settle exception result)) (
      ground (
        arith,
        lookup-insert task_id task_id Future.pending w.futures,
        lookup-insert task_id task_id f w.futures,
        insert-insert task_id Future.pending f w.futures,
        erase-insert task_id f w.futures,
      ))

-- What happens to a worker while requests are in flight. A new task has a fresh id, and a task that
-- ends has been registered.
pub data Step (w : WorkerControl) : WorkerControl → Type 0 where
  begin : (task_id : ℕ) → lookup task_id w.futures ≡ none → Step w (register_task task_id w)
  read : (ctime : ℕ) (msg : Message) → Step w (read_message ctime msg w).0
  end_task :
      (task_id : ℕ) → is_some (lookup task_id w.futures) ≡ true → Step w (finish_task task_id w).1
  terminate : Step w (terminate_worker w)
  respawn :
      (force started : Bool) (pid mtime ctime : ℕ)
      → Step w (spawn_worker force pid started mtime ctime w)

pub data Steps (w : WorkerControl) : WorkerControl → Type 0 where
  here : Steps w w
  next : {u v : WorkerControl} → Steps w u → Step u v → Steps w v

-- The tasks that wait are those with a future.
abbrev pub IsCounted : WorkerControl → Type 0
IsCounted w = w.pending_tasks ≡ length w.futures

length-cancelled :
    (m : List (ℕ × Future)) → length {A = ℕ × Future} (map (λ e. (e.0, cancel e.1)) m) ≡ length m
length-cancelled [] = refl
length-cancelled (e ∷ m) = ap suc (length-cancelled m)

read-IsCounted :
    (ctime : ℕ) (msg : Message) (w : WorkerControl)
    → IsCounted w
    → IsCounted (read_message ctime msg w).0
unfolding read_message
read-IsCounted ctime (task_result i x r) w h =
    ground (arith, length-insert i (settle x r).0 w.futures)
read-IsCounted ctime msg w h = ground arith

Step-IsCounted : {w v : WorkerControl} → Step w v → IsCounted w → IsCounted v
unfolding register_task finish_task terminate_worker spawn_worker
Step-IsCounted {w} (begin i fresh) h = ground (arith, length-insert i Future.pending w.futures)
Step-IsCounted {w} (read ctime msg) h = read-IsCounted ctime msg w h
Step-IsCounted {w} (end_task i known) h = ground (arith, length-erase i w.futures)
Step-IsCounted {w} terminate h = omega (arith, length-cancelled w.futures)
Step-IsCounted {w} (respawn force started pid mtime ctime) h =
    ground (arith, length-cancelled w.futures)

-- Whatever requests, answers, terminations and restarts happen to a worker in any order, the count
-- of pending tasks stays the number of registered futures, if it is so at first.
pub Steps-IsCounted : {w v : WorkerControl} → IsCounted w → Steps w v → IsCounted v
Steps-IsCounted h here = h
Steps-IsCounted h (next r st) = Step-IsCounted st (Steps-IsCounted h r)
