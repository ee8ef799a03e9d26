-- ===== src/Indexer/Tasks/Rounds.antt =====
-- Each task is read once.
use nft_torrent.Base.{
  ℕ, zero, suc, ◌+◌, ◌≤◌, ◌<◌, ◌≡◌, refl, Bool, true, false, Option, none, some, List, [], ◌∷◌, map,
  arith, ◌==◌, take, keep, length, All, All-append, length-take_le, inl, inr, Bool-cases,
  Option-cases,
}
use nft_torrent.Indexer.Nft.{NftTaskQueue}
use nft_torrent.Indexer.Tasks.{
  QueuedTask, Tables, contains, is_due, claim, due_rows, ids_of, sync_nft_task_get, NftState,
  Updating, Outcome, enqueue, is_open, bulk_update, run_tasks, finish_round, task_round,
}

-- A task with one of the ids is not due.
abbrev pub IsClaimed : List ℕ → ℕ → QueuedTask → Type 0
IsClaimed ids later t = contains ids t.id ≡ true → is_due later t ≡ false

claim-IsClaimed :
    (now later : ℕ) (ids : List ℕ) (q : List QueuedTask)
    → All (IsClaimed ids later) (map (claim now ids) q)
claim-IsClaimed now later ids [] = tt
claim-IsClaimed now later ids (t ∷ q) = elim (Bool-cases (contains ids t.id)) [
  | inl hit ↦ (rw hit (λ e. refl), claim-IsClaimed now later ids q)
  | inr miss ↦ (rw miss (λ e. ground arith), claim-IsClaimed now later ids q)
]

All-keep : {A : Type 0} (P : A → Type 0) (f : A → Bool) (xs : List A) → All P xs → All P (keep f xs)
All-keep P f [] h = tt
All-keep P f (x ∷ xs) h = elim (Bool-cases (f x)) [
  | inl yes_kept ↦ rw yes_kept (h.0, All-keep P f xs h.1)
  | inr dropped ↦ rw dropped (All-keep P f xs h.1)
]

All-take : {A : Type 0} (P : A → Type 0) (n : ℕ) (xs : List A) → All P xs → All P (take n xs)
All-take P zero xs h = tt
All-take P (suc n) [] h = tt
All-take P (suc n) (x ∷ xs) h = (h.0, All-take P n xs h.1)

kept_due : (now : ℕ) (q : List QueuedTask) → All (λ t. is_due now t ≡ true) (keep (is_due now) q)
kept_due now [] = tt
kept_due now (t ∷ q) = elim (Bool-cases (is_due now t)) [
  | inl due ↦ rw due (due, kept_due now q)
  | inr early ↦ rw early (kept_due now q)
]

-- A read of the queue returns at most `maxsize` tasks, all of them due, and afterwards none of them
-- is due, however late it is.
pub sync_nft_task_get-IsClaimed :
    (maxsize now later : ℕ) (db : Tables)
    → let (tasks, db') = sync_nft_task_get maxsize now db in
      (length tasks ≤ maxsize)
      × All (λ t. is_due now t ≡ true) tasks
      × All (IsClaimed (ids_of tasks) later) db'.queue
unfolding sync_nft_task_get
sync_nft_task_get-IsClaimed maxsize now later db = (
  length-take_le maxsize (keep (is_due now) db.queue),
  All-take (λ t. is_due now t ≡ true) maxsize (keep (is_due now) db.queue) (kept_due now db.queue),
  claim-IsClaimed now later (ids_of (due_rows maxsize now db)) db.queue,
)

contains_below :
    (n x : ℕ) (ts : List QueuedTask)
    → All (λ t. t.id < n) ts
    → contains (ids_of ts) x ≡ true
    → x < n
contains_below n x [] h e = ground arith
contains_below n x (t ∷ ts) h e = elim (Bool-cases (t.id == x)) [
  | inl hit ↦ ground arith
  | inr miss ↦ contains_below n x ts h.1 (rw miss at e)
]

enqueue-IsClaimed :
    (n k later : ℕ) (ts : List QueuedTask) (new : List NftTaskQueue)
    → All (λ t. t.id < n) ts
    → n ≤ k
    → All (IsClaimed (ids_of ts) later) (enqueue k new)
enqueue-IsClaimed n k later ts [] h le = tt
enqueue-IsClaimed n k later ts (x ∷ new) h le = (
  (λ e. let b = contains_below n k ts h e in ground arith),
  enqueue-IsClaimed n (k + 1) later ts new h (omega arith),
)

finish_round-IsClaimed :
    (later : ℕ) (ts : List QueuedTask) (db : Tables) (o : Option Updating)
    → All (λ t. t.id < db.next_id) ts
    → All (IsClaimed (ids_of ts) later) db.queue
    → All (IsClaimed (ids_of ts) later) (finish_round ts db o).0.queue
unfolding bulk_update
finish_round-IsClaimed later ts db none b h = h
finish_round-IsClaimed later ts db (some u) b h =
    All-append (IsClaimed (ids_of ts) later) (keep (is_open (ids_of ts)) db.queue)
      (enqueue db.next_id u.nft_notifs)
      (All-keep (IsClaimed (ids_of ts) later) (is_open (ids_of ts)) db.queue h)
      (enqueue-IsClaimed db.next_id db.next_id later ts u.nft_notifs b (omega arith))

-- Whether a round succeeds or raises, no task that it has read is due after it, however late it is,
-- so no task is acted on twice; the ids of the tasks must lie below the next id.
pub task_round-IsClaimed :
    (maxsize now later : ℕ) (chain : ℕ → NftState) (raises : Outcome → Bool) (db : Tables)
    → All (λ t. t.id < db.next_id) db.queue
    → All
        (IsClaimed (ids_of (due_rows maxsize now db)) later)
        (task_round maxsize now chain raises db).0.queue
unfolding task_round sync_nft_task_get bulk_update
task_round-IsClaimed maxsize now later chain raises db h =
    let tasks = due_rows maxsize now db in
    let db' = (sync_nft_task_get maxsize now db).1 in
    let claimed = claim-IsClaimed now later (ids_of tasks) db.queue in
    let below =
      All-take (λ t. t.id < db.next_id) maxsize (keep (is_due now) db.queue)
        (All-keep (λ t. t.id < db.next_id) (is_due now) db.queue h) in
    elim (Bool-cases (length tasks == 0)) [
      | inl idle ↦ rw (idle, task_round) claimed
      | inr busy ↦
          rw (busy, task_round)
            (finish_round-IsClaimed later tasks db' (run_tasks now chain raises tasks db') below
              claimed)
    ]

-- The claimed rows are those without a time.
claimed-closed :
    (now : ℕ) (ids : List ℕ) (q : List QueuedTask)
    → All (λ t. contains ids t.id ≡ false) (keep (is_open ids) (map (claim now ids) q))
claimed-closed now ids [] = tt
claimed-closed now ids (t ∷ q) = elim (Bool-cases (contains ids t.id)) [
  | inl hit ↦ rw (hit) (rw (hit) (claimed-closed now ids q))
  | inr miss ↦ rw (miss) (rw (miss) (miss, claimed-closed now ids q))
]

enqueue-new :
    (n k : ℕ) (ts : List QueuedTask) (new : List NftTaskQueue)
    → All (λ t. t.id < n) ts
    → n ≤ k
    → All (λ t. contains (ids_of ts) t.id ≡ false) (enqueue k new)
enqueue-new n k ts [] h le = tt
enqueue-new n k ts (x ∷ new) h le = (
  elim (Bool-cases (contains (ids_of ts) k)) [
    | inl hit ↦ let b = contains_below n k ts h hit in ground arith
    | inr miss ↦ miss
  ],
  enqueue-new n (k + 1) ts new h (omega arith),
)

-- A round that does not raise removes the tasks that it has read from the queue, and the tasks that
-- it adds are others; the ids of the tasks must lie below the next id.
pub task_round-removes :
    (maxsize now : ℕ) (chain : ℕ → NftState) (raises : Outcome → Bool) (db : Tables)
    → All (λ t. t.id < db.next_id) db.queue
    → (task_round maxsize now chain raises db).1 ≡ false
    → All
        (λ t. contains (ids_of (due_rows maxsize now db)) t.id ≡ false)
        (task_round maxsize now chain raises db).0.queue
unfolding task_round sync_nft_task_get bulk_update
task_round-removes maxsize now chain raises db h e =
    let tasks = due_rows maxsize now db in
    let db' = (sync_nft_task_get maxsize now db).1 in
    let below =
      All-take (λ t. t.id < db.next_id) maxsize (keep (is_due now) db.queue)
        (All-keep (λ t. t.id < db.next_id) (is_due now) db.queue h) in
    elim (Bool-cases (length tasks == 0)) [
      | inl idle ↦ rw (idle, task_round) (no_tasks now tasks db.queue idle)
      | inr busy ↦ elim (Option-cases (run_tasks now chain raises tasks db')) [
        | inl raised ↦ let e' = (rw raised at (rw (busy, task_round) at e)) in ground arith
        | inr (u, done) ↦
            rw (busy, task_round)
              (rw done (
                All-append (λ t. contains (ids_of tasks) t.id ≡ false)
                  (keep (is_open (ids_of tasks)) db'.queue) (enqueue db.next_id u.nft_notifs)
                  (claimed-closed now (ids_of tasks) db.queue)
                  (enqueue-new db.next_id db.next_id tasks u.nft_notifs below (omega arith))))
      ]
    ]
  where
    no_tasks :
        (now : ℕ) (ts : List QueuedTask) (q : List QueuedTask)
        → (length ts == 0) ≡ true
        → All (λ t. contains (ids_of ts) t.id ≡ false) (map (claim now (ids_of ts)) q)
    no_tasks now [] [] e = tt
    no_tasks now [] (t ∷ q) e = (refl, no_tasks now [] q e)
    no_tasks now (x ∷ ts) q e = absurd (ground arith)
