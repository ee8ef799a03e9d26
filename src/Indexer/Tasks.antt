-- ===== src/Indexer/Tasks.antt =====
-- The queue of NFT tasks: sync_nft_task_get, nft_update, nft_task_processor and
-- sync_collection_nft_bulk_update of NFTorrent/indexer/indexdb.py. NFTs are looked up by id in one
-- list, since a task and the list of updates share the object. All instants of a round are one, and
-- the collection of each task is known.
pub mod Rounds
pub mod Warn
use nft_torrent.Base.{
  ℕ, ◌+◌, ◌-◌, ◌*◌, ◌/◌, Bool, true, false, not, ◌&&◌, ◌||◌, Option, none, some, List, [], ◌∷◌,
  ◌++◌, map, ltb, leb, ◌==◌, if◌then◌else◌, is_some, take, keep, length,
}
use nft_torrent.Indexer.Nft.{
  PetMemoryNft, NftTaskType, sync, notify_due_date, notify_mint, notify_updated, notify_transfered,
  NftTaskQueue, warn_offset, expired_offset, text_differs,
}
use nft_torrent.Indexer.Update.{nft_update, due_time}
use Prim.Native.String.{String}

-- A row of the queue. A task that is being processed has no time.
pub record QueuedTask : Type 0 where
  pub id : ℕ
  pub task_type : NftTaskType
  pub task_time : Option ℕ
  pub procst_time : Option ℕ
  pub pet_memory_nft_id : ℕ

-- The tables, with the next id of a task, and the owners with a Telegram user
pub record Tables : Type 0 where
  pub queue : List QueuedTask
  pub next_id : ℕ
  pub nfts : List PetMemoryNft
  pub users : List String

abbrev pub contains : List ℕ → ℕ → Bool
contains [] x = false
contains (y ∷ ys) x = y == x || contains ys x

abbrev pub is_due : ℕ → QueuedTask → Bool
is_due now t = elim t.task_time [ none ↦ false | some time ↦ leb time now ]

-- The row of a task that has been read
abbrev pub claim : ℕ → List ℕ → QueuedTask → QueuedTask
claim now ids t =
    if contains ids t.id then record t { procst_time = some now; task_time = none } else t

-- The tasks that are due, in the order of the table
abbrev pub due_rows : ℕ → ℕ → Tables → List QueuedTask
due_rows maxsize now db = take maxsize (keep (is_due now) db.queue)

abbrev pub ids_of : List QueuedTask → List ℕ
ids_of = map (λ t. t.id)

unfoldable pub sync_nft_task_get : ℕ → ℕ → Tables → List QueuedTask × Tables
sync_nft_task_get maxsize now db =
    let tasks = due_rows maxsize now db in
    (tasks, record db { queue = map (claim now (ids_of tasks)) db.queue })

unfoldable pub get_nft : ℕ → List PetMemoryNft → Option PetMemoryNft
get_nft id [] = none
get_nft id (nft ∷ nfts) = if nft.id == id then some nft else get_nft id nfts

-- `session.merge`, and an assignment to an attribute of a shared object
unfoldable pub put_nft : PetMemoryNft → List PetMemoryNft → List PetMemoryNft
put_nft nft [] = nft ∷ []
put_nft nft (other ∷ nfts) = if other.id == nft.id then nft ∷ nfts else other ∷ put_nft nft nfts

-- What the chain says of an NFT: its data, that its contract does not exist any more, or a
-- TonlibRequestError. Other errors end the round and are left out.
pub data NftState : Type 0 where
  current : PetMemoryNft → NftState
  deleted : NftState
  request_error : NftState

-- The objects, the updated ones, the new tasks, and the NFTs with `_nft_update_error`
pub record Updating : Type 0 where
  pub nfts : List PetMemoryNft
  pub nft_updates : List ℕ
  pub nft_notifs : List NftTaskQueue
  pub errors : List ℕ

abbrev pub update_state : ℕ → PetMemoryNft → NftState → Updating → Updating
update_state now nft (current new_nft) u =
    let (nft', notifs) = nft_update now nft new_nft u.nft_notifs in
    record u {
      nfts = put_nft nft' u.nfts;
      nft_notifs = notifs;
      nft_updates = elim nft'.nft_updated [
        | none ↦ u.nft_updates
        | some b ↦ if b then u.nft_updates ++ nft.id ∷ [] else u.nft_updates
      ];
    }
update_state now nft deleted u = record u {
  nfts = put_nft (record nft { deleted_time = some now }) u.nfts;
  nft_updates = u.nft_updates ++ nft.id ∷ [];
}
update_state now nft request_error u = record u { errors = u.errors ++ nft.id ∷ [] }

-- One round of the loop, which first clears the error
unfoldable pub update_one : ℕ → (ℕ → NftState) → ℕ → Updating → Updating
update_one now chain id u =
    let cleared = record u { errors = keep (λ e. not (e == id)) u.errors } in
    elim (get_nft id u.nfts) [ none ↦ cleared | some nft ↦ update_state now nft (chain id) cleared ]

unfoldable pub update_all : ℕ → (ℕ → NftState) → List ℕ → Updating → Updating
update_all now chain [] u = u
update_all now chain (id ∷ ids) u = update_all now chain ids (update_one now chain id u)

-- `[x for x in nft_updates if x._nft_image_updated]`: an object without the attribute raises.
unfoldable pub has_image_flags : List PetMemoryNft → List ℕ → Bool
has_image_flags nfts [] = true
has_image_flags nfts (id ∷ ids) =
    elim (get_nft id nfts) [ none ↦ false | some nft ↦ is_some nft.nft_image_updated ]
    && has_image_flags nfts ids

-- What becomes of a task
pub data Outcome : Type 0 where
  nft_not_found nft_update_error user_not_found : Outcome
  frequent_notification due_date_far : Outcome
  warned minted updated transfered synced : Outcome

abbrev pub has_user : List String → String → Bool
has_user [] owner = false
has_user (u ∷ us) owner = not (text_differs u owner) || has_user us owner

-- `(self.warn_offset - self.expired_offset) / 2`
abbrev pub quiet_time : ℕ
quiet_time = (warn_offset - expired_offset) / 2

abbrev pub is_frequent : ℕ → PetMemoryNft → Bool
is_frequent now nft = elim nft.last_notified [ none ↦ false | some t ↦ ltb now (t + quiet_time) ]

-- The reminder of the due date
abbrev pub warn_owner : ℕ → PetMemoryNft → Outcome
warn_owner now nft =
    if is_frequent now nft
    then frequent_notification
    else if ltb (now + warn_offset) (due_time nft)
    then due_date_far
    else warned

abbrev pub act : ℕ → NftTaskType → PetMemoryNft → Outcome
act now sync nft = synced
act now notify_due_date nft = warn_owner now nft
act now notify_mint nft = minted
act now notify_updated nft = updated
act now notify_transfered nft = transfered

unfoldable pub task_outcome : ℕ → List String → Updating → QueuedTask → Outcome
task_outcome now users u t = elim (get_nft t.pet_memory_nft_id u.nfts) [
  | none ↦ nft_not_found
  | some nft ↦
      if contains u.errors nft.id
      then nft_update_error
      else if has_user users nft.owner
      then act now t.task_type nft
      else user_not_found
]

-- `nft.last_notified = curr_time`
abbrev pub set_notified : ℕ → ℕ → Updating → Updating
set_notified now id u = elim (get_nft id u.nfts) [
  | none ↦ u
  | some nft ↦ record u { nfts = put_nft (record nft { last_notified = some now }) u.nfts }
]

abbrev pub is_warned : Outcome → Bool
is_warned warned = true
is_warned _ = false

unfoldable pub process_task : ℕ → List String → QueuedTask → Updating → Outcome × Updating
process_task now users t u =
    let o = task_outcome now users u t in
    (o, if is_warned o then set_notified now t.pet_memory_nft_id u else u)

-- The loop over the tasks; a notification that raises ends it.
unfoldable pub process_tasks :
    ℕ → List String → (Outcome → Bool) → List QueuedTask → Updating → Option Updating
process_tasks now users raises [] u = some u
process_tasks now users raises (t ∷ ts) u =
    let (o, u') = process_task now users t u in
    if raises o then none else process_tasks now users raises ts u'

abbrev pub is_refreshed : NftTaskType → Bool
is_refreshed sync = true
is_refreshed notify_due_date = true
is_refreshed _ = false

-- The NFTs of the tasks that look at the chain first
abbrev pub to_update : List QueuedTask → List ℕ
to_update tasks = map (λ t. t.pet_memory_nft_id) (keep (λ t. is_refreshed t.task_type) tasks)

abbrev pub enqueue : ℕ → List NftTaskQueue → List QueuedTask
enqueue id [] = []
enqueue id (t ∷ ts) =
    record {
      id = id;
      task_type = t.task_type;
      task_time = some t.task_time;
      procst_time = none;
      pet_memory_nft_id = t.pet_memory_nft_id;
    }
    ∷ enqueue (id + 1) ts

-- The stored NFTs after the updated ones have been merged
unfoldable pub merge_all : List PetMemoryNft → List ℕ → List PetMemoryNft → List PetMemoryNft
merge_all objects [] nfts = nfts
merge_all objects (id ∷ ids) nfts =
    merge_all objects ids (elim (get_nft id objects) [ none ↦ nfts | some nft ↦ put_nft nft nfts ])

-- Completed tasks go, unless they have got a time again.
abbrev pub is_open : List ℕ → QueuedTask → Bool
is_open ids t = not (contains ids t.id && not (is_some t.task_time))

unfoldable pub bulk_update : List QueuedTask → Updating → Tables → Tables
bulk_update comp_tasks u db = record db {
  queue = keep (is_open (ids_of comp_tasks)) db.queue ++ enqueue db.next_id u.nft_notifs;
  next_id = db.next_id + length u.nft_notifs;
  nfts = merge_all u.nfts u.nft_updates db.nfts;
}

-- The updates and the notifications of the tasks that have been read; `none` where one raises
unfoldable pub run_tasks :
    ℕ → (ℕ → NftState) → (Outcome → Bool) → List QueuedTask → Tables → Option Updating
run_tasks now chain raises tasks db =
    let start : Updating = record {
      nfts = db.nfts;
      nft_updates = [];
      nft_notifs = [];
      errors = [];
    } in
    let known = keep (λ id. is_some (get_nft id db.nfts)) (to_update tasks) in
    let u = update_all now chain known start in
    if has_image_flags u.nfts u.nft_updates then process_tasks now db.users raises tasks u else none

-- The tables after a round, and whether it has raised: then its tasks stay as they have been read.
abbrev pub finish_round : List QueuedTask → Tables → Option Updating → Tables × Bool
finish_round tasks db none = (db, true)
finish_round tasks db (some u) = (bulk_update tasks u db, false)

-- One round of `nft_task_processor`
unfoldable pub task_round : ℕ → ℕ → (ℕ → NftState) → (Outcome → Bool) → Tables → Tables × Bool
task_round maxsize now chain raises db =
    let (tasks, db') = sync_nft_task_get maxsize now db in
    if length tasks == 0
    then (db', false)
    else finish_round tasks db' (run_tasks now chain raises tasks db')
