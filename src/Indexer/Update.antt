-- ===== src/Indexer/Update.antt =====
-- `IndexDb._nft_update` (NFTorrent/indexer/indexdb.py): an indexed NFT takes over the mutable
-- attributes of its new state, and the notifications that follow are scheduled.
pub mod Changes
use nft_torrent.Base.{
  ℕ, ◌+◌, ◌-◌, ◌*◌, Bool, true, false, ◌||◌, Option, none, some, List, [], ◌∷◌, ◌++◌, ltb, ◌==◌,
  if◌then◌else◌, is_some,
}
use nft_torrent.Indexer.Nft.{
  PetMemoryNft, NftTaskType, notify_due_date, notify_updated, notify_transfered, NftTaskQueue,
  second, warn_offset, expired_offset, task_queue_timeout, text_differs, differs,
}

-- The flags as the loop over `nft_mutable_attributes` keeps them.
pub record Flags : Type 0 where
  pub updated : Bool
  pub image_updated : Bool
  pub transfered : Bool

-- One round of the loop: the attribute differs, and what kind of attribute it is.
abbrev pub note_change : Bool → Bool → Bool → Flags → Flags
note_change differ is_owner is_image f =
    if differ
    then record {
      updated = true;
      image_updated = f.image_updated || is_image;
      transfered = f.transfered || is_owner;
    }
    else f

-- The flags after all six attributes, in the order of the source.
pub changes : PetMemoryNft → PetMemoryNft → Flags
changes nft new_nft =
    let start : Flags = record {
      updated = is_some nft.deleted_time;
      image_updated = false;
      transfered = false;
    } in
    note_change (differs nft.description new_nft.description) false false (
      note_change (not_equal nft.fee_due_time new_nft.fee_due_time) false false (
        note_change (differs nft.image_data new_nft.image_data) false true (
          note_change (differs nft.image new_nft.image) false true (
            note_change (differs nft.uri new_nft.uri) false false
              (note_change (text_differs nft.owner new_nft.owner) true false start)))))
  where
    not_equal : ℕ → ℕ → Bool
    not_equal a b = if a == b then false else true

abbrev pub task : NftTaskType → ℕ → PetMemoryNft → NftTaskQueue
task type time nft = record {
  task_type = type;
  task_time = time;
  collection_id = nft.collection_id;
  pet_memory_nft_id = nft.id;
  index = nft.index;
}

-- When the owner is warned: ten days ahead, or one day ahead where that is too late.
pub due_task_time : ℕ → ℕ → ℕ
due_task_time curr_time due_time =
    due_time - (if ltb (curr_time + warn_offset) due_time then warn_offset else expired_offset)

abbrev pub due_time : PetMemoryNft → ℕ
due_time nft = nft.fee_due_time * second

pub update_tasks : ℕ → Flags → PetMemoryNft → List NftTaskQueue
update_tasks curr_time f nft =
    if f.updated
    then task (if f.transfered then notify_transfered else notify_updated)
        (curr_time + task_queue_timeout) nft
      ∷ []
    else []

pub due_tasks : ℕ → PetMemoryNft → List NftTaskQueue
unfolding due_task_time
due_tasks curr_time nft =
    if ltb curr_time (due_time nft)
    then task notify_due_date (due_task_time curr_time (due_time nft)) nft ∷ []
    else []

-- The row with the attributes of the new state, which an assignment per difference leaves.
pub take_over : ℕ → Flags → PetMemoryNft → PetMemoryNft → PetMemoryNft
take_over curr_time f nft new_nft = record nft {
  deleted_time = none;
  updated_time = if f.updated then curr_time else nft.updated_time;
  owner = if text_differs nft.owner new_nft.owner then new_nft.owner else nft.owner;
  fee_due_time =
      if nft.fee_due_time == new_nft.fee_due_time then nft.fee_due_time else new_nft.fee_due_time;
  uri = if differs nft.uri new_nft.uri then new_nft.uri else nft.uri;
  description =
      if differs nft.description new_nft.description then new_nft.description else nft.description;
  image = if differs nft.image new_nft.image then new_nft.image else nft.image;
  image_data =
      if differs nft.image_data new_nft.image_data then new_nft.image_data else nft.image_data;
  nft_updated = some f.updated;
  nft_image_updated = some f.image_updated;
  nft_transfered = some f.transfered;
}

-- The row, and the tasks that are appended to `nft_notifs`.
unfoldable pub nft_update :
    ℕ → PetMemoryNft → PetMemoryNft → List NftTaskQueue → PetMemoryNft × List NftTaskQueue
unfolding changes take_over update_tasks due_tasks
nft_update curr_time nft new_nft nft_notifs =
    let f = changes nft new_nft in
    let nft' = take_over curr_time f nft new_nft in
    (nft', (nft_notifs ++ update_tasks curr_time f nft') ++ due_tasks curr_time nft')
