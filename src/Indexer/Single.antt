-- ===== src/Indexer/Single.antt =====
-- The sync of one NFT and the insertion of new ones: nft_update_nft_data and
-- sync_collection_nft_bulk_insert of NFTorrent/indexer/indexdb.py, and uri_ipfs of
-- NFTorrent/utils.py. The row that the cached `nft_get` gives is a parameter, and so are the calls
-- of IPFS and the making of icons. The collection of a row in the index is known.
pub mod Lost
pub mod Minted
use nft_torrent.Base.{
  ℕ, ◌+◌, Bool, true, false, not, Option, none, some, List, [], ◌∷◌, ◌++◌, ltb, if◌then◌else◌,
  is_some, length,
}
use nft_torrent.Base.Result.{Result, ok, err}
use nft_torrent.Indexer.Nft.{
  PetMemoryNft, NftTaskType, notify_due_date, notify_mint, NftTaskQueue, task_queue_timeout,
}
use nft_torrent.Indexer.Update.{nft_update, task, due_time, due_task_time}
use nft_torrent.Indexer.Tasks.{Tables, Updating, bulk_update, enqueue}
use nft_torrent.Ipfs.Content.{Node, parse_ipfs_uri, equals, truthy}
use Prim.Native.String.{String}
use text.Mathlib.Text.{starts_with}

-- `uri and uri.startswith("ipfs://")`
abbrev pub uri_ipfs : Option String → Bool
uri_ipfs none = false
uri_ipfs (some uri) = starts_with uri "ipfs://"

abbrev pub cid_in : Node → Option String → Option String
cid_in node none = none
cid_in node (some uri) = (parse_ipfs_uri node uri).0

-- The calls: the pickled content of a CID, or the number of the exception; and the error code that
-- the making of the icons leaves on a row
pub record Calls : Type 0 where
  pub node : Node
  pub torrent_info : String → Result ℕ String
  pub make_icon : PetMemoryNft → Option String

pub data SingleError : Type 0 where
  unbound_cid : SingleError
  ipfs_failed : ℕ → SingleError

-- The tables, the CIDs that are unlinked from the NFT, and what is raised
pub record Synced : Type 0 where
  pub tables : Tables
  pub unlinked : List (Option String × String)
  pub raised : Option SingleError

-- The data of the contract: whether its collection is indexed, and the row that is made of it
pub record NftData : Type 0 where
  pub in_collection : Bool
  pub row : PetMemoryNft

abbrev pub store : PetMemoryNft → List NftTaskQueue → Tables → Tables
store nft notifs db =
    bulk_update []
      (record { nfts = nft ∷ []; nft_updates = nft.id ∷ []; nft_notifs = notifs; errors = [] }) db

-- `if nft._nft_updated`, at the end
abbrev pub store_updated : PetMemoryNft → List NftTaskQueue → Tables → Tables
store_updated nft notifs db = elim nft.nft_updated [
  | none ↦ db
  | some b ↦ if b then store nft notifs db else db
]

abbrev pub with_icons : Calls → PetMemoryNft → PetMemoryNft
with_icons calls nft = record nft { error_code = calls.make_icon nft }

abbrev pub unlink_old : Option String → Option String → String → List (Option String × String)
unlink_old prev_cid cid address = if equals prev_cid cid then [] else (prev_cid, address) ∷ []

-- The content of the new image
abbrev pub with_info : Calls → PetMemoryNft → Option String → Result ℕ PetMemoryNft
with_info calls nft none = ok (record nft { torrent_info = none })
with_info calls nft (some cid) = elim (calls.torrent_info cid) [
  | err e ↦ err e
  | ok info ↦ ok (record nft { torrent_info = some info })
]

abbrev pub stored_info :
    Calls
    → List NftTaskQueue
    → List (Option String × String)
    → Tables
    → Result ℕ PetMemoryNft
    → Synced
stored_info calls notifs unlinked db (err e) = record {
  tables = db;
  unlinked = unlinked;
  raised = some (ipfs_failed e);
}
stored_info calls notifs unlinked db (ok nft) = record {
  tables = store_updated (with_icons calls nft) notifs db;
  unlinked = unlinked;
  raised = none;
}

-- `cid or None`: an empty one counts as none.
abbrev pub nonempty : Option String → Option String
nonempty cid = if truthy cid then cid else none

-- After an image has changed. Outside of IPFS, `cid` is unbound.
abbrev pub image_changed :
    Calls → Option String → PetMemoryNft → List NftTaskQueue → Tables → Synced
image_changed calls prev_cid nft notifs db =
    if uri_ipfs nft.image
    then (let cid = cid_in calls.node nft.image in
        stored_info calls notifs (unlink_old prev_cid cid nft.address) db
          (with_info calls nft (nonempty cid)))
    else record { tables = db; unlinked = []; raised = some unbound_cid }

abbrev pub is_set : Option Bool → Bool
is_set none = false
is_set (some b) = b

-- A row with an error gets its icons again.
abbrev pub image_kept : Calls → PetMemoryNft → List NftTaskQueue → Tables → Synced
image_kept calls nft notifs db =
    let retried = with_icons calls (record nft { nft_updated = some true }) in
    record {
      tables = store_updated (if is_some nft.error_code then retried else nft) notifs db;
      unlinked = [];
      raised = none;
    }

abbrev pub updated_row : Calls → Option String → Tables → PetMemoryNft × List NftTaskQueue → Synced
updated_row calls prev_cid db (nft, notifs) =
    if is_set nft.nft_image_updated
    then image_changed calls prev_cid nft notifs db
    else image_kept calls nft notifs db

-- A row that is new to the index is updated with itself.
abbrev pub updating : Option PetMemoryNft → PetMemoryNft → PetMemoryNft
updating none row = record row { nft_image_updated = some true; nft_updated = some true }
updating (some nft) row = nft

abbrev pub new_state : Option PetMemoryNft → PetMemoryNft → PetMemoryNft
new_state none row = updating none row
new_state (some nft) row = row

abbrev pub prev_cid_of : Calls → Option PetMemoryNft → Option String
prev_cid_of calls none = none
prev_cid_of calls (some nft) = if uri_ipfs nft.image then cid_in calls.node nft.image else none

abbrev pub delete_nft : ℕ → Calls → Option PetMemoryNft → Tables → Synced
delete_nft now calls none db = record { tables = db; unlinked = []; raised = none }
delete_nft now calls (some nft) db =
    let prev_cid = prev_cid_of calls (some nft) in
    record {
      tables = store (record nft { deleted_time = some now }) [] db;
      unlinked = if truthy prev_cid then (prev_cid, nft.address) ∷ [] else [];
      raised = none;
    }

unfoldable pub nft_update_nft_data :
    ℕ → Calls → Option PetMemoryNft → Option NftData → Tables → Synced
nft_update_nft_data now calls found none db = delete_nft now calls found db
nft_update_nft_data now calls found (some nft_data) db =
    if nft_data.in_collection
    then updated_row calls (prev_cid_of calls found) db
        (nft_update now (updating found nft_data.row) (new_state found nft_data.row) [])
    else record { tables = db; unlinked = []; raised = none }

-- The tasks for a new NFT whose fee is not due yet
abbrev pub mint_tasks : ℕ → PetMemoryNft → List NftTaskQueue
mint_tasks now nft =
    if ltb (due_time nft) now
    then []
    else task notify_mint (now + task_queue_timeout) nft
      ∷ task notify_due_date (due_task_time now (due_time nft)) nft
      ∷ []

abbrev pub all_mint_tasks : ℕ → List PetMemoryNft → List NftTaskQueue
all_mint_tasks now [] = []
all_mint_tasks now (nft ∷ nfts) = mint_tasks now nft ++ all_mint_tasks now nfts

-- The rows of the batch, with the ids that the database has given them, and the number of tasks
unfoldable pub bulk_insert : ℕ → List PetMemoryNft → Tables → ℕ × Tables
bulk_insert now bulk db =
    let notifs = all_mint_tasks now bulk in
    (
      length notifs,
      record db {
        nfts = db.nfts ++ bulk;
        queue = db.queue ++ enqueue db.next_id notifs;
        next_id = db.next_id + length notifs;
      },
    )
