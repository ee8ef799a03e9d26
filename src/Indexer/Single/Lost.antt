-- ===== src/Indexer/Single/Lost.antt =====
-- What the sync of one NFT leaves in the tables: nft_update_nft_data of
-- NFTorrent/indexer/indexdb.py.
use nft_torrent.Base.{ℕ, ◌≡◌, refl, ◌∙◌, true, false, Option, none, some, List, []}
use nft_torrent.Indexer.Nft.{PetMemoryNft, NftTaskQueue}
use nft_torrent.Indexer.Update.{nft_update}
use nft_torrent.Indexer.Update.Changes.{
  SameAttributes, nft_update-SameAttributes, nft_update-error_code,
}
use nft_torrent.Indexer.Tasks.{Tables}
use nft_torrent.Indexer.Single.{Calls, Synced, NftData, nft_update_nft_data, updated_row, updating}
use Prim.Native.String.{String}

-- A row that is not flagged, and has no error, is not stored.
abbrev IsIdle : Tables → Synced → Type 0
IsIdle db s = (s.tables ≡ db) × (s.raised ≡ none)

updated_row-IsIdle :
    (calls : Calls) (prev_cid : Option String) (db : Tables) (p : PetMemoryNft × List NftTaskQueue)
    → p.0.nft_updated ≡ some false
    → p.0.nft_image_updated ≡ some false
    → p.0.error_code ≡ none
    → IsIdle db (updated_row calls prev_cid db p)
updated_row-IsIdle calls prev_cid db (nft, notifs) u i e = rw (i, e, u) (refl, refl)

self-SameAttributes : (nft : PetMemoryNft) → SameAttributes nft nft
self-SameAttributes nft = record {
  owner = refl;
  uri = refl;
  image = refl;
  image_data = refl;
  fee_due_time = refl;
  description = refl;
}

-- The sync of an NFT that the index does not have stores nothing and schedules no task, although
-- the code flags the new row as updated: the row is compared with itself, which clears the flags.
-- The new row must not be deleted nor have an error, as no row is that is made of the data of a
-- contract.
pub nft_update_nft_data_new :
    (now : ℕ) (calls : Calls) (nft_data : NftData) (db : Tables)
    → nft_data.in_collection ≡ true
    → nft_data.row.deleted_time ≡ none
    → nft_data.row.error_code ≡ none
    → ((nft_update_nft_data now calls none (some nft_data) db).tables ≡ db)
      × ((nft_update_nft_data now calls none (some nft_data) db).raised ≡ none)
unfolding nft_update_nft_data
nft_update_nft_data_new now calls nft_data db known alive sound =
    let r = updating none nft_data.row in
    let (attributes, restored, updated, transfered, image) = nft_update-SameAttributes now r r [] in
    let quiet = updated.1 (alive, self-SameAttributes r) in
    let kept = image.1 (refl, refl) in
    let no_error = nft_update-error_code now r r [] ∙ sound in
    rw known (updated_row-IsIdle calls none db (nft_update now r r []) quiet kept no_error)
