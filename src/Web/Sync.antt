-- ===== src/Web/Sync.antt =====
-- `sync_nft_data` (NFTorrent/webserver.py): an NFT is read from its contract, and brought up to
-- date in the index and among the pins, under a lock of its address. Other requests may move the
-- lock of another address only, while one is at work.
pub mod Verified
mod Tests
use nft_torrent.Base.{
  ℕ, Bool, true, false, not, Option, none, some, List, [], ◌∷◌, ltb, if◌then◌else◌,
}
use nft_torrent.Base.Result.{Result, ok, err}
use nft_torrent.Indexer.Nft.{PetMemoryNft}
use nft_torrent.Indexer.Single.{
  uri_ipfs, cid_in, Calls, SingleError, Synced, NftData, nft_update_nft_data,
}
use nft_torrent.Indexer.Tasks.{Tables}
use nft_torrent.Ipfs.Content.{Error, truthy}
use nft_torrent.Ipfs.Pins.{Cluster, IpfsSettings, Request, NftContentPin, cid_pin_status}
use nft_torrent.Locks.{Locks, obtain, acquire, aexit}
use nft_torrent.Tonlib.NftData.{
  NftError, contract_is_not_nft, NftItemData, Readers, answered, get_nft_data,
}
use nft_torrent.Tonlib.Requests.Fallback.{Answer}
use nft_torrent.Tonlib.Select
use Prim.Native.String.{String}

-- A LockShouldWaitError, and what the calls raise
pub data WebError : Type 0 where
  lock_should_wait : WebError
  nft_error : NftError → WebError
  ipfs_error : Error → WebError
  index_error : SingleError → WebError

-- The response 204, and a `return` without a response
pub data Reply : Type 0 where
  no_content nothing : Reply

-- What the request changes: the locks of its address, the tables, the pins that it asks for or
-- unlinks, and the content whose confirmation it starts
pub record SyncState : Type 0 where
  pub locks : Locks
  pub tables : Tables
  pub sent : List Request
  pub unlinked : List (Option String × String)
  pub confirming : List (String × String)

-- The parts that the request calls, with the answers of the liteservers: to the two methods of
-- `get_nft_data`, and the state of the account, of which `uninited` tells the type; the due time of
-- the storage, and the row that `from_nftmodel` makes
pub record Server : Type 0 where
  pub now : ℕ
  pub readers : Readers
  pub run_method : Result Select.Error Answer
  pub item_address : String → ℕ → Result Select.Error Answer
  pub account_state : Result Select.Error Answer
  pub uninited : ℕ → Bool
  pub storage_due_time : ℕ → ℕ
  pub row_of : NftItemData → NftData
  pub calls : Calls
  pub found : Option PetMemoryNft
  pub cluster : Cluster
  pub ipfs : IpfsSettings

module _ (server : Server) (address : String) where
  abbrev pub replied : Reply → Option SingleError → Result WebError Reply
  replied reply none = ok reply
  replied reply (some e) = err (index_error e)

  -- `nft_update_nft_data`, and the reply after it
  abbrev pub update_index : Option NftData → Reply → SyncState → Result WebError Reply × SyncState
  update_index nft_data reply s =
      let synced = nft_update_nft_data server.now server.calls server.found nft_data s.tables in
      (replied reply synced.raised, record s { tables = synced.tables; unlinked = synced.unlinked })

  -- The handler of TonlibContractIsNotNft
  abbrev pub contract_gone : Result NftError ℕ → SyncState → Result WebError Reply × SyncState
  contract_gone (err e) s = (err (nft_error e), s)
  contract_gone (ok state) s =
      if server.uninited state
      then update_index none nothing s
      else (err (nft_error contract_is_not_nft), s)

  -- `pin_status.expires if pin_status else time.time()`
  abbrev pub expires_of : Option NftContentPin → ℕ
  expires_of none = server.now
  expires_of (some pin) = pin.expires

  -- The confirmation starts where the storage is due after the pin expires.
  abbrev pub confirm_due :
      NftItemData
      → String
      → Result Error (Option NftContentPin)
      → SyncState
      → Result WebError SyncState
  confirm_due nft_data cid (err e) s = err (ipfs_error e)
  confirm_due nft_data cid (ok pin_status) s =
      if ltb (expires_of pin_status) (server.storage_due_time nft_data.content)
      then ok (record s { confirming = (address, cid) ∷ s.confirming })
      else ok s

  abbrev pub check_pin :
      NftItemData → Option String → SyncState → Result WebError SyncState × List Request
  check_pin nft_data none s = (ok s, [])
  check_pin nft_data (some cid) s =
      if truthy (some cid)
      then (let (pin_status, sent) = cid_pin_status server.cluster server.ipfs cid in
          (confirm_due nft_data cid pin_status s, sent))
      else (ok s, [])

  -- The CID of the image, on IPFS
  abbrev pub content_cid : NftItemData → Option String
  content_cid nft_data =
      let image = server.readers.image nft_data.content in
      if uri_ipfs image then cid_in server.readers.node image else none

  abbrev pub then_update :
      NftItemData
      → SyncState
      → Result WebError SyncState × List Request
      → Result WebError Reply × SyncState
  then_update nft_data s (err e, sent) = (err e, record s { sent = sent })
  then_update nft_data s (ok s', sent) =
      update_index (some (server.row_of nft_data)) no_content (record s' { sent = sent })

  abbrev pub contract_read :
      Result NftError NftItemData → SyncState → Result WebError Reply × SyncState
  contract_read (err contract_is_not_nft) s =
      contract_gone (answered server.readers server.account_state) s
  contract_read (err e) s = (err (nft_error e), s)
  contract_read (ok nft_data) s =
      then_update nft_data s (check_pin nft_data (content_cid nft_data) s)

  -- The body of the `async with`; the ownership is not asked for.
  unfoldable pub sync_body : SyncState → Result WebError Reply × SyncState
  sync_body s =
      contract_read
        (get_nft_data server.readers server.run_method server.item_address address false none) s

  -- `__aexit__` runs also where the body raises.
  abbrev pub exited : ℕ → Result WebError Reply × SyncState → Result WebError Reply × SyncState
  exited l (r, s) = (r, record s { locks = aexit l s.locks })

  unfoldable pub sync_nft_data : SyncState → Result WebError Reply × SyncState
  sync_nft_data s = elim (obtain false s.locks) [
    | none ↦ (err lock_should_wait, s)
    | some (l, locks) ↦ elim (acquire l locks) [
      | none ↦ (err lock_should_wait, s)
      | some held ↦ exited l (sync_body (record s { locks = held }))
    ]
  ]
