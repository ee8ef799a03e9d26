-- ===== src/Indexer/Cycle.antt =====
-- The loop of `IndexDb._nft_indexer_cycle` (NFTorrent/indexer/indexdb.py): NFTs of a collection are
-- fetched from the index in the database up to the one on the chain, in batches. It starts from the
-- row and the data of the collection.
pub mod Progress
use nft_torrent.Base.{
  ℕ, zero, suc, ◌+◌, ◌-◌, ◌<◌, ◌≡◌, Bool, true, false, not, ◌&&◌, ◌||◌, Option, none, some, List,
  [], ◌∷◌, ◌++◌, ltb, ◌==◌, if◌then◌else◌, length,
}
use nft_torrent.Base.Result.{Result, ok, err}
use nft_torrent.Indexer.Nft.{PetMemoryNft}
use nft_torrent.Indexer.Single.{uri_ipfs, cid_in}
use nft_torrent.Ipfs.Content.{Node, truthy}

-- A TonlibRequestError, and any other exception
pub data FetchError : Type 0 where
  request_error other_error : FetchError

-- What the requests for the NFT at an index come to: get_nft_item_address, get_nft_data with
-- from_nftmodel, and the get_cid_info of its image
pub record Fetched : Type 0 where
  pub node : Node
  pub address : Result FetchError (Unit {0})
  pub nft_data : Result FetchError PetMemoryNft
  pub torrent_info : Result FetchError (Unit {0})

-- The batch, the errors counted, `data.instance.index`, and whether the cycle has raised
pub record Batch : Type 0 where
  pub bulk : List PetMemoryNft
  pub errors : ℕ
  pub index : ℕ
  pub raised : Bool

abbrev pub error_counted : Batch → Batch
error_counted b = record b { errors = b.errors + 1; index = b.index + 1 }

abbrev pub aborted : Batch → Batch
aborted b = record b { raised = true }

abbrev pub appended : PetMemoryNft → Batch → Batch
appended nft b = record b { bulk = b.bulk ++ nft ∷ []; index = b.index + 1 }

-- `except TonlibRequestError`
abbrev pub error_caught : FetchError → Batch → Batch
error_caught request_error b = error_counted b
error_caught other_error b = aborted b

-- The content is only asked for where the image stands on IPFS.
abbrev pub info_of : Fetched → PetMemoryNft → Result FetchError (Unit {0})
info_of fetched nft =
    if uri_ipfs nft.image && truthy (cid_in fetched.node nft.image)
    then fetched.torrent_info
    else ok tt

abbrev pub with_torrent_info : PetMemoryNft → Result FetchError (Unit {0}) → Batch → Batch
with_torrent_info nft (err e) b = error_caught e b
with_torrent_info nft (ok info) b = appended nft b

-- An NFT that claims another index is an error too.
abbrev pub with_nft_data : Fetched → Result FetchError PetMemoryNft → Batch → Batch
with_nft_data fetched (err e) b = error_caught e b
with_nft_data fetched (ok nft) b =
    if nft.index == b.index then with_torrent_info nft (info_of fetched nft) b else error_counted b

-- One round of the loop. The address is asked for outside of the `try`.
unfoldable pub index_one : Fetched → Batch → Batch
index_one fetched b = elim fetched.address [
  | err e ↦ aborted b
  | ok address ↦ with_nft_data fetched fetched.nft_data b
]

-- `while data.instance.index < next_index and len(bulk) < self.settings.bulk_size`, on fuel.
pub index_loop : (ℕ → Fetched) → ℕ → ℕ → ℕ → Batch → Batch
index_loop fetch bulk_size next_index zero b = b
index_loop fetch bulk_size next_index (suc fuel) b =
    elim (not b.raised && (ltb b.index next_index && ltb (length b.bulk) bulk_size)) [
      | true ↦ index_loop fetch bulk_size next_index fuel (index_one (fetch b.index) b)
      | false ↦ b
    ]

-- The table of a collection: the index in its row, and the NFTs.
pub record Collection : Type 0 where
  pub index : ℕ
  pub nfts : List PetMemoryNft
  pub index_count : ℕ
  pub index_errors : ℕ

-- `sync_collection_nft_bulk_insert` writes the NFTs and the index, but only for a batch that is
-- not empty.
pub save_batch : Batch → Collection → Collection
save_batch b c = elim b.bulk [
  | [] ↦ record c { index_errors = c.index_errors + b.errors }
  | nft ∷ nfts ↦ record c {
    index = b.index;
    nfts = c.nfts ++ b.bulk;
    index_count = c.index_count + length b.bulk;
    index_errors = c.index_errors + b.errors;
  }
]

-- The icons and the insertion of a batch may raise.
abbrev pub insert_fails : (List PetMemoryNft → Bool) → List PetMemoryNft → Bool
insert_fails inserts [] = false
insert_fails inserts (nft ∷ nfts) = not (inserts (nft ∷ nfts))

-- The end of the loop, and whether the cycle has raised; the errors are counted as they occur.
pub end_loop : (List PetMemoryNft → Bool) → Batch → Collection → Bool × Collection
end_loop inserts b c = elim (b.raised || insert_fails inserts b.bulk) [
  | true ↦ (true, record c { index_errors = c.index_errors + b.errors })
  | false ↦ (false, save_batch b c)
]

-- A cycle reads the index from the database first, and does nothing if the chain is not ahead.
pub index_cycle :
    (ℕ → Fetched) → (List PetMemoryNft → Bool) → ℕ → ℕ → Collection → Bool × Collection
index_cycle fetch inserts bulk_size next_index c =
    if ltb c.index next_index
    then end_loop inserts
        (index_loop fetch bulk_size next_index (next_index - c.index)
          (record { bulk = []; errors = 0; index = c.index; raised = false }))
        c
    else (false, c)
