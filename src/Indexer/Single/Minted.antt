-- ===== src/Indexer/Single/Minted.antt =====
-- The tasks that a batch of new NFTs brings: sync_collection_nft_bulk_insert of
-- NFTorrent/indexer/indexdb.py.
use nft_torrent.Base.{
  ℕ, ◌+◌, ◌*◌, ◌≡◌, refl, not, List, [], ◌∷◌, arith, ltb, length, length-append, count, inl, inr,
  Bool-cases,
}
use nft_torrent.Indexer.Nft.{PetMemoryNft, NftTaskQueue}
use nft_torrent.Indexer.Update.{due_time}
use nft_torrent.Indexer.Tasks.{Tables, enqueue}
use nft_torrent.Indexer.Single.{mint_tasks, all_mint_tasks, bulk_insert}

length-enqueue : (id : ℕ) (ts : List NftTaskQueue) → length (enqueue id ts) ≡ length ts
length-enqueue id [] = refl
length-enqueue id (t ∷ ts) = omega (arith, length-enqueue (id + 1) ts)

length-all_mint_tasks :
    (now : ℕ) (bulk : List PetMemoryNft)
    → length (all_mint_tasks now bulk) ≡ 2 * count (λ nft. not (ltb (due_time nft) now)) bulk
length-all_mint_tasks now [] = refl
length-all_mint_tasks now (nft ∷ bulk) =
    let both = length-append (mint_tasks now nft) (all_mint_tasks now bulk) in
    let rest = length-all_mint_tasks now bulk in
    elim (Bool-cases (ltb (due_time nft) now)) [
      | inl late ↦ rw late (omega (arith, rest))
      | inr ahead ↦ rw ahead (ground arith)
    ]

-- A batch of new NFTs brings two tasks for each of them whose fee is not overdue, and no other
-- task: the queue grows by as many as the code returns, and the rows are all stored.
pub bulk_insert-length :
    (now : ℕ) (bulk : List PetMemoryNft) (db : Tables)
    → let (n, db') = bulk_insert now bulk db in
      (n ≡ 2 * count (λ nft. not (ltb (due_time nft) now)) bulk)
      × (length db'.queue ≡ length db.queue + n)
      × (length db'.nfts ≡ length db.nfts + length bulk)
unfolding bulk_insert
bulk_insert-length now bulk db =
    let ts = all_mint_tasks now bulk in
    let e = length-enqueue db.next_id ts in
    (
      length-all_mint_tasks now bulk,
      omega (arith, length-append db.queue (enqueue db.next_id ts), e),
      length-append db.nfts bulk,
    )
