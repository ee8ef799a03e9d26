-- ===== src/Indexer/Tests.antt =====
-- A small table for the random feed, an NFT that changes hands, and a collection that grows.
use nft_torrent.Base.{
  ℕ, ◌+◌, ◌*◌, ◌^◌, ◌≤◌, ◌≡◌, ◌↔◌, ◌⊎◌, refl, true, false, none, some, [], All, ◌∷◌, arith, length,
}
use nft_torrent.Indexer.Feed.{
  Rows, gather, first_segment, segment_size, random_feed, read_segment, climb,
}
use nft_torrent.Indexer.Feed.Climb.{gather-first_segment_loops}
use nft_torrent.Indexer.Feed.Sample.{times, random_feed_once}
use nft_torrent.Indexer.Nft.{PetMemoryNft, notify_due_date, notify_mint}
use nft_torrent.Indexer.Update.{nft_update}
use nft_torrent.Indexer.Update.Changes.{SameAttributes, IsSame, nft_update-SameAttributes}
use nft_torrent.Indexer.Tasks.{
  QueuedTask, Tables, ids_of, due_rows, sync_nft_task_get, deleted, Updating, task_round, get_nft,
  run_tasks, update_all, update_one, has_image_flags, put_nft,
}
use nft_torrent.Indexer.Tasks.Rounds.{IsClaimed, task_round-IsClaimed}
use nft_torrent.Base.Result.{ok}
use nft_torrent.Indexer.Single.{Calls, NftData, nft_update_nft_data}
use nft_torrent.Indexer.Single.Lost.{nft_update_nft_data_new}
use nft_torrent.Indexer.Cycle.{Fetched, Collection, index_cycle}
use nft_torrent.Indexer.Cycle.Progress.{Kept, Indexed, cycle_batch, index_cycle-Indexed}

-- A table in which no row matches, up to the given id.
abbrev no_rows : ℕ → Rows
no_rows last = record {
  last_id = last;
  fetch = λ lo hi n. [];
  fetch_within = λ lo hi n. tt;
  fetch_limit = λ lo hi n. omega arith;
  fetch_once = λ lo hi n r. omega arith;
}

sizes : segment_size 5 ≡ 16
unfolding segment_size
sizes = refl

-- Segment 3 of a table with 60 rows.
gather-first_segment_loops_example :
    gather (no_rows 60) 16 1000 (first_segment 16 (2 ^ 0 * (2 * 0 + 3))) ≡ none
gather-first_segment_loops_example =
    gather-first_segment_loops (no_rows 60) (λ lo hi n. refl) 16 (omega arith) 1000 0 0

random_feed_once_example : ((r : ℕ) → times r [] ≤ 1) × (length {A = ℕ} [] ≤ 5)
unfolding random_feed gather segment_size read_segment climb
random_feed_once_example = random_feed_once (no_rows 40) (λ xs. xs) 50 5 1 [] (λ r ys. refl) refl

abbrev nft : PetMemoryNft
nft = record {
  id = 7;
  collection_id = 1;
  address = "EQA";
  index = 3;
  updated_time = 0;
  deleted_time = none;
  last_notified = none;
  owner = "EQB";
  fee_due_time = 2000000;
  uri = none;
  description = none;
  image = some "ipfs://bafy/1.png";
  image_data = none;
  torrent_info = none;
  error_code = none;
  nft_updated = none;
  nft_image_updated = none;
  nft_transfered = none;
}

abbrev sold : PetMemoryNft
sold = record nft { owner = "EQC" }

nft_update-SameAttributes_example :
    let nft' = (nft_update 5 nft sold []).0 in
    SameAttributes nft' sold
    × (nft'.deleted_time ≡ none)
    × ((nft'.nft_updated ≡ some false) ↔ IsSame nft sold)
    × ((nft'.nft_transfered ≡ some false) ↔ (nft.owner ≡ sold.owner))
    × ((nft'.nft_image_updated ≡ some false)
        ↔ ((nft.image ≡ sold.image) × (nft.image_data ≡ sold.image_data)))
nft_update-SameAttributes_example = nft_update-SameAttributes 5 nft sold []

abbrev collection : Collection
collection = record { index = 3; nfts = []; index_count = 0; index_errors = 0 }

-- The same NFT at every index, so that only one of them is stored
abbrev fetched : Fetched
fetched = record {
  node = record {
    urlparse = λ uri. ("ipfs", "bafy", "/1.png", "");
    shake = λ s. s;
    guess_type = λ s. none;
    links = λ cid. ok (cid, []);
    cat = λ cid path. ok "";
  };
  address = ok tt;
  nft_data = ok nft;
  torrent_info = ok tt;
}

index_cycle-Indexed_example :
    let (raised, c') = index_cycle (λ i. fetched) (λ nfts. true) 10 5 collection in
    let new = (cycle_batch (λ i. fetched) 10 5 3).bulk in
    Kept raised collection c' new ⊎ ((raised ≡ false) × Indexed 10 5 collection c' new)
index_cycle-Indexed_example =
    index_cycle-Indexed (λ i. fetched) (λ nfts. true) 10 5 collection (omega arith)

-- A reminder that is due, of an NFT whose storage ends in 5 seconds
abbrev reminder : QueuedTask
reminder = record {
  id = 4;
  task_type = notify_due_date;
  task_time = some 1;
  procst_time = none;
  pet_memory_nft_id = 7;
}

abbrev due_nft : PetMemoryNft
due_nft = record nft { fee_due_time = 5 }

abbrev tables : Tables
tables = record { queue = reminder ∷ []; next_id = 5; nfts = due_nft ∷ []; users = "EQB" ∷ [] }

task_round-IsClaimed_example :
    All
      (IsClaimed (ids_of (due_rows 9 2 tables)) 8)
      (task_round 9 2 (λ i. deleted) (λ o. false) tables).0.queue
task_round-IsClaimed_example =
    task_round-IsClaimed 9 2 8 (λ i. deleted) (λ o. false) tables (omega arith, tt)

abbrev minted_tables : Tables
minted_tables = record tables { queue = record reminder { task_type = notify_mint } ∷ [] }

-- An NFT whose contract is gone, and that is fresh from the database, makes the round raise.
gone_raises : (task_round 9 2 (λ i. deleted) (λ o. false) tables).1 ≡ true
unfolding task_round sync_nft_task_get run_tasks update_all update_one has_image_flags get_nft
    put_nft
gone_raises = refl

abbrev updating : Updating
updating = record { nfts = due_nft ∷ []; nft_updates = []; nft_notifs = []; errors = [] }

abbrev calls : Calls
calls = record {
  node = record {
    urlparse = λ u. ("ipfs", u, "", "");
    shake = λ s. s;
    guess_type = λ s. none;
    links = λ c. ok (c, []);
    cat = λ c f. ok "text";
  };
  torrent_info = λ c. ok c;
  make_icon = λ n. none;
}

abbrev minted_data : NftData
minted_data = record { in_collection = true; row = nft }

nft_update_nft_data_new_example :
    ((nft_update_nft_data 3 calls none (some minted_data) tables).tables ≡ tables)
    × ((nft_update_nft_data 3 calls none (some minted_data) tables).raised ≡ none)
nft_update_nft_data_new_example = nft_update_nft_data_new 3 calls minted_data tables refl refl refl
