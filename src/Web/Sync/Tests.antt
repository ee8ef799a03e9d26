-- ===== src/Web/Sync/Tests.antt =====
-- A request for an NFT that has no pin yet, and whose storage is paid for.
use nft_torrent.Base.{◌≡◌, refl, ◌⊎◌, true, false, none, some, [], ◌∷◌}
use nft_torrent.Base.Result.{ok}
use nft_torrent.Indexer.Nft.{PetMemoryNft}
use nft_torrent.Ipfs.Content.{Node}
use nft_torrent.Tonlib.NftData.{NftItem, NftItemData}
use nft_torrent.Tonlib.NftData.Verified.{IsKnown, IsGiven}
use nft_torrent.Tonlib.Requests.Fallback.{value}
use nft_torrent.Web.Sync.{SyncState, Server, sync_nft_data}
use nft_torrent.Web.Sync.Verified.{Confirms, sync_nft_data-exits}
use Prim.Native.String.{String}

abbrev row : PetMemoryNft
row = record {
  id = 7;
  collection_id = 1;
  address = "pet 3";
  index = 3;
  updated_time = 0;
  deleted_time = none;
  last_notified = none;
  owner = "alice";
  fee_due_time = 2000000;
  uri = none;
  description = none;
  image = some "ipfs://cat";
  image_data = none;
  torrent_info = none;
  error_code = none;
  nft_updated = none;
  nft_image_updated = none;
  nft_transfered = none;
}

abbrev node : Node
node = record {
  urlparse = λ uri. ("ipfs", "cat", "", "");
  shake = λ s. s;
  guess_type = λ s. none;
  links = λ cid. ok ("cat", []);
  cat = λ cid path. ok "";
}

abbrev pet : NftItem
pet = record {
  init = true;
  index = 3;
  owner_address = "alice";
  collection_address = some "pets";
  individual_content = 9;
}

abbrev server : Server
server = record {
  now = 5;
  readers = record {
    ton_address = λ s. ok (record { raw_form = 7; b64 = s; b64url = s });
    stack = λ v. some (v ∷ 1 ∷ 2 ∷ 3 ∷ 4 ∷ []);
    item_address = λ v. "pet 3";
    parse_nft_item_data = λ stack. ok pet;
    collections_map = λ a. true;
    from_tvm = λ cell. ok 5;
    image = λ content. some "ipfs://cat";
    node = node;
  };
  run_method = ok (value 0);
  item_address = λ c i. ok (value 0);
  account_state = ok (value 1);
  uninited = λ state. false;
  storage_due_time = λ content. 2000000;
  row_of = λ d. record { in_collection = true; row = row };
  calls = record { node = node; torrent_info = λ cid. ok cid; make_icon = λ nft. none };
  found = none;
  cluster = record {
    call = λ r. ok tt;
    status = λ r.
        ok (record { allocations = 1; meta_expires = none; meta_nft = none; meta_userdata = none });
  };
  ipfs = record {
    cluster = true;
    min_redundancy = 1;
    cid_size_limit = 10;
    file_size_limit = 5;
    confirmation_timeout = 30;
    max_pin_duration = 100;
  };
}

abbrev before : SyncState
before = record {
  locks = record {
    heap = λ i. record { locked = false; ref_count = 0 };
    next_id = 0;
    lock_index = none;
  };
  tables = record { queue = []; next_id = 5; nfts = []; users = [] };
  sent = [];
  unlinked = [];
  confirming = [];
}

sync_nft_data-exits_example :
    let s' = (sync_nft_data server "pet 3" before).1 in
    (s'.locks.lock_index ≡ none)
    × ((s'.confirming ≡ [])
        ⊎ ((d : NftItemData) × Confirms server "pet 3" d s'
            × ((c : String) × (d.item.collection_address ≡ some c)
                × IsKnown server.readers c
                × IsGiven server.readers false "pet 3" (server.item_address c d.item.index))))
sync_nft_data-exits_example = sync_nft_data-exits server "pet 3" before refl refl
