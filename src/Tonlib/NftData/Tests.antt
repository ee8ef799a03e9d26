-- ===== src/Tonlib/NftData/Tests.antt =====
-- An NFT whose owner is asked for, with an image on IPFS.
use Prim.Native.String.{String}
use nft_torrent.Base.{◌≡◌, refl, true, false, none, some, [], ◌∷◌}
use nft_torrent.Base.Result.{ok}
use nft_torrent.Ipfs.Content.{torrent_digest, parse_ipfs_uri}
use nft_torrent.Tonlib.NftData.{TonAddress, NftItem, NftItemData, Readers, get_nft_data}
use nft_torrent.Tonlib.NftData.Verified.{IsOwnedBy, IsKnown, IsGiven, get_nft_data_verified}
use nft_torrent.Tonlib.Requests.Fallback.{value}

abbrev pet : NftItem
pet = record {
  init = true;
  index = 3;
  owner_address = "alice";
  collection_address = some "pets";
  individual_content = 9;
}

abbrev library : Readers
library = record {
  ton_address = λ s. ok (record { raw_form = 7; b64 = s; b64url = s });
  stack = λ v. some (v ∷ 1 ∷ 2 ∷ 3 ∷ 4 ∷ []);
  item_address = λ v. "pet 3";
  parse_nft_item_data = λ stack. ok pet;
  collections_map = λ a. true;
  from_tvm = λ cell. ok 5;
  image = λ content. some "ipfs://cat";
  node = record {
    urlparse = λ uri. ("ipfs", "cat", "", "");
    shake = λ s. s;
    guess_type = λ s. none;
    links = λ cid. ok ("", []);
    cat = λ cid path. ok "";
  };
}

abbrev read : NftItemData
read = record { item = pet; content = 5; address = "pet 3"; digest = some "cat" }

get_nft_data_verified_example :
    IsOwnedBy library (some "alice") pet
    × ((c : String) × (some "pets" ≡ some c)
        × IsKnown library c
        × IsGiven library false "pet 3" (ok (value 0)))
    × ((addr : TonAddress) × (library.ton_address "pet 3" ≡ ok addr) × (read.address ≡ addr.b64url))
unfolding get_nft_data torrent_digest parse_ipfs_uri
get_nft_data_verified_example =
    get_nft_data_verified library (ok (value 0)) (λ c i. ok (value 0)) "pet 3" false (some "alice")
      read refl
