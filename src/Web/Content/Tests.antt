-- ===== src/Web/Content/Tests.antt =====
-- An NFT whose image stands in one content and whose URI in another one.
use nft_torrent.Base.{◌≡◌, refl, true, none, some, [], ◌∷◌, if◌then◌else◌}
use nft_torrent.Base.Result.{ok, err}
use nft_torrent.Ipfs.Content.{
  http, Node, torrent_digest, parse_ipfs_uri, get_cid_info, get_file, find_file, list_types,
  resolve, choose, get_cid_file,
}
use nft_torrent.Tonlib.NftData.{NftItem, get_nft_data}
use nft_torrent.Tonlib.Requests.Fallback.{value}
use nft_torrent.Web.Content.{
  query_uri, query_image, torrent_content, Site, nft_data_of, redirect_digest, ipfs_redirect,
  content_response, get_nft_content, torrent_of, get_nft_torrent_content,
}
use nft_torrent.Web.Content.Found.{IsFound}
use nft_torrent.Web.Content.Redirected.{get_nft_content-IsFound}
use nft_torrent.Web.Sync.{ipfs_error}
use text.Mathlib.Text.{◌==◌ as str_eq}

abbrev two_contents : Node
two_contents = record {
  urlparse = λ uri. ("ipfs", if str_eq uri "ipfs://cat" then "cat" else "dog", "", "");
  shake = λ s. s;
  guess_type = λ s. some "image/jpeg";
  links = λ cid. ok (cid, ("a.jpg", 10, "hash") ∷ []);
  cat = λ cid path. ok "bytes";
}

abbrev cat_item : NftItem
cat_item = record {
  init = true;
  index = 3;
  owner_address = "alice";
  collection_address = some "pets";
  individual_content = 9;
}

abbrev site : Site
site = record {
  readers = record {
    ton_address = λ s. ok (record { raw_form = 7; b64 = s; b64url = s });
    stack = λ v. some (v ∷ 1 ∷ 2 ∷ 3 ∷ 4 ∷ []);
    item_address = λ v. "pet 3";
    parse_nft_item_data = λ stack. ok cat_item;
    collections_map = λ a. true;
    from_tvm = λ cell. ok 5;
    image = λ content. some "ipfs://cat";
    node = two_contents;
  };
  run_method = ok (value 0);
  item_address = λ c i. ok (value 0);
  file_size_limit = 100;
  lower = λ s. s;
  collections_map = λ a. none;
  uri = λ content. some "ipfs://dog";
  image_data = λ content. none;
  species = λ content. 2;
  storage_due_time = λ content. 0;
  bot_app = none;
  cluster = record {
    call = λ r. ok tt;
    status = λ r.
        ok (record { allocations = 1; meta_expires = none; meta_nft = none; meta_userdata = none });
  };
  ipfs = record {
    cluster = true;
    min_redundancy = 3;
    cid_size_limit = 10;
    file_size_limit = 100;
    confirmation_timeout = 60;
    max_pin_duration = 1000;
  };
}

image_shown :
    get_nft_content site "pet 3" (some query_image) ≡ ok (torrent_content (some "cata.jpg"))
unfolding get_nft_content nft_data_of content_response ipfs_redirect redirect_digest get_nft_data
    parse_ipfs_uri get_cid_info torrent_digest list_types get_file find_file
image_shown = refl

-- The URI leads to a file that is looked for in the content of the image.
uri_lost :
    (get_nft_content site "pet 3" (some query_uri) ≡ ok (torrent_content (some "doga.jpg")))
    × (get_nft_torrent_content site "pet 3" none (some "doga.jpg") ≡ err (ipfs_error (http 404)))
unfolding get_nft_content nft_data_of content_response ipfs_redirect redirect_digest get_nft_data
    parse_ipfs_uri get_cid_info torrent_digest list_types get_file find_file get_nft_torrent_content
    torrent_of get_cid_file resolve choose
uri_lost = (refl, refl)

get_nft_content-IsFound_example :
    IsFound two_contents
      (some "cata.jpg")
      (get_nft_torrent_content site "pet 3" none (some "cata.jpg"))
get_nft_content-IsFound_example =
    get_nft_content-IsFound site "pet 3" (some query_image) (some "cata.jpg") (λ uri e. refl) refl
      image_shown
