-- ===== src/Indexer/Icons/Tests.antt =====
-- An image on IPFS that is not found, and one of the row's own.
use nft_torrent.Base.{◌≡◌, refl, false, Option, none, some}
use nft_torrent.Base.Result.{ok, err}
use nft_torrent.Indexer.Icons.{IconRow, IconCalls, collection_nft_make_icon, fetched}
use nft_torrent.Ipfs.Content.{http, get_cid_file, resolve, parse_ipfs_uri, get_cid_info}
use Prim.Native.String.{String}

abbrev calls : IconCalls
calls = record {
  node = record {
    urlparse = λ uri. ("ipfs", "cat", "", "");
    shake = λ s. s;
    guess_type = λ s. some "image/png";
    links = λ cid. err (http 404);
    cat = λ cid path. ok "bytes";
  };
  file_size_limit = 100;
  lower = λ s. s;
  name_of = λ e. "HTTPException";
  http_get = λ uri. ok (200, "page");
  convert_image = λ buffer size. ok buffer;
  icon_size_small = 64;
  icon_size_medium = 128;
}

abbrev row : Option String → IconRow
row image = record {
  image = image;
  image_data = some "own";
  icons = none;
  error_time = none;
  error_code = some "old";
}

-- A download that fails keeps the row's own data from being used.
download_fails : collection_nft_make_icon calls 5 (row (some "ipfs://cat")) ≡ (
  false,
  record (row (some "ipfs://cat")) { error_time = some 5; error_code = some "HTTPException" },
)
unfolding collection_nft_make_icon fetched get_cid_file resolve parse_ipfs_uri get_cid_info
download_fails = refl
