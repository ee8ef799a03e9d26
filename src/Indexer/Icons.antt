-- ===== src/Indexer/Icons.antt =====
-- The icons of an NFT: collection_nft_make_icon and collection_nft_make_icons of
-- NFTorrent/indexer/indexdb.py. The download over HTTP, the conversion of images and the names of
-- exceptions are parameters.
pub mod Made
mod Tests
use nft_torrent.Base.{ℕ, Bool, true, false, Option, none, some, List, map, ◌==◌, if◌then◌else◌}
use nft_torrent.Base.Result.{Result, ok, err, ◌>>=◌}
use nft_torrent.Indexer.Single.{uri_ipfs}
use nft_torrent.Ipfs.Content.{Error, Node, Served, uri_supported, get_cid_file}
use Prim.Native.String.{String}

-- The fields of a `PetMemoryNft` that are read and written; the icons are a small and a medium one.
pub record IconRow : Type 0 where
  pub image : Option String
  pub image_data : Option String
  pub icons : Option (String × String)
  pub error_time : Option ℕ
  pub error_code : Option String

-- An exception is the first 40 characters of its name.
pub record IconCalls : Type 0 where
  pub node : Node
  pub file_size_limit : ℕ
  pub lower : String → String
  pub name_of : Error → String
  pub http_get : Option String → Result String (ℕ × String)
  pub convert_image : String → ℕ → Result String String
  pub icon_size_small : ℕ
  pub icon_size_medium : ℕ

module _ (calls : IconCalls) where
  abbrev pub of_content : Result Error (String × Served) → Result String (Option String)
  of_content (err e) = err (calls.name_of e)
  of_content (ok (bytes, served)) = ok (some bytes)

  abbrev pub of_page : Result String (ℕ × String) → Result String (Option String)
  of_page (err e) = err e
  of_page (ok (status, bytes)) = ok (if status == 200 then some bytes else none)

  -- The first `try` block
  unfoldable pub fetched : Option String → Result String (Option String)
  fetched image =
      if uri_supported calls.node calls.lower image
      then (if uri_ipfs image
          then of_content (
              get_cid_file calls.node calls.file_size_limit
                (record { uri = image; cid = none; file_path = none; digest = none }))
          else of_page (calls.http_get image))
      else ok none

  -- The second `try` block
  abbrev pub converted : String → Result String (String × String)
  converted buffer = calls.convert_image buffer calls.icon_size_small >>= λ small.
      calls.convert_image buffer calls.icon_size_medium >>= λ medium. ok (small, medium)

  abbrev pub failed : ℕ → String → IconRow → Bool × IconRow
  failed now code row = (false, record row { error_time = some now; error_code = some code })

  -- The data of the row go before what has been downloaded.
  abbrev pub buffer_of : Option String → Option String → Option String
  buffer_of none buffer = buffer
  buffer_of (some image_data) buffer = some image_data

  abbrev pub after_convert : ℕ → Result String (String × String) → IconRow → Bool × IconRow
  after_convert now (err code) row = failed now code row
  after_convert now (ok icons) row = (true, record row { icons = some icons })

  abbrev pub with_buffer : ℕ → Option String → IconRow → Bool × IconRow
  with_buffer now none row = (false, row)
  with_buffer now (some buffer) row = after_convert now (converted buffer) row

  abbrev pub after_fetch : ℕ → Result String (Option String) → IconRow → Bool × IconRow
  after_fetch now (err code) row = failed now code row
  after_fetch now (ok buffer) row = with_buffer now (buffer_of row.image_data buffer) row

  unfoldable pub collection_nft_make_icon : ℕ → IconRow → Bool × IconRow
  collection_nft_make_icon now row =
      after_fetch now (fetched row.image) (record row { error_time = none; error_code = none })

  -- As many tasks as `max_parallel_task` run at a time; each works on a row of its own.
  pub collection_nft_make_icons : ℕ → List IconRow → List IconRow
  collection_nft_make_icons now rows = map (λ row. (collection_nft_make_icon now row).1) rows
