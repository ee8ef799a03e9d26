-- ===== src/Indexer/Icons/Made.antt =====
-- What collection_nft_make_icon (NFTorrent/indexer/indexdb.py) leaves in a row.
use nft_torrent.Base.{◌==◌, ℕ, ◌≡◌, Bool, true, false, Option, none, some, ◌⊎◌}
use nft_torrent.Base.Result.{Result, ok, err}
use nft_torrent.Indexer.Icons.{IconRow, IconCalls}
use nft_torrent.Indexer.Single.{uri_ipfs}
use nft_torrent.Ipfs.Content.{Error, Served, uri_supported, get_cid_file}
use Prim.Native.String.{String}

-- The download of an image
module _ (calls : IconCalls) (image : Option String) where
  abbrev pub asked_content : Result Error (String × Served)
  asked_content =
      get_cid_file calls.node calls.file_size_limit
        (record { uri = image; cid = none; file_path = none; digest = none })

  -- Where an image is asked for: at IPFS, at a web server, or nowhere
  abbrev pub IsOnIpfs : Type 0
  IsOnIpfs = (uri_supported calls.node calls.lower image ≡ true) × (uri_ipfs image ≡ true)

  abbrev pub IsOnWeb : Type 0
  IsOnWeb = (uri_supported calls.node calls.lower image ≡ true) × (uri_ipfs image ≡ false)

  abbrev pub IsDownloaded : String → Type 0
  IsDownloaded buffer =
      (IsOnIpfs × ((served : Served) × (asked_content ≡ ok (buffer, served))))
      ⊎ (IsOnWeb × (calls.http_get image ≡ ok (200, buffer)))

  -- No URI that is supported, or another status than 200
  abbrev pub IsMissing : Type 0
  IsMissing =
      (uri_supported calls.node calls.lower image ≡ false)
      ⊎ (IsOnWeb
          × ((status : ℕ) × (page : String) × (calls.http_get image ≡ ok (status, page))
              × ((status == 200) ≡ false)))

  abbrev pub IsLost : String → Type 0
  IsLost code =
      (IsOnIpfs × ((e : Error) × (asked_content ≡ err e) × (calls.name_of e ≡ code)))
      ⊎ (IsOnWeb × (calls.http_get image ≡ err code))

  abbrev Fetches : Result String (Option String) → Type 0
  Fetches (ok (some buffer)) = IsDownloaded buffer
  Fetches (ok none) = IsMissing
  Fetches (err code) = IsLost code

-- The two icons of an image
module _ (calls : IconCalls) (buffer : String) where
  abbrev pub IsConverted : String × String → Type 0
  IsConverted (small, medium) =
      (calls.convert_image buffer calls.icon_size_small ≡ ok small)
      × (calls.convert_image buffer calls.icon_size_medium ≡ ok medium)

  abbrev pub IsRefused : String → Type 0
  IsRefused code =
      (calls.convert_image buffer calls.icon_size_small ≡ err code)
      ⊎ ((small : String) × (calls.convert_image buffer calls.icon_size_small ≡ ok small)
          × (calls.convert_image buffer calls.icon_size_medium ≡ err code))

  abbrev Converts : Result String (String × String) → Type 0
  Converts (ok icons) = IsConverted icons
  Converts (err code) = IsRefused code

module _ (calls : IconCalls) (now : ℕ) (row : IconRow) where
  -- The image of a row: its own data, or else what has been downloaded
  abbrev pub IsSource : String → Type 0
  IsSource buffer =
      (row.image_data ≡ some buffer)
      ⊎ ((row.image_data ≡ none) × IsDownloaded calls row.image buffer)

  abbrev pub IsRaised : String → Type 0
  IsRaised code =
      IsLost calls row.image code
      ⊎ ((buffer : String) × IsSource buffer × IsRefused calls buffer code)

  abbrev pub IsIconed : Bool × IconRow → Type 0
  IsIconed (true, row') =
      (row'.error_code ≡ none)
      × ((buffer : String) × IsSource buffer
          × ((small : String) × (medium : String) × IsConverted calls buffer (small, medium)
              × (row'.icons ≡ some (small, medium))))
  IsIconed (false, row') =
      (row'.icons ≡ row.icons)
      × (((row'.error_code ≡ none) × (row.image_data ≡ none) × IsMissing calls row.image)
          ⊎ ((code : String) × (row'.error_code ≡ some code)
              × (row'.error_time ≡ some now)
              × IsRaised code))

  abbrev cleared : IconRow
  cleared = record row { error_time = none; error_code = none }
