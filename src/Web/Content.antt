-- ===== src/Web/Content.antt =====
-- What is served of an NFT: get_nft_content, get_nft_torrent_content, get_nft_cid_info and
-- get_nft_cid_pin of NFTorrent/webserver.py.
pub mod Found
pub mod Redirected
mod Tests
use nft_torrent.Base.{
  ℕ, zero, suc, ltb, Bool, true, false, not, ◌&&◌, ◌||◌, Option, none, some, List, [], ◌∷◌,
  if◌then◌else◌,
}
use nft_torrent.Base.Result.{Result, ok, err, ◌>>=◌, ◌>>◌, raise_if}
use nft_torrent.Indexer.Single.{uri_ipfs, cid_in}
use nft_torrent.Ipfs.Content.{
  Error, http, attribute_error, unicode_error, whole, part, NftContentFile, NftContentInfo, Wanted,
  Served, truthy, torrent_digest, get_file, list_types, parse_ipfs_uri, uri_supported, get_cid_info,
  first, or_404, get_cid_file,
}
use nft_torrent.Ipfs.Confirmation.{NftContent, get_nft_cid}
use nft_torrent.Ipfs.Pins.{Cluster, IpfsSettings, Request, NftContentPin, cid_pin_status}
use nft_torrent.Tonlib.NftData.{NftError, type_error, NftItemData, Readers, get_nft_data}
use nft_torrent.Tonlib.Requests.Fallback.{Answer}
use nft_torrent.Tonlib.Select
use nft_torrent.Web.Sync.{WebError, nft_error, ipfs_error}
use Prim.Native.Char.{code}
use Prim.Native.String.{String}
use text.Mathlib.Text.{◌==◌ as str_eq}

pub data ContentQuery : Type 0 where
  query_uri query_image : ContentQuery

pub record CollectionInstance : Type 0 where
  pub meta : String
  pub image : String
  pub item_cover : Bool

-- The responses: the data of a collection, a redirection to a URL or to `get_nft_torrent_content`
-- with a digest, the bytes of an image, the two links of an NFT with its attributes, a cover that
-- is made for a species, and a file
pub data Response : Type 0 where
  collection_meta : String → Response
  redirect : String → Response
  torrent_content : Option String → Response
  image_data : List ℕ → Response
  metadata : String × String → ℕ → Response
  cover : String → ℕ → Response
  streamed : String × Served → Response

-- The parts that the handlers call, with the answers of the liteservers to the methods of
-- `get_nft_data`; `str.lower`, what the content of an NFT says, and the links to the bot
pub record Site : Type 0 where
  pub readers : Readers
  pub run_method : Result Select.Error Answer
  pub item_address : String → ℕ → Result Select.Error Answer
  pub file_size_limit : ℕ
  pub lower : String → String
  pub collections_map : ℕ → Option CollectionInstance
  pub uri : ℕ → Option String
  pub image_data : ℕ → Option (List ℕ)
  pub species : ℕ → ℕ
  pub storage_due_time : ℕ → ℕ
  pub bot_app : Option (String → String × String)
  pub cluster : Cluster
  pub ipfs : IpfsSettings

abbrev pub is_uri : Option ContentQuery → Bool
is_uri none = false
is_uri (some query_uri) = true
is_uri (some query_image) = false

-- The encoding of headers, Latin-1
abbrev pub is_latin_1 : String → Bool
is_latin_1 String.[] = true
is_latin_1 (String.◌∷◌ c s) = ltb (code c) 256 && is_latin_1 s

-- `info.name` and `info.hash`
abbrev pub served_name : Served → String
served_name (whole info) = info.hash
served_name (part f) = f.name

abbrev pub served_hash : Served → String
served_hash (whole info) = info.hash
served_hash (part f) = f.hash

-- The StreamingResponse, with the name and the hash in its headers
abbrev pub streaming_response : String × Served → Result WebError Response
streaming_response (bytes, served) =
    if is_latin_1 (served_name served) && is_latin_1 (served_hash served)
    then ok (streamed (bytes, served))
    else err (ipfs_error unicode_error)

abbrev pub has_bytes : Option (List ℕ) → Bool
has_bytes none = false
has_bytes (some []) = false
has_bytes (some (byte ∷ bytes)) = true

-- SPECIES_LOGO
abbrev pub species_logo : List String
species_logo =
    "Other" ∷ "Dog" ∷ "Cat" ∷ "Hamster" ∷ "Rabbit" ∷ "Parrot" ∷ "Fish" ∷ "Turtle" ∷ "Reptile"
    ∷ "Horse" ∷ "Hedgehog" ∷ "Mouse" ∷ "Ferret" ∷ []

-- The entry of the list, and the first one beyond its end
abbrev pub logo_in : List String → ℕ → String
logo_in [] i = "Other"
logo_in (logo ∷ logos) zero = logo
logo_in (logo ∷ logos) (suc i) = logo_in logos i

-- What `get_cid_info` is asked for; `None` is printed.
abbrev pub cid_text : Option String → String
cid_text none = "None"
cid_text (some cid) = cid

module _ (site : Site) where
  abbrev pub get_collection : Option String → Result WebError (Option CollectionInstance)
  get_collection none = err (nft_error type_error)
  get_collection (some address) = elim (site.readers.ton_address address) [
    | err e ↦ err (nft_error e)
    | ok a ↦ ok (site.collections_map a.raw_form)
  ]

  unfoldable pub nft_data_of : String → Result WebError NftItemData
  nft_data_of address =
      elim (get_nft_data site.readers site.run_method site.item_address address false none) [
        | err e ↦ err (nft_error e)
        | ok nft_data ↦ ok nft_data
      ]

  abbrev pub of_ipfs {ℓ} : {A : Type ℓ} → Result Error A → Result WebError A
  of_ipfs (err e) = err (ipfs_error e)
  of_ipfs (ok a) = ok a

  -- The file that the URI names, if it names one
  abbrev pub asked_file :
      Bool → Option String → Option String → NftContentInfo → Option NftContentFile
  asked_file false file_path digest info = none
  asked_file true file_path digest info = get_file file_path digest info

  abbrev pub or_first : Option NftContentFile → List NftContentFile → Result Error NftContentFile
  or_first none images = first images
  or_first (some file_info) images = ok file_info

  -- The file that the URI names, or else the first image
  abbrev pub named_file :
      Option String → Option String → NftContentInfo → Result Error NftContentFile
  named_file file_path digest info =
      or_first (asked_file (truthy file_path || truthy digest) file_path digest info)
        (list_types site.readers.node "image/" info)

  abbrev pub digest_in :
      List NftContentFile
      → Option String
      → Option String
      → NftContentInfo
      → Result Error (Option String)
  digest_in [] file_path digest info = ok info.digest
  digest_in (f ∷ fs) file_path digest info =
      named_file file_path digest info >>= λ file_info. ok file_info.digest

  unfoldable pub redirect_digest :
      Option String → Option String → NftContentInfo → Result Error (Option String)
  redirect_digest file_path digest info = digest_in info.files file_path digest info

  unfoldable pub ipfs_redirect : Option String → Result Error Response
  ipfs_redirect u =
      let (cid, file_path, digest) = parse_ipfs_uri site.readers.node (cid_text u) in
      get_cid_info site.readers.node (cid_text cid) >>= λ info.
      redirect_digest file_path digest info >>= λ found. ok (torrent_content found)

  abbrev pub linked : String → ℕ → Result WebError Response
  linked address content = elim site.bot_app [
    | none ↦ err (ipfs_error attribute_error)
    | some links ↦ ok (metadata (links address) content)
  ]

  abbrev pub covered : ℕ → Option CollectionInstance → Result WebError Response
  covered content none = err (ipfs_error attribute_error)
  covered content (some collection) =
      if collection.item_cover
      then ok (cover (logo_in species_logo (site.species content)) content)
      else err (ipfs_error (http 404))

  -- Without a URI that is supported
  abbrev pub without_uri : String → Bool → NftItemData → Result WebError Response
  without_uri address query nft_data =
      if has_bytes (site.image_data nft_data.content) && not query
      then ok (image_data (elim (site.image_data nft_data.content) [ none ↦ [] | some b ↦ b ]))
      else (if query
          then linked address nft_data.content
          else (get_collection nft_data.item.collection_address >>= covered nft_data.content))

  unfoldable pub content_response : String → Bool → NftItemData → Result WebError Response
  content_response address query nft_data =
      let u = if query then site.uri nft_data.content else site.readers.image nft_data.content in
      if uri_supported site.readers.node site.lower u
      then (if uri_ipfs u then of_ipfs (ipfs_redirect u) else ok (redirect (cid_text u)))
      else without_uri address query nft_data

  unfoldable pub get_nft_content : String → Option ContentQuery → Result WebError Response
  get_nft_content address query = get_collection (some address) >>= λ found. elim found [
    | some collection ↦
        if is_uri query
        then ok (collection_meta collection.meta)
        else ok (redirect collection.image)
    | none ↦ nft_data_of address >>= λ nft_data. content_response address (is_uri query) nft_data
  ]

  unfoldable pub torrent_of :
      Option String → Option String → Option String → Result WebError Response
  torrent_of image file_path digest =
      if uri_ipfs image
      then (of_ipfs (
            get_cid_file site.readers.node site.file_size_limit (record {
              uri = none;
              cid = cid_in site.readers.node image;
              file_path = file_path;
              digest = digest;
            }))
          >>= streaming_response)
      else err (ipfs_error (http 404))

  unfoldable pub get_nft_torrent_content :
      String → Option String → Option String → Result WebError Response
  get_nft_torrent_content address file_path digest = nft_data_of address >>= λ nft_data.
      torrent_of (site.readers.image nft_data.content) file_path digest

  -- `get_nft_cid` with `raise_error=True`
  unfoldable pub nft_cid : String → Result WebError String
  nft_cid address = nft_data_of address >>= λ nft_data.
      let content : NftContent = record {
        image = site.readers.image nft_data.content;
        storage_due_time = some (site.storage_due_time nft_data.content);
      } in
      of_ipfs (get_nft_cid site.readers.node true (ok (some content))) >>= λ (cid, shown).
      ok (cid_text cid)

  -- `if digest and digest != torrent_digest(cid): raise HTTPException(404)`
  abbrev pub check_digest : String → Option String → Result WebError (Unit {0})
  check_digest cid none = ok tt
  check_digest cid (some digest) =
      raise_if
        (truthy (some digest) && not (str_eq digest (torrent_digest site.readers.node cid none)))
        (ipfs_error (http 404))

  -- The content, and whether the response may be kept; what the node answers is ready.
  unfoldable pub get_nft_cid_info : String → Option String → Result WebError (NftContentInfo × Bool)
  get_nft_cid_info address digest = nft_cid address >>= λ cid. check_digest cid digest >>= λ _.
      of_ipfs (get_cid_info site.readers.node cid) >>= λ info. ok (info, truthy digest)

  unfoldable pub get_nft_cid_pin : String → Option String → Result WebError NftContentPin
  get_nft_cid_pin address digest = nft_cid address >>= λ cid. check_digest cid digest >>= λ _.
      of_ipfs (cid_pin_status site.cluster site.ipfs cid).0 >>= λ pin_status.
      of_ipfs (or_404 pin_status)
