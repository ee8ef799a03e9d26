-- ===== src/Ipfs/Upload.antt =====
-- New content for NFTs: cid_add_local, new_nft_create_content and create_content of
-- NFTorrent/ipfs/manager.py.
pub mod Limits
use nft_torrent.Base.{
  ℕ, ◌+◌, ◌≡◌, Bool, true, false, not, Option, none, some, List, [], ◌∷◌, ◌++◌, arith, ltb,
  if◌then◌else◌, map, sum, count, ◌==◌,
}
use nft_torrent.Base.Result.{Result, ok, err, ◌>>=◌, ◌>>◌, raise_if}
use nft_torrent.Ipfs.Content.{
  Error, size_limit, storage_error, should_wait, attribute_error, type_error, NftContentFile,
  NftContentInfo, Node, equals, link_file, make_digest,
}
use nft_torrent.Ipfs.Pins.{IpfsSettings, Request, Cluster, cid_pin}
use nft_torrent.Ipfs.Confirmation.{NftContent, get_nft_cid}
use nft_torrent.Locks.{Locks, obtain}
use Prim.Native.String.{String}
use text.Mathlib.Text.{◌==◌ as str_eq}

-- The lines that the node answers to `add`, with a name, a size and a hash each: the content is the
-- last without a name, and the others are its files.
unfoldable pub read_lines :
    List (String × ℕ × String)
    → Option NftContentInfo
    → List NftContentFile
    → Option NftContentInfo × List NftContentFile
read_lines [] content files = (content, files)
read_lines ((name, size, hash) ∷ lines) content files =
    if str_eq name ""
    then read_lines lines (some (record { hash = hash; size = size; digest = none; files = [] }))
        files
    else read_lines lines content (files ++ link_file (name, size, hash) ∷ [])

unfoldable pub cid_add_local :
    Node → Result Error (List (String × ℕ × String)) → Result Error (Option NftContentInfo)
cid_add_local node response = response >>= λ lines.
    let (content, files) = read_lines lines none [] in
    elim content [
      | none ↦ ok none
      | some c ↦ ok (some (make_digest node (record c { files = files })))
    ]

-- The checks of the total size and of the size of each file
unfoldable pub check_sizes : IpfsSettings → List ℕ → Result Error (Unit {0})
check_sizes settings sizes =
    raise_if (ltb settings.cid_size_limit (sum sizes)) size_limit
    >> raise_if (ltb 0 (count (ltb settings.file_size_limit) sizes)) size_limit

-- `async with OperationLock(..., wait=False)` around a call
abbrev pub with_lock {ℓ} : {A : Type ℓ} → Locks → Result Error A → Result Error A
with_lock locks r = elim (obtain false locks) [ none ↦ err should_wait | some l ↦ r ]

unfoldable pub new_nft_create_content :
    Node
    → IpfsSettings
    → Locks
    → List ℕ
    → Result Error (List (String × ℕ × String))
    → Result Error (Option NftContentInfo)
new_nft_create_content node settings locks sizes response =
    check_sizes settings sizes >> with_lock locks (cid_add_local node response)

-- The check that the cluster has peers enough; the cached state may be `None`.
unfoldable pub check_peers : IpfsSettings → Option ℕ → Result Error (Unit {0})
check_peers settings none = err type_error
check_peers settings (some peers) = raise_if (ltb peers settings.min_redundancy) storage_error

-- What `create_content` returns or raises, the confirmation it leaves behind, with the old CID and
-- the new one, and the requests it has sent
pub record Created : Type 0 where
  pub result : Result Error NftContentInfo
  pub confirmation : Option (Option String × String)
  pub sent : List Request

abbrev pub failed : Error → Created
failed e = record { result = err e; confirmation = none; sent = [] }

-- The new content is left to be confirmed, or is the current one and is pinned again.
unfoldable pub publish :
    Cluster
    → ℕ
    → IpfsSettings
    → String
    → Option String
    → Option String
    → Option NftContent
    → NftContentInfo
    → Created
publish world now settings address userdata cid nft_content content =
    if not (equals cid (some content.hash))
    then record { result = ok content; confirmation = some (cid, content.hash); sent = [] }
    else elim nft_content [
      | none ↦ failed attribute_error
      | some k ↦
          (let (r, sent) = cid_pin world now settings (record {
            cid = content.hash;
            name = some address;
            expire_at = k.storage_due_time;
            address = none;
            userdata = userdata;
          }) in
            record { result = r >> ok content; confirmation = none; sent = sent })
    ]

-- The checks, and the content that the node adds
unfoldable pub added_content :
    Node
    → IpfsSettings
    → Option ℕ
    → Locks
    → List ℕ
    → Result Error (List (String × ℕ × String))
    → Result Error NftContentInfo
added_content node settings peers locks sizes response =
    check_sizes settings sizes
    >> check_peers settings peers
    >> (with_lock locks (cid_add_local node response) >>= λ content. elim content [
      | none ↦ err attribute_error
      | some c ↦ ok c
    ])

unfoldable pub create_content :
    Node
    → Cluster
    → ℕ
    → IpfsSettings
    → Option ℕ
    → Locks
    → String
    → Option String
    → Result Error (Option NftContent)
    → List ℕ
    → Result Error (List (String × ℕ × String))
    → Created
create_content node world now settings peers locks address userdata nft_data sizes response =
    elim (get_nft_cid node false nft_data) [
      | err e ↦ failed e
      | ok (cid, nft_content) ↦ elim (added_content node settings peers locks sizes response) [
        | err e ↦ failed e
        | ok content ↦ publish world now settings address userdata cid nft_content content
      ]
    ]
