-- ===== src/Ipfs/Content/Serve.antt =====
-- Which files are served, and what the limit on their size is worth.
use nft_torrent.Base.{
  ℕ, ◌≡◌, ◌↔◌, true, Option, none, some, List, [], ◌∷◌, ◌++◌, arith, count, keep,
}
use nft_torrent.Base.Result.{ok, err, ◌>>=◌}
use nft_torrent.Ipfs.Content.{
  index_error, NftContentFile, NftContentInfo, Node, truthy, is_file, has_type, list_types,
  get_cid_info, resolve, get_cid_file_info, Served, whole, part, choose, get_cid_file, first,
}
use Prim.Native.String.{String}

-- The file is one of the list.
abbrev pub IsIn : NftContentFile → List NftContentFile → Type 0
IsIn f fs = (xs : List NftContentFile) × ((ys : List NftContentFile) × (fs ≡ xs ++ f ∷ ys))

-- What a request for a path and a digest may be served of a content
abbrev pub IsServed : Option String → Option String → NftContentInfo → Served → Type 0
IsServed path digest info (whole i) = (i ≡ info) × (info.files ≡ [])
IsServed path digest info (part f) = IsIn f info.files × (is_file path digest f ≡ true)

-- A CID that is a single file is served whatever its size is: its links are none, so its size
-- counts as 0 and passes every limit.
pub get_cid_file_unlimited :
    (node : Node) (limit : ℕ) (c hash : String) (path : Option String)
    → truthy (some c) ≡ true
    → node.links c ≡ ok (hash, [])
    → (get_cid_info node c >>= λ info. node.cat c none >>= λ text. ok (text, whole info))
      ≡ get_cid_file node limit
          (record { uri = none; cid = some c; file_path = path; digest = none })
unfolding get_cid_file resolve get_cid_info choose
get_cid_file_unlimited node limit c hash path t e = rw (t, e) (ground arith)

keep-none :
    (node : Node) (fs : List NftContentFile)
    → (first (keep (has_type node "image/") fs) ≡ err index_error)
      ↔ (count (has_type node "image/") fs ≡ 0)
keep-none node [] = ground arith
keep-none node (f ∷ fs) = ground (arith, keep-none node fs)

-- A request for a CID without a path and a digest ends in an IndexError exactly when no file of the
-- content is an image.
pub get_cid_file_info-index_error_iff :
    (node : Node) (c : String) (info : NftContentInfo)
    → truthy (some c) ≡ true
    → get_cid_info node c ≡ ok info
    → (get_cid_file_info node (record { uri = none; cid = some c; file_path = none; digest = none })
        ≡ err index_error)
      ↔ (count (has_type node "image/") info.files ≡ 0)
unfolding get_cid_file_info resolve list_types
get_cid_file_info-index_error_iff node c info t e = rw (t, e) (keep-none node info.files)
