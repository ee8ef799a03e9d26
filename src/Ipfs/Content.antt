-- ===== src/Ipfs/Content.antt =====
-- The content of a CID and the files that are served from it: NftContentInfo and NftContentFile of
-- NFTorrent/models.py, parse_ipfs_uri and uri_supported of NFTorrent/utils.py, and get_cid_info,
-- get_cid_file_info and get_cid_file of NFTorrent/ipfs/manager.py. The answers of the IPFS node,
-- the digest, the MIME types and `urlparse` are parameters.
pub mod Serve
use nft_torrent.Base.{
  ℕ, ◌+◌, ◌≡◌, ap, refl, Bool, true, false, not, ◌&&◌, ◌||◌, Option, none, some, List, [], ◌∷◌, map,
  arith, ltb, ◌==◌, if◌then◌else◌, ◌⊎◌, inl, inr, keep, sum,
}
use nft_torrent.Base.Result.{Result, ok, err, ◌>>=◌, ◌>>◌, raise_if}
use Prim.Native.String.{String, ◌++◌ as append}
use Prim.Native.Char.{code}
use text.Mathlib.TextEquality.{eq_iff}
use text.Mathlib.Text.{◌==◌ as str_eq, starts_with}

-- What the calls raise: an HTTPException or an IpfsRpcHttpException with its status, the errors of
-- NFTorrent/exceptions.py, and those of Python
pub data Error : Type 0 where
  http rpc other : ℕ → Error
  size_limit storage_error should_wait timeout : Error
  index_error attribute_error type_error unbound_local unicode_error : Error

pub record NftContentFile : Type 0 where
  pub name : String
  pub size : ℕ
  pub hash : String
  pub digest : Option String

pub record NftContentInfo : Type 0 where
  pub hash : String
  pub size : ℕ
  pub digest : Option String
  pub files : List NftContentFile

-- What the code gets from libraries and from the node: the scheme, the host, the path and the
-- fragment of a URI, the digest of a text, the type of a file name, the links of a CID with their
-- names, sizes and hashes, and the data of a CID or of a file in it.
pub record Node : Type 0 where
  pub urlparse : String → String × String × String × String
  pub shake : String → String
  pub guess_type : String → Option String
  pub links : String → Result Error (String × List (String × ℕ × String))
  pub cat : String → Option String → Result Error String

-- `a == b` for values that may be `None`
abbrev pub equals : Option String → Option String → Bool
equals none none = true
equals none (some b) = false
equals (some a) none = false
equals (some a) (some b) = str_eq a b

pub equals-some : (c : Option String) (cid : String) → equals c (some cid) ≡ true → c ≡ some cid
equals-some none cid e = ground arith
equals-some (some b) cid e = ap some ((eq_iff b cid).0 e)

pub equals_refl : (cid : String) → equals (some cid) (some cid) ≡ true
equals_refl cid = (eq_iff cid cid).1 refl

-- `bool(a)`: neither `None` nor empty
abbrev pub truthy : Option String → Bool
truthy none = false
truthy (some s) = elim s [ String.[] ↦ false | String.◌∷◌ c s ↦ true ]

unfoldable pub torrent_digest : Node → String → Option String → String
torrent_digest node hash none = node.shake hash
torrent_digest node hash (some filename) = node.shake (append hash filename)

abbrev pub digested : Node → String → NftContentFile → NftContentFile
digested node hash f = record f { digest = some (torrent_digest node hash (some f.name)) }

abbrev pub make_digest : Node → NftContentInfo → NftContentInfo
make_digest node info = record info {
  digest = some (torrent_digest node info.hash none);
  files = map (digested node info.hash) info.files;
}

-- `info.name == filename or info.digest == digest`
abbrev pub is_file : Option String → Option String → NftContentFile → Bool
is_file filename digest f = equals (some f.name) filename || equals f.digest digest

unfoldable pub find_file :
    Option String → Option String → List NftContentFile → Option NftContentFile
find_file filename digest [] = none
find_file filename digest (f ∷ fs) =
    if is_file filename digest f then some f else find_file filename digest fs

unfoldable pub get_file : Option String → Option String → NftContentInfo → Option NftContentFile
get_file filename digest info = find_file filename digest info.files

-- The guessed type, "" if there is none, starts with the prefix, and the name not with a dot.
abbrev pub has_type : Node → String → NftContentFile → Bool
has_type node prefix f =
    not (starts_with f.name ".")
    && starts_with (elim (node.guess_type f.name) [ none ↦ "" | some t ↦ t ]) prefix

unfoldable pub list_types : Node → String → NftContentInfo → List NftContentFile
list_types node prefix info = keep (has_type node prefix) info.files

-- `path[1:]` if the path starts with a slash
abbrev pub strip_slash : String → String
strip_slash String.[] = String.[]
strip_slash (String.◌∷◌ c s) = if code c == 47 then s else String.◌∷◌ c s

-- The CID, the path and the digest of a URI
unfoldable pub parse_ipfs_uri : Node → String → Option String × Option String × Option String
parse_ipfs_uri node uri =
    let (scheme, host, path, fragment) = node.urlparse uri in
    if str_eq scheme "ipfs"
    then (some host, some (strip_slash path), some fragment)
    else (none, none, none)

-- SUPPORTED_SCHEMES, where `lower` is `str.lower`
abbrev pub supported_scheme : (String → String) → String → Bool
supported_scheme lower scheme =
    str_eq (lower scheme) "http" || str_eq (lower scheme) "https" || str_eq (lower scheme) "ipfs"

-- `uri and uri_supported(uri)`
abbrev pub uri_supported : Node → (String → String) → Option String → Bool
uri_supported node lower none = false
uri_supported node lower (some uri) =
    let (scheme, host, path, fragment) = node.urlparse uri in
    truthy (some uri) && truthy (some scheme) && truthy (some host) && supported_scheme lower scheme

abbrev pub link_file : String × ℕ × String → NftContentFile
link_file (name, size, h) = record { name = name; size = size; hash = h; digest = none }

unfoldable pub get_cid_info : Node → String → Result Error NftContentInfo
get_cid_info node cid = node.links cid >>= λ (hash, xs).
    let files = map link_file xs in
    ok (
      make_digest node (record {
        hash = hash;
        size = sum (map (λ f. f.size) files);
        digest = none;
        files = files;
      }))

-- The arguments of a call: a URI, or a CID, and a path and a digest
pub record Wanted : Type 0 where
  pub uri : Option String
  pub cid : Option String
  pub file_path : Option String
  pub digest : Option String

-- The CID, the path and the digest that the arguments name: those of the URI, if there is one, but
-- an argument goes before its path and digest.
unfoldable pub resolve : Node → Wanted → Option String × Option String × Option String
resolve node q =
    if truthy q.uri
    then (let (cid, path, digest) = parse_ipfs_uri node (elim q.uri [ none ↦ "" | some u ↦ u ]) in
        elim q.file_path [
          | none ↦ elim q.digest [ none ↦ (cid, path, digest) | some d ↦ (cid, none, some d) ]
          | some p ↦ (cid, some p, q.digest)
        ])
    else (q.cid, q.file_path, q.digest)

-- `if not cid: raise HTTPException(400)`
abbrev pub defined : Option String → Result Error String
defined cid = raise_if (not (truthy cid)) (http 400) >> ok (elim cid [ none ↦ "" | some c ↦ c ])

abbrev pub or_404 {ℓ} : {A : Type ℓ} → Option A → Result Error A
or_404 none = err (http 404)
or_404 (some a) = ok a

-- `_list[0]`
abbrev pub first : List NftContentFile → Result Error NftContentFile
first [] = err index_error
first (f ∷ fs) = ok f

unfoldable pub get_cid_file_info : Node → Wanted → Result Error NftContentFile
get_cid_file_info node q =
    let (cid, file_path, digest) = resolve node q in
    defined cid >>= λ c. get_cid_info node c >>= λ info.
    if truthy digest || truthy file_path
    then or_404 (get_file file_path digest info)
    else first (list_types node "image/" info)

-- The content as a whole, or one of its files
pub data Served : Type 0 where
  whole : NftContentInfo → Served
  part : NftContentFile → Served

abbrev pub served_size : Served → ℕ
served_size (whole i) = i.size
served_size (part f) = f.size

-- The choice of what to serve
unfoldable pub choose : Option String → Option String → NftContentInfo → Option Served
choose file_path digest info = elim info.files [
  | [] ↦ if equals info.digest digest || not (truthy digest) then some (whole info) else none
  | f ∷ fs ↦ elim (get_file file_path digest info) [ none ↦ none | some g ↦ some (part g) ]
]

-- The text of the whole content or of the file in it
abbrev pub text_of : Node → String → Served → Result Error String
text_of node c (whole i) = node.cat c none
text_of node c (part f) = node.cat c (some f.name)

-- The check of the size, and the text
abbrev pub serve : Node → ℕ → String → Served → Result Error (String × Served)
serve node limit c served =
    raise_if (ltb limit (served_size served)) size_limit
    >> (text_of node c served >>= λ text. ok (text, served))

unfoldable pub get_cid_file : Node → ℕ → Wanted → Result Error (String × Served)
get_cid_file node limit q =
    let (cid, file_path, digest) = resolve node q in
    defined cid >>= λ c.
    get_cid_info node c >>= λ info. or_404 (choose file_path digest info) >>= serve node limit c
