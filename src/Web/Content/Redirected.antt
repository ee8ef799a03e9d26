-- ===== src/Web/Content/Redirected.antt =====
-- Where the redirections of `get_nft_content` (NFTorrent/webserver.py) lead.
use mathlib.Core.Path.{subst}
use nft_torrent.Base.{
  ℕ, ◌≡◌, refl, ap, ◌∙◌, Bool, true, false, ◌&&◌, ◌||◌, Option, none, some, List, [], ◌∷◌, inl, inr,
  arith, ltb, Bool-cases, Option-cases,
}
use nft_torrent.Base.Result.{ok, ◌>>=◌, ok_bind, Result-cases}
use nft_torrent.Indexer.Single.{uri_ipfs}
use nft_torrent.Ipfs.Content.{
  uri_supported, NftContentFile, NftContentInfo, Served, served_size, whole, part, truthy,
  find_file, get_file, list_types, parse_ipfs_uri, get_cid_info, resolve, choose, serve,
  get_cid_file, text_of,
}
use nft_torrent.Tonlib.NftData.{NftItemData}
use nft_torrent.Web.Content.{
  served_name, served_hash, is_latin_1, streaming_response, ContentQuery, torrent_content, Site,
  is_uri, get_collection, CollectionInstance, covered, without_uri, has_bytes, cid_text,
  nft_data_of, of_ipfs, asked_file, or_first, named_file, redirect_digest, digest_in, ipfs_redirect,
  content_response, get_nft_content, torrent_of, get_nft_torrent_content,
}
use Prim.Native.String.{String}
use text.Mathlib.Text.{starts_with}
use nft_torrent.Web.Content.Found.{
  served_digest, IsFound, equals_refl_all, HasFile, found-HasFile, kept-HasFile, get_file-chosen,
}

module _ (site : Site) where
  or_first-HasFile :
      (asked : Bool) (path digest : Option String) (info : NftContentInfo) (g : NftContentFile)
      → or_first site
          (asked_file site asked path digest info)
          (list_types site.readers.node "image/" info)
        ≡ ok g
      → HasFile g.digest info.files
  unfolding get_file list_types
  or_first-HasFile false path digest info g e = kept-HasFile _ info.files g e
  or_first-HasFile true path digest info g e =
      elim (Option-cases (find_file path digest info.files)) [
        | inl lost ↦ kept-HasFile _ info.files g (rw (lost) at e)
        | inr (h, found) ↦
            let e' = (rw found at e) in
            let same : h ≡ g = ground arith in
            found-HasFile path digest info.files g (found ∙ ap some same)
      ]

  digest_in-chosen :
      (fs : List NftContentFile) (path digest found : Option String) (info : NftContentInfo)
      → info.files ≡ fs
      → digest_in site fs path digest info ≡ ok found
      → (s : Served) × (choose none found info ≡ some s) × (served_digest s ≡ found)
  unfolding choose
  digest_in-chosen [] path digest found info empty e =
      let same : info.digest ≡ found = ground arith in
      (whole info, rw (empty, same, equals_refl_all found) refl, same)
  digest_in-chosen (f ∷ fs) path digest found info full e =
      let (g, named, last) =
        ok_bind (named_file site path digest info) (λ (h : NftContentFile). ok h.digest) found e in
      let (h, hit, d) = or_first-HasFile (truthy path || truthy digest) path digest info g named in
      let same : g.digest ≡ found = ground arith in
      (
        part h,
        get_file-chosen found info f fs h full
            (subst (λ x. find_file none x info.files ≡ some h) same hit),
        d ∙ same,
      )

  supported-cid :
      (u : String)
      → ((uri : String)
          → starts_with uri "ipfs://" ≡ true
          → (site.readers.node.urlparse uri).0 ≡ "ipfs")
      → uri_supported site.readers.node site.lower (some u) ≡ true
      → starts_with u "ipfs://" ≡ true
      → (cid : String) × ((parse_ipfs_uri site.readers.node u).0 ≡ some cid)
        × (truthy (some cid) ≡ true)
  unfolding parse_ipfs_uri
  supported-cid u scheme ours ipfs =
      let host = (site.readers.node.urlparse u).1 in (host, rw (scheme u ipfs) refl, ground arith)

  streaming_response-IsFound :
      (text : String) (s : Served)
      → IsFound site.readers.node (served_digest s) (streaming_response (text, s))
  streaming_response-IsFound text s =
      elim (Bool-cases (is_latin_1 (served_name s) && is_latin_1 (served_hash s))) [
        | inl fits ↦ rw (streaming_response, fits) refl
        | inr strange ↦ rw (streaming_response, strange) (inr (inl (refl, (s, refl, strange))))
      ]

  serve-IsFound :
      (cid : String) (s : Served)
      → IsFound site.readers.node
          (served_digest s)
          (of_ipfs site (serve site.readers.node site.file_size_limit cid s) >>= streaming_response)
  serve-IsFound cid s = elim (Bool-cases (ltb site.file_size_limit (served_size s))) [
    | inl large ↦ rw large (inl refl)
    | inr small ↦ elim (Result-cases (text_of site.readers.node cid s)) [
      | inl (text, sent) ↦ rw (small, sent) (streaming_response-IsFound text s)
      | inr (e, lost) ↦ rw (small, lost) (inr (inr (cid, s, refl, lost)))
    ]
  ]

  served-IsFound :
      (cid : String) (found : Option String) (info : NftContentInfo) (s : Served)
      → truthy (some cid) ≡ true
      → get_cid_info site.readers.node cid ≡ ok info
      → choose none found info ≡ some s
      → served_digest s ≡ found
      → IsFound site.readers.node found (
          of_ipfs site (
            get_cid_file site.readers.node site.file_size_limit
              (record { uri = none; cid = some cid; file_path = none; digest = found }))
          >>= streaming_response)
  unfolding get_cid_file resolve
  served-IsFound cid found info s set got chosen same =
      rw (set, got, chosen)
        (subst
          (λ d. IsFound site.readers.node d (
            of_ipfs site (serve site.readers.node site.file_size_limit cid s)
            >>= streaming_response))
          same (serve-IsFound cid s))

  -- A URI of IPFS that is supported names a CID, and what it leads to is found there.
  ipfs_redirect-IsFound :
      (u found : Option String)
      → ((uri : String)
          → starts_with uri "ipfs://" ≡ true
          → (site.readers.node.urlparse uri).0 ≡ "ipfs")
      → uri_supported site.readers.node site.lower u ≡ true
      → uri_ipfs u ≡ true
      → ipfs_redirect site u ≡ ok (torrent_content found)
      → IsFound site.readers.node found (torrent_of site u none found)
  unfolding ipfs_redirect torrent_of redirect_digest
  ipfs_redirect-IsFound none found scheme ours ipfs e = ground arith
  ipfs_redirect-IsFound (some u) found scheme ours ipfs e =
      let (cid, named, set) = supported-cid u scheme ours ipfs in
      let node = site.readers.node in
      let (c, path, digest) = parse_ipfs_uri node u in
      let (info, got, e1) =
        ok_bind (get_cid_info node (cid_text c))
          (λ i. redirect_digest site path digest i >>= λ d. ok (torrent_content d)) _ e in
      let (d, digested, e2) =
        ok_bind (redirect_digest site path digest info) (λ x. ok (torrent_content x)) _ e1 in
      let same : d ≡ found = ground arith in
      let (s, chosen, at) =
        digest_in-chosen info.files path digest found info refl (digested ∙ ap ok same) in
      rw ipfs (rw named (served-IsFound cid found info s set (rw named at got) chosen at))

  -- Without a URI that is supported, nothing leads to a file.
  covered-IsShown :
      (content : ℕ) (collection : Option CollectionInstance) (found : Option String)
      → ¬ (covered site content collection ≡ ok (torrent_content found))
  covered-IsShown content none found e = ground arith
  covered-IsShown content (some c) found e = elim (Bool-cases c.item_cover) [
    | inl made ↦ (let e' = (rw made at e) in ground arith)
    | inr bare ↦ (let e' = (rw bare at e) in ground arith)
  ]

  without_uri-IsShown :
      (address : String) (d : NftItemData) (found : Option String)
      → ¬ (without_uri site address false d ≡ ok (torrent_content found))
  without_uri-IsShown address d found e =
      elim (Bool-cases (has_bytes (site.image_data d.content))) [
        | inl bytes ↦ (let e' = (rw bytes at e) in ground arith)
        | inr no_bytes ↦
            let e' = (rw no_bytes at e) in
            let (c, known, made) =
              ok_bind (get_collection site d.item.collection_address) (covered site d.content) _
                e' in
            covered-IsShown d.content c found made
      ]

  content_response-IsFound :
      (address : String) (d : NftItemData) (found : Option String)
      → ((uri : String)
          → starts_with uri "ipfs://" ≡ true
          → (site.readers.node.urlparse uri).0 ≡ "ipfs")
      → content_response site address false d ≡ ok (torrent_content found)
      → IsFound site.readers.node found (torrent_of site (site.readers.image d.content) none found)
  unfolding content_response
  content_response-IsFound address d found scheme e =
      let u = site.readers.image d.content in
      elim (Bool-cases (uri_supported site.readers.node site.lower u)) [
        | inr strange ↦ absurd (without_uri-IsShown address d found (rw strange at e))
        | inl ours ↦ elim (Bool-cases (uri_ipfs u)) [
          | inr web ↦ (let e' = (rw (ours, web) at e) in ground arith)
          | inl ipfs ↦
              let e1 = (rw (ours, ipfs) at e) in
              elim (Result-cases (ipfs_redirect site u)) [
                | inl (r, given) ↦
                    let e2 = (rw given at e1) in
                    let same : r ≡ torrent_content found = ground arith in
                    ipfs_redirect-IsFound u found scheme ours ipfs (given ∙ ap ok same)
                | inr (x, raised) ↦ (let e2 = (rw raised at e1) in ground arith)
              ]
        ]
      ]

-- Where an image of an NFT, or none of the two queries, is redirected to a file by its digest, the
-- request for that digest sends a file, or the whole content, that has it, unless it is over the
-- limit of the size, its name or its hash is not Latin-1, or the node cannot give its text. The
-- liteservers and the node must answer both requests alike, and a URI that starts with `ipfs://`
-- must have the scheme `ipfs`.
pub get_nft_content-IsFound :
    (site : Site) (address : String) (query : Option ContentQuery) (found : Option String)
    → ((uri : String)
        → starts_with uri "ipfs://" ≡ true
        → (site.readers.node.urlparse uri).0 ≡ "ipfs")
    → is_uri query ≡ false
    → get_nft_content site address query ≡ ok (torrent_content found)
    → IsFound site.readers.node found (get_nft_torrent_content site address none found)
unfolding get_nft_content get_nft_torrent_content content_response
get_nft_content-IsFound site address query found scheme shown e =
    let (kept, known, e1) = ok_bind (get_collection site (some address)) _ _ e in
    elim (Option-cases kept) [
      | inl own ↦
          let (d, read, e2) = ok_bind (nft_data_of site address) _ _ (rw own at e1) in
          rw read (content_response-IsFound site address d found scheme (rw shown at e2))
      | inr (c, is) ↦ (let e2 = (rw (is, shown) at e1) in ground arith)
    ]
