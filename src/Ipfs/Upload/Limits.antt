-- ===== src/Ipfs/Upload/Limits.antt =====
-- What has been checked when new content is accepted, and what becomes of it.
use nft_torrent.Base.{
  ℕ, ◌≤◌, ◌≡◌, ◌≢◌, refl, ap, sym, ◌∙◌, ◌⊎◌, inl, inr, Bool, true, false, Option, none, some, List,
  [], ◌∷◌, arith, ltb, sum, count, All, Bool-cases, Option-cases,
}
use nft_torrent.Base.Result.{Result, ok, err, ◌>>◌, raise_if, ok_bind, Result-cases}
use nft_torrent.Ipfs.Content.{
  Error, size_limit, attribute_error, NftContentInfo, Node, equals, equals-some, equals_refl,
}
use nft_torrent.Ipfs.Pins.{
  IpfsSettings, Cluster, cid_pin, pin_request, PinStatus, PinQuery, cluster_status, cluster_pin,
  cluster_unpin, nft_unlink, pin_query,
}
use nft_torrent.Ipfs.Confirmation.{NftContent, get_nft_cid}
use nft_torrent.Ipfs.Pins.Expiry.{nft_unlink-unpins_iff}
use nft_torrent.Ipfs.Upload.{
  cid_add_local, check_sizes, check_peers, with_lock, Created, publish, added_content,
  create_content,
}
use nft_torrent.Locks.{Locks, obtain}
use Prim.Native.String.{String}

raise_if-ok :
    {A : Type 0} (b : Bool) (e : Error) (m : Result Error A) (a : A)
    → (raise_if b e >> m) ≡ ok a
    → (b ≡ false) × (m ≡ ok a)
raise_if-ok true e m a h = ground arith
raise_if-ok false e m a h = (refl, h)

raised_not : (b : Bool) (e : Error) (u : Unit {0}) → raise_if b e ≡ ok u → b ≡ false
raised_not true e u h = ground arith
raised_not false e u h = refl

All-small : (n : ℕ) (xs : List ℕ) → count (ltb n) xs ≡ 0 → All (λ x. x ≤ n) xs
All-small n [] h = tt
All-small n (x ∷ xs) h = elim (Bool-cases (ltb n x)) [
  | inl big ↦ let h' = (rw big at h) in ground arith
  | inr small ↦ (ground arith, All-small n xs (ground arith))
]

-- The sizes are within the limits of the settings.
abbrev pub Fits : IpfsSettings → List ℕ → Type 0
Fits settings sizes =
    (sum sizes ≤ settings.cid_size_limit) × All (λ x. x ≤ settings.file_size_limit) sizes

check_sizes-Fits :
    (settings : IpfsSettings) (sizes : List ℕ) (u : Unit {0})
    → check_sizes settings sizes ≡ ok u
    → Fits settings sizes
unfolding check_sizes
check_sizes-Fits settings sizes u e =
    let (big, e1) = raise_if-ok (ltb settings.cid_size_limit (sum sizes)) size_limit _ u e in
    let few = raised_not (ltb 0 (count (ltb settings.file_size_limit) sizes)) size_limit u e1 in
    (ground arith, All-small settings.file_size_limit sizes (ground arith))

check_peers-ok :
    (settings : IpfsSettings) (peers : Option ℕ) (u : Unit {0})
    → check_peers settings peers ≡ ok u
    → (n : ℕ) × (peers ≡ some n) × (settings.min_redundancy ≤ n)
unfolding check_peers
check_peers-ok settings none u e = ground arith
check_peers-ok settings (some n) u e = elim (Bool-cases (ltb n settings.min_redundancy)) [
  | inl few ↦ let e' = (rw few at e) in ground arith
  | inr enough ↦ (n, refl, ground arith)
]

with_lock-ok :
    {A : Type 0} (locks : Locks) (r : Result Error A) (a : A) → with_lock locks r ≡ ok a → r ≡ ok a
with_lock-ok locks r a e = elim (Option-cases (obtain false locks)) [
  | inl busy ↦ let e' = (rw (busy, with_lock) at e) in ground arith
  | inr (l, free) ↦ (rw (free, with_lock) at e)
]

some_of :
    {A : Type 0} (o : Option A) (a : A)
    → (elim o [ none ↦ err attribute_error | some c ↦ ok c ]) ≡ ok a
    → o ≡ some a
some_of none a e = ground arith
some_of (some b) a e = ground arith

added_content-Fits :
    (node : Node) (settings : IpfsSettings) (peers : Option ℕ) (locks : Locks) (sizes : List ℕ)
    (response : Result Error (List (String × ℕ × String))) (c : NftContentInfo)
    → added_content node settings peers locks sizes response ≡ ok c
    → Fits settings sizes
      × ((n : ℕ) × (peers ≡ some n) × (settings.min_redundancy ≤ n))
      × (cid_add_local node response ≡ ok (some c))
unfolding added_content
added_content-Fits node settings peers locks sizes response c e =
    let (v, e1, e2) = ok_bind (check_sizes settings sizes >> check_peers settings peers) _ _ e in
    let (u, e3, e4) = ok_bind (check_sizes settings sizes) _ _ e1 in
    let (o, e5, e6) = ok_bind (with_lock locks (cid_add_local node response)) _ _ e2 in
    (
      check_sizes-Fits settings sizes u e3,
      check_peers-ok settings peers v e4,
      with_lock-ok locks (cid_add_local node response) o e5 ∙ ap ok (some_of o c e6),
    )

not_equal : (cid : Option String) (hash : String) → equals cid (some hash) ≡ false → cid ≢ some hash
not_equal cid hash e same = let e' = (rw same at e) in let t = equals_refl hash in ground arith

module _ (world : Cluster) (now : ℕ) (settings : IpfsSettings) (address : String)
    (userdata : Option String) where
  -- What becomes of new content: it is left to be confirmed if the NFT shows another CID, and is
  -- pinned at once if the NFT shows it.
  abbrev pub IsPublished : Option String → Option NftContent → NftContentInfo → Created → Type 0
  IsPublished cid nft_content c w =
      ((cid ≢ some c.hash) × (w.confirmation ≡ some (cid, c.hash)) × (w.sent ≡ []))
      ⊎ ((cid ≡ some c.hash)
          × (w.confirmation ≡ none)
          × ((k : NftContent) × (nft_content ≡ some k)
              × (w.sent
                  ≡ pin_request now settings (record {
                    cid = c.hash;
                    name = some address;
                    expire_at = k.storage_due_time;
                    address = none;
                    userdata = userdata;
                  })
                    ∷ [])))

  publish-IsPublished :
      (cid : Option String) (nft_content : Option NftContent) (c d : NftContentInfo)
      → (publish world now settings address userdata cid nft_content c).result ≡ ok d
      → (d ≡ c)
        × IsPublished cid nft_content c
            (publish world now settings address userdata cid nft_content c)
  unfolding publish cid_pin
  publish-IsPublished cid nft_content c d e = elim (Bool-cases (equals cid (some c.hash))) [
    | inl current ↦ elim (Option-cases nft_content) [
      | inl lost ↦ let e' = (rw (current, lost, publish) at e) in ground arith
      | inr (k, found) ↦
          let e' = (rw (current, found, publish) at e) in
          let (u, sent, same) = ok_bind _ (λ x. ok c) d e' in
          (
            ground arith,
            rw (current, found, publish)
                (inr (equals-some cid c.hash current, refl, (k, refl, refl))),
          )
    ]
    | inr other ↦
        let e' = (rw (other, publish) at e) in
        (ground arith, rw (other, publish) (inl (not_equal cid c.hash other, refl, refl)))
  ]

  -- Content that `create_content` accepts fits the limits on the total and on each file, the
  -- cluster has peers enough, the content is what the node has added, and it is left to be
  -- confirmed if the NFT shows another CID, and pinned at once if the NFT shows it.
  pub create_content-IsPublished :
      (node : Node) (peers : Option ℕ) (locks : Locks) (nft_data : Result Error (Option NftContent))
      (sizes : List ℕ) (response : Result Error (List (String × ℕ × String))) (c : NftContentInfo)
      → (create_content node world now settings peers locks address userdata nft_data sizes
          response).result
        ≡ ok c
      → Fits settings sizes
        × ((n : ℕ) × (peers ≡ some n) × (settings.min_redundancy ≤ n))
        × (cid_add_local node response ≡ ok (some c))
        × ((cid : Option String) × (k : Option NftContent) × (get_nft_cid node false nft_data
              ≡ ok (cid, k))
            × IsPublished cid k c (
                create_content node world now settings peers locks address userdata nft_data sizes
                  response))
  unfolding create_content
  create_content-IsPublished node peers locks nft_data sizes response c e =
      elim (Result-cases (get_nft_cid node false nft_data)) [
        | inl ((cid, k), shown) ↦
            elim (Result-cases (added_content node settings peers locks sizes response)) [
              | inl (d, added) ↦
                  let e' = (rw (shown, added, create_content) at e) in
                  let (same, p) = publish-IsPublished cid k d c e' in
                  let a = (rw (sym same) at added) in
                  let q = (rw (sym same) at p) in
                  let (fits, enough, made) =
                    added_content-Fits node settings peers locks sizes response c a in
                  (fits, enough, made, (cid, k, shown, rw (shown, a, create_content) q))
              | inr (x, broken) ↦ let e' = (rw (shown, broken, create_content) at e) in ground arith
            ]
        | inr (x, lost) ↦ let e' = (rw (lost, create_content) at e) in ground arith
      ]

  publish-meta_nft :
      (cid : Option String) (nft_content : Option NftContent) (c : NftContentInfo) (hash : String)
      (q : PinQuery)
      → settings.cluster ≡ true
      → (publish world now settings address userdata cid nft_content c).sent
        ≡ cluster_pin hash q ∷ []
      → q.meta_nft ≡ none
  unfolding publish cid_pin pin_request pin_query
  publish-meta_nft cid nft_content c hash q m e = elim (Bool-cases (equals cid (some c.hash))) [
    | inl current ↦ elim (Option-cases nft_content) [
      | inl lost ↦ let e' = (rw (current, lost, publish) at e) in ground arith
      | inr (k, found) ↦
          let e' = (rw (m, pin_request) at (rw (current, found, publish) at e)) in ground arith
    ]
    | inr other ↦ let e' = (rw (other, publish) at e) in ground arith
  ]

  -- If the cluster shows the NFT that the pin request of published content named, `nft_unlink` does
  -- not unpin that content, whatever the NFT: the request names none.
  pub publish-nft_unlink :
      (cid : Option String) (nft_content : Option NftContent) (c : NftContentInfo)
      (hash nft : String) (q : PinQuery) (s : PinStatus)
      → settings.cluster ≡ true
      → (publish world now settings address userdata cid nft_content c).sent
        ≡ cluster_pin hash q ∷ []
      → world.status (cluster_status hash) ≡ ok s
      → s.meta_nft ≡ q.meta_nft
      → (nft_unlink world settings hash nft).1 ≢ cluster_status hash ∷ cluster_unpin hash ∷ []
  publish-nft_unlink cid nft_content c hash nft q s m e shown kept unpinned =
      let (t, shown', named) = (nft_unlink-unpins_iff world settings hash nft m).0 unpinned in
      let no_nft = publish-meta_nft cid nft_content c hash q m e in
      let same : s ≡ t = ground arith in
      let named' = ap (λ r. r.meta_nft) same ∙ named in ground arith
