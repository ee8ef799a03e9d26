-- ===== src/Ipfs/Pins/Expiry.antt =====
-- When a pin ends, and when an NFT is unlinked from it.
use nft_torrent.Base.{
  ℕ, ◌+◌, ◌≤◌, ◌<◌, ◌≡◌, refl, ap, ◌∙◌, ◌↔◌, true, none, some, [], ◌∷◌, arith, inl, inr, Bool-cases,
  max,
}
use nft_torrent.Base.Result.{Result, ok, err, ◌>>=◌}
use nft_torrent.Ipfs.Content.{Error, equals, equals-some, equals_refl}
use nft_torrent.Ipfs.Pins.{
  IpfsSettings, PinQuery, cluster_pin, cluster_status, cluster_unpin, PinStatus, Cluster, Pin,
  pin_expire_at, pin_request, nft_unlink, cid_pin_status, cid_unpin, pin_query, is_404, ignore_404,
  content_pin, unlink_pinned,
}
use Prim.Native.String.{String}

-- With a maximal duration of pins, a pin at the cluster with an end that is not 0 is asked to last
-- at least that long: no end is earlier than now plus the maximum, nor earlier than the end that
-- was asked for. The metadata keep the end that was asked for.
pub pin_request-expire_at_ge :
    (now t : ℕ) (settings : IpfsSettings) (p : Pin)
    → settings.cluster ≡ true
    → p.expire_at ≡ some t
    → 0 < t
    → 0 < settings.max_pin_duration
    → (q : PinQuery) × (e : ℕ) × (pin_request now settings p ≡ cluster_pin p.cid q)
      × (q.expire_at ≡ some e)
      × (q.meta_expires ≡ some t)
      × (now + settings.max_pin_duration ≤ e)
      × (t ≤ e)
unfolding pin_request pin_query pin_expire_at
pin_request-expire_at_ge now t settings p c f h m = (
  pin_query now settings p,
  max t (now + settings.max_pin_duration),
  rw c refl,
  rw (f) (ground arith),
  rw f (ground arith),
  omega arith,
  omega arith,
)

cid_pin_status_cluster :
    (world : Cluster) (settings : IpfsSettings) (cid : String)
    → settings.cluster ≡ true
    → cid_pin_status world settings cid ≡ (
      ignore_404 none (world.status (cluster_status cid) >>= λ s. ok (some (content_pin s))),
      cluster_status cid ∷ [],
    )
unfolding cid_pin_status
cid_pin_status_cluster world settings cid c = rw c refl

unlink_pinned-unpins_iff :
    (world : Cluster) (settings : IpfsSettings) (cid address : String)
    → settings.cluster ≡ true
    → (r : Result Error PinStatus)
    → ((unlink_pinned world settings cid address
          (cluster_status cid ∷ [])
          (ignore_404 none (r >>= λ s. ok (some (content_pin s))))).1
        ≡ cluster_status cid ∷ cluster_unpin cid ∷ [])
      ↔ ((s : PinStatus) × (r ≡ ok s) × (s.meta_nft ≡ some address))
unfolding cid_unpin
unlink_pinned-unpins_iff world settings cid address c (ok t) =
    elim (Bool-cases (equals t.meta_nft (some address))) [
      | inl same ↦ rw (same, c) ((λ x. (t, refl, equals-some t.meta_nft address same)), (λ x. refl))
      | inr other ↦ rw other (
        (λ x. ground arith),
        (λ (u, v, w).
            let same : t ≡ u = ground arith in
            let o = (rw (ap (λ r. r.meta_nft) same ∙ w) at other) in
            let p = equals_refl address in ground arith),
      )
    ]
unlink_pinned-unpins_iff world settings cid address c (err x) = elim (Bool-cases (is_404 x)) [
  | inl missing ↦ rw (missing) ((λ y. ground arith), (λ (u, v, w). ground arith))
  | inr broken ↦ rw (broken) ((λ y. ground arith), (λ (u, v, w). ground arith))
]

-- At a cluster, an NFT is unlinked from a CID by an unpin exactly when the pin of the CID has a
-- status that names the NFT.
pub nft_unlink-unpins_iff :
    (world : Cluster) (settings : IpfsSettings) (cid address : String)
    → settings.cluster ≡ true
    → ((nft_unlink world settings cid address).1 ≡ cluster_status cid ∷ cluster_unpin cid ∷ [])
      ↔ ((s : PinStatus) × (world.status (cluster_status cid) ≡ ok s) × (s.meta_nft ≡ some address))
unfolding nft_unlink
nft_unlink-unpins_iff world settings cid address c =
    rw (cid_pin_status_cluster world settings cid c)
      (unlink_pinned-unpins_iff world settings cid address c (world.status (cluster_status cid)))
