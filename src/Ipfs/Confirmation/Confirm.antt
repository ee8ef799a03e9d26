-- ===== src/Ipfs/Confirmation/Confirm.antt =====
-- When the content of an NFT is pinned after it has been confirmed.
use nft_torrent.Base.{
  ℕ, zero, suc, ◌+◌, ◌*◌, ◌≤◌, ◌<◌, ◌≡◌, refl, ap, sym, true, false, Option, none, some, List, [],
  ◌∷◌, arith, ltb, max, if◌then◌else◌, is_some, ◌⊎◌, inl, inr, Bool-cases, Option-cases,
}
use nft_torrent.Base.Result.{Result, ok, err, Result-cases}
use nft_torrent.Ipfs.Content.{Error, equals, equals-some}
use nft_torrent.Ipfs.Pins.{
  IpfsSettings, Request, Cluster, cluster_pin, local_pin, nonzero, if_any, pin_expire_at, pin_query,
  pin_request, cid_pin, cid_unpin, cluster_unpin, local_unpin,
}
use nft_torrent.Ipfs.Confirmation.{
  NftContent, Polls, poll, Confirmed, pin_confirmed, after_poll, confirm_content,
}
use nft_torrent.Locks.{Locks, obtain}
use Prim.Native.String.{String}

poll_ends :
    (limit : ℕ) (p : Polls) (cid : String) (fuel i : ℕ) (curr : Option String × Option NftContent)
    → p.clock 0 + limit ≤ p.clock i + 10 * fuel
    → is_some (poll limit p cid (suc fuel) i curr) ≡ true
unfolding poll
poll_ends limit p cid zero i curr h = elim (Bool-cases (ltb (p.clock i) (p.clock 0 + limit))) [
  | inl early ↦ ground arith
  | inr late ↦ rw late refl
]
poll_ends limit p cid (suc fuel) i curr h =
    elim (Bool-cases (ltb (p.clock i) (p.clock 0 + limit))) [
      | inl early ↦ elim (Result-cases (p.fetch i)) [
        | inl (found, e) ↦
            rw (early, e)
              (elim (Bool-cases (equals found.0 (some cid))) [
                | inl hit ↦ rw hit refl
                | inr miss ↦
                    rw miss (poll_ends limit p cid fuel (suc i) found (omega (arith, p.sleeps i)))
              ])
        | inr (x, e) ↦ rw (early, e) refl
      ]
      | inr late ↦ rw late refl
    ]

-- With more than a tenth of the confirmation timeout as fuel, the wait for the confirmation ends.
pub confirm_content_ends :
    (world : Cluster) (now : ℕ) (settings : IpfsSettings) (polls : Polls) (fuel : ℕ) (locks : Locks)
    (address : String) (old_cid : Option String) (cid : String) (userdata : Option String)
    → settings.confirmation_timeout ≤ 10 * fuel
    → is_some
        (confirm_content world now settings polls (suc fuel) locks address old_cid cid userdata)
      ≡ true
unfolding confirm_content
confirm_content_ends world now settings polls fuel locks address old_cid cid userdata h =
    let ends =
      poll_ends settings.confirmation_timeout polls cid fuel 0 (none, none) (omega (arith, h)) in
    elim (Option-cases (obtain false locks)) [
      | inl busy ↦ rw (busy, is_some) refl
      | inr (l, free) ↦
          rw (free, is_some)
            (elim (Option-cases
              (poll settings.confirmation_timeout polls cid (suc fuel) 0 (none, none))) [
                | inl stuck ↦ let e = (rw stuck at ends) in ground arith
                | inr (found, e) ↦ rw (e, is_some) refl
              ])
    ]

poll_found :
    (limit : ℕ) (p : Polls) (cid : String) (fuel i : ℕ) (curr : Option String × Option NftContent)
    (found : Option String × Option NftContent)
    → equals curr.0 (some cid) ≡ false
    → equals found.0 (some cid) ≡ true
    → poll limit p cid fuel i curr ≡ some (ok found)
    → (j : ℕ) × (p.fetch j ≡ ok found) × (p.clock j < p.clock 0 + limit)
unfolding poll
poll_found limit p cid zero i curr found h g e = ground arith
poll_found limit p cid (suc fuel) i curr found h g e =
    elim (Bool-cases (ltb (p.clock i) (p.clock 0 + limit))) [
      | inl early ↦ elim (Result-cases (p.fetch i)) [
        | inl (seen, q) ↦ elim (Bool-cases (equals seen.0 (some cid))) [
          | inl hit ↦ let e' = (rw (early, q, hit) at e) in (i, ground arith, ground arith)
          | inr miss ↦
              let e' = (rw (early, q, miss) at e) in
              poll_found limit p cid fuel (suc i) seen found miss g e'
        ]
        | inr (x, q) ↦ let e' = (rw (early, q) at e) in ground arith
      ]
      | inr late ↦
          let e' = (rw late at e) in
          let same : curr ≡ found = ground arith in let g' = (rw (sym same) at g) in ground arith
    ]

-- The requests after a confirmation with the content `k`: the pin of the new CID, and once that has
-- succeeded the removal of the pin of the old one.
abbrev pub pin_then_unpin : Cluster → IpfsSettings → Request → Option String → List Request
pin_then_unpin world settings pin old_cid = pin ∷ elim (world.call pin) [
  | err e ↦ []
  | ok u ↦ elim old_cid [
    | none ↦ []
    | some old ↦ (if settings.cluster then cluster_unpin old else local_unpin old) ∷ []
  ]
]

abbrev sent_of : Option Confirmed → List Request
sent_of none = []
sent_of (some r) = r.sent

module _ (world : Cluster) (now : ℕ) (settings : IpfsSettings) (address : String)
    (old_cid : Option String) (cid : String) (userdata : Option String) where
  abbrev pub confirmed_pin : NftContent → Request
  confirmed_pin k = pin_request now settings (record {
    cid = cid;
    name = some address;
    expire_at = k.storage_due_time;
    address = some address;
    userdata = userdata;
  })

  -- The end that a pin is asked to have: that of the storage, but not before the longest duration
  -- of pins is over, and none if the storage has none
  abbrev pub end_of_pin : Option ℕ → Option ℕ
  end_of_pin none = none
  end_of_pin (some zero) = none
  end_of_pin (some (suc t)) =
      if ltb 0 settings.max_pin_duration
      then some (max (suc t) (now + settings.max_pin_duration))
      else some (suc t)

  abbrev pub end_of_storage : Option ℕ → Option ℕ
  end_of_storage none = none
  end_of_storage (some zero) = none
  end_of_storage (some (suc t)) = some (suc t)

  -- The request for the pin: at a cluster with its end, and at a single node without one
  abbrev pub requested_pin : NftContent → Request
  requested_pin k =
      if settings.cluster
      then cluster_pin cid (record {
        replication_min = settings.min_redundancy;
        replication_max = settings.min_redundancy + 2;
        name = if_any (some address);
        expire_at = end_of_pin k.storage_due_time;
        meta_expires = end_of_storage k.storage_due_time;
        meta_nft = if_any (some address);
        meta_userdata = if_any userdata;
      })
      else local_pin cid address

  end_of_pin_lem :
      (t : Option ℕ) → (if nonzero t then pin_expire_at now settings t else none) ≡ end_of_pin t
  unfolding pin_expire_at
  end_of_pin_lem none = refl
  end_of_pin_lem (some zero) = refl
  end_of_pin_lem (some (suc t)) = ground arith

  end_of_storage_lem : (t : Option ℕ) → (if nonzero t then t else none) ≡ end_of_storage t
  end_of_storage_lem none = refl
  end_of_storage_lem (some zero) = refl
  end_of_storage_lem (some (suc t)) = ground arith

  confirmed_pin_lem : (k : NftContent) → confirmed_pin k ≡ requested_pin k
  unfolding pin_request pin_query
  confirmed_pin_lem k =
      rw (end_of_pin_lem k.storage_due_time, end_of_storage_lem k.storage_due_time) refl

  pin_confirmed_lem :
      (k : NftContent)
      → pin_confirmed world now settings address old_cid cid userdata k
        ≡ pin_then_unpin world settings (requested_pin k) old_cid
  unfolding pin_confirmed cid_pin cid_unpin
  pin_confirmed_lem k =
      rw (sym (confirmed_pin_lem k)) (elim (Result-cases (world.call (confirmed_pin k))) [
        | inl (u, e) ↦
            rw e (elim (Option-cases old_cid) [
              | inl fresh ↦ rw fresh refl
              | inr (old, e') ↦ rw e' refl
            ])
        | inr (x, e) ↦ rw e refl
      ])

  -- What is sent when the confirmation is over
  abbrev pub IsConfirmed : Polls → List Request → Type 0
  IsConfirmed polls sent =
      (sent ≡ [])
      ⊎ ((j : ℕ) × (k : NftContent) × (polls.fetch j ≡ ok (some cid, some k))
          × (polls.clock j < polls.clock 0 + settings.confirmation_timeout)
          × (sent ≡ pin_then_unpin world settings (requested_pin k) old_cid))

  after_poll-IsConfirmed :
      (polls : Polls) (fuel : ℕ) (found : Result Error (Option String × Option NftContent))
      → poll settings.confirmation_timeout polls cid fuel 0 (none, none) ≡ some found
      → IsConfirmed polls (after_poll world now settings address old_cid cid userdata found).sent
  unfolding after_poll
  after_poll-IsConfirmed polls fuel (err x) e = inl refl
  after_poll-IsConfirmed polls fuel (ok (c, none)) e = elim (Bool-cases (equals c (some cid))) [
    | inl hit ↦ inl (rw hit refl)
    | inr miss ↦ inl (rw miss refl)
  ]
  after_poll-IsConfirmed polls fuel (ok (c, some k)) e = elim (Bool-cases (equals c (some cid))) [
    | inl hit ↦
        let (j, f, t) =
          poll_found settings.confirmation_timeout polls cid fuel 0 (none, none) (c, some k) refl
            hit e in
        let f' = (rw (equals-some c cid hit) at f) in
        inr (j, k, f', t, rw hit (pin_confirmed_lem k))
    | inr miss ↦ inl (rw miss refl)
  ]

  -- Either nothing is sent, or a poll before the end of the confirmation timeout has found the CID
  -- at the NFT, and then the requests are the pin of that CID, and the removal of the old pin, but
  -- only after the new one has succeeded. At a cluster the pin is asked to end when the storage of
  -- the NFT does, or with a maximal duration of pins when that is over, if it is later; at a single
  -- node, or if the storage has no end, it is asked for without an end.
  pub confirm_content-IsConfirmed :
      (polls : Polls) (fuel : ℕ) (locks : Locks) (r : Confirmed)
      → confirm_content world now settings polls fuel locks address old_cid cid userdata ≡ some r
      → IsConfirmed polls r.sent
  unfolding confirm_content
  confirm_content-IsConfirmed polls fuel locks r e = elim (Option-cases (obtain false locks)) [
    | inl busy ↦ let e' = (rw (busy, confirm_content) at e) in inl (sym (ap (λ x. sent_of x) e'))
    | inr (l, free) ↦
        elim (Option-cases (poll settings.confirmation_timeout polls cid fuel 0 (none, none))) [
          | inl stuck ↦ let e' = (rw (stuck) at (rw (free, confirm_content) at e)) in ground arith
          | inr (found, p) ↦
              let e' = (rw (p) at (rw (free, confirm_content) at e)) in
              rw (sym (ap sent_of e')) (after_poll-IsConfirmed polls fuel found p)
        ]
  ]
