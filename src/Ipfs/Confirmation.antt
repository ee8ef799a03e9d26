-- ===== src/Ipfs/Confirmation.antt =====
-- The wait until an NFT shows new content: get_nft_cid and confirm_content of
-- NFTorrent/ipfs/manager.py. Times are in seconds.
pub mod Confirm
use nft_torrent.Base.{
  ℕ, zero, suc, ◌+◌, ◌≡◌, ◌≤◌, Bool, true, false, not, ◌&&◌, Option, none, some, List, [], ◌∷◌,
  ◌++◌, arith, ltb, max, ◌==◌, if◌then◌else◌,
}
use nft_torrent.Base.Result.{Result, ok, err, ◌>>=◌, ◌>>◌, raise_if}
use nft_torrent.Ipfs.Content.{
  Error, http, rpc, timeout, should_wait, attribute_error, unbound_local, Node, equals, truthy,
  parse_ipfs_uri,
}
use nft_torrent.Ipfs.Pins.{IpfsSettings, Request, Cluster, cid_pin, cid_unpin}
use nft_torrent.Locks.{Locks, obtain}
use Prim.Native.String.{String}

-- What the gateway knows of the individual content of an NFT
pub record NftContent : Type 0 where
  pub image : Option String
  pub storage_due_time : Option ℕ

-- The CID of the image, if it has one
unfoldable pub image_cid : Node → Option NftContent → Option String
image_cid node none = none
image_cid node (some c) = elim c.image [
  | none ↦ none
  | some u ↦ if truthy (some u) then (parse_ipfs_uri node u).0 else none
]

-- The CID of the image of an NFT, and its content
unfoldable pub get_nft_cid :
    Node
    → Bool
    → Result Error (Option NftContent)
    → Result Error (Option String × Option NftContent)
get_nft_cid node raise_error nft_data = nft_data >>= λ content.
    raise_if (raise_error && not (truthy (image_cid node content))) (http 404)
    >> ok (image_cid node content, content)

-- The content of the NFT that awaits confirmation, as the `i`-th poll of it finds it, and the time
-- then; a poll is at least ten seconds after the one before it.
pub record Polls : Type 0 where
  pub fetch : ℕ → Result Error (Option String × Option NftContent)
  pub clock : ℕ → ℕ
  pub sleeps : (i : ℕ) → clock i + 10 ≤ clock (suc i)

-- The loop that waits until the NFT shows the CID or the time is over
unfoldable pub poll :
    ℕ
    → Polls
    → String
    → ℕ
    → ℕ
    → Option String × Option NftContent
    → Option (Result Error (Option String × Option NftContent))
poll limit p cid zero i curr = none
poll limit p cid (suc fuel) i curr =
    if ltb (p.clock i) (p.clock 0 + limit)
    then elim (p.fetch i) [
      | err e ↦ some (err e)
      | ok found ↦
          if equals found.0 (some cid) then some (ok found) else poll limit p cid fuel (suc i) found
    ]
    else some (ok curr)

-- What leaves `confirm_content`, and the requests that it has sent
pub record Confirmed : Type 0 where
  pub raised : Option Error
  pub sent : List Request

-- The pin of the confirmed content, and the removal of the old one. What these raise is logged.
unfoldable pub pin_confirmed :
    Cluster
    → ℕ
    → IpfsSettings
    → String
    → Option String
    → String
    → Option String
    → NftContent
    → List Request
pin_confirmed world now settings address old_cid cid userdata content =
    let (r, sent) = cid_pin world now settings (record {
      cid = cid;
      name = some address;
      expire_at = content.storage_due_time;
      address = some address;
      userdata = userdata;
    }) in
    elim r [
      | err e ↦ sent
      | ok u ↦ elim old_cid [ none ↦ sent | some old ↦ sent ++ (cid_unpin world settings old).1 ]
    ]

-- The end of the polls; an error of one, a TimeoutError and a missing content are logged.
unfoldable pub after_poll :
    Cluster
    → ℕ
    → IpfsSettings
    → String
    → Option String
    → String
    → Option String
    → Result Error (Option String × Option NftContent)
    → Confirmed
after_poll world now settings address old_cid cid userdata (err e) = record {
  raised = none;
  sent = [];
}
after_poll world now settings address old_cid cid userdata (ok (curr_cid, content)) =
    if equals curr_cid (some cid)
    then elim content [
      | none ↦ record { raised = none; sent = [] }
      | some c ↦ record {
        raised = none;
        sent = pin_confirmed world now settings address old_cid cid userdata c;
      }
    ]
    else record { raised = none; sent = [] }

-- `confirm_content`. The locks are those of the key of the NFT. When its lock is taken, the handler
-- of the LockShouldWaitError reads `curr_cid`, which nothing has bound yet. The second lock is
-- waited for, and pins in the meantime are not seen.
unfoldable pub confirm_content :
    Cluster
    → ℕ
    → IpfsSettings
    → Polls
    → ℕ
    → Locks
    → String
    → Option String
    → String
    → Option String
    → Option Confirmed
confirm_content world now settings polls fuel locks address old_cid cid userdata =
    elim (obtain false locks) [
      | none ↦ some (record { raised = some unbound_local; sent = [] })
      | some l ↦ elim (poll settings.confirmation_timeout polls cid fuel 0 (none, none)) [
        | none ↦ none
        | some found ↦ some (after_poll world now settings address old_cid cid userdata found)
      ]
    ]
