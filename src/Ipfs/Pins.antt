-- ===== src/Ipfs/Pins.antt =====
-- Pins of the content of NFTs: cid_pin, cid_unpin, cid_pin_status and
-- nft_unlink of NFTorrent/ipfs/manager.py. Each returns what it does and the requests that it has
-- sent; the answers to requests are a parameter. Times are in seconds.
pub mod Expiry
use nft_torrent.Base.{
  ℕ, zero, suc, ◌+◌, ◌≡◌, ◌≤◌, Bool, true, false, not, ◌&&◌, Option, none, some, List, [], ◌∷◌,
  ◌++◌, arith, ltb, max, ◌==◌, if◌then◌else◌,
}
use nft_torrent.Base.Result.{Result, ok, err, ◌>>=◌, ◌>>◌, raise_if}
use nft_torrent.Ipfs.Content.{
  Error, http, rpc, timeout, should_wait, attribute_error, unbound_local, Node, equals, truthy,
  parse_ipfs_uri,
}
use nft_torrent.Locks.{Locks, obtain}
use Prim.Native.String.{String}

pub record IpfsSettings : Type 0 where
  pub cluster : Bool
  pub min_redundancy : ℕ
  pub cid_size_limit : ℕ
  pub file_size_limit : ℕ
  pub confirmation_timeout : ℕ
  pub max_pin_duration : ℕ

-- The query of a pin at the cluster
pub record PinQuery : Type 0 where
  pub replication_min : ℕ
  pub replication_max : ℕ
  pub name : Option String
  pub expire_at : Option ℕ
  pub meta_expires : Option ℕ
  pub meta_nft : Option String
  pub meta_userdata : Option String

pub data Request : Type 0 where
  cluster_pin : String → PinQuery → Request
  local_pin : String → String → Request
  cluster_unpin local_unpin cluster_status local_status : String → Request

-- The answer to a request for the status of a pin: its allocations, and `metadata`
pub record PinStatus : Type 0 where
  pub allocations : ℕ
  pub meta_expires : Option ℕ
  pub meta_nft : Option String
  pub meta_userdata : Option String

-- NftContentPin, without its `created` and `cid`
pub record NftContentPin : Type 0 where
  pub redundancy : ℕ
  pub expires : ℕ
  pub nft_address : Option String
  pub userdata : Option String

-- How the nodes answer
pub record Cluster : Type 0 where
  pub call : Request → Result Error (Unit {0})
  pub status : Request → Result Error PinStatus

-- `bool(n)` of a number that may be `None`
abbrev pub nonzero : Option ℕ → Bool
nonzero none = false
nonzero (some n) = ltb 0 n

-- A text that is sent if it is neither `None` nor empty
abbrev pub if_any : Option String → Option String
if_any s = if truthy s then s else none

-- When the pin is to end, if the request has an end
unfoldable pub pin_expire_at : ℕ → IpfsSettings → Option ℕ → Option ℕ
pin_expire_at now settings none = none
pin_expire_at now settings (some t) =
    if ltb 0 t && ltb 0 settings.max_pin_duration
    then some (max t (now + settings.max_pin_duration))
    else some t

-- The arguments of a pin
pub record Pin : Type 0 where
  pub cid : String
  pub name : Option String
  pub expire_at : Option ℕ
  pub address : Option String
  pub userdata : Option String

unfoldable pub pin_query : ℕ → IpfsSettings → Pin → PinQuery
pin_query now settings p = record {
  replication_min = settings.min_redundancy;
  replication_max = settings.min_redundancy + 2;
  name = if_any p.name;
  expire_at = if nonzero p.expire_at then pin_expire_at now settings p.expire_at else none;
  meta_expires = if nonzero p.expire_at then p.expire_at else none;
  meta_nft = if_any p.address;
  meta_userdata = if_any p.userdata;
}

unfoldable pub pin_request : ℕ → IpfsSettings → Pin → Request
pin_request now settings p =
    if settings.cluster
    then cluster_pin p.cid (pin_query now settings p)
    else local_pin p.cid (elim p.name [ none ↦ "" | some n ↦ n ])

-- What a call returns or raises, and the requests it has sent
abbrev pub Sent {ℓ} : Type ℓ → Type ℓ
Sent A = Result Error A × List Request

unfoldable pub cid_pin : Cluster → ℕ → IpfsSettings → Pin → Sent (Unit {0})
cid_pin world now settings p = let r = pin_request now settings p in (world.call r, r ∷ [])

abbrev pub is_404 : Error → Bool
is_404 (rpc s) = s == 404
is_404 _ = false

-- An answer of 404 is no error.
abbrev pub ignore_404 {ℓ} : {A : Type ℓ} → A → Result Error A → Result Error A
ignore_404 d (ok a) = ok a
ignore_404 d (err e) = if is_404 e then ok d else err e

unfoldable pub cid_unpin : Cluster → IpfsSettings → String → Sent (Unit {0})
cid_unpin world settings cid =
    let r = if settings.cluster then cluster_unpin cid else local_unpin cid in
    (ignore_404 tt (world.call r), r ∷ [])

abbrev pub content_pin : PinStatus → NftContentPin
content_pin s = record {
  redundancy = s.allocations;
  expires = elim s.meta_expires [ none ↦ 0 | some t ↦ t ];
  nft_address = s.meta_nft;
  userdata = s.meta_userdata;
}

unfoldable pub cid_pin_status : Cluster → IpfsSettings → String → Sent (Option NftContentPin)
cid_pin_status world settings cid =
    let r = if settings.cluster then cluster_status cid else local_status cid in
    (ignore_404 none (world.status r >>= λ s. ok (some (content_pin s))), r ∷ [])

-- `if pin and pin.nft_address == address`
abbrev pub is_pin_of : String → Option NftContentPin → Bool
is_pin_of address none = false
is_pin_of address (some pin) = equals pin.nft_address (some address)

abbrev pub unlink_pinned :
    Cluster
    → IpfsSettings
    → String
    → String
    → List Request
    → Result Error (Option NftContentPin)
    → Sent (Unit {0})
unlink_pinned world settings cid address sent (err e) = (err e, sent)
unlink_pinned world settings cid address sent (ok pin) =
    let (r, more) = cid_unpin world settings cid in
    if is_pin_of address pin then (r, sent ++ more) else (ok tt, sent)

unfoldable pub nft_unlink : Cluster → IpfsSettings → String → String → Sent (Unit {0})
nft_unlink world settings cid address =
    let (pin, sent) = cid_pin_status world settings cid in
    unlink_pinned world settings cid address sent pin
