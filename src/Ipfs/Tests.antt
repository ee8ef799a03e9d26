-- ===== src/Ipfs/Tests.antt =====
-- A node with one CID, a cluster that accepts every pin, and an NFT that shows new content after
-- ten seconds.
use nft_torrent.Base.{
  ℕ, ◌*◌, ◌≤◌, ◌≡◌, refl, true, false, Option, none, some, List, [], ◌∷◌, arith, is_some, ltb,
  if◌then◌else◌,
}
use nft_torrent.Base.Result.{Result, ok}
use nft_torrent.Ipfs.Content.{Error, NftContentInfo, Node, torrent_digest, Wanted}
use nft_torrent.Ipfs.Pins.{IpfsSettings, Cluster, Pin}
use nft_torrent.Ipfs.Confirmation.{
  NftContent, Polls, Confirmed, confirm_content, pin_confirmed, after_poll, poll, get_nft_cid,
  image_cid,
}
use nft_torrent.Ipfs.Confirmation.Confirm.{
  confirm_content_ends, IsConfirmed, confirm_content-IsConfirmed,
}
use nft_torrent.Ipfs.Upload.{
  cid_add_local, create_content, publish, added_content, check_sizes, check_peers, read_lines,
}
use nft_torrent.Ipfs.Upload.Limits.{Fits, IsPublished, create_content-IsPublished}
use nft_torrent.Locks.{Locks, obtain}
use Prim.Native.String.{String}

abbrev node : Node
node = record {
  urlparse = λ u. ("ipfs", u, "", "");
  shake = λ s. s;
  guess_type = λ s. none;
  links = λ c. ok (c, []);
  cat = λ c f. ok "text";
}

-- A node whose CID holds one file
abbrev folder : Node
folder = record node { links = λ c. ok (c, ("a", 3, "h") ∷ []) }

abbrev file_a : Wanted
file_a = record { uri = none; cid = some "b"; file_path = some "a"; digest = none }

abbrev only : NftContentInfo
only = record { hash = "b"; size = 0; digest = some "b"; files = [] }

abbrev settings : IpfsSettings
settings = record {
  cluster = true;
  min_redundancy = 1;
  cid_size_limit = 10;
  file_size_limit = 5;
  confirmation_timeout = 30;
  max_pin_duration = 100;
}

abbrev cluster : Cluster
cluster = record {
  call = λ r. ok tt;
  status = λ r.
      ok (record { allocations = 1; meta_expires = none; meta_nft = none; meta_userdata = none });
}

abbrev unused : Locks
unused = record {
  heap = λ i. record { locked = false; ref_count = 0 };
  next_id = 0;
  lock_index = none;
}

abbrev shown : NftContent
shown = record { image = some "b"; storage_due_time = some 7 }

abbrev polls : Polls
polls = record {
  fetch = λ i. if ltb 0 i then ok (some "b", some shown) else ok (none, none);
  clock = λ i. 10 * i;
  sleeps = λ i. omega arith;
}

confirm_content_ends_example :
    is_some (confirm_content cluster 0 settings polls 4 unused "EQA" (some "a") "b" none) ≡ true
confirm_content_ends_example =
    confirm_content_ends cluster 0 settings polls 3 unused "EQA" (some "a") "b" none (omega arith)

abbrev confirmed : Confirmed
confirmed = record {
  raised = none;
  sent = pin_confirmed cluster 0 settings "EQA" (some "a") "b" none shown;
}

confirm_content-IsConfirmed_example :
    IsConfirmed cluster 0 settings "EQA" (some "a") "b" none polls confirmed.sent
unfolding confirm_content poll obtain after_poll
confirm_content-IsConfirmed_example =
    confirm_content-IsConfirmed cluster 0 settings "EQA" (some "a") "b" none polls 4 unused
      confirmed refl

abbrev pin : Pin
pin = record { cid = "b"; name = none; expire_at = some 7; address = none; userdata = none }

abbrev sizes : List ℕ
sizes = 3 ∷ 4 ∷ []

abbrev lines : Result Error (List (String × ℕ × String))
lines = ok (("", 7, "b") ∷ [])

create_content-IsPublished_example :
    Fits settings sizes
    × ((n : ℕ) × (some 2 ≡ some n) × (settings.min_redundancy ≤ n))
    × (cid_add_local node lines ≡ ok (some (record only { size = 7 })))
    × ((cid : Option String) × (k : Option NftContent) × (get_nft_cid node false (ok none)
          ≡ ok (cid, k))
        × IsPublished cluster 0 settings "EQA" none cid k
            (record only { size = 7 })
            (create_content node cluster 0 settings
              (some 2)
              unused
              "EQA"
              none
              (ok none)
              sizes
              lines))
unfolding create_content added_content cid_add_local read_lines check_sizes check_peers publish
    get_nft_cid image_cid obtain torrent_digest
create_content-IsPublished_example =
    create_content-IsPublished cluster 0 settings "EQA" none node (some 2) unused (ok none) sizes
      lines (record only { size = 7 }) refl
