-- ===== src/Indexer/Nft.antt =====
-- Rows of the index and their tasks (NFTorrent/dbmodels.py), as far as the indexer changes them,
-- and the offsets of `IndexDb` (NFTorrent/indexer/indexdb.py). Instants are in ticks of the clock.
use nft_torrent.Base.{ℕ, ◌*◌, ◌≡◌, ◌↔◌, Bool, true, false, not, Option, none, some, arith}
use Prim.Native.String.{String}
use text.Mathlib.Text.{◌==◌ as str_eq}
use text.Mathlib.TextEquality.{eq_iff}

abbrev pub second : ℕ
second = 1000000

abbrev pub day : ℕ
day = 86400 * second

abbrev pub warn_offset : ℕ
warn_offset = 10 * day

abbrev pub expired_offset : ℕ
expired_offset = 1 * day

abbrev pub task_queue_timeout : ℕ
task_queue_timeout = 5 * second

-- `PetMemoryNft`. The last three are the attributes that `_nft_update` sets on the object and no
-- column holds: a row fresh from the database has none of them.
pub record PetMemoryNft : Type 0 where
  pub id : ℕ
  pub collection_id : ℕ
  pub address : String
  pub index : ℕ
  pub updated_time : ℕ
  pub deleted_time : Option ℕ
  pub last_notified : Option ℕ
  pub owner : String
  pub fee_due_time : ℕ
  pub uri : Option String
  pub description : Option String
  pub image : Option String
  pub image_data : Option String
  pub torrent_info : Option String
  pub error_code : Option String
  pub nft_updated : Option Bool
  pub nft_image_updated : Option Bool
  pub nft_transfered : Option Bool

pub data NftTaskType : Type 0 where
  sync notify_due_date notify_mint notify_updated notify_transfered : NftTaskType

pub record NftTaskQueue : Type 0 where
  pub task_type : NftTaskType
  pub task_time : ℕ
  pub collection_id : ℕ
  pub pet_memory_nft_id : ℕ
  pub index : ℕ

-- `vold != vnew` of two texts, and of two texts that may be `None`
unfoldable pub text_differs : String → String → Bool
text_differs a b = not (str_eq a b)

pub differs : Option String → Option String → Bool
unfolding text_differs
differs none none = false
differs none (some b) = true
differs (some a) none = true
differs (some a) (some b) = text_differs a b

pub text_differs_iff : (a b : String) → (text_differs a b ≡ false) ↔ (a ≡ b)
unfolding text_differs
text_differs_iff a b = ground (arith, eq_iff a b)

pub differs_iff : (a b : Option String) → (differs a b ≡ false) ↔ (a ≡ b)
unfolding differs
differs_iff none none = ground arith
differs_iff none (some b) = ground arith
differs_iff (some a) none = ground arith
differs_iff (some a) (some b) = ground (arith, text_differs_iff a b)
