-- ===== src/Tonlib/NftData.antt =====
-- `get_nft_data` of `TonlibManager` (NFTorrent/tonlib/manager.py): an NFT is read from its contract
-- and verified with its collection.
pub mod Verified
mod Tests
use Prim.Native.String.{String}
use nft_torrent.Base.{
  ℕ, ◌+◌, Bool, true, false, not, Option, none, some, List, length, ◌==◌, if◌then◌else◌,
}
use nft_torrent.Base.Result.{Result, ok, err, ◌>>=◌, ◌>>◌, raise_if}
use nft_torrent.Indexer.Single.{uri_ipfs}
use nft_torrent.Ipfs.Content.{Node, torrent_digest, parse_ipfs_uri}
use nft_torrent.Tonlib.Requests.Fallback.{Answer, value, coroutine}
use nft_torrent.Tonlib.Select.{Error}

-- The addresses that `TonAddress` parses; two of them are equal when their raw forms are.
pub record TonAddress : Type 0 where
  pub raw_form : ℕ
  pub b64 : String
  pub b64url : String

-- TonlibContractIsNotNft, the TonlibRequestErrors, what a call has raised, and a coroutine in place
-- of a result
pub data NftError : Type 0 where
  contract_is_not_nft owner_mismatch collection_not_known verification_failed : NftError
  value_error type_error attribute_error : NftError
  request_error : Error → NftError

-- `parse_nft_item_data`
pub record NftItem : Type 0 where
  pub init : Bool
  pub index : ℕ
  pub owner_address : String
  pub collection_address : Option String
  pub individual_content : ℕ

pub record NftItemData : Type 0 where
  pub item : NftItem
  pub content : ℕ
  pub address : String
  pub digest : Option String

-- What the libraries read from texts, stacks and cells, and the raw forms of the known collections
pub record Readers : Type 0 where
  pub ton_address : String → Result NftError TonAddress
  pub stack : ℕ → Option (List ℕ)
  pub item_address : ℕ → String
  pub parse_nft_item_data : List ℕ → Result NftError NftItem
  pub collections_map : ℕ → Bool
  pub from_tvm : ℕ → Result NftError ℕ
  pub image : ℕ → Option String
  pub node : Node

module _ (readers : Readers) where
  -- The fields of an answer; a coroutine has none.
  abbrev pub answered : Result Error Answer → Result NftError ℕ
  answered (err e) = err (request_error e)
  answered (ok coroutine) = err type_error
  answered (ok (value v)) = ok v

  abbrev pub five_entries : Option (List ℕ) → Result NftError (List ℕ)
  five_entries none = err contract_is_not_nft
  five_entries (some stack) = raise_if (not (length stack == 5)) contract_is_not_nft >> ok stack

  -- `if a != b: raise e`, for two addresses
  abbrev pub same_address : NftError → TonAddress → TonAddress → Result NftError (Unit {0})
  same_address e a b = raise_if (not (a.raw_form == b.raw_form)) e

  abbrev pub check_owner : Option String → NftItem → Result NftError (Unit {0})
  check_owner none nft = ok tt
  check_owner (some owner) nft = readers.ton_address nft.owner_address >>= λ a.
      readers.ton_address owner >>= λ b. same_address owner_mismatch a b

  -- The address of the collection, if it is known
  abbrev pub known_collection : Option String → Result NftError String
  known_collection none = err collection_not_known
  known_collection (some c) = readers.ton_address c >>= λ a.
      raise_if (not (readers.collections_map a.raw_form)) collection_not_known >> ok c

  -- `get_nft_item_address` of the collection answers `asked`.
  abbrev pub verify_address : Bool → TonAddress → Result Error Answer → Result NftError (Unit {0})
  verify_address true addr asked = ok tt
  verify_address false addr asked = answered asked >>= λ v.
      readers.ton_address (readers.item_address v) >>= λ a. same_address verification_failed a addr

  abbrev pub digest_of : Option String → Result NftError (Option String)
  digest_of none = ok none
  digest_of (some uri) =
      if uri_ipfs (some uri)
      then (elim (parse_ipfs_uri readers.node uri).0 [
        | none ↦ err attribute_error
        | some cid ↦ ok (some (torrent_digest readers.node cid none))
      ])
      else ok none

  -- The item in the five entries of the stack
  abbrev pub read_item : Result Error Answer → Result NftError NftItem
  read_item run_method = answered run_method >>= λ result.
      five_entries (readers.stack result) >>= λ stack. readers.parse_nft_item_data stack

  abbrev pub with_content : TonAddress → NftItem → Result NftError NftItemData
  with_content addr nft = readers.from_tvm nft.individual_content >>= λ content.
      digest_of (readers.image content) >>= λ digest.
      ok (record { item = nft; content = content; address = addr.b64url; digest = digest })

  -- `run_method` is the answer of `raw_run_method`, `item_address` that of `get_nft_item_address`.
  unfoldable pub get_nft_data :
      Result Error Answer
      → (String → ℕ → Result Error Answer)
      → String
      → Bool
      → Option String
      → Result NftError NftItemData
  get_nft_data run_method item_address address skip_verification owner =
      readers.ton_address address >>= λ addr. read_item run_method >>= λ nft.
      check_owner owner nft >>= λ _. known_collection nft.collection_address >>= λ c.
      verify_address skip_verification addr (item_address c nft.index) >>= λ _.
      with_content addr nft
