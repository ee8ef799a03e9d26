-- ===== src/Tonlib/NftData/Verified.antt =====
-- What the checks of `get_nft_data` (NFTorrent/tonlib/manager.py) establish.
use Prim.Native.String.{String}
use nft_torrent.Base.{
  ℕ, ◌≡◌, refl, ap, sym, Bool, true, false, not, Option, none, some, ◌==◌, arith,
}
use nft_torrent.Base.Result.{Result, ok, err, ◌>>=◌, ◌>>◌, raise_if, ok_bind}
use nft_torrent.Tonlib.NftData.{
  TonAddress, NftError, collection_not_known, owner_mismatch, verification_failed, NftItem,
  NftItemData, Readers, same_address, check_owner, known_collection, verify_address, digest_of,
  read_item, with_content, get_nft_data,
}
use nft_torrent.Tonlib.Requests.Fallback.{Answer, value, coroutine}
use nft_torrent.Tonlib.Select.{Error}

-- Both texts are addresses, and of one contract.
pub IsSameAddress : Readers → String → String → Type 0
IsSameAddress readers s t =
    (a : TonAddress) × (b : TonAddress) × (readers.ton_address s ≡ ok a)
    × (readers.ton_address t ≡ ok b)
    × (a.raw_form ≡ b.raw_form)

pub IsOwnedBy : Readers → Option String → NftItem → Type 0
IsOwnedBy readers none nft = Unit {0}
IsOwnedBy readers (some owner) nft = IsSameAddress readers nft.owner_address owner

pub IsKnown : Readers → String → Type 0
IsKnown readers c =
    (a : TonAddress) × (readers.ton_address c ≡ ok a) × (readers.collections_map a.raw_form ≡ true)

-- The collection gives this address to the NFT, unless that is not asked.
pub IsGiven : Readers → Bool → String → Result Error Answer → Type 0
IsGiven readers true address asked = Unit {0}
IsGiven readers false address asked =
    (v : ℕ) × (asked ≡ ok (value v)) × IsSameAddress readers (readers.item_address v) address

raised_not {ℓ} : {E : Type ℓ} (b : Bool) (e : E) (u : Unit {0}) → raise_if b e ≡ ok u → b ≡ false
raised_not true e u h = ground arith
raised_not false e u h = refl

same_address-raw_form :
    (readers : Readers) (e : NftError) (a b : TonAddress) (u : Unit {0})
    → same_address readers e a b ≡ ok u
    → a.raw_form ≡ b.raw_form
same_address-raw_form readers e a b u h =
    let same = raised_not (not (a.raw_form == b.raw_form)) e u h in ground arith

check_owner-IsOwnedBy :
    (readers : Readers) (owner : Option String) (nft : NftItem) (u : Unit {0})
    → check_owner readers owner nft ≡ ok u
    → IsOwnedBy readers owner nft
unfolding IsOwnedBy IsSameAddress
check_owner-IsOwnedBy readers none nft u h = tt
check_owner-IsOwnedBy readers (some owner) nft u h =
    let (a, ea, h1) =
      ok_bind (readers.ton_address nft.owner_address)
        (λ a. readers.ton_address owner >>= λ b. same_address readers owner_mismatch a b) u h in
    let (b, eb, h2) =
      ok_bind (readers.ton_address owner) (λ b. same_address readers owner_mismatch a b) u h1 in
    (a, b, ea, eb, same_address-raw_form readers owner_mismatch a b u h2)

known_collection-IsKnown :
    (readers : Readers) (o : Option String) (c : String)
    → known_collection readers o ≡ ok c
    → (o ≡ some c) × IsKnown readers c
unfolding IsKnown
known_collection-IsKnown readers none c h = ground arith
known_collection-IsKnown readers (some d) c h =
    let (a, ea, h1) =
      ok_bind (readers.ton_address d)
        (λ a. raise_if (not (readers.collections_map a.raw_form)) collection_not_known >> ok d) c
        h in
    let (u, eu, h2) =
      ok_bind (raise_if (not (readers.collections_map a.raw_form)) collection_not_known) (λ _. ok d)
        c h1 in
    let known = raised_not (not (readers.collections_map a.raw_form)) collection_not_known u eu in
    let same : d ≡ c = cc in
    let listed : readers.collections_map a.raw_form ≡ true = ground arith in
    (ap some same, (a, rw (sym same) ea, listed))

verify_address-IsGiven :
    (readers : Readers) (skip_verification : Bool) (address : String) (addr : TonAddress)
    (asked : Result Error Answer) (u : Unit {0})
    → readers.ton_address address ≡ ok addr
    → verify_address readers skip_verification addr asked ≡ ok u
    → IsGiven readers skip_verification address asked
unfolding IsGiven IsSameAddress
verify_address-IsGiven readers true address addr asked u e h = tt
verify_address-IsGiven readers false address addr (err x) u e h = ground arith
verify_address-IsGiven readers false address addr (ok coroutine) u e h = ground arith
verify_address-IsGiven readers false address addr (ok (value v)) u e h =
    let (a, ea, h1) =
      ok_bind (readers.ton_address (readers.item_address v))
        (λ a. same_address readers verification_failed a addr) u h in
    (v, refl, (a, addr, ea, e, same_address-raw_form readers verification_failed a addr u h1))

with_content-address :
    (readers : Readers) (addr : TonAddress) (nft : NftItem) (d : NftItemData)
    → with_content readers addr nft ≡ ok d
    → (d.item ≡ nft) × (d.address ≡ addr.b64url)
with_content-address readers addr nft d h =
    let made : ℕ → Option String → NftItemData = λ content digest. record {
      item = nft;
      content = content;
      address = addr.b64url;
      digest = digest;
    } in
    let (content, e, h1) =
      ok_bind (readers.from_tvm nft.individual_content)
        (λ content.
          digest_of readers (readers.image content) >>= λ digest. ok (made content digest))
        d h in
    let (digest, e2, h2) =
      ok_bind (digest_of readers (readers.image content)) (λ digest. ok (made content digest)) d
        h1 in
    let same : made content digest ≡ d = cc in
    (ap (λ x. x.item) (sym same), ap (λ x. x.address) (sym same))

-- An NFT that is returned is of a known collection and has the address that was asked for, in its
-- URL form. If an owner was asked for, it is the owner, and if the verification was not skipped,
-- its collection gives this address to its index.
pub get_nft_data_verified :
    (readers : Readers) (run_method : Result Error Answer)
    (item_address : String → ℕ → Result Error Answer) (address : String) (skip_verification : Bool)
    (owner : Option String) (d : NftItemData)
    → get_nft_data readers run_method item_address address skip_verification owner ≡ ok d
    → IsOwnedBy readers owner d.item
      × ((c : String) × (d.item.collection_address ≡ some c)
          × IsKnown readers c
          × IsGiven readers skip_verification address (item_address c d.item.index))
      × ((addr : TonAddress) × (readers.ton_address address ≡ ok addr) × (d.address ≡ addr.b64url))
unfolding get_nft_data
get_nft_data_verified readers run_method item_address address skip owner d h =
    let placed = λ (addr : TonAddress) (nft : NftItem) (c : String).
      verify_address readers skip addr (item_address c nft.index) >>= λ _.
      with_content readers addr nft in
    let collected = λ (addr : TonAddress) (nft : NftItem).
      known_collection readers nft.collection_address >>= placed addr nft in
    let owned = λ (addr : TonAddress) (nft : NftItem).
      check_owner readers owner nft >>= λ _. collected addr nft in
    let (addr, e0, h0) =
      ok_bind (readers.ton_address address) (λ addr. read_item readers run_method >>= owned addr) d
        h in
    let (nft, e1, h1) = ok_bind (read_item readers run_method) (owned addr) d h0 in
    let (u, e2, h2) = ok_bind (check_owner readers owner nft) (λ _. collected addr nft) d h1 in
    let (c, e3, h3) =
      ok_bind (known_collection readers nft.collection_address) (placed addr nft) d h2 in
    let (v, e4, h4) =
      ok_bind (verify_address readers skip addr (item_address c nft.index))
        (λ _. with_content readers addr nft) d h3 in
    let (same, url) = with_content-address readers addr nft d h4 in
    let (of, known) = known_collection-IsKnown readers nft.collection_address c e3 in
    rw same (
      check_owner-IsOwnedBy readers owner nft u e2,
      (
        c,
        of,
        known,
        verify_address-IsGiven readers skip address addr (item_address c nft.index) v e0 e4,
      ),
      (addr, e0, url),
    )
