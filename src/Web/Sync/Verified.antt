-- ===== src/Web/Sync/Verified.antt =====
-- What a request to `sync_nft_data` (NFTorrent/webserver.py) may change.
use mathlib.Core.Path.{subst}
use nft_torrent.Base.{
  ℕ, suc, ◌<◌, ◌≡◌, refl, sym, ap, ◌∙◌, true, false, Option, none, some, List, [], ◌∷◌, ◌⊎◌, inl,
  inr, arith, ltb, ◌==◌, Bool-cases,
}
use nft_torrent.Base.Result.{Result, ok, err}
use nft_torrent.Ipfs.Content.{Error, truthy}
use nft_torrent.Ipfs.Pins.{Request, NftContentPin, cid_pin_status}
use nft_torrent.Locks.{Locks, set_lock, refer, obtain, acquire, aexit}
use nft_torrent.Tonlib.NftData.{
  NftError, contract_is_not_nft, owner_mismatch, collection_not_known, verification_failed,
  value_error, type_error, attribute_error, request_error, NftItemData, answered, get_nft_data,
}
use nft_torrent.Tonlib.NftData.Verified.{IsKnown, IsGiven, get_nft_data_verified}
use nft_torrent.Web.Sync.{
  WebError, Reply, SyncState, Server, contract_gone, expires_of, confirm_due, check_pin,
  content_cid, then_update, contract_read, sync_body, sync_nft_data,
}
use Prim.Native.String.{String}

-- A key without an entry: the lock that is made for it is acquired at once, and dropped at the end.
obtain_free :
    (s : Locks)
    → s.lock_index ≡ none
    → (l : ℕ) × (entered : Locks) × (held : Locks) × (obtain false s ≡ some (l, entered))
      × (acquire l entered ≡ some held)
      × ((aexit l held).lock_index ≡ none)
unfolding obtain acquire aexit
obtain_free s free =
    let l = s.next_id in
    let created = set_lock l (record { locked = false; ref_count = 0 }) s in
    let entered = refer l (record created { next_id = suc l; lock_index = some l }) in
    let same : (l == l) ≡ true = ground arith in
    (
      l,
      entered,
      set_lock l (record (entered.heap l) { locked = true }) entered,
      rw free refl,
      rw same refl,
      rw same refl,
    )

module _ (server : Server) (address : String) where
  -- Nothing is confirmed, or the content of the NFT that has been read, whose storage is paid for
  -- beyond its pin
  pub Confirms : NftItemData → SyncState → Type 0
  Confirms d s =
      (s.confirming ≡ [])
      ⊎ ((cid : String) × (s.confirming ≡ (address, cid) ∷ [])
          × (content_cid server address d ≡ some cid)
          × ((pin : Option NftContentPin) × ((cid_pin_status server.cluster server.ipfs cid).0
                ≡ ok pin)
              × (expires_of server address pin < server.storage_due_time d.content)))

  confirm_due-Confirms :
      (d : NftItemData) (cid : String) (r : Result Error (Option NftContentPin)) (s s' : SyncState)
      → s.confirming ≡ []
      → content_cid server address d ≡ some cid
      → (cid_pin_status server.cluster server.ipfs cid).0 ≡ r
      → confirm_due server address d cid r s ≡ ok s'
      → Confirms d s' × (s'.locks ≡ s.locks)
  unfolding Confirms
  confirm_due-Confirms d cid (err x) s s' h i pinned e = ground arith
  confirm_due-Confirms d cid (ok pin) s s' h i pinned e =
      elim (Bool-cases (ltb (expires_of server address pin) (server.storage_due_time d.content))) [
        | inl due ↦
            let same : record s { confirming = (address, cid) ∷ s.confirming } ≡ s' =
              ground (arith, due, e) in
            (
              inr (
                cid,
                ap (λ (t : SyncState). t.confirming) (sym same) ∙ ap (λ c. (address, cid) ∷ c) h,
                i,
                (pin, pinned, ground arith),
              ),
              ap (λ (t : SyncState). t.locks) (sym same),
            )
        | inr early ↦
            let same : s ≡ s' = ground (arith, early, e) in
            (
              inl (ap (λ (t : SyncState). t.confirming) (sym same) ∙ h),
              ap (λ (t : SyncState). t.locks) (sym same),
            )
      ]

  unpinned-Confirms :
      (d : NftItemData) (s s' : SyncState)
      → s.confirming ≡ []
      → ◌≡◌ {A = Result WebError SyncState} (ok s) (ok s')
      → Confirms d s' × (s'.locks ≡ s.locks)
  unfolding Confirms
  unpinned-Confirms d s s' h e =
      let same : s ≡ s' = cc in
      (
        inl (ap (λ (t : SyncState). t.confirming) (sym same) ∙ h),
        ap (λ (t : SyncState). t.locks) (sym same),
      )

  check_pin-Confirms :
      (d : NftItemData) (cid : Option String) (s s' : SyncState)
      → s.confirming ≡ []
      → content_cid server address d ≡ cid
      → (check_pin server address d cid s).0 ≡ ok s'
      → Confirms d s' × (s'.locks ≡ s.locks)
  check_pin-Confirms d none s s' h i e = unpinned-Confirms d s s' h e
  check_pin-Confirms d (some cid) s s' h i e = elim (Bool-cases (truthy (some cid))) [
    | inl set ↦
        confirm_due-Confirms d cid (cid_pin_status server.cluster server.ipfs cid).0 s s' h i refl
          (rw set at e)
    | inr empty ↦ unpinned-Confirms d s s' h (rw empty at e)
  ]

  -- What the body leaves: the locks as they are, and a confirmation of verified content at most
  Settles : SyncState → SyncState → Type 0
  Settles s s' =
      (s'.locks ≡ s.locks)
      × ((s'.confirming ≡ [])
          ⊎ ((d : NftItemData) × (get_nft_data server.readers server.run_method server.item_address
                  address false none
                ≡ ok d)
              × Confirms d s'))

  then_update-Settles :
      (d : NftItemData) (s : SyncState) (checked : Result WebError SyncState × List Request)
      → s.confirming ≡ []
      → get_nft_data server.readers server.run_method server.item_address address false none ≡ ok d
      → ((s' : SyncState) → checked.0 ≡ ok s' → Confirms d s' × (s'.locks ≡ s.locks))
      → Settles s (then_update server address d s checked).1
  unfolding Settles Confirms
  then_update-Settles d s (err e, sent) h read from = (refl, inl h)
  then_update-Settles d s (ok s', sent) h read from =
      let (c, same) = from s' refl in (same, inr (d, read, c))

  contract_gone-Settles :
      (s : SyncState) (state : Result NftError ℕ)
      → s.confirming ≡ []
      → Settles s (contract_gone server address state s).1
  unfolding Settles
  contract_gone-Settles s (err e) h = (refl, inl h)
  contract_gone-Settles s (ok state) h = elim (Bool-cases (server.uninited state)) [
    | inl gone ↦ rw gone (refl, inl h)
    | inr there ↦ rw there (refl, inl h)
  ]

  contract_read-Settles :
      (s : SyncState) (read : Result NftError NftItemData)
      → s.confirming ≡ []
      → get_nft_data server.readers server.run_method server.item_address address false none ≡ read
      → Settles s (contract_read server address read s).1
  unfolding Settles
  contract_read-Settles s (err contract_is_not_nft) h e =
      contract_gone-Settles s (answered server.readers server.account_state) h
  contract_read-Settles s (err owner_mismatch) h e = (refl, inl h)
  contract_read-Settles s (err collection_not_known) h e = (refl, inl h)
  contract_read-Settles s (err verification_failed) h e = (refl, inl h)
  contract_read-Settles s (err value_error) h e = (refl, inl h)
  contract_read-Settles s (err type_error) h e = (refl, inl h)
  contract_read-Settles s (err attribute_error) h e = (refl, inl h)
  contract_read-Settles s (err (request_error x)) h e = (refl, inl h)
  contract_read-Settles s (ok d) h e =
      then_update-Settles d s (check_pin server address d (content_cid server address d) s) h e
        (λ s' f. check_pin-Confirms d (content_cid server address d) s s' h refl f)

  sync_body-Settles : (s : SyncState) → s.confirming ≡ [] → Settles s (sync_body server address s).1
  unfolding sync_body
  sync_body-Settles s h =
      contract_read-Settles s
        (get_nft_data server.readers server.run_method server.item_address address false none) h
        refl

  -- The lock that a request makes is dropped when it ends.
  sync_nft_data-exit :
      (s : SyncState)
      → s.locks.lock_index ≡ none
      → (l : ℕ) × (held : Locks) × (sync_nft_data server address s ≡ (
        (sync_body server address (record s { locks = held })).0,
        record (sync_body server address (record s { locks = held })).1 {
          locks = aexit l (sync_body server address (record s { locks = held })).1.locks;
        },
      ))
        × ((aexit l held).lock_index ≡ none)
  unfolding sync_nft_data
  sync_nft_data-exit s free =
      let (l, locks, held, entered, taken, left) = obtain_free s.locks free in
      (l, held, rw (entered, taken, sync_nft_data) refl, left)

-- A request for an address whose lock is free drops the lock in the end, whatever it raises. It
-- starts no confirmation, or one: of the content on IPFS of the NFT that has been read at the
-- address, if its storage is paid for beyond the expiry of its pin, or beyond now if there is no
-- pin. That NFT is of a known collection, which gives the address to its index.
pub sync_nft_data-exits :
    (server : Server) (address : String) (s : SyncState)
    → s.locks.lock_index ≡ none
    → s.confirming ≡ []
    → let s' = (sync_nft_data server address s).1 in
      (s'.locks.lock_index ≡ none)
      × ((s'.confirming ≡ [])
          ⊎ ((d : NftItemData) × Confirms server address d s'
              × ((c : String) × (d.item.collection_address ≡ some c)
                  × IsKnown server.readers c
                  × IsGiven server.readers false address (server.item_address c d.item.index))))
unfolding Settles Confirms
sync_nft_data-exits server address s free none_yet =
    let (l, held, e, left) = sync_nft_data-exit server address s free in
    let (kept, settled) = sync_body-Settles server address (record s { locks = held }) none_yet in
    let get =
      get_nft_data_verified server.readers server.run_method server.item_address address false
        none in
    subst
      (λ (r : Result WebError Reply × SyncState).
        (r.1.locks.lock_index ≡ none)
        × ((r.1.confirming ≡ [])
            ⊎ ((d : NftItemData) × Confirms server address d r.1
                × ((c : String) × (d.item.collection_address ≡ some c)
                    × IsKnown server.readers c
                    × IsGiven server.readers false address (server.item_address c d.item.index)))))
      (sym e)
      (
        ap (λ (x : Locks). (aexit l x).lock_index) kept ∙ left,
        elim settled [
          | inl idle ↦ inl idle
          | inr (d, read, confirms) ↦ inr (d, confirms, (get d read).1)
        ],
      )
