-- ===== src/Indexer/Tasks/Warn.antt =====
-- How often an owner is reminded of the due date.
use nft_torrent.Base.{
  ℕ, ◌+◌, ◌<◌, ◌≡◌, refl, ap, sym, ◌∙◌, true, false, some, List, [], ◌∷◌, arith, ◌==◌, inl, inr,
  Bool-cases, Option-cases,
}
use nft_torrent.Indexer.Nft.{PetMemoryNft, notify_due_date}
use nft_torrent.Indexer.Tasks.{
  QueuedTask, Tables, contains, get_nft, put_nft, Updating, frequent_notification, warned,
  task_outcome, process_task, quiet_time, merge_all, bulk_update, has_user, set_notified,
  is_frequent,
}
use Prim.Native.String.{String}

get_nft-id :
    (id : ℕ) (nfts : List PetMemoryNft) (nft : PetMemoryNft)
    → get_nft id nfts ≡ some nft
    → nft.id ≡ id
unfolding get_nft
get_nft-id id [] nft e = ground arith
get_nft-id id (x ∷ nfts) nft e = elim (Bool-cases (x.id == id)) [
  | inl hit ↦
      let e' = (rw hit at e) in
      let same : x ≡ nft = ground arith in ap (λ n. n.id) (sym same) ∙ ground arith
  | inr miss ↦ get_nft-id id nfts nft (rw miss at e)
]

get_nft-put_nft :
    (nft : PetMemoryNft) (nfts : List PetMemoryNft) → get_nft nft.id (put_nft nft nfts) ≡ some nft
unfolding get_nft put_nft
get_nft-put_nft nft [] = ground arith
get_nft-put_nft nft (x ∷ nfts) = elim (Bool-cases (x.id == nft.id)) [
  | inl hit ↦ rw hit (ground arith)
  | inr miss ↦ rw miss (rw miss (get_nft-put_nft nft nfts))
]

get_nft-put_other :
    (id : ℕ) (nft : PetMemoryNft) (nfts : List PetMemoryNft)
    → (nft.id == id) ≡ false
    → get_nft id (put_nft nft nfts) ≡ get_nft id nfts
unfolding get_nft put_nft
get_nft-put_other id nft [] e = rw e refl
get_nft-put_other id nft (x ∷ nfts) e = elim (Bool-cases (x.id == nft.id)) [
  | inl hit ↦ ground (arith, e, hit)
  | inr miss ↦ ground (arith, get_nft-put_other id nft nfts e)
]

-- A reminder is sent to the known owner of an NFT that was updated without an error.
warned-nft :
    (now : ℕ) (users : List String) (t : QueuedTask) (u : Updating)
    → task_outcome now users u t ≡ warned
    → (nft : PetMemoryNft) × (get_nft t.pet_memory_nft_id u.nfts ≡ some nft)
      × (contains u.errors nft.id ≡ false)
      × (has_user users nft.owner ≡ true)
unfolding task_outcome
warned-nft now users t u e = elim (Option-cases (get_nft t.pet_memory_nft_id u.nfts)) [
  | inl lost ↦ let e' = (rw (lost, task_outcome) at e) in ground arith
  | inr (nft, found) ↦ elim (Bool-cases (contains u.errors nft.id)) [
    | inl failed ↦ let e' = (rw (failed) at (rw (found, task_outcome) at e)) in ground arith
    | inr fresh ↦ elim (Bool-cases (has_user users nft.owner)) [
      | inl known ↦ (nft, found, fresh, known)
      | inr stranger ↦
          let e' = (rw (fresh, stranger) at (rw (found, task_outcome) at e)) in ground arith
    ]
  ]
]

outcome-frequent :
    (later : ℕ) (users : List String) (t : QueuedTask) (v : Updating) (nft : PetMemoryNft)
    → t.task_type ≡ notify_due_date
    → get_nft t.pet_memory_nft_id v.nfts ≡ some nft
    → contains v.errors nft.id ≡ false
    → has_user users nft.owner ≡ true
    → is_frequent later nft ≡ true
    → task_outcome later users v t ≡ frequent_notification
unfolding task_outcome
outcome-frequent later users t v nft d found fresh known frequent =
    rw (found, task_outcome) (rw (fresh, known, d) (rw frequent refl))

set_notified-nfts :
    (now id : ℕ) (u : Updating) (nft : PetMemoryNft)
    → get_nft id u.nfts ≡ some nft
    → set_notified now id u
      ≡ record u { nfts = put_nft (record nft { last_notified = some now }) u.nfts }
set_notified-nfts now id u nft found = rw (found, set_notified) refl

set_notified-frequent :
    (now later : ℕ) (users : List String) (t t' : QueuedTask) (u : Updating) (nft : PetMemoryNft)
    → t'.task_type ≡ notify_due_date
    → t'.pet_memory_nft_id ≡ t.pet_memory_nft_id
    → later < now + quiet_time
    → get_nft t.pet_memory_nft_id u.nfts ≡ some nft
    → contains u.errors nft.id ≡ false
    → has_user users nft.owner ≡ true
    → task_outcome later users (set_notified now t.pet_memory_nft_id u) t' ≡ frequent_notification
set_notified-frequent now later users t t' u nft d same soon found fresh known =
    let notified = record nft { last_notified = some now } in
    let id_of = get_nft-id t.pet_memory_nft_id u.nfts nft found in
    let shown : get_nft t'.pet_memory_nft_id (put_nft notified u.nfts) ≡ some notified =
      ap (λ i. get_nft i (put_nft notified u.nfts)) (same ∙ sym id_of)
      ∙ get_nft-put_nft notified u.nfts in
    rw (set_notified-nfts now t.pet_memory_nft_id u nft found) (
      outcome-frequent later users t' (record u { nfts = put_nft notified u.nfts }) notified d shown
        fresh known (ground arith))

-- An owner who has been reminded is not reminded again for the same NFT within the quiet time, by a
-- task that is processed next.
pub process_task-frequent :
    (now later : ℕ) (users : List String) (t t' : QueuedTask) (u : Updating)
    → t'.task_type ≡ notify_due_date
    → t'.pet_memory_nft_id ≡ t.pet_memory_nft_id
    → later < now + quiet_time
    → (process_task now users t u).0 ≡ warned
    → (process_task later users t' (process_task now users t u).1).0 ≡ frequent_notification
unfolding process_task task_outcome
process_task-frequent now later users t t' u d' same soon e =
    let (nft, found, fresh, known) = warned-nft now users t u e in
    rw (e, process_task)
      (set_notified-frequent now later users t t' u nft d' same soon found fresh known)

merge_all-keeps :
    (id : ℕ) (objects : List PetMemoryNft) (ids : List ℕ) (nfts : List PetMemoryNft)
    → contains ids id ≡ false
    → get_nft id (merge_all objects ids nfts) ≡ get_nft id nfts
unfolding merge_all
merge_all-keeps id objects [] nfts e = refl
merge_all-keeps id objects (i ∷ ids) nfts e = elim (Option-cases (get_nft i objects)) [
  | inl lost ↦ rw lost (merge_all-keeps id objects ids nfts (ground arith))
  | inr (nft, found) ↦
      let other = get_nft-id i objects nft found in
      rw found (
        merge_all-keeps id objects ids (put_nft nft nfts) (ground arith)
        ∙ get_nft-put_other id nft nfts (ground arith))
]

-- The stored row of an NFT that is not among the updated ones stays as it is, whatever its object
-- has become in the round: that its owner has been reminded is not stored.
pub bulk_update-keeps :
    (id : ℕ) (tasks : List QueuedTask) (u : Updating) (db : Tables)
    → contains u.nft_updates id ≡ false
    → get_nft id (bulk_update tasks u db).nfts ≡ get_nft id db.nfts
unfolding bulk_update
bulk_update-keeps id tasks u db e = merge_all-keeps id u.nfts u.nft_updates db.nfts e
