-- ===== src/Indexer/Update/Changes.antt =====
-- What `_nft_update` leaves of an NFT, and which tasks it schedules.
use nft_torrent.Base.{
  ℕ, ◌+◌, ◌≤◌, ◌<◌, ◌≡◌, refl, ap, ◌↔◌, false, ◌||◌, none, some, List, [], ◌∷◌, ◌++◌, arith, ltb,
  if◌then◌else◌, ◌⊎◌,
}
use mathlib.Core.List.{append-nil}
use nft_torrent.Indexer.Nft.{
  PetMemoryNft, notify_due_date, NftTaskQueue, warn_offset, expired_offset, text_differs, differs,
  text_differs_iff, differs_iff,
}
use nft_torrent.Indexer.Update.{
  Flags, changes, task, due_task_time, due_time, update_tasks, due_tasks, take_over, nft_update,
}

-- The six mutable attributes agree.
pub record SameAttributes (a b : PetMemoryNft) : Type 0 where
  pub owner : a.owner ≡ b.owner
  pub uri : a.uri ≡ b.uri
  pub image : a.image ≡ b.image
  pub image_data : a.image_data ≡ b.image_data
  pub fee_due_time : a.fee_due_time ≡ b.fee_due_time
  pub description : a.description ≡ b.description

take_over-SameAttributes :
    (now : ℕ) (f : Flags) (nft new_nft : PetMemoryNft)
    → SameAttributes (take_over now f nft new_nft) new_nft
unfolding take_over
take_over-SameAttributes now f nft new_nft = record {
  owner = ground (arith, text_differs_iff nft.owner new_nft.owner);
  uri = ground (arith, differs_iff nft.uri new_nft.uri);
  image = ground (arith, differs_iff nft.image new_nft.image);
  image_data = ground (arith, differs_iff nft.image_data new_nft.image_data);
  fee_due_time = ground arith;
  description = ground (arith, differs_iff nft.description new_nft.description);
}

-- The row is unchanged by the comparison: it was not deleted and agrees with the new state.
abbrev pub IsSame : PetMemoryNft → PetMemoryNft → Type 0
IsSame nft new_nft = (nft.deleted_time ≡ none) × SameAttributes nft new_nft

same-changes :
    (nft new_nft : PetMemoryNft) → IsSame nft new_nft → (changes nft new_nft).updated ≡ false
unfolding changes
same-changes nft new_nft (alive, h) = ground (
  arith,
  (text_differs_iff nft.owner new_nft.owner).1 h.owner,
  (differs_iff nft.uri new_nft.uri).1 h.uri,
  (differs_iff nft.image new_nft.image).1 h.image,
  (differs_iff nft.image_data new_nft.image_data).1 h.image_data,
  (differs_iff nft.description new_nft.description).1 h.description,
  h.fee_due_time,
)

changes-IsSame :
    (nft new_nft : PetMemoryNft) → (changes nft new_nft).updated ≡ false → IsSame nft new_nft
unfolding changes
changes-IsSame nft new_nft h = (
  ground arith,
  record {
    owner = ground (arith, text_differs_iff nft.owner new_nft.owner);
    uri = ground (arith, differs_iff nft.uri new_nft.uri);
    image = ground (arith, differs_iff nft.image new_nft.image);
    image_data = ground (arith, differs_iff nft.image_data new_nft.image_data);
    fee_due_time = ground arith;
    description = ground (arith, differs_iff nft.description new_nft.description);
  },
)

changes-transfered :
    (nft new_nft : PetMemoryNft)
    → (changes nft new_nft).transfered ≡ text_differs nft.owner new_nft.owner
unfolding changes
changes-transfered nft new_nft = ground arith

changes-image :
    (nft new_nft : PetMemoryNft)
    → (changes nft new_nft).image_updated
      ≡ (differs nft.image new_nft.image || differs nft.image_data new_nft.image_data)
unfolding changes
changes-image nft new_nft = ground arith

-- After the update the row is not deleted and has the attributes of the new state. It is flagged as
-- updated unless it was not deleted and had them all before, as transferred exactly if the owner
-- was another, and as having a new image exactly if the image or its data was another.
pub nft_update-SameAttributes :
    (now : ℕ) (nft new_nft : PetMemoryNft) (tasks : List NftTaskQueue)
    → let nft' = (nft_update now nft new_nft tasks).0 in
      SameAttributes nft' new_nft
      × (nft'.deleted_time ≡ none)
      × ((nft'.nft_updated ≡ some false) ↔ IsSame nft new_nft)
      × ((nft'.nft_transfered ≡ some false) ↔ (nft.owner ≡ new_nft.owner))
      × ((nft'.nft_image_updated ≡ some false)
          ↔ ((nft.image ≡ new_nft.image) × (nft.image_data ≡ new_nft.image_data)))
unfolding nft_update
nft_update-SameAttributes now nft new_nft tasks = (
  take_over-SameAttributes now (changes nft new_nft) nft new_nft,
  refl,
  ((λ e. changes-IsSame nft new_nft (cc)), (λ h. ap some (same-changes nft new_nft h))),
  (
    (λ e. ground (arith, changes-transfered nft new_nft, text_differs_iff nft.owner new_nft.owner)),
    (λ h. ground (arith, changes-transfered nft new_nft, text_differs_iff nft.owner new_nft.owner)),
  ),
  (
    (λ e. ground (
      arith,
      changes-image nft new_nft,
      differs_iff nft.image new_nft.image,
      differs_iff nft.image_data new_nft.image_data,
    )),
    (λ h. ground (
      arith,
      changes-image nft new_nft,
      differs_iff nft.image new_nft.image,
      differs_iff nft.image_data new_nft.image_data,
    )),
  ),
)

pub nft_update-error_code :
    (now : ℕ) (nft new_nft : PetMemoryNft) (tasks : List NftTaskQueue)
    → (nft_update now nft new_nft tasks).0.error_code ≡ nft.error_code
unfolding nft_update take_over
nft_update-error_code now nft new_nft tasks = refl

update_tasks_quiet :
    (now : ℕ) (f : Flags) (nft : PetMemoryNft) → f.updated ≡ false → update_tasks now f nft ≡ []
unfolding update_tasks
update_tasks_quiet now f nft e = rw e

take_over_same :
    (now later : ℕ) (f g : Flags) (nft new_nft : PetMemoryNft)
    → g.updated ≡ false
    → (take_over later g (take_over now f nft new_nft) new_nft).updated_time
      ≡ (take_over now f nft new_nft).updated_time
unfolding take_over
take_over_same now later f g nft new_nft e = ground arith

-- Updating a row again with the same state announces nothing: the row keeps its time of update, is
-- not flagged as updated, and the only task that is added is the reminder of the due time, if that
-- lies ahead.
pub nft_update_twice :
    (now later : ℕ) (nft new_nft : PetMemoryNft) (tasks others : List NftTaskQueue)
    → let once = (nft_update now nft new_nft tasks).0 in
      let (twice, tasks') = nft_update later once new_nft others in
      (twice.nft_updated ≡ some false)
      × (twice.updated_time ≡ once.updated_time)
      × (tasks' ≡ others ++ due_tasks later twice)
unfolding nft_update
nft_update_twice now later nft new_nft tasks others =
    let f = changes nft new_nft in
    let once = take_over now f nft new_nft in
    let quiet : (changes once new_nft).updated ≡ false =
      same-changes once new_nft (refl, take_over-SameAttributes now f nft new_nft) in
    (
      ap some quiet,
      take_over_same now later f (changes once new_nft) nft new_nft quiet,
      rw
          (update_tasks_quiet later (changes once new_nft)
            (take_over later (changes once new_nft) once new_nft) quiet)
          (rw append-nil),
    )

-- The reminder of a due time that lies ahead is scheduled ten days before it, which is still ahead,
-- or one day before it if fewer than ten days are left; none is scheduled for a due time that has
-- passed.
pub due_tasks_reminder :
    (now : ℕ) (nft : PetMemoryNft)
    → expired_offset ≤ due_time nft
    → let t = due_task_time now (due_time nft) in
      due_tasks now nft ≡ (if ltb now (due_time nft) then task notify_due_date t nft ∷ [] else [])
      × ((t + warn_offset ≡ due_time nft) × (now < t)
          ⊎ ((t + expired_offset ≡ due_time nft) × (due_time nft ≤ now + warn_offset)))
unfolding due_tasks due_task_time
due_tasks_reminder now nft h = (refl, ground arith)
