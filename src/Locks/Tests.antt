-- ===== src/Locks/Tests.antt =====
-- Two tasks on one key, of which one is cancelled while it waits.
use nft_torrent.Base.{
  ◌+◌, ◌≤◌, ◌<◌, ◌≡◌, ◌↔◌, refl, true, false, none, some, [], ◌∷◌, is_some, count, ◌==◌,
  if◌then◌else◌,
}
use nft_torrent.Locks.{
  Locks, obtain, acquire, idle, waiting, System, enter, cancel_wait, Steps, here, next,
}
use nft_torrent.Locks.Consistent.{is_user, is_holder}
use nft_torrent.Locks.Exclusion.{Steps-exclusion, Steps-progress}

abbrev unused : Locks
unused = record {
  heap = λ i. record { locked = false; ref_count = 0 };
  next_id = 0;
  lock_index = none;
}

abbrev start : System
start = record { locks = unused; tasks = idle ∷ idle ∷ [] }

abbrev one_entered : System
one_entered = record {
  locks = record {
    heap = λ i.
        if i == 0
        then record { locked = false; ref_count = 1 }
        else if i == 0
        then record { locked = false; ref_count = 0 }
        else unused.heap i;
    next_id = 1;
    lock_index = some 0;
  };
  tasks = waiting 0 ∷ idle ∷ [];
}

-- The first task enters and gives up.
abbrev gave_up : Steps start 1 (record one_entered { tasks = idle ∷ idle ∷ [] })
unfolding obtain
gave_up =
    next (next here (enter [] (idle ∷ []) true 0 one_entered.locks refl refl))
      (cancel_wait [] (idle ∷ []) 0 refl)

Steps-exclusion_example :
    let t = record one_entered { tasks = idle ∷ idle ∷ [] } in
    (count is_holder t.tasks ≤ 1)
    × ((is_some t.locks.lock_index ≡ true) ↔ (0 < count is_user t.tasks + 1))
    × ((obtain false t.locks ≡ none) ↔ (0 < count is_holder t.tasks))
Steps-exclusion_example =
    Steps-exclusion 1 start (record one_entered { tasks = idle ∷ idle ∷ [] }) (refl, refl) gave_up

Steps-progress_example : is_some (acquire 0 one_entered.locks) ≡ true
unfolding obtain
Steps-progress_example =
    Steps-progress 0 start one_entered [] (idle ∷ []) 0 (refl, refl)
      (next here (enter [] (idle ∷ []) true 0 one_entered.locks refl refl)) refl refl
