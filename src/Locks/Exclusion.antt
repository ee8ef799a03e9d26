-- ===== src/Locks/Exclusion.antt =====
-- Mutual exclusion of `OperationLock`, and when the index forgets a key.
use nft_torrent.Base.{
  ℕ, ◌+◌, ◌≤◌, ◌<◌, ◌≡◌, refl, ◌↔◌, Bool, true, false, Option, none, some, List, ◌∷◌, ◌++◌, arith,
  is_some, count,
}
use nft_torrent.Locks.{
  Locks, obtain, acquire, Phase, waiting, System, Step, enter, take_lock, leave, cancel_wait,
  cancels, Steps, here, next,
}
use nft_torrent.Locks.Consistent.{
  is_user, is_holder, count-middle, Uses-middle, holders_le_users, Entry, IsConsistent,
  obtain-Obtained, acquire-Acquired, aexit-IsConsistent, cancel-IsConsistent,
}

Step-IsConsistent :
    (n : ℕ) (s : System) (b : Bool) (t : System)
    → Step s b t
    → IsConsistent n s.locks s.tasks
    → IsConsistent (cancels b n) t.locks t.tasks
Step-IsConsistent n s b t (enter xs ys wait l locks' f e) h =
    let k = obtain-Obtained n s.locks xs ys wait s.locks.lock_index refl (rw f at h) in rw e at k
Step-IsConsistent n s b t (take_lock xs ys l locks' f e) h =
    let k = acquire-Acquired n s.locks xs ys l s.locks.lock_index refl (rw f at h) in rw e at k
Step-IsConsistent n s b t (leave xs ys l f) h =
    aexit-IsConsistent n s.locks xs ys l s.locks.lock_index refl (rw f at h)
Step-IsConsistent n s b t (cancel_wait xs ys l f) h =
    cancel-IsConsistent n s.locks xs ys l s.locks.lock_index (rw f at h)

-- The key is not in the index, and no task uses its lock.
abbrev pub IsInitial : System → Type 0
IsInitial s = (s.locks.lock_index ≡ none) × (count is_user s.tasks ≡ 0)

Steps-IsConsistent :
    (s : System) → IsInitial s → {n : ℕ} {t : System} → Steps s n t → IsConsistent n t.locks t.tasks
Steps-IsConsistent s i here = rw (i.0) (omega (arith, i.1))
Steps-IsConsistent s i (next r st) = Step-IsConsistent _ _ _ _ st (Steps-IsConsistent s i r)

consistent-cases :
    (n : ℕ) (s : Locks) (tasks : List Phase) (o : Option ℕ)
    → s.lock_index ≡ o
    → Entry n s.heap tasks o
    → (count is_holder tasks ≤ 1)
      × ((is_some s.lock_index ≡ true) ↔ (0 < count is_user tasks + n))
      × ((obtain false s ≡ none) ↔ (0 < count is_holder tasks))
unfolding obtain
consistent-cases n s tasks none e h = rw e (ground (arith, holders_le_users tasks))
consistent-cases n s tasks (some l) e h = rw e (ground arith)

-- From a state in which the key is not in the index, and however the tasks enter, take the lock,
-- leave and are cancelled while they wait: at most one of them holds the lock; the key is in the
-- index exactly when a task uses its lock or one has been cancelled while it waited; and a task
-- that does not want to wait is refused exactly when another one holds the lock.
pub Steps-exclusion :
    (n : ℕ) (s t : System)
    → IsInitial s
    → Steps s n t
    → (count is_holder t.tasks ≤ 1)
      × ((is_some t.locks.lock_index ≡ true) ↔ (0 < count is_user t.tasks + n))
      × ((obtain false t.locks ≡ none) ↔ (0 < count is_holder t.tasks))
Steps-exclusion n s t i r =
    consistent-cases n t.locks t.tasks t.locks.lock_index refl (Steps-IsConsistent s i r)

progress-cases :
    (n : ℕ) (s : Locks) (xs ys : List Phase) (l : ℕ) (o : Option ℕ)
    → Entry n s.heap (xs ++ waiting l ∷ ys) o
    → count is_holder (xs ++ waiting l ∷ ys) ≡ 0
    → is_some (acquire l s) ≡ true
unfolding acquire
progress-cases n s xs ys l none h z = absurd (omega (arith, count-middle is_user xs ys (waiting l)))
progress-cases n s xs ys l (some i) h z =
    let same = Uses-middle i xs ys (waiting l) h.3 in ground arith

-- From a state in which the key is not in the index, however the tasks go on: while no task holds
-- the lock, each task that waits can take it.
pub Steps-progress :
    (n : ℕ) (s t : System) (xs ys : List Phase) (l : ℕ)
    → IsInitial s
    → Steps s n t
    → t.tasks ≡ xs ++ waiting l ∷ ys
    → count is_holder t.tasks ≡ 0
    → is_some (acquire l t.locks) ≡ true
Steps-progress n s t xs ys l i r f z =
    let h = Steps-IsConsistent s i r in
    progress-cases n t.locks xs ys l t.locks.lock_index (rw f at h) (rw f at z)
