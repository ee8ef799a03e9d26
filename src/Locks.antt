-- ===== src/Locks.antt =====
-- `OperationLock` (NFTorrent/locks.py) for one key of the index: the entries of other keys are
-- never touched by it. A lock is an object of the heap, since a task keeps its lock while the index
-- may drop it.
pub mod Consistent
pub mod Exclusion
mod Tests
use nft_torrent.Base.{
  ℕ, suc, ◌+◌, ◌-◌, Bool, true, false, not, ◌&&◌, Option, none, some, List, ◌∷◌, ◌++◌, ◌≡◌, arith,
  ◌==◌, if◌then◌else◌,
}

-- An `asyncio.Lock` with the count that is kept on it
pub record Lock : Type 0 where
  pub locked : Bool
  pub ref_count : ℕ

-- The heap of locks, of which those from `next_id` on are unused, and the entry of the key
pub record Locks : Type 0 where
  pub heap : ℕ → Lock
  pub next_id : ℕ
  pub lock_index : Option ℕ

abbrev pub set_lock : ℕ → Lock → Locks → Locks
set_lock l v s = record s { heap = λ i. if i == l then v else s.heap i }

-- `self.lock.__ref_count += 1`
abbrev pub refer : ℕ → Locks → Locks
refer l s = set_lock l (record (s.heap l) { ref_count = (s.heap l).ref_count + 1 }) s

-- `__aenter__` until it waits for the lock; `none` is the LockShouldWaitError.
unfoldable pub obtain : Bool → Locks → Option (ℕ × Locks)
obtain wait s = elim s.lock_index [
  | none ↦
      let l = s.next_id in
      let created = set_lock l (record { locked = false; ref_count = 0 }) s in
      some (l, refer l (record created { next_id = suc l; lock_index = some l }))
  | some l ↦ if not wait && (s.heap l).locked then none else some (l, refer l s)
]

-- `await self.lock.acquire()`; `none` while another task has the lock
unfoldable pub acquire : ℕ → Locks → Option Locks
acquire l s =
    if (s.heap l).locked then none else some (set_lock l (record (s.heap l) { locked = true }) s)

-- `__aexit__`
unfoldable pub aexit : ℕ → Locks → Locks
aexit l s =
    let count = (s.heap l).ref_count - 1 in
    let s' = set_lock l (record { locked = false; ref_count = count }) s in
    if count == 0 then record s' { lock_index = none } else s'

-- A task outside the `async with`, in `__aenter__`, or in the body
pub data Phase : Type 0 where
  idle : Phase
  waiting : ℕ → Phase
  holding : ℕ → Phase

pub record System : Type 0 where
  pub locks : Locks
  pub tasks : List Phase

-- One task moves. The flag tells a task that is cancelled in `__aenter__`, where no `__aexit__`
-- runs.
pub data Step (s : System) : Bool → System → Type 0 where
  enter :
      (xs ys : List Phase) (wait : Bool) (l : ℕ) (locks' : Locks)
      → s.tasks ≡ xs ++ idle ∷ ys
      → obtain wait s.locks ≡ some (l, locks')
      → Step s false (record { locks = locks'; tasks = xs ++ waiting l ∷ ys })
  take_lock :
      (xs ys : List Phase) (l : ℕ) (locks' : Locks)
      → s.tasks ≡ xs ++ waiting l ∷ ys
      → acquire l s.locks ≡ some locks'
      → Step s false (record { locks = locks'; tasks = xs ++ holding l ∷ ys })
  leave :
      (xs ys : List Phase) (l : ℕ)
      → s.tasks ≡ xs ++ holding l ∷ ys
      → Step s false (record { locks = aexit l s.locks; tasks = xs ++ idle ∷ ys })
  cancel_wait :
      (xs ys : List Phase) (l : ℕ)
      → s.tasks ≡ xs ++ waiting l ∷ ys
      → Step s true (record { locks = s.locks; tasks = xs ++ idle ∷ ys })

-- The cancellations after one more move
abbrev pub cancels : Bool → ℕ → ℕ
cancels true n = n + 1
cancels false n = n

-- Any number of moves, of which the given number are cancellations
pub data Steps (s : System) : ℕ → System → Type 0 where
  here : Steps s 0 s
  next : {n : ℕ} {b : Bool} {t u : System} → Steps s n t → Step t b u → Steps s (cancels b n) u
