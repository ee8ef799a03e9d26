-- ===== src/Indexer/Etcd.antt =====
-- The lock of etcd under which one node indexes a collection or polls the bot: EtcdPoolLock, and
-- the wait for its child tasks in nft_indexer and bot_polling, of NFTorrent/indexer/indexdb.py.
-- Times are in quarters of a second, since the lock is refreshed after three quarters of its time
-- to live. The answers of etcd, with the time that they take, are parameters.
pub mod Lease
mod Tests
use nft_torrent.Base.{
  ℕ, suc, ◌+◌, ◌*◌, Bool, true, false, Option, none, some, List, [], ◌∷◌, leb, if◌then◌else◌,
}
use nft_torrent.Base.Int.{ℤ, pos, negsuc}
use nft_torrent.Base.Result.{Result, ok, err, ◌>>=◌, ◌>>◌, raise_if}

-- The EtcdLockErrors with their texts, an Etcd3Exception, another exception, and the error of a
-- product with `None`
pub data LockError : Type 0 where
  no_clients unable_to_acquire not_acquired refresh_failed : LockError
  etcd_exception other_exception type_error : LockError

-- One client in `__enter__`: whether `lock.acquire()` takes the lock, or what is raised
pub data Acquired : Type 0 where
  taken refused etcd_failed other_failed : Acquired

-- The clients in their order; the lock of the first one that takes it
unfoldable pub try_clients : ℕ → List Acquired → Result LockError ℕ
try_clients i [] = err unable_to_acquire
try_clients i (taken ∷ clients) = ok i
try_clients i (refused ∷ clients) = try_clients (suc i) clients
try_clients i (etcd_failed ∷ clients) = try_clients (suc i) clients
try_clients i (other_failed ∷ clients) = err other_exception

-- `__enter__`, with the number of the client that holds the lock
pub enter : List Acquired → Result LockError ℕ
enter [] = err no_clients
enter (client ∷ clients) = try_clients 0 (client ∷ clients)

-- `lock.refresh()`: the times to live in the answer, or `none` for an Etcd3Exception
abbrev pub refreshed : Option (List (Option ℤ)) → Result LockError ℕ
refreshed none = err etcd_exception
refreshed (some []) = err refresh_failed
refreshed (some (none ∷ leases)) = err refresh_failed
refreshed (some (some (negsuc n) ∷ leases)) = err refresh_failed
refreshed (some (some (pos ttl) ∷ leases)) = if leb ttl 0 then err refresh_failed else ok ttl

-- `refresh`, of a lock that may not be acquired
pub refresh : Option ℕ → Option (List (Option ℤ)) → Result LockError ℕ
refresh none answer = err not_acquired
refresh (some client) answer = refreshed answer

-- The time to live in `lease_info`, as it is used in a product
abbrev pub lease_ttl : Option (Option ℤ) → Result LockError ℤ
lease_ttl none = err etcd_exception
lease_ttl (some none) = err type_error
lease_ttl (some (some ttl)) = ok ttl

-- `ttl * 0.75`, where a negative time does not wait
abbrev pub sleep_time : ℤ → ℕ
sleep_time (pos ttl) = 3 * ttl
sleep_time (negsuc n) = 0

-- How long a lease lasts
abbrev pub lease_time : ℤ → ℕ
lease_time (pos ttl) = 4 * ttl
lease_time (negsuc n) = 0

-- A refresh: how long it takes, and the answer
pub record Call : Type 0 where
  pub takes : ℕ
  pub answer : Option (List (Option ℤ))

-- `refresh_loop` before it sleeps: the time, the time to live, and until when etcd keeps the lease
pub record LoopState : Type 0 where
  pub now : ℕ
  pub ttl : ℤ
  pub lease : ℕ

-- How the wait ends: when the child task stops, until when etcd keeps the lease at that time, and
-- whether the refresh has failed
pub record Ended : Type 0 where
  pub at : ℕ
  pub lease : ℕ
  pub failed : Bool

-- `asyncio.wait` for a child task that would finish at the given time, and `refresh_loop`: the
-- first one to end ends both. `none` where the answers are used up.
unfoldable pub wait_first : ℕ → LoopState → List Call → Option Ended
wait_first finish s [] = none
wait_first finish s (call ∷ calls) =
    let wake = s.now + sleep_time s.ttl in
    let ends = wake + call.takes in
    if leb finish ends
    then some (record { at = finish; lease = s.lease; failed = false })
    else elim (refreshed call.answer) [
      | err e ↦ some (record { at = ends; lease = s.lease; failed = true })
      | ok ttl ↦
          wait_first finish (record { now = ends; ttl = pos ttl; lease = wake + 4 * ttl }) calls
    ]

-- `etcd_lock_ttl_sec`
abbrev pub lock_ttl : ℕ
lock_ttl = 60

-- The lock was asked for at one time and taken at another one. The loop first asks for the time to
-- live.
unfoldable pub under_lock : ℕ → ℕ → ℕ → ℕ → Option (Option ℤ) → List Call → Option Ended
under_lock finish asked acquired takes info calls =
    if leb finish (acquired + takes)
    then some (record { at = finish; lease = asked + 4 * lock_ttl; failed = false })
    else elim (lease_ttl info) [
      | err e ↦ some (record { at = acquired + takes; lease = asked + 4 * lock_ttl; failed = true })
      | ok ttl ↦
          wait_first finish
            (record { now = acquired + takes; ttl = ttl; lease = acquired + lease_time ttl }) calls
    ]
