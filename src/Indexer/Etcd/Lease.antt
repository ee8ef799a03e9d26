-- ===== src/Indexer/Etcd/Lease.antt =====
-- The child task under the lock of etcd stops before the lease of the lock ends: nft_indexer and
-- bot_polling of NFTorrent/indexer/indexdb.py.
use nft_torrent.Base.{
  ℕ, ◌+◌, ◌*◌, ◌≤◌, ◌<◌, ◌≡◌, refl, true, false, Option, some, List, [], ◌∷◌, arith, leb, All,
  length, Bool-cases, inl, inr,
}
use nft_torrent.Base.Int.{pos}
use nft_torrent.Base.Result.{Result, ok, err, Result-cases}
use nft_torrent.Indexer.Etcd.{LockError, refreshed, Call, Ended, wait_first, lock_ttl, under_lock}

-- The time to live after a refresh, if it succeeds
abbrev pub IsLong : Result LockError ℕ → Type 0
IsLong (err e) = Unit {0}
IsLong (ok ttl) = 40 < ttl

-- The call ends within five seconds, and a lease that it renews lives for more than 40 seconds.
abbrev pub IsQuick : Call → Type 0
IsQuick call = (call.takes ≤ 20) × IsLong (refreshed call.answer)

-- The child task stops, before the lease ends, and no later than it would by itself.
abbrev pub IsWithin : ℕ → Option Ended → Type 0
IsWithin finish r = (e : Ended) × (r ≡ some e) × (e.at < e.lease) × (e.at ≤ finish)

wait_first-IsWithin :
    (finish : ℕ) (calls : List Call) (now ttl lease : ℕ)
    → All IsQuick calls
    → 0 < ttl
    → now + 3 * ttl + 20 < lease
    → now ≤ finish
    → finish < now + length calls
    → IsWithin finish (wait_first finish (record { now = now; ttl = pos ttl; lease = lease }) calls)
unfolding wait_first
wait_first-IsWithin finish [] now ttl lease quick live ahead begun more = absurd (omega arith)
wait_first-IsWithin finish (call ∷ calls) now ttl lease quick live ahead begun more =
    elim (Bool-cases (leb finish (now + 3 * ttl + call.takes))) [
      | inl done ↦
          rw done
            (record { at = finish; lease = lease; failed = false }, refl, ground arith, omega arith)
      | inr busy ↦ elim (Result-cases (refreshed call.answer)) [
        | inl (ttl', e) ↦
            let long : 40 < ttl' = rw e at quick.0.1 in
            rw (busy, e)
              (wait_first-IsWithin finish calls (now + 3 * ttl + call.takes) ttl'
                (now + 3 * ttl + 4 * ttl') quick.1 (omega arith) (omega (arith, quick.0.0))
                (ground arith) (omega arith))
        | inr (x, e) ↦
            rw (busy, e)
              (
                record { at = now + 3 * ttl + call.takes; lease = lease; failed = true },
                refl,
                omega (arith, quick.0.0),
                ground arith,
              )
      ]
    ]

-- The lock was taken at most five seconds after it was asked for, etcd answers each call within
-- five seconds, and the time to live is above 40 seconds in each answer that has one. Then the
-- child task stops, at its own end or when a refresh has failed, and it does so before the lease of
-- the lock ends. The wait needs no more refreshes than quarters of a second that the task would
-- last.
pub under_lock-IsWithin :
    (finish asked acquired takes ttl : ℕ) (calls : List Call)
    → asked ≤ acquired
    → acquired ≤ asked + 20
    → takes ≤ 20
    → 40 < ttl
    → All IsQuick calls
    → finish < acquired + length calls
    → IsWithin finish (under_lock finish asked acquired takes (some (some (pos ttl))) calls)
unfolding under_lock
under_lock-IsWithin finish asked acquired takes ttl calls before soon quick long all_quick more =
    elim (Bool-cases (leb finish (acquired + takes))) [
      | inl done ↦ rw done (
        record { at = finish; lease = asked + 4 * lock_ttl; failed = false },
        refl,
        ground arith,
        omega arith,
      )
      | inr busy ↦ rw busy (
          wait_first-IsWithin finish calls (acquired + takes) ttl (acquired + 4 * ttl) all_quick
            (omega arith) (omega arith) (ground arith) (omega arith))
    ]
