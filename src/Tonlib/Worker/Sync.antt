-- ===== src/Tonlib/Worker/Sync.antt =====
-- The synchronisation of a worker process ends.
use nft_torrent.Base.{
  ℕ, zero, suc, ◌+◌, ◌*◌, ◌≤◌, ◌<◌, ◌≡◌, refl, true, Option, arith, leb, inl, inr, Bool-cases,
  is_some,
}
use nft_torrent.Base.Result.{Result, ok, err}
use nft_torrent.Tonlib.Worker.{
  Exception, is_tonlib, retry_timeout, Attempts, SyncError, retry, after_attempt, sync_loop,
}

retry-ends :
    {A : Type 0} (deadline now : ℕ) (e : Exception) (again : Option (Result SyncError (Option A)))
    → (now < deadline → is_some again ≡ true)
    → is_some (retry deadline now e again) ≡ true
retry-ends deadline now e again h = elim (Bool-cases (is_tonlib e)) [
  | inr other ↦ rw other refl
  | inl tonlib ↦ elim (Bool-cases (leb deadline now)) [
    | inl late ↦ rw (tonlib, late) refl
    | inr early ↦ rw (tonlib, early) (h (ground arith))
  ]
]

after_attempt-ends :
    {A : Type 0} (deadline now : ℕ) (r : Result Exception A)
    (again : Option (Result SyncError (Option A)))
    → (now < deadline → is_some again ≡ true)
    → is_some (after_attempt deadline now r again) ≡ true
after_attempt-ends deadline now (ok a) again h = refl
after_attempt-ends deadline now (err e) again h = retry-ends deadline now e again h

sync_loop-ends :
    {A : Type 0} (calls : Attempts A) (deadline fuel i now : ℕ)
    → deadline + retry_timeout ≤ now + fuel * retry_timeout
    → 0 < fuel
    → is_some (sync_loop calls deadline fuel i now) ≡ true
unfolding sync_loop
sync_loop-ends calls deadline zero i now h p = ground arith
sync_loop-ends calls deadline (suc fuel) i now h p = elim (Bool-cases (calls.exits i)) [
  | inl leaves ↦ rw (leaves, sync_loop) refl
  | inr stays ↦
      rw (stays, sync_loop)
        (after_attempt-ends deadline (now + calls.duration i) (calls.answer i) _ (λ early.
          sync_loop-ends calls deadline fuel (i + 1) (now + calls.duration i + retry_timeout)
            (ground arith) (ground arith)))
]

-- Whatever the client answers, and however long it takes, the synchronisation ends: it is given
-- up, at the latest, by the first attempt that fails after the deadline, of which there is one
-- among as many attempts as the timeout has seconds, and one more.
pub sync_loop_ends :
    {A : Type 0} (calls : Attempts A) (sync_timeout now : ℕ)
    → is_some (sync_loop calls (now + sync_timeout * retry_timeout) (sync_timeout + 1) 0 now) ≡ true
sync_loop_ends calls sync_timeout now =
    sync_loop-ends calls (now + sync_timeout * retry_timeout) (sync_timeout + 1) 0 now
      (ground arith) (ground arith)
