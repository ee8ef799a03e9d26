-- ===== src/Indexer/Etcd/Tests.antt =====
-- A cycle of a minute, with refreshes that take a second, and one that is refused.
use nft_torrent.Base.{ℕ, zero, suc, ◌≡◌, refl, true, some, List, [], ◌∷◌, arith, All}
use nft_torrent.Base.Int.{pos, negsuc}
use nft_torrent.Base.Result.{ok}
use nft_torrent.Indexer.Etcd.{
  Call, enter, try_clients, refused, etcd_failed, taken, wait_first, under_lock,
}
use nft_torrent.Indexer.Etcd.Lease.{IsQuick, IsWithin, under_lock-IsWithin}

abbrev renewal : Call
renewal = record { takes = 4; answer = some (some (pos 60) ∷ []) }

abbrev renewals : ℕ → List Call
renewals zero = []
renewals (suc n) = renewal ∷ renewals n

renewals-IsQuick : (n : ℕ) → All IsQuick (renewals n)
renewals-IsQuick zero = tt
renewals-IsQuick (suc n) = ((omega arith, omega arith), renewals-IsQuick n)

-- The first client that takes the lock
third : enter (refused ∷ etcd_failed ∷ taken ∷ []) ≡ ok 2
unfolding enter try_clients
third = refl

-- A lease that is gone stops the task.
lost :
    under_lock 1000 0 4 4
      (some (some (pos 60)))
      (record { takes = 4; answer = some (some (negsuc 0) ∷ []) } ∷ [])
    ≡ some (record { at = 192; lease = 244; failed = true })
unfolding under_lock wait_first
lost = refl

under_lock-IsWithin_example :
    IsWithin 240 (under_lock 240 0 4 4 (some (some (pos 60))) (renewals 240))
under_lock-IsWithin_example =
    under_lock-IsWithin 240 0 4 4 60 (renewals 240) (omega arith) (omega arith) (omega arith)
      (omega arith) (renewals-IsQuick 240) (omega arith)
