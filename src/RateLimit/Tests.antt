-- ===== src/RateLimit/Tests.antt =====
-- Rate limits on concrete times.
use nft_torrent.Base.{
  ℕ, zero, suc, ◌+◌, ◌-◌, ◌*◌, ◌≤◌, ◌≡◌, refl, true, none, some, [], ◌∷◌, arith, is_some,
}
use nft_torrent.RateLimit.{
  one_token, TokenBucket, UniformLimit, new_bucket, refill, acquire_token, wait_token, delay,
  release_uniform,
}
use nft_torrent.RateLimit.Bucket.{Grants, grant, Grants-burst, acquire_token_sleeps}
use nft_torrent.RateLimit.Uniform.{Calls, passes, sleeps, wakes, releases, IsSpaced, Calls-IsSpaced}

-- Two tokens a second, and one at once
abbrev slow : TokenBucket
slow = record { rate_limit = 2; burst_size = 1; tokens = 1000; last_refill = 0; permits = 1 }

abbrev clock : ℕ → ℕ
clock i = 600 + i

abbrev emptied : TokenBucket
emptied = record slow { tokens = 0; last_refill = 100 }

abbrev refilled : TokenBucket
refilled = record slow { tokens = 0; last_refill = 600 }

two-Grants : Grants (new_bucket 2 (some 1) none 0) 2 refilled
unfolding new_bucket acquire_token wait_token refill
two-Grants =
    grant {c = emptied} clock 3 100
      (grant {c = slow} clock 3 100 Grants.here (omega arith) (omega arith) (λ j. omega arith) refl)
      (omega arith) (omega arith) (λ j. omega arith) refl

Grants-burst_example :
    2 * one_token
    ≤ (new_bucket 2 (some 1) none 0).burst_size * one_token + (refilled.last_refill - 0) * 2
Grants-burst_example = Grants-burst 2 (some 1) none 0 2 refilled two-Grants

acquire_token_sleeps_example : is_some (acquire_token clock (suc (suc zero)) 100 emptied) ≡ true
unfolding refill
acquire_token_sleeps_example = acquire_token_sleeps clock 0 100 emptied (omega arith) (omega arith)

abbrev each_second : UniformLimit
each_second = record { interval = 1000; delay_until = 5 }

two_calls :
    Calls 5 each_second
      (1010 ∷ 7 ∷ [])
      1010
      none
      (delay 1010 (release_uniform 500 (delay 7 each_second)))
unfolding delay release_uniform
two_calls =
    wakes 1010 1007
      (releases 500 (sleeps 20 1007 (passes 7 Calls.here (omega arith) refl) (omega arith) refl)
        (omega arith))
      (omega arith) (omega arith)

Calls-IsSpaced_example : IsSpaced 1000 (1010 ∷ 7 ∷ [])
Calls-IsSpaced_example =
    Calls-IsSpaced 5 each_second (1010 ∷ 7 ∷ []) 1010 none
      (delay 1010 (release_uniform 500 (delay 7 each_second))) two_calls
