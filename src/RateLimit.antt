-- ===== src/RateLimit.antt =====
-- The rate limits of NFTorrent/ratelimit.py. Times are in milliseconds of the monotonic clock, and
-- tokens in thousandths, so that a limit of so many tokens a second adds as many thousandths in a
-- millisecond. When a sleep ends is a parameter.
pub mod Bucket
pub mod Uniform
mod Tests
use nft_torrent.Base.{
  ℕ, zero, suc, ◌+◌, ◌-◌, ◌*◌, min, max, Bool, true, false, Option, none, some, ltb, leb, ◌==◌,
  if◌then◌else◌,
}

abbrev pub one_token : ℕ
one_token = 1000

-- TokenBucketRateLimit: `tokens` is `_tokens`, and `permits` the value of the semaphore `_pending`
pub record TokenBucket : Type 0 where
  pub rate_limit : ℕ
  pub burst_size : ℕ
  pub tokens : ℕ
  pub last_refill : ℕ
  pub permits : ℕ

-- `a or b` for a number that may be None
abbrev pub or_default : Option ℕ → ℕ → ℕ
or_default none b = b
or_default (some a) b = if a == 0 then b else a

unfoldable pub new_bucket : ℕ → Option ℕ → Option ℕ → ℕ → TokenBucket
new_bucket rate_limit burst_size max_pending now =
    let burst = or_default burst_size (max rate_limit 1) in
    record {
      rate_limit = rate_limit;
      burst_size = burst;
      tokens = burst * one_token;
      last_refill = now;
      permits = or_default max_pending burst;
    }

unfoldable pub refill : ℕ → TokenBucket → TokenBucket
refill now b = record b {
  tokens = min (b.burst_size * one_token) (b.tokens + (now - b.last_refill) * b.rate_limit);
  last_refill = now;
}

-- The loop of `acquire`, which sleeps until there is a token: the time after each of its sleeps is
-- given. On fuel; a loop that runs out of it is `none`.
unfoldable pub wait_token : (ℕ → ℕ) → ℕ → ℕ → TokenBucket → Option TokenBucket
wait_token clock zero i b = none
wait_token clock (suc fuel) i b =
    let again = wait_token clock fuel (i + 1) (refill (clock i) b) in
    if leb one_token b.tokens then some b else again

abbrev pub take_token : Option TokenBucket → Option TokenBucket
take_token none = none
take_token (some b) = some (record b { tokens = b.tokens - one_token })

-- `acquire` after its permit, under the lock
unfoldable pub acquire_token : (ℕ → ℕ) → ℕ → ℕ → TokenBucket → Option TokenBucket
acquire_token clock fuel now b = take_token (wait_token clock fuel 0 (refill now b))

-- UniformRateLimit, with `_delay_until`
pub record UniformLimit : Type 0 where
  pub interval : ℕ
  pub delay_until : ℕ

-- `acquire` under the lock, up to its sleep: the time until which it sleeps, if it does, and after
-- it
abbrev pub sleep_until : ℕ → UniformLimit → Option ℕ
sleep_until now u = if ltb now u.delay_until then some u.delay_until else none

unfoldable pub delay : ℕ → UniformLimit → UniformLimit
delay now u = record u { delay_until = now + u.interval }

-- `release`, which does not take the lock
unfoldable pub release_uniform : ℕ → UniformLimit → UniformLimit
release_uniform now u = delay now u
