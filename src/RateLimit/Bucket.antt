-- ===== src/RateLimit/Bucket.antt =====
-- How many tokens a bucket gives: TokenBucketRateLimit of NFTorrent/ratelimit.py.
use nft_torrent.Base.{
  ℕ, zero, suc, ◌+◌, ◌-◌, ◌*◌, ◌≤◌, ◌≡◌, refl, ◌∙◌, true, Option, some, arith, leb, inl, inr,
  Bool-cases, Option-cases, is_some,
}
use mathlib.Core.Path.{subst}
use nft_torrent.RateLimit.{one_token, TokenBucket, refill, wait_token, acquire_token, new_bucket}

-- What the bucket earns between two times
abbrev pub earned : ℕ → ℕ → ℕ → ℕ
earned rate from to = (to - from) * rate

earned_add : (rate a b c : ℕ) → a ≤ b → b ≤ c → earned rate a b + earned rate b c ≡ earned rate a c
earned_add rate a b c h k = grind arith

-- The bucket has earned no more than the time since the other one allows.
abbrev pub IsEarned : TokenBucket → TokenBucket → ℕ → Type 0
IsEarned b c spent =
    (b.last_refill ≤ c.last_refill)
    × (c.rate_limit ≡ b.rate_limit)
    × (c.burst_size ≡ b.burst_size)
    × (c.tokens + spent ≤ b.tokens + earned b.rate_limit b.last_refill c.last_refill)

refill-IsEarned : (now : ℕ) (b : TokenBucket) → b.last_refill ≤ now → IsEarned b (refill now b) 0
unfolding refill
refill-IsEarned now b h = (h, refl, refl, ground arith)

IsEarned-trans :
    (b c d : TokenBucket) (m n : ℕ) → IsEarned b c m → IsEarned c d n → IsEarned b d (m + n)
IsEarned-trans b c d m n (l, r, s, e) (l', r', s', e') =
    let sum = earned_add b.rate_limit b.last_refill c.last_refill d.last_refill l l' in
    let e'' = (rw r at e') in (omega arith, r' ∙ r, s' ∙ s, omega arith)

wait_token-IsEarned :
    (clock : ℕ → ℕ) (fuel i : ℕ) (b c : TokenBucket)
    → b.last_refill ≤ clock i
    → ((j : ℕ) → clock j ≤ clock (j + 1))
    → wait_token clock fuel i b ≡ some c
    → IsEarned b c 0 × (one_token ≤ c.tokens)
unfolding wait_token refill
wait_token-IsEarned clock zero i b c h later e = ground arith
wait_token-IsEarned clock (suc fuel) i b c h later e = elim (Bool-cases (leb one_token b.tokens)) [
  | inl enough ↦
      let same : b ≡ c = (let e' = (rw (enough, wait_token) at e) in ground arith) in
      subst (λ x. IsEarned b x 0 × (one_token ≤ x.tokens)) same
        ((omega arith, refl, refl, ground arith), ground arith)
  | inr short ↦
      let again = (rw (short, wait_token) at e) in
      let (earned_later, full) =
        wait_token-IsEarned clock fuel (i + 1) (refill (clock i) b) c (later i) later again in
      (
        IsEarned-trans b (refill (clock i) b) c 0 0 (refill-IsEarned (clock i) b h) earned_later,
        full,
      )
]

spent_token :
    (w : TokenBucket)
    → one_token ≤ w.tokens
    → IsEarned w (record w { tokens = w.tokens - one_token }) one_token
spent_token w h = (omega arith, refl, refl, ground arith)

-- Tokens that are taken one after the other: the number of them. The clock does not go back.
pub data Grants (b : TokenBucket) : ℕ → TokenBucket → Type 0 where
  here : Grants b 0 b
  grant :
      {n : ℕ} {c d : TokenBucket} (clock : ℕ → ℕ) (fuel now : ℕ)
      → Grants b n c
      → c.last_refill ≤ now
      → now ≤ clock 0
      → ((j : ℕ) → clock j ≤ clock (j + 1))
      → acquire_token clock fuel now c ≡ some d
      → Grants b (suc n) d

Grants-IsEarned :
    (b : TokenBucket) (n : ℕ) (c : TokenBucket) → Grants b n c → IsEarned b c (n * one_token)
unfolding acquire_token refill
Grants-IsEarned b n c here = (omega arith, refl, refl, ground arith)
Grants-IsEarned b m d (grant {n = n} {c = c} clock fuel now g l k later e) =
    elim (Option-cases (wait_token clock fuel 0 (refill now c))) [
      | inl never ↦ (let e' = (rw (never, acquire_token) at e) in ground arith)
      | inr (w, waits) ↦
          let e' = (rw (waits, acquire_token) at e) in
          let same : record w { tokens = w.tokens - one_token } ≡ d = ground arith in
          let (paid, full) = wait_token-IsEarned clock fuel 0 (refill now c) w k later waits in
          let taken = subst (λ x. IsEarned w x one_token) same (spent_token w full) in
          let before = Grants-IsEarned b n c g in
          let first = IsEarned-trans c (refill now c) w 0 0 (refill-IsEarned now c l) paid in
          let both = IsEarned-trans c w d 0 one_token first taken in
          let whole = IsEarned-trans b c d (n * one_token) one_token before both in
          (whole.0, whole.1, whole.2, omega (arith, whole.3))
    ]

-- In any time, a new bucket gives at most the tokens of its burst size and those that its rate
-- allows for that time, whatever the callers do and however long they sleep: a thousand times their
-- number is at most the thousandths of the burst and the rate for each millisecond. The clock must
-- not go back.
pub Grants-burst :
    (rate_limit : ℕ) (burst_size max_pending : Option ℕ) (start n : ℕ) (b : TokenBucket)
    → Grants (new_bucket rate_limit burst_size max_pending start) n b
    → n * one_token
      ≤ (new_bucket rate_limit burst_size max_pending start).burst_size * one_token
        + (b.last_refill - start) * rate_limit
unfolding new_bucket
Grants-burst rate_limit burst_size max_pending start n b g =
    let (l, r, s, e) = Grants-IsEarned (new_bucket rate_limit burst_size max_pending start) n b g in
    omega (arith, e)

-- A caller who has the lock sleeps at most once, if a sleep lasts as long as it is meant to: then
-- the bucket has earned the token that was missing.
pub acquire_token_sleeps :
    (clock : ℕ → ℕ) (fuel now : ℕ) (b : TokenBucket)
    → let c = refill now b in
      1 ≤ b.burst_size
      → one_token ≤ c.tokens + (clock 0 - now) * b.rate_limit
      → is_some (acquire_token clock (suc (suc fuel)) now b) ≡ true
unfolding acquire_token wait_token refill
acquire_token_sleeps clock fuel now b h k =
    let c = refill now b in
    let c' = refill (clock 0) c in
    let filled : leb one_token c'.tokens ≡ true = ground arith in
    elim (Bool-cases (leb one_token c.tokens)) [
      | inl enough ↦ rw (enough, acquire_token, wait_token) refl
      | inr short ↦ rw (short, filled, acquire_token, wait_token) refl
    ]
