-- ===== src/RateLimit/Uniform.antt =====
-- The distance of the calls: UniformRateLimit of NFTorrent/ratelimit.py.
use nft_torrent.Base.{
  ℕ, ◌+◌, ◌≤◌, ◌≡◌, refl, Option, none, some, List, [], ◌∷◌, arith, ltb, inl, inr, Bool-cases,
}
use nft_torrent.RateLimit.{UniformLimit, sleep_until, delay, release_uniform}

-- The limit in use, from its first time on: the times when a caller got it, the last one first, the
-- time of the last step, and until when the caller who has the lock sleeps, if there is one. The
-- clock does not go back, and a sleep lasts at least as long as it is meant to.
pub data Calls (start : ℕ) (u : UniformLimit) : List ℕ → ℕ → Option ℕ → UniformLimit → Type 0 where
  here : Calls start u [] start none u
  passes :
      {times : List ℕ} {last : ℕ} {v : UniformLimit} (now : ℕ)
      → Calls start u times last none v
      → last ≤ now
      → sleep_until now v ≡ none
      → Calls start u (now ∷ times) now none (delay now v)
  sleeps :
      {times : List ℕ} {last : ℕ} {v : UniformLimit} (now until : ℕ)
      → Calls start u times last none v
      → last ≤ now
      → sleep_until now v ≡ some until
      → Calls start u times now (some until) v
  wakes :
      {times : List ℕ} {last : ℕ} {v : UniformLimit} (now until : ℕ)
      → Calls start u times last (some until) v
      → last ≤ now
      → until ≤ now
      → Calls start u (now ∷ times) now none (delay now v)
  releases :
      {times : List ℕ} {last : ℕ} {sleeper : Option ℕ} {v : UniformLimit} (now : ℕ)
      → Calls start u times last sleeper v
      → last ≤ now
      → Calls start u times now sleeper (release_uniform now v)

-- Each time comes at least the interval after the one before it.
abbrev pub IsSpaced : ℕ → List ℕ → Type 0
IsSpaced interval [] = Unit
IsSpaced interval (t ∷ []) = Unit
IsSpaced interval (t ∷ t' ∷ times) = (t' + interval ≤ t) × IsSpaced interval (t' ∷ times)

abbrev IsLater : ℕ → List ℕ → Type 0
IsLater last [] = Unit
IsLater last (t ∷ times) = t ≤ last

abbrev IsDelayed : ℕ → ℕ → List ℕ → Type 0
IsDelayed interval t [] = Unit
IsDelayed interval t (t' ∷ times) = t' + interval ≤ t

-- The caller who sleeps wakes late enough.
abbrev Awaits : ℕ → Option ℕ → List ℕ → Type 0
Awaits interval none times = Unit
Awaits interval (some until) times = IsDelayed interval until times

IsSpaced-cons :
    (interval t until : ℕ) (times : List ℕ)
    → until ≤ t
    → IsDelayed interval until times
    → IsSpaced interval times
    → IsSpaced interval (t ∷ times)
IsSpaced-cons interval t until [] l d s = tt
IsSpaced-cons interval t until (t' ∷ times) l d s = (ground arith, s)

IsDelayed-later :
    (interval last now : ℕ) (times : List ℕ)
    → IsLater last times
    → last ≤ now
    → IsDelayed interval (now + interval) times
IsDelayed-later interval last now [] h l = tt
IsDelayed-later interval last now (t ∷ times) h l = ground arith

IsLater-trans :
    (last now : ℕ) (times : List ℕ) → IsLater last times → last ≤ now → IsLater now times
IsLater-trans last now [] h l = tt
IsLater-trans last now (t ∷ times) h l = ground arith

abbrev IsInTime : UniformLimit → List ℕ → ℕ → Option ℕ → UniformLimit → Type 0
IsInTime u times last sleeper v =
    (v.interval ≡ u.interval)
    × IsLater last times
    × IsDelayed u.interval v.delay_until times
    × Awaits u.interval sleeper times
    × IsSpaced u.interval times

Calls-IsInTime :
    (start : ℕ) (u : UniformLimit) (times : List ℕ) (last : ℕ) (sleeper : Option ℕ)
    (v : UniformLimit)
    → Calls start u times last sleeper v
    → IsInTime u times last sleeper v
unfolding delay release_uniform
Calls-IsInTime start u times last sleeper v here = (refl, tt, tt, tt, tt)
Calls-IsInTime start u ts' l' sl' v' (passes {times = times} {last = last} {v = v} now c l e) =
    let (i, h, d, a, s) = Calls-IsInTime start u times last none v c in
    elim (Bool-cases (ltb now v.delay_until)) [
      | inl early ↦ (let e' = (rw early at e) in ground arith)
      | inr due ↦ (
        i,
        ground arith,
        rw i (ground arith),
        tt,
        IsSpaced-cons u.interval now v.delay_until times (ground arith) d s,
      )
    ]
Calls-IsInTime start u ts' l' sl' v'
      (sleeps {times = times} {last = last} {v = v} now until c l e) =
    let (i, h, d, a, s) = Calls-IsInTime start u times last none v c in
    elim (Bool-cases (ltb now v.delay_until)) [
      | inr due ↦ (let e' = (rw due at e) in ground arith)
      | inl early ↦
          let same : v.delay_until ≡ until = (let e' = (rw early at e) in ground arith) in
          (i, IsLater-trans last now times h l, d, rw same at d, s)
    ]
Calls-IsInTime start u ts' l' sl' v' (wakes {times = times} {last = last} {v = v} now until c l w) =
    let (i, h, d, a, s) = Calls-IsInTime start u times last (some until) v c in
    (i, ground arith, rw i (ground arith), tt, IsSpaced-cons u.interval now until times w a s)
Calls-IsInTime start u ts' l' sl' v'
      (releases {times = times} {last = last} {sleeper = sleeper} {v = v} now c l) =
    let (i, h, d, a, s) = Calls-IsInTime start u times last sleeper v c in
    (
      i,
      IsLater-trans last now times h l,
      rw i (IsDelayed-later u.interval last now times h l),
      a,
      s,
    )

-- However many callers share the limit, and whenever they give it back: between two times when a
-- caller gets it, there is at least the interval.
pub Calls-IsSpaced :
    (start : ℕ) (u : UniformLimit) (times : List ℕ) (last : ℕ) (sleeper : Option ℕ)
    (v : UniformLimit)
    → Calls start u times last sleeper v
    → IsSpaced u.interval times
Calls-IsSpaced start u times last sleeper v c = (Calls-IsInTime start u times last sleeper v c).4
