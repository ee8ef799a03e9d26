-- ===== src/Locks/Consistent.antt =====
-- The reference count of a lock counts the tasks that use it: each move of a task keeps it so.
use nft_torrent.Base.{
  ℕ, ◌+◌, ◌≤◌, ◌<◌, ◌≡◌, refl, Bool, true, false, Option, none, some, List, [], ◌∷◌, ◌++◌, arith,
  if◌then◌else◌, count, All,
}
use nft_torrent.Locks.{Lock, Locks, obtain, acquire, aexit, Phase, idle, waiting, holding}

abbrev pub is_user : Phase → Bool
is_user idle = false
is_user (waiting l) = true
is_user (holding l) = true

abbrev pub is_holder : Phase → Bool
is_holder idle = false
is_holder (waiting l) = false
is_holder (holding l) = true

-- The task is idle, or uses the given lock.
abbrev pub Uses : ℕ → Phase → Type 0
Uses l idle = Unit
Uses l (waiting i) = i ≡ l
Uses l (holding i) = i ≡ l

pub count-middle :
    (p : Phase → Bool) (xs ys : List Phase) (x : Phase)
    → count p (xs ++ x ∷ ys) ≡ count p xs + (if p x then 1 else 0) + count p ys
count-middle p [] ys x = omega arith
count-middle p (z ∷ xs) ys x = ground (arith, count-middle p xs ys x)

pub Uses-middle : (l : ℕ) (xs ys : List Phase) (x : Phase) → All (Uses l) (xs ++ x ∷ ys) → Uses l x
Uses-middle l [] ys x h = h.0
Uses-middle l (z ∷ xs) ys x h = Uses-middle l xs ys x h.1

pub Uses-replace :
    (l : ℕ) (xs ys : List Phase) (x y : Phase)
    → Uses l y
    → All (Uses l) (xs ++ x ∷ ys)
    → All (Uses l) (xs ++ y ∷ ys)
Uses-replace l [] ys x y u h = (u, h.1)
Uses-replace l (z ∷ xs) ys x y u h = (h.0, Uses-replace l xs ys x y u h.1)

-- With no task using a lock, all use any.
pub Uses-idle : (l : ℕ) (xs : List Phase) → count is_user xs ≡ 0 → All (Uses l) xs
Uses-idle l [] h = tt
Uses-idle l (idle ∷ xs) h = (tt, Uses-idle l xs (omega arith))
Uses-idle l (waiting i ∷ xs) h = absurd (omega arith)
Uses-idle l (holding i ∷ xs) h = absurd (omega arith)

pub holders_le_users : (xs : List Phase) → count is_holder xs ≤ count is_user xs
holders_le_users [] = omega arith
holders_le_users (idle ∷ xs) = omega (arith, holders_le_users xs)
holders_le_users (waiting i ∷ xs) = omega (arith, holders_le_users xs)
holders_le_users (holding i ∷ xs) = omega (arith, holders_le_users xs)

-- What holds of the entry of the key when `n` waiting tasks have been cancelled.
abbrev pub Entry : ℕ → (ℕ → Lock) → List Phase → Option ℕ → Type 0
Entry n heap tasks none = count is_user tasks + n ≡ 0
Entry n heap tasks (some l) =
    ((heap l).ref_count ≡ count is_user tasks + n)
    × (0 < (heap l).ref_count)
    × (count is_holder tasks ≡ (if (heap l).locked then 1 else 0))
    × All (Uses l) tasks

abbrev pub IsConsistent : ℕ → Locks → List Phase → Type 0
IsConsistent n s tasks = Entry n s.heap tasks s.lock_index

abbrev pub Obtained : ℕ → List Phase → List Phase → Option (ℕ × Locks) → Type 0
Obtained n xs ys none = Unit
Obtained n xs ys (some (l, s)) = IsConsistent n s (xs ++ waiting l ∷ ys)

abbrev pub Acquired : ℕ → ℕ → List Phase → List Phase → Option Locks → Type 0
Acquired n l xs ys none = Unit
Acquired n l xs ys (some s) = IsConsistent n s (xs ++ holding l ∷ ys)

module _ (n : ℕ) (s : Locks) (xs ys : List Phase) where
  pub obtain-Obtained :
      (wait : Bool) (o : Option ℕ)
      → s.lock_index ≡ o
      → Entry n s.heap (xs ++ idle ∷ ys) o
      → Obtained n xs ys (obtain wait s)
  unfolding obtain
  obtain-Obtained wait none e h =
      let l = s.next_id in
      let u =
        Uses-replace l xs ys idle (waiting l) refl (Uses-idle l (xs ++ idle ∷ ys) (omega arith)) in
      rw e (
        ground (
          arith,
          count-middle is_user xs ys idle,
          count-middle is_user xs ys (waiting l),
          count-middle is_holder xs ys idle,
          count-middle is_holder xs ys (waiting l),
          holders_le_users (xs ++ idle ∷ ys),
        ))
  obtain-Obtained wait (some l) e h =
      let u = Uses-replace l xs ys idle (waiting l) refl h.3 in
      rw e (
        ground (
          arith,
          count-middle is_user xs ys idle,
          count-middle is_user xs ys (waiting l),
          count-middle is_holder xs ys idle,
          count-middle is_holder xs ys (waiting l),
        ))

  pub acquire-Acquired :
      (l : ℕ) (o : Option ℕ)
      → s.lock_index ≡ o
      → Entry n s.heap (xs ++ waiting l ∷ ys) o
      → Acquired n l xs ys (acquire l s)
  unfolding acquire
  acquire-Acquired l none e h = absurd (omega (arith, count-middle is_user xs ys (waiting l)))
  acquire-Acquired l (some i) e h =
      let same = Uses-middle i xs ys (waiting l) h.3 in
      let u = Uses-replace i xs ys (waiting l) (holding l) same h.3 in
      ground (
        arith,
        e,
        count-middle is_user xs ys (holding l),
        count-middle is_user xs ys (waiting l),
        count-middle is_holder xs ys (holding l),
        count-middle is_holder xs ys (waiting l),
      )

  pub aexit-IsConsistent :
      (l : ℕ) (o : Option ℕ)
      → s.lock_index ≡ o
      → Entry n s.heap (xs ++ holding l ∷ ys) o
      → IsConsistent n (aexit l s) (xs ++ idle ∷ ys)
  unfolding aexit
  aexit-IsConsistent l none e h = absurd (omega (arith, count-middle is_user xs ys (holding l)))
  aexit-IsConsistent l (some i) e h =
      let same = Uses-middle i xs ys (holding l) h.3 in
      let u = Uses-replace i xs ys (holding l) idle tt h.3 in
      ground (
        arith,
        e,
        count-middle is_user xs ys (holding l),
        count-middle is_user xs ys idle,
        count-middle is_holder xs ys (holding l),
        count-middle is_holder xs ys idle,
      )

  pub cancel-IsConsistent :
      (l : ℕ) (o : Option ℕ)
      → Entry n s.heap (xs ++ waiting l ∷ ys) o
      → Entry (n + 1) s.heap (xs ++ idle ∷ ys) o
  cancel-IsConsistent l none h = absurd (omega (arith, count-middle is_user xs ys (waiting l)))
  cancel-IsConsistent l (some i) h =
      let u = Uses-replace i xs ys (waiting l) idle tt h.3 in
      ground (
        arith,
        count-middle is_user xs ys idle,
        count-middle is_user xs ys (waiting l),
        count-middle is_holder xs ys idle,
        count-middle is_holder xs ys (waiting l),
      )
