-- ===== src/Indexer/Users/Batch.antt =====
-- What a batch of users leaves in the table: sync_tg_user_bulk_upsert of
-- NFTorrent/indexer/indexdb.py.
use nft_torrent.Base.{
  ℕ, ◌+◌, ◌≤◌, ◌≡◌, refl, Bool, false, not, some, List, [], ◌∷◌, ◌++◌, arith, ◌==◌, length, keep,
  count, All, Bool-cases, inl, inr,
}
use nft_torrent.Indexer.Users.{TgUser, Sql, one_row, find_user, write_users}
use mathlib.Core.List.{append_assoc, append-nil}
use Prim.Native.String.{String}
use text.Mathlib.Text.{◌==◌ as str_eq}
use text.Mathlib.TextEquality.{eq_iff}
use text.Mathlib.TextPositions.{eq_refl}

abbrev pub owned : String → List TgUser → ℕ
owned owner = count (λ row. str_eq row.owner owner)

-- No owner has two rows.
abbrev pub IsUnique : List TgUser → Type 0
IsUnique table = (owner : String) → owned owner table ≤ 1

abbrev pub HasRow : List TgUser → TgUser → Type 0
HasRow table user = 1 ≤ owned user.owner table

pub owned-append : (o : String) (xs ys : List TgUser) → owned o (xs ++ ys) ≡ owned o xs + owned o ys
owned-append o [] ys = omega arith
owned-append o (x ∷ xs) ys = omega (arith, owned-append o xs ys)

pub keep_none : (p : TgUser → Bool) (rows : List TgUser) → count p rows ≡ 0 → keep p rows ≡ []
keep_none p [] h = refl
keep_none p (x ∷ rows) h = ground (arith, keep_none p rows)

pub one_row-keep :
    (p : TgUser → Bool) (rows : List TgUser)
    → count p rows ≤ 1
    → one_row (keep p rows) ≡ some (not (count p rows == 0))
one_row-keep p [] h = refl
one_row-keep p (x ∷ rows) h = elim (Bool-cases (p x)) [
  | inl e ↦ rw (e, keep_none p rows (ground arith)) (ground arith)
  | inr e ↦ ground (arith, e, one_row-keep p rows)
]

pub IsUnique-add :
    (table : List TgUser) (user : TgUser)
    → IsUnique table
    → owned user.owner table ≡ 0
    → IsUnique (table ++ user ∷ [])
IsUnique-add table user u none_yet o =
    ground (arith, eq_iff user.owner o, owned-append o table (user ∷ []), u o)

pub HasRow-append : (xs ys : List TgUser) (user : TgUser) → HasRow xs user → HasRow (xs ++ ys) user
HasRow-append xs ys user h = omega (arith, owned-append user.owner xs ys)

pub HasRow-self : (xs : List TgUser) (user : TgUser) → HasRow (xs ++ user ∷ []) user
HasRow-self xs user = ground (arith, owned-append user.owner xs (user ∷ []), eq_refl user.owner)

-- An owner of the batch has a row where all its users have one.
pub HasRow-batch :
    (table bulk : List TgUser) (user : TgUser)
    → All (HasRow table) bulk
    → HasRow bulk user
    → HasRow table user
HasRow-batch table [] user a h = absurd (omega arith)
HasRow-batch table (x ∷ bulk) user a h =
    ground (arith, eq_iff x.owner user.owner, HasRow-batch table bulk user a.1)

module _ (sql : Sql) (no_truth : sql.equation_is_true ≡ false)
    (added : (user : TgUser) → sql.add_fails user ≡ false) where
  pub find_user_of :
      (user : TgUser) (table : List TgUser)
      → IsUnique table
      → find_user sql user table ≡ some (not (owned user.owner table == 0))
  find_user_of user table u = rw no_truth (one_row-keep _ table (u user.owner))

  -- What a batch adds to the table
  unfoldable pub Written : List TgUser → ℕ → ℕ → List TgUser → Type 0
  Written table creates errors bulk =
      (more : List TgUser) × (write_users sql bulk (table, creates, errors)
        ≡ some (table ++ more, creates + length more, errors))
      × IsUnique (table ++ more)
      × All (HasRow (table ++ more)) bulk

  pub write_users-IsUnique :
      (bulk table : List TgUser) (creates errors : ℕ)
      → IsUnique table
      → Written table creates errors bulk
  unfolding Written write_users
  write_users-IsUnique [] table creates errors u =
      ([], rw append-nil (ground arith), rw append-nil u, tt)
  write_users-IsUnique (user ∷ bulk) table creates errors u =
      elim (Bool-cases (owned user.owner table == 0)) [
        | inl new ↦
            let (more, e, v, a) =
              write_users-IsUnique bulk (table ++ user ∷ []) (creates + 1) errors
                (IsUnique-add table user u (ground arith)) in
            let flat : (table ++ user ∷ []) ++ more ≡ table ++ user ∷ more =
              append_assoc table (user ∷ []) more in
            (
              user ∷ more,
              ground (arith, find_user_of user table u, added user, e, flat),
              rw flat at v,
              (
                ground (arith, owned-append user.owner table (user ∷ more), eq_refl user.owner),
                rw flat at a,
              ),
            )
        | inr old ↦
            let (more, e, v, a) = write_users-IsUnique bulk table creates errors u in
            (
              more,
              ground (arith, find_user_of user table u, e),
              v,
              (HasRow-append table more user (ground arith), a),
            )
      ]
