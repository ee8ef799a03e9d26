-- ===== src/Indexer/Users/Registered.antt =====
-- What becomes of the users in the queue: process_tg_queue of NFTorrent/indexer/indexdb.py.
use nft_torrent.Base.{
  ℕ, ◌+◌, ◌≤◌, ◌≡◌, refl, sym, ap, ◌∙◌, Bool, true, false, some, List, [], ◌∷◌, ◌++◌, arith, ltb,
  length, All, Bool-cases, inl, inr, ◌⊎◌,
}
use nft_torrent.Indexer.Users.{
  TgUser, UserState, Sql, write_users, sync_tg_user_bulk_upsert, has_key, read_queue, write_batch,
  process_tg_queue,
}
use mathlib.Core.Path.{subst}
use mathlib.Core.List.{append_assoc, append-nil}
use Prim.Native.String.{String}
use text.Mathlib.TextEquality.{eq_iff}
use nft_torrent.Indexer.Users.Batch.{
  IsUnique, HasRow, owned-append, HasRow-append, HasRow-self, HasRow-batch, Written,
  write_users-IsUnique,
}

-- The keys that have been seen are of users in the batch.
Indexed : List (String × ℕ) → List TgUser → Type 0
Indexed index bulk = (user : TgUser) → has_key index user ≡ true → HasRow bulk user

Indexed-add :
    (index : List (String × ℕ)) (bulk : List TgUser) (item : TgUser)
    → Indexed index bulk
    → Indexed ((item.owner, item.user_id) ∷ index) (bulk ++ item ∷ [])
unfolding Indexed
Indexed-add index bulk item h user seen =
    ground (arith, eq_iff item.owner user.owner, owned-append user.owner bulk (item ∷ []), h user)

-- What has been read is in the batch, as far as it counts for the owners, and in the order of the
-- queue.
Takes : ℕ → List TgUser → List TgUser → List (String × ℕ) → Type 0
Takes maxsize queue bulk index =
    let (bulk', queue') = read_queue maxsize queue bulk index in
    (more : List TgUser) × (taken : List TgUser) × (bulk' ≡ bulk ++ more)
    × (queue ≡ taken ++ queue')
    × All (HasRow bulk') taken
    × ((queue' ≡ []) ⊎ (maxsize ≤ length bulk'))

read_queue-Takes :
    (maxsize : ℕ) (queue bulk : List TgUser) (index : List (String × ℕ))
    → Indexed index bulk
    → Takes maxsize queue bulk index
unfolding Takes read_queue Indexed
read_queue-Takes maxsize [] bulk index h = ([], [], sym (append-nil bulk), refl, tt, inl refl)
read_queue-Takes maxsize (item ∷ queue) bulk index h =
    elim (Bool-cases (ltb (length bulk) maxsize)) [
      | inr full ↦ rw full ([], [], sym (append-nil bulk), refl, tt, inr (ground arith))
      | inl free ↦ elim (Bool-cases (has_key index item)) [
        | inl seen ↦
            let (more, taken, e, split, a, end) = read_queue-Takes maxsize queue bulk index h in
            rw (free, seen)
              (
                more,
                item ∷ taken,
                e,
                ap (λ q. item ∷ q) split,
                (rw e (HasRow-append bulk more item (h item seen)), a),
                end,
              )
        | inr new ↦
            let (more, taken, e, split, a, end) =
              read_queue-Takes maxsize queue (bulk ++ item ∷ [])
                ((item.owner, item.user_id) ∷ index) (Indexed-add index bulk item h) in
            rw (free, new)
              (
                item ∷ more,
                item ∷ taken,
                e ∙ append_assoc bulk (item ∷ []) more,
                ap (λ q. item ∷ q) split,
                (rw e (HasRow-append (bulk ++ item ∷ []) more item (HasRow-self bulk item)), a),
                end,
              )
      ]
    ]

HasRow-taken :
    (table bulk taken : List TgUser)
    → All (HasRow table) bulk
    → All (HasRow bulk) taken
    → All (HasRow table) taken
HasRow-taken table bulk [] a h = tt
HasRow-taken table bulk (user ∷ taken) a h =
    (HasRow-batch table bulk user a h.0, HasRow-taken table bulk taken a h.1)

-- A batch that is written
Stored : UserState → List TgUser → UserState → Type 0
Stored s bulk s' =
    (s'.tg_user_queue ≡ s.tg_user_queue)
    × (s'.stats.tg_user_queue_gets ≡ s.stats.tg_user_queue_gets)
    × IsUnique s'.tg_user
    × All (HasRow s'.tg_user) bulk
    × ((more : List TgUser) × (s'.tg_user ≡ s.tg_user ++ more)
        × (s'.stats.tg_user_creates ≡ s.stats.tg_user_creates + length more))

write_batch_nil : (sql : Sql) (s : UserState) → write_batch sql [] s ≡ (s, false)
unfolding write_batch
write_batch_nil sql s = refl

write_batch_cons :
    (sql : Sql) (user : TgUser) (bulk table : List TgUser) (s : UserState) (creates : ℕ)
    → write_users sql (user ∷ bulk) (s.tg_user, 0, 0) ≡ some (table, creates, 0)
    → write_batch sql (user ∷ bulk) s ≡ (
      record s {
        tg_user = table;
        stats = record (s.stats) {
          tg_user_creates = s.stats.tg_user_creates + creates;
          tg_user_create_errors = s.stats.tg_user_create_errors + 0;
        };
      },
      false,
    )
unfolding write_batch sync_tg_user_bulk_upsert
write_batch_cons sql user bulk table s creates e =
    rw (e, sync_tg_user_bulk_upsert, write_batch) refl

write_batch-Stored :
    (sql : Sql) (bulk : List TgUser) (s : UserState)
    → sql.equation_is_true ≡ false
    → ((user : TgUser) → sql.add_fails user ≡ false)
    → IsUnique s.tg_user
    → let (s', raised) = write_batch sql bulk s in (raised ≡ false) × Stored s bulk s'
unfolding Stored Written
write_batch-Stored sql [] s truth adds u =
    rw (write_batch_nil sql s)
      (refl, (refl, refl, u, tt, ([], sym (append-nil s.tg_user), omega arith)))
write_batch-Stored sql (user ∷ bulk) s truth adds u =
    let (more, e, v, a) = write_users-IsUnique sql truth adds (user ∷ bulk) s.tg_user 0 0 u in
    subst (λ (r : UserState × Bool). (r.1 ≡ false) × Stored s (user ∷ bulk) r.0)
      (sym (write_batch_cons sql user bulk (s.tg_user ++ more) s (0 + length more) e))
      (refl, (refl, refl, v, a, (more, refl, omega arith)))

-- One round of the queue, where an equation of a column is not true in Python, no row is refused,
-- and no owner has two rows. It does not raise. It takes users from the front of the queue, until
-- the queue is empty or the batch is full, and the owner of each of them has a row in the end. The
-- rows that were there stay, rows are only added, the counter tells how many, and no owner has two.
pub process_tg_queue-IsUnique :
    (sql : Sql) (maxsize : ℕ) (s : UserState)
    → sql.equation_is_true ≡ false
    → ((user : TgUser) → sql.add_fails user ≡ false)
    → IsUnique s.tg_user
    → let (s', raised) = process_tg_queue sql maxsize s in
      (raised ≡ false)
      × IsUnique s'.tg_user
      × ((taken : List TgUser) × (s.tg_user_queue ≡ taken ++ s'.tg_user_queue)
          × All (HasRow s'.tg_user) taken)
      × ((more : List TgUser) × (s'.tg_user ≡ s.tg_user ++ more)
          × (s'.stats.tg_user_creates ≡ s.stats.tg_user_creates + length more))
      × ((s'.tg_user_queue ≡ [])
          ⊎ (s.stats.tg_user_queue_gets + maxsize ≤ s'.stats.tg_user_queue_gets))
unfolding process_tg_queue Takes Indexed Stored
process_tg_queue-IsUnique sql maxsize s truth adds u =
    let (batch, taken, e, split, a, end) =
      read_queue-Takes maxsize s.tg_user_queue [] [] (λ user h. absurd (ground arith)) in
    let (bulk, queue) = read_queue maxsize s.tg_user_queue [] [] in
    let read : UserState = record s {
      tg_user_queue = queue;
      stats = record (s.stats) { tg_user_queue_gets = s.stats.tg_user_queue_gets + length bulk };
    } in
    let (done, (left, gets, v, rows, more)) = write_batch-Stored sql bulk read truth adds u in
    (
      done,
      v,
      (
        taken,
        split ∙ ap (λ q. taken ++ q) (sym left),
        HasRow-taken (write_batch sql bulk read).0.tg_user bulk taken rows a,
      ),
      more,
      elim end [ inl empty ↦ inl (left ∙ empty) | inr full ↦ inr (omega (arith, gets)) ],
    )
