-- ===== src/Indexer/Users.antt =====
-- The users of the bot on their way into the database: register_tg_user, process_tg_queue and
-- sync_tg_user_bulk_upsert of NFTorrent/indexer/indexdb.py. The times and ids that the database
-- gives to a row are left out, and a table changes only by the batch that is written.
pub mod Batch
pub mod Registered
mod Tests
use nft_torrent.Base.{
  ℕ, ◌+◌, Bool, true, false, not, ◌&&◌, ◌||◌, Option, none, some, List, [], ◌∷◌, ◌++◌, ltb, ◌==◌,
  if◌then◌else◌, length, keep,
}
use Prim.Native.String.{String}
use text.Mathlib.Text.{◌==◌ as str_eq}

pub record TgUser : Type 0 where
  pub owner : String
  pub user_id : ℕ
  pub username : Option String
  pub is_premium : Bool
  pub country : String
  pub language : String

-- The counters of IndexerMeasurement for the queue
pub record Counters : Type 0 where
  pub tg_user_queue_adds : ℕ
  pub tg_user_queue_gets : ℕ
  pub tg_user_creates : ℕ
  pub tg_user_create_errors : ℕ

pub record UserState : Type 0 where
  pub tg_user_queue : List TgUser
  pub tg_user : List TgUser
  pub stats : Counters

-- The libraries: `s[:n]` and `s.lower()`, whether `session.add` fails, and whether an equation of a
-- column with a value counts as true in Python, where it is no truth value but a part of a query
pub record Sql : Type 0 where
  pub slice : ℕ → String → String
  pub lower : String → String
  pub add_fails : TgUser → Bool
  pub equation_is_true : Bool

-- `.one()`: whether there is a row; `none` where there are several, which raises.
abbrev pub one_row : List TgUser → Option Bool
one_row [] = some false
one_row (row ∷ []) = some true
one_row (row ∷ other ∷ rows) = none

abbrev pub has_key : List (String × ℕ) → TgUser → Bool
has_key [] item = false
has_key ((owner, user_id) ∷ index) item =
    str_eq owner item.owner && user_id == item.user_id || has_key index item

-- The loop that empties the queue: the batch, and what is left of the queue
unfoldable pub read_queue :
    ℕ → List TgUser → List TgUser → List (String × ℕ) → List TgUser × List TgUser
read_queue maxsize [] bulk index = (bulk, [])
read_queue maxsize (item ∷ queue) bulk index =
    let seen = has_key index item in
    let rest =
      read_queue maxsize queue (if seen then bulk else bulk ++ item ∷ [])
        (if seen then index else (item.owner, item.user_id) ∷ index) in
    if ltb (length bulk) maxsize then rest else (bulk, item ∷ queue)

-- The size of the queue
abbrev pub queue_size : ℕ
queue_size = 10000

module _ (sql : Sql) where
  -- `username[:40] if username else None`
  abbrev pub short_name : Option String → Option String
  short_name none = none
  short_name (some name) = if str_eq name "" then none else some (sql.slice 40 name)

  -- `(s or "")[:2].lower()`
  abbrev pub code_of : Option String → String
  code_of none = sql.lower (sql.slice 2 "")
  code_of (some s) = sql.lower (sql.slice 2 s)

  -- `put_nowait` raises a QueueFull, after the user has been counted.
  pub register_tg_user :
      String
      → ℕ
      → Option String
      → Bool
      → Option String
      → Option String
      → UserState
      → UserState × Bool
  register_tg_user owner user_id username is_premium country language s =
      let user : TgUser = record {
        owner = owner;
        user_id = user_id;
        username = short_name username;
        is_premium = is_premium;
        country = code_of country;
        language = code_of language;
      } in
      let s' = record s {
        stats = record (s.stats) { tg_user_queue_adds = s.stats.tg_user_queue_adds + 1 };
      } in
      if ltb (length s.tg_user_queue) queue_size
      then (record s' { tg_user_queue = s.tg_user_queue ++ user ∷ [] }, false)
      else (s', true)

  -- `TgUser.owner == user.owner and TgUser.user_id == user.user_id`: the second equation where the
  -- first one counts as true, else the first one.
  abbrev pub is_selected : TgUser → TgUser → Bool
  is_selected user row =
      if sql.equation_is_true then row.user_id == user.user_id else str_eq row.owner user.owner

  abbrev pub find_user : TgUser → List TgUser → Option Bool
  find_user user table = one_row (keep (is_selected user) table)

  -- The rows with the users added, the users created, and the errors
  abbrev pub add_user : TgUser → List TgUser × ℕ × ℕ → List TgUser × ℕ × ℕ
  add_user user (table, creates, errors) =
      if sql.add_fails user
      then (table, creates, errors + 1)
      else (table ++ user ∷ [], creates + 1, errors)

  -- The loop over the batch. A query writes the rows that have been added.
  unfoldable pub write_users : List TgUser → List TgUser × ℕ × ℕ → Option (List TgUser × ℕ × ℕ)
  write_users [] t = some t
  write_users (user ∷ bulk) t = elim (find_user user t.0) [
    | none ↦ none
    | some found ↦ write_users bulk (if found then t else add_user user t)
  ]

  -- An exception leaves the tables and the counters as they were.
  unfoldable pub sync_tg_user_bulk_upsert : List TgUser → UserState → Option UserState
  sync_tg_user_bulk_upsert bulk s = elim (write_users bulk (s.tg_user, 0, 0)) [
    | none ↦ none
    | some (table, creates, errors) ↦ some (record s {
      tg_user = table;
      stats = record (s.stats) {
        tg_user_creates = s.stats.tg_user_creates + creates;
        tg_user_create_errors = s.stats.tg_user_create_errors + errors;
      };
    })
  ]

  -- `if len(bulk)`, and whether the writing raises
  unfoldable pub write_batch : List TgUser → UserState → UserState × Bool
  write_batch [] s = (s, false)
  write_batch (user ∷ bulk) s = elim (sync_tg_user_bulk_upsert (user ∷ bulk) s) [
    | none ↦ (s, true)
    | some s' ↦ (s', false)
  ]

  -- What has been read has left the queue, also where the writing raises.
  unfoldable pub process_tg_queue : ℕ → UserState → UserState × Bool
  process_tg_queue maxsize s =
      let (bulk, queue) = read_queue maxsize s.tg_user_queue [] [] in
      write_batch bulk (record s {
        tg_user_queue = queue;
        stats = record (s.stats) { tg_user_queue_gets = s.stats.tg_user_queue_gets + length bulk };
      })
