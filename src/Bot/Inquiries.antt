-- ===== src/Bot/Inquiries.antt =====
-- The table of inquiries and its operations: UserInquiry of NFTorrent/dbmodels.py, BaseInquiry of
-- NFTorrent/bot/main.py, and the methods sync_inquiry_* of NFTorrent/bot/backend.py. The database
-- is the list of its rows, in the order of their ids, with its two unique constraints and the
-- bounds of its columns, which PostgreSQL, the default, checks. An operation returns what it
-- returns or raises, with the table that it leaves.
pub mod WellFormed
pub mod Split
pub mod Desk
pub mod Around
pub mod Refinement
pub mod Nameless
use nft_torrent.Base.{
  ℕ, ◌+◌, ◌*◌, ◌^◌, ltb, leb, Bool, true, false, not, ◌&&◌, ◌||◌, Option, none, some, List, [], ◌∷◌,
  ◌++◌, map, ◌==◌, if◌then◌else◌, is_some, keep, take, drop,
}
use nft_torrent.Base.Result.{Result, ok, err, ◌>>=◌, ◌>>◌, raise_if}
use Prim.Native.String.{String, count as char_count}
use text.Mathlib.Text.{◌==◌ as str_eq}

-- The state of an inquiry that is not closed; a closed one has none.
pub data UserInquiryState : Type 0 where
  active : UserInquiryState

pub record UserInquiry : Type 0 where
  pub id : ℕ
  pub inquiry_id : String
  pub user_id : ℕ
  pub state : Option UserInquiryState
  pub username : Option String
  pub language : Option String
  pub is_premium : Bool
  pub subject : Option String
  pub message : Option String
  pub message_id : Option ℕ
  pub nft_address : Option String
  pub created_time : ℕ
  pub updated_time : ℕ
  pub disabled_to : Option ℕ
  pub closed_time : Option ℕ
  pub admin_user_id : Option ℕ
  pub admin_message : Option String

pub record BaseInquiry : Type 0 where
  pub id : ℕ
  pub inquiry_id : String
  pub state : Option UserInquiryState
  pub user_id : ℕ
  pub username : String
  pub disabled_to : Option ℕ

-- The rows, with the next value of the primary key
pub record Inquiries : Type 0 where
  pub rows : List UserInquiry
  pub next_id : ℕ

-- `one()` on no or several rows, a unique constraint, a BaseInquiry without a user name, and
-- BackendForbidden; a value that its column does not hold
pub data BackendError : Type 0 where
  no_result_found multiple_results_found integrity_error validation_error : BackendError
  not_an_owner invalid_state data_error : BackendError

-- A user of Telegram
pub record User : Type 0 where
  pub id : ℕ
  pub is_premium : Option Bool
  pub language_code : Option String
  pub username : Option String

-- The data of the dialogue that an inquiry is made of
pub record Submission : Type 0 where
  pub inquiry_id : String
  pub subject : Option String
  pub message : Option String
  pub message_id : ℕ
  pub nft_address : Option String

abbrev pub one {ℓ} : {A : Type ℓ} → List A → Result BackendError A
one [] = err no_result_found
one (x ∷ []) = ok x
one (x ∷ y ∷ xs) = err multiple_results_found

abbrev pub any {ℓ} : {A : Type ℓ} → (A → Bool) → List A → Bool
any p [] = false
any p (x ∷ xs) = p x || any p xs

-- `BaseInquiry(**inquiry.model_dump())`, which has to have a user name
abbrev pub named : UserInquiry → Option String → Result BackendError BaseInquiry
named x none = err validation_error
named x (some name) = ok (record {
  id = x.id;
  inquiry_id = x.inquiry_id;
  state = x.state;
  user_id = x.user_id;
  username = name;
  disabled_to = x.disabled_to;
})

abbrev pub base_inquiry : UserInquiry → Result BackendError BaseInquiry
base_inquiry x = named x x.username

abbrev pub is_open : UserInquiry → Bool
is_open x = is_some x.state

-- The unique constraints: the inquiry_id, and the user with a state that is not NULL
abbrev pub conflicts : UserInquiry → UserInquiry → Bool
conflicts x y =
    str_eq x.inquiry_id y.inquiry_id || (x.user_id == y.user_id && (is_open x && is_open y))

abbrev pub has_id : String → UserInquiry → Bool
has_id key x = str_eq x.inquiry_id key

-- `UPDATE ... WHERE id = ...`
abbrev pub update_row : ℕ → (UserInquiry → UserInquiry) → UserInquiry → UserInquiry
update_row id change y = if y.id == id then change y else y

abbrev pub update : ℕ → (UserInquiry → UserInquiry) → Inquiries → Inquiries
update id change db = record db { rows = map (update_row id change) db.rows }

-- A flag that is None becomes the default of its column.
abbrev pub flag : Option Bool → Bool
flag none = false
flag (some b) = b

-- The column types INTEGER and VARCHAR(size)
abbrev pub integer_fits : ℕ → Bool
integer_fits n = ltb n (2 ^ 31)

abbrev pub varchar_fits : ℕ → String → Bool
varchar_fits size s = leb (char_count s) size

-- NULL fits every column.
abbrev pub null_or {ℓ} : {A : Type ℓ} → (A → Bool) → Option A → Bool
null_or p none = true
null_or p (some a) = p a

-- The columns that an INSERT fills, and those that an administrator's UPDATE does
abbrev pub row_fits : UserInquiry → Bool
row_fits x =
    varchar_fits 24 x.inquiry_id
    && integer_fits x.user_id
    && null_or (varchar_fits 100) x.username
    && null_or (varchar_fits 2) x.language
    && null_or (varchar_fits 100) x.subject
    && null_or (varchar_fits 2000) x.message
    && null_or integer_fits x.message_id
    && null_or (varchar_fits 48) x.nft_address

abbrev pub reply_fits : UserInquiry → Bool
reply_fits x = null_or integer_fits x.admin_user_id && null_or (varchar_fits 2000) x.admin_message

abbrev pub new_inquiry : ℕ → User → Submission → ℕ → UserInquiry
new_inquiry now user form id = record {
  id = id;
  inquiry_id = form.inquiry_id;
  user_id = user.id;
  state = some active;
  username = user.username;
  language = user.language_code;
  is_premium = flag user.is_premium;
  subject = form.subject;
  message = form.message;
  message_id = some form.message_id;
  nft_address = form.nft_address;
  created_time = now;
  updated_time = now;
  disabled_to = none;
  closed_time = none;
  admin_user_id = none;
  admin_message = none;
}

-- The row is committed before the BaseInquiry is made of it.
unfoldable pub sync_inquiry_create :
    ℕ → User → Submission → Inquiries → Result BackendError BaseInquiry × Inquiries
sync_inquiry_create now user form db =
    let x = new_inquiry now user form db.next_id in
    if row_fits x
    then (if any (λ y. conflicts y x) db.rows
        then (err integrity_error, db)
        else (base_inquiry x, record { rows = db.rows ++ x ∷ []; next_id = db.next_id + 1 }))
    else (err data_error, db)

abbrev pub or_else {ℓ} : {A : Type ℓ} → Option A → Option A → Option A
or_else none b = b
or_else (some a) b = some a

abbrev pub close_inquiry : ℕ → Option ℕ → Option String → UserInquiry → UserInquiry
close_inquiry now closer admin_message x = record x {
  admin_user_id = closer;
  admin_message = admin_message;
  updated_time = now;
  closed_time = some now;
  state = none;
}

abbrev pub block_inquiry : ℕ → Option ℕ → Option String → ℕ → UserInquiry → UserInquiry
block_inquiry now admin admin_message hours x = record x {
  admin_user_id = admin;
  admin_message = admin_message;
  updated_time = now;
  disabled_to = some (now + hours * 3600);
}

-- `user_id is not None and inquiry.user_id != user_id`
abbrev pub is_other : Option ℕ → UserInquiry → Bool
is_other none x = false
is_other (some user_id) x = not (x.user_id == user_id)

-- The BaseInquiry is made of the changed row before the commit.
abbrev pub commit :
    (UserInquiry → UserInquiry)
    → Inquiries
    → Result BackendError UserInquiry
    → Result BackendError BaseInquiry × Inquiries
commit change db (err e) = (err e, db)
commit change db (ok x) = elim (base_inquiry (change x)) [
  | err e ↦ (err e, db)
  | ok base ↦
      if reply_fits (change x) then (ok base, update x.id change db) else (err data_error, db)
]

-- The row of an inquiry that the caller may close
abbrev pub allow : Option ℕ → UserInquiry → Result BackendError UserInquiry
allow user_id x =
    raise_if (is_other user_id x) not_an_owner >> raise_if (not (is_open x)) invalid_state >> ok x

abbrev pub closable : String → Option ℕ → Inquiries → Result BackendError UserInquiry
closable key user_id db = one (keep (has_id key) db.rows) >>= allow user_id

unfoldable pub sync_inquiry_close :
    ℕ
    → String
    → Option ℕ
    → Option ℕ
    → Option String
    → Inquiries
    → Result BackendError BaseInquiry × Inquiries
sync_inquiry_close now key user_id admin_user_id admin_message db =
    commit (close_inquiry now (or_else admin_user_id user_id) admin_message) db
      (closable key user_id db)

unfoldable pub sync_inquiry_block :
    ℕ
    → String
    → Option ℕ
    → Option String
    → ℕ
    → Inquiries
    → Result BackendError BaseInquiry × Inquiries
sync_inquiry_block now key admin_user_id admin_message hours db =
    commit (block_inquiry now admin_user_id admin_message hours) db (closable key none db)

unfoldable pub sync_inquiry_get : String → Inquiries → Result BackendError UserInquiry
sync_inquiry_get key db = one (keep (has_id key) db.rows)

abbrev pub listed : Option ℕ → UserInquiry → Bool
listed user_id x = is_open x && not (is_other user_id x)

abbrev pub base_inquiries : List UserInquiry → Result BackendError (List BaseInquiry)
base_inquiries [] = ok []
base_inquiries (x ∷ xs) = base_inquiry x >>= λ base. base_inquiries xs >>= λ rest. ok (base ∷ rest)

unfoldable pub sync_inquiry_list :
    Option ℕ → ℕ → ℕ → Inquiries → Result BackendError (List BaseInquiry)
sync_inquiry_list user_id offset limit db =
    base_inquiries (take limit (drop offset (keep (listed user_id) db.rows)))
