-- ===== src/Bot/Inquiries/Desk.antt =====
-- The table of inquiries as a desk, where a user has at most one open inquiry, and the operations
-- of NFTorrent/bot/backend.py as commands to it.
use nft_torrent.Base.{
  ℕ, ◌≡◌, refl, Bool, true, false, not, ◌&&◌, ◌||◌, Option, none, some, List, arith, ◌==◌, leb, ltb,
  if◌then◌else◌, is_some, All,
}
use nft_torrent.Base.Result.{Result, ok, err}
use nft_torrent.Bot.Inquiries.{
  UserInquiry, Inquiries, BackendError, BaseInquiry, User, Submission, named, null_or, or_else,
  sync_inquiry_create, sync_inquiry_close, sync_inquiry_block,
}
use nft_torrent.Bot.Inquiries.Split.{current_of, owner_of}
use nft_torrent.Ipfs.Content.{equals}
use Prim.Native.String.{String, count as char_count}
use text.Mathlib.Text.{◌==◌ as str_eq}

-- The open inquiry of each user, and the user of each inquiry, open or closed
pub record Desk : Type 0 where
  pub current : ℕ → Option String
  pub owner : String → Option ℕ

pub data Command : Type 0 where
  create : User → Submission → Command
  close : String → Option ℕ → Option ℕ → Option String → Command
  block : String → Option ℕ → Option String → ℕ → Command

abbrev pub run : ℕ → Command → Inquiries → Result BackendError BaseInquiry × Inquiries
run now (create user form) db = sync_inquiry_create now user form db
run now (close key user_id admin_user_id m) db =
    sync_inquiry_close now key user_id admin_user_id m db
run now (block key admin_user_id m hours) db = sync_inquiry_block now key admin_user_id m hours db

-- What the columns hold of the values of a command
abbrev pub columns_hold : Command → Bool
columns_hold (create user form) =
    leb (char_count form.inquiry_id) 24
    && ltb user.id 2147483648
    && null_or (λ s. leb (char_count s) 100) user.username
    && null_or (λ s. leb (char_count s) 2) user.language_code
    && null_or (λ s. leb (char_count s) 100) form.subject
    && null_or (λ s. leb (char_count s) 2000) form.message
    && ltb form.message_id 2147483648
    && null_or (λ s. leb (char_count s) 48) form.nft_address
columns_hold (close key user_id admin_user_id m) =
    null_or (λ n. ltb n 2147483648) (or_else admin_user_id user_id)
    && null_or (λ s. leb (char_count s) 2000) m
columns_hold (block key admin_user_id m hours) =
    null_or (λ n. ltb n 2147483648) admin_user_id && null_or (λ s. leb (char_count s) 2000) m

-- A user may act on an inquiry that is open, and is the user's if a user is given.
abbrev pub may : Option ℕ → ℕ → Bool
may none u = true
may (some v) u = u == v

abbrev pub is_current : String → Option ℕ → Option ℕ → Desk → Bool
is_current key user_id none desk = false
is_current key user_id (some u) desk = may user_id u && equals (desk.current u) (some key)

abbrev pub allowed : Command → Desk → Bool
allowed (create user form) desk =
    not (is_some (desk.owner form.inquiry_id) || is_some (desk.current user.id))
allowed (close key user_id admin_user_id m) desk = is_current key user_id (desk.owner key) desk
allowed (block key admin_user_id m hours) desk = is_current key none (desk.owner key) desk

abbrev pub enabled : Command → Desk → Bool
enabled c desk = columns_hold c && allowed c desk

abbrev pub is_user : Option ℕ → ℕ → Bool
is_user none v = false
is_user (some u) v = u == v

abbrev pub perform : Command → Desk → Desk
perform (create user form) desk = record {
  current = λ v. if user.id == v then some form.inquiry_id else desk.current v;
  owner = λ k. if str_eq form.inquiry_id k then some user.id else desk.owner k;
}
perform (close key user_id admin_user_id m) desk = record desk {
  current = λ v. if is_user (desk.owner key) v then none else desk.current v;
}
perform (block key admin_user_id m hours) desk = desk

abbrev pub desk_of : Inquiries → Desk
desk_of db = record { current = current_of db.rows; owner = owner_of db.rows }

abbrev pub is_ok : Result BackendError BaseInquiry → Bool
is_ok (ok x) = true
is_ok (err e) = false

-- Two desks that show the same
abbrev pub Same : Desk → Desk → Type 0
Same a b = ((v : ℕ) → a.current v ≡ b.current v) × ((k : String) → a.owner k ≡ b.owner k)

-- Every inquiry has a user name, and so has a user who creates one.
abbrev pub IsNamed : List UserInquiry → Type 0
IsNamed rows = All (λ x. is_some x.username ≡ true) rows

abbrev pub IsNamedCommand : Command → Type 0
IsNamedCommand (create user form) = is_some user.username ≡ true
IsNamedCommand (close key user_id admin_user_id m) = Unit
IsNamedCommand (block key admin_user_id m hours) = Unit

abbrev pub Follows : Command → Desk → Result BackendError BaseInquiry × Inquiries → Type 0
Follows c desk (r, db') =
    (is_ok r ≡ enabled c desk)
    × Same (desk_of db') (if enabled c desk then perform c desk else desk)

pub named-ok :
    (x : UserInquiry) (name : Option String) → is_some name ≡ true → is_ok (named x name) ≡ true
named-ok x none n = ground arith
named-ok x (some name) n = refl
