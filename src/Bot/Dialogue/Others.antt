-- ===== src/Bot/Dialogue/Others.antt =====
-- The rows of the other users, after the operations that a user can start.
use nft_torrent.Base.{
  ℕ, ◌≡◌, refl, sym, Bool, true, false, not, Option, none, some, List, [], ◌∷◌, ◌++◌, arith, ◌==◌,
  if◌then◌else◌, keep, All, inl, inr, Bool-cases,
}
use nft_torrent.Base.Result.{Result, ok, err, Result-cases}
use nft_torrent.Bot.Inquiries.{
  Inquiries, base_inquiry, BaseInquiry, UserInquiry, BackendError, User, Submission,
  sync_inquiry_close, sync_inquiry_create, close_inquiry, commit, row_fits, reply_fits, any,
  conflicts, new_inquiry,
}
use nft_torrent.Bot.Inquiries.WellFormed.{IsWellFormed}
use nft_torrent.Bot.Inquiries.Split.{split, Other, keep_split, update_split, absent-keep}
use nft_torrent.Bot.Inquiries.Around.{allow-may}
use nft_torrent.Bot.Dialogue.{
  InquiryAction, cancel, submit, next_step, reply, reply_cancel, close, block_user, Context,
  Handled, App, Update, Sent, require,
}
use nft_torrent.Bot.Dialogue.Form.{submit_inquiry, submit_listed, created}
use nft_torrent.Bot.Dialogue.Replies.{user_get_reply, settle_reply, user_update, of_base, of_get}
use mathlib.Core.Path.{subst₂}
use nft_torrent.Ipfs.Content.{equals}
use Prim.Native.String.{String}

-- The rows of the other users
abbrev pub of_others : ℕ → Inquiries → List UserInquiry
of_others u db = keep (λ x. not (x.user_id == u)) db.rows

pub keep_append :
    (p : UserInquiry → Bool) (xs ys zs : List UserInquiry)
    → keep p ys ≡ keep p zs
    → keep p (xs ++ ys) ≡ keep p (xs ++ zs)
keep_append p [] ys zs e = e
keep_append p (x ∷ xs) ys zs e = elim (Bool-cases (p x)) [
  | inl hit ↦ rw hit (rw (keep_append p xs ys zs e) refl)
  | inr miss ↦ rw miss (keep_append p xs ys zs e)
]

pub keep_dropped :
    (p : UserInquiry → Bool) (x : UserInquiry) (xs : List UserInquiry)
    → p x ≡ false
    → keep p (xs ++ x ∷ []) ≡ keep p xs
keep_dropped p x [] e = rw e refl
keep_dropped p x (y ∷ xs) e = elim (Bool-cases (p y)) [
  | inl hit ↦ rw hit (rw (keep_dropped p x xs e) refl)
  | inr miss ↦ rw miss (keep_dropped p x xs e)
]

pub create-of_others :
    (now : ℕ) (user : User) (form : Submission) (db : Inquiries)
    → of_others user.id (sync_inquiry_create now user form db).1 ≡ of_others user.id db
unfolding sync_inquiry_create
create-of_others now user form db =
    let x = new_inquiry now user form db.next_id in
    let mine : (user.id == user.id) ≡ true = ground arith in
    elim (Bool-cases (row_fits x)) [
      | inr long ↦ rw long refl
      | inl fits ↦ elim (Bool-cases (any (λ y. conflicts y x) db.rows)) [
        | inl clash ↦ rw (fits, clash) refl
        | inr free ↦
            rw (fits, free)
              (keep_dropped (λ y. not (y.user_id == user.id)) x db.rows (rw mine refl))
      ]
    ]

pub close-split-of_others :
    (now : ℕ) (u : ℕ) (m : Option String) (x : UserInquiry) (xs ys : List UserInquiry) (n : ℕ)
    → All (Other x) xs
    → All (Other x) ys
    → let db : Inquiries = record { rows = xs ++ x ∷ ys; next_id = n } in
      of_others u (sync_inquiry_close now x.inquiry_id (some u) none m db).1 ≡ of_others u db
unfolding sync_inquiry_close
close-split-of_others now u m x xs ys n a b =
    let f = close_inquiry now (some u) m in
    rw (keep_split x ys xs a b) (elim (allow-may (some u) x) [
      | inr (cannot, e, refused) ↦ rw (refused, commit) refl
      | inl (can, e) ↦
          let mine : (x.user_id == u) ≡ true = ground arith in
          elim (Result-cases (base_inquiry (f x))) [
            | inr (bad, raised) ↦ rw (e, raised, commit) refl
            | inl (base, good) ↦ elim (Bool-cases (reply_fits (f x))) [
              | inr long ↦ rw (e, good, commit, long) refl
              | inl fits ↦
                  rw (e, good, commit, fits, update_split x ys f xs a b)
                    (keep_append (λ y. not (y.user_id == u)) xs (f x ∷ ys) (x ∷ ys) (rw mine refl))
            ]
          ]
    ])

pub close-of_others :
    (now : ℕ) (key : String) (u : ℕ) (m : Option String) (db : Inquiries)
    → IsWellFormed db
    → of_others u (sync_inquiry_close now key (some u) none m db).1 ≡ of_others u db
unfolding sync_inquiry_close
close-of_others now key u m db w = elim (split key db.rows w.1) [
  | inl absent ↦ rw ((absent-keep key db.rows absent).0) refl
  | inr (xs, ys, x, e, k, a, b) ↦
      subst₂
        (λ rows key.
          (let db' : Inquiries = record { rows = rows; next_id = db.next_id } in
            of_others u (sync_inquiry_close now key (some u) none m db').1 ≡ of_others u db'))
        (sym e) k (close-split-of_others now u m x xs ys db.next_id a b)
]

-- What a handler leaves of the rows of other users
abbrev pub Protects : ℕ → Inquiries → Handled → Type 0
Protects u db h = of_others u h.table ≡ of_others u db

pub require-Protects {ℓ} :
    {A : Type ℓ} (u : ℕ) (db : Inquiries) (o : Option A) (h : Handled) (f : A → Handled)
    → Protects u db h
    → ((a : A) → Protects u db (f a))
    → Protects u db (require o h f)
require-Protects u db none h f p q = p
require-Protects u db (some a) h f p q = q a

pub if-Protects :
    (u : ℕ) (db : Inquiries) (b : Bool) (h h' : Handled)
    → Protects u db h
    → Protects u db h'
    → Protects u db (if b then h else h')
if-Protects u db true h h' p q = p
if-Protects u db false h h' p q = q

pub created-Protects :
    (u : Update) (id : ℕ) (form : Submission) (c : Context) (db : Inquiries)
    (r : Result BackendError BaseInquiry × Inquiries)
    → of_others u.from_user.id r.1 ≡ of_others u.from_user.id db
    → Protects u.from_user.id db (created u id form c r)
created-Protects u id form c db (ok x, db') e = e
created-Protects u id form c db (err x, db') e = e

pub submit_listed-Protects :
    (u : Update) (id : ℕ) (form : Submission) (c : Context) (db : Inquiries)
    (r : Result BackendError (List BaseInquiry))
    → Protects u.from_user.id db (submit_listed u id form c db r)
submit_listed-Protects u id form c db (err e) = refl
submit_listed-Protects u id form c db (ok (x ∷ xs)) = refl
submit_listed-Protects u id form c db (ok []) =
    created-Protects u id form c db (sync_inquiry_create u.now u.from_user form db)
      (create-of_others u.now u.from_user form db)

pub settle_reply-Protects :
    (u : ℕ) (c : Context) (db : Inquiries) (answers : Option (ℕ × Option String) → List Sent)
    (r : Result BackendError (Option (ℕ × Option String)) × Inquiries)
    → of_others u r.1 ≡ of_others u db
    → Protects u db (settle_reply c answers r)
settle_reply-Protects u c db answers (ok x, db') e = e
settle_reply-Protects u c db answers (err x, db') e = e

pub of_base-table : (r : Result BackendError BaseInquiry × Inquiries) → (of_base r).1 ≡ r.1
of_base-table (ok x, db) = refl
of_base-table (err x, db) = refl

pub of_get-table : (r : Result BackendError UserInquiry) (db : Inquiries) → (of_get r db).1 ≡ db
of_get-table (ok x) db = refl
of_get-table (err x) db = refl

pub user_update-of_others :
    (app : App) (u : Update) (key : String) (action : InquiryAction) (db : Inquiries)
    → IsWellFormed db
    → of_others u.from_user.id (user_update app u key action db).1 ≡ of_others u.from_user.id db
user_update-of_others app u key close db w =
    rw (of_base-table (sync_inquiry_close u.now key (some u.from_user.id) none none db))
      (close-of_others u.now key u.from_user.id none db w)
user_update-of_others app u key reply db w = rw (of_get-table (app.inquiry_get key) db) refl
user_update-of_others app u key cancel db w = refl
user_update-of_others app u key submit db w = refl
user_update-of_others app u key next_step db w = refl
user_update-of_others app u key reply_cancel db w = refl
user_update-of_others app u key block_user db w = refl

module _ (app : App) (u : Update) (c : Context) (db : Inquiries) (w : IsWellFormed db) where
  pub submit_inquiry-Protects :
      (id : ℕ) (key : String) → Protects u.from_user.id db (submit_inquiry app u id key c db)
  unfolding submit_inquiry
  submit_inquiry-Protects id key =
      let i = u.from_user.id in
      if-Protects i db (equals c.fields.inquiry_id (some key)) _ _
        (require-Protects i db c.fields.message _ _ refl (λ m.
          require-Protects i db c.fields.subject _ _ refl (λ s.
            if-Protects i db app.has_backend _ _ (submit_listed-Protects u id _ c db _) refl)))
        refl

  pub user_get_reply-Protects :
      (id : ℕ) (text : Option String)
      → Protects u.from_user.id db (user_get_reply app u id text c db)
  unfolding user_get_reply
  user_get_reply-Protects id text =
      let i = u.from_user.id in
      require-Protects i db c.fields.reply_action _ _ refl (λ action.
        require-Protects i db c.fields.inquiry_id _ _ refl (λ key.
          require-Protects i db c.fields.message_id _ _ refl (λ m.
            settle_reply-Protects i c db _ (user_update app u key action db)
              (user_update-of_others app u key action db w))))
