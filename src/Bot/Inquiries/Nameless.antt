-- ===== src/Bot/Inquiries/Nameless.antt =====
-- Inquiries of users without a user name: BaseInquiry of NFTorrent/bot/main.py has to have one, and
-- UserInquiry of NFTorrent/dbmodels.py does not.
use nft_torrent.Base.{
  ℕ, ◌+◌, ◌≡◌, refl, Bool, true, false, not, ◌&&◌, ◌||◌, Option, none, some, List, [], ◌∷◌, ◌++◌,
  arith, ◌==◌, keep, inl, inr, Bool-cases,
}
use nft_torrent.Base.Result.{err}
use nft_torrent.Bot.Inquiries.{
  UserInquiry, Inquiries, User, Submission, is_open, has_id, conflicts, any, new_inquiry, row_fits,
  commit, or_else, close_inquiry, block_inquiry, sync_inquiry_create, sync_inquiry_close,
  sync_inquiry_block, sync_inquiry_list, validation_error, listed, closable,
}
use nft_torrent.Bot.Inquiries.Around.{allow-may}
use Prim.Native.String.{String}
use text.Mathlib.TextEquality.{eq_iff}

keep_last :
    (f : UserInquiry → Bool) (x : UserInquiry) (zs : List UserInquiry)
    → any f zs ≡ false
    → f x ≡ true
    → keep f (zs ++ x ∷ []) ≡ x ∷ []
keep_last f x [] e h = rw h refl
keep_last f x (z ∷ zs) e h = elim (Bool-cases (f z)) [
  | inl hit ↦ (let clash = (rw hit at e) in ground arith)
  | inr miss ↦ rw miss (keep_last f x zs (rw miss at e) h)
]

any_weaker :
    (f g : UserInquiry → Bool) (zs : List UserInquiry)
    → ((z : UserInquiry) → f z ≡ false → g z ≡ false)
    → any f zs ≡ false
    → any g zs ≡ false
any_weaker f g [] h e = refl
any_weaker f g (z ∷ zs) h e = elim (Bool-cases (f z)) [
  | inl hit ↦ (let clash = (rw hit at e) in ground arith)
  | inr miss ↦ rw (h z miss) (any_weaker f g zs h (rw miss at e))
]

or_false : (a b : Bool) → (a || b) ≡ false → (a ≡ false) × (b ≡ false)
or_false true b e = ground arith
or_false false b e = (refl, e)

listed_false : (a b : Bool) → (a && (b && true)) ≡ false → (b && not (not a)) ≡ false
listed_false true true e = e
listed_false true false e = refl
listed_false false true e = refl
listed_false false false e = refl

commit-nameless :
    (f : UserInquiry → UserInquiry) (user_id : Option ℕ) (x : UserInquiry) (db : Inquiries)
    → keep (has_id x.inquiry_id) db.rows ≡ x ∷ []
    → (f x).username ≡ none
    → (commit f db (closable x.inquiry_id user_id db)).1 ≡ db
commit-nameless f user_id x db only nameless = rw only (elim (allow-may user_id x) [
  | inl (can, e) ↦ rw (e, nameless, commit) refl
  | inr (cannot, e, refused) ↦ rw (refused, commit) refl
])

-- An inquiry of a user without a user name is stored, although its creation raises: then neither
-- the user nor an administrator can close or block it in this table, at any time, and the list of
-- the user's inquiries raises. The columns of the table must hold the inquiry, and it must break no
-- unique constraint.
pub create_nameless :
    (now later : ℕ) (user : User) (form : Submission) (db : Inquiries)
    → user.username ≡ none
    → row_fits (new_inquiry now user form db.next_id) ≡ true
    → any (λ y. conflicts y (new_inquiry now user form db.next_id)) db.rows ≡ false
    → let (r, db') = sync_inquiry_create now user form db in
      (r ≡ err validation_error)
      × (db'.rows ≡ db.rows ++ new_inquiry now user form db.next_id ∷ [])
      × ((user_id admin : Option ℕ) (m : Option String)
          → (sync_inquiry_close later form.inquiry_id user_id admin m db').1 ≡ db')
      × ((admin : Option ℕ) (m : Option String) (hours : ℕ)
          → (sync_inquiry_block later form.inquiry_id admin m hours db').1 ≡ db')
      × (sync_inquiry_list (some user.id) 0 20 db' ≡ err validation_error)
unfolding sync_inquiry_create sync_inquiry_close sync_inquiry_block sync_inquiry_list
create_nameless now later user form db nameless fits free =
    let x = new_inquiry now user form db.next_id in
    let self = (eq_iff form.inquiry_id form.inquiry_id).1 refl in
    let mine : (user.id == user.id) ≡ true = ground arith in
    let only =
      keep_last (has_id form.inquiry_id) x db.rows
        (any_weaker (λ y. conflicts y x) (has_id form.inquiry_id) db.rows
          (λ z h.
            (or_false (has_id form.inquiry_id z) (z.user_id == user.id && (is_open z && true)) h).0)
          free)
        self in
    let open_one =
      keep_last (listed (some user.id)) x db.rows
        (any_weaker (λ y. conflicts y x) (listed (some user.id)) db.rows
          (λ z h.
            listed_false (z.user_id == user.id) (is_open z)
              (or_false (has_id form.inquiry_id z) (z.user_id == user.id && (is_open z && true))
                h).1)
          free)
        (rw mine refl) in
    let db' : Inquiries = record { rows = db.rows ++ x ∷ []; next_id = db.next_id + 1 } in
    rw (fits, free)
      (
        rw nameless refl,
        refl,
        (λ user_id admin m.
            commit-nameless (close_inquiry later (or_else admin user_id) m) user_id x db' only
              nameless),
        (λ admin m hours.
            commit-nameless (block_inquiry later admin m hours) none x db' only nameless),
        rw (open_one, nameless) refl,
      )
