-- ===== src/Bot/Inquiries/Refinement.antt =====
-- The table of inquiries as a desk, where a user has at most one open inquiry: sync_inquiry_create,
-- sync_inquiry_close and sync_inquiry_block of NFTorrent/bot/backend.py.
use nft_torrent.Base.{
  ℕ, ◌≡◌, refl, sym, Bool, true, false, ◌&&◌, Option, none, List, [], ◌∷◌, ◌++◌, is_some, All, inl,
  inr, Bool-cases,
}
use nft_torrent.Bot.Inquiries.{
  UserInquiry, Inquiries, has_id, closable, close_inquiry, block_inquiry, or_else,
  sync_inquiry_close, sync_inquiry_block,
}
use nft_torrent.Bot.Inquiries.WellFormed.{
  Distinct, IsWellFormed, commit-IsWellFormed, create-IsWellFormed, close_inquiry-IsHarmless,
  block_inquiry-IsHarmless,
}
use nft_torrent.Bot.Inquiries.Split.{Other, split, All_middle, absent-keep}
use mathlib.Core.Path.{subst}
use Prim.Native.String.{String}
use nft_torrent.Bot.Inquiries.Desk.{
  Command, create, close, block, run, columns_hold, desk_of, IsNamed, IsNamedCommand, Follows,
}
use nft_torrent.Bot.Inquiries.Around.{
  create-Follows, split-owner, close-split, block-split, owner_kept, commit-split, commit-refused,
}

and_false : (b : Bool) → (b && false) ≡ false
and_false true = refl
and_false false = refl

close-split-Follows :
    (now : ℕ) (user_id admin_user_id : Option ℕ) (m : Option String) (x : UserInquiry)
    (xs ys : List UserInquiry) (n : ℕ)
    → All (Other x) xs
    → All (Other x) ys
    → is_some x.username ≡ true
    → let db : Inquiries = record { rows = xs ++ x ∷ ys; next_id = n } in
      Follows
        (close x.inquiry_id user_id admin_user_id m)
        (desk_of db)
        (sync_inquiry_close now x.inquiry_id user_id admin_user_id m db)
unfolding sync_inquiry_close
close-split-Follows now user_id admin_user_id m x xs ys n a b named_x =
    let closer = or_else admin_user_id user_id in
    let f = close_inquiry now closer m in
    let db : Inquiries = record { rows = xs ++ x ∷ ys; next_id = n } in
    elim (Bool-cases (columns_hold (close x.inquiry_id user_id admin_user_id m))) [
      | inr long ↦
          let (bad, e) = commit-refused f db (closable x.inquiry_id user_id db) (λ y. long) in
          rw (long, bad, e) (refl, ((λ v. refl), (λ k. refl)))
      | inl fits ↦ elim (commit-split f user_id x xs ys n a b named_x fits) [
        | inl (can, o, good, e) ↦
            rw (fits, can, good, e, split-owner x xs ys a b)
              (
                refl,
                (
                  (λ v. close-split x xs ys a b now closer m v o),
                  (λ k. owner_kept x xs ys a b f k (close_inquiry-IsHarmless now closer m)),
                ),
              )
        | inr (cannot, bad, e) ↦ rw (fits, cannot, bad, e) (refl, ((λ v. refl), (λ k. refl)))
      ]
    ]

block-split-Follows :
    (now : ℕ) (admin : Option ℕ) (m : Option String) (hours : ℕ) (x : UserInquiry)
    (xs ys : List UserInquiry) (n : ℕ)
    → All (Other x) xs
    → All (Other x) ys
    → is_some x.username ≡ true
    → let db : Inquiries = record { rows = xs ++ x ∷ ys; next_id = n } in
      Follows
        (block x.inquiry_id admin m hours)
        (desk_of db)
        (sync_inquiry_block now x.inquiry_id admin m hours db)
unfolding sync_inquiry_block
block-split-Follows now admin m hours x xs ys n a b named_x =
    let f = block_inquiry now admin m hours in
    let db : Inquiries = record { rows = xs ++ x ∷ ys; next_id = n } in
    elim (Bool-cases (columns_hold (block x.inquiry_id admin m hours))) [
      | inr long ↦
          let (bad, e) = commit-refused f db (closable x.inquiry_id none db) (λ y. long) in
          rw (long, bad, e) (refl, ((λ v. refl), (λ k. refl)))
      | inl fits ↦ elim (commit-split f none x xs ys n a b named_x fits) [
        | inl (can, o, good, e) ↦
            rw (fits, can, good, e)
              (
                refl,
                (
                  (λ v. block-split x xs ys a b now admin m hours v),
                  (λ k. owner_kept x xs ys a b f k (block_inquiry-IsHarmless now admin m hours)),
                ),
              )
        | inr (cannot, bad, e) ↦ rw (fits, cannot, bad, e) (refl, ((λ v. refl), (λ k. refl)))
      ]
    ]

-- A command about an inquiry that is on the table, or is not
module _ (now : ℕ) (c : Command) (key : String) (db : Inquiries) where
  present-Follows :
      ((x : UserInquiry) (xs ys : List UserInquiry)
        → All (Other x) xs
        → All (Other x) ys
        → is_some x.username ≡ true
        → x.inquiry_id ≡ key
        → let db' : Inquiries = record { rows = xs ++ x ∷ ys; next_id = db.next_id } in
          Follows c (desk_of db') (run now c db'))
      → (All (λ y. has_id key y ≡ false) db.rows → Follows c (desk_of db) (run now c db))
      → Distinct db.rows
      → IsNamed db.rows
      → Follows c (desk_of db) (run now c db)
  present-Follows found missing d n = elim (split key db.rows d) [
    | inl absent ↦ missing absent
    | inr (xs, ys, x, e, k, a, b) ↦
        subst
          (λ rows.
            (let db' : Inquiries = record { rows = rows; next_id = db.next_id } in
              Follows c (desk_of db') (run now c db')))
          (sym e)
          (found x xs ys a b (All_middle (λ y. is_some y.username ≡ true) xs ys x (rw e at n)) k)
  ]

-- Under its unique constraints, and with the names of the users known, the table of inquiries
-- implements a desk where each user has at most one open inquiry: a command returns exactly when
-- the columns of the table hold its values and the desk allows it, and it then changes the open
-- inquiry of each user and the user of each inquiry as on the desk, and else not at all.
pub run-Follows :
    (now : ℕ) (c : Command) (db : Inquiries)
    → IsWellFormed db
    → IsNamed db.rows
    → IsNamedCommand c
    → Follows c (desk_of db) (run now c db)
unfolding sync_inquiry_close sync_inquiry_block
run-Follows now (create user form) db w n m = create-Follows now user form db m
run-Follows now (close key user_id admin m) db w n t =
    present-Follows now (close key user_id admin m) key db
      (λ x xs ys a b named_x k.
        subst
          (λ key.
            (let db' : Inquiries = record { rows = xs ++ x ∷ ys; next_id = db.next_id } in
              let c = close key user_id admin m in Follows c (desk_of db') (run now c db')))
          k (close-split-Follows now user_id admin m x xs ys db.next_id a b named_x))
      (λ absent.
        let (none_kept, no_owner) = absent-keep key db.rows absent in
        rw (none_kept, no_owner, and_false (columns_hold (close key user_id admin m)))
          (refl, ((λ v. refl), (λ k. refl))))
      w.1 n
run-Follows now (block key admin m hours) db w n t =
    present-Follows now (block key admin m hours) key db
      (λ x xs ys a b named_x k.
        subst
          (λ key.
            (let db' : Inquiries = record { rows = xs ++ x ∷ ys; next_id = db.next_id } in
              let c = block key admin m hours in Follows c (desk_of db') (run now c db')))
          k (block-split-Follows now admin m hours x xs ys db.next_id a b named_x))
      (λ absent.
        let (none_kept, no_owner) = absent-keep key db.rows absent in
        rw (none_kept, no_owner, and_false (columns_hold (block key admin m hours)))
          (refl, ((λ v. refl), (λ k. refl))))
      w.1 n

-- Any number of operations on the table, from the empty one, at any times and by any users
pub data Reached : Inquiries → Type 0 where
  empty : Reached (record { rows = []; next_id = 1 })
  after : {db : Inquiries} (now : ℕ) (c : Command) → Reached db → Reached (run now c db).1

pub run-IsWellFormed :
    (now : ℕ) (c : Command) (db : Inquiries) → IsWellFormed db → IsWellFormed (run now c db).1
unfolding sync_inquiry_close sync_inquiry_block
run-IsWellFormed now (create user form) db w = create-IsWellFormed now user form db w
run-IsWellFormed now (close key user_id admin m) db w =
    let closer = or_else admin user_id in
    commit-IsWellFormed (close_inquiry now closer m) db (closable key user_id db)
      (close_inquiry-IsHarmless now closer m) w
run-IsWellFormed now (block key admin m hours) db w =
    commit-IsWellFormed (block_inquiry now admin m hours) db (closable key none db)
      (block_inquiry-IsHarmless now admin m hours) w

-- Whatever operations users and administrators make, and in whatever order, no two rows of the
-- table share an id or an inquiry_id, and no user has two open inquiries.
pub Reached-IsWellFormed : {db : Inquiries} → Reached db → IsWellFormed db
Reached-IsWellFormed empty = (tt, tt)
Reached-IsWellFormed (after now c r) = run-IsWellFormed now c _ (Reached-IsWellFormed r)
