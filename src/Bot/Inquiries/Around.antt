-- ===== src/Bot/Inquiries/Around.antt =====
-- A change of one row of the table of inquiries, and the desk before and after it.
use nft_torrent.Base.{
  ℕ, ◌≡◌, refl, sym, ap, ◌∙◌, ◌⊎◌, true, false, ◌&&◌, Option, none, some, List, ◌∷◌, ◌++◌, arith,
  ◌==◌, if◌then◌else◌, is_some, All, All-append, inl, inr, Bool-cases,
}
use nft_torrent.Base.Result.{Result, ok, err, Result-cases}
use nft_torrent.Bot.Inquiries.{
  UserInquiry, Inquiries, BackendError, BaseInquiry, User, Submission, is_open, named, base_inquiry,
  allow, not_an_owner, invalid_state, update, conflicts, any, new_inquiry, row_fits, reply_fits,
  commit, closable, close_inquiry, block_inquiry, sync_inquiry_create,
}
use nft_torrent.Bot.Inquiries.WellFormed.{All-imp, IsHarmless, close_inquiry-IsHarmless}
use nft_torrent.Bot.Inquiries.Split.{
  current_of, owner_of, Other, any-conflicts, owner_split, current_split, keep_split, update_split,
  others_closed, others_differ, current_append, owner_append,
}
use nft_torrent.Ipfs.Content.{equals}
use Prim.Native.String.{String}
use text.Mathlib.TextEquality.{eq_iff}
use nft_torrent.Bot.Inquiries.Desk.{create, may, is_current, desk_of, is_ok, Follows, named-ok}

pub create-Follows :
    (now : ℕ) (user : User) (form : Submission) (db : Inquiries)
    → is_some user.username ≡ true
    → Follows (create user form) (desk_of db) (sync_inquiry_create now user form db)
unfolding sync_inquiry_create
create-Follows now user form db n =
    let x = new_inquiry now user form db.next_id in
    elim (Bool-cases (row_fits x)) [
      | inr long ↦ rw (long) (refl, ((λ v. refl), (λ k. refl)))
      | inl fits ↦ elim (Bool-cases (any (λ y. conflicts y x) db.rows)) [
        | inl clash ↦
            let e = sym (any-conflicts x db.rows refl) ∙ clash in
            rw (fits, clash, e) (refl, ((λ v. refl), (λ k. refl)))
        | inr free ↦
            let e = sym (any-conflicts x db.rows refl) ∙ free in
            rw (fits, free, e)
              (
                named-ok x user.username n,
                (
                  (λ v. current_append x refl v db.rows (ground arith)),
                  (λ k. owner_append x refl k db.rows (ground arith)),
                ),
              )
      ]
    ]

pub allow-may :
    (user_id : Option ℕ) (x : UserInquiry)
    → (((may user_id x.user_id && is_open x) ≡ true) × (allow user_id x ≡ ok x))
      ⊎ (((may user_id x.user_id && is_open x) ≡ false)
          × (e : BackendError) × (allow user_id x ≡ err e))
allow-may none x = elim (Bool-cases (is_open x)) [
  | inl opened ↦ inl (opened, rw opened refl)
  | inr closed ↦ inr (closed, invalid_state, rw closed refl)
]
allow-may (some u) x = elim (Bool-cases (x.user_id == u)) [
  | inl mine ↦ elim (Bool-cases (is_open x)) [
    | inl opened ↦ inl (rw (mine, opened) refl, rw (mine, opened) refl)
    | inr closed ↦ inr (rw (mine, closed) refl, invalid_state, rw (mine, closed) refl)
  ]
  | inr other ↦ inr (rw other refl, not_an_owner, rw other refl)
]

pub Other-IsHarmless :
    (f : UserInquiry → UserInquiry) (x : UserInquiry) (ys : List UserInquiry)
    → IsHarmless f
    → All (Other x) ys
    → All (Other (f x)) ys
Other-IsHarmless f x ys h a =
    All-imp (Other x) (Other (f x)) ys
      (λ y (i, k, u).
        let (id, key, user, o) = h x in
        rw (id, key, user)
          (
            i,
            k,
            λ e opened. elim (Bool-cases (is_open x)) [
              | inl was ↦ u e was
              | inr closed ↦ (let c = o closed in ground arith)
            ],
          ))
      a

-- The desk around the row of an inquiry
module _ (x : UserInquiry) (xs ys : List UserInquiry) (a : All (Other x) xs)
    (b : All (Other x) ys) where
  pub split-owner : owner_of (xs ++ x ∷ ys) x.inquiry_id ≡ some x.user_id
  split-owner =
      rw (owner_split x ys x.inquiry_id xs a, (eq_iff x.inquiry_id x.inquiry_id).1 refl) refl

  pub split-current : equals (current_of (xs ++ x ∷ ys) x.user_id) (some x.inquiry_id) ≡ is_open x
  split-current =
      let same : (x.user_id == x.user_id) ≡ true = ground arith in
      let rest = others_differ x x.user_id (xs ++ ys) (All-append (Other x) xs ys a b) in
      let self = (eq_iff x.inquiry_id x.inquiry_id).1 refl in
      rw (current_split x ys x.user_id xs a, same)
        (elim (Bool-cases (is_open x)) [
          | inl opened ↦ rw (opened) self
          | inr closed ↦ rw (closed) rest
        ])

  pub close-split :
      (now : ℕ) (closer : Option ℕ) (m : Option String) (v : ℕ)
      → is_open x ≡ true
      → current_of (xs ++ close_inquiry now closer m x ∷ ys) v
        ≡ (if x.user_id == v then none else current_of (xs ++ x ∷ ys) v)
  close-split now closer m v o =
      let c = close_inquiry now closer m x in
      let shut =
        Other-IsHarmless (close_inquiry now closer m) x xs (close_inquiry-IsHarmless now closer m)
          a in
      rw (current_split c ys v xs shut, current_split x ys v xs a, o)
        (elim (Bool-cases (x.user_id == v)) [
          | inl mine ↦
              let same : x.user_id ≡ v = ground arith in
              let nothing = others_closed x (xs ++ ys) (All-append (Other x) xs ys a b) o in
              rw mine (rw same at nothing)
          | inr other ↦ rw other refl
        ])

  -- A change that keeps the state, and the keys, keeps the desk.
  pub block-split :
      (now : ℕ) (admin : Option ℕ) (m : Option String) (hours : ℕ) (v : ℕ)
      → current_of (xs ++ block_inquiry now admin m hours x ∷ ys) v ≡ current_of (xs ++ x ∷ ys) v
  block-split now admin m hours v =
      rw (current_split (block_inquiry now admin m hours x) ys v xs a, current_split x ys v xs a)
        refl

  pub owner_kept :
      (f : UserInquiry → UserInquiry) (k : String)
      → IsHarmless f
      → owner_of (xs ++ f x ∷ ys) k ≡ owner_of (xs ++ x ∷ ys) k
  owner_kept f k h =
      let (i, key, u, o) = h x in
      rw (owner_split (f x) ys k xs (Other-IsHarmless f x xs h a), owner_split x ys k xs a, key, u)
        refl

pub named_base :
    (x : UserInquiry) (name : Option String)
    → is_some name ≡ true
    → (b : BaseInquiry) × (named x name ≡ ok b)
named_base x none e = ground arith
named_base x (some name) e = (_, refl)

pub commit-ok :
    (f : UserInquiry → UserInquiry) (x : UserInquiry) (db : Inquiries)
    → is_some (f x).username ≡ true
    → reply_fits (f x) ≡ true
    → (is_ok (commit f db (ok x)).0 ≡ true) × ((commit f db (ok x)).1 ≡ update x.id f db)
commit-ok f x db e fits =
    let (b, named_x) = named_base (f x) (f x).username e in rw (named_x, commit, fits) (refl, refl)

-- A change that the columns do not hold is refused.
pub commit-refused :
    (f : UserInquiry → UserInquiry) (db : Inquiries) (r : Result BackendError UserInquiry)
    → ((x : UserInquiry) → reply_fits (f x) ≡ false)
    → (is_ok (commit f db r).0 ≡ false) × ((commit f db r).1 ≡ db)
commit-refused f db (err e) long = (refl, refl)
commit-refused f db (ok x) long = elim (Result-cases (base_inquiry (f x))) [
  | inl (b, e) ↦ rw (e, commit, long x) (refl, refl)
  | inr (b, e) ↦ rw (e, commit) (refl, refl)
]

-- A change of an allowed row is committed.
pub commit-split :
    (f : UserInquiry → UserInquiry) (user_id : Option ℕ) (x : UserInquiry)
    (xs ys : List UserInquiry) (n : ℕ)
    → All (Other x) xs
    → All (Other x) ys
    → is_some (f x).username ≡ true
    → reply_fits (f x) ≡ true
    → let db : Inquiries = record { rows = xs ++ x ∷ ys; next_id = n } in
      let r = commit f db (closable x.inquiry_id user_id db) in
      let can = is_current x.inquiry_id user_id (owner_of db.rows x.inquiry_id) (desk_of db) in
      ((can ≡ true)
        × (is_open x ≡ true)
        × (is_ok r.0 ≡ true)
        × (r.1 ≡ record { rows = xs ++ f x ∷ ys; next_id = n }))
      ⊎ ((can ≡ false) × (is_ok r.0 ≡ false) × (r.1 ≡ db))
commit-split f user_id x xs ys n a b named_x fits =
    let done = commit-ok f x (record { rows = xs ++ x ∷ ys; next_id = n }) named_x fits in
    rw (split-owner x xs ys a b, keep_split x ys xs a b, split-current x xs ys a b)
      (elim (allow-may user_id x) [
        | inl (can, e) ↦ inl (
          can,
          ground arith,
          rw e done.0,
          rw e (done.1 ∙ ap (λ r. record { rows = r; next_id = n }) (update_split x ys f xs a b)),
        )
        | inr (cannot, e, refused) ↦
            inr (cannot, rw (refused, commit) refl, rw (refused, commit) refl)
      ])
