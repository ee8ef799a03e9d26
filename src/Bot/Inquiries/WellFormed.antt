-- ===== src/Bot/Inquiries/WellFormed.antt =====
-- The unique constraints of the table of inquiries are kept by every operation.
use nft_torrent.Base.{
  ℕ, ◌+◌, ◌<◌, ◌≡◌, refl, true, false, Option, List, [], ◌∷◌, ◌++◌, map, arith, ◌==◌, All,
  All-append, inl, inr, Bool-cases,
}
use nft_torrent.Base.Result.{Result, ok, err, Result-cases}
use nft_torrent.Bot.Inquiries.{
  UserInquiry, Inquiries, BackendError, User, Submission, is_open, conflicts, update_row, update,
  any, new_inquiry, base_inquiry, commit, row_fits, reply_fits, close_inquiry, block_inquiry,
  sync_inquiry_create,
}
use Prim.Native.String.{String}
use text.Mathlib.Text.{◌==◌ as str_eq}

-- Two rows that may stand in one table
abbrev pub Apart : UserInquiry → UserInquiry → Type 0
Apart x y =
    ((x.id == y.id) ≡ false)
    × (str_eq x.inquiry_id y.inquiry_id ≡ false)
    × ((x.user_id == y.user_id) ≡ true → is_open x ≡ true → is_open y ≡ false)

abbrev pub Distinct : List UserInquiry → Type 0
Distinct [] = Unit
Distinct (x ∷ xs) = All (Apart x) xs × Distinct xs

abbrev pub IsWellFormed : Inquiries → Type 0
IsWellFormed db = All (λ x. x.id < db.next_id) db.rows × Distinct db.rows

-- A change of a row that can break no constraint
abbrev pub IsHarmless : (UserInquiry → UserInquiry) → Type 0
IsHarmless f =
    (x : UserInquiry)
    → ((f x).id ≡ x.id)
      × ((f x).inquiry_id ≡ x.inquiry_id)
      × ((f x).user_id ≡ x.user_id)
      × (is_open x ≡ false → is_open (f x) ≡ false)

pub map-All :
    {A : Type 0} (P Q : A → Type 0) (f : A → A) (xs : List A)
    → ((x : A) → P x → Q (f x))
    → All P xs
    → All Q (map f xs)
map-All P Q f [] h a = tt
map-All P Q f (x ∷ xs) h a = (h x a.0, map-All P Q f xs h a.1)

pub All-imp :
    {A : Type 0} (P Q : A → Type 0) (xs : List A) → ((x : A) → P x → Q x) → All P xs → All Q xs
All-imp P Q [] h a = tt
All-imp P Q (x ∷ xs) h a = (h x a.0, All-imp P Q xs h a.1)

update_row-IsHarmless :
    (id : ℕ) (f : UserInquiry → UserInquiry) → IsHarmless f → IsHarmless (update_row id f)
update_row-IsHarmless id f h x = elim (Bool-cases (x.id == id)) [
  | inl hit ↦ rw hit (h x)
  | inr miss ↦ rw miss (refl, refl, refl, λ e. e)
]

Apart-IsHarmless :
    (f : UserInquiry → UserInquiry) (x y : UserInquiry)
    → IsHarmless f
    → Apart x y
    → Apart (f x) (f y)
Apart-IsHarmless f x y h (ids, keys, users) =
    let (i, k, u, o) = h x in
    let (i', k', u', o') = h y in
    rw (i, i', k, k', u, u')
      (
        ids,
        keys,
        λ same opened. elim (Bool-cases (is_open x)) [
          | inl was ↦ o' (users same was)
          | inr closed ↦ (let c = o closed in ground arith)
        ],
      )

Distinct-map :
    (f : UserInquiry → UserInquiry) (xs : List UserInquiry)
    → IsHarmless f
    → Distinct xs
    → Distinct (map f xs)
Distinct-map f [] h d = tt
Distinct-map f (x ∷ xs) h d = (
  map-All (Apart x) (Apart (f x)) f xs (λ y a. Apart-IsHarmless f x y h a) d.0,
  Distinct-map f xs h d.1,
)

pub update-IsWellFormed :
    (id : ℕ) (f : UserInquiry → UserInquiry) (db : Inquiries)
    → IsHarmless f
    → IsWellFormed db
    → IsWellFormed (update id f db)
update-IsWellFormed id f db h w = (
  map-All (λ x. x.id < db.next_id) (λ x. x.id < db.next_id) (update_row id f) db.rows
      (λ x l. let (i, r, u, o) = update_row-IsHarmless id f h x in rw i l) w.0,
  Distinct-map (update_row id f) db.rows (update_row-IsHarmless id f h) w.1,
)

pub close_inquiry-IsHarmless :
    (now : ℕ) (closer : Option ℕ) (m : Option String) → IsHarmless (close_inquiry now closer m)
close_inquiry-IsHarmless now closer m x = (refl, refl, refl, λ e. refl)

pub block_inquiry-IsHarmless :
    (now : ℕ) (admin : Option ℕ) (m : Option String) (hours : ℕ)
    → IsHarmless (block_inquiry now admin m hours)
block_inquiry-IsHarmless now admin m hours x = (refl, refl, refl, λ e. e)

pub commit-IsWellFormed :
    (f : UserInquiry → UserInquiry) (db : Inquiries) (r : Result BackendError UserInquiry)
    → IsHarmless f
    → IsWellFormed db
    → IsWellFormed (commit f db r).1
commit-IsWellFormed f db (err e) h w = w
commit-IsWellFormed f db (ok x) h w = elim (Result-cases (base_inquiry (f x))) [
  | inl (b, e) ↦ elim (Bool-cases (reply_fits (f x))) [
    | inl fits ↦ rw (e, commit, fits) (update-IsWellFormed x.id f db h w)
    | inr long ↦ rw (e, commit, long) w
  ]
  | inr (b, e) ↦ rw (e, commit) w
]

conflicts-Apart : (x y : UserInquiry) → (x.id == y.id) ≡ false → conflicts x y ≡ false → Apart x y
conflicts-Apart x y ids e = elim (Bool-cases (str_eq x.inquiry_id y.inquiry_id)) [
  | inl same ↦ (let clash = (rw same at e) in ground arith)
  | inr keys ↦ (ids, keys, λ users opened. let free = (rw (keys, users, opened) at e) in free)
]

any-Apart :
    (x : UserInquiry) (xs : List UserInquiry)
    → any (λ y. conflicts y x) xs ≡ false
    → All (λ y. y.id < x.id) xs
    → All (λ y. Apart y x) xs
any-Apart x [] e l = tt
any-Apart x (y ∷ ys) e (below, l) = elim (Bool-cases (conflicts y x)) [
  | inl clash ↦ (let c = (rw clash at e) in ground arith)
  | inr free ↦ (conflicts-Apart y x (ground arith) free, any-Apart x ys (rw free at e) l)
]

Distinct-append :
    (xs : List UserInquiry) (x : UserInquiry)
    → Distinct xs
    → All (λ y. Apart y x) xs
    → Distinct (xs ++ x ∷ [])
Distinct-append [] x d a = (tt, tt)
Distinct-append (y ∷ ys) x d a =
    (All-append (Apart y) ys (x ∷ []) d.0 (a.0, tt), Distinct-append ys x d.1 a.1)

pub create-IsWellFormed :
    (now : ℕ) (user : User) (form : Submission) (db : Inquiries)
    → IsWellFormed db
    → IsWellFormed (sync_inquiry_create now user form db).1
unfolding sync_inquiry_create
create-IsWellFormed now user form db w =
    let x = new_inquiry now user form db.next_id in
    elim (Bool-cases (row_fits x)) [
      | inr long ↦ rw long w
      | inl fits ↦ elim (Bool-cases (any (λ y. conflicts y x) db.rows)) [
        | inl clash ↦ rw (fits, clash) w
        | inr free ↦
            rw (fits, free)
              (
                All-append (λ y. y.id < db.next_id + 1) db.rows (x ∷ [])
                    (All-imp (λ y. y.id < db.next_id) (λ y. y.id < db.next_id + 1) db.rows
                      (λ y l. omega (arith, l)) w.0)
                    (omega arith, tt),
                Distinct-append db.rows x w.1 (any-Apart x db.rows free w.0),
              )
      ]
    ]
