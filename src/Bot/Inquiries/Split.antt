-- ===== src/Bot/Inquiries/Split.antt =====
-- A table of inquiries around the row of one inquiry: the open inquiry of each user, and the user
-- of each inquiry.
use nft_torrent.Base.{
  ℕ, ◌≡◌, refl, sym, ap, ◌⊎◌, true, false, ◌&&◌, ◌||◌, Option, none, some, List, [], ◌∷◌, ◌++◌, map,
  arith, ◌==◌, if◌then◌else◌, is_some, All, keep, inl, inr, Bool-cases,
}
use nft_torrent.Bot.Inquiries.{UserInquiry, is_open, has_id, update_row, conflicts, any}
use nft_torrent.Bot.Inquiries.WellFormed.{Apart, Distinct, All-imp}
use nft_torrent.Ipfs.Content.{equals}
use Prim.Native.String.{String}
use text.Mathlib.TextEquality.{eq_iff}
use text.Mathlib.Text.{◌==◌ as str_eq}

-- The open inquiry of a user, and the user of an inquiry
abbrev pub current_of : List UserInquiry → ℕ → Option String
current_of [] u = none
current_of (y ∷ ys) u = if y.user_id == u && is_open y then some y.inquiry_id else current_of ys u

abbrev pub owner_of : List UserInquiry → String → Option ℕ
owner_of [] k = none
owner_of (y ∷ ys) k = if str_eq y.inquiry_id k then some y.user_id else owner_of ys k

-- The row is another one than that of x, and may stand in the same table.
abbrev pub Other : UserInquiry → UserInquiry → Type 0
Other x y =
    ((y.id == x.id) ≡ false)
    × (str_eq y.inquiry_id x.inquiry_id ≡ false)
    × ((y.user_id == x.user_id) ≡ true → is_open x ≡ true → is_open y ≡ false)

pub str_eq_sym : (a b : String) → str_eq a b ≡ false → str_eq b a ≡ false
str_eq_sym a b e = elim (Bool-cases (str_eq b a)) [
  | inl same ↦ (let q = (eq_iff a b).1 (sym ((eq_iff b a).0 same)) in ground arith)
  | inr differ ↦ differ
]

Apart-Other : (x y : UserInquiry) → Apart x y → Other x y
Apart-Other x y (i, k, u) =
    (ground arith, str_eq_sym x.inquiry_id y.inquiry_id k, λ e o. u (ground arith) o)

Apart-Other_flipped : (x y : UserInquiry) → Apart y x → Other x y
Apart-Other_flipped x y (i, k, u) = (
  i,
  k,
  λ e o. elim (Bool-cases (is_open y)) [
    | inl opened ↦ (let c = u e opened in ground arith)
    | inr closed ↦ closed
  ],
)

pub All_middle : {A : Type 0} (P : A → Type 0) (xs ys : List A) (x : A) → All P (xs ++ x ∷ ys) → P x
All_middle P [] ys x (h, t) = h
All_middle P (z ∷ xs) ys x (h, t) = All_middle P xs ys x t

-- A table without the inquiry, or around its row
pub split :
    (key : String) (rows : List UserInquiry)
    → Distinct rows
    → All (λ y. has_id key y ≡ false) rows
      ⊎ ((xs ys : List UserInquiry) × (x : UserInquiry) × (rows ≡ xs ++ x ∷ ys)
          × (x.inquiry_id ≡ key)
          × All (Other x) xs
          × All (Other x) ys)
split key [] d = inl tt
split key (y ∷ rows) (a, d) = elim (Bool-cases (has_id key y)) [
  | inl hit ↦ inr (
    [],
    rows,
    y,
    refl,
    (eq_iff y.inquiry_id key).0 hit,
    tt,
    All-imp (Apart y) (Other y) rows (λ z. Apart-Other y z) a,
  )
  | inr miss ↦ elim (split key rows d) [
    | inl absent ↦ inl (miss, absent)
    | inr (xs, ys, x, e, k, before, after) ↦ inr (
      y ∷ xs,
      ys,
      x,
      ap (λ r. y ∷ r) e,
      k,
      (Apart-Other_flipped x y (All_middle (Apart y) xs ys x (rw e at a)), before),
      after,
    )
  ]
]

keep_others :
    (x : UserInquiry) (ys : List UserInquiry)
    → All (Other x) ys
    → keep (has_id x.inquiry_id) ys ≡ []
keep_others x [] b = refl
keep_others x (y ∷ ys) ((i, k, u), b) = rw k (keep_others x ys b)

update_others :
    (f : UserInquiry → UserInquiry) (x : UserInquiry) (ys : List UserInquiry)
    → All (Other x) ys
    → map (update_row x.id f) ys ≡ ys
update_others f x [] b = refl
update_others f x (y ∷ ys) ((i, k, u), b) = rw i (ap (λ r. y ∷ r) (update_others f x ys b))

module _ (x : UserInquiry) (ys : List UserInquiry) where
  pub keep_split :
      (xs : List UserInquiry)
      → All (Other x) xs
      → All (Other x) ys
      → keep (has_id x.inquiry_id) (xs ++ x ∷ ys) ≡ x ∷ []
  keep_split [] a b =
      rw ((eq_iff x.inquiry_id x.inquiry_id).1 refl) (ap (λ r. x ∷ r) (keep_others x ys b))
  keep_split (z ∷ xs) ((i, k, u), c) b = rw k (keep_split xs c b)

  pub owner_split :
      (k : String) (xs : List UserInquiry)
      → All (Other x) xs
      → owner_of (xs ++ x ∷ ys) k
        ≡ (if str_eq x.inquiry_id k then some x.user_id else owner_of (xs ++ ys) k)
  owner_split k [] a = refl
  owner_split k (z ∷ xs) ((i, d, u), c) = elim (Bool-cases (str_eq z.inquiry_id k)) [
    | inl hit ↦
        let other = (rw ((eq_iff z.inquiry_id k).0 hit) at d) in
        rw (hit, str_eq_sym k x.inquiry_id other) refl
    | inr miss ↦ rw miss (owner_split k xs c)
  ]

  pub current_split :
      (u : ℕ) (xs : List UserInquiry)
      → All (Other x) xs
      → current_of (xs ++ x ∷ ys) u
        ≡ (if x.user_id == u && is_open x then some x.inquiry_id else current_of (xs ++ ys) u)
  current_split u [] a = refl
  current_split u (z ∷ xs) ((i, d, o), c) = elim (Bool-cases (z.user_id == u && is_open z)) [
    | inl hit ↦ ground (arith, o)
    | inr miss ↦ rw miss (current_split u xs c)
  ]

  pub update_split :
      (f : UserInquiry → UserInquiry) (xs : List UserInquiry)
      → All (Other x) xs
      → All (Other x) ys
      → map (update_row x.id f) (xs ++ x ∷ ys) ≡ xs ++ f x ∷ ys
  update_split f [] a b =
      let same : (x.id == x.id) ≡ true = ground arith in
      rw same (ap (λ r. f x ∷ r) (update_others f x ys b))
  update_split f (z ∷ xs) ((i, k, u), c) b = rw i (ap (λ r. z ∷ r) (update_split f xs c b))

pub others_closed :
    (x : UserInquiry) (zs : List UserInquiry)
    → All (Other x) zs
    → is_open x ≡ true
    → current_of zs x.user_id ≡ none
others_closed x [] a o = refl
others_closed x (z ∷ zs) ((i, d, u), a) o =
    elim (Bool-cases (z.user_id == x.user_id && is_open z)) [
      | inl hit ↦ ground (arith, u)
      | inr miss ↦ rw miss (others_closed x zs a o)
    ]

pub others_differ :
    (x : UserInquiry) (u : ℕ) (zs : List UserInquiry)
    → All (Other x) zs
    → equals (current_of zs u) (some x.inquiry_id) ≡ false
others_differ x u [] a = refl
others_differ x u (z ∷ zs) ((i, d, o), a) = elim (Bool-cases (z.user_id == u && is_open z)) [
  | inl hit ↦ rw hit d
  | inr miss ↦ rw miss (others_differ x u zs a)
]

pub absent-keep :
    (key : String) (zs : List UserInquiry)
    → All (λ y. has_id key y ≡ false) zs
    → (keep (has_id key) zs ≡ []) × (owner_of zs key ≡ none)
absent-keep key [] a = (refl, refl)
absent-keep key (z ∷ zs) (h, a) = rw h (absent-keep key zs a)

-- A new row breaks no constraint exactly when the inquiry has no user and the user no open inquiry.
pub any-conflicts :
    (x : UserInquiry) (zs : List UserInquiry)
    → is_open x ≡ true
    → any (λ y. conflicts y x) zs
      ≡ (is_some (owner_of zs x.inquiry_id) || is_some (current_of zs x.user_id))
any-conflicts x [] o = refl
any-conflicts x (z ∷ zs) o = elim (Bool-cases (str_eq z.inquiry_id x.inquiry_id)) [
  | inl same ↦ rw same refl
  | inr differ ↦ elim (Bool-cases (z.user_id == x.user_id && is_open z)) [
    | inl hit ↦ ground (arith, any-conflicts x zs o)
    | inr miss ↦ ground (arith, any-conflicts x zs o)
  ]
]

module _ (x : UserInquiry) (o : is_open x ≡ true) where
  pub owner_append :
      (k : String) (zs : List UserInquiry)
      → owner_of zs x.inquiry_id ≡ none
      → owner_of (zs ++ x ∷ []) k
        ≡ (if str_eq x.inquiry_id k then some x.user_id else owner_of zs k)
  owner_append k [] e = refl
  owner_append k (z ∷ zs) e = elim (Bool-cases (str_eq z.inquiry_id x.inquiry_id)) [
    | inl same ↦ (let e' = (rw same at e) in ground arith)
    | inr differ ↦ elim (Bool-cases (str_eq z.inquiry_id k)) [
      | inl hit ↦
          let other = (rw ((eq_iff z.inquiry_id k).0 hit) at differ) in
          rw (hit, str_eq_sym k x.inquiry_id other) refl
      | inr miss ↦ rw miss (owner_append k zs (rw differ at e))
    ]
  ]

  pub current_append :
      (u : ℕ) (zs : List UserInquiry)
      → current_of zs x.user_id ≡ none
      → current_of (zs ++ x ∷ []) u
        ≡ (if x.user_id == u then some x.inquiry_id else current_of zs u)
  current_append u [] e = rw o (ground arith)
  current_append u (z ∷ zs) e = elim (Bool-cases (z.user_id == x.user_id && is_open z)) [
    | inl same ↦ (let e' = (rw same at e) in ground arith)
    | inr differ ↦ elim (Bool-cases (z.user_id == u && is_open z)) [
      | inl hit ↦ ground arith
      | inr miss ↦ rw miss (current_append u zs (rw differ at e))
    ]
  ]
