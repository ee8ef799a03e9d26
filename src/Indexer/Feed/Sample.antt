-- ===== src/Indexer/Feed/Sample.antt =====
-- What the random feed hands out.
use nft_torrent.Base.{
  ℕ, zero, suc, ◌+◌, ◌-◌, ◌≤◌, ◌<◌, ◌≡◌, refl, ◌⊎◌, none, some, List, [], ◌∷◌, ◌++◌, arith, ltb,
  ◌==◌, count, length, length-append, length-take_le, take, All, Bool-cases, Option-cases, inl, inr,
}
use nft_torrent.Indexer.Feed.{
  Rows, Scan, is_odd, climb, read_segment, is_covered, gather, first_segment, segment_size,
  random_feed,
}

-- How often the row is in the list.
abbrev pub times : ℕ → List ℕ → ℕ
times r xs = count (λ x. x == r) xs

times-append : (r : ℕ) (xs ys : List ℕ) → times r (xs ++ ys) ≡ times r xs + times r ys
times-append r [] ys = omega arith
times-append r (x ∷ xs) ys = omega (arith, times-append r xs ys)

times-outside :
    (lo hi r : ℕ) (xs : List ℕ)
    → All (λ x. (lo ≤ x) × (x < hi)) xs
    → (r < lo) ⊎ (hi ≤ r)
    → times r xs ≡ 0
times-outside lo hi r [] h out = refl
times-outside lo hi r (x ∷ xs) h out = ground (arith, times-outside lo hi r xs h.1 out)

-- All rows so far lie in the part that has been read, each once, and none in the segment to read.
record IsFresh (size : ℕ) (s : Scan) : Type 0 where
  once : (r : ℕ) → times r s.result ≤ 1
  inside : (r : ℕ) → (r < s.p0) ⊎ (s.p1 ≤ r) → times r s.result ≡ 0
  ahead : (r : ℕ) → s.x0 ≤ r → r < s.x1 → times r s.result ≡ 0
  left : s.p0 ≤ s.x0
  right : s.x1 ≤ s.p1
  few : length s.result ≤ size
  ordered : s.p0 ≤ s.p1

-- The same after the segment has been read.
record IsRead (size : ℕ) (s : Scan) : Type 0 where
  once : (r : ℕ) → times r s.result ≤ 1
  inside : (r : ℕ) → (r < s.p0) ⊎ (s.p1 ≤ r) → times r s.result ≡ 0
  few : length s.result ≤ size
  ordered : s.p0 ≤ s.p1

climb-IsFresh : (size : ℕ) (s : Scan) → IsRead size s → IsFresh size (climb s)
unfolding climb
climb-IsFresh size s h = elim (Bool-cases (is_odd s.n)) [
  | inl odd ↦ rw odd (record {
    once = h.once;
    inside = λ r out. h.inside r (omega arith);
    ahead = λ r lo hi. h.inside r (omega arith);
    left = omega arith;
    right = h.ordered;
    few = h.few;
    ordered = omega (arith, h.ordered);
  })
  | inr even ↦ rw even (record {
    once = h.once;
    inside = λ r out. h.inside r (omega arith);
    ahead = λ r lo hi. h.inside r (omega arith);
    left = h.ordered;
    right = omega arith;
    few = h.few;
    ordered = omega (arith, h.ordered);
  })
]

module _ (rows : Rows) (size : ℕ) where
  read_once : (s : Scan) → IsFresh size s → (r : ℕ) → times r (read_segment rows size s).result ≤ 1
  unfolding read_segment
  read_once s h r =
      let n = size - length s.result in
      ground (
        arith,
        times-append r s.result (rows.fetch s.x0 s.x1 n),
        h.once r,
        h.ahead r,
        rows.fetch_once s.x0 s.x1 n r,
        times-outside s.x0 s.x1 r (rows.fetch s.x0 s.x1 n) (rows.fetch_within s.x0 s.x1 n),
      )

  read_inside :
      (s : Scan)
      → IsFresh size s
      → (r : ℕ) → (r < s.p0) ⊎ (s.p1 ≤ r)
      → times r (read_segment rows size s).result ≡ 0
  unfolding read_segment
  read_inside s h r out =
      let n = size - length s.result in
      ground (
        arith,
        h.left,
        h.right,
        times-append r s.result (rows.fetch s.x0 s.x1 n),
        h.inside r out,
        times-outside s.x0 s.x1 r (rows.fetch s.x0 s.x1 n) (rows.fetch_within s.x0 s.x1 n),
      )

  read_few : (s : Scan) → IsFresh size s → length (read_segment rows size s).result ≤ size
  unfolding read_segment
  read_few s h =
      let n = size - length s.result in
      omega (
        arith,
        h.few,
        length-append s.result (rows.fetch s.x0 s.x1 n),
        rows.fetch_limit s.x0 s.x1 n,
      )

  read_segment-IsRead : (s : Scan) → IsFresh size s → IsRead size (read_segment rows size s)
  unfolding read_segment
  read_segment-IsRead s h = record {
    once = read_once s h;
    inside = read_inside s h;
    few = read_few s h;
    ordered = h.ordered;
  }

  abbrev IsSample : List ℕ → Type 0
  IsSample xs = ((r : ℕ) → times r xs ≤ 1) × (length xs ≤ size)

  gather-IsSample :
      (fuel : ℕ) (s : Scan) (xs : List ℕ)
      → IsFresh size s
      → gather rows size fuel s ≡ some xs
      → IsSample xs
  unfolding gather
  gather-IsSample zero s xs h e = cc
  gather-IsSample (suc fuel) s xs h e =
      let t = read_segment rows size s in
      let read = read_segment-IsRead s h in
      elim (Bool-cases (ltb (length s.result) size)) [
        | inr full ↦ let same : s.result ≡ xs = ground arith in rw (← same) (h.once, h.few)
        | inl short ↦ elim (Bool-cases (is_covered rows t)) [
          | inl covered ↦
              let same : t.result ≡ xs = ground arith in rw (← same) (read.once, read.few)
          | inr more ↦ gather-IsSample fuel (climb t) xs (climb-IsFresh size t read) (ground arith)
        ]
      ]

first_segment-IsFresh : (size n : ℕ) → IsFresh size (first_segment size n)
first_segment-IsFresh size n = record {
  once = λ r. omega arith;
  inside = λ r out. refl;
  ahead = λ r lo hi. refl;
  left = omega arith;
  right = omega arith;
  few = omega arith;
  ordered = omega arith;
}

times-take : (r n : ℕ) (xs : List ℕ) → times r (take n xs) ≤ times r xs
times-take r zero xs = omega arith
times-take r (suc n) [] = omega arith
times-take r (suc n) (x ∷ xs) = omega (arith, times-take r n xs)

-- Whenever the feed answers it hands out no more rows than were asked for, and no row twice, if
-- the shuffle only permutes.
pub random_feed_once :
    (rows : Rows) (shuffle : List ℕ → List ℕ) (fuel limit n : ℕ) (xs : List ℕ)
    → ((r : ℕ) (ys : List ℕ) → times r (shuffle ys) ≡ times r ys)
    → random_feed rows shuffle fuel limit n ≡ some xs
    → ((r : ℕ) → times r xs ≤ 1) × (length xs ≤ limit)
unfolding random_feed
random_feed_once rows shuffle fuel limit n xs same e =
    elim (Option-cases
      (gather rows (segment_size limit) fuel (first_segment (segment_size limit) n))) [
        | inl out ↦ let never : none ≡ some xs = rw (out, random_feed) at e in cc
        | inr (ys, found) ↦
            let given : some (take limit (shuffle ys)) ≡ some xs = rw (found, random_feed) at e in
            let same_list : take limit (shuffle ys) ≡ xs = cc in
            let sample =
              gather-IsSample rows (segment_size limit) fuel (first_segment (segment_size limit) n)
                ys (first_segment-IsFresh (segment_size limit) n) found in
            rw (← same_list) (
              (λ r. omega (arith, times-take r limit (shuffle ys), same r ys, sample.0 r)),
              length-take_le limit (shuffle ys),
            )
      ]
