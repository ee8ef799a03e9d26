-- ===== src/Indexer/Feed.antt =====
-- `IndexDb.sync_collection_random_feed` (NFTorrent/indexer/indexdb.py): a random sample of the
-- table, gathered from a random segment of row ids that grows until it holds enough rows. The
-- database is a function with the laws of `WHERE id >= lo AND id < hi LIMIT n`.
pub mod Sample
pub mod Climb
use nft_torrent.Base.{
  ℕ, zero, suc, ◌+◌, ◌-◌, ◌*◌, ◌/◌, ◌%◌, ◌^◌, ◌≤◌, ◌<◌, ◌≡◌, Bool, true, false, not, ◌&&◌, ◌||◌,
  Option, none, some, List, [], ◌++◌, ltb, leb, ◌==◌, if◌then◌else◌, count, length, take, All,
}

-- The rows that match the query, `fetch lo hi n` with an id from `lo` on, below `hi`, `n` at most.
pub record Rows : Type 0 where
  pub last_id : ℕ
  pub fetch : ℕ → ℕ → ℕ → List ℕ
  pub fetch_within : (lo hi n : ℕ) → All (λ r. (lo ≤ r) × (r < hi)) (fetch lo hi n)
  pub fetch_limit : (lo hi n : ℕ) → length (fetch lo hi n) ≤ n
  pub fetch_once : (lo hi n r : ℕ) → count (λ x. x == r) (fetch lo hi n) ≤ 1

-- The float `n`: its whole part, and whether a fraction is left. `n / 2` is exact.
pub record Float : Type 0 where
  pub whole : ℕ
  pub fraction : Bool

abbrev pub is_odd : Float → Bool
is_odd n = not n.fraction && (n.whole % 2 == 1)

abbrev pub half : Float → Float
half n = record { whole = n.whole / 2; fraction = n.fraction || (n.whole % 2 == 1) }

-- The segment to read is from `x0` to `x1`, all that has been read from `p0` to `p1`.
pub record Scan : Type 0 where
  pub x0 : ℕ
  pub x1 : ℕ
  pub p0 : ℕ
  pub p1 : ℕ
  pub n : Float
  pub result : List ℕ

-- The segment doubles, to the left where `n` is odd and to the right where it is not.
unfoldable pub climb : Scan → Scan
climb s =
    if is_odd s.n
    then record s { x1 = s.p0; x0 = s.p0 - (s.p1 - s.p0); p0 = s.p0 - (s.p1 - s.p0); n = half s.n }
    else record s { x0 = s.p1; x1 = s.p1 + (s.p1 - s.p0); p1 = s.p1 + (s.p1 - s.p0); n = half s.n }

unfoldable pub read_segment : Rows → ℕ → Scan → Scan
read_segment rows segment_size s = record s {
  result = s.result ++ rows.fetch s.x0 s.x1 (segment_size - length s.result);
}

-- `p0 <= 0 and p1 >= last_id`
abbrev pub is_covered : Rows → Scan → Bool
is_covered rows s = leb s.p0 0 && leb rows.last_id s.p1

-- The loop `while len(result) < segment_size`; `none` is that the fuel has run out.
unfoldable pub gather : Rows → ℕ → ℕ → Scan → Option (List ℕ)
gather rows segment_size zero s = none
gather rows segment_size (suc fuel) s =
    let t = read_segment rows segment_size s in
    let rest = gather rows segment_size fuel (climb t) in
    if ltb (length s.result) segment_size
    then (if is_covered rows t then some t.result else rest)
    else some s.result

-- `math.ceil(math.log2(n))` for a positive `n`, from `k` on
pub ceil_log2_from : ℕ → ℕ → ℕ → ℕ
ceil_log2_from zero n k = k
ceil_log2_from (suc fuel) n k =
    let rest = ceil_log2_from fuel n (suc k) in if leb n (2 ^ k) then k else rest

unfoldable pub segment_size : ℕ → ℕ
unfolding ceil_log2_from
segment_size limit = 2 ^ (ceil_log2_from limit limit 0 + 1)

-- The state before the loop, for the segment number `n`.
abbrev pub first_segment : ℕ → ℕ → Scan
first_segment size n = record {
  x0 = size * n;
  x1 = size * n + size;
  p0 = size * n;
  p1 = size * n + size;
  n = record { whole = n; fraction = false };
  result = [];
}

-- The feed, with the shuffle of the rows and the segment number as arguments.
unfoldable pub random_feed : Rows → (List ℕ → List ℕ) → ℕ → ℕ → ℕ → Option (List ℕ)
random_feed rows shuffle fuel limit n =
    elim (gather rows (segment_size limit) fuel (first_segment (segment_size limit) n)) [
      | none ↦ none
      | some result ↦ some (take limit (shuffle result))
    ]
