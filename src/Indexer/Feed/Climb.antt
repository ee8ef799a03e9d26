-- ===== src/Indexer/Feed/Climb.antt =====
-- Whether the loop of the random feed ends.
use nft_torrent.Base.{
  ℕ, zero, suc, ◌+◌, ◌-◌, ◌*◌, ◌^◌, ◌≤◌, ◌<◌, ◌≡◌, refl, true, false, none, [], arith, length,
  is_some,
}
use native.Mathlib.Nat.{pow-suc, mul-pos}
use nft_torrent.Indexer.Feed.{Rows, Scan, is_odd, climb, read_segment, gather, first_segment}

-- From 0 on to the right the segment covers the table in time.
ends_right :
    (rows : Rows) (size fuel : ℕ) (s : Scan)
    → s.p0 ≡ 0
    → 0 < s.p1
    → is_odd s.n ≡ false
    → s.n.whole ≡ 0
    → 0 < fuel
    → rows.last_id < s.p1 + fuel
    → is_some (gather rows size fuel s) ≡ true
unfolding gather climb read_segment
ends_right rows size zero s at0 pos even zero_n some_fuel enough = absurd (omega arith)
ends_right rows size (suc fuel) s at0 pos even zero_n some_fuel enough =
    ground (arith, ends_right rows size fuel (climb (read_segment rows size s)))

-- One round that neither fills the result nor covers the table goes on with the next segment.
gather_next :
    (rows : Rows) (size fuel : ℕ) (s : Scan)
    → is_some (gather rows size fuel (climb (read_segment rows size s))) ≡ true
    → is_some (gather rows size (suc fuel) s) ≡ true
unfolding gather
gather_next rows size fuel s h = ground arith

abbrev pub next_scan : Rows → ℕ → Scan → Scan
next_scan rows size s = climb (read_segment rows size s)

climb_even :
    (rows : Rows) (size q : ℕ) (s : Scan)
    → s.n ≡ record { whole = q * 2; fraction = false }
    → let t = next_scan rows size s in
      (t.n ≡ record { whole = q; fraction = false }) × (t.p0 ≡ s.p0) × (t.p1 ≡ s.p1 + (s.p1 - s.p0))
unfolding climb read_segment
climb_even rows size q s e = ground arith

climb_odd :
    (rows : Rows) (size q : ℕ) (s : Scan)
    → s.n ≡ record { whole = q * 2 + 1; fraction = false }
    → let t = next_scan rows size s in
      (t.n ≡ record { whole = q; fraction = true }) × (t.p0 ≡ s.p0 - (s.p1 - s.p0)) × (t.p1 ≡ s.p1)
unfolding climb read_segment
climb_odd rows size q s e = ground arith

climb_fraction :
    (rows : Rows) (size : ℕ) (s : Scan)
    → s.n.fraction ≡ true
    → let t = next_scan rows size s in (t.n.fraction ≡ true) × (t.p0 ≡ s.p0)
unfolding climb read_segment
climb_fraction rows size s e = ground arith

-- The segment `n = 2 ^ i` grows to the right until it is the second half, and then from 0 on.
ends_power :
    (rows : Rows) (size fuel i w : ℕ) (s : Scan)
    → s.n ≡ record { whole = 2 ^ i; fraction = false }
    → s.p0 ≡ 2 ^ i * w
    → s.p1 ≡ s.p0 + w
    → 0 < w
    → i + 2 + rows.last_id ≤ fuel
    → is_some (gather rows size fuel s) ≡ true
ends_power rows size zero i w s en e0 e1 pos enough = absurd (omega arith)
ends_power rows size (suc fuel) zero w s en e0 e1 pos enough =
    let (en', e0', e1') = climb_odd rows size 0 s en in
    gather_next rows size fuel s (
      ends_right rows size fuel (next_scan rows size s) (omega arith) (omega arith) (ground arith)
        (ground arith) (omega arith) (omega arith))
ends_power rows size (suc fuel) (suc i) w s en e0 e1 pos enough =
    let e : 2 ^ suc i ≡ 2 ^ i * 2 = pow-suc 2 i in
    let width : 2 ^ suc i * w ≡ 2 ^ i * (w + w) = rw e (omega arith) in
    let (en', e0', e1') = climb_even rows size (2 ^ i) s (rw e at en) in
    gather_next rows size fuel s (
      ends_power rows size fuel i (w + w) (next_scan rows size s) en' (omega arith) (omega arith)
        (omega arith) (omega arith))

-- The loop ends if the segment that it begins with is the first one or has a power of two for its
-- number: as many rounds are enough as the exponent and the last row id together, and two more.
pub gather-first_segment_power :
    (rows : Rows) (size i fuel : ℕ)
    → 0 < size
    → i + 2 + rows.last_id ≤ fuel
    → (is_some (gather rows size fuel (first_segment size 0)) ≡ true)
      × (is_some (gather rows size fuel (first_segment size (2 ^ i))) ≡ true)
gather-first_segment_power rows size i fuel pos enough = (
  ends_right rows size fuel (first_segment size 0) (omega arith) (omega arith) refl refl
      (omega arith) (omega arith),
  ends_power rows size fuel i size (first_segment size (2 ^ i)) refl (omega arith) refl pos enough,
)

power_pos : (i : ℕ) → 0 < 2 ^ i
power_pos zero = omega arith
power_pos (suc i) = rw (pow-suc 2 i) (omega (arith, power_pos i))

width_pos : (i q w : ℕ) → 0 < w → 0 < 2 ^ suc i * (2 * q + 3) * w
width_pos i q w h = mul-pos (mul-pos (power_pos (suc i)) (omega arith)) h

-- What no round changes once `n` has a fraction: the scan goes to the right only.
module _ (rows : Rows) (empty : (lo hi n : ℕ) → rows.fetch lo hi n ≡ []) (size : ℕ)
    (pos : 0 < size) where
  result_next : (s : Scan) → s.result ≡ [] → (next_scan rows size s).result ≡ []
  unfolding climb read_segment
  result_next s e = ground (arith, empty s.x0 s.x1 (size - length s.result))

  gather_on :
      (fuel : ℕ) (s : Scan)
      → s.result ≡ []
      → 0 < s.p0
      → gather rows size fuel (next_scan rows size s) ≡ none
      → gather rows size (suc fuel) s ≡ none
  unfolding gather read_segment
  gather_on fuel s e right h = ground arith

  loops_right :
      (fuel : ℕ) (s : Scan)
      → s.result ≡ []
      → 0 < s.p0
      → s.n.fraction ≡ true
      → gather rows size fuel s ≡ none
  unfolding gather
  loops_right zero s e right f = refl
  loops_right (suc fuel) s e right f =
      let (f', e0') = climb_fraction rows size s f in
      gather_on fuel s e right
        (loops_right fuel (next_scan rows size s) (result_next s e) (omega arith) f')

  loops :
      (fuel i q w : ℕ) (s : Scan)
      → s.result ≡ []
      → s.n ≡ record { whole = 2 ^ i * (2 * q + 3); fraction = false }
      → s.p0 ≡ 2 ^ i * (2 * q + 3) * w
      → s.p1 ≡ s.p0 + w
      → 0 < w
      → gather rows size fuel s ≡ none
  unfolding gather
  loops zero i q w s e en e0 e1 some_width = refl
  loops (suc fuel) zero q w s e en e0 e1 some_width =
      let odd : 2 ^ 0 * (2 * q + 3) ≡ (q + 1) * 2 + 1 = omega arith in
      let (en', e0', e1') = climb_odd rows size (q + 1) s (rw odd at en) in
      gather_on fuel s e (omega arith)
        (loops_right fuel (next_scan rows size s) (result_next s e) (omega arith) (ground arith))
  loops (suc fuel) (suc i) q w s e en e0 e1 some_width =
      let p : 2 ^ suc i ≡ 2 ^ i * 2 = pow-suc 2 i in
      let even : 2 ^ suc i * (2 * q + 3) ≡ 2 ^ i * (2 * q + 3) * 2 = rw p (omega arith) in
      let (en', e0', e1') = climb_even rows size (2 ^ i * (2 * q + 3)) s (rw even at en) in
      let width : 2 ^ suc i * (2 * q + 3) * w ≡ 2 ^ i * (2 * q + 3) * (w + w) =
        rw p (omega arith) in
      gather_on fuel s e (omega (arith, width_pos i q w some_width)) (
        loops fuel i q (w + w) (next_scan rows size s) (result_next s e) en' (omega arith)
          (omega arith) (omega arith))

  -- If no row matches, the loop runs for ever where the number of the segment that it begins with
  -- is not 0 and not a power of two: whatever the fuel, it runs out.
  pub gather-first_segment_loops :
      (fuel i q : ℕ) → gather rows size fuel (first_segment size (2 ^ i * (2 * q + 3))) ≡ none
  gather-first_segment_loops fuel i q =
      loops fuel i q size (first_segment size (2 ^ i * (2 * q + 3))) refl refl (omega arith) refl
        pos
