-- ===== src/Tonlib/Consensus/Vote.antt =====
-- The block on which `check_working` settles: the highest one, at most three below the best, that
-- three fifths of the liteservers near the best block know.
use nft_torrent.Base.{
  ℕ, zero, suc, ◌+◌, ◌-◌, ◌*◌, ◌≤◌, ◌<◌, ◌≡◌, refl, List, [], ◌∷◌, arith, leb, if◌then◌else◌, count,
  All, Bool-cases, inl, inr,
}
use nft_torrent.Base.Int.{ℤ, pos, ◌-ℤ◌, ◌≤ℤ◌, ltb_ℤ, leb_ℤ, eqb_ℤ, -ℤ_parts}
use nft_torrent.Tonlib.Consensus.{max_block, strat, find_consensus, consensus_seqno}

-- How many liteservers have reached `best_block - i`.
abbrev pub known : ℤ → List ℤ → ℕ → ℕ
known best_block blocks i = count (λ ls. leb_ℤ (best_block -ℤ pos i) ls) blocks

max_block-ge : (b : ℤ) (cs : List ℤ) → b ≤ℤ max_block b cs
unfolding max_block
max_block-ge b [] = omega arith
max_block-ge b (c ∷ cs) = ground (arith, max_block-ge (if ltb_ℤ b c then c else b) cs)

max_block-All : (b : ℤ) (cs : List ℤ) → All (λ c. c ≤ℤ max_block b cs) cs
unfolding max_block
max_block-All b [] = tt
max_block-All b (c ∷ cs) =
    let d = if ltb_ℤ b c then c else b in (ground (arith, max_block-ge d cs), max_block-All d cs)

known-zero : (best : ℤ) (bs : List ℤ) → All (λ c. c ≤ℤ best) bs → known best bs 0 ≡ strat best bs 0
unfolding strat
known-zero best [] h = refl
known-zero best (c ∷ cs) h = ground (arith, known-zero best cs h.1, -ℤ_parts best (pos 0))

known-suc :
    (best : ℤ) (bs : List ℤ) (i : ℕ)
    → All (λ c. c ≤ℤ best) bs
    → known best bs (suc i) ≡ known best bs i + strat best bs (suc i)
unfolding strat
known-suc best [] i h = refl
known-suc best (c ∷ cs) i h =
    ground (arith, known-suc best cs i h.1, -ℤ_parts best (pos i), -ℤ_parts best (pos (suc i)))

pub known-ge :
    (best : ℤ) (bs : List ℤ) (i : ℕ) → All (λ c. c ≤ℤ best) bs → known best bs 0 ≤ known best bs i
known-ge best bs zero h = omega arith
known-ge best bs (suc i) h = omega (arith, known-ge best bs i h, known-suc best bs i h)

max_block-mem : (b : ℤ) (cs : List ℤ) → 0 < count (λ c. eqb_ℤ c (max_block b cs)) (b ∷ cs)
unfolding max_block
max_block-mem b [] = ground arith
max_block-mem b (c ∷ cs) = elim (Bool-cases (ltb_ℤ b c)) [
  | inl up ↦ ground (arith, max_block-mem c cs)
  | inr same ↦ ground (arith, max_block-mem b cs)
]

known_best : (best : ℤ) (bs : List ℤ) → count (λ c. eqb_ℤ c best) bs ≤ known best bs 0
known_best best [] = omega arith
known_best best (c ∷ cs) = ground (arith, known_best best cs, -ℤ_parts best (pos 0))

-- The four rounds of the loop, over any running count of the votes.
find_consensus_lem :
    (best : ℤ) (k : ℕ → ℕ) (v0 v1 v2 v3 : ℕ)
    → k 0 ≡ v0
    → k 1 ≡ k 0 + v1
    → k 2 ≡ k 1 + v2
    → k 3 ≡ k 2 + v3
    → (i : ℕ) × (i ≤ 3)
      × (find_consensus best (k 3) 0 0 (v0 ∷ v1 ∷ v2 ∷ v3 ∷ []) ≡ best -ℤ pos i)
      × (3 * k 3 ≤ 5 * k i)
      × (0 < i → 5 * k (i - 1) < 3 * k 3)
unfolding find_consensus
find_consensus_lem best k v0 v1 v2 v3 e0 e1 e2 e3 = elim (Bool-cases (leb (3 * k 3) (5 * k 0))) [
  | inl at0 ↦ (0, ground arith, ground arith, ground arith, ground arith)
  | inr no0 ↦ elim (Bool-cases (leb (3 * k 3) (5 * k 1))) [
    | inl at1 ↦ (1, ground arith, ground arith, ground arith, ground arith)
    | inr no1 ↦ elim (Bool-cases (leb (3 * k 3) (5 * k 2))) [
      | inl at2 ↦ (2, ground arith, ground arith, ground arith, ground arith)
      | inr no2 ↦ (3, ground arith, ground arith, ground arith, ground arith)
    ]
  ]
]

-- The best block bounds every known block and is one of them, and the block that the round settles
-- on lies `i <= 3` below it: at least three fifths of the liteservers within three blocks of the
-- best have reached it, and fewer than that have reached the block above it, if `i` is not 0.
pub consensus_seqno-known :
    (b : ℤ) (bs : List ℤ)
    → let best = max_block b bs in
      let k = known best (b ∷ bs) in
      All (λ c. c ≤ℤ best) (b ∷ bs)
      × (0 < k 0)
      × ((i : ℕ) × (i ≤ 3)
          × (consensus_seqno b bs ≡ best -ℤ pos i)
          × (3 * k 3 ≤ 5 * k i)
          × (0 < i → 5 * k (i - 1) < 3 * k 3))
unfolding consensus_seqno
consensus_seqno-known b bs =
    let best = max_block b bs in
    let k = known best (b ∷ bs) in
    let s = strat best (b ∷ bs) in
    let upper : All (λ c. c ≤ℤ best) (b ∷ bs) = (max_block-ge b bs, max_block-All b bs) in
    let e0 = known-zero best (b ∷ bs) upper in
    let e1 = known-suc best (b ∷ bs) 0 upper in
    let e2 = known-suc best (b ∷ bs) 1 upper in
    let e3 = known-suc best (b ∷ bs) 2 upper in
    let total : s 0 + (s 1 + (s 2 + (s 3 + 0))) ≡ k 3 = omega arith in
    (
      upper,
      ground (arith, max_block-mem b bs, known_best best (b ∷ bs)),
      rw total (find_consensus_lem best k (s 0) (s 1) (s 2) (s 3) e0 e1 e2 e3),
    )
