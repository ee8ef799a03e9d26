-- ===== src/Tonlib/Consensus/Sync.antt =====
-- What a round of `check_working` does to the manager and its workers.
use nft_torrent.Base.{
  ℕ, ◌+◌, ◌-◌, ◌*◌, ◌^◌, ◌≤◌, ◌<◌, ◌≡◌, ◌∙◌, List, [], ◌∷◌, map, arith, count, All, Bool-cases, inl,
  inr,
}
use native.Mathlib.Nat.{pow-suc}
use native.Mathlib.Numerals.{add-one}
use nft_torrent.Base.Int.{ℤ, pos, ◌-ℤ◌, ◌≤ℤ◌, ◌<ℤ◌, ltb_ℤ, leb_ℤ}
use nft_torrent.Tonlib.Control.{WorkerControl, Manager, Decimal, IsAtMost, blend}
use nft_torrent.Tonlib.Consensus.{
  last_blocks, max_block, consensus_seqno, sync_worker, sync_round, check_blocks, check_working,
}
use nft_torrent.Tonlib.Consensus.Vote.{known, known-ge, consensus_seqno-known}

-- The consensus block never goes back.
pub check_working-consensus_le :
    (mtime ctime : ℕ) (m : Manager)
    → m.consensus_block ≤ℤ (check_working mtime ctime m).consensus_block
unfolding check_working sync_round
check_working-consensus_le mtime ctime m =
    elim (last_blocks m.workers)
      as (λ bs. m.consensus_block ≤ℤ (check_blocks bs mtime ctime m).consensus_block) [
        | [] ↦ omega arith
        | b ∷ bs ↦ ground arith
      ]

sync_worker-is_sync :
    (c : ℤ) (mtime ctime : ℕ) (w : WorkerControl)
    → ((sync_worker c mtime ctime w).is_sync ≡ leb_ℤ c w.last_block)
      × ((sync_worker c mtime ctime w).last_block ≡ w.last_block)
unfolding sync_worker
sync_worker-is_sync c mtime ctime w = (ground arith, ground arith)

abbrev pub InSync : ℤ → WorkerControl → Type 0
InSync c w = w.is_sync ≡ leb_ℤ c w.last_block

sync_workers-InSync :
    (c : ℤ) (mtime ctime : ℕ) (ws : List WorkerControl)
    → All (InSync c) (map (sync_worker c mtime ctime) ws)
sync_workers-InSync c mtime ctime [] = tt
sync_workers-InSync c mtime ctime (w ∷ ws) =
    (ground (arith, sync_worker-is_sync c mtime ctime w), sync_workers-InSync c mtime ctime ws)

sync_round-workers :
    (c : ℤ) (mtime ctime : ℕ) (m : Manager)
    → (sync_round c mtime ctime m).workers
      ≡ map (sync_worker (sync_round c mtime ctime m).consensus_block mtime ctime) m.workers
unfolding sync_round
sync_round-workers c mtime ctime m = elim (Bool-cases (ltb_ℤ m.consensus_block c)) [
  | inl raised ↦ rw raised
  | inr kept ↦ rw kept
]

check_working-workers :
    (mtime ctime : ℕ) (m : Manager) (b : ℤ) (bs : List ℤ)
    → last_blocks m.workers ≡ b ∷ bs
    → let m' = check_working mtime ctime m in
      m'.workers ≡ map (sync_worker m'.consensus_block mtime ctime) m.workers
unfolding check_working
check_working-workers mtime ctime m b bs e =
    rw (e, check_blocks) (sync_round-workers (consensus_seqno b bs) mtime ctime m)

-- If some block is known, a worker is in sync after the round exactly when its last block has
-- reached the consensus block.
pub check_working-InSync :
    (mtime ctime : ℕ) (m : Manager) (b : ℤ) (bs : List ℤ)
    → last_blocks m.workers ≡ b ∷ bs
    → let m' = check_working mtime ctime m in All (InSync m'.consensus_block) m'.workers
check_working-InSync mtime ctime m b bs e =
    rw (check_working-workers mtime ctime m b bs e)
      (sync_workers-InSync (check_working mtime ctime m).consensus_block mtime ctime m.workers)

known-le-in_sync :
    (c : ℤ) (mtime ctime : ℕ) (ws : List WorkerControl)
    → count (λ b. leb_ℤ c b) (last_blocks ws)
      ≤ count (λ w. w.is_sync) (map (sync_worker c mtime ctime) ws)
unfolding last_blocks
known-le-in_sync c mtime ctime [] = omega arith
known-le-in_sync c mtime ctime (w ∷ ws) =
    ground (arith, known-le-in_sync c mtime ctime ws, sync_worker-is_sync c mtime ctime w)

voters-le-in_sync :
    (c d : ℤ) (mtime ctime : ℕ) (ws : List WorkerControl) (bs : List ℤ)
    → last_blocks ws ≡ bs
    → c ≡ d
    → count (λ b. leb_ℤ d b) bs ≤ count (λ w. w.is_sync) (map (sync_worker c mtime ctime) ws)
voters-le-in_sync c d mtime ctime ws bs e k = rw (← e, ← k) (known-le-in_sync c mtime ctime ws)

raised_to :
    (mtime ctime : ℕ) (m : Manager) (b : ℤ) (bs : List ℤ)
    → last_blocks m.workers ≡ b ∷ bs
    → m.consensus_block <ℤ (check_working mtime ctime m).consensus_block
    → (check_working mtime ctime m).consensus_block ≡ consensus_seqno b bs
unfolding check_working sync_round
raised_to mtime ctime m b bs e = rw (e, check_blocks) (ground arith)

-- A round that raises the consensus block leaves in sync at least three fifths of the workers
-- whose blocks are within three of the best, and at least one worker.
pub check_working_majority :
    (mtime ctime : ℕ) (m : Manager) (b : ℤ) (bs : List ℤ)
    → last_blocks m.workers ≡ b ∷ bs
    → m.consensus_block <ℤ (check_working mtime ctime m).consensus_block
    → let in_sync = count (λ w. w.is_sync) (check_working mtime ctime m).workers in
      (3 * known (max_block b bs) (b ∷ bs) 3 ≤ 5 * in_sync) × (0 < in_sync)
check_working_majority mtime ctime m b bs e raised =
    let best = max_block b bs in
    let (upper, some_best, settled) = consensus_seqno-known b bs in
    let (i, small, seqno, enough, least) = settled in
    let c = (check_working mtime ctime m).consensus_block in
    let c_eq : c ≡ best -ℤ pos i = raised_to mtime ctime m b bs e raised ∙ seqno in
    let votes : known best (b ∷ bs) i
        ≤ count (λ w. w.is_sync) (check_working mtime ctime m).workers =
      rw (check_working-workers mtime ctime m b bs e)
        (voters-le-in_sync c (best -ℤ pos i) mtime ctime m.workers (b ∷ bs) e c_eq) in
    omega (arith, known-ge best (b ∷ bs) i upper)

-- A duration that ended at `now` is at most `now`, and so are the two averages.
pub record IsTimed (now : ℕ) (w : WorkerControl) : Type 0 where
  pub sync_mt : w.sync_mt ≤ now
  pub off_sync_mt : w.off_sync_mt ≤ now
  pub sync_dur_ema : IsAtMost now w.sync_dur_ema
  pub off_sync_dur_ema : IsAtMost now w.off_sync_dur_ema

blend-IsAtMost : (b : ℕ) (ema : Decimal) (d : ℕ) → IsAtMost b ema → d ≤ b → IsAtMost b (blend ema d)
unfolding blend
blend-IsAtMost b ema d h k =
    let e : 10 ^ (ema.places + 1) ≡ 10 ^ ema.places * 10 = rw add-one (pow-suc 10 ema.places) in
    let le : d * 10 ^ ema.places ≤ b * 10 ^ ema.places = grind arith in rw e (omega arith)

sync_worker-IsTimed :
    (c : ℤ) (mtime ctime : ℕ) (w : WorkerControl)
    → IsTimed mtime w
    → IsTimed mtime (sync_worker c mtime ctime w)
unfolding sync_worker
sync_worker-IsTimed c mtime ctime w h = ground (
  arith,
  blend-IsAtMost mtime w.sync_dur_ema (mtime - w.sync_mt),
  blend-IsAtMost mtime w.off_sync_dur_ema (mtime - w.off_sync_mt),
)

sync_workers-IsTimed :
    (c : ℤ) (mtime ctime : ℕ) (ws : List WorkerControl)
    → All (IsTimed mtime) ws
    → All (IsTimed mtime) (map (sync_worker c mtime ctime) ws)
sync_workers-IsTimed c mtime ctime [] h = tt
sync_workers-IsTimed c mtime ctime (w ∷ ws) h =
    (sync_worker-IsTimed c mtime ctime w h.0, sync_workers-IsTimed c mtime ctime ws h.1)

-- If no recorded instant and neither average of a worker exceeds the present instant, then the same
-- holds after the round.
pub check_working-IsTimed :
    (mtime ctime : ℕ) (m : Manager)
    → All (IsTimed mtime) m.workers
    → All (IsTimed mtime) (check_working mtime ctime m).workers
unfolding check_working
check_working-IsTimed mtime ctime m h =
    elim (last_blocks m.workers)
      as (λ bs. All (IsTimed mtime) (check_blocks bs mtime ctime m).workers) [
        | [] ↦ h
        | b ∷ bs ↦
            rw (sync_round-workers (consensus_seqno b bs) mtime ctime m)
              (sync_workers-IsTimed _ mtime ctime m.workers h)
      ]
