-- ===== src/Tonlib/Consensus.antt =====
-- One round of `TonlibManager.check_working` (NFTorrent/tonlib/manager.py): the block that most
-- liteservers have reached, and which workers are in sync with it.
pub mod Vote
pub mod Sync
use nft_torrent.Base.{
  ℕ, suc, ◌+◌, ◌-◌, ◌*◌, Bool, not, ◌≡◌, List, [], ◌∷◌, map, leb, ltb, ◌==◌, if◌then◌else◌, count,
  keep, sum,
}
use nft_torrent.Base.Int.{ℤ, pos, negsuc, ◌-ℤ◌, ltb_ℤ, leb_ℤ, eqb_ℤ}
use nft_torrent.Tonlib.Control.{WorkerControl, Manager, blend}

-- `[wctl.last_block for wctl in self.workers.values() if wctl.last_block != -1]`
unfoldable pub last_blocks : List WorkerControl → List ℤ
last_blocks ws = keep (λ b. not (eqb_ℤ b (negsuc 0))) (map (λ w. w.last_block) ws)

-- `max` of a list that begins with the first argument
unfoldable pub max_block : ℤ → List ℤ → ℤ
max_block b [] = b
max_block b (c ∷ cs) = max_block (if ltb_ℤ b c then c else b) cs

-- How many of the blocks are `best_block - i`.
pub strat : ℤ → List ℤ → ℕ → ℕ
strat best_block blocks i = count (λ ls. eqb_ℤ ls (best_block -ℤ pos i)) blocks

pub strats : ℤ → List ℤ → List ℕ
unfolding strat
strats best_block blocks = map (strat best_block blocks) (0 ∷ 1 ∷ 2 ∷ 3 ∷ [])

-- The loop over `enumerate(strats)` from index `i` on. `sm >= total_suitable * 0.6` is an
-- inequality of integers: the product in floating point is exact where it is a whole number.
pub find_consensus : ℤ → ℕ → ℕ → ℕ → List ℕ → ℤ
find_consensus best_block total_suitable i sm [] = pos 0
find_consensus best_block total_suitable i sm (am ∷ rest) =
    if leb (3 * total_suitable) (5 * (sm + am))
    then best_block -ℤ pos i
    else find_consensus best_block total_suitable (suc i) (sm + am) rest

unfoldable pub consensus_seqno : ℤ → List ℤ → ℤ
unfolding find_consensus strats
consensus_seqno b bs =
    let best_block = max_block b bs in
    let votes = strats best_block (b ∷ bs) in find_consensus best_block (sum votes) 0 0 votes

-- The worker enters or leaves the set of workers in sync.
pub sync_worker : ℤ → ℕ → ℕ → WorkerControl → WorkerControl
sync_worker consensus mtime ctime w =
    if leb_ℤ consensus w.last_block
    then (if w.is_sync then w else enter)
    else (if w.is_sync then leave else w)
  where
    enter : WorkerControl
    enter =
        if w.off_sync_mt == 0
        then record w { sync_time = ctime; sync_mt = mtime; is_sync = Bool.true }
        else record w {
          sync_time = ctime;
          sync_mt = mtime;
          is_sync = Bool.true;
          off_sync_dur_ema = blend w.off_sync_dur_ema (mtime - w.off_sync_mt);
          off_sync_duration = w.off_sync_duration + (mtime - w.off_sync_mt);
        }

    leave : WorkerControl
    leave =
        if w.sync_mt == 0
        then record w {
          off_sync_count = w.off_sync_count + 1;
          off_sync_time = ctime;
          off_sync_mt = mtime;
          is_sync = Bool.false;
        }
        else record w {
          off_sync_count = w.off_sync_count + 1;
          off_sync_time = ctime;
          off_sync_mt = mtime;
          is_sync = Bool.false;
          sync_dur_ema = blend w.sync_dur_ema (mtime - w.sync_mt);
          sync_duration = w.sync_duration + (mtime - w.sync_mt);
        }

unfoldable pub sync_round : ℤ → ℕ → ℕ → Manager → Manager
unfolding sync_worker
sync_round seqno mtime ctime m =
    if ltb_ℤ m.consensus_block seqno
    then record m {
      consensus_block = seqno;
      consensus_block_mt = mtime;
      workers = map (sync_worker seqno mtime ctime) m.workers;
    }
    else record m { workers = map (sync_worker m.consensus_block mtime ctime) m.workers }

-- With no block known the round does nothing.
unfoldable pub check_blocks : List ℤ → ℕ → ℕ → Manager → Manager
check_blocks [] mtime ctime m = m
check_blocks (b ∷ bs) mtime ctime m = sync_round (consensus_seqno b bs) mtime ctime m

unfoldable pub check_working : ℕ → ℕ → Manager → Manager
unfolding check_blocks
check_working mtime ctime m = check_blocks (last_blocks m.workers) mtime ctime m
