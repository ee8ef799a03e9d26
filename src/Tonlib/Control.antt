-- ===== src/Tonlib/Control.antt =====
-- `WorkerControl` and the state of `TonlibManager` (NFTorrent/tonlib/manager.py). Instants and
-- durations are counted in ticks of the clock; the averages with weight 0.1 are exact decimals.
use nft_torrent.Base.{ℕ, ◌+◌, ◌*◌, ◌^◌, Bool, Option, List, ◌≤◌}
use nft_torrent.Base.Int.{ℤ}

-- `digits / 10 ^ places`
pub record Decimal : Type 0 where
  pub digits : ℕ
  pub places : ℕ

-- `ema * (1 - ema_alpha) + ema_alpha * duration`, with `ema_alpha = 0.1`
unfoldable pub blend : Decimal → ℕ → Decimal
blend ema duration = record {
  digits = ema.digits * 9 + duration * 10 ^ ema.places;
  places = ema.places + 1;
}

abbrev pub zero_ema : Decimal
zero_ema = record { digits = 0; places = 0 }

abbrev pub IsAtMost : ℕ → Decimal → Type 0
IsAtMost b ema = ema.digits ≤ b * 10 ^ ema.places

-- A `multiprocessing.Process` as its parent sees it.
pub record Process : Type 0 where
  pub pid : ℕ
  pub alive : Bool
  pub exit_event : Bool
  pub queues_closed : Bool

-- `asyncio.Future`
pub data Future : Type 0 where
  pending cancelled : Future
  resolved failed : ℕ → Future

pub record WorkerControl : Type 0 where
  pub ls_index : ℕ
  pub worker : Process
  pub reader_cancelled : Bool
  pub futures : List (ℕ × Future)
  pub is_alive : Bool
  pub is_sync : Bool
  pub is_enabled : Bool
  pub is_archival : Bool
  pub last_block : ℤ
  pub last_block_time : ℕ
  pub start_mt : ℕ
  pub start_time : ℕ
  pub restart_count : ℕ
  pub tasks_count : ℕ
  pub pending_tasks : ℕ
  pub sync_time : ℕ
  pub sync_mt : ℕ
  pub sync_duration : ℕ
  pub sync_dur_ema : Decimal
  pub off_sync_time : ℕ
  pub off_sync_mt : ℕ
  pub off_sync_count : ℕ
  pub off_sync_duration : ℕ
  pub off_sync_dur_ema : Decimal
  pub restart_retry_mt : Option ℕ
  pub restart_retry_count : Option ℕ

-- `self.workers` in the order of insertion; the key of an entry is its `ls_index`.
pub record Manager : Type 0 where
  pub workers : List WorkerControl
  pub consensus_block : ℤ
  pub consensus_block_mt : ℕ
