-- ===== src/Tonlib/Select.antt =====
-- `TonlibManager.select_worker` (NFTorrent/tonlib/manager.py). `random.shuffle` is a function with
-- the law that it permutes.
pub mod Suitable
use nft_torrent.Base.{
  ℕ, ◌≡◌, Bool, true, false, ◌&&◌, Option, none, some, List, [], ◌∷◌, map, ltb, ◌==◌, if◌then◌else◌,
  is_some, keep, count, take,
}
use nft_torrent.Base.Result.{Result, ok, err}
use nft_torrent.Tonlib.Control.{WorkerControl}

pub record Shuffle : Type 0 where
  pub run : List ℕ → List ℕ
  pub same : (i : ℕ) (xs : List ℕ) → count (λ x. x == i) (run xs) ≡ count (λ x. x == i) xs

-- `select_worker` is TonlibSelectWorkerError, `no_response` is TonlibNoResponse, `remote` carries
-- an exception that a worker sent back and `fallback` the HTTP status of a TonlibFallbackError.
pub data Error : Type 0 where
  select_worker_error key_error no_response timeout : Error
  remote fallback : ℕ → Error

-- A list for a count above one, else a single worker.
pub data Selected : Type 0 where
  one : ℕ → Selected
  many : List ℕ → Selected

pub find_worker : ℕ → List WorkerControl → Option WorkerControl
find_worker i [] = none
find_worker i (w ∷ ws) = if w.ls_index == i then some w else find_worker i ws

abbrev pub bool_eq : Bool → Bool → Bool
bool_eq true b = b
bool_eq false true = false
bool_eq false false = true

-- `wctl.is_alive and wctl.is_sync and (archival is None or wctl.is_archival == archival)`
abbrev pub is_suitable : Option Bool → WorkerControl → Bool
is_suitable archival w =
    (w.is_alive && w.is_sync) && (elim archival [ none ↦ true | some a ↦ bool_eq w.is_archival a ])

pub suitable : Option Bool → List WorkerControl → List ℕ
suitable archival ws = map (λ w. w.ls_index) (keep (is_suitable archival) ws)

abbrev pub pick : ℕ → List ℕ → Result Error Selected
pick n [] = err select_worker_error
pick n (x ∷ xs) = ok (if ltb 1 n then many (take n (x ∷ xs)) else one x)

module _ (shuffle : Shuffle) where
  pub select_suitable : Option Bool → ℕ → List WorkerControl → Result Error Selected
  unfolding suitable
  select_suitable archival n ws = pick n (shuffle.run (suitable archival ws))

  -- A worker that is asked for by its index is taken if it is in sync.
  unfoldable pub select_worker :
      Option ℕ → Option Bool → ℕ → List WorkerControl → Result Error Selected
  unfolding select_suitable find_worker
  select_worker none archival n ws = select_suitable archival n ws
  select_worker (some i) archival n ws =
      if n == 1
      then (elim (find_worker i ws) [
        | none ↦ err key_error
        | some w ↦ if w.is_sync then ok (one i) else select_suitable archival n ws
      ])
      else select_suitable archival n ws
