-- ===== src/Tonlib/Requests/Fallback.antt =====
-- `dispatch_request`, `dispatch_archival_request` and the four cached methods that fall back from
-- one worker to toncenter or to an archival worker (NFTorrent/tonlib/manager.py).
use nft_torrent.Base.{ℕ, Bool, true, false, Option, none, some, List, if◌then◌else◌}
use nft_torrent.Base.Result.{Result, ok, err, ◌>>=◌}
use nft_torrent.Tonlib.Control.{WorkerControl}
use nft_torrent.Tonlib.Select.{
  Shuffle, Error, select_worker_error, key_error, no_response, remote, Selected, one, many,
  select_worker,
}

-- What a caller gets: a value, or a coroutine that nobody awaits.
pub data Answer : Type 0 where
  value : ℕ → Answer
  coroutine : Answer

-- The world outside: which exceptions of pytonlib are a TonlibError, and what a dispatched request
-- and a request to toncenter come to. `toncenter` is `none` where no endpoint is set.
pub record World : Type 0 where
  pub is_tonlib_error : Error → Bool
  pub shuffle : Shuffle
  pub dispatch_to : ℕ → Result Error ℕ
  pub toncenter : Option (Result Error ℕ)

-- `except TonlibError`: the classes of the manager are no TonlibError.
abbrev pub caught : World → Error → Bool
caught world (remote e) = world.is_tonlib_error (remote e)
caught world no_response = world.is_tonlib_error no_response
caught world _ = false

module _ (world : World) where
  pub dispatch_selected : Selected → Result Error ℕ
  dispatch_selected (one i) = world.dispatch_to i
  dispatch_selected (many _) = err key_error

  unfoldable pub dispatch_request : List WorkerControl → Result Error ℕ
  unfolding dispatch_selected
  dispatch_request ws = select_worker world.shuffle none none 1 ws >>= dispatch_selected

  -- The archival workers first, and any other if there is none.
  unfoldable pub select_archival : List WorkerControl → Result Error Selected
  select_archival ws = elim (select_worker world.shuffle none (some true) 1 ws) [
    | ok s ↦ ok s
    | err Error.select_worker_error ↦ select_worker world.shuffle none (some false) 1 ws
    | err e ↦ err e
  ]

  pub dispatch_archival_request : List WorkerControl → Result Error ℕ
  unfolding select_archival dispatch_selected
  dispatch_archival_request ws = select_archival ws >>= dispatch_selected

  abbrev pub returned : Result Error ℕ → Result Error Answer
  returned r = r >>= λ v. ok (value v)

-- The three handlers of the four methods. The second request may find other workers, and another
-- world.
unfoldable pub with_fallback :
    World
    → World
    → List WorkerControl
    → List WorkerControl
    → Result Error Answer
    → Result Error Answer
with_fallback before after ws ws' from_toncenter = elim (dispatch_request before ws) [
  | ok v ↦ ok (value v)
  | err Error.select_worker_error ↦ elim after.toncenter [
    | none ↦ err select_worker_error
    | some _ ↦ from_toncenter
  ]
  | err e ↦ if caught before e then returned after (dispatch_archival_request after ws') else err e
]

abbrev pub toncenter_answer : World → Result Error ℕ
toncenter_answer world = elim world.toncenter [ none ↦ err select_worker_error | some r ↦ r ]

unfoldable pub raw_run_method :
    World → World → List WorkerControl → List WorkerControl → Result Error Answer
unfolding with_fallback
raw_run_method before after ws ws' =
    with_fallback before after ws ws' (returned after (toncenter_answer after))

-- The coroutine of `toncenter_get_account_state` is returned without an `await`.
unfoldable pub raw_get_account_state :
    World → World → List WorkerControl → List WorkerControl → Result Error Answer
unfolding with_fallback
raw_get_account_state before after ws ws' = with_fallback before after ws ws' (ok coroutine)

pub generic_get_account_state :
    World → World → List WorkerControl → List WorkerControl → Result Error Answer
unfolding with_fallback
generic_get_account_state before after ws ws' =
    with_fallback before after ws ws' (returned after (toncenter_answer after))

pub get_nft_item_address :
    World → World → List WorkerControl → List WorkerControl → Result Error Answer
unfolding with_fallback
get_nft_item_address before after ws ws' =
    with_fallback before after ws ws' (returned after (toncenter_answer after))
