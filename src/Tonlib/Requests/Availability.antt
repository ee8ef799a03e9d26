-- ===== src/Tonlib/Requests/Availability.antt =====
-- When the fallback methods of `TonlibManager` answer.
use nft_torrent.Base.{
  ℕ, ◌+◌, ◌≡◌, refl, ◌↔◌, true, false, none, some, List, [], ◌∷◌, arith, count, inl, inr,
  Option-cases,
}
use nft_torrent.Base.Result.{Result, ok, err}
use nft_torrent.Tonlib.Control.{WorkerControl}
use nft_torrent.Tonlib.Select.{Error, select_worker_error, is_suitable}
use nft_torrent.Tonlib.Select.Suitable.{select_worker-err_iff, select_worker-cases}
use nft_torrent.Tonlib.Requests.Fallback.{
  coroutine, World, dispatch_request, select_archival, returned, with_fallback, raw_run_method,
  raw_get_account_state,
}

count-archival :
    (ws : List WorkerControl)
    → count (is_suitable none) ws
      ≡ count (is_suitable (some true)) ws + count (is_suitable (some false)) ws
count-archival [] = omega arith
count-archival (w ∷ ws) = ground (arith, count-archival ws)

-- The archival request finds a worker whenever one is alive and in sync, archival or not: it fails
-- to select exactly when there is none.
pub select_archival-err_iff :
    (world : World) (ws : List WorkerControl)
    → (select_archival world ws ≡ err select_worker_error) ↔ (count (is_suitable none) ws ≡ 0)
unfolding select_archival
select_archival-err_iff world ws = elim (select_worker-cases world.shuffle (some true) 1 ws) [
  | inl (s, found) ↦
      rw (found, select_archival)
        (
          (λ e. cc),
          (λ z.
              let missing =
                (select_worker-err_iff world.shuffle (some true) 1 ws).1
                  (omega (arith, count-archival ws)) in
              cc),
        )
  | inr missing ↦
      rw (missing, select_archival)
        (
          (λ e. omega (
            arith,
            count-archival ws,
            (select_worker-err_iff world.shuffle (some true) 1 ws).0 missing,
            (select_worker-err_iff world.shuffle (some false) 1 ws).0 e,
          )),
          (λ z.
              (select_worker-err_iff world.shuffle (some false) 1 ws).1
                (omega (arith, count-archival ws))),
        )
]

dispatch_request-none :
    (world : World) (ws : List WorkerControl)
    → count (is_suitable none) ws ≡ 0
    → dispatch_request world ws ≡ err select_worker_error
unfolding dispatch_request
dispatch_request-none world ws h = rw ((select_worker-err_iff world.shuffle none 1 ws).1 h)

-- With no worker alive and in sync, `raw_run_method` answers with what toncenter answers, and
-- fails to select a worker if toncenter is not configured.
pub raw_run_method-no_worker :
    (before after : World) (ws ws' : List WorkerControl)
    → count (is_suitable none) ws ≡ 0
    → raw_run_method before after ws ws'
      ≡ (elim after.toncenter [ none ↦ err select_worker_error | some r ↦ returned after r ])
unfolding raw_run_method
raw_run_method-no_worker before after ws ws' h =
    rw (dispatch_request-none before ws h, with_fallback)
      (elim (Option-cases after.toncenter) [
        | inl unset ↦ rw unset
        | inr (r, configured) ↦ ground arith
      ])

-- With no worker alive and in sync, `raw_get_account_state` hands out a coroutine that nobody has
-- awaited if toncenter is configured, whatever toncenter would answer.
pub raw_get_account_state-coroutine :
    (before after : World) (ws ws' : List WorkerControl) (r : Result Error ℕ)
    → count (is_suitable none) ws ≡ 0
    → after.toncenter ≡ some r
    → raw_get_account_state before after ws ws' ≡ ok coroutine
unfolding raw_get_account_state
raw_get_account_state-coroutine before after ws ws' r h configured =
    rw (dispatch_request-none before ws h, with_fallback) (rw configured refl)
