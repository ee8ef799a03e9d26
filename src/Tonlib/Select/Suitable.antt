-- ===== src/Tonlib/Select/Suitable.antt =====
-- Which workers `select_worker` hands out, and when it fails.
use nft_torrent.Base.{
  ℕ, ◌≡◌, refl, sym, ◌↔◌, ◌∙◌, Bool, ◌&&◌, Option, none, List, [], ◌∷◌, arith, ◌==◌, count,
  Bool-cases, inl, inr, ◌⊎◌,
}
use nft_torrent.Base.Result.{ok, err}
use nft_torrent.Tonlib.Control.{WorkerControl}
use nft_torrent.Tonlib.Select.{
  Shuffle, select_worker_error, Selected, one, many, is_suitable, suitable, pick, select_worker,
}

abbrev pub selected_ids : Selected → List ℕ
selected_ids (one i) = i ∷ []
selected_ids (many is) = is

-- How many suitable workers have the index.
abbrev pub serving : Option Bool → List WorkerControl → ℕ → ℕ
serving archival ws i = count (λ w. (w.ls_index == i) && is_suitable archival w) ws

count-suitable :
    (archival : Option Bool) (ws : List WorkerControl) (i : ℕ)
    → count (λ x. x == i) (suitable archival ws) ≡ serving archival ws i
unfolding suitable
count-suitable archival [] i = refl
count-suitable archival (w ∷ ws) i = elim (Bool-cases (is_suitable archival w)) [
  | inl good ↦ rw good (ground (arith, count-suitable archival ws i))
  | inr bad ↦ rw bad (ground (arith, count-suitable archival ws i))
]

-- `count` of what is kept is not zero if an element occurs, and the other way round.
count-zero_iff :
    (xs : List ℕ) (p : ℕ → ℕ)
    → ((i : ℕ) → count (λ x. x == i) xs ≡ p i)
    → (xs ≡ []) ↔ ((i : ℕ) → p i ≡ 0)
count-zero_iff [] p h = ((λ e i. sym (h i)), (λ z. refl))
count-zero_iff (x ∷ xs) p h = ((λ e. cc), (λ z. absurd (ground (arith, h x, z x))))

module _ (good : WorkerControl → Bool) where
  abbrev at_index : List WorkerControl → ℕ → ℕ
  at_index ws i = count (λ w. (w.ls_index == i) && good w) ws

  at_index-zero : (ws : List WorkerControl) → ((i : ℕ) → at_index ws i ≡ 0) → count good ws ≡ 0
  at_index-zero [] z = refl
  at_index-zero (w ∷ ws) z =
      let ih = at_index-zero ws (λ i. ground (arith, z i)) in ground (arith, z w.ls_index, ih)

  zero-at_index : (ws : List WorkerControl) → count good ws ≡ 0 → (i : ℕ) → at_index ws i ≡ 0
  zero-at_index [] z i = refl
  zero-at_index (w ∷ ws) z i =
      let z' : count good ws ≡ 0 = omega arith in
      let ih = zero-at_index ws z' i in ground (arith, ih)

module _ (shuffle : Shuffle) where
  shuffled-suitable :
      (archival : Option Bool) (ws : List WorkerControl) (i : ℕ)
      → count (λ x. x == i) (shuffle.run (suitable archival ws)) ≡ serving archival ws i
  shuffled-suitable archival ws i =
      shuffle.same i (suitable archival ws) ∙ count-suitable archival ws i

  pick-err_iff : (n : ℕ) (xs : List ℕ) → (pick n xs ≡ err select_worker_error) ↔ (xs ≡ [])
  pick-err_iff n [] = ((λ e. refl), (λ e. refl))
  pick-err_iff n (x ∷ xs) = ((λ e. cc), (λ e. cc))

  -- Without a given index the selection fails exactly when no worker is suitable.
  pub select_worker-err_iff :
      (archival : Option Bool) (n : ℕ) (ws : List WorkerControl)
      → (select_worker shuffle none archival n ws ≡ err select_worker_error)
        ↔ (count (is_suitable archival) ws ≡ 0)
  unfolding select_worker
  select_worker-err_iff archival n ws =
      let xs = shuffle.run (suitable archival ws) in
      let none_left = count-zero_iff xs (serving archival ws) (shuffled-suitable archival ws) in
      let good = is_suitable archival in
      (
        (λ e. at_index-zero good ws (none_left.0 ((pick-err_iff n xs).0 e))),
        (λ z. (pick-err_iff n xs).1 (none_left.1 (zero-at_index good ws z))),
      )

  pick-cases :
      (n : ℕ) (xs : List ℕ)
      → ((s : Selected) × (pick n xs ≡ ok s)) ⊎ (pick n xs ≡ err select_worker_error)
  pick-cases n [] = inr refl
  pick-cases n (x ∷ xs) = inl (_, refl)

  pub select_worker-cases :
      (archival : Option Bool) (n : ℕ) (ws : List WorkerControl)
      → ((s : Selected) × (select_worker shuffle none archival n ws ≡ ok s))
        ⊎ (select_worker shuffle none archival n ws ≡ err select_worker_error)
  unfolding select_worker
  select_worker-cases archival n ws = pick-cases n (shuffle.run (suitable archival ws))
