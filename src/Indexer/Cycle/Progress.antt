-- ===== src/Indexer/Cycle/Progress.antt =====
-- What a cycle of the indexer covers, and when it stores nothing.
use nft_torrent.Base.{
  ℕ, zero, suc, ◌+◌, ◌-◌, ◌≤◌, ◌<◌, ◌≡◌, refl, ◌⊎◌, Bool, true, false, ◌&&◌, List, [], ◌∷◌, ◌++◌,
  arith, ltb, ◌==◌, length, length-append, All, All-append, Bool-cases, inl, inr,
}
use nft_torrent.Base.Result.{Result, ok, err, Result-cases}
use nft_torrent.Indexer.Nft.{PetMemoryNft}
use nft_torrent.Indexer.Cycle.{
  FetchError, request_error, other_error, Fetched, Batch, error_counted, aborted, appended,
  error_caught, info_of, with_nft_data, index_one, index_loop, Collection, save_batch, insert_fails,
  end_loop, index_cycle,
}

-- The NFTs of the batch carry the index at which they were found.
abbrev pub InRange : ℕ → ℕ → PetMemoryNft → Type 0
InRange lo hi nft = (lo ≤ nft.index) × (nft.index < hi)

All-InRange :
    (lo hi hi' : ℕ) (nfts : List PetMemoryNft)
    → hi ≤ hi'
    → All (InRange lo hi) nfts
    → All (InRange lo hi') nfts
All-InRange lo hi hi' [] le h = tt
All-InRange lo hi hi' (nft ∷ nfts) le h = (omega arith, All-InRange lo hi hi' nfts le h.1)

-- The loop, from a batch that starts at `lo`.
record Covers (lo bulk_size next_index : ℕ) (b : Batch) : Type 0 where
  from : lo ≤ b.index
  to : b.index ≤ next_index
  room : length b.bulk ≤ bulk_size
  counted : lo + length b.bulk + b.errors ≡ b.index
  in_range : All (InRange lo b.index) b.bulk

module _ (fetch : ℕ → Fetched) (lo bulk_size next_index : ℕ) where
  -- What a round may do with the batch
  Advances : Batch → Batch → Type 0
  Advances b b' =
      Covers lo bulk_size next_index b' × ((b'.index ≡ b.index + 1) ⊎ (b'.raised ≡ true))

  module _ (b : Batch) (h : Covers lo bulk_size next_index b) (ahead : b.index < next_index)
      (room : length b.bulk < bulk_size) where
    error_counted-Advances : Advances b (error_counted b)
    unfolding Advances
    error_counted-Advances = (
      record {
        from = omega (arith, h.from);
        to = omega arith;
        room = h.room;
        counted = omega (arith, h.counted);
        in_range = All-InRange lo b.index (b.index + 1) b.bulk (omega arith) h.in_range;
      },
      inl refl,
    )

    aborted-Advances : Advances b (aborted b)
    unfolding Advances
    aborted-Advances = (
      record {
        from = h.from;
        to = h.to;
        room = h.room;
        counted = h.counted;
        in_range = h.in_range;
      },
      inr refl,
    )

    appended-Advances :
        (nft : PetMemoryNft) → (nft.index == b.index) ≡ true → Advances b (appended nft b)
    unfolding Advances
    appended-Advances nft same =
        let longer = length-append b.bulk (nft ∷ []) in
        (
          record {
            from = omega (arith, h.from);
            to = omega arith;
            room = ground (arith, longer);
            counted = ground (arith, longer, h.counted);
            in_range =
                All-append (InRange lo (b.index + 1)) b.bulk (nft ∷ [])
                  (All-InRange lo b.index (b.index + 1) b.bulk (omega arith) h.in_range)
                  ((ground (arith, h.from), ground arith), tt);
          },
          inl refl,
        )

    error_caught-Advances : (e : FetchError) → Advances b (error_caught e b)
    error_caught-Advances request_error = error_counted-Advances
    error_caught-Advances other_error = aborted-Advances

    with_nft_data-Advances :
        (fetched : Fetched) (r : Result FetchError PetMemoryNft)
        → Advances b (with_nft_data fetched r b)
    with_nft_data-Advances fetched (err e) = error_caught-Advances e
    with_nft_data-Advances fetched (ok nft) = elim (Bool-cases (nft.index == b.index)) [
      | inr other ↦ rw other error_counted-Advances
      | inl same ↦ elim (Result-cases (info_of fetched nft)) [
        | inl (info, e) ↦ rw (same, e) (appended-Advances nft same)
        | inr (x, e) ↦ rw (same, e) (error_caught-Advances x)
      ]
    ]

    index_one-Advances : (fetched : Fetched) → Advances b (index_one fetched b)
    unfolding index_one
    index_one-Advances fetched = elim (Result-cases fetched.address) [
      | inl (a, e) ↦ rw e (with_nft_data-Advances fetched fetched.nft_data)
      | inr (x, e) ↦ rw e aborted-Advances
    ]

  Ends : Batch → Type 0
  Ends b =
      Covers lo bulk_size next_index b
      × ((b.raised ≡ true) ⊎ ((b.index ≡ next_index) ⊎ (length b.bulk ≡ bulk_size)))

  index_loop-Ends :
      (fuel : ℕ) (b : Batch)
      → Covers lo bulk_size next_index b
      → (next_index ≤ b.index + fuel) ⊎ (b.raised ≡ true)
      → Ends (index_loop fetch bulk_size next_index fuel b)
  unfolding index_loop Ends Advances
  index_loop-Ends zero b h (inl enough) = (h, inr (inl (omega (arith, h.to))))
  index_loop-Ends zero b h (inr raised) = (h, inl raised)
  index_loop-Ends (suc fuel) b h enough = elim (Bool-cases b.raised) [
    | inl raised ↦ rw (raised, index_loop) (h, inl raised)
    | inr going ↦ elim (Bool-cases (ltb b.index next_index && ltb (length b.bulk) bulk_size)) [
      | inr done ↦ rw (going, done, index_loop) (h, inr (ground (arith, h.to, h.room)))
      | inl more ↦
          let (h', moved) = index_one-Advances b h (ground arith) (ground arith) (fetch b.index) in
          rw (going, more, index_loop)
            (index_loop-Ends fuel (index_one (fetch b.index) b) h' (elim enough [
              | inr raised ↦ absurd (ground (arith, raised, going))
              | inl le ↦ elim moved [ inl next ↦ inl (omega arith) | inr stopped ↦ inr stopped ]
            ]))
    ]
  ]

-- The batch of a cycle that starts at `index`.
abbrev pub cycle_batch : (ℕ → Fetched) → ℕ → ℕ → ℕ → Batch
cycle_batch fetch bulk_size next_index index =
    index_loop fetch bulk_size next_index (next_index - index)
      (record { bulk = []; errors = 0; index = index; raised = false })

cycle_batch-Ends :
    (fetch : ℕ → Fetched) (bulk_size next_index index : ℕ)
    → index < next_index
    → Ends fetch index bulk_size next_index (cycle_batch fetch bulk_size next_index index)
cycle_batch-Ends fetch bulk_size next_index index ahead =
    index_loop-Ends fetch index bulk_size next_index (next_index - index) _
      (record {
        from = omega arith;
        to = omega arith;
        room = omega arith;
        counted = omega arith;
        in_range = tt;
      })
      (inl (omega arith))

-- What a cycle has done with the new NFTs `new`.
pub record Indexed (bulk_size next_index : ℕ) (c c' : Collection) (new : List PetMemoryNft)
    : Type 0 where
  pub nfts : c'.nfts ≡ c.nfts ++ new
  pub forward : c.index < c'.index
  pub not_beyond : c'.index ≤ next_index
  pub room : length new ≤ bulk_size
  pub accounted : c.index + length new + c'.index_errors ≡ c'.index + c.index_errors
  pub in_range : All (InRange c.index c'.index) new
  pub ends : (c'.index ≡ next_index) ⊎ (length new ≡ bulk_size)

-- Nothing is stored, since the cycle has raised or has no NFT.
pub record Kept (raised : Bool) (c c' : Collection) (new : List PetMemoryNft) : Type 0 where
  pub index : c'.index ≡ c.index
  pub nfts : c'.nfts ≡ c.nfts
  pub reason : (raised ≡ true) ⊎ (new ≡ [])

saved :
    (bulk_size next_index : ℕ) (c : Collection) (bulk : List PetMemoryNft) (errors index : ℕ)
    → let b : Batch = record { bulk = bulk; errors = errors; index = index; raised = false } in
      Covers c.index bulk_size next_index b
      → (index ≡ next_index) ⊎ (length bulk ≡ bulk_size)
      → Kept false c (save_batch b c) bulk ⊎ Indexed bulk_size next_index c (save_batch b c) bulk
unfolding save_batch
saved bulk_size next_index c [] errors index h ends =
    inl (record { index = refl; nfts = refl; reason = inr refl })
saved bulk_size next_index c (x ∷ xs) errors index h ends = inr (record {
  nfts = refl;
  forward = omega (arith, h.counted);
  not_beyond = h.to;
  room = h.room;
  accounted = omega (arith, h.counted);
  in_range = h.in_range;
  ends = ends;
})

ended :
    (fetch : ℕ → Fetched) (inserts : List PetMemoryNft → Bool) (bulk_size next_index : ℕ)
    (c : Collection) (bulk : List PetMemoryNft) (errors index : ℕ) (raised : Bool)
    → let b : Batch = record { bulk = bulk; errors = errors; index = index; raised = raised } in
      let (r, c') = end_loop inserts b c in
      Ends fetch c.index bulk_size next_index b
      → Kept r c c' bulk ⊎ ((r ≡ false) × Indexed bulk_size next_index c c' bulk)
unfolding end_loop Ends
ended fetch inserts bulk_size next_index c bulk errors index true h =
    inl (record { index = refl; nfts = refl; reason = inl refl })
ended fetch inserts bulk_size next_index c bulk errors index false (h, inl never) =
    absurd (ground arith)
ended fetch inserts bulk_size next_index c bulk errors index false (h, inr ends) =
    elim (Bool-cases (insert_fails inserts bulk)) [
      | inl fails ↦
          rw (fails, end_loop) (inl (record { index = refl; nfts = refl; reason = inl refl }))
      | inr takes ↦
          rw (takes, end_loop)
            (elim (saved bulk_size next_index c bulk errors index h ends) [
              | inl kept ↦ inl kept
              | inr indexed ↦ inr (refl, indexed)
            ])
    ]

-- A cycle with NFTs to fetch either stores nothing and keeps the index, because it has raised or
-- has found no NFT, or it does not raise, stores a batch of at most `bulk_size` NFTs and moves the
-- index forward, not beyond the index on the chain: each NFT of the batch has an index that was
-- passed over, every index that was passed over is counted as stored or as an error, and the cycle
-- has stopped at the end of the chain or with a full batch.
pub index_cycle-Indexed :
    (fetch : ℕ → Fetched) (inserts : List PetMemoryNft → Bool) (bulk_size next_index : ℕ)
    (c : Collection)
    → c.index < next_index
    → let (raised, c') = index_cycle fetch inserts bulk_size next_index c in
      let new = (cycle_batch fetch bulk_size next_index c.index).bulk in
      Kept raised c c' new ⊎ ((raised ≡ false) × Indexed bulk_size next_index c c' new)
unfolding index_cycle
index_cycle-Indexed fetch inserts bulk_size next_index c ahead =
    let b = cycle_batch fetch bulk_size next_index c.index in
    let t : ltb c.index next_index ≡ true = ground arith in
    rw t (
      ended fetch inserts bulk_size next_index c b.bulk b.errors b.index b.raised
        (cycle_batch-Ends fetch bulk_size next_index c.index ahead))
