-- ===== src/Indexer/Users/Tests.antt =====
-- Two accounts of one owner, and a third user, in the queue.
use nft_torrent.Base.{
  ℕ, ◌+◌, ◌≤◌, ◌≡◌, refl, ◌⊎◌, false, none, some, List, [], ◌++◌, arith, length, All,
}
use nft_torrent.Indexer.Users.{
  TgUser, UserState, Sql, register_tg_user, write_users, sync_tg_user_bulk_upsert, read_queue,
  write_batch, process_tg_queue,
}
use nft_torrent.Indexer.Users.Batch.{IsUnique, HasRow}
use nft_torrent.Indexer.Users.Registered.{process_tg_queue-IsUnique}
use Prim.Native.String.{String}

abbrev orm : Sql
orm = record {
  slice = λ n s. s;
  lower = λ s. s;
  add_fails = λ user. false;
  equation_is_true = false;
}

abbrev unused : UserState
unused = record {
  tg_user_queue = [];
  tg_user = [];
  stats = record {
    tg_user_queue_adds = 0;
    tg_user_queue_gets = 0;
    tg_user_creates = 0;
    tg_user_create_errors = 0;
  };
}

visit : String → ℕ → UserState → UserState
unfolding register_tg_user
visit owner user_id s = (register_tg_user orm owner user_id none false (some "de") (some "en") s).0

abbrev visited : UserState
unfolding visit
visited = visit "EQB" 7 (visit "EQA" 5 (visit "EQA" 5 (visit "EQA" 4 unused)))

-- The second account of "EQA" is not stored.
stored : (process_tg_queue orm 100 visited).0.stats.tg_user_creates ≡ 2
unfolding visit register_tg_user process_tg_queue read_queue write_batch sync_tg_user_bulk_upsert
    write_users
stored = refl

process_tg_queue-IsUnique_example :
    let (s', raised) = process_tg_queue orm 100 visited in
    (raised ≡ false)
    × IsUnique s'.tg_user
    × ((taken : List TgUser) × (visited.tg_user_queue ≡ taken ++ s'.tg_user_queue)
        × All (HasRow s'.tg_user) taken)
    × ((more : List TgUser) × (s'.tg_user ≡ visited.tg_user ++ more)
        × (s'.stats.tg_user_creates ≡ visited.stats.tg_user_creates + length more))
    × ((s'.tg_user_queue ≡ [])
        ⊎ (visited.stats.tg_user_queue_gets + 100 ≤ s'.stats.tg_user_queue_gets))
unfolding visit register_tg_user
process_tg_queue-IsUnique_example =
    process_tg_queue-IsUnique orm 100 visited refl (λ user. refl) (λ owner. omega arith)
