-- ===== src/Lib.antt =====
-- NFTorrent is a gateway for collections of pet NFTs on the TON blockchain. It asks liteservers
-- about contracts, keeps an index of the NFTs in a database, stores their images on IPFS, and talks
-- to the owners through a Telegram bot. This library models the parts that decide something; the
-- network, the database and the clock come in as parameters.
--
-- The parts, and the files that model them:
--
-- * Tonlib (NFTorrent/tonlib/manager.py, class TonlibManager). One process per liteserver, whose
--   control block is the record WorkerControl of Tonlib/Control. Tonlib/Consensus is check_working:
--   the vote on the consensus block, and which workers are in sync. Tonlib/Workers is spawn_worker,
--   terminate_worker, worker_control and check_children_alive, with the window in which a worker is
--   restarted. Tonlib/Select is select_worker, which relies on the state that the other two leave.
--   Tonlib/Requests is the bookkeeping of requests in flight (dispatch_request_to_worker and
--   read_results), and Tonlib/Requests/Fallback the public methods, which select a worker and fall
--   back to toncenter. Tonlib/Worker is the other end of the queues, a liteserver process
--   (NFTorrent/tonlib/worker.py): its synchronisation, its main loop and its tasks;
--   Tonlib/Worker/Exchange joins the two ends. Tonlib/NftData is get_nft_data, with the answers of
--   raw_run_method and get_nft_item_address as arguments.
-- * Bot (NFTorrent/bot). Bot/Inquiries is the table of inquiries with the operations of
--   NFTorrent/bot/backend.py, and Bot/Inquiries/Desk what it promises. Bot/Dialogue is the router
--   of NFTorrent/bot/handlers/inquiry.py, whose handlers use these operations: Bot/Dialogue/Form
--   the questions for a new inquiry, Bot/Dialogue/Replies the replies, and Bot/Dialogue/Route which
--   handler takes an update.
-- * Auth (NFTorrent/auth.py, classes NodeJWTBearer and ContractAPIKeyCookie). Which node or wallet
--   is let in, with tokens and signatures as parameters.
-- * Web (NFTorrent/webserver.py). Web/Sync is sync_nft_data, which joins Locks, Tonlib/NftData, the
--   pins of Ipfs and Indexer/Single. Web/Content is get_nft_content and the other requests for the
--   content of an NFT, over Tonlib/NftData and Ipfs/Content.
-- * Settings (NFTorrent/settings.py). The configuration from the environment, by its sections:
--   Settings/Types and Settings/Sections.
-- * Locks (NFTorrent/locks.py, class OperationLock). The lock of one key with its reference count,
--   and a step relation of the tasks that use it.
-- * RateLimit (NFTorrent/ratelimit.py, classes TokenBucketRateLimit and UniformRateLimit). How many
--   calls they let through, and how far apart; the second one limits the toncenter requests of
--   Tonlib.
-- * Blockchain (NFTorrent/blockchain). Blockchain/Encoders has the codes of dates and countries of
--   encoders.py, Blockchain/Address the ADNL ids and bag ids of address.py, Blockchain/Content the
--   data of an NFT in its cell (blockchain/models.py).
-- * Ipfs (NFTorrent/ipfs/manager.py, class IpfsRpcManager, with NftContentInfo of
--   NFTorrent/models.py and parse_ipfs_uri of NFTorrent/utils.py). Ipfs/Content is which file of a
--   CID is served, Ipfs/Pins the pins, Ipfs/Confirmation the wait for a confirmation, which takes a
--   lock of Locks, and Ipfs/Upload the new content, which leaves confirmations behind.
-- * Indexer (NFTorrent/indexer/indexdb.py, class IndexDb, and NFTorrent/dbmodels.py). Indexer/Cycle
--   is _nft_indexer_cycle, Indexer/Update is _nft_update with the notifications it queues,
--   Indexer/Tasks is the rounds of nft_task_processor, which read the queue and use Indexer/Update,
--   Indexer/Feed is sync_collection_random_feed, and Indexer/Single the sync of one NFT and the
--   insertion of new ones (nft_update_nft_data and sync_collection_nft_bulk_insert), which store as
--   Indexer/Tasks does. Indexer/Etcd is the lock under which one node indexes, Indexer/Users the
--   queue of the users of the bot, and Indexer/Icons the icons of an NFT.
--
-- An operation that changes an object takes it and returns it. An exception is a value: Base/Result
-- has the type of a call that returns or raises. What a library or a service answers is a
-- parameter: a field of the records World, Node, Cluster, Polls, Rows, Attempts, App, Codec,
-- Readers, Sql, Environ, Server, Site, IconCalls and Slices, or an argument. Seconds and block
-- numbers are natural numbers or integers of Base/Int; a float that is compared with a threshold is
-- written as the inequality of integers that it stands for.
--
-- Loops run on fuel where the source has no bound. The cells of an image are read with fuel for
-- each of them. The loop of the indexer has as much fuel as there are indices to go, and the wait
-- for a confirmation ends with a tenth of its timeout and one round more. The synchronisation of a
-- worker has one attempt for each second of its timeout, and one more, since it sleeps for a second
-- after each. The loop of the random feed does not end for every segment, which the results on it
-- tell apart.
--
-- Not modelled: the cells of collections, which libraries read for the most part, the queries for
-- collections, the semaphores that bound the callers of a rate limit, the messages of the bot about
-- NFTs, which are texts and pictures, and the routes of the HTTP interface, which pass requests on.
pub mod Base
pub mod Auth
pub mod Blockchain
pub mod Bot
pub mod Locks
pub mod RateLimit
pub mod Ipfs
pub mod Settings
pub mod Tonlib
pub mod Indexer
pub mod Web
