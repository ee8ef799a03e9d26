-- ===== src/Settings/Sections.antt =====
-- How each section of the configuration is read: `from_environment` of NFTorrent/settings.py.
use nft_torrent.Base.{Option, none, some, if◌then◌else◌}
use nft_torrent.Base.Int.{ℤ, pos}
use nft_torrent.Base.Result.{Result, ok, err, ◌>>=◌}
use nft_torrent.Settings.{
  SettingsError, attribute_error, Environ, import_string, value_from_file, env_text, as_int, int_of,
  bool_of, list_of,
}
use Prim.Native.String.{String, ◌++◌ as append}
use text.Mathlib.Text.{◌==◌ as str_eq}
use nft_torrent.Settings.Types.{
  GroupId, WebServerSettings, IndexDbSettings, IpfsSettings, CacheManagerSettings, CacheSettings,
  TonlibSettings, Settings, SettingsClass, no_settings, memory_settings, redis_settings, disabled,
  memory, redis,
}

module _ (environ : Environ) where
  abbrev pub group_id : Option String → Result SettingsError GroupId
  group_id none = ok GroupId.unset
  group_id (some value) =
      if str_eq value ""
      then ok GroupId.empty
      else as_int environ value >>= λ n. ok (GroupId.group n)

  abbrev pub optional_int : Option String → Result SettingsError (Option ℤ)
  optional_int none = ok none
  optional_int (some value) = as_int environ value >>= λ n. ok (some n)

  pub webserver_from_environment : Result SettingsError WebServerSettings
  webserver_from_environment = do
    testnet ← bool_of environ "HTTP_TESTNET" "true"
    debug ← bool_of environ "HTTP_DEBUG" "false"
    jwt_secret ← value_from_file environ (environ.getenv "HTTP_API_JWT_SECRET")
    bot_polling ← bool_of environ "HTTP_TWA_BOT_POLL" "true"
    bot_token ← value_from_file environ (environ.getenv "HTTP_TWA_BOT_TOKEN")
    bot_admin_group_id ← group_id (environ.getenv "HTTP_TWA_BOT_ADMIN_GROUP_ID")
    port ← optional_int (environ.getenv "HTTP_PORT")
    enable_ssl ← bool_of environ "HTTP_ENABLE_SSL" "true"
    verify_ssl ← bool_of environ "HTTP_VERIFY_SSL" "true"
    bearer_auth_response ← bool_of environ "HTTP_BEARER_AUTH_RESPONSE" "true"
    real_ip_header ← bool_of environ "HTTP_REAL_IP_HEADER" "true"
    request_timeout ← int_of environ "HTTP_REQUEST_TIMEOUT" (pos 10)
    collection_config ←
        import_string environ
          (some (env_text environ "HTTP_COLLECTION_CONFIG" "NFTorrent.collections.config"))
    ok record {
      testnet = testnet;
      debug = debug;
      api_root_path = env_text environ "HTTP_API_ROOT_PATH" "";
      remote_api_root = environ.getenv "HTTP_REMOTE_API_ROOT";
      public_addr = env_text environ "HTTP_PUBLIC_ADDR" "127.0.0.1";
      node_id = environ.getenv "HTTP_NODE_ID";
      jwt_secret = jwt_secret;
      jwt_algorithm = env_text environ "HTTP_API_JWT_ALGORITHM" "HS256";
      bot_polling = bot_polling;
      bot_token = bot_token;
      bot_admin_group_id = bot_admin_group_id;
      port = port;
      enable_ssl = enable_ssl;
      verify_ssl = verify_ssl;
      bearer_auth_response = bearer_auth_response;
      real_ip_header = real_ip_header;
      request_timeout = request_timeout;
      twa_domains = list_of environ "HTTP_TWA_DOMAINS";
      allow_origins = list_of environ "HTTP_ALLOW_ORIGINS";
      collection_config = collection_config;
      allow_networks = list_of environ "HTTP_ALLOW_NETWORKS";
      getgems_authority = env_text environ "HTTP_GETGEMS_AUTH" "https://testnet.getgems.io";
      ipfs_authority = env_text environ "HTTP_IPFS_AUTH" "https://ipfs.io";
      petsmem_authority = env_text environ "HTTP_PETSMEM_AUTH" "https://testnet.petsmem.site";
      petsmem_content_authority =
          env_text environ "HTTP_PETSMEM_CONTENT_AUTH" "https://t.petsmem.site";
      tonviewer_authority = env_text environ "HTTP_TONVIEWER_AUTH" "https://testnet.tonviewer.com";
      bot_miniapp_url =
          env_text environ "HTTP_BOT_MINIAPP_URL" "https://t.me/pets_memorial_test_bot/petsmem";
    }

  abbrev pub with_port : String → Option String → String
  with_port host none = host
  with_port host (some port) = if str_eq port "" then host else append host (append ":" port)

  -- An f-string shows a password that is missing as "None".
  abbrev pub shown : Option String → String
  shown none = "None"
  shown (some text) = text

  abbrev pub database_url : Option String → String
  database_url password =
      let host =
        with_port (env_text environ "INDEXDB_DATABASE_HOST" "localhost")
          (environ.getenv "INDEXDB_DATABASE_PORT") in
      append (env_text environ "INDEXDB_DATABASE_BACKEND" "postgresql+psycopg2") (
        append "://" (
          append (env_text environ "INDEXDB_DATABASE_USER" "postgres") (
            append ":" (
              append (shown password) (
                append "@" (
                  append host
                    (append "/" (env_text environ "INDEXDB_DATABASE_NAME" "postgres"))))))))

  pub indexdb_from_environment : Result SettingsError IndexDbSettings
  indexdb_from_environment = do
    enabled ← bool_of environ "INDEXDB_ENABLED" "false"
    password ←
        value_from_file environ (some (env_text environ "INDEXDB_DATABASE_PASSWORD" "postgres"))
    indexer_timeout ← int_of environ "INDEXDB_INDEXER_TIMEOUT" (pos 30)
    bulk_size ← int_of environ "INDEXDB_BULK_SIZE" (pos 100)
    num_workers ← int_of environ "INDEXDB_NUM_WORKERS" (pos 4)
    max_parallel_task ← int_of environ "INDEXDB_MAX_PARALLEL_TASK" (pos 4)
    icon_size_small ← int_of environ "INDEXDB_ICON_SIZE_SMALL" (pos 100)
    icon_size_medium ← int_of environ "INDEXDB_ICON_SIZE_MEDIUM" (pos 240)
    http_timeout ← int_of environ "INDEXDB_HTTP_TIMEOUT" (pos 30)
    task_queue_bulk_size ← int_of environ "INDEXDB_TASK_QUEUE_BULK_SIZE" (pos 20)
    ok record {
      enabled = enabled;
      database_url = database_url password;
      indexer_timeout = indexer_timeout;
      bulk_size = bulk_size;
      num_workers = num_workers;
      max_parallel_task = max_parallel_task;
      icon_size_small = icon_size_small;
      icon_size_medium = icon_size_medium;
      icon_format = env_text environ "INDEXDB_ICON_FORMAT" "webp";
      http_timeout = http_timeout;
      etcd_hosts = list_of environ "INDEXDB_ETCD_HOSTS";
      etcd_cacert = environ.getenv "INDEXDB_ETCD_CACERT";
      etcd_cert = environ.getenv "INDEXDB_ETCD_CERT";
      etcd_key = environ.getenv "INDEXDB_ETCD_KEY";
      task_queue_bulk_size = task_queue_bulk_size;
    }

  unfoldable pub ipfs_from_environment : Result SettingsError IpfsSettings
  ipfs_from_environment = do
    enabled ← bool_of environ "IPFS_ENABLED" "false"
    request_timeout ← int_of environ "IPFS_RPC_TIMEOUT" (pos 30)
    min_peers_count ← int_of environ "IPFS_MIN_PEERS_COUNT" (pos 10)
    min_redundancy ← int_of environ "IPFS_MIN_REDUNDANCY" (pos 3)
    confirmation_timeout ← int_of environ "IPFS_CONFIRMATION_TIMEOUT" (pos 60)
    cid_size_limit ← int_of environ "IPFS_STORAGE_CID_SIZE_LIMIT" (pos 10485760)
    file_size_limit ← int_of environ "IPFS_STORAGE_FILE_SIZE_LIMIT" (pos 786432)
    ok record {
      enabled = enabled;
      kubo_rpc_uri = environ.getenv "IPFS_KUBO_RPC_URI";
      cluster_rpc_uri = environ.getenv "IPFS_CLUSTER_RPC_URI";
      request_timeout = request_timeout;
      min_peers_count = min_peers_count;
      min_redundancy = min_redundancy;
      confirmation_timeout = confirmation_timeout;
      cid_size_limit = cid_size_limit;
      file_size_limit = file_size_limit;
    }

  abbrev pub manager_settings : SettingsClass → Result SettingsError CacheManagerSettings
  manager_settings no_settings = ok disabled
  manager_settings memory_settings =
      int_of environ "CACHE_MEMORY_MAX_SIZE" (pos 1024) >>= λ max_size. ok (memory max_size)
  manager_settings redis_settings = do
    port ← int_of environ "CACHE_REDIS_PORT" (pos 6379)
    timeout ← int_of environ "CACHE_REDIS_TIMEOUT" (pos 1)
    ok (redis (env_text environ "CACHE_REDIS_ENDPOINT" "localhost") port timeout)

  -- Without a manager there is no `settings_class` to ask for.
  abbrev pub manager_section :
      (String → SettingsClass) → Option String → Result SettingsError CacheManagerSettings
  manager_section settings_class none = err attribute_error
  manager_section settings_class (some manager) = manager_settings (settings_class manager)

  pub cache_from_environment : (String → SettingsClass) → Result SettingsError CacheSettings
  cache_from_environment settings_class = do
    enabled ← bool_of environ "CACHE_ENABLED" "false"
    manager_class ←
        import_string environ
          (some (env_text environ "CACHE_MANAGER_CLASS" "NFTorrent.cache.MemoryCacheManager"))
    cache_settings ← manager_section settings_class manager_class
    ok record { enabled = enabled; manager_class = manager_class; cache_settings = cache_settings }

  -- `request_timeout` is set twice, and `sync_timeout` keeps the default of its class.
  unfoldable pub tonlib_from_environment : Result SettingsError TonlibSettings
  tonlib_from_environment = do
    min_liteservers ← int_of environ "TONLIB_MIN_LITESERVERS" (pos 2)
    max_liteservers ← int_of environ "TONLIB_MAX_LITESERVERS" (pos 16)
    verbosity_level ← int_of environ "TONLIB_VERBOSITY_LEVEL" (pos 0)
    parallel_requests ← int_of environ "TONLIB_PARALLEL_REQUESTS" (pos 50)
    toncenter_rate_limit ← int_of environ "TONLIB_TONCENTER_RATE_LIMIT" (pos 1)
    toncenter_apikey ← value_from_file environ (environ.getenv "TONLIB_TONCENTER_APIKEY")
    first_timeout ← int_of environ "TONLIB_REQUEST_TIMEOUT" (pos 10)
    request_timeout ← int_of environ "TONLIB_SYNC_TIMEOUT" (pos 300)
    restart_timeout ← int_of environ "TONLIB_RESTART_TIMEOUT" (pos 10)
    ok record {
      min_liteservers = min_liteservers;
      max_liteservers = max_liteservers;
      verbosity_level = verbosity_level;
      parallel_requests = parallel_requests;
      keystore = env_text environ "TONLIB_KEYSTORE" "./ton_keystore/";
      liteserver_config_path =
          env_text environ "TONLIB_LITESERVER_CONFIG" "https://ton.org/global-config.json";
      toncenter_endpoint = environ.getenv "TONLIB_TONCENTER_ENDPOINT";
      toncenter_rate_limit = toncenter_rate_limit;
      toncenter_apikey = toncenter_apikey;
      cdll_path = environ.getenv "TONLIB_CDLL_PATH";
      request_timeout = request_timeout;
      sync_timeout = pos 300;
      restart_timeout = restart_timeout;
    }

  pub from_environment : (String → SettingsClass) → Result SettingsError Settings
  unfolding ipfs_from_environment webserver_from_environment tonlib_from_environment
      cache_from_environment indexdb_from_environment
  from_environment settings_class = do
    logger_config ← import_string environ (environ.getenv "LOGGER_CONFIG")
    ipfs ← ipfs_from_environment
    webserver ← webserver_from_environment
    tonlib ← tonlib_from_environment
    cache ← cache_from_environment settings_class
    indexdb ← indexdb_from_environment
    ok record {
      logger_level = env_text environ "LOGGER_LEVEL" "WARNING";
      logger_config = logger_config;
      ipfs = ipfs;
      webserver = webserver;
      tonlib = tonlib;
      cache = cache;
      indexdb = indexdb;
    }
