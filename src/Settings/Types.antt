-- ===== src/Settings/Types.antt =====
-- The sections of the configuration: the dataclasses of NFTorrent/settings.py.
use nft_torrent.Base.{Bool, Option, List}
use nft_torrent.Base.Int.{ℤ}
use Prim.Native.String.{String}

-- A number that may be left out, or be empty, which stays a text
pub data GroupId : Type 0 where
  unset empty : GroupId
  group : ℤ → GroupId

pub record WebServerSettings : Type 0 where
  pub testnet : Bool
  pub debug : Bool
  pub api_root_path : String
  pub remote_api_root : Option String
  pub public_addr : String
  pub node_id : Option String
  pub jwt_secret : Option String
  pub jwt_algorithm : String
  pub bot_polling : Bool
  pub bot_token : Option String
  pub bot_admin_group_id : GroupId
  pub port : Option ℤ
  pub enable_ssl : Bool
  pub verify_ssl : Bool
  pub bearer_auth_response : Bool
  pub real_ip_header : Bool
  pub request_timeout : ℤ
  pub twa_domains : List String
  pub allow_origins : List String
  pub collection_config : Option String
  pub allow_networks : List String
  pub getgems_authority : String
  pub ipfs_authority : String
  pub petsmem_authority : String
  pub petsmem_content_authority : String
  pub tonviewer_authority : String
  pub bot_miniapp_url : String

pub record IndexDbSettings : Type 0 where
  pub enabled : Bool
  pub database_url : String
  pub indexer_timeout : ℤ
  pub bulk_size : ℤ
  pub num_workers : ℤ
  pub max_parallel_task : ℤ
  pub icon_size_small : ℤ
  pub icon_size_medium : ℤ
  pub icon_format : String
  pub http_timeout : ℤ
  pub etcd_hosts : List String
  pub etcd_cacert : Option String
  pub etcd_cert : Option String
  pub etcd_key : Option String
  pub task_queue_bulk_size : ℤ

pub record IpfsSettings : Type 0 where
  pub enabled : Bool
  pub kubo_rpc_uri : Option String
  pub cluster_rpc_uri : Option String
  pub request_timeout : ℤ
  pub min_peers_count : ℤ
  pub min_redundancy : ℤ
  pub confirmation_timeout : ℤ
  pub cid_size_limit : ℤ
  pub file_size_limit : ℤ

-- MemoryCacheSettings and RedisCacheSettings, and a manager without settings
pub data CacheManagerSettings : Type 0 where
  disabled : CacheManagerSettings
  memory : ℤ → CacheManagerSettings
  redis : String → ℤ → ℤ → CacheManagerSettings

pub record CacheSettings : Type 0 where
  pub enabled : Bool
  pub manager_class : Option String
  pub cache_settings : CacheManagerSettings

pub record TonlibSettings : Type 0 where
  pub min_liteservers : ℤ
  pub max_liteservers : ℤ
  pub verbosity_level : ℤ
  pub parallel_requests : ℤ
  pub keystore : String
  pub liteserver_config_path : String
  pub toncenter_endpoint : Option String
  pub toncenter_rate_limit : ℤ
  pub toncenter_apikey : Option String
  pub cdll_path : Option String
  pub request_timeout : ℤ
  pub sync_timeout : ℤ
  pub restart_timeout : ℤ

pub record Settings : Type 0 where
  pub logger_level : String
  pub logger_config : Option String
  pub ipfs : IpfsSettings
  pub webserver : WebServerSettings
  pub tonlib : TonlibSettings
  pub cache : CacheSettings
  pub indexdb : IndexDbSettings

-- The `settings_class` of a cache manager
pub data SettingsClass : Type 0 where
  no_settings memory_settings redis_settings : SettingsClass
