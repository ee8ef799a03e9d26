-- ===== src/Settings/Printed.antt =====
-- A configuration that is written as environment variables is read back: IpfsSettings and
-- TonlibSettings of NFTorrent/settings.py.
use nft_torrent.Base.{
  ◌≡◌, refl, Bool, true, false, Option, none, some, List, [], ◌∷◌, arith, if◌then◌else◌,
}
use nft_torrent.Base.Int.{ℤ, pos}
use nft_torrent.Base.Result.{ok}
use nft_torrent.Settings.{Environ, strtobool, bool_of, int_of, value_from_file}
use nft_torrent.Settings.Types.{IpfsSettings, TonlibSettings}
use nft_torrent.Settings.Sections.{ipfs_from_environment, tonlib_from_environment}
use Prim.Native.String.{String}
use text.Mathlib.Text.{◌==◌ as str_eq, starts_with}

abbrev variable : String → List (String × Option String) → Option String
variable name [] = none
variable name ((other, value) ∷ variables) =
    if str_eq other name then value else variable name variables

abbrev pub flag_text : Bool → String
flag_text true = "true"
flag_text false = "false"

-- The environment with the variables of two sections, where `str` writes a number
pub printed : (ℤ → String) → IpfsSettings → TonlibSettings → Environ → Environ
printed str ipfs tonlib environ = record environ {
  getenv = λ name. variable name (
      ("IPFS_ENABLED", some (flag_text ipfs.enabled))
      ∷ ("IPFS_KUBO_RPC_URI", ipfs.kubo_rpc_uri)
      ∷ ("IPFS_CLUSTER_RPC_URI", ipfs.cluster_rpc_uri)
      ∷ ("IPFS_RPC_TIMEOUT", some (str ipfs.request_timeout))
      ∷ ("IPFS_MIN_PEERS_COUNT", some (str ipfs.min_peers_count))
      ∷ ("IPFS_MIN_REDUNDANCY", some (str ipfs.min_redundancy))
      ∷ ("IPFS_CONFIRMATION_TIMEOUT", some (str ipfs.confirmation_timeout))
      ∷ ("IPFS_STORAGE_CID_SIZE_LIMIT", some (str ipfs.cid_size_limit))
      ∷ ("IPFS_STORAGE_FILE_SIZE_LIMIT", some (str ipfs.file_size_limit))
      ∷ ("TONLIB_MIN_LITESERVERS", some (str tonlib.min_liteservers))
      ∷ ("TONLIB_MAX_LITESERVERS", some (str tonlib.max_liteservers))
      ∷ ("TONLIB_VERBOSITY_LEVEL", some (str tonlib.verbosity_level))
      ∷ ("TONLIB_PARALLEL_REQUESTS", some (str tonlib.parallel_requests))
      ∷ ("TONLIB_KEYSTORE", some tonlib.keystore)
      ∷ ("TONLIB_LITESERVER_CONFIG", some tonlib.liteserver_config_path)
      ∷ ("TONLIB_TONCENTER_ENDPOINT", tonlib.toncenter_endpoint)
      ∷ ("TONLIB_TONCENTER_RATE_LIMIT", some (str tonlib.toncenter_rate_limit))
      ∷ ("TONLIB_TONCENTER_APIKEY", tonlib.toncenter_apikey)
      ∷ ("TONLIB_CDLL_PATH", tonlib.cdll_path)
      ∷ ("TONLIB_REQUEST_TIMEOUT", some (str tonlib.request_timeout))
      ∷ ("TONLIB_SYNC_TIMEOUT", some (str tonlib.sync_timeout))
      ∷ ("TONLIB_RESTART_TIMEOUT", some (str tonlib.restart_timeout))
      ∷ []);
}

-- The value does not name a file.
abbrev pub IsPlain : Option String → Type 0
IsPlain none = Unit {0}
IsPlain (some value) = starts_with value "file:" ≡ false

value_from_file-IsPlain :
    (environ : Environ) (value : Option String)
    → IsPlain value
    → value_from_file environ value ≡ ok value
unfolding value_from_file
value_from_file-IsPlain environ none h = refl
value_from_file-IsPlain environ (some value) h = rw h refl

strtobool-flag_text :
    (environ : Environ) (b : Bool)
    → environ.lower "true" ≡ "true"
    → environ.lower "false" ≡ "false"
    → strtobool environ (flag_text b) ≡ ok b
unfolding strtobool
strtobool-flag_text environ true t f = rw t refl
strtobool-flag_text environ false t f = rw f refl

int_of_read :
    (environ : Environ) (name value : String) (default n : ℤ)
    → environ.getenv name ≡ some value
    → environ.int value ≡ some n
    → int_of environ name default ≡ ok n
unfolding int_of
int_of_read environ name value default n e i = ground (arith, e, i)

module _ (str : ℤ → String) (environ : Environ) (ipfs : IpfsSettings) (tonlib : TonlibSettings)
    (ints : (n : ℤ) → environ.int (str n) ≡ some n) where
  int_of-printed :
      (name : String) (default n : ℤ)
      → (printed str ipfs tonlib environ).getenv name ≡ some (str n)
      → int_of (printed str ipfs tonlib environ) name default ≡ ok n
  unfolding printed
  int_of-printed name default n e =
      int_of_read (printed str ipfs tonlib environ) name (str n) default n e (ints n)

  ipfs_from_environment-printed :
      environ.lower "true" ≡ "true"
      → environ.lower "false" ≡ "false"
      → ipfs_from_environment (printed str ipfs tonlib environ) ≡ ok ipfs
  unfolding ipfs_from_environment printed bool_of
  ipfs_from_environment-printed t f =
      rw
        (
          strtobool-flag_text (printed str ipfs tonlib environ) ipfs.enabled t f,
          int_of-printed "IPFS_RPC_TIMEOUT" (pos 30) ipfs.request_timeout refl,
          int_of-printed "IPFS_MIN_PEERS_COUNT" (pos 10) ipfs.min_peers_count refl,
          int_of-printed "IPFS_MIN_REDUNDANCY" (pos 3) ipfs.min_redundancy refl,
          int_of-printed "IPFS_CONFIRMATION_TIMEOUT" (pos 60) ipfs.confirmation_timeout refl,
          int_of-printed "IPFS_STORAGE_CID_SIZE_LIMIT" (pos 10485760) ipfs.cid_size_limit refl,
          int_of-printed "IPFS_STORAGE_FILE_SIZE_LIMIT" (pos 786432) ipfs.file_size_limit refl,
        )
        refl

  tonlib_from_environment-printed :
      IsPlain tonlib.toncenter_apikey
      → tonlib_from_environment (printed str ipfs tonlib environ)
        ≡ ok (record tonlib { request_timeout = tonlib.sync_timeout; sync_timeout = pos 300 })
  unfolding tonlib_from_environment printed
  tonlib_from_environment-printed plain =
      rw
        (
          int_of-printed "TONLIB_MIN_LITESERVERS" (pos 2) tonlib.min_liteservers refl,
          int_of-printed "TONLIB_MAX_LITESERVERS" (pos 16) tonlib.max_liteservers refl,
          int_of-printed "TONLIB_VERBOSITY_LEVEL" (pos 0) tonlib.verbosity_level refl,
          int_of-printed "TONLIB_PARALLEL_REQUESTS" (pos 50) tonlib.parallel_requests refl,
          int_of-printed "TONLIB_TONCENTER_RATE_LIMIT" (pos 1) tonlib.toncenter_rate_limit refl,
          value_from_file-IsPlain (printed str ipfs tonlib environ) tonlib.toncenter_apikey plain,
          int_of-printed "TONLIB_REQUEST_TIMEOUT" (pos 10) tonlib.request_timeout refl,
          int_of-printed "TONLIB_SYNC_TIMEOUT" (pos 300) tonlib.sync_timeout refl,
          int_of-printed "TONLIB_RESTART_TIMEOUT" (pos 10) tonlib.restart_timeout refl,
        )
        refl

-- The configuration of IPFS that is written as variables is read back as it was, and so is that of
-- the liteservers, but for two fields: the request timeout is the one that was written for the
-- synchronisation, and the synchronisation has its default of 300 seconds. `int` must read what
-- `str` writes, `lower` keep the two flags, and the key of toncenter must not name a file.
pub from_environment-printed :
    (str : ℤ → String) (environ : Environ) (ipfs : IpfsSettings) (tonlib : TonlibSettings)
    → ((n : ℤ) → environ.int (str n) ≡ some n)
    → environ.lower "true" ≡ "true"
    → environ.lower "false" ≡ "false"
    → IsPlain tonlib.toncenter_apikey
    → (ipfs_from_environment (printed str ipfs tonlib environ) ≡ ok ipfs)
      × (tonlib_from_environment (printed str ipfs tonlib environ)
          ≡ ok (record tonlib { request_timeout = tonlib.sync_timeout; sync_timeout = pos 300 }))
from_environment-printed str environ ipfs tonlib ints t f plain = (
  ipfs_from_environment-printed str environ ipfs tonlib ints t f,
  tonlib_from_environment-printed str environ ipfs tonlib ints plain,
)
