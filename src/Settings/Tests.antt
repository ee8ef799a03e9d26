-- ===== src/Settings/Tests.antt =====
-- A configuration of a node with one endpoint, and what an environment without variables gives.
use nft_torrent.Base.{
  ℕ, zero, suc, ◌≡◌, refl, ap, true, Option, none, some, ◌==◌, if◌then◌else◌, [],
}
use nft_torrent.Base.Int.{ℤ, pos, negsuc}
use nft_torrent.Base.Result.{ok, ◌>>=◌}
use nft_torrent.Settings.{Environ, int_of, value_from_file}
use nft_torrent.Settings.Types.{IpfsSettings, TonlibSettings}
use nft_torrent.Settings.Sections.{ipfs_from_environment, tonlib_from_environment}
use nft_torrent.Settings.Printed.{printed, from_environment-printed}
use Prim.Native.Char.{code}
use Prim.Native.String.{String}

-- Numbers in unary: a letter for each, after a sign
abbrev unary : ℕ → String
unary zero = String.[]
unary (suc n) = String.◌∷◌ "i" (unary n)

abbrev size : String → ℕ
size String.[] = 0
size (String.◌∷◌ c s) = suc (size s)

size-unary : (n : ℕ) → size (unary n) ≡ n
size-unary zero = refl
size-unary (suc n) = ap (λ k. suc k) (size-unary n)

abbrev str : ℤ → String
str (pos n) = unary n
str (negsuc n) = String.◌∷◌ "-" (unary n)

abbrev int : String → Option ℤ
int String.[] = some (pos 0)
int (String.◌∷◌ c s) = some (if code c == b'-' then negsuc (size s) else pos (suc (size s)))

int-str : (n : ℤ) → int (str n) ≡ some n
int-str (pos zero) = refl
int-str (pos (suc n)) = ap (λ k. some (pos (suc k))) (size-unary n)
int-str (negsuc n) = ap (λ k. some (negsuc k)) (size-unary n)

abbrev no_variables : Environ
no_variables = record {
  getenv = λ name. none;
  int = int;
  lower = λ s. s;
  strip = λ s. s;
  split = λ s. [];
  rsplit = λ s. none;
  first_line = λ s. ok "";
  has_module = λ m. true;
  has_attribute = λ m a. true;
}

abbrev node_ipfs : IpfsSettings
node_ipfs = record {
  enabled = true;
  kubo_rpc_uri = some "http://kubo:5001";
  cluster_rpc_uri = none;
  request_timeout = pos 7;
  min_peers_count = pos 4;
  min_redundancy = pos 2;
  confirmation_timeout = pos 9;
  cid_size_limit = pos 100;
  file_size_limit = pos 50;
}

abbrev node_tonlib : TonlibSettings
node_tonlib = record {
  min_liteservers = pos 2;
  max_liteservers = pos 3;
  verbosity_level = negsuc 0;
  parallel_requests = pos 5;
  keystore = "./keys";
  liteserver_config_path = "config.json";
  toncenter_endpoint = none;
  toncenter_rate_limit = pos 1;
  toncenter_apikey = some "key";
  cdll_path = none;
  request_timeout = pos 10;
  sync_timeout = pos 60;
  restart_timeout = pos 8;
}

-- Without variables the request timeout is the default of the synchronisation.
default_timeout :
    (tonlib_from_environment no_variables >>= λ tonlib. ok tonlib.request_timeout) ≡ ok (pos 300)
unfolding tonlib_from_environment int_of value_from_file
default_timeout = refl

from_environment-printed_example :
    (ipfs_from_environment (printed str node_ipfs node_tonlib no_variables) ≡ ok node_ipfs)
    × (tonlib_from_environment (printed str node_ipfs node_tonlib no_variables)
        ≡ ok (record node_tonlib { request_timeout = pos 60; sync_timeout = pos 300 }))
from_environment-printed_example =
    from_environment-printed str no_variables node_ipfs node_tonlib int-str refl refl refl
