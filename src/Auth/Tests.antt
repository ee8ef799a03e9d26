-- ===== src/Auth/Tests.antt =====
-- Tokens that are their payloads, two nodes, and a wallet.
use nft_torrent.Base.{
  ℕ, ◌+◌, ◌<◌, ◌≡◌, refl, Bool, true, false, ◌&&◌, none, some, List, [], ◌∷◌, arith, ltb,
  if◌then◌else◌,
}
use nft_torrent.Base.Result.{ok}
use nft_torrent.Auth.{
  JwtPayload, Jwt, is_in, Node, is_known, verify_jwt_token, Request, client_ip, authorize_node,
  audience, auth_payload_expires_timeout, Site, authorize_session, Account, TonProof, auth_verify,
  session_payload, auth_session,
}
use nft_torrent.Auth.Tokens.{
  node_payload, get_jwt_token, after_calls, verify_jwt_token-get_jwt_token,
}
use nft_torrent.Auth.Sessions.{authorize_node-authenticated, auth_session-authorize_session}
use Prim.Native.String.{String}
use text.Mathlib.Text.{◌==◌ as str_eq}
use text.Mathlib.TextEquality.{eq_iff}

abbrev is_for : String → List String → Bool
is_for a [] = false
is_for a (x ∷ xs) = str_eq x a

abbrev plain : Jwt JwtPayload
plain = record {
  encode = λ p. p;
  decode = λ now p a. if is_for a p.aud && ltb now p.exp then some p else none;
  is_empty = λ p. false;
  decodes = λ now p a e l. rw e (let r = (eq_iff a a).1 refl in ground arith);
}

abbrev node : Node
node = record {
  subject = "10.0.0.1";
  known_peers = some ("10.0.0.2" ∷ []);
  real_ip_header = true;
  auto_error = true;
  allow_networks = [];
}

abbrev peer_token : JwtPayload
peer_token = record { sub = some "10.0.0.2"; aud = "10.0.0.1" ∷ []; exp = 9; user = none }

abbrev request : Request JwtPayload
request = record {
  host = "127.0.0.1";
  real_ip = some "10.0.0.2";
  credentials = ok (some peer_token);
  cookie = none;
}

abbrev peer : Node
peer = record node { subject = "10.0.0.2"; known_peers = some ("10.0.0.1" ∷ []) }

-- The peer was asked for before, and so was another one.
verify_jwt_token-get_jwt_token_example :
    let calls : List (ℕ × String) = (1000, "10.0.0.3") ∷ (5, "10.0.0.2") ∷ [] in
    (expires : ℕ) × (verify_jwt_token plain 1050 peer
        (get_jwt_token plain 1000 node "10.0.0.2" (after_calls plain node calls)).0
        "10.0.0.1"
      ≡ ok (node_payload plain node "10.0.0.2" expires))
    × (1000 + 60 < expires)
verify_jwt_token-get_jwt_token_example =
    verify_jwt_token-get_jwt_token plain 1000 1050 node peer
      ((1000, "10.0.0.3") ∷ (5, "10.0.0.2") ∷ []) (omega arith) refl refl

authorize_node-authenticated_example :
    let ip = client_ip node.real_ip_header request in
    (token : JwtPayload) × (request.credentials ≡ ok (some token))
    × (plain.decode 5 token node.subject ≡ some peer_token)
    × (peer_token.sub ≡ some ip)
    × (is_known node ip ≡ true)
unfolding authorize_node verify_jwt_token
authorize_node-authenticated_example =
    authorize_node-authenticated plain (λ n ip. false) 5 node request peer_token refl

abbrev site : Site
site = record {
  domains = "pets.example" ∷ [];
  site_networks = [];
  real_ip_header = true;
  testnet = false;
}

abbrev wallet : Account
wallet = record { address = "EQB"; is_testnet = false; public_key = "k" }

abbrev proof : TonProof JwtPayload
proof = record {
  timestamp = 4;
  domain = "pets.example";
  payload = record { sub = none; aud = audience ∷ []; exp = 180; user = none };
  signature = "s";
}

abbrev session : JwtPayload
session = session_payload 5 wallet proof.payload

auth_session-authorize_session_example :
    let r = record request { cookie = some session } in
    (authorize_session plain (λ n ip. false) 100 site r ≡ ok (some session))
    × (session.sub ≡ some wallet.address)
    × (5 < proof.timestamp + auth_payload_expires_timeout)
    × (is_in site.domains proof.domain ≡ true)
    × (str_eq "k" "k" ≡ true)
unfolding auth_session auth_verify
auth_session-authorize_session_example =
    auth_session-authorize_session plain (λ k a q. str_eq k "k") (λ n ip. false) 5 100 site wallet
      proof none (record request { cookie = some session }) session session refl refl refl
      (omega arith)
