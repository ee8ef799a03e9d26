-- ===== src/Auth.antt =====
-- The checks of NFTorrent/auth.py: the tokens that nodes show each other (NodeJWTBearer) and the
-- sessions of wallets (ContractAPIKeyCookie). Times are in seconds. Tokens, signatures and networks
-- are parameters.
pub mod Sessions
pub mod Tokens
mod Tests
use nft_torrent.Base.{
  ℕ, ◌+◌, ◌*◌, ◌<◌, ◌≡◌, Bool, true, false, not, ◌&&◌, ◌||◌, Option, none, some, List, [], ◌∷◌, leb,
  if◌then◌else◌, is_some,
}
use nft_torrent.Base.Result.{Result, ok, err, ◌>>=◌, ◌>>◌, raise_if}
use Prim.Native.String.{String}
use text.Mathlib.Text.{◌==◌ as str_eq}

-- JWTPayload
pub record JwtPayload : Type 0 where
  pub sub : Option String
  pub aud : List String
  pub exp : ℕ
  pub user : Option String

-- The errors: InvalidTokenError and InvalidSubjectError, SignatureVerificationError, and the
-- HTTPExceptions with their status
pub data AuthError : Type 0 where
  invalid_token invalid_subject bad_signature : AuthError
  forbidden unauthorized : AuthError

-- `jwt.encode` and `jwt.decode` with the secret and the algorithm of the node: a token that has not
-- expired decodes, for an audience it names, to what it was made of. Tokens have a type of their
-- own, of which `is_empty` is the test `if not api_key`.
pub record Jwt (Token : Type 0) : Type 0 where
  pub encode : JwtPayload → Token
  pub decode : ℕ → Token → String → Option JwtPayload
  pub is_empty : Token → Bool
  pub decodes :
      (now : ℕ) (p : JwtPayload) (audience : String)
      → p.aud ≡ audience ∷ []
      → now < p.exp
      → decode now (encode p) audience ≡ some p

abbrev pub is_in : List String → String → Bool
is_in [] s = false
is_in (x ∷ xs) s = str_eq x s || is_in xs s

-- `if not subject`
abbrev pub is_blank : String → Bool
is_blank s = str_eq s ""

pub record Node : Type 0 where
  pub subject : String
  pub known_peers : Option (List String)
  pub real_ip_header : Bool
  pub auto_error : Bool
  pub allow_networks : List String

-- `subject not in _known_peers`, where the peers may be `None`
abbrev pub is_known : Node → String → Bool
is_known node s =
    str_eq s node.subject || (elim node.known_peers [ none ↦ false | some ps ↦ is_in ps s ])

abbrev pub check_subject : Node → String → JwtPayload → Result AuthError JwtPayload
check_subject node subject_ip p = elim p.sub [
  | none ↦ err invalid_subject
  | some s ↦
      raise_if (is_blank s) invalid_subject
      >> raise_if (not (str_eq s subject_ip)) invalid_subject
      >> raise_if (not (is_known node s)) invalid_subject
      >> ok p
]

unfoldable pub verify_jwt_token :
    {Token : Type 0} → Jwt Token → ℕ → Node → Token → String → Result AuthError JwtPayload
verify_jwt_token jwt now node token subject_ip = elim (jwt.decode now token node.subject) [
  | none ↦ err invalid_token
  | some p ↦ check_subject node subject_ip p
]

-- A request: the host, the header X-Real-IP, what the base class makes of the credentials, and the
-- cookie
pub record Request (Token : Type 0) : Type 0 where
  pub host : String
  pub real_ip : Option String
  pub credentials : Result AuthError (Option Token)
  pub cookie : Option Token

abbrev pub client_ip : {Token : Type 0} → Bool → Request Token → String
client_ip real_ip_header r =
    if real_ip_header then elim r.real_ip [ none ↦ r.host | some ip ↦ ip ] else r.host

abbrev pub in_networks : (String → String → Bool) → List String → String → Bool
in_networks contains [] ip = false
in_networks contains (n ∷ ns) ip = contains n ip || in_networks contains ns ip

-- A caller from an allowed network, one without credentials, or one with a token
pub data Caller : Type 0 where
  trusted anonymous : Caller
  authenticated : JwtPayload → Caller

abbrev pub on_invalid : Bool → Result AuthError JwtPayload → Result AuthError Caller
on_invalid auto_error (ok p) = ok (authenticated p)
on_invalid auto_error (err e) = if auto_error then err forbidden else ok anonymous

-- `NodeJWTBearer.__call__`
unfoldable pub authorize_node :
    {Token : Type 0}
    → Jwt Token
    → (String → String → Bool)
    → ℕ
    → Node
    → Request Token
    → Result AuthError Caller
authorize_node jwt contains now node r =
    let ip = client_ip node.real_ip_header r in
    if in_networks contains node.allow_networks ip
    then ok trusted
    else r.credentials >>= λ credentials. elim credentials [
      | none ↦ ok anonymous
      | some token ↦ on_invalid node.auto_error (verify_jwt_token jwt now node token ip)
    ]

abbrev pub audience : String
audience = "NFTorrent"

abbrev pub auth_payload_expires_timeout : ℕ
auth_payload_expires_timeout = 180

abbrev pub session_token_timeout : ℕ
session_token_timeout = 14 * 86400

pub record Site : Type 0 where
  pub domains : List String
  pub site_networks : List String
  pub real_ip_header : Bool
  pub testnet : Bool

-- `ContractAPIKeyCookie.__call__`: a session, or none for a caller from an allowed network
unfoldable pub authorize_session :
    {Token : Type 0}
    → Jwt Token
    → (String → String → Bool)
    → ℕ
    → Site
    → Request Token
    → Result AuthError (Option JwtPayload)
authorize_session jwt contains now site r =
    let refused : Result AuthError (Option JwtPayload) =
      if in_networks contains site.site_networks (client_ip site.real_ip_header r)
      then ok none
      else err forbidden in
    elim r.cookie [
      | none ↦ refused
      | some key ↦
          if jwt.is_empty key
          then refused
          else elim (jwt.decode now key audience) [ none ↦ refused | some p ↦ ok (some p) ]
    ]

pub record Account : Type 0 where
  pub address : String
  pub is_testnet : Bool
  pub public_key : String

pub record TonProof (Token : Type 0) : Type 0 where
  pub timestamp : ℕ
  pub domain : String
  pub payload : Token
  pub signature : String

-- `auth_verify`. The signature over the message that the proof stands for is checked by `verify`,
-- with the given key or that of the account.
unfoldable pub auth_verify :
    {Token : Type 0}
    → Jwt Token
    → (String → Account → TonProof Token → Bool)
    → ℕ
    → Site
    → Account
    → TonProof Token
    → Option String
    → Result AuthError JwtPayload
auth_verify jwt verify now site account proof public_key =
    raise_if (leb (proof.timestamp + auth_payload_expires_timeout) now) bad_signature
    >> raise_if (not (is_in site.domains proof.domain)) bad_signature
    >> raise_if
        (not (verify (elim public_key [ none ↦ account.public_key | some k ↦ k ]) account proof))
        bad_signature
    >> (elim (jwt.decode now proof.payload audience) [ none ↦ err invalid_token | some p ↦ ok p ])

abbrev pub session_payload : ℕ → Account → JwtPayload → JwtPayload
session_payload now account p = record {
  sub = some account.address;
  aud = audience ∷ [];
  exp = now + session_token_timeout;
  user = p.user;
}

-- `auth_session`. The HTTPException for another network is made and not raised.
unfoldable pub auth_session :
    {Token : Type 0}
    → Jwt Token
    → (String → Account → TonProof Token → Bool)
    → ℕ
    → Site
    → Account
    → TonProof Token
    → Option String
    → Result AuthError (JwtPayload × Token)
auth_session jwt verify now site account proof public_key =
    elim (auth_verify jwt verify now site account proof public_key) [
      | err e ↦ err unauthorized
      | ok p ↦ (let payload = session_payload now account p in ok (payload, jwt.encode payload))
    ]
