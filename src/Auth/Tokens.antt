-- ===== src/Auth/Tokens.antt =====
-- The tokens that a node makes for its peers, and keeps: get_jwt_token of NFTorrent/auth.py, and
-- get_response_token, which checks the one in a response.
use nft_torrent.Base.{
  ℕ, ◌+◌, ◌≤◌, ◌<◌, ◌≡◌, refl, sym, ap, ◌∙◌, true, false, Option, none, some, List, [], ◌∷◌, arith,
  ltb, if◌then◌else◌, All, Bool-cases, Option-cases, inl, inr,
}
use nft_torrent.Base.Result.{Result, ok, err}
use nft_torrent.Auth.{
  JwtPayload, AuthError, unauthorized, Jwt, Node, is_blank, is_known, verify_jwt_token,
}
use Prim.Native.String.{String}
use text.Mathlib.Text.{◌==◌ as str_eq}
use text.Mathlib.TextEquality.{eq_iff}
use text.Mathlib.TextPositions.{eq_refl}

module _ {Token : Type 0} (jwt : Jwt Token) where
  -- `_jwt_cache`: the token for an audience, with its expiry
  abbrev pub JwtCache : Type 0
  JwtCache = List (String × Token × ℕ)

  pub cached : String → JwtCache → Option (Token × ℕ)
  cached audience [] = none
  cached audience ((other, token, expires) ∷ cache) =
      if str_eq other audience then some (token, expires) else cached audience cache

  abbrev pub node_payload : Node → String → ℕ → JwtPayload
  node_payload node audience expires = record {
    sub = some node.subject;
    aud = audience ∷ [];
    exp = expires;
    user = none;
  }

  -- A token for an hour
  abbrev pub new_token : ℕ → Node → String → JwtCache → Token × JwtCache
  new_token now node audience cache =
      let token = jwt.encode (node_payload node audience (now + 3600)) in
      (token, (audience, token, now + 3600) ∷ cache)

  unfoldable pub get_jwt_token : ℕ → Node → String → JwtCache → Token × JwtCache
  get_jwt_token now node audience cache = elim (cached audience cache) [
    | none ↦ new_token now node audience cache
    | some (token, expires) ↦
        if ltb (now + 60) expires then (token, cache) else new_token now node audience cache
  ]

  -- `response_credentials`, of the token in the header of a response: the error of the class
  -- ServerResponseAuthError is `unauthorized`.
  pub response_credentials : ℕ → Node → Option Token → String → Result AuthError (Option JwtPayload)
  response_credentials now node token server_ip =
      let refused : Result AuthError (Option JwtPayload) =
        if node.auto_error then err unauthorized else ok none in
      elim token [
        | none ↦ refused
        | some t ↦
            if jwt.is_empty t then refused else elim (verify_jwt_token jwt now node t server_ip) [
              | err e ↦ refused
              | ok p ↦ ok (some p)
            ]
      ]

  -- The tokens that are kept after some calls, the last one first
  unfoldable pub after_calls : Node → List (ℕ × String) → JwtCache
  after_calls node [] = []
  after_calls node ((now, audience) ∷ calls) =
      (get_jwt_token now node audience (after_calls node calls)).1

  -- Each token is the one of the node for its audience.
  Own : Node → String × Token × ℕ → Type 0
  Own node (audience, token, expires) = token ≡ jwt.encode (node_payload node audience expires)

  cached-Own :
      (node : Node) (audience : String) (cache : JwtCache) (token : Token) (expires : ℕ)
      → All (Own node) cache
      → cached audience cache ≡ some (token, expires)
      → token ≡ jwt.encode (node_payload node audience expires)
  unfolding cached Own
  cached-Own node audience [] token expires own e = ground arith
  cached-Own node audience ((other, t, x) ∷ cache) token expires own e =
      elim (Bool-cases (str_eq other audience)) [
        | inl same ↦
            let hit : ◌≡◌ {A = Option (Token × ℕ)} (some (t, x)) (some (token, expires)) =
              rw same at e in
            let t_same : t ≡ token = cc in
            let x_same : x ≡ expires = cc in
            let audiences : other ≡ audience = (eq_iff other audience).0 same in
            sym t_same
            ∙ own.0
            ∙ ap (λ a. jwt.encode (node_payload node a x)) audiences
            ∙ ap (λ z. jwt.encode (node_payload node audience z)) x_same
        | inr differ ↦ cached-Own node audience cache token expires own.1 (rw differ at e)
      ]

  -- What a call gives: an own token that lasts for more than a minute, and a cache of own tokens
  get_jwt_token-Own :
      (now : ℕ) (node : Node) (audience : String) (cache : JwtCache)
      → All (Own node) cache
      → let (token, cache') = get_jwt_token now node audience cache in
        ((expires : ℕ) × (token ≡ jwt.encode (node_payload node audience expires))
          × (now + 60 < expires))
        × All (Own node) cache'
  unfolding get_jwt_token Own
  get_jwt_token-Own now node audience cache own = elim (Option-cases (cached audience cache)) [
    | inl new ↦ rw (new, get_jwt_token) ((now + 3600, refl, omega arith), (refl, own))
    | inr ((token, expires), old) ↦ elim (Bool-cases (ltb (now + 60) expires)) [
      | inl fresh ↦
          rw (old, get_jwt_token, fresh)
            ((expires, cached-Own node audience cache token expires own old, ground arith), own)
      | inr late ↦ rw (old, get_jwt_token, late) ((now + 3600, refl, omega arith), (refl, own))
    ]
  ]

  after_calls-Own :
      (node : Node) (calls : List (ℕ × String)) → All (Own node) (after_calls node calls)
  unfolding after_calls
  after_calls-Own node [] = tt
  after_calls-Own node ((now, audience) ∷ calls) =
      (get_jwt_token-Own now node audience (after_calls node calls) (after_calls-Own node calls)).1

-- A node asks for a token for a peer, after any calls for tokens before. For a minute the peer,
-- which goes by the audience of the token, accepts it from the address that is the node's subject,
-- if it knows this subject and it is not empty: the payload names the subject and the peer.
pub verify_jwt_token-get_jwt_token :
    {Token : Type 0} (jwt : Jwt Token) (now later : ℕ) (node peer : Node)
    (calls : List (ℕ × String))
    → later ≤ now + 60
    → is_blank node.subject ≡ false
    → is_known peer node.subject ≡ true
    → (expires : ℕ) × (verify_jwt_token jwt later peer
          (get_jwt_token jwt now node peer.subject (after_calls jwt node calls)).0
          node.subject
        ≡ ok (node_payload jwt node peer.subject expires))
      × (now + 60 < expires)
unfolding verify_jwt_token
verify_jwt_token-get_jwt_token jwt now later node peer calls soon named known =
    let ((expires, made, long), own) =
      get_jwt_token-Own jwt now node peer.subject (after_calls jwt node calls)
        (after_calls-Own jwt node calls) in
    (
      expires,
      rw
          (
            made,
            verify_jwt_token,
            jwt.decodes later (node_payload jwt node peer.subject expires) peer.subject refl
                (omega arith),
            named,
            eq_refl node.subject,
            known,
          )
          refl,
      long,
    )
