-- ===== src/Auth/Sessions.antt =====
-- Who is let in, and that a session is recognised again.
use nft_torrent.Base.{
  ℕ, ◌+◌, ◌<◌, ◌≡◌, refl, ap, sym, ◌∙◌, Bool, true, false, not, Option, none, some, arith, leb, inl,
  inr, Bool-cases, Option-cases,
}
use nft_torrent.Base.Result.{Result, ok, err, ◌>>◌, raise_if, ok_bind, Result-cases}
use nft_torrent.Auth.{
  JwtPayload, AuthError, invalid_token, invalid_subject, bad_signature, Jwt, is_in, is_blank, Node,
  is_known, check_subject, verify_jwt_token, Request, client_ip, in_networks, authenticated,
  on_invalid, authorize_node, audience, auth_payload_expires_timeout, session_token_timeout, Site,
  authorize_session, Account, TonProof, auth_verify, session_payload, auth_session,
}
use Prim.Native.String.{String}
use text.Mathlib.Text.{◌==◌ as str_eq}
use text.Mathlib.TextEquality.{eq_iff}

raised_not : (b : Bool) (e : AuthError) (u : Unit {0}) → raise_if b e ≡ ok u → b ≡ false
raised_not true e u h = ground arith
raised_not false e u h = refl

check_subject-ok :
    (node : Node) (ip : String) (p q : JwtPayload)
    → check_subject node ip p ≡ ok q
    → (p ≡ q) × (p.sub ≡ some ip) × (is_known node ip ≡ true)
check_subject-ok node ip p q e = elim (Option-cases p.sub) [
  | inl missing ↦ let e' = (rw (missing, check_subject) at e) in ground arith
  | inr (s, present) ↦
      let e' = (rw (present, check_subject) at e) in
      let (u, e1, e2) =
        ok_bind
          (raise_if (is_blank s) invalid_subject
            >> raise_if (not (str_eq s ip)) invalid_subject
            >> raise_if (not (is_known node s)) invalid_subject)
          (λ x. ok p) q e' in
      let (v, e3, e4) =
        ok_bind
          (raise_if (is_blank s) invalid_subject >> raise_if (not (str_eq s ip)) invalid_subject)
          (λ x. raise_if (not (is_known node s)) invalid_subject) u e1 in
      let (w, e5, e6) =
        ok_bind (raise_if (is_blank s) invalid_subject)
          (λ x. raise_if (not (str_eq s ip)) invalid_subject) v e3 in
      let known = raised_not (not (is_known node s)) invalid_subject u e4 in
      let here = raised_not (not (str_eq s ip)) invalid_subject v e6 in
      let same = (eq_iff s ip).0 (ground arith) in
      (ground arith, present ∙ ap some same, ap (is_known node) (sym same) ∙ ground arith)
]

on_invalid-ok :
    (auto_error : Bool) (r : Result AuthError JwtPayload) (p : JwtPayload)
    → on_invalid auto_error r ≡ ok (authenticated p)
    → r ≡ ok p
on_invalid-ok auto_error (ok q) p e = ground arith
on_invalid-ok true (err x) p e = ground arith
on_invalid-ok false (err x) p e = ground arith

verify_jwt_token-ok :
    {Token : Type 0} (jwt : Jwt Token) (now : ℕ) (node : Node) (token : Token) (ip : String)
    (p : JwtPayload)
    → verify_jwt_token jwt now node token ip ≡ ok p
    → (jwt.decode now token node.subject ≡ some p) × (p.sub ≡ some ip) × (is_known node ip ≡ true)
unfolding verify_jwt_token
verify_jwt_token-ok jwt now node token ip p e =
    elim (Option-cases (jwt.decode now token node.subject)) [
      | inl bad ↦ let e' = (rw (bad, verify_jwt_token) at e) in ground arith
      | inr (q, good) ↦
          let (same, sub, known) =
            check_subject-ok node ip q p (rw (good, verify_jwt_token) at e) in
          (good ∙ ap some same, ap (λ x. x.sub) (sym same) ∙ sub, known)
    ]

-- A node that is let in by a token has shown one that decodes for this node, that names the address
-- it calls from, and that address is this node or one of its known peers.
pub authorize_node-authenticated :
    {Token : Type 0} (jwt : Jwt Token) (contains : String → String → Bool) (now : ℕ) (node : Node)
    (r : Request Token) (p : JwtPayload)
    → authorize_node jwt contains now node r ≡ ok (authenticated p)
    → let ip = client_ip node.real_ip_header r in
      (token : Token) × (r.credentials ≡ ok (some token))
      × (jwt.decode now token node.subject ≡ some p)
      × (p.sub ≡ some ip)
      × (is_known node ip ≡ true)
unfolding authorize_node verify_jwt_token
authorize_node-authenticated jwt contains now node r p e =
    let ip = client_ip node.real_ip_header r in
    elim (Bool-cases (in_networks contains node.allow_networks ip)) [
      | inl near ↦ let e' = (rw (near, authorize_node) at e) in ground arith
      | inr far ↦
          let e' = (rw (far, authorize_node) at e) in
          elim (Result-cases r.credentials) [
            | inr (x, bad) ↦ let e'' = (rw bad at e') in ground arith
            | inl (none, bare) ↦ let e'' = (rw bare at e') in ground arith
            | inl (some token, shown) ↦
                let v =
                  on_invalid-ok node.auto_error (verify_jwt_token jwt now node token ip) p
                    (rw shown at e') in
                let (d, sub, known) = verify_jwt_token-ok jwt now node token ip p v in
                (token, shown, d, sub, known)
          ]
    ]

auth_verify-ok :
    {Token : Type 0} (jwt : Jwt Token) (verify : String → Account → TonProof Token → Bool) (now : ℕ)
    (site : Site) (account : Account) (proof : TonProof Token) (public_key : Option String)
    (q : JwtPayload)
    → auth_verify jwt verify now site account proof public_key ≡ ok q
    → (now < proof.timestamp + auth_payload_expires_timeout)
      × (is_in site.domains proof.domain ≡ true)
      × (verify (elim public_key [ none ↦ account.public_key | some k ↦ k ]) account proof ≡ true)
unfolding auth_verify
auth_verify-ok jwt verify now site account proof public_key q e =
    let old = leb (proof.timestamp + auth_payload_expires_timeout) now in
    let away = not (is_in site.domains proof.domain) in
    let forged =
      not (verify (elim public_key [ none ↦ account.public_key | some k ↦ k ]) account proof) in
    let (u, e1, e2) =
      ok_bind
        (raise_if old bad_signature >> raise_if away bad_signature >> raise_if forged bad_signature)
        (λ x. (elim (jwt.decode now proof.payload audience) [
          | none ↦ err invalid_token
          | some p ↦ ok p
        ]))
        q e in
    let (v, e3, e4) =
      ok_bind (raise_if old bad_signature >> raise_if away bad_signature)
        (λ x. raise_if forged bad_signature) u e1 in
    let (w, e5, e6) =
      ok_bind (raise_if old bad_signature) (λ x. raise_if away bad_signature) v e3 in
    let f = raised_not forged bad_signature u e4 in
    let a = raised_not away bad_signature v e6 in
    let o = raised_not old bad_signature w e5 in (ground arith, ground arith, ground arith)

authorize_session-ok :
    {Token : Type 0} (jwt : Jwt Token) (contains : String → String → Bool) (now : ℕ) (site : Site)
    (r : Request Token) (token : Token) (p : JwtPayload)
    → r.cookie ≡ some token
    → jwt.is_empty token ≡ false
    → jwt.decode now token audience ≡ some p
    → authorize_session jwt contains now site r ≡ ok (some p)
unfolding authorize_session
authorize_session-ok jwt contains now site r token p cookie full d =
    rw (cookie, authorize_session) (rw full (rw d refl))

-- A session that a wallet gets for a proof is recognised from its token until it expires after two
-- weeks, as that of the address of the wallet. The proof is younger than three minutes and for a
-- domain of the site, and its signature is verified.
pub auth_session-authorize_session :
    {Token : Type 0} (jwt : Jwt Token) (verify : String → Account → TonProof Token → Bool)
    (contains : String → String → Bool) (now later : ℕ) (site : Site) (account : Account)
    (proof : TonProof Token) (public_key : Option String) (r : Request Token) (p : JwtPayload)
    (token : Token)
    → auth_session jwt verify now site account proof public_key ≡ ok (p, token)
    → r.cookie ≡ some token
    → jwt.is_empty token ≡ false
    → later < now + session_token_timeout
    → (authorize_session jwt contains later site r ≡ ok (some p))
      × (p.sub ≡ some account.address)
      × (now < proof.timestamp + auth_payload_expires_timeout)
      × (is_in site.domains proof.domain ≡ true)
      × (verify (elim public_key [ none ↦ account.public_key | some k ↦ k ]) account proof ≡ true)
unfolding auth_session authorize_session auth_verify
auth_session-authorize_session jwt verify contains now later site account proof public_key r p token
      e cookie full soon =
    elim (Result-cases (auth_verify jwt verify now site account proof public_key)) [
      | inr (x, bad) ↦ let e' = (rw (bad, auth_session) at e) in ground arith
      | inl (q, good) ↦
          let e' = (rw (good, auth_session) at e) in
          let made : session_payload now account q ≡ p = ground arith in
          let encoded : jwt.encode (session_payload now account q) ≡ token = ground arith in
          let (fresh, home, signed) =
            auth_verify-ok jwt verify now site account proof public_key q good in
          let d = jwt.decodes later (session_payload now account q) audience refl soon in
          let d' = (rw encoded at d) in
          (
            authorize_session-ok jwt contains later site r token p cookie full (d' ∙ ap some made),
            ap (λ x. x.sub) (sym made),
            fresh,
            home,
            signed,
          )
    ]
