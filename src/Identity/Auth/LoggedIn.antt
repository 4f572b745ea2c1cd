-- ===== src/Identity/Auth/LoggedIn.antt =====
-- The access token of services/login.rs before services/auth.rs.
use home_ryanseipp.Prelude.{
  ℕ, ◌+◌, ◌^◌, ◌≤◌, ◌<◌, String, false, some, [], ◌∷◌, ◌≡◌, refl, sym, ap, ◌∙◌, inl, inr, ok, ok_or,
  ok_or-eq-ok, bind-eq-ok, ok-injective, arith,
}
use home_ryanseipp.Prelude.Text.{◌⧺◌}
use home_ryanseipp.Prelude.Text.Trimming.{strip_prefix-append}
use home_ryanseipp.Effect.{
  Env, Uuid, Bytes, Timestamp, World, ask, ◌>>=◌, map_error, pool_get, query,
}
use home_ryanseipp.Crypto.Primitives.{
  Algorithm, es256, es384, JwtHeader, Claims, Primitives, Base64Laws, JsonLaws, SignatureLaws,
  serialization, signing,
}
use home_ryanseipp.Crypto.Keys.{as_str}
use home_ryanseipp.Crypto.Jwt.{EncodedJwt, sign_jwt, verify_jwt}
use home_ryanseipp.Crypto.Jwt.Acceptance.{Lists, AreCurrent}
use home_ryanseipp.Crypto.Jwt.RoundTrip.{split_three, verify_jwt-sign_jwt}
use home_ryanseipp.Identity.Accounts.{User, UserRow, Db, Externals}
use home_ryanseipp.Identity.Tables.{select_user_by_email}
use home_ryanseipp.Identity.Service.{user_from_row}
use home_ryanseipp.Identity.SigningKeys.{ActiveSigningKey, select_public_jwks, list_public_jwks}
use home_ryanseipp.Identity.SigningKeys.Soundness.{AreSound, IsPublished}
use home_ryanseipp.Identity.Auth.{
  present, extract_bearer_token, decode_jwt_header, check_token, options_at, seconds, authenticate,
}
use home_ryanseipp.Identity.Login as Login
use home_ryanseipp.Identity.Login.{LoginResult, access_claims, access_token_lifetime}
use home_ryanseipp.Identity.Login.Signing.{login-IsSignedFor}

-- `Uuid::parse_str` reads what `to_string` wrote.
pub record UuidLaws (p : Primitives) : Type 0 where
  pub parse-to_string : (id : Uuid) → p.uuid_of_string (p.uuid_to_string id) ≡ some id

abbrev header_of : Algorithm → String → JwtHeader
header_of a kid = record { alg = as_str a; typ = "JWT"; kid = kid }

-- The header comes first in a token.
decode_jwt_header-token :
    (p : Primitives) (h c s : Bytes) (header : JwtHeader)
    → Base64Laws p
    → p.header_of_json h ≡ some header
    → decode_jwt_header p ((p.b64_encode h ⧺ "." ⧺ p.b64_encode c) ⧺ "." ⧺ p.b64_encode s)
      ≡ ok header
unfolding decode_jwt_header
decode_jwt_header-token p h c s header b64 e =
    rw
      (
        split_three (p.b64_encode h) (p.b64_encode c) (p.b64_encode s) (b64.no_dot h) (b64.no_dot c)
            (b64.no_dot s),
        b64.decode-encode h,
        e,
      )
      refl

decode_jwt_header-sign_jwt :
    (p : Primitives) (a : Algorithm) (kid : String) (c : Claims) (key : Bytes) (seed : ℕ)
    (enc : EncodedJwt)
    → Base64Laws p
    → JsonLaws p
    → sign_jwt p a kid c key seed ≡ ok enc
    → decode_jwt_header p enc.token ≡ ok (header_of a kid)
unfolding sign_jwt
decode_jwt_header-sign_jwt p a kid c key seed enc b64 json signed =
    let made : Bytes → Bytes → Bytes → EncodedJwt = λ s hj cj. record {
      token = (p.b64_encode hj ⧺ "." ⧺ p.b64_encode cj) ⧺ "." ⧺ p.b64_encode s;
      kid = kid;
    } in
    let (hj, e1, h1) =
      bind-eq-ok (ok_or serialization (p.header_to_json (header_of a kid))) _ signed in
    let (cj, e2, h2) = bind-eq-ok (ok_or serialization (p.claims_to_json c)) _ h1 in
    let (s, e3, h3) =
      bind-eq-ok (ok_or signing (p.ecdsa_sign a key seed (p.b64_encode hj ⧺ "." ⧺ p.b64_encode cj)))
        (λ (s : Bytes). ok (made s hj cj)) h2 in
    let token : made s hj cj ≡ enc = ok-injective h3 in
    ap (λ (e : EncodedJwt). decode_jwt_header p e.token) (sym token)
    ∙ decode_jwt_header-token p hj cj s (header_of a kid) b64
        (json.header_round (header_of a kid) hj (ok_or-eq-ok _ _ e1))

-- The claims of a token are current until it expires.
access_claims-AreCurrent :
    (p : Primitives) (user : User) (now : Timestamp) (jti : Uuid) (later : Timestamp)
    → now ≤ later
    → later ≤ now + access_token_lifetime
    → now + access_token_lifetime < 2 ^ 64
    → AreCurrent (options_at (seconds later)) (access_claims p user now jti)
access_claims-AreCurrent p user now jti later from until bound = record {
  not_expired = ground arith;
  not_early = ground arith;
  issued = refl;
  addressed = refl;
}

user_from_row-id : (row : UserRow) (user : User) → user_from_row row ≡ ok user → user.id ≡ row.id
unfolding user_from_row
user_from_row-id row user h = ground arith

-- The run of `authenticate` for a token of a key that is published.
authenticate-signed :
    (later : Env) (p : Primitives) (kek : Bytes) (d : Db) (w : World Db) (token : String)
    (key : ActiveSigningKey) (key_row : IsPublished p kek d key) (claims : Claims) (id : Uuid)
    → w.db.signing_keys ≡ d.signing_keys
    → decode_jwt_header p token ≡ ok (header_of key.algorithm key.kid)
    → verify_jwt p token key_row.jwk (options_at (seconds (later.now (w.calls + 2)))) ≡ ok claims
    → claims.sub ≡ some (p.uuid_to_string id)
    → p.uuid_of_string (p.uuid_to_string id) ≡ some id
    → later.fails w.calls ≡ false
    → later.fails (w.calls + 1) ≡ false
    → (authenticate later p (present ("Bearer " ⧺ token)) w).0 ≡ ok id
unfolding authenticate extract_bearer_token list_public_jwks check_token select_public_jwks pool_get
    query ask ◌>>=◌ map_error
authenticate-signed later p kek d w token key key_row claims id keys header accepted sub parsed f1
      f2 =
    let third : w.calls + 1 + 1 ≡ w.calls + 2 = omega arith in
    rw
      (
        strip_prefix-append "Bearer " token,
        header,
        f1,
        f2,
        keys,
        key_row.read,
        key_row.listed,
        third,
        accepted,
        sub,
        parsed,
      )
      refl

both_allowed : (a : Algorithm) → Lists (es256 ∷ es384 ∷ []) a
both_allowed es256 = inl refl
both_allowed es384 = inr (inl refl)

module _ (later : Env) (p : Primitives) (b64 : Base64Laws p) (json : JsonLaws p)
    (sig : SignatureLaws p) (ids : UuidLaws p) where
  -- Under the laws of base64, JSON, ECDSA and ids, and if the stored keys are sound with a name each:
  -- what `login` answers is a bearer token for the account of the address. In any later state with the
  -- same keys, `authenticate` accepts it at any time from the login until it expires, as the id of
  -- that account, if its calls of the pool and the database do not fail.
  pub login-authenticate :
      (env : Env) (x : Externals) (email password : String) (kek : Bytes) (w v : World Db)
      (answer : LoginResult)
      → AreSound p kek w.db.signing_keys
      → (Login.execute env p x email password kek w).0 ≡ ok answer
      → v.db.signing_keys ≡ w.db.signing_keys
      → later.fails v.calls ≡ false
      → later.fails (v.calls + 1) ≡ false
      → answer.expires_at ≤ later.now (v.calls + 2) + access_token_lifetime
      → later.now (v.calls + 2) ≤ answer.expires_at
      → answer.expires_at < 2 ^ 64
      → (row : UserRow) × (select_user_by_email x.lower email w.db ≡ some row)
        × ((authenticate later p (present ("Bearer " ⧺ answer.access_token)) v).0 ≡ ok row.id)
  login-authenticate env x email password kek w v answer sound ran keys f1 f2 from until bound =
      let made = (login-IsSignedFor env p x email password kek).after w answer ran in
      let s = made.issued in
      let shown = s.published sound in
      let claims = access_claims p made.user s.now s.jti in
      let current : AreCurrent (options_at (seconds (later.now (v.calls + 2)))) claims =
        access_claims-AreCurrent p made.user s.now s.jti (later.now (v.calls + 2))
          (ground (arith, s.expires)) (ground (arith, s.expires)) (ground (arith, s.expires)) in
      let run =
        authenticate-signed later p kek w.db v s.encoded.token s.key shown claims made.user.id keys
          (decode_jwt_header-sign_jwt p s.key.algorithm s.key.kid claims s.key.key_pair s.seed
            s.encoded b64 json s.signed)
          (verify_jwt-sign_jwt p b64 json sig s.key.algorithm s.key.kid claims s.key.key_pair s.seed
            s.encoded shown.jwk (options_at (seconds (later.now (v.calls + 2)))) refl s.signed
            shown.shown (both_allowed s.key.algorithm) current)
          refl (ids.parse-to_string made.user.id) f1 f2 in
      (
        made.row,
        made.found,
        rw (s.token, run) (ap ok (user_from_row-id made.row made.user made.read)),
      )
