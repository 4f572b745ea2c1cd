-- ===== src/Crypto/Jwt/RoundTrip.antt =====
-- `sign_jwt` followed by `verify_jwt` (crypto/jwt.rs), under the JWK of crypto/jwk.rs.
use Prim.Native.Char.{Char}
use text.Mathlib.TextLemmas.{append_assoc, cons-append, nil-append}
use home_ryanseipp.Prelude.{
  ℕ, String, List, [], ◌∷◌, ◌≡◌, refl, ◌∙◌, ap, sym, ok, bind-eq-ok, ok_or-eq-ok, ok_or, false,
  ok-injective,
}
use home_ryanseipp.Prelude.Text.{◌⧺◌, split, split_whole, split-append, contains_char}
use home_ryanseipp.Effect.{Bytes}
use home_ryanseipp.Crypto.Primitives.{
  Algorithm, Jwk, JwtHeader, Claims, Primitives, Base64Laws, JsonLaws, SignatureLaws, serialization,
}
use home_ryanseipp.Crypto.Keys.{as_str, public_jwk_from_pkcs8}
use home_ryanseipp.Crypto.Keys.Points.{public_key_bytes-public_jwk_from_pkcs8}
use home_ryanseipp.Crypto.Jwt.{EncodedJwt, VerificationOptions, sign_jwt, verify_jwt}
use home_ryanseipp.Crypto.Jwt.Acceptance.{Lists, AreCurrent, verify_jwt_of_IsAccepted}

abbrev dot : Char
dot = "."

split_dot :
    (a t : String) → contains_char b'.' a ≡ false → split b'.' (a ⧺ "." ⧺ t) ≡ a ∷ split b'.' t
split_dot a t h =
    ap (λ (s : String). split b'.' (a ⧺ s))
      (cons-append dot "" t ∙ ap (String.◌∷◌ dot) (nil-append t))
    ∙ split-append b'.' a dot t h refl

-- Three parts without a full stop, joined by full stops, are found again.
pub split_three :
    (a b c : String)
    → contains_char b'.' a ≡ false
    → contains_char b'.' b ≡ false
    → contains_char b'.' c ≡ false
    → split b'.' ((a ⧺ "." ⧺ b) ⧺ "." ⧺ c) ≡ a ∷ b ∷ c ∷ []
split_three a b c ha hb hc =
    ap (split b'.') (
      append_assoc a ("." ⧺ b) ("." ⧺ c)
      ∙ ap (λ (s : String). a ⧺ s) (append_assoc "." b ("." ⧺ c)))
    ∙ split_dot a (b ⧺ "." ⧺ c) ha
    ∙ ap (λ (l : List String). a ∷ l) (split_dot b c hb)
    ∙ ap (λ (l : List String). a ∷ b ∷ l) (split_whole b'.' c hc)

module _ (p : Primitives) (b64 : Base64Laws p) (json : JsonLaws p) (sig : SignatureLaws p) where
  -- Under the laws of base64, JSON and ECDSA: a token that was signed with a key pair for claims
  -- without custom entries is accepted under the JWK of that pair, with the same claims, if the
  -- algorithm is allowed and the claims are current.
  pub verify_jwt-sign_jwt :
      (a : Algorithm) (kid : String) (c : Claims) (key : Bytes) (seed : ℕ) (enc : EncodedJwt)
      (jwk : Jwk) (o : VerificationOptions)
      → c.custom ≡ []
      → sign_jwt p a kid c key seed ≡ ok enc
      → public_jwk_from_pkcs8 p kid a key ≡ ok jwk
      → Lists o.allowed_algorithms a
      → AreCurrent o c
      → verify_jwt p enc.token jwk o ≡ ok c
  unfolding sign_jwt
  verify_jwt-sign_jwt a kid c key seed enc jwk o plain signed shown allowed current =
      let header : JwtHeader = record { alg = as_str a; typ = "JWT"; kid = kid } in
      let (hj, e1, h) = bind-eq-ok (ok_or serialization (p.header_to_json header)) _ signed in
      let (cj, e2, h) = bind-eq-ok _ _ h in
      let (s, e3, h) = bind-eq-ok _ _ h in
      let (same_kid, same_alg, point) =
        public_key_bytes-public_jwk_from_pkcs8 p kid a key jwk b64 shown in
      let token = ok-injective h in
      verify_jwt_of_IsAccepted p enc.token jwk o c (record {
        header_b64 = p.b64_encode hj;
        claims_b64 = p.b64_encode cj;
        sig_b64 = p.b64_encode s;
        header_bytes = hj;
        header = header;
        algorithm = a;
        point = p.public_key a key;
        signature = s;
        claims_bytes = cj;
        parts =
            ap (λ (e : EncodedJwt). split b'.' e.token) (sym token)
            ∙ split_three _ _ _ (b64.no_dot hj) (b64.no_dot cj) (b64.no_dot s);
        header_decoded = b64.decode-encode hj;
        header_read = json.header_round header hj (ok_or-eq-ok _ _ e1);
        named = refl;
        allowed = allowed;
        key = sym same_kid;
        key_point = point;
        signature_decoded = b64.decode-encode s;
        signed = sig.verify-sign a key seed _ s (ok_or-eq-ok _ _ e3);
        claims_decoded = b64.decode-encode cj;
        claims_read = json.claims_round c cj plain (ok_or-eq-ok _ _ e2);
        current = current;
      })
