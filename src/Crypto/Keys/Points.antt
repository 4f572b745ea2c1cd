-- ===== src/Crypto/Keys/Points.antt =====
-- The public point in the JWK of crypto/jwk.rs and in crypto/jwt.rs.
use home_ryanseipp.Prelude.{
  ℕ, ◌+◌, ◌*◌, String, [], ◌∷◌, ◌++◌, ◌≡◌, ap, length, take, drop, take-append-drop, ok, arith, sym,
  ensure, ok-injective, bind-eq-ok, ensure-eq-ok, true, not, ◌||◌, ◌==◌,
}
use home_ryanseipp.Effect.{Bytes}
use home_ryanseipp.Crypto.Jwt.{public_key_bytes}
use home_ryanseipp.Crypto.Primitives.{
  Algorithm, es256, es384, Jwk, invalid_key_material, Primitives, Base64Laws,
}
use home_ryanseipp.Crypto.Keys.{as_str, coordinate_size, first_byte, public_jwk_from_pkcs8}

-- A point that passes the test of the format starts with 0x04.
point_of_test :
    (n : ℕ) (point : Bytes)
    → not (not (length point == 1 + 2 * n) || not (first_byte point == 0x04)) ≡ true
    → (r : Bytes) × (point ≡ 0x04 ∷ r)
point_of_test n [] h = absurd (ground arith)
point_of_test n (b ∷ r) h = (r, ground arith)

join_point :
    (a : Algorithm) (r : Bytes)
    → let n = coordinate_size a in take n (drop 1 (0x04 ∷ r)) ++ drop (1 + n) (0x04 ∷ r) ≡ r
unfolding coordinate_size
join_point es256 r = take-append-drop 32 r
join_point es384 r = take-append-drop 48 r

-- What `public_jwk_from_pkcs8` says of the key, and that `verify_jwt` reads the whole public point
-- back from its coordinates.
pub public_key_bytes-public_jwk_from_pkcs8 :
    (p : Primitives) (kid : String) (a : Algorithm) (der : Bytes) (jwk : Jwk)
    → Base64Laws p
    → public_jwk_from_pkcs8 p kid a der ≡ ok jwk
    → (jwk.kid ≡ kid) × (jwk.alg ≡ as_str a) × (public_key_bytes p jwk ≡ ok (p.public_key a der))
unfolding public_jwk_from_pkcs8 public_key_bytes
public_key_bytes-public_jwk_from_pkcs8 p kid a der jwk b64 h =
    let (_, _, h) = bind-eq-ok (ensure (p.accepts_pkcs8 a der) invalid_key_material) _ h in
    let (_, tested, h) = bind-eq-ok _ _ h in
    let (r, point) =
      point_of_test (coordinate_size a) (p.public_key a der) (ensure-eq-ok _ _ tested) in
    let same = ok-injective h in
    (
      ap (λ (j : Jwk). j.kid) (sym same),
      ap (λ (j : Jwk). j.alg) (sym same),
      rw (← same) (
          rw (b64.decode-encode, b64.decode-encode, point)
            (ap (λ (q : Bytes). ok (0x04 ∷ q)) (join_point a r))),
    )
