-- ===== src/Crypto/Kek/Hex.antt =====
-- The hexadecimal texts of services/identity/src/crypto/kek.rs and the keys that are loaded.
use home_ryanseipp.Prelude.{
  ℕ, ◌+◌, ◌*◌, ◌<◌, ◌/◌, ◌%◌, ◌≡◌, refl, sym, ap, none, some, length, ok, All, arith, bind-eq-ok,
  ensure, String, [], ◌∷◌, ltb, ◌-◌, if◌then◌else◌, ok-injective, ◌==◌,
}
use home_ryanseipp.Prelude.Text.{as_bytes, trim}
use home_ryanseipp.Effect.{Bytes}
use home_ryanseipp.Crypto.Primitives.{invalid_kek, Primitives}
use home_ryanseipp.Crypto.Kek.{Kek, hex_digit, join_digits, decode_pairs, decode_hex, KekSources}

-- A digit is below sixteen.
hex_digit-bound : (b d : ℕ) → hex_digit b ≡ ok d → d < 16
unfolding hex_digit
hex_digit-bound b d h = ground arith

join_digits-bound : (hi lo : ℕ) → hi < 16 → lo < 16 → join_digits hi lo < 256
join_digits-bound hi lo h k = omega arith

abbrev pub IsByte : ℕ → Type 0
IsByte b = b < 256

decode_pairs-bytes :
    (digits b : Bytes) → decode_pairs digits ≡ ok b → (length b * 2 ≡ length digits) × All IsByte b
unfolding decode_pairs
decode_pairs-bytes [] b h = rw (sym (ok-injective h)) (refl, tt)
decode_pairs-bytes (a ∷ []) b h = cc
decode_pairs-bytes (a ∷ c ∷ rest) b h =
    let (hi, e, h') = bind-eq-ok (hex_digit a) _ h in
    let (lo, e', h'') = bind-eq-ok (hex_digit c) _ h' in
    let (more, e'', last) = bind-eq-ok (decode_pairs rest) _ h'' in
    let (len, bytes) = decode_pairs-bytes rest more e'' in
    rw (sym (ok-injective last)) (
      omega (arith, len),
      (join_digits-bound hi lo (hex_digit-bound a hi e) (hex_digit-bound c lo e'), bytes),
    )

-- A text that is decoded has two bytes of UTF-8 for each byte of the result, without the white space
-- around it, and each byte of the result is below 256.
pub decode_hex-bytes :
    (hex : String) (b : Bytes)
    → decode_hex hex ≡ ok b
    → (length b * 2 ≡ length (as_bytes (trim hex))) × All IsByte b
unfolding decode_hex
decode_hex-bytes hex b h =
    let (u, e, rest) =
      bind-eq-ok (ensure (length (as_bytes (trim hex)) % 2 == 0) invalid_kek)
        (λ u. decode_pairs (as_bytes (trim hex))) h in
    decode_pairs-bytes (as_bytes (trim hex)) b rest

-- the small letter or figure of a digit
abbrev pub digit_char : ℕ → ℕ
digit_char n = if ltb n 10 then b'0' + n else b'a' + (n - 10)

-- The bytes in hexadecimal.
abbrev pub encode_pairs : Bytes → Bytes
encode_pairs [] = []
encode_pairs (b ∷ bs) = digit_char (b / 16) ∷ digit_char (b % 16) ∷ encode_pairs bs

hex_digit-digit_char : (n : ℕ) → n < 16 → hex_digit (digit_char n) ≡ ok n
unfolding hex_digit
hex_digit-digit_char n h = ground arith

-- Any bytes that are written in hexadecimal are read back.
pub decode_pairs-encode_pairs : (b : Bytes) → All IsByte b → decode_pairs (encode_pairs b) ≡ ok b
unfolding decode_pairs
decode_pairs-encode_pairs [] h = refl
decode_pairs-encode_pairs (b ∷ bs) h =
    rw
      (
        hex_digit-digit_char (b / 16) (omega (arith, h.0)),
        hex_digit-digit_char (b % 16) (omega arith),
        decode_pairs-encode_pairs bs h.1,
      )
      (ap (λ c. ok (c ∷ bs)) (omega (arith, h.0)))

-- What a loaded key is: the bytes of the first source that is set.
pub data IsLoaded (p : Primitives) (s : KekSources) (b : Bytes) : Type 0 where
  from_hex : (t : String) → s.hex ≡ some t → decode_hex t ≡ ok b → IsLoaded p s b
  from_base64 :
      (t : String) → s.hex ≡ none → s.base64 ≡ some t → p.b64_std_decode t ≡ some b → IsLoaded p s b
  from_file :
      (path : String)
      → s.hex ≡ none
      → s.base64 ≡ none
      → s.file ≡ some path
      → s.read path ≡ ok b
      → IsLoaded p s b

module _ (p : Primitives) (s : KekSources) (k : Kek) where
  abbrev Loaded : Type 0
  Loaded = IsLoaded p s k.bytes × (length k.bytes ≡ 32)
