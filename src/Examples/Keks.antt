-- ===== src/Examples/Keks.antt =====
-- Runs of the loading of a key (crypto/kek.rs).
use home_ryanseipp.Prelude.{ℕ, ◌*◌, none, some, [], ◌∷◌, length, ◌≡◌, refl, ok, All}
use home_ryanseipp.Prelude.Text.{trim, is_white, as_bytes}
use home_ryanseipp.Crypto.Kek.{hex_digit, decode_pairs, decode_hex, KekSources}
use home_ryanseipp.Crypto.Kek.Hex.{
  IsByte, decode_hex-bytes, encode_pairs, decode_pairs-encode_pairs,
}
use home_ryanseipp.Examples.Sessions.{ones}
use native.Mathlib.Omega.{arith}

toy_hex : decode_hex " 0aFf" ≡ ok (10 ∷ 255 ∷ [])
unfolding decode_hex decode_pairs hex_digit trim is_white as_bytes
toy_hex = refl

decode_hex-bytes_example :
    (length {A = ℕ} (10 ∷ 255 ∷ []) * 2 ≡ length (as_bytes (trim " 0aFf")))
    × All IsByte (10 ∷ 255 ∷ [])
decode_hex-bytes_example = decode_hex-bytes " 0aFf" (10 ∷ 255 ∷ []) toy_hex

decode_pairs-encode_pairs_example : decode_pairs (encode_pairs (10 ∷ 255 ∷ [])) ≡ ok (10 ∷ 255 ∷ [])
decode_pairs-encode_pairs_example =
    decode_pairs-encode_pairs (10 ∷ 255 ∷ []) (omega arith, (omega arith, tt))

abbrev from_a_file : KekSources
from_a_file = record { hex = none; base64 = none; file = some "/kek"; read = λ path. ok (ones 32) }
