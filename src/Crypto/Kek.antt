-- ===== src/Crypto/Kek.antt =====
-- services/identity/src/crypto/kek.rs. The environment variables and the file system are an
-- argument. The digits are read from the bytes of the text.
pub mod Hex
use home_ryanseipp.Prelude.{
  ℕ, zero, suc, ◌+◌, ◌-◌, ◌*◌, ◌%◌, String, Bool, ◌&&◌, Option, none, some, List, [], ◌∷◌, length,
  Result, ok, err, map_err, ok_or, ensure, ◌>>=◌, ◌>>◌, leb, ◌==◌, if◌then◌else◌,
}
use home_ryanseipp.Prelude.Text.{◌⧺◌, trim, as_bytes}
use home_ryanseipp.Effect.{Bytes}
use home_ryanseipp.Crypto.Primitives.{CryptoError, invalid_kek, kek_load, Primitives}

pub record Kek : Type 0 where
  pub bytes : Bytes

-- `Kek::from_bytes`
unfoldable pub kek_from_bytes : Bytes → Result CryptoError Kek
kek_from_bytes bytes = do ensure (length bytes == 32) invalid_kek; ok (record { bytes = bytes })

-- `hex_digit`
unfoldable pub hex_digit : ℕ → Result CryptoError ℕ
hex_digit b =
    if leb b'0' b && leb b b'9'
    then ok (b - b'0')
    else if leb b'a' b && leb b b'f'
    then ok (b - b'a' + 10)
    else if leb b'A' b && leb b b'F'
    then ok (b - b'A' + 10)
    else err invalid_kek

-- `(hi << 4) | lo` of two digits, whose bits do not meet
abbrev pub join_digits : ℕ → ℕ → ℕ
join_digits hi lo = hi * 16 % 256 + lo

-- the pairs of digits; a lone one never comes, since the length is even
unfoldable pub decode_pairs : Bytes → Result CryptoError Bytes
decode_pairs [] = ok []
decode_pairs (a ∷ []) = err invalid_kek
decode_pairs (a ∷ b ∷ rest) = do
  hi ← hex_digit a
  lo ← hex_digit b
  more ← decode_pairs rest
  ok (join_digits hi lo ∷ more)

-- `decode_hex`
unfoldable pub decode_hex : String → Result CryptoError Bytes
decode_hex hex = do
  ensure (length (as_bytes (trim hex)) % 2 == 0) invalid_kek
  decode_pairs (as_bytes (trim hex))

-- The variables IDENTITY_KEK_HEX, IDENTITY_KEK_BASE64 and IDENTITY_KEK_FILE, each if it is set to a
-- text, and what reading a file gives.
pub record KekSources : Type 0 where
  pub hex : Option String
  pub base64 : Option String
  pub file : Option String
  pub read : String → Result String Bytes

abbrev pub read_error : String → CryptoError
read_error e = kek_load ("read failed: " ⧺ e)

-- `load_kek_from_file`
unfoldable pub load_kek_from_file : KekSources → String → Result CryptoError Kek
load_kek_from_file s path = do bytes ← map_err read_error (s.read path); kek_from_bytes bytes

abbrev pub load_hex : String → Result CryptoError Kek
load_hex hex_str = do bytes ← decode_hex hex_str; kek_from_bytes bytes

abbrev pub load_base64 : Primitives → String → Result CryptoError Kek
load_base64 p b64_str = do
  bytes ← ok_or invalid_kek (p.b64_std_decode b64_str)
  kek_from_bytes bytes

-- the third source and the refusal
abbrev pub load_file : KekSources → Option String → Result CryptoError Kek
load_file s (some path) = load_kek_from_file s path
load_file s none =
    err (
      kek_load "no KEK configured: set IDENTITY_KEK_HEX, IDENTITY_KEK_BASE64, or IDENTITY_KEK_FILE")

abbrev pub load_base64_or_file : Primitives → KekSources → Option String → Result CryptoError Kek
load_base64_or_file p s (some b64_str) = load_base64 p b64_str
load_base64_or_file p s none = load_file s s.file

abbrev pub load_first : Primitives → KekSources → Option String → Result CryptoError Kek
load_first p s (some hex_str) = load_hex hex_str
load_first p s none = load_base64_or_file p s s.base64

-- `load_kek`
unfoldable pub load_kek : Primitives → KekSources → Result CryptoError Kek
load_kek p s = load_first p s s.hex
